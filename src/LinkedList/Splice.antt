-- ===== src/LinkedList/Splice.antt =====
-- `list_splice`, `list_splice_tail` and `list_splice_init`.
use mathlib.Core.List.{append-nil}
use mini_unix.Base.{◌≡◌, true, false, ◌||◌, List, [], ◌∷◌, ◌++◌, arith, ◌==◌, some, ==_ne, ap}
use mini_unix.LinkedList.{
  Ptr, null, Mem, init_list_head, list_empty, splice_between, list_splice, list_splice_tail,
  list_splice_init, set_next, set_prev, load_next, load_prev,
}
use mini_unix.LinkedList.Ring.{
  has, last, first, IsRing, IsRing-frame, Disjoint, Returns, returns, mono, has-append, has-last,
  has-first, Links-Front, Links-last, Links-join, Front-frame, Back-frame, Distinct-append,
  load_next_ok, load_prev_ok, store_next_ok, store_prev_ok,
}
use mini_unix.LinkedList.Add.{init_list_head-IsRing}
use mini_unix.LinkedList.Cut.{
  Cut, Ring-Cut, Cut-IsRing, last_in, last_not_in_ys, first_not_in_xs, last_ne_null, first_ne_null,
  has-ne,
}

-- The memory after `splice_between`: `f` and `l` are the first and last entry that move.
abbrev spliced : (f l before after : Ptr) → Mem → Mem
spliced f l before after m =
    set_prev after l (set_next l after (set_next before f (set_prev f before m)))

-- A ring cut in two and a ring that is not empty, with no address in common.
module _ {m : Mem} {head : Ptr} {xs ys : List Ptr} (c : Cut m head xs ys) {list a : Ptr}
    {bs : List Ptr} (r : IsRing m list (a ∷ bs))
    (apart : (p : Ptr)
      → has p (list ∷ a ∷ bs) ≡ true
      → ((p == head) || has p xs || has p ys) ≡ false) where
  abbrev joined : Mem
  joined = spliced a (last a bs) (last head xs) (first ys head) m

  tail_in : has (last a bs) (a ∷ bs) ≡ true
  tail_in = has-last a bs

  tail_apart : ((last a bs == head) || has (last a bs) xs || has (last a bs) ys) ≡ false
  tail_apart = apart (last a bs) (ground (arith, tail_in))

  a_apart : ((a == head) || has a xs || has a ys) ≡ false
  a_apart = apart a (ground arith)

  joined-Cut : Cut joined head xs ((a ∷ bs) ++ ys)
  joined-Cut = record {
    front =
        Front-frame m joined head xs c.left (λ p i ne. ground (arith, tail_apart))
          (λ p i. ground (arith, a_apart, first_not_in_xs c)) c.front;
    link = ground (arith, last_in c, has-first ys head, tail_apart, a_apart);
    back =
        Links-join joined head a bs ys
          (Front-frame m joined a bs r.distinct.1 (λ p i ne. ground (arith, last_in c, apart p))
            (λ p i. ground (arith, has-first ys head, apart p, r.distinct.1.0))
            (Links-Front m list a bs r.links.1))
          (ground (arith, last_in c, tail_apart, has-first ys head))
          (Back-frame m joined ys head c.right (λ p i. ground (arith, tail_apart, last_not_in_ys c))
            (λ p i ne. ground (arith, a_apart)) c.back);
    left = c.left;
    right = (
      ground (arith, has-append head (a ∷ bs) ys, apart head, c.right.0),
      Distinct-append (a ∷ bs) ys r.distinct.1 c.right.1 λ p i. ground (arith, apart p),
    );
    apart = λ p i. ground (arith, has-append p (a ∷ bs) ys, apart p, c.apart p);
    no_null = ground (arith, has-append null (a ∷ bs) ys, c.no_null, r.no_null);
  }

  a_not_null : (a == null) ≡ false
  a_not_null = ground (arith, r.no_null)

  list_not_null : (list == null) ≡ false
  list_not_null = ground (arith, r.no_null)

  tail_not_null : (last a bs == null) ≡ false
  tail_not_null = ==_ne _ _ λ e. has-ne _ null (a ∷ bs) tail_in (ground (arith, r.no_null)) e

  -- The source is not empty.
  list_empty-false : list_empty list m ≡ some (false, m)
  unfolding list_empty
  list_empty-false =
      rw (load_next_ok list list_not_null m, r.links.0.0)
        (ap (λ b. some (b, m)) (ground (arith, r.distinct.0)))

  splice_between-joined : splice_between list (last head xs) (first ys head) m ≡ some (tt, joined)
  unfolding splice_between
  splice_between-joined =
      let l = last a bs in
      let m1 = set_prev a (last head xs) m in
      let m2 = set_next (last head xs) a m1 in
      let m3 = set_next l (first ys head) m2 in
      rw (load_next_ok list list_not_null m, r.links.0.0)
        (rw (load_prev_ok list list_not_null m, (Links-last m list a bs r.links.1).1)
          (rw (store_prev_ok a a_not_null m, store_next_ok (last head xs) (last_ne_null c) m1)
            (rw (store_next_ok l tail_not_null m2)
              (store_prev_ok (first ys head) (first_ne_null c) m3 l))))

  joined-IsRing : IsRing joined head (xs ++ ((a ∷ bs) ++ ys))
  joined-IsRing = Cut-IsRing joined head xs ((a ∷ bs) ++ ys) joined-Cut

  -- The old head of the source is outside the joined ring.
  list_outside : has list (head ∷ (xs ++ ((a ∷ bs) ++ ys))) ≡ false
  list_outside = ground (
    arith,
    has-append list xs ((a ∷ bs) ++ ys),
    has-append list (a ∷ bs) ys,
    apart list,
    r.distinct.0,
  )

  init-joined :
      Returns
        (λ _ g. IsRing g head (xs ++ ((a ∷ bs) ++ ys)) × IsRing g list [])
        (init_list_head list joined)
  init-joined =
      mono (init_list_head-IsRing list joined list_not_null)
        λ _ g p. (IsRing-frame g (λ q i. p.1 q (ground (arith, list_outside))) joined-IsRing, p.0)

list_empty-true : {m : Mem} {list : Ptr} → IsRing m list [] → list_empty list m ≡ some (true, m)
unfolding list_empty
list_empty-true {m} {list} r =
    rw (load_next_ok list (ground (arith, r.no_null)) m, r.links.0)
      (ap (λ b. some (b, m)) (ground arith))

-- `list_splice` puts the entries `zs` of one list, in order, in front of those of another list, with
-- which it shares no address; `list_splice_tail` puts them behind; `list_splice_init` does as
-- `list_splice` and leaves the first list empty. None meets a NULL pointer, also if a list is empty.
pub list_splice-IsRing :
    {m : Mem} {head list : Ptr} (zs ys : List Ptr)
    → IsRing m head ys
    → IsRing m list zs
    → Disjoint (list ∷ zs) (head ∷ ys)
    → Returns (λ _ g. IsRing g head (zs ++ ys)) (list_splice list head m)
      × Returns (λ _ g. IsRing g head (ys ++ zs)) (list_splice_tail list head m)
      × Returns (λ _ g. IsRing g head (zs ++ ys) × IsRing g list []) (list_splice_init list head m)
unfolding list_splice list_splice_tail list_splice_init
list_splice-IsRing [] ys q r apart = (
  rw (list_empty-true r) (returns q),
  rw (list_empty-true r) (returns (rw append-nil q)),
  rw (list_empty-true r) (returns (q, r)),
)
list_splice-IsRing {m} {head} {list} (a ∷ bs) ys q r apart =
    let c = Ring-Cut m head [] ys q in
    let d = Ring-Cut m head ys [] (rw append-nil q) in
    let ca = λ (p : Ptr) (i : has p (list ∷ a ∷ bs) ≡ true).
      let e : ((p == head) || has p [] || has p ys) ≡ false = ground (arith, apart p) in e in
    let da = λ (p : Ptr) (i : has p (list ∷ a ∷ bs) ≡ true).
      let e : ((p == head) || has p ys || has p []) ≡ false = ground (arith, apart p) in e in
    let head_ok : (head == null) ≡ false = ground (arith, q.no_null) in
    let into : load_next head m ≡ some (first ys head, m) =
      rw (load_next_ok head head_ok m, c.link.0) in
    let behind : load_prev head m ≡ some (last head ys, m) =
      rw (load_prev_ok head head_ok m, d.link.1) in
    (
      rw (list_empty-false c r ca, into, splice_between-joined c r ca)
          (returns (joined-IsRing c r ca)),
      rw (list_empty-false d r da, behind, splice_between-joined d r da)
          (returns (rw append-nil at (joined-IsRing d r da))),
      rw (list_empty-false c r ca, into, splice_between-joined c r ca) (init-joined c r ca),
    )
