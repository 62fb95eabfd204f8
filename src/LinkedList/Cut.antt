-- ===== src/LinkedList/Cut.antt =====
-- A ring cut in two, and a new entry put between the parts: `__list_add`.
use mini_unix.Base.{
  ◌≡◌, ◌≢◌, true, false, ◌||◌, List, [], ◌∷◌, ◌++◌, ◌⊎◌, inl, inr, arith, ◌==◌, some, ==_ne, ap,
}
use mini_unix.LinkedList.{Ptr, null, Mem, set_next, set_prev, add_between}
use mini_unix.LinkedList.Ring.{
  has, Distinct, last, first, Link, Front, Back, IsRing, SameOutside, Returns, returns, has-append,
  Links-join, Links-parts, Links-first, Distinct-left, Distinct-right, Distinct-apart,
  Distinct-append, has-last, has-first, store_next_ok, store_prev_ok, Front-frame, Back-frame,
}

pub has-ne : (a b : Ptr) (xs : List Ptr) → has a xs ≡ true → has b xs ≡ false → a ≢ b
has-ne a b xs i o e = cc (ap (λ x. has x xs) e)

-- A ring whose entries fall into two runs, with the two addresses between which an edit happens.
pub record Cut (m : Mem) (head : Ptr) (xs ys : List Ptr) : Type 0 where
  pub front : Front m head xs
  pub link : Link m (last head xs) (first ys head)
  pub back : Back m ys head
  pub left : Distinct (head ∷ xs)
  pub right : Distinct (head ∷ ys)
  pub apart : (a : Ptr) → has a xs ≡ true → has a ys ≡ false
  pub no_null : ((null == head) || has null xs || has null ys) ≡ false

pub Ring-Cut :
    (m : Mem) (head : Ptr) (xs ys : List Ptr) → IsRing m head (xs ++ ys) → Cut m head xs ys
Ring-Cut m head xs ys r =
    let (f, l, b) = Links-parts m head head xs ys r.links in
    record {
      front = f;
      link = l;
      back = b;
      left = Distinct-left (head ∷ xs) ys r.distinct;
      right = (
        ground (arith, has-append head xs ys, r.distinct.0),
        Distinct-right (head ∷ xs) ys r.distinct,
      );
      apart = λ a i. Distinct-apart a xs ys r.distinct.1 i;
      no_null = ground (arith, has-append null xs ys, r.no_null);
    }

pub Cut-IsRing :
    (m : Mem) (head : Ptr) (xs ys : List Ptr) → Cut m head xs ys → IsRing m head (xs ++ ys)
Cut-IsRing m head xs ys c = record {
  links = Links-join m head head xs ys c.front c.link c.back;
  distinct = (
    ground (arith, has-append head xs ys, c.left.0, c.right.0),
    Distinct-append xs ys c.left.1 c.right.1 c.apart,
  );
  no_null = ground (arith, has-append null xs ys, c.no_null);
}

module _ {m : Mem} {head : Ptr} {xs ys : List Ptr} (c : Cut m head xs ys) where
  -- where the two ends of the cut lie
  pub last_in : (last head xs ≡ head) ⊎ (has (last head xs) xs ≡ true)
  last_in = ground (arith, has-last head xs)

  pub last_not_in_ys : has (last head xs) ys ≡ false
  last_not_in_ys = ground (arith, last_in, c.apart (last head xs), c.right.0)

  pub first_not_in_xs : has (first ys head) xs ≡ false
  first_not_in_xs = elim (has-first ys head) [
    | inl i ↦ ground (arith, c.apart (first ys head))
    | inr e ↦ rw e c.left.0
  ]

  pub last_ne_null : (last head xs == null) ≡ false
  last_ne_null =
      ==_ne _ _ λ e. has-ne _ null (head ∷ xs) (has-last head xs) (ground (arith, c.no_null)) e

  pub first_ne_null : (first ys head == null) ≡ false
  first_ne_null = ==_ne _ _ λ e. elim (has-first ys head) [
    | inl i ↦ has-ne _ null ys i (ground (arith, c.no_null)) e
    | inr h ↦ absurd (ground (arith, c.no_null))
  ]

-- The entry behind the cut.
module _ {m : Mem} {head e : Ptr} {xs ys : List Ptr} (c : Cut m head xs (e ∷ ys)) where
  -- the pointers of the entry
  pub entry_links : (m.next e ≡ first ys head) × (m.prev e ≡ last head xs)
  entry_links = ((Links-first m head e ys c.back).0, c.link.1)

  pub entry_not_null : (e == null) ≡ false
  entry_not_null = ground (arith, c.no_null)

  pub entry_not_last : (last head xs == e) ≡ false
  entry_not_last = ground (arith, last_not_in_ys c)

  pub entry_not_first : (first ys head == e) ≡ false
  entry_not_first = ground (arith, has-first ys head, c.right.0, c.right.1)

  pub entry_not_in_xs : has e xs ≡ false
  entry_not_in_xs = first_not_in_xs c

  pub after_ne_null : (first ys head == null) ≡ false
  after_ne_null = ==_ne _ _ λ e. elim (has-first ys head) [
    | inl i ↦ has-ne _ null ys i (ground (arith, c.no_null)) e
    | inr h ↦ absurd (ground (arith, c.no_null))
  ]

-- The memory that `add_between` leaves.
abbrev added : (node before after : Ptr) → Mem → Mem
added node before after m =
    set_next before node (set_prev node before (set_next node after (set_prev after node m)))

add_between-added :
    (node before after : Ptr) (m : Mem)
    → (node == null) ≡ false
    → (before == null) ≡ false
    → (after == null) ≡ false
    → add_between node before after m ≡ some (tt, added node before after m)
unfolding add_between
add_between-added node before after m n b a =
    rw (store_prev_ok after a, store_next_ok node n, store_prev_ok node n, store_next_ok before b)

-- An address in neither run, fit to be a new entry.
pub record IsNew (node head : Ptr) (xs ys : List Ptr) : Type 0 where
  pub not_null : (node == null) ≡ false
  pub not_head : (node == head) ≡ false
  pub not_left : has node xs ≡ false
  pub not_right : has node ys ≡ false

module _ {m : Mem} {head : Ptr} {xs ys : List Ptr} (c : Cut m head xs ys) {node : Ptr}
    (n : IsNew node head xs ys) where
  abbrev grown : Mem
  grown = added node (last head xs) (first ys head) m

  node_ne_last : node ≢ last head xs
  node_ne_last = ground (arith, last_in c, n.not_head, n.not_left)

  node_ne_first : node ≢ first ys head
  node_ne_first = ground (arith, has-first ys head, n.not_head, n.not_right)

  grown-Cut : Cut grown head xs (node ∷ ys)
  grown-Cut = record {
    front =
        Front-frame m grown head xs c.left (λ a i ne. ground (arith, n.not_head, n.not_left))
          (λ a i. ground (arith, n.not_left, first_not_in_xs c)) c.front;
    link = ground (arith, node_ne_last, node_ne_first);
    back = Links-join grown head node [] ys tt (ground (arith, node_ne_last, node_ne_first)) (
        Back-frame m grown ys head c.right (λ a i. ground (arith, n.not_right, last_not_in_ys c))
          (λ a i ne. ground (arith, n.not_head, n.not_right)) c.back);
    left = c.left;
    right = (ground (arith, n.not_head, c.right.0), (n.not_right, c.right.1));
    apart = λ a i. ground (arith, n.not_left, c.apart a);
    no_null = ground (arith, n.not_null, c.no_null);
  }

  SameOutside-grown :
      (a : Ptr)
      → ((a == node) || (a == head) || has a xs || has a ys) ≡ false
      → (grown.next a ≡ m.next a) × (grown.prev a ≡ m.prev a)
  SameOutside-grown a out = ground (arith, last_in c, has-first ys head)

  pub add_between-IsRing :
      Returns
        (λ _ g. IsRing g head (xs ++ node ∷ ys) × SameOutside (node ∷ head ∷ xs ++ ys) m g)
        (add_between node (last head xs) (first ys head) m)
  add_between-IsRing =
      rw (add_between-added node _ _ m n.not_null (last_ne_null c) (first_ne_null c)) (
        returns (
          Cut-IsRing grown head xs (node ∷ ys) grown-Cut,
          λ a out. SameOutside-grown a (ground (arith, has-append a xs ys)),
        ))
