-- ===== src/LinkedList/Del.antt =====
-- `list_del`, `list_del_init`, `list_move` and `list_move_tail`.
use mini_unix.Base.{
  ◌≡◌, ◌≢◌, refl, false, ◌||◌, List, [], ◌∷◌, ◌++◌, arith, ◌==◌, some, if◌then◌else◌,
}
use mini_unix.LinkedList.{
  Ptr, null, Mem, del_between, init_list_head, list_del, list_del_init, list_move, list_move_tail,
  set_next, set_prev, load_next, load_prev,
}
use mini_unix.LinkedList.Ring.{
  has, last, first, IsRing, IsRing-frame, SameOutside, Disjoint, Returns, returns, mono, has-append,
  has-first, Links-Back, Front-frame, Back-frame, load_next_ok, load_prev_ok, store_next_ok,
  store_prev_ok,
}
use mini_unix.LinkedList.Add.{list_add-IsRing, list_add_tail-IsRing}
use mini_unix.LinkedList.Cut.{
  Cut, Ring-Cut, Cut-IsRing, last_in, last_not_in_ys, last_ne_null, entry_links, entry_not_null,
  entry_not_last, entry_not_first, entry_not_in_xs, after_ne_null,
}

abbrev deleted : (before after : Ptr) → Mem → Mem
deleted before after m = set_prev after before (set_next before after m)

-- `g` is `m` with one entry unlinked; what the entry itself holds is open.
record Unlinked (m g : Mem) (entry before after : Ptr) : Type 0 where
  next : (a : Ptr) → a ≢ entry → g.next a ≡ (if a == before then after else m.next a)
  prev : (a : Ptr) → a ≢ entry → g.prev a ≡ (if a == after then before else m.prev a)

module _ {m : Mem} {head e : Ptr} {xs ys : List Ptr} (c : Cut m head xs (e ∷ ys)) where
  Unlinked-Cut : (g : Mem) → Unlinked m g e (last head xs) (first ys head) → Cut g head xs ys
  Unlinked-Cut g u = record {
    front =
        Front-frame m g head xs c.left
          (λ a i ne. ground (arith, u.next a, entry_not_in_xs c, c.right.0))
          (λ a i. ground (arith, u.prev a, c.apart a, has-first ys head, c.left.0)) c.front;
    link =
        ground (
          arith,
          u.next (last head xs),
          u.prev (first ys head),
          entry_not_last c,
          entry_not_first c,
        );
    back =
        Back-frame m g ys head (ground (arith, c.right.0), c.right.1.1)
          (λ a i. ground (arith, u.next a, last_not_in_ys c, c.right.1.0))
          (λ a i ne. ground (arith, u.prev a, c.right.0, c.right.1.0))
          (Links-Back m head e ys c.back);
    left = c.left;
    right = (ground (arith, c.right.0), c.right.1.1);
    apart = λ a i. ground (arith, c.apart a);
    no_null = ground (arith, c.no_null);
  }

  deleted-Unlinked :
      Unlinked m (deleted (last head xs) (first ys head) m) e (last head xs) (first ys head)
  deleted-Unlinked = record { next = λ a ne. refl; prev = λ a ne. refl }

  del_between-deleted :
      del_between (last head xs) (first ys head) m
      ≡ some (tt, deleted (last head xs) (first ys head) m)
  unfolding del_between
  del_between-deleted =
      rw (store_next_ok (last head xs) (last_ne_null c) m)
        (store_prev_ok (first ys head) (after_ne_null c) _ _)

  load_prev_entry : load_prev e m ≡ some (last head xs, m)
  load_prev_entry = rw (load_prev_ok e (entry_not_null c) m, (entry_links c).1)

  load_next_entry : load_next e m ≡ some (first ys head, m)
  load_next_entry = rw (load_next_ok e (entry_not_null c) m, (entry_links c).0)

  -- Of the addresses outside the ring only the entry is written.
  deleted_outside :
      (a : Ptr)
      → ((a == head) || has a xs || has a ys) ≡ false
      → let g = deleted (last head xs) (first ys head) m in
        (g.next a ≡ m.next a) × (g.prev a ≡ m.prev a)
  deleted_outside a out = ground (arith, last_in c, has-first ys head)

module _ {m : Mem} {head : Ptr} (e : Ptr) (xs ys : List Ptr)
    (r : IsRing m head (xs ++ e ∷ ys)) where
  -- `list_del` of an entry of a list meets no NULL pointer, leaves the list without that entry and
  -- otherwise as it was, sets both pointers of the entry to NULL and writes nothing outside the list.
  pub list_del-IsRing :
      Returns
        (λ _ g.
          IsRing g head (xs ++ ys)
          × (g.next e ≡ null)
          × (g.prev e ≡ null)
          × SameOutside (head ∷ xs ++ e ∷ ys) m g)
        (list_del e m)
  unfolding list_del
  list_del-IsRing =
      let c = Ring-Cut m head xs (e ∷ ys) r in
      let g = deleted (last head xs) (first ys head) m in
      rw (load_prev_entry c, load_next_entry c, del_between-deleted c)
        (rw (store_prev_ok e (entry_not_null c), store_next_ok e (entry_not_null c))
          (returns (
            Cut-IsRing _ head xs ys (
                Unlinked-Cut c (set_next e null (set_prev e null g))
                  (record { next = λ a ne. ground arith; prev = λ a ne. ground arith })),
            ground arith,
            ground arith,
            λ a out. ground (arith, has-append a xs (e ∷ ys), deleted_outside c a),
          )))

  -- `list_del_init` of an entry of a list meets no NULL pointer, leaves the list without that entry and
  -- otherwise as it was, and the entry as the head of an empty list, and writes nothing outside the list.
  pub list_del_init-IsRing :
      Returns
        (λ _ g. IsRing g head (xs ++ ys) × IsRing g e [] × SameOutside (head ∷ xs ++ e ∷ ys) m g)
        (list_del_init e m)
  unfolding list_del_init init_list_head
  list_del_init-IsRing =
      let c = Ring-Cut m head xs (e ∷ ys) r in
      let g = deleted (last head xs) (first ys head) m in
      rw (load_prev_entry c, load_next_entry c, del_between-deleted c)
        (rw (store_next_ok e (entry_not_null c), store_prev_ok e (entry_not_null c))
          (returns (
            Cut-IsRing _ head xs ys (
                Unlinked-Cut c (set_prev e e (set_next e e g))
                  (record { next = λ a ne. ground arith; prev = λ a ne. ground arith })),
            record {
              links = ground arith;
              distinct = (refl, tt);
              no_null = ground (arith, entry_not_null c);
            },
            λ a out. ground (arith, has-append a xs (e ∷ ys), deleted_outside c a),
          )))

  deleted-IsRing : IsRing (deleted (last head xs) (first ys head) m) head (xs ++ ys)
  deleted-IsRing =
      let c = Ring-Cut m head xs (e ∷ ys) r in
      Cut-IsRing _ head xs ys (Unlinked-Cut c _ (deleted-Unlinked c))

  -- `list_move` (`list_move_tail`) of an entry within its own list takes it out of its place and puts
  -- it first (last).
  pub list_move-IsRing :
      Returns (λ _ g. IsRing g head (e ∷ xs ++ ys)) (list_move e head m)
      × Returns (λ _ g. IsRing g head ((xs ++ ys) ++ e ∷ [])) (list_move_tail e head m)
  unfolding list_move list_move_tail
  list_move-IsRing =
      let c = Ring-Cut m head xs (e ∷ ys) r in
      let fresh : has e (head ∷ xs ++ ys) ≡ false =
        ground (arith, has-append e xs ys, entry_not_in_xs c, c.right.0, c.right.1.0) in
      (
        rw (load_prev_entry c, load_next_entry c, del_between-deleted c)
            (mono (list_add-IsRing deleted-IsRing e (entry_not_null c) fresh) λ _ g p. p.0),
        rw (load_prev_entry c, load_next_entry c, del_between-deleted c)
            (mono (list_add_tail-IsRing deleted-IsRing e (entry_not_null c) fresh) λ _ g p. p.0),
      )

  -- To another list, which shares no address with the first, `list_move` (`list_move_tail`) takes the
  -- entry out of its own list and puts it first (last) in the other.
  pub list_move-IsRing_other :
      (other : Ptr) (zs : List Ptr)
      → IsRing m other zs
      → Disjoint (head ∷ xs ++ e ∷ ys) (other ∷ zs)
      → Returns (λ _ g. IsRing g head (xs ++ ys) × IsRing g other (e ∷ zs)) (list_move e other m)
        × Returns
            (λ _ g. IsRing g head (xs ++ ys) × IsRing g other (zs ++ e ∷ []))
            (list_move_tail e other m)
  unfolding list_move list_move_tail
  list_move-IsRing_other other zs q apart =
      let c = Ring-Cut m head xs (e ∷ ys) r in
      let g = deleted (last head xs) (first ys head) m in
      let q' : IsRing g other zs =
        IsRing-frame g
          (λ a i. ground (arith, apart a, has-append a xs (e ∷ ys), deleted_outside c a)) q in
      let fresh : has e (other ∷ zs) ≡ false = ground (arith, apart e, has-append e xs (e ∷ ys)) in
      let kept = λ (h : Mem) (out : SameOutside (e ∷ other ∷ zs) g h).
        let r' : IsRing h head (xs ++ ys) =
          IsRing-frame h
            (λ a i. out a (
              ground (
                arith,
                apart a,
                has-append a xs ys,
                has-append a xs (e ∷ ys),
                entry_not_in_xs c,
                c.right.0,
                c.right.1.0,
              )))
            deleted-IsRing in
        r' in
      (
        rw (load_prev_entry c, load_next_entry c, del_between-deleted c)
            (mono (list_add-IsRing q' e (entry_not_null c) fresh) λ _ h p. (kept h p.1, p.0)),
        rw (load_prev_entry c, load_next_entry c, del_between-deleted c)
            (mono (list_add_tail-IsRing q' e (entry_not_null c) fresh) λ _ h p. (kept h p.1, p.0)),
      )
