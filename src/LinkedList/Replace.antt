-- ===== src/LinkedList/Replace.antt =====
-- `list_replace` and `list_replace_init`.
use mini_unix.Base.{◌≡◌, ◌≢◌, false, ◌||◌, List, [], ◌∷◌, ◌++◌, arith, ◌==◌, some}
use mini_unix.LinkedList.{Ptr, null, Mem, list_replace, list_replace_init, set_next, set_prev}
use mini_unix.LinkedList.Ring.{
  has, last, first, IsRing, IsRing-frame, SameOutside, Returns, returns, mono, has-append,
  has-first, Links-Back, Links-join, Front-frame, Back-frame, load_next_ok, load_prev_ok,
  store_next_ok, store_prev_ok,
}
use mini_unix.LinkedList.Add.{init_list_head-IsRing}
use mini_unix.LinkedList.Cut.{
  Cut, Ring-Cut, Cut-IsRing, last_in, last_not_in_ys, last_ne_null, entry_links, entry_not_null,
  entry_not_first, entry_not_in_xs, after_ne_null,
}

abbrev replaced : (node before after : Ptr) → Mem → Mem
replaced node before after m =
    set_next before node (set_prev node before (set_prev after node (set_next node after m)))

module _ {m : Mem} {head old : Ptr} {xs ys : List Ptr} (c : Cut m head xs (old ∷ ys)) (node : Ptr)
    (not_null : (node == null) ≡ false)
    (fresh : ((node == old) || (node == head) || has node xs || has node ys) ≡ false) where
  abbrev swapped : Mem
  swapped = replaced node (last head xs) (first ys head) m

  node_ne_last : node ≢ last head xs
  node_ne_last = ground (arith, last_in c)

  node_ne_first : node ≢ first ys head
  node_ne_first = ground (arith, has-first ys head)

  swapped-Cut : Cut swapped head xs (node ∷ ys)
  swapped-Cut = record {
    front =
        Front-frame m swapped head xs c.left (λ a i ne. ground arith)
          (λ a i. ground (arith, c.apart a, has-first ys head, c.left.0)) c.front;
    link = ground (arith, node_ne_last, node_ne_first);
    back = Links-join swapped head node [] ys tt (ground (arith, node_ne_last, node_ne_first)) (
        Back-frame m swapped ys head (ground (arith, c.right.0), c.right.1.1)
          (λ a i. ground (arith, last_not_in_ys c)) (λ a i ne. ground arith)
          (Links-Back m head old ys c.back));
    left = c.left;
    right = (ground (arith, c.right.0), (ground arith, c.right.1.1));
    apart = λ a i. ground (arith, c.apart a);
    no_null = ground (arith, c.no_null);
  }

  -- The reads in between see what has just been written.
  list_replace-swapped : list_replace old node m ≡ some (tt, swapped)
  unfolding list_replace
  list_replace-swapped =
      let u = last head xs in
      let v = first ys head in
      let m1 = set_next node v m in
      let m2 = set_prev v node m1 in
      let m3 = set_prev node u m2 in
      let old_prev : m2.prev old ≡ u = ground (arith, entry_not_first c, entry_links c) in
      let node_next : m1.next node ≡ v = ground arith in
      let node_prev : m3.prev node ≡ u = ground arith in
      rw (load_next_ok old (entry_not_null c) m, (entry_links c).0, store_next_ok node not_null)
        (rw (load_next_ok node not_null m1, node_next, store_prev_ok v (after_ne_null c) m1)
          (rw (load_prev_ok old (entry_not_null c) m2, old_prev, store_prev_ok node not_null m2)
            (rw (load_prev_ok node not_null m3, node_prev)
              (store_next_ok u (last_ne_null c) m3 node))))

  swapped_outside :
      (a : Ptr)
      → ((a == node) || (a == head) || has a xs || has a ys) ≡ false
      → (swapped.next a ≡ m.next a) × (swapped.prev a ≡ m.prev a)
  swapped_outside a out = ground (arith, last_in c, has-first ys head)

module _ {m : Mem} {head : Ptr} (old : Ptr) (xs ys : List Ptr) (r : IsRing m head (xs ++ old ∷ ys))
    (node : Ptr) (not_null : (node == null) ≡ false)
    (fresh : has node (head ∷ xs ++ old ∷ ys) ≡ false) where
  is_fresh : ((node == old) || (node == head) || has node xs || has node ys) ≡ false
  is_fresh = ground (arith, has-append node xs (old ∷ ys))

  abbrev after : Mem
  after = replaced node (last head xs) (first ys head) m

  after-IsRing : IsRing after head (xs ++ node ∷ ys)
  after-IsRing =
      Cut-IsRing _ head xs (node ∷ ys)
        (swapped-Cut (Ring-Cut m head xs (old ∷ ys) r) node not_null is_fresh)

  -- `list_replace` puts a new entry that is not NULL in the place of an entry of a list, keeps the
  -- others and their order, and writes nothing else. `list_replace_init` does so too, and leaves the
  -- old entry as the head of an empty list.
  pub list_replace-IsRing :
      Returns
        (λ _ g. IsRing g head (xs ++ node ∷ ys) × SameOutside (node ∷ head ∷ xs ++ ys) m g)
        (list_replace old node m)
      × Returns
          (λ _ g. IsRing g head (xs ++ node ∷ ys) × IsRing g old [])
          (list_replace_init old node m)
  unfolding list_replace_init
  list_replace-IsRing =
      let c = Ring-Cut m head xs (old ∷ ys) r in
      (
        rw (list_replace-swapped c node not_null is_fresh) (
            returns (
              after-IsRing,
              λ a out.
                  swapped_outside c node not_null is_fresh a (ground (arith, has-append a xs ys)),
            )),
        rw (list_replace-swapped c node not_null is_fresh) (
            mono (init_list_head-IsRing old after (entry_not_null c)) λ _ g p. (
              IsRing-frame g
                  (λ a i. p.1 a (
                    ground (
                      arith,
                      has-append a xs (node ∷ ys),
                      entry_not_in_xs c,
                      c.right.0,
                      c.right.1.0,
                      is_fresh,
                    )))
                  after-IsRing,
              p.0,
            )),
      )
