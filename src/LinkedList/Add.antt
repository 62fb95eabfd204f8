-- ===== src/LinkedList/Add.antt =====
-- `INIT_LIST_HEAD`, `list_add` and `list_add_tail`.
use mathlib.Core.List.{append-nil}
use mini_unix.Base.{◌≡◌, refl, false, List, [], ◌∷◌, ◌++◌, arith, ◌==◌}
use mini_unix.LinkedList.{Ptr, null, Mem, init_list_head, list_add, list_add_tail}
use mini_unix.LinkedList.Ring.{
  has, IsRing, SameOutside, Returns, returns, load_next_ok, load_prev_ok, store_next_ok,
  store_prev_ok,
}
use mini_unix.LinkedList.Cut.{Ring-Cut, add_between-IsRing}

-- `INIT_LIST_HEAD` makes its argument, if it is not NULL, the head of an empty list.
pub init_list_head-IsRing :
    (list : Ptr) (m : Mem)
    → (list == null) ≡ false
    → Returns (λ _ g. IsRing g list [] × SameOutside (list ∷ []) m g) (init_list_head list m)
unfolding init_list_head
init_list_head-IsRing list m ok =
    rw (store_next_ok list ok, store_prev_ok list ok)
      (returns (
        record { links = ground arith; distinct = (refl, tt); no_null = ground arith },
        λ a out. ground arith,
      ))

module _ {m : Mem} {head : Ptr} {xs : List Ptr} (r : IsRing m head xs) (node : Ptr)
    (not_null : (node == null) ≡ false) (fresh : has node (head ∷ xs) ≡ false) where
  -- Put at the front: `list_add` on a list that holds `xs` and a new entry that is not NULL meets no
  -- NULL pointer, leaves the list holding the entry and then `xs`, and writes to no other entry.
  pub list_add-IsRing :
      Returns
        (λ _ g. IsRing g head (node ∷ xs) × SameOutside (node ∷ head ∷ xs) m g)
        (list_add node head m)
  unfolding list_add
  list_add-IsRing =
      let c = Ring-Cut m head [] xs r in
      rw (load_next_ok head (ground (arith, r.no_null)) m, c.link.0)
        (add_between-IsRing c (record {
          not_null = not_null;
          not_head = ground arith;
          not_left = refl;
          not_right = ground arith;
        }))

  -- Put at the back: `list_add_tail` on a list that holds `xs` and a new entry that is not NULL meets no
  -- NULL pointer, leaves the list holding `xs` and then the entry, and writes to no other entry.
  pub list_add_tail-IsRing :
      Returns
        (λ _ g. IsRing g head (xs ++ node ∷ []) × SameOutside (node ∷ head ∷ xs) m g)
        (list_add_tail node head m)
  unfolding list_add_tail
  list_add_tail-IsRing =
      let c = Ring-Cut m head xs [] (rw append-nil r) in
      rw (load_prev_ok head (ground (arith, r.no_null)) m, c.link.1)
        (rw append-nil at (
          add_between-IsRing c (record {
            not_null = not_null;
            not_head = ground arith;
            not_left = ground arith;
            not_right = refl;
          })))
