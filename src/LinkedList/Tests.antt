-- ===== src/LinkedList/Tests.antt =====
-- Two lists in one memory: 1 heads 2, 3, 4 and 10 heads 11, 12.
use mini_unix.Base.{◌≡◌, refl, false, Option, some, none, List, [], ◌∷◌, arith, ◌==◌, if◌then◌else◌}
use mini_unix.LinkedList.{
  Ptr, null, Mem, M, ◌>>◌, init_list_head, list_add, list_add_tail, list_del, list_del_init,
  list_replace, list_replace_init, list_move, list_move_tail, list_empty, list_is_singular,
  list_splice, list_splice_tail, list_splice_init, list_for_each, list_for_each_prev, add_between,
  del_between, walk, load_next, load_prev, store_next, store_prev,
}
use mini_unix.LinkedList.Ring.{IsRing, SameOutside, Disjoint, Returns}
use mini_unix.LinkedList.Add.{init_list_head-IsRing, list_add-IsRing, list_add_tail-IsRing}
use mini_unix.LinkedList.Del.{
  list_del-IsRing, list_del_init-IsRing, list_move-IsRing, list_move-IsRing_other,
}
use mini_unix.LinkedList.Replace.{list_replace-IsRing}
use mini_unix.LinkedList.Splice.{list_splice-IsRing}
use mini_unix.LinkedList.Queries.{list_queries, list_for_each_lem}

abbrev next_of : Ptr → Ptr
next_of p =
    if p == 1
    then 2
    else if p == 2
    then 3
    else if p == 3
    then 4
    else if p == 4
    then 1
    else if p == 10
    then 11
    else if p == 11
    then 12
    else if p == 12
    then 10
    else 0

abbrev prev_of : Ptr → Ptr
prev_of p =
    if p == 1
    then 4
    else if p == 2
    then 1
    else if p == 3
    then 2
    else if p == 4
    then 3
    else if p == 10
    then 12
    else if p == 11
    then 10
    else if p == 12
    then 11
    else 0

abbrev memory : Mem
memory = record { next = next_of; prev = prev_of }

abbrev three : List Ptr
three = 2 ∷ 3 ∷ 4 ∷ []

abbrev two : List Ptr
two = 11 ∷ 12 ∷ []

three-IsRing : IsRing memory 1 three
three-IsRing = record {
  links = ((refl, refl), ((refl, refl), ((refl, refl), (refl, refl))));
  distinct = (refl, (refl, (refl, (refl, tt))));
  no_null = refl;
}

two-IsRing : IsRing memory 10 two
two-IsRing = record {
  links = ((refl, refl), ((refl, refl), (refl, refl)));
  distinct = (refl, (refl, (refl, tt)));
  no_null = refl;
}

three-two : Disjoint (1 ∷ three) (10 ∷ two)
three-two a i = ground arith

init_list_head_example :
    Returns (λ _ g. IsRing g 20 [] × SameOutside (20 ∷ []) memory g) (init_list_head 20 memory)
init_list_head_example = init_list_head-IsRing 20 memory refl

list_add_example :
    Returns
      (λ _ g. IsRing g 1 (20 ∷ three) × SameOutside (20 ∷ 1 ∷ three) memory g)
      (list_add 20 1 memory)
list_add_example = list_add-IsRing three-IsRing 20 refl refl

list_add_tail_example :
    Returns
      (λ _ g. IsRing g 1 (2 ∷ 3 ∷ 4 ∷ 20 ∷ []) × SameOutside (20 ∷ 1 ∷ three) memory g)
      (list_add_tail 20 1 memory)
list_add_tail_example = list_add_tail-IsRing three-IsRing 20 refl refl

list_del_example :
    Returns
      (λ _ g.
        IsRing g 1 (2 ∷ 4 ∷ [])
        × (g.next 3 ≡ null)
        × (g.prev 3 ≡ null)
        × SameOutside (1 ∷ three) memory g)
      (list_del 3 memory)
list_del_example = list_del-IsRing 3 (2 ∷ []) (4 ∷ []) three-IsRing

list_del_init_example :
    Returns
      (λ _ g. IsRing g 1 (2 ∷ 4 ∷ []) × IsRing g 3 [] × SameOutside (1 ∷ three) memory g)
      (list_del_init 3 memory)
list_del_init_example = list_del_init-IsRing 3 (2 ∷ []) (4 ∷ []) three-IsRing

list_move_example :
    Returns (λ _ g. IsRing g 1 (3 ∷ 2 ∷ 4 ∷ [])) (list_move 3 1 memory)
    × Returns (λ _ g. IsRing g 1 (2 ∷ 4 ∷ 3 ∷ [])) (list_move_tail 3 1 memory)
list_move_example = list_move-IsRing 3 (2 ∷ []) (4 ∷ []) three-IsRing

list_move_other_example :
    Returns
      (λ _ g. IsRing g 1 (2 ∷ 4 ∷ []) × IsRing g 10 (3 ∷ 11 ∷ 12 ∷ []))
      (list_move 3 10 memory)
    × Returns
        (λ _ g. IsRing g 1 (2 ∷ 4 ∷ []) × IsRing g 10 (11 ∷ 12 ∷ 3 ∷ []))
        (list_move_tail 3 10 memory)
list_move_other_example =
    list_move-IsRing_other 3 (2 ∷ []) (4 ∷ []) three-IsRing 10 two two-IsRing three-two

list_replace_example :
    Returns
      (λ _ g. IsRing g 1 (2 ∷ 20 ∷ 4 ∷ []) × SameOutside (20 ∷ 1 ∷ 2 ∷ 4 ∷ []) memory g)
      (list_replace 3 20 memory)
    × Returns (λ _ g. IsRing g 1 (2 ∷ 20 ∷ 4 ∷ []) × IsRing g 3 []) (list_replace_init 3 20 memory)
list_replace_example = list_replace-IsRing 3 (2 ∷ []) (4 ∷ []) three-IsRing 20 refl refl

list_splice_example :
    Returns (λ _ g. IsRing g 10 (2 ∷ 3 ∷ 4 ∷ 11 ∷ 12 ∷ [])) (list_splice 1 10 memory)
    × Returns (λ _ g. IsRing g 10 (11 ∷ 12 ∷ 2 ∷ 3 ∷ 4 ∷ [])) (list_splice_tail 1 10 memory)
    × Returns
        (λ _ g. IsRing g 10 (2 ∷ 3 ∷ 4 ∷ 11 ∷ 12 ∷ []) × IsRing g 1 [])
        (list_splice_init 1 10 memory)
list_splice_example = list_splice-IsRing three two two-IsRing three-IsRing three-two

list_queries_example :
    (list_empty 1 memory ≡ some (false, memory))
    × (list_is_singular 1 memory ≡ some (false, memory))
list_queries_example = list_queries three three-IsRing

list_for_each_example :
    (list_for_each 4 1 memory ≡ some (three, memory))
    × (list_for_each_prev 4 1 memory ≡ some (4 ∷ 3 ∷ 2 ∷ [], memory))
list_for_each_example = list_for_each_lem three 4 three-IsRing (omega arith)

-- Building a list from nothing, and deleting an entry twice: `list_del` leaves NULL pointers, so the
-- second call faults.
build : M (List Ptr)
unfolding list_for_each list_add list_add_tail init_list_head add_between walk load_next load_prev
    store_next store_prev
build = do init_list_head 5; list_add 6 5; list_add_tail 7 5; list_add 8 5; list_for_each 4 5

abbrev seen : Option (List Ptr × Mem) → Option (List Ptr)
seen none = none
seen (some (xs, m)) = some xs

build_runs : seen (build memory) ≡ some (8 ∷ 6 ∷ 7 ∷ [])
unfolding build
build_runs = refl

delete_twice : (do list_del 3; list_del 3) memory ≡ none
unfolding list_del del_between load_next load_prev store_next store_prev
delete_twice = refl
