-- ===== src/LinkedList.antt =====
-- kernel/lib/list.c and the iterators of include/lib/list.h: circular doubly linked lists in a memory
-- of `struct list_head`s. A pointer is its address, 0 for NULL; every other address holds a
-- `list_head`. A read or write through NULL is a fault, the outcome `none`. Operations run in the
-- state monad `M` with that fault.
pub mod Ring
pub mod Cut
pub mod Add
pub mod Del
pub mod Replace
pub mod Splice
pub mod Queries
mod Tests
use mini_unix.Base.{
  ℕ, zero, suc, Bool, true, false, Option, none, some, List, [], ◌∷◌, ◌==◌, if◌then◌else◌,
}

abbrev pub Ptr : Type 0
Ptr = ℕ

abbrev pub null : Ptr
null = 0

-- `struct list_head` at every address
pub record Mem : Type 0 where
  pub next : Ptr → Ptr
  pub prev : Ptr → Ptr

abbrev pub update : (Ptr → Ptr) → Ptr → Ptr → Ptr → Ptr
update f p q a = if a == p then q else f a

abbrev pub set_next : Ptr → Ptr → Mem → Mem
set_next p q m = record m { next = update m.next p q }

abbrev pub set_prev : Ptr → Ptr → Mem → Mem
set_prev p q m = record m { prev = update m.prev p q }

abbrev pub M : Type 0 → Type 0
M A = Mem → Option (A × Mem)

abbrev pub pure : {A : Type 0} → A → M A
pure a m = some (a, m)

abbrev pub and_then : {A B : Type 0} → Option (A × Mem) → (A → M B) → Option (B × Mem)
and_then none f = none
and_then (some (a, m)) f = f a m

infixl 5 ◌>>=◌ ◌>>◌
abbrev pub ◌>>=◌ : {A B : Type 0} → M A → (A → M B) → M B
x >>= f = λ m. and_then (x m) f

abbrev pub ◌>>◌ : {B : Type 0} → M (Unit {0}) → M B → M B
x >> y = x >>= λ _. y

-- `p->next`, `p->prev`, `p->next = q` and `p->prev = q`
unfoldable pub load_next : Ptr → M Ptr
load_next p m = if p == null then none else some (m.next p, m)

unfoldable pub load_prev : Ptr → M Ptr
load_prev p m = if p == null then none else some (m.prev p, m)

unfoldable pub store_next : Ptr → Ptr → M (Unit {0})
store_next p q m = if p == null then none else some (tt, set_next p q m)

unfoldable pub store_prev : Ptr → Ptr → M (Unit {0})
store_prev p q m = if p == null then none else some (tt, set_prev p q m)

pub init_list_head : Ptr → M (Unit {0})
init_list_head list = do store_next list list; store_prev list list

-- `__list_add`
pub add_between : (node before after : Ptr) → M (Unit {0})
add_between node before after = do
  store_prev after node
  store_next node after
  store_prev node before
  store_next before node

-- `__list_del`
pub del_between : (before after : Ptr) → M (Unit {0})
del_between before after = do store_next before after; store_prev after before

pub list_add : (node head : Ptr) → M (Unit {0})
list_add node head = do n ← load_next head; add_between node head n

pub list_add_tail : (node head : Ptr) → M (Unit {0})
list_add_tail node head = do p ← load_prev head; add_between node p head

pub list_del : Ptr → M (Unit {0})
list_del entry = do
  p ← load_prev entry
  n ← load_next entry
  del_between p n
  store_prev entry null
  store_next entry null

pub list_del_init : Ptr → M (Unit {0})
list_del_init entry = do
  p ← load_prev entry
  n ← load_next entry
  del_between p n
  init_list_head entry

pub list_replace : (old node : Ptr) → M (Unit {0})
list_replace old node = do
  n ← load_next old
  store_next node n
  n' ← load_next node
  store_prev n' node
  p ← load_prev old
  store_prev node p
  p' ← load_prev node
  store_next p' node

pub list_replace_init : (old node : Ptr) → M (Unit {0})
list_replace_init old node = do list_replace old node; init_list_head old

pub list_move : (entry head : Ptr) → M (Unit {0})
list_move entry head = do
  p ← load_prev entry
  n ← load_next entry
  del_between p n
  list_add entry head

pub list_move_tail : (entry head : Ptr) → M (Unit {0})
list_move_tail entry head = do
  p ← load_prev entry
  n ← load_next entry
  del_between p n
  list_add_tail entry head

pub list_empty : Ptr → M Bool
list_empty head = do n ← load_next head; pure (n == head)

pub list_is_singular : Ptr → M Bool
list_is_singular head = do
  empty ← list_empty head
  if empty then pure false else do n ← load_next head; p ← load_prev head; pure (n == p)

-- `__list_splice`
pub splice_between : (list before after : Ptr) → M (Unit {0})
splice_between list before after = do
  first ← load_next list
  last ← load_prev list
  store_prev first before
  store_next before first
  store_next last after
  store_prev after last

pub list_splice : (list head : Ptr) → M (Unit {0})
list_splice list head = do
  empty ← list_empty list
  if empty then pure tt else do n ← load_next head; splice_between list head n

pub list_splice_tail : (list head : Ptr) → M (Unit {0})
list_splice_tail list head = do
  empty ← list_empty list
  if empty then pure tt else do p ← load_prev head; splice_between list p head

pub list_splice_init : (list head : Ptr) → M (Unit {0})
list_splice_init list head = do
  empty ← list_empty list
  if empty then pure tt else do n ← load_next head; splice_between list head n; init_list_head list

-- `list_for_each` on fuel: the positions that the loop's body sees, from `pos` on. `none` is a fault,
-- and so is running out of fuel.
walk : (Ptr → M Ptr) → ℕ → (head pos : Ptr) → M (List Ptr)
walk step zero head pos m = none
walk step (suc fuel) head pos m =
    let rest : Option (List Ptr × Mem) =
      (do next ← step pos; seen ← walk step fuel head next; pure (pos ∷ seen)) m in
    if pos == head then some ([], m) else rest

pub list_for_each : ℕ → Ptr → M (List Ptr)
list_for_each fuel head = do first ← load_next head; walk load_next fuel head first

pub list_for_each_prev : ℕ → Ptr → M (List Ptr)
list_for_each_prev fuel head = do last ← load_prev head; walk load_prev fuel head last
