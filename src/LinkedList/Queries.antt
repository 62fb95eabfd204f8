-- ===== src/LinkedList/Queries.antt =====
-- `list_empty`, `list_is_singular` and the iterators.
use mathlib.Core.List.{reverse, reverse_aux}
use mini_unix.Base.{
  ℕ, zero, suc, ◌<◌, ◌≡◌, refl, true, false, List, [], ◌∷◌, arith, ◌==◌, some, length, ap,
  length-reverse_aux, ◌||◌, ==_refl,
}
use mini_unix.LinkedList.{
  Ptr, null, Mem, list_empty, list_is_singular, load_next, load_prev, walk, list_for_each,
  list_for_each_prev,
}
use mini_unix.LinkedList.Ring.{
  has, last, first, Links, Distinct, IsRing, has-last, Links-first, Links-last, load_next_ok,
  load_prev_ok,
}

-- The first entry is the last one exactly if it is the only one.
one_entry :
    (x : Ptr) (xs : List Ptr) → Distinct (x ∷ xs) → (x == last x xs) ≡ (suc (length xs) == 1)
one_entry x [] d = ground arith
one_entry x (y ∷ ys) d = ground (arith, has-last y ys)

module _ {m : Mem} {head : Ptr} where
  -- On a list with the entries `xs` `list_empty` says whether there are none and `list_is_singular`
  -- whether there is exactly one; both leave the memory alone.
  pub list_queries :
      (xs : List Ptr)
      → IsRing m head xs
      → (list_empty head m ≡ some (length xs == 0, m))
        × (list_is_singular head m ≡ some (length xs == 1, m))
  unfolding list_empty list_is_singular
  list_queries [] r =
      let ok : (head == null) ≡ false = ground (arith, r.no_null) in
      let self : (head == head) ≡ true = ground arith in
      (rw (load_next_ok head ok m, r.links.0, self), rw (load_next_ok head ok m, r.links.0, self))
  list_queries (x ∷ xs) r =
      let ok : (head == null) ≡ false = ground (arith, r.no_null) in
      let other : (x == head) ≡ false = ground (arith, r.distinct.0) in
      let behind : m.prev head ≡ last x xs = (Links-last m head head (x ∷ xs) r.links).1 in
      (
        rw (load_next_ok head ok m, r.links.0.0, other) (ap (λ b. some (b, m)) (ground arith)),
        rw (load_next_ok head ok m, r.links.0.0, other)
            (rw (load_next_ok head ok m, r.links.0.0, load_prev_ok head ok m, behind)
              (ap (λ b. some (b, m)) (one_entry x xs r.distinct.1))),
      )

-- The loop sees the entries up to the head, if each step leads to the next entry.
module _ (m : Mem) (head : Ptr) where
  walk_forward :
      (xs : List Ptr) (p fuel : ℕ)
      → length xs < fuel
      → Links m p xs head
      → has head xs ≡ false
      → has null xs ≡ false
      → walk load_next fuel head (first xs head) m ≡ some (xs, m)
  unfolding walk
  walk_forward [] p zero lt l h n = absurd (omega arith)
  walk_forward [] p (suc fuel) lt l h n = rw (==_refl head)
  walk_forward (x ∷ xs) p zero lt l h n = absurd (omega arith)
  walk_forward (x ∷ xs) p (suc fuel) lt l h n =
      let other : (x == head) ≡ false = ground arith in
      let ok : (x == null) ≡ false = ground arith in
      rw (other, load_next_ok x ok m, (Links-first m head x xs l.1).0)
        (rw (walk_forward xs x fuel (omega arith) l.1 (ground arith) (ground arith)))

-- The memory with the two directions exchanged.
abbrev mirror : Mem → Mem
mirror m = record { next = m.prev; prev = m.next }

Links-mirror :
    (m : Mem) (xs zs : List Ptr) (p q r : Ptr)
    → Links m p xs q
    → Links (mirror m) p zs r
    → Links (mirror m) q (reverse_aux xs (p ∷ zs)) r
Links-mirror m [] zs p q r l b = ((l.1, l.0), b)
Links-mirror m (x ∷ xs) zs p q r l b = Links-mirror m xs (p ∷ zs) x q r l.1 ((l.0.1, l.0.0), b)

Links-reverse :
    (m : Mem) (head : Ptr) (xs : List Ptr)
    → Links m head xs head
    → Links (mirror m) head (reverse xs) head
Links-reverse m head [] l = (l.1, l.0)
Links-reverse m head (x ∷ xs) l = Links-mirror m xs [] x head head l.1 (l.0.1, l.0.0)

has-reverse_aux : (a : Ptr) (xs ys : List Ptr) → has a (reverse_aux xs ys) ≡ (has a xs || has a ys)
has-reverse_aux a [] ys = refl
has-reverse_aux a (x ∷ xs) ys = ground (arith, has-reverse_aux a xs (x ∷ ys))

module _ (m : Mem) (head : Ptr) where
  walk_backward :
      (xs : List Ptr) (p fuel : ℕ)
      → length xs < fuel
      → Links (mirror m) p xs head
      → has head xs ≡ false
      → has null xs ≡ false
      → walk load_prev fuel head (first xs head) m ≡ some (xs, m)
  unfolding walk
  walk_backward [] p zero lt l h n = absurd (omega arith)
  walk_backward [] p (suc fuel) lt l h n = rw (==_refl head)
  walk_backward (x ∷ xs) p zero lt l h n = absurd (omega arith)
  walk_backward (x ∷ xs) p (suc fuel) lt l h n =
      let other : (x == head) ≡ false = ground arith in
      let ok : (x == null) ≡ false = ground arith in
      rw (other, load_prev_ok x ok m, (Links-first (mirror m) head x xs l.1).0)
        (rw (walk_backward xs x fuel (omega arith) l.1 (ground arith) (ground arith)))

-- On a list with the entries `xs`, more rounds of fuel than entries are enough: `list_for_each`
-- visits exactly the entries in order, `list_for_each_prev` in reverse, neither meets a NULL pointer
-- and the memory stays as it was.
pub list_for_each_lem :
    {m : Mem} {head : Ptr} (xs : List Ptr) (fuel : ℕ)
    → IsRing m head xs
    → length xs < fuel
    → (list_for_each fuel head m ≡ some (xs, m))
      × (list_for_each_prev fuel head m ≡ some (reverse xs, m))
unfolding list_for_each list_for_each_prev
list_for_each_lem {m} {head} xs fuel r enough =
    let ok : (head == null) ≡ false = ground (arith, r.no_null) in
    let back = Links-reverse m head xs r.links in
    (
      rw (load_next_ok head ok m, (Links-first m head head xs r.links).0)
          (walk_forward m head xs head fuel enough r.links r.distinct.0
            (ground (arith, r.no_null))),
      rw (load_prev_ok head ok m, (Links-first (mirror m) head head (reverse xs) back).0)
          (walk_backward m head (reverse xs) head fuel (omega (arith, length-reverse_aux xs []))
            back (ground (arith, has-reverse_aux head xs [], r.distinct.0))
            (ground (arith, has-reverse_aux null xs [], r.no_null))),
    )
