-- ===== src/LinkedList/Ring.antt =====
-- What a circular list stands for: the addresses of its entries in order, behind the head.
use mini_unix.Base.{
  ◌≡◌, ◌≢◌, refl, Bool, true, false, ◌||◌, List, [], ◌∷◌, ◌++◌, ◌⊎◌, inl, inr, arith, ◌==◌, Option,
  some, Bool-cases,
}
use mini_unix.LinkedList.{
  Ptr, null, Mem, set_next, set_prev, load_next, load_prev, store_next, store_prev,
}

abbrev pub has : Ptr → List Ptr → Bool
has a [] = false
has a (x ∷ xs) = (a == x) || has a xs

abbrev pub Distinct : List Ptr → Type 0
Distinct [] = Unit {0}
Distinct (x ∷ xs) = (has x xs ≡ false) × Distinct xs

-- the last entry behind `p`, or `p`
abbrev pub last : Ptr → List Ptr → Ptr
last p [] = p
last p (x ∷ xs) = last x xs

-- the first entry before `q`, or `q`
abbrev pub first : List Ptr → Ptr → Ptr
first [] q = q
first (y ∷ ys) q = y

-- `b` follows `a`
abbrev pub Link : Mem → Ptr → Ptr → Type 0
Link m a b = (m.next a ≡ b) × (m.prev b ≡ a)

-- From `p` the pointers lead through `xs` to `q`, and back.
abbrev pub Links : Mem → Ptr → List Ptr → Ptr → Type 0
Links m p [] q = Link m p q
Links m p (x ∷ xs) q = Link m p x × Links m x xs q

-- `Links` without its last link, and without its first one
abbrev pub Front : Mem → Ptr → List Ptr → Type 0
Front m p [] = Unit {0}
Front m p (x ∷ xs) = Link m p x × Front m x xs

abbrev pub Back : Mem → List Ptr → Ptr → Type 0
Back m [] q = Unit {0}
Back m (y ∷ ys) q = Links m y ys q

-- The circular list at `head` has the entries `xs`: linked both ways, distinct and not NULL.
pub record IsRing (m : Mem) (head : Ptr) (xs : List Ptr) : Type 0 where
  pub links : Links m head xs head
  pub distinct : Distinct (head ∷ xs)
  pub no_null : has null (head ∷ xs) ≡ false

-- Outside `xs` the memory is as it was.
abbrev pub SameOutside : List Ptr → Mem → Mem → Type 0
SameOutside xs m g = (a : Ptr) → has a xs ≡ false → (g.next a ≡ m.next a) × (g.prev a ≡ m.prev a)

-- A run of a command that meets no NULL pointer and ends in a state with `P`.
pub data Returns {A : Type 0} (P : A → Mem → Type 0) : Option (A × Mem) → Type 0 where
  returns : {a : A} {m : Mem} → P a m → Returns P (some (a, m))

pub mono :
    {A : Type 0} {P Q : A → Mem → Type 0} {r : Option (A × Mem)}
    → Returns P r
    → ((a : A) (m : Mem) → P a m → Q a m)
    → Returns Q r
mono (returns p) weaken = returns (weaken _ _ p)

pub has-append :
    (p : Ptr) (left right : List Ptr) → has p (left ++ right) ≡ (has p left || has p right)
has-append p [] right = refl
has-append p (x ∷ left) right = ground (arith, has-append p left right)

-- Runs taken apart and joined.
module _ (m : Mem) (q : Ptr) where
  pub Links-Front : (p : Ptr) (xs : List Ptr) → Links m p xs q → Front m p xs
  Links-Front p [] l = tt
  Links-Front p (x ∷ xs) l = (l.0, Links-Front x xs l.1)

  pub Links-last : (p : Ptr) (xs : List Ptr) → Links m p xs q → Link m (last p xs) q
  Links-last p [] l = l
  Links-last p (x ∷ xs) l = Links-last x xs l.1

  pub Links-first : (p : Ptr) (ys : List Ptr) → Links m p ys q → Link m p (first ys q)
  Links-first p [] l = l
  Links-first p (y ∷ ys) l = l.0

  pub Links-Back : (p : Ptr) (ys : List Ptr) → Links m p ys q → Back m ys q
  Links-Back p [] l = tt
  Links-Back p (y ∷ ys) l = l.1

  pub Links-join :
      (p : Ptr) (xs ys : List Ptr)
      → Front m p xs
      → Link m (last p xs) (first ys q)
      → Back m ys q
      → Links m p (xs ++ ys) q
  Links-join p [] [] f l b = l
  Links-join p [] (y ∷ ys) f l b = (l, b)
  Links-join p (x ∷ xs) ys f l b = (f.0, Links-join x xs ys f.1 l b)

  pub Links-parts :
      (p : Ptr) (xs ys : List Ptr)
      → Links m p (xs ++ ys) q
      → Front m p xs × Link m (last p xs) (first ys q) × Back m ys q
  Links-parts p [] ys l = (tt, Links-first p ys l, Links-Back p ys l)
  Links-parts p (x ∷ xs) ys l = let (f, c, b) = Links-parts x xs ys l.1 in ((l.0, f), c, b)

-- Distinctness of the parts.
pub Distinct-left : (xs ys : List Ptr) → Distinct (xs ++ ys) → Distinct xs
Distinct-left [] ys d = tt
Distinct-left (x ∷ xs) ys d = (ground (arith, has-append x xs ys), Distinct-left xs ys d.1)

pub Distinct-right : (xs ys : List Ptr) → Distinct (xs ++ ys) → Distinct ys
Distinct-right [] ys d = d
Distinct-right (x ∷ xs) ys d = Distinct-right xs ys d.1

pub Distinct-apart :
    (a : Ptr) (xs ys : List Ptr) → Distinct (xs ++ ys) → has a xs ≡ true → has a ys ≡ false
Distinct-apart a [] ys d i = cc
Distinct-apart a (x ∷ xs) ys d i = elim (Bool-cases (a == x)) [
  | inl e ↦ ground (arith, has-append x xs ys)
  | inr ne ↦ Distinct-apart a xs ys d.1 (ground arith)
]

pub Distinct-append :
    (xs ys : List Ptr)
    → Distinct xs
    → Distinct ys
    → ((a : Ptr) → has a xs ≡ true → has a ys ≡ false)
    → Distinct (xs ++ ys)
Distinct-append [] ys d e apart = e
Distinct-append (x ∷ xs) ys d e apart = (
  ground (arith, has-append x xs ys, apart x),
  Distinct-append xs ys d.1 e λ a i. apart a (ground arith),
)

pub has-last : (p : Ptr) (xs : List Ptr) → has (last p xs) (p ∷ xs) ≡ true
has-last p [] = ground arith
has-last p (x ∷ xs) = ground (arith, has-last x xs)

pub has-first : (ys : List Ptr) (q : Ptr) → (has (first ys q) ys ≡ true) ⊎ (first ys q ≡ q)
has-first [] q = inr refl
has-first (y ∷ ys) q = inl (ground arith)

-- Runs survive changes at other addresses.
module _ (m g : Mem) where
  pub Links-frame :
      (p : Ptr) (xs : List Ptr) (q : Ptr)
      → ((a : Ptr) → has a (p ∷ xs) ≡ true → g.next a ≡ m.next a)
      → ((a : Ptr) → ((a == q) || has a xs) ≡ true → g.prev a ≡ m.prev a)
      → Links m p xs q
      → Links g p xs q
  Links-frame p [] q next prev l = ground (arith, next p, prev q)
  Links-frame p (x ∷ xs) q next prev l = (
    ground (arith, next p, prev x),
    Links-frame x xs q (λ a i. next a (ground arith)) (λ a i. prev a (ground arith)) l.1,
  )

  pub Front-frame :
      (p : Ptr) (xs : List Ptr)
      → Distinct (p ∷ xs)
      → ((a : Ptr) → has a (p ∷ xs) ≡ true → a ≢ last p xs → g.next a ≡ m.next a)
      → ((a : Ptr) → has a xs ≡ true → g.prev a ≡ m.prev a)
      → Front m p xs
      → Front g p xs
  Front-frame p [] d next prev f = tt
  Front-frame p (x ∷ xs) d next prev f = (
    ground (arith, next p, prev x, has-last x xs),
    Front-frame x xs d.1 (λ a i ne. next a (ground arith) ne) (λ a i. prev a (ground arith)) f.1,
  )

  pub Back-frame :
      (ys : List Ptr) (q : Ptr)
      → Distinct (q ∷ ys)
      → ((a : Ptr) → has a ys ≡ true → g.next a ≡ m.next a)
      → ((a : Ptr) → ((a == q) || has a ys) ≡ true → a ≢ first ys q → g.prev a ≡ m.prev a)
      → Back m ys q
      → Back g ys q
  Back-frame [] q d next prev b = tt
  Back-frame (y ∷ ys) q d next prev b =
      Links-frame y ys q next (λ a i. prev a (ground arith) (ground arith)) b

-- Access through a pointer that is not NULL.
module _ (p : Ptr) (ok : (p == null) ≡ false) (m : Mem) where
  pub load_next_ok : load_next p m ≡ some (m.next p, m)
  unfolding load_next
  load_next_ok = rw ok

  pub load_prev_ok : load_prev p m ≡ some (m.prev p, m)
  unfolding load_prev
  load_prev_ok = rw ok

  pub store_next_ok : (q : Ptr) → store_next p q m ≡ some (tt, set_next p q m)
  unfolding store_next
  store_next_ok q = rw ok

  pub store_prev_ok : (q : Ptr) → store_prev p q m ≡ some (tt, set_prev p q m)
  unfolding store_prev
  store_prev_ok q = rw ok

-- A ring survives changes at other addresses.
pub IsRing-frame :
    {m : Mem} (g : Mem) {head : Ptr} {xs : List Ptr}
    → ((a : Ptr) → has a (head ∷ xs) ≡ true → (g.next a ≡ m.next a) × (g.prev a ≡ m.prev a))
    → IsRing m head xs
    → IsRing g head xs
IsRing-frame {m} g {head} {xs} same r = record {
  links =
      Links-frame m g head xs head (λ a i. (same a i).0) (λ a i. (same a (ground arith)).1) r.links;
  distinct = r.distinct;
  no_null = r.no_null;
}

-- Rings with no address in common.
abbrev pub Disjoint : List Ptr → List Ptr → Type 0
Disjoint xs ys = (a : Ptr) → has a xs ≡ true → has a ys ≡ false
