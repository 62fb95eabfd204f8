-- ===== src/Heap/Alloc.antt =====
-- `kmalloc`: what a sequence of calls hands out.
use mini_unix.Base.{
  ℕ, ◌+◌, ◌-◌, ◌%◌, ◌^◌, ◌≤◌, ◌<◌, ◌≡◌, inl, inr, true, false, List, [], ◌∷◌, none, some, arith,
  leb, Bool-cases, subst, sym,
}
use mini_unix.Heap.{Heap, word, round_up, heap_init, kmalloc}

-- The next free address lies in the heap, on a multiple of 8, and the heap ends in the lower half of
-- the address space.
pub record IsValid (h : Heap) : Type 0 where
  pub above : h.heap_start ≤ h.heap_current
  pub below : h.heap_current ≤ h.heap_end
  pub aligned : h.heap_current % 8 ≡ 0
  pub low : h.heap_end < 2 ^ 31

-- A request that is small enough for no sum to wrap.
abbrev pub Small : ℕ → Type 0
Small size = size < 2 ^ 31 - 8

pub heap_init-IsValid :
    (start size : ℕ) (h : Heap)
    → start % 8 ≡ 0
    → start + size < 2 ^ 31
    → IsValid (heap_init start size h)
unfolding heap_init
heap_init-IsValid start size h a b = omega arith

pub round_up_lem :
    (size : ℕ)
    → Small size
    → (size ≤ round_up size) × (round_up size < size + 8) × (round_up size % 8 ≡ 0)
round_up_lem size s = omega arith

-- `kmalloc` keeps a valid heap valid. It fails, and changes nothing, exactly when the rounded request
-- does not end strictly below the end of the heap; otherwise it hands out the next free address and
-- moves it past the request by less than 8 bytes. The contents of the memory stay as they are.
pub kmalloc_lem :
    (size : ℕ) (h : Heap)
    → IsValid h
    → Small size
    → let (ptr, h') = kmalloc size h in
      IsValid h'
      × (h'.bytes ≡ h.bytes)
      × (h.heap_end ≤ h.heap_current + round_up size → (ptr ≡ none) × (h' ≡ h))
      × (h.heap_current + round_up size < h.heap_end
          → (ptr ≡ some h.heap_current)
            × (h.heap_current + size ≤ h'.heap_current)
            × (h'.heap_current < h.heap_current + size + 8))
unfolding kmalloc
kmalloc_lem size h v s = ground arith

-- A client that calls `kmalloc` with each size in turn; the blocks that it gets, with the sizes that
-- it asked for.
unfoldable pub blocks : List ℕ → Heap → List (ℕ × ℕ)
blocks [] h = []
blocks (size ∷ sizes) h =
    let (ptr, h') = kmalloc size h in
    let rest = blocks sizes h' in elim ptr [ none ↦ rest | some p ↦ (p, size) ∷ rest ]

-- Each block starts on a multiple of 8, at or above the end of the one before, and ends in the heap.
abbrev pub InOrder : ℕ → ℕ → List (ℕ × ℕ) → Type 0
InOrder lo hi [] = Unit {0}
InOrder lo hi ((p, size) ∷ bs) = (lo ≤ p) × (p + size < hi) × (p % 8 ≡ 0) × InOrder (p + size) hi bs

abbrev pub AllSmall : List ℕ → Type 0
AllSmall [] = Unit {0}
AllSmall (size ∷ sizes) = Small size × AllSmall sizes

module _ (size : ℕ) (h : Heap) where
  pub kmalloc-full :
      leb h.heap_end (word (h.heap_current + round_up size)) ≡ true → kmalloc size h ≡ (none, h)
  unfolding kmalloc
  kmalloc-full e = rw e

  pub kmalloc-free :
      leb h.heap_end (word (h.heap_current + round_up size)) ≡ false
      → kmalloc size h
        ≡ (some h.heap_current, record h { heap_current = word (h.heap_current + round_up size) })
  unfolding kmalloc
  kmalloc-free e = rw e

  blocks-full :
      (sizes : List ℕ)
      → leb h.heap_end (word (h.heap_current + round_up size)) ≡ true
      → blocks (size ∷ sizes) h ≡ blocks sizes h
  unfolding blocks
  blocks-full sizes e = rw (kmalloc-full e, blocks) (rw (kmalloc-full e))

  blocks-free :
      (sizes : List ℕ)
      → leb h.heap_end (word (h.heap_current + round_up size)) ≡ false
      → blocks (size ∷ sizes) h
        ≡ (h.heap_current, size)
          ∷ blocks sizes (record h { heap_current = word (h.heap_current + round_up size) })
  unfolding blocks
  blocks-free sizes e = rw (kmalloc-free e, blocks) (rw (kmalloc-free e))

blocks-InOrder :
    (sizes : List ℕ) (h : Heap) (lo hi : ℕ)
    → IsValid h
    → AllSmall sizes
    → lo ≤ h.heap_current
    → h.heap_end ≡ hi
    → InOrder lo hi (blocks sizes h)
unfolding blocks
blocks-InOrder [] h lo hi v s le e = tt
blocks-InOrder (size ∷ sizes) h lo hi v s le e =
    let next = word (h.heap_current + round_up size) in
    elim (Bool-cases (leb h.heap_end next)) [
      | inl full ↦
          subst (InOrder lo hi) (sym (blocks-full size h sizes full))
            (blocks-InOrder sizes h lo hi v s.1 le e)
      | inr free ↦ subst (InOrder lo hi) (sym (blocks-free size h sizes free)) (
        le,
        ground arith,
        v.aligned,
        blocks-InOrder sizes (record h { heap_current = next }) (h.heap_current + size) hi
            (ground arith) s.1 (ground arith) e,
      )
    ]

-- If `start` is a multiple of 8 and the heap of `size` bytes at `start` ends below 2^31, the blocks that any
-- sequence of requests of less than 2^31 - 8 bytes gets from it, fresh from `heap_init`, lie in the heap one
-- behind the other, so that no two overlap, each on a multiple of 8.
pub heap_init-blocks :
    (start size : ℕ) (sizes : List ℕ) (h : Heap)
    → start % 8 ≡ 0
    → start + size < 2 ^ 31
    → AllSmall sizes
    → InOrder start (start + size) (blocks sizes (heap_init start size h))
unfolding heap_init
heap_init-blocks start size sizes h a b s =
    blocks-InOrder sizes _ start (start + size) (heap_init-IsValid start size h a b) s (omega arith)
      (omega arith)

-- A request within 7 bytes of 2^32 is rounded up to 0: while the heap is not full it succeeds, but
-- reserves nothing, so the next request gets the same block.
pub kmalloc_huge :
    (size : ℕ) (h : Heap)
    → IsValid h
    → h.heap_current < h.heap_end
    → 2 ^ 32 - 8 < size
    → size < 2 ^ 32
    → kmalloc size h ≡ (some h.heap_current, h)
unfolding kmalloc
kmalloc_huge size h v room lo hi = ground arith

-- A request of up to 2^32 - 8 bytes that passes the top of the address space when added to the next
-- free address succeeds, and moves that address down.
pub kmalloc_wraps :
    (size : ℕ) (h : Heap)
    → IsValid h
    → size ≤ 2 ^ 32 - 8
    → 2 ^ 32 ≤ h.heap_current + round_up size
    → let (ptr, h') = kmalloc size h in
      (ptr ≡ some h.heap_current) × (h'.heap_current < h.heap_current)
unfolding kmalloc
kmalloc_wraps size h v hi wraps = ground arith
