-- ===== src/Pic/Latch.antt =====
-- Ports that read as what was written to them last, and as 0 before.
use mini_unix.Base.{
  ℕ, ◌%◌, ◌<◌, refl, inl, inr, [], ◌∷◌, arith, ◌==◌, ==_refl, if◌then◌else◌, Bool-cases,
}
use mini_unix.Pic.{Ports, data_port}
use mini_unix.Pic.Masks.{Latched}

abbrev pub latch : Ports → (port : ℕ) → ℕ
latch [] port = 0
latch ((p, v) ∷ ports) port = let before = latch ports port in if port == p then v % 256 else before

latch-small : (ports : Ports) (port : ℕ) → latch ports port < 256
latch-small [] port = omega arith
latch-small ((p, v) ∷ ports) port =
    let before = latch-small ports port in
    elim (Bool-cases (port == p)) [ inl e ↦ rw e (omega arith) | inr ne ↦ rw ne before ]

pub latch-Latched : Latched latch
latch-Latched = record {
  is_byte = latch-small;
  last_written = λ ports irq v lt. rw (==_refl (data_port irq)) (omega arith);
  unaffected = λ ports irq port v ne. rw ne refl;
}
