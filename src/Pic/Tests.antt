-- ===== src/Pic/Tests.antt =====
-- Lines of ports that read as what was written to them last: runs, and the theorem at them.
use mini_unix.Base.{◌≡◌, refl, true, false, [], arith, ◌==◌, if◌then◌else◌}
use mini_unix.Pic.{pic_init, pic_mask_irq, pic_unmask_irq}
use mini_unix.Pic.Latch.{latch, latch-Latched}
use mini_unix.Pic.Masks.{masked, pic_mask_irq-pic_unmask_irq}

pic_mask_example :
    (masked latch 9 (pic_mask_irq latch 9 []) ≡ (if 9 == 9 then true else masked latch 9 []))
    × (masked latch 9 (pic_unmask_irq latch 9 []) ≡ (if 9 == 9 then false else masked latch 9 []))
pic_mask_example =
    pic_mask_irq-pic_unmask_irq latch latch-Latched 9 9 [] (omega arith) (omega arith)

all_masked : (masked latch 0 (pic_init []) ≡ true) × (masked latch 15 (pic_init []) ≡ true)
unfolding pic_init
all_masked = (refl, refl)
