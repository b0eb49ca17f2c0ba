-- ===== src/Limits/Cpu/Examples.antt =====
-- A semaphore of one slot: a release that is called twice, and an `Acquire` that blocks.
use pocket_advisor.Prelude.{◌≡◌, refl, none, some, []}
use pocket_advisor.Limits.Cpu.{
  ocr, rasterize, Shared, new_cpu, acquire, acquire_cancelled, entered, release, made, acquired,
  gave_up, released,
}
use pocket_advisor.Limits.Cpu.Bounds.{CpuInv, Reached-CpuInv}

abbrev fresh : Shared
fresh = record { cpu = new_cpu 0; leases = [] }

first_acquired : acquire ocr fresh ≡ some (entered ocr fresh)
unfolding acquire new_cpu
first_acquired = refl

second_blocks : acquire rasterize (entered ocr fresh) ≡ none
unfolding acquire new_cpu entered
second_blocks = refl

Reached-CpuInv_example :
    CpuInv 0 (release 1 (release 1 (acquire_cancelled rasterize (entered ocr fresh))))
Reached-CpuInv_example =
    Reached-CpuInv 0 (release 1 (release 1 (acquire_cancelled rasterize (entered ocr fresh))))
      (released 1 (released 1 (gave_up rasterize (acquired ocr made first_acquired))))
