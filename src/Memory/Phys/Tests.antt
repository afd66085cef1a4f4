-- ===== src/Memory/Phys/Tests.antt =====
-- The resource table at the ranges that the kernel registers first.
use felix.Prelude.{◌≡◌, ◌↔◌, refl, true, [], ◌∷◌, arith, length}
use felix.Memory.Defs.{PhysRange, firmware, reserved, mmio, ok, dma}
use felix.Memory.Phys.{
  Ranges, reserve_range, release_range, is_free, any_meets, scan, range_end, is_same,
}
use felix.Memory.Order.{sort, insert}
use felix.Memory.Phys.Scan.{Inv}
use felix.Memory.Phys.Reserve.{request, reserve-Inv, is_free_iff, NamesClash, overlap-NamesClash}
use felix.Memory.Phys.Release.{release-Inv, release-reserve}

abbrev bios : PhysRange
bios = request 0 0x5000 firmware "bios-lowmem"

abbrev boot_info : PhysRange
boot_info = request 0x7000 0x1000 reserved "boot-info"

abbrev low_memory : Ranges
low_memory = bios ∷ boot_info ∷ []

low_memory-Inv : Inv low_memory
low_memory-Inv = omega arith

reserve-Inv_example : Inv (reserve_range low_memory 0x5000 0x1000 mmio "nic").1
reserve-Inv_example = reserve-Inv low_memory 0x5000 0x1000 mmio "nic" low_memory-Inv

-- Between the two ranges there is room for two pages.
goes_between :
    (reserve_range low_memory 0x5000 0x2000 mmio "nic").1
    ≡ bios ∷ request 0x5000 0x2000 mmio "nic" ∷ boot_info ∷ []
unfolding reserve_range scan range_end sort insert is_same
goes_between = refl

is_free_iff_example :
    (is_free low_memory 0x5000 0x2000 ≡ true)
    ↔ (length (reserve_range low_memory 0x5000 0x2000 mmio "nic").1 ≡ 3)
is_free_iff_example = is_free_iff low_memory 0x5000 0x2000 mmio "nic" low_memory-Inv

overlap-NamesClash_example :
    NamesClash low_memory 0x6000 0x2000 dma "dma" (request 0x6000 0x2000 dma "dma") boot_info
unfolding reserve_range scan range_end is_same
overlap-NamesClash_example =
    overlap-NamesClash low_memory 0x6000 0x2000 dma "dma" (request 0x6000 0x2000 dma "dma")
      boot_info low_memory-Inv refl

release-Inv_example : Inv (release_range low_memory 0 0x5000).1
release-Inv_example = release-Inv low_memory 0 0x5000 low_memory-Inv

release-reserve_example :
    release_range (reserve_range low_memory 0x5000 0x2000 mmio "nic").1 0x5000 0x2000
    ≡ (ok (request 0x5000 0x2000 mmio "nic"), low_memory)
unfolding is_free any_meets
release-reserve_example = release-reserve low_memory 0x5000 0x2000 mmio "nic" low_memory-Inv refl
