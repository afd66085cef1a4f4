-- ===== src/Memory/Virt/Tests.antt =====
-- The MMIO window allocator on a small window.
use felix.Prelude.{◌+◌, ◌≤◌, max, ◌≡◌, refl, [], ◌∷◌, arith}
use felix.Memory.Order.{sort, insert}
use felix.Memory.Defs.{ok, page_size, align_up, is_power_of_two}
use felix.Memory.Virt.{Allocator, alloc_kernel_virtual, free_kernel_virtual}
use felix.Memory.Virt.FirstFit.{Fits}
use felix.Memory.Virt.Inv.{Inv, alloc-Inv, alloc-Fits}
use felix.Memory.Virt.Free.{free-Inv, free-alloc}

-- Two ranges with a gap of two pages between them.
abbrev window : Allocator
window = record {
  base = 0x10000;
  end = 0x20000;
  ranges =
      record { start = 0x10000; size = 0x1000; owner = "nic" }
      ∷ record { start = 0x13000; size = 0x1000; owner = "usb" }
      ∷ [];
}

window-Inv : Inv window
window-Inv = omega arith

alloc-Inv_example : Inv (alloc_kernel_virtual window 0x1800 0x1000 "fb").1
alloc-Inv_example = alloc-Inv window 0x1800 0x1000 "fb" window-Inv

in_the_gap : (alloc_kernel_virtual window 0x1800 0x1000 "fb").0 ≡ ok 0x11000
unfolding alloc_kernel_virtual sort align_up is_power_of_two insert
in_the_gap = refl

alloc-Fits_example :
    Fits 0x20000 0x1800 (max 0x1000 page_size) 0x10000 window.ranges 0x11000
    × (0x11000 + 0x1800 ≤ 0x20000)
alloc-Fits_example = alloc-Fits window 0x1800 0x1000 "fb" 0x11000 window-Inv in_the_gap

free-Inv_example : Inv (free_kernel_virtual window 0x13000 0x1000).1
free-Inv_example = free-Inv window 0x13000 0x1000 window-Inv

free-alloc_example :
    free_kernel_virtual (alloc_kernel_virtual window 0x1800 0x1000 "fb").1 0x11000 0x1800
    ≡ (ok tt, window)
free-alloc_example = free-alloc window 0x1800 0x1000 "fb" 0x11000 window-Inv in_the_gap
