-- ===== src/Relocate/Window.antt =====
-- The window of the virtual base (deps/tatu/src/arch_x86_64.rs: apply_kaslr).
use arma.Base.{ℕ, ◌+◌, ◌-◌, ◌*◌, ◌/◌, ◌%◌, ◌≤◌, ◌<◌, ◌≡◌, arith}
use native.Mathlib.Nat.{mod-lt, div-add-mod', mul-mod_left}
use arma.Relocate.{load_physical_addr, kernel_image_size, kaslr_align, choose_delta}

-- The delta is a multiple of 2 MiB, and a kernel that fits the window at its link address still
-- fits it when it is moved.
pub choose_delta-window :
    (alloc random : ℕ)
    → alloc + load_physical_addr ≤ kernel_image_size
    → (choose_delta alloc random % kaslr_align ≡ 0)
      × (load_physical_addr + choose_delta alloc random + alloc ≤ kernel_image_size)
unfolding choose_delta
choose_delta-window alloc random fits =
    let headroom = kernel_image_size - alloc - load_physical_addr in
    let slots = headroom / kaslr_align + 1 in
    let k = random % slots in
    let below : k < slots = mod-lt random (omega arith) in
    let scaled : k * kaslr_align ≤ headroom / kaslr_align * kaslr_align = omega arith in
    let whole = div-add-mod' headroom kaslr_align in (mul-mod_left k kaslr_align, omega arith)
