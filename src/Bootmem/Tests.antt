-- ===== src/Bootmem/Tests.antt =====
-- One page of the identity map, and a descriptor (deps/tatu/src/bootmem.rs).
use arma.Base.{◌+◌, ◌*◌, ◌^◌, ◌≡◌, refl, arith}
use Prim.Native.Nat.{bit_or}
use arma.Base.Slice.{le}
use arma.Bootmem.{byte_at, pd_base_off, page_entry, identity_map_4gib, gdt_page}
use arma.Bootmem.Entries.{identity_map_page}

code_access : gdt_page 13 ≡ 0x9B
unfolding gdt_page
code_access = refl

page_flags : page_entry 1 3 ≡ 0x4060_0083
page_flags = refl

identity_map_page_example :
    identity_map_4gib 0x10_0000 (pd_base_off + 1 * 4096 + 3 * 8 + 3)
    ≡ byte_at 3 (le 8 (bit_or (bit_or (bit_or (1 * 2 ^ 30 + 3 * 2 ^ 21) 1) 2) 0x80))
identity_map_page_example =
    identity_map_page 0x10_0000 1 3 3 (omega arith) (omega arith) (omega arith)
