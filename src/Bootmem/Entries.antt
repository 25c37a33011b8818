-- ===== src/Bootmem/Entries.antt =====
-- Every entry of the page directories (deps/tatu/src/bootmem.rs: identity_map_4gib).
use arma.Base.{
  ℕ, zero, suc, ◌+◌, ◌-◌, ◌*◌, ◌^◌, ◌≤◌, ◌<◌, ◌≡◌, ◌⊎◌, inl, inr, refl, ◌∙◌, subst, arith, true,
  false, ◌&&◌, Bool-cases, ltb, leb,
}
use Prim.Native.Nat.{bit_or}
use arma.Base.Slice.{le}
use arma.Bootmem.{
  Array, empty, byte_at, write_u64, pdpt_off, pd_base_off, table_entry, page_entry, fill_pdpt,
  fill_pd, fill_pds, identity_map_4gib,
}

write_u64-in :
    (out : Array) (off val k : ℕ) → k < 8 → write_u64 out off val (off + k) ≡ byte_at k (le 8 val)
unfolding write_u64
write_u64-in out off val k h =
    let inside : (leb off (off + k) && ltb (off + k) (off + 8)) ≡ true = ground arith in
    let back : off + k - off ≡ k = omega arith in rw (inside, back) refl

write_u64-out :
    (out : Array) (off val p : ℕ) → (p < off) ⊎ (off + 8 ≤ p) → write_u64 out off val p ≡ out p
unfolding write_u64
write_u64-out out off val p h =
    let outside : (leb off p && ltb p (off + 8)) ≡ false = ground arith in rw outside refl

-- A directory's loop leaves what lies before it and behind it.
fill_pd-out :
    (i n j : ℕ) (out : Array) (p : ℕ)
    → (p < pd_base_off + i * 4096 + j * 8) ⊎ (pd_base_off + i * 4096 + (j + n) * 8 ≤ p)
    → fill_pd i n j out p ≡ out p
unfolding fill_pd
fill_pd-out i zero j out p h = refl
fill_pd-out i (suc n) j out p h =
    fill_pd-out i n (suc j) (write_u64 out (pd_base_off + i * 4096 + j * 8) (page_entry i j)) p
      (ground arith)
    ∙ write_u64-out out (pd_base_off + i * 4096 + j * 8) (page_entry i j) p (ground arith)

fill_pd-in :
    (i n j : ℕ) (out : Array) (t k : ℕ)
    → j ≤ t
    → t < j + n
    → k < 8
    → fill_pd i n j out (pd_base_off + i * 4096 + t * 8 + k) ≡ byte_at k (le 8 (page_entry i t))
unfolding fill_pd
fill_pd-in i zero j out t k from until h = absurd (omega arith)
fill_pd-in i (suc n) j out t k from until h = elim (Bool-cases (ltb j t)) [
  | inl e ↦
      fill_pd-in i n (suc j) (write_u64 out (pd_base_off + i * 4096 + j * 8) (page_entry i j)) t k
        (ground arith) (omega arith) h
  | inr e ↦
      let here : j ≡ t = ground arith in
      subst
        (λ u.
          fill_pd i (suc n) j out (pd_base_off + i * 4096 + u * 8 + k)
          ≡ byte_at k (le 8 (page_entry i u)))
        here
        (fill_pd-out i n (suc j) (write_u64 out (pd_base_off + i * 4096 + j * 8) (page_entry i j))
            (pd_base_off + i * 4096 + j * 8 + k) (inl (omega arith))
          ∙ write_u64-in out (pd_base_off + i * 4096 + j * 8) (page_entry i j) k h)
]

fill_pds-out :
    (n i : ℕ) (out : Array) (p : ℕ) → p < pd_base_off + i * 4096 → fill_pds n i out p ≡ out p
unfolding fill_pds
fill_pds-out zero i out p h = refl
fill_pds-out (suc n) i out p h =
    fill_pds-out n (suc i) (fill_pd i 512 0 out) p (omega arith)
    ∙ fill_pd-out i 512 0 out p (inl (omega arith))

fill_pds-in :
    (n i : ℕ) (out : Array) (d t k : ℕ)
    → i ≤ d
    → d < i + n
    → t < 512
    → k < 8
    → fill_pds n i out (pd_base_off + d * 4096 + t * 8 + k) ≡ byte_at k (le 8 (page_entry d t))
unfolding fill_pds
fill_pds-in zero i out d t k from until ht hk = absurd (omega arith)
fill_pds-in (suc n) i out d t k from until ht hk = elim (Bool-cases (ltb i d)) [
  | inl e ↦ fill_pds-in n (suc i) (fill_pd i 512 0 out) d t k (ground arith) (omega arith) ht hk
  | inr e ↦
      let here : i ≡ d = ground arith in
      subst
        (λ u.
          fill_pds (suc n) i out (pd_base_off + u * 4096 + t * 8 + k)
          ≡ byte_at k (le 8 (page_entry u t)))
        here
        (fill_pds-out n (suc i) (fill_pd i 512 0 out) (pd_base_off + i * 4096 + t * 8 + k)
            (omega arith)
          ∙ fill_pd-in i 512 0 out t k (omega arith) (omega arith) hk)
]

-- Entry t of directory d (d < 4, t < 512) lies at offset 8192 + 4096 d + 8 t of the tables: each
-- of its eight bytes is the byte of the little-endian entry whose address is d * 2^30 + t * 2^21,
-- the start of the 2 MiB that the two indices select, with the bits 0x1, 0x2 and 0x80 set, wherever
-- the tables lie.
pub identity_map_page :
    (base d t k : ℕ)
    → d < 4
    → t < 512
    → k < 8
    → identity_map_4gib base (pd_base_off + d * 4096 + t * 8 + k)
      ≡ byte_at k (le 8 (bit_or (bit_or (bit_or (d * 2 ^ 30 + t * 2 ^ 21) 1) 2) 0x80))
unfolding identity_map_4gib
identity_map_page base d t k hd ht hk =
    fill_pds-in 4 0 (fill_pdpt base 4 0 (write_u64 empty 0 (table_entry (base + pdpt_off)))) d t k
      (omega arith) (omega arith) ht hk
