-- ===== src/Pe/Total.antt =====
-- The writer never slices out of bounds: every write of `compose` lands inside the buffer that
-- the layout sized.
use arma.Base.{
  ℕ, ◌+◌, ◌*◌, ◌^◌, ◌≡◌, ◌≢◌, inl, inr, refl, ap, Bool, true, false, Bool-cases, Option, none, some,
  List, [], ◌∷◌, ltb, leb, length, Result, ok, err, refuse_if, ◌>>=◌, ◌>>◌,
}
use arma.Base.Text.{Bytes, contains}
use arma.Base.Slice.{le}
use arma.Pe.Section.{
  PeError, Section, Fault, pe_error, panic, nul_in_name, too_many_sections, is_zero_shape,
  alignment_for, checked_add_u32, to_u32, align_up_u32, or_overflow, Sizes, add_if, has_flag,
  aligned_data_size, virtual_size_up, sum_sizes, check_names, decimal, name_field, name_fields,
  string_table_offset_too_large, file_alignment,
}
use arma.Pe.Place.{place_raw, place_raws}
use arma.Pe.Write.{place_strtab, lay_out, patch_size, section_hdr_size, pe_offset, opt_size}

-- The run does not panic.
abbrev pub Calm {ℓ} : {A : Type ℓ} → Result Fault A → Type ℓ
Calm r = r ≢ err panic

pub ok-Calm {ℓ} : {A : Type ℓ} {a : A} → Calm (ok a)
ok-Calm h = cc

module _ {ℓ κ} {A : Type ℓ} {B : Type κ} where
  pub bind-Calm :
      (m : Result Fault A) (f : A → Result Fault B)
      → Calm m
      → ((a : A) → m ≡ ok a → Calm (f a))
      → Calm (m >>= f)
  bind-Calm (ok a) f c k = k a refl
  bind-Calm (err e) f c k = λ h. let same : e ≡ panic = cc in c (ap err same)

or_overflow-Calm : (o : Option ℕ) → Calm (or_overflow o)
or_overflow-Calm none h = cc
or_overflow-Calm (some n) h = cc

pub to_u32-Calm : (n : ℕ) → Calm (to_u32 n)
to_u32-Calm n = elim (Bool-cases (ltb n (2 ^ 32))) [
  | inl e ↦ λ h. cc (rw e at h)
  | inr e ↦ λ h. cc (rw e at h)
]

refuse_if-Calm : (b : Bool) (e : _) → Calm (refuse_if b (pe_error e))
refuse_if-Calm true e h = cc
refuse_if-Calm false e h = cc

guard-Calm {ℓ} :
    {A : Type ℓ} (a : A) (b : Bool) (e : PeError) → Calm (refuse_if b (pe_error e) >> ok a)
guard-Calm a true e h = cc
guard-Calm a false e h = cc

check_names-Calm : (ss : List Section) → Calm (check_names ss)
unfolding check_names
check_names-Calm [] = ok-Calm
check_names-Calm (s ∷ ss) =
    bind-Calm (refuse_if (contains 0 s.name) (pe_error (nul_in_name s.name))) _ (refuse_if-Calm _ _)
      (λ u e. check_names-Calm ss)

name_field-Calm : (strtab n : Bytes) → Calm (name_field strtab n)
unfolding name_field
name_field-Calm strtab n = elim (Bool-cases (leb (length n) 8)) [
  | inl e ↦ λ h. cc (rw e at h)
  | inr e ↦ rw e (
      guard-Calm _ (ltb 8 (length (b'/' ∷ decimal 20 (length strtab))))
        (string_table_offset_too_large (length strtab)))
]

name_fields-Calm : (ss : List Section) (strtab : Bytes) → Calm (name_fields ss strtab)
unfolding name_fields
name_fields-Calm [] strtab = ok-Calm
name_fields-Calm (s ∷ ss) strtab =
    bind-Calm (name_field strtab s.name) _ (name_field-Calm strtab s.name)
      (λ t e. bind-Calm (name_fields ss t.1) _ (name_fields-Calm ss t.1) (λ u e'. ok-Calm))

place_raw-Calm : (s : Section) (cursor : ℕ) → Calm (place_raw s cursor)
unfolding place_raw
place_raw-Calm s cursor = elim (Bool-cases (is_zero_shape s)) [
  | inl e ↦ λ h. cc (rw e at h)
  | inr e ↦ rw e (
      bind-Calm (or_overflow (align_up_u32 cursor (alignment_for s))) _ (or_overflow-Calm _)
        (λ start e0. bind-Calm (to_u32 (length s.contents)) _ (to_u32-Calm _) (λ len e1.
          bind-Calm (or_overflow (align_up_u32 len file_alignment)) _ (or_overflow-Calm _)
            (λ raw_size e2.
              bind-Calm (or_overflow (checked_add_u32 start raw_size)) _ (or_overflow-Calm _)
                (λ next e3. ok-Calm)))))
]

place_raws-Calm : (ss : List Section) (cursor : ℕ) → Calm (place_raws ss cursor)
unfolding place_raws
place_raws-Calm [] cursor = ok-Calm
place_raws-Calm (s ∷ ss) cursor =
    bind-Calm (place_raw s cursor) _ (place_raw-Calm s cursor)
      (λ t e. bind-Calm (place_raws ss t.1) _ (place_raws-Calm ss t.1) (λ u e'. ok-Calm))

place_strtab-Calm : (strtab : Bytes) (cursor : ℕ) → Calm (place_strtab strtab cursor)
unfolding place_strtab
place_strtab-Calm strtab cursor = elim (Bool-cases (ltb 4 (length strtab))) [
  | inl e ↦ rw e (
      bind-Calm (to_u32 (length strtab)) _ (to_u32-Calm _) (λ len e0.
        bind-Calm (or_overflow (checked_add_u32 cursor len)) _ (or_overflow-Calm _)
          (λ end e1. ok-Calm)))
  | inr e ↦ λ h. cc (rw e at h)
]

-- The layout half of the writer.
pub lay_out-Calm : (ss : List Section) → Calm (lay_out ss)
unfolding lay_out
lay_out-Calm ss =
    bind-Calm (refuse_if (ltb 65535 (length ss)) (pe_error (too_many_sections (length ss)))) _
      (refuse_if-Calm _ _)
      (λ u e. bind-Calm (check_names ss) _ (check_names-Calm ss) (λ u e.
        bind-Calm (name_fields ss (le 4 0)) _ (name_fields-Calm ss (le 4 0)) (λ t e.
          bind-Calm (to_u32 (pe_offset + 4 + 20 + opt_size + length ss * section_hdr_size)) _
            (to_u32-Calm _)
            (λ n e.
              bind-Calm (or_overflow (align_up_u32 n file_alignment)) _ (or_overflow-Calm _)
                (λ headers e.
                  bind-Calm (place_raws ss headers) _ (place_raws-Calm ss headers) (λ r e.
                    bind-Calm (place_strtab (patch_size t.1) r.1) _
                      (place_strtab-Calm (patch_size t.1) r.1) (λ p e. ok-Calm)))))))

add_if-Calm : (b : Bool) (acc : ℕ) (size : Result Fault ℕ) → Calm size → Calm (add_if b acc size)
add_if-Calm true acc size c = bind-Calm size _ c (λ n e. or_overflow-Calm (checked_add_u32 acc n))
add_if-Calm false acc size c = ok-Calm

aligned_data_size-Calm : (s : Section) → Calm (aligned_data_size s)
unfolding aligned_data_size
aligned_data_size-Calm s =
    bind-Calm (to_u32 (length s.contents)) _ (to_u32-Calm _)
      (λ n e. or_overflow-Calm (align_up_u32 n (alignment_for s)))

virtual_size_up-Calm : (s : Section) → Calm (virtual_size_up s)
unfolding virtual_size_up
virtual_size_up-Calm s =
    bind-Calm (to_u32 s.virtual_size) _ (to_u32-Calm _)
      (λ n e. or_overflow-Calm (align_up_u32 n 0x1000))

pub sum_sizes-Calm : (ss : List Section) (z : Sizes) → Calm (sum_sizes ss z)
unfolding sum_sizes
sum_sizes-Calm [] z = ok-Calm
sum_sizes-Calm (s ∷ ss) z =
    bind-Calm (add_if (has_flag s 0x20) z.code (aligned_data_size s)) _
      (add_if-Calm _ _ _ (aligned_data_size-Calm s))
      (λ c e.
        bind-Calm (add_if (has_flag s 0x40) z.init_data (aligned_data_size s)) _
          (add_if-Calm _ _ _ (aligned_data_size-Calm s))
          (λ i e.
            bind-Calm (add_if (has_flag s 0x80) z.uninit_data (virtual_size_up s)) _
              (add_if-Calm _ _ _ (virtual_size_up-Calm s))
              (λ u e. sum_sizes-Calm ss (record { code = c; init_data = i; uninit_data = u }))))
