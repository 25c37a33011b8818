-- ===== src/Pe/Write.antt =====
-- The writer of src/pe.rs: the headers as little-endian bytes, and `build_pe`, which lays the
-- file out and fills a zeroed buffer in the order of the source.
use arma.Base.{
  ℕ, ◌+◌, ◌*◌, max, ◌||◌, List, [], ◌∷◌, ◌++◌, ltb, if◌then◌else◌, length, drop, replicate, Result,
  ok, err, ok_or, refuse_if, ◌>>=◌, ◌>>◌,
}
use arma.Base.Text.{Bytes, codes}
use arma.Base.Slice.{le, splice}
use arma.Pe.Section.{
  Section, Fault, pe_error, panic, too_many_sections, file_alignment, section_alignment,
  is_zero_shape, checked_add_u32, to_u32, align_up_u32, or_overflow, Sizes, sum_sizes, check_names,
  name_fields, size_of_image,
}
use arma.Pe.Place.{Raw, place_raws}

abbrev pub pe_offset : ℕ
pe_offset = 64

abbrev pub opt_size : ℕ
opt_size = 240

abbrev pub section_hdr_size : ℕ
section_hdr_size = 40

abbrev pub dos_header : Bytes
dos_header = le 2 0x5A4D ++ (replicate 58 0 ++ le 4 pe_offset)

abbrev pub pe_signature : Bytes
pe_signature = codes "PE" ++ (0 ∷ 0 ∷ [])

abbrev pub coff_header : ℕ → ℕ → ℕ → Bytes
coff_header machine count strtab_offset =
    le 2 machine
    ++ (le 2 count ++ (le 4 0 ++ (le 4 strtab_offset ++ (le 4 0 ++ (le 2 opt_size ++ le 2 0x222)))))

-- The optional header: the fixed part, then sixteen empty data directories.
abbrev pub opt_header : Sizes → ℕ → ℕ → Bytes
opt_header z image headers =
    le 2 0x020B
    ++ (le 1 1
        ++ (le 1 0
            ++ (le 4 z.code
                ++ (le 4 z.init_data
                    ++ (le 4 z.uninit_data
                        ++ (le 4 0
                            ++ (le 4 0
                                ++ (le 8 0
                                    ++ (le 4 section_alignment
                                        ++ (le 4 file_alignment
                                            ++ (replicate 16 0
                                                ++ (le 4 image
                                                    ++ (le 4 headers
                                                        ++ (le 4 0
                                                            ++ (le 2 10
                                                            ++ (le 2 0
                                                            ++ (replicate 32 0
                                                            ++ (le 4 0
                                                            ++ (le 4 16
                                                            ++ replicate 128 0)))))))))))))))))))

abbrev pub vaddr_field : Section → Result Fault ℕ
vaddr_field s = if s.non_loaded then ok 0 else to_u32 s.vaddr

-- The Data shape for a loaded section with a payload: a `VirtualSize` of `SizeOfRawData` at least.
abbrev pub vsize_field : Section → Raw → ℕ → ℕ
vsize_field s raw natural =
    if s.non_loaded || is_zero_shape s then natural else max natural raw.size

unfoldable pub section_header : Bytes → Section → Raw → Result Fault Bytes
section_header field s raw = do
  vaddr ← vaddr_field s
  natural ← to_u32 s.virtual_size
  ok (
      field
      ++ (le 4 (vsize_field s raw natural)
          ++ (le 4 vaddr
              ++ (le 4 raw.size
                  ++ (le 4 raw.offset
                      ++ (le 4 0 ++ (le 4 0 ++ (le 2 0 ++ (le 2 0 ++ le 4 s.characteristics)))))))))

abbrev pub write_at : ℕ → Bytes → Bytes → Result Fault Bytes
write_at off bs buf = ok_or panic (splice off bs buf)

unfoldable pub write_headers : List Section → List Bytes → List Raw → ℕ → Bytes → Result Fault Bytes
unfolding section_header
write_headers [] fields raws off buf = ok buf
write_headers (s ∷ ss) [] raws off buf = err panic
write_headers (s ∷ ss) (f ∷ fs) [] off buf = err panic
write_headers (s ∷ ss) (f ∷ fs) (r ∷ rs) off buf = do
  hdr ← section_header f s r
  buf' ← write_at off hdr buf
  write_headers ss fs rs (off + section_hdr_size) buf'

abbrev pub write_payload : Section → Raw → Bytes → Result Fault Bytes
write_payload s raw buf = if is_zero_shape s then ok buf else write_at raw.offset s.contents buf

unfoldable pub write_payloads : List Section → List Raw → Bytes → Result Fault Bytes
write_payloads [] raws buf = ok buf
write_payloads (s ∷ ss) [] buf = err panic
write_payloads (s ∷ ss) (r ∷ rs) buf = do buf' ← write_payload s r buf; write_payloads ss rs buf'

-- The offset of the string table, and the size of the file.
unfoldable pub place_strtab : Bytes → ℕ → Result Fault (ℕ × ℕ)
place_strtab strtab cursor =
    if ltb 4 (length strtab)
    then (do
      len ← to_u32 (length strtab)
      end ← or_overflow (checked_add_u32 cursor len)
      ok (cursor, end))
    else ok (0, cursor)

-- What the layout half of `build_pe` computes.
pub record Layout : Type 0 where
  pub fields : List Bytes
  pub strtab : Bytes
  pub headers : ℕ
  pub raws : List Raw
  pub strtab_offset : ℕ
  pub file_size : ℕ

-- The string table with its size in its first four bytes.
abbrev pub patch_size : Bytes → Bytes
patch_size strtab = le 4 (length strtab) ++ drop 4 strtab

unfoldable pub lay_out : List Section → Result Fault Layout
unfolding align_up_u32 place_raws place_strtab check_names name_fields
lay_out ss = do
  refuse_if (ltb 65535 (length ss)) (pe_error (too_many_sections (length ss)))
  check_names ss
  (fields, strtab0) ← name_fields ss (le 4 0)
  let strtab = patch_size strtab0
  headers_end ← to_u32 (pe_offset + 4 + 20 + opt_size + length ss * section_hdr_size)
  headers ← or_overflow (align_up_u32 headers_end file_alignment)
  (raws, cursor) ← place_raws ss headers
  (strtab_offset, file_size) ← place_strtab strtab cursor
  ok (record {
    fields = fields;
    strtab = strtab;
    headers = headers;
    raws = raws;
    strtab_offset = strtab_offset;
    file_size = file_size;
  })

abbrev pub write_strtab : Bytes → ℕ → Bytes → Result Fault Bytes
write_strtab strtab off buf = if ltb 4 (length strtab) then write_at off strtab buf else ok buf

unfoldable pub compose : ℕ → List Section → Layout → Result Fault Bytes
unfolding sum_sizes write_headers write_payloads size_of_image
compose machine ss l = do
  buf ← write_at 0 dos_header (replicate l.file_size 0)
  buf ← write_at 64 pe_signature buf
  sizes ← sum_sizes ss (record { code = 0; init_data = 0; uninit_data = 0 })
  buf ← write_at 68 (coff_header machine (length ss) l.strtab_offset) buf
  buf ← write_at 88 (opt_header sizes (size_of_image ss l.headers) l.headers) buf
  buf ← write_headers ss l.fields l.raws 328 buf
  buf ← write_payloads ss l.raws buf
  write_strtab l.strtab l.strtab_offset buf

unfoldable pub build_pe : ℕ → List Section → Result Fault Bytes
unfolding lay_out compose
build_pe machine ss = do l ← lay_out ss; compose machine ss l
