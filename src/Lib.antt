-- ===== src/Lib.antt =====
-- Verification of arma, which builds a bootable guest image, and of tatu, its boot stub.
--
-- The program. `arma build` reads a kernel (src/kernel.rs), finds its release
-- (src/kernel_release.rs), selects modules for it (src/modules.rs), checks or builds the initial
-- archive (src/initrd.rs), plans where every payload and device lies in guest-physical memory
-- (src/planner.rs), fills the boot-info header of the stub (src/bootinfo.rs), and writes one PE32+
-- file (src/pe.rs). In the guest, tatu merges the devicetree overlay of the host with the measured
-- tree, validates both (deps/tatu/src/validate.rs), translates the merged tree to an e820 map
-- (deps/tatu/deps/dtb2e820/src/lib.rs) or to ACPI tables (deps/tatu/deps/dtb2acpi/src), relocates
-- the kernel (deps/tatu/src/arch_x86_64.rs) or patches a KASLR seed (deps/tatu/src/kaslr.rs), and
-- jumps to the kernel.
--
-- The files.
--   Base      numbers, lists, results, bytes and 64-bit words that the parts share.
--   Planner   src/planner.rs. Fit holds align_up, round_up, round_out and first_fit; Plan holds
--             the four stages of Planner::plan, band_geometry and carve_band. A Range is a
--             half-open range of u64s; `occupied` is the list that the stages pass on. The
--             modules below Fit and Plan prove.
--   Devtree   the traits of the third-party devtree crate, as a record that is a parameter of
--             Validate and E820. No law of it is assumed.
--   Validate  deps/tatu/src/validate.rs. Region holds the region tests, Merged validate_merged,
--             Host validate_host_dtbo and the rules for each kind of fragment.
--   E820      deps/tatu/deps/dtb2e820/src/lib.rs: extract_e820 into a number of free slots.
--   Acpi      deps/tatu/deps/dtb2acpi/src: Layout holds Slot and Offsets of count.rs and the sizes of
--             the tables, Checksum the checksum of emit/mod.rs, Aml the writers of
--             emit/aml.rs for names, strings and buffers.
--   Pe        src/pe.rs. Section holds the sizes and the string table, Place the assignment of file
--             offsets, Write the headers and build_pe; Total and Fill prove.
--   Cpio      src/initrd.rs: cpio_entry, wrap_as_cpio, checked_entry_size, validate_cpio. Size and
--             Scan prove.
--   Kernel    src/kernel.rs, over the parameter Reader: the goblin crate's views and the
--             decompressors. Span holds parse and elf_span, Image elf_load_image, Extract and
--             Appended the two encodings of relocations, Relocs their section, Unwrap the wrappers;
--             the modules below them prove.
--   Relocate  deps/tatu/src/arch_x86_64.rs: apply_kaslr, which applies the relocations that Kernel
--             extracts. Handoff proves what happens from the kernel file to the patched kernel.
--   Release   src/kernel_release.rs: the banner, and Detect the search in an ELF file and behind it;
--             Agreed proves. The views of the goblin crate are the parameter Goblin.
--   Modules   src/modules.rs. Sets holds ordered sets and maps of texts; Names, Tree, Index and
--             Resolve the steps of resolve, over the parameter Host, the file system; Closure the
--             walk over the dependencies; Packing the decompression, over the parameter Decoders.
--   Bootinfo  src/bootinfo.rs and the struct of deps/tatu/src/bootinfo.rs, which the stub reads, and
--             the regions it borrows, from a memory that is a parameter.
--   Bootmem   deps/tatu/src/bootmem.rs: the page tables and the descriptor page, as functions of
--             the offset.
--   Cmdline   src/kernel_cmdline.rs: bootconfig_requested. Ends and Words prove.
--   Kaslr     deps/tatu/src/kaslr.rs: patch_overlay_seed.
--
-- The conventions. Numbers are the native naturals. A checked addition is none at 2 ^ w, a
-- saturating one stops below it, and `x & !mask` is `and_not w`. An addition, a shift or a slice on
-- which the source panics is a fault of the model's own. A `?` is the bind of Result. A text literal
-- stands for its bytes.
--
-- The bounds. first_fit runs for one round more than it has occupied ranges: each round that goes
-- on passes the end of one of them. bootconfig_requested runs for one turn more than the line has
-- bytes, validate_cpio for one record more, and the loop over zstd frames for one more: each leaves
-- less to read. The scan for a compressed kernel and the reading of appended relocations run for
-- one round more than the file has bytes: each round leaves a byte at least behind. The walk over
-- module dependencies runs, for each root, for two rounds more than the definitions have paths and
-- dependencies: a round takes an entry that a definition puts on the stack once. A decimal number
-- has twenty digits, enough for a u64. Lists stand for slices and vectors, without a bound on their
-- length in memory.
--
-- Not modelled. The archives of modules and compressed archives, the kernel configuration, the
-- image check and the assembly of an image, the base devicetree, the contents of the ACPI tables
-- and the walk that counts them, and what is machine code, file access or a call of a third-party
-- crate. The text of an error is not kept. A failed extraction leaves entries in the caller's slots
-- that E820 does not describe.
pub mod Base
pub mod Planner
pub mod Devtree
pub mod Validate
pub mod Pe
pub mod E820
pub mod Bootinfo
pub mod Kaslr
pub mod Cmdline
pub mod Cpio
pub mod Bootmem
pub mod Modules
pub mod Release
pub mod Kernel
pub mod Relocate
pub mod Acpi
