-- ===== src/Loader/Boot.antt =====
-- The rest of the loader: the kernel is read from the disk, and the GDT, the configuration for the
-- kernel and the first page tables are made.
pub mod Areas
use ann.Base.{
  ℕ, zero, suc, ◌+◌, ◌-◌, ◌*◌, ◌/◌, ◌%◌, ◌^◌, Option, none, some, Bool, true, false, bit_or, ◌/=◌,
  ◌==◌, ltb, if◌then◌else◌, update,
}
use ann.LinkedList.{ListOps}
use ann.CString.{Bytes}
use ann.Memory.Layout.{
  page_size, round_down, kernel_stack_top, kernel_stack_size, kernel_info, apic_base, ioapic_base,
  apic_base_pa, ioapic_base_pa, vaddr_base,
}
use ann.Memory.Machine.{Machine, Cmd, Run, ok, pure, ◌>>=◌, ◌>>◌, store}
use ann.Memory.Pages.{clear_page}
use ann.Segment.{Descriptor, segment_desc}
use ann.Task.Load.{
  number_at, elf64_header, Elf64ProgramHeader, elf64_program_header, program_header_size, elf_magic,
}
use ann.Disk.{Ports, ata_sector_size, disk_io_read_segment}
use ann.Loader.{BiosMmapEntry, loader_alloc, init_pages, loader_map_section}

abbrev pub kernel_base_disk_sector : ℕ
kernel_base_disk_sector = 2048

-- Four bytes at `a`, the lowest first
abbrev pub put_long : Bytes → ℕ → ℕ → Bytes
put_long mem a w =
    update
      (update (update (update mem a (w % 2 ^ 8)) (a + 1) (w / 2 ^ 8 % 2 ^ 8)) (a + 2)
        (w / 2 ^ 16 % 2 ^ 8))
      (a + 3) (w / 2 ^ 24 % 2 ^ 8)

-- `ph->p_va &= 0xFFFFFFFF`: the upper half of the field at 16 is cleared.
abbrev pub truncate_va : Bytes → ℕ → Bytes
truncate_va mem ph = put_long mem (ph + 20) 0

-- `free_memory` behind a segment that ends at `end`; addresses have 32 bits, and PADDR changes nothing here.
abbrev pub shift_free : (end free_memory : ℕ) → ℕ
shift_free end free_memory = if ltb free_memory (end % 2 ^ 32) then end % 2 ^ 32 else free_memory

module _ {D : Type 0} (ports : Ports D) where
  -- The loop of loader_read_kernel, for at most `n` program headers: the result, memory, the drive and
  -- `free_memory`. `none` if the rounds do not do.
  unfoldable pub read_segments :
      (n sectors polls header ph free_memory : ℕ) → Bytes → D → Option (Bool × Bytes × D × ℕ)
  read_segments zero sectors polls header ph free_memory mem d = none
  read_segments (suc n) sectors polls header ph free_memory mem d =
      let h = elf64_header (λ j. mem (header + j)) in
      if ltb ph ((header + h.e_phoff + h.e_phnum * program_header_size) % 2 ^ 32)
      then (let mem1 = truncate_va mem ph in
          let p = elf64_program_header mem1 ph in
          let lba = (p.p_offset / ata_sector_size + kernel_base_disk_sector) % 2 ^ 32 in
          elim (disk_io_read_segment ports sectors polls p.p_va (p.p_memsz % 2 ^ 32) lba mem1 d) [
            | none ↦ none
            | some r ↦
                let (done, mem2, d2) = r in
                let p2 = elf64_program_header mem2 ph in
                if done
                then read_segments n sectors polls header ((ph + program_header_size) % 2 ^ 32)
                    (shift_free (p2.p_va + p2.p_memsz) free_memory) mem2 d2
                else some (false, mem2, d2, free_memory)
          ])
      else some (true, mem, d, free_memory)

  abbrev pub elf_header_size : ℕ
  elf_header_size = 64

  -- The result, the entry point of the kernel, memory, the drive and `free_memory`
  abbrev pub with_entry : ℕ → Option (Bool × Bytes × D × ℕ) → Option (Bool × ℕ × Bytes × D × ℕ)
  with_entry header none = none
  with_entry header (some (false, mem, d, free)) = some (false, 0, mem, d, free)
  with_entry header (some (true, mem, d, free)) =
      some (true, (elf64_header (λ j. mem (header + j))).e_entry, mem, d, free)

  -- loader_read_kernel behind the read of the header
  abbrev pub with_header :
      (n sectors polls header free_memory : ℕ)
      → Option (Bool × Bytes × D)
      → Option (Bool × ℕ × Bytes × D × ℕ)
  with_header n sectors polls header free_memory none = none
  with_header n sectors polls header free_memory (some (false, mem, d)) =
      some (false, 0, mem, d, free_memory)
  with_header n sectors polls header free_memory (some (true, mem, d)) =
      let h = elf64_header (λ j. mem (header + j)) in
      if h.e_magic /= elf_magic
      then some (false, 0, mem, d, free_memory)
      else with_entry header
          (read_segments n sectors polls header ((header + h.e_phoff) % 2 ^ 32) free_memory mem d)

  unfoldable pub loader_read_kernel :
      (n sectors polls free_memory : ℕ) → Bytes → D → Option (Bool × ℕ × Bytes × D × ℕ)
  loader_read_kernel n sectors polls free_memory mem d =
      let (header, free) = loader_alloc elf_header_size page_size free_memory in
      with_header n sectors polls header free (
        disk_io_read_segment ports sectors polls header ata_sector_size kernel_base_disk_sector mem
          d)

abbrev pub ngdt_entries : ℕ
ngdt_entries = 5

-- The segments of the GDT by their place in the table
unfoldable pub gdt_entry : ℕ → Descriptor
gdt_entry i =
    let usf_l = 2 ^ 13 in
    let usf_p = 2 ^ 7 in
    let usf_s = 2 ^ 4 in
    let dpl_u = 3 * 2 ^ 5 in
    let ust_x = 2 ^ 3 in
    let ust_w = 2 ^ 1 in
    if i == 1
    then segment_desc (bit_or (bit_or (bit_or usf_l usf_p) usf_s) ust_x) 0 0
    else if i == 2
    then segment_desc (bit_or (bit_or usf_p usf_s) ust_w) 0 0
    else if i == 3
    then segment_desc (bit_or (bit_or (bit_or (bit_or usf_l usf_p) dpl_u) usf_s) ust_x) 0 0
    else if i == 4
    then segment_desc (bit_or (bit_or (bit_or usf_p usf_s) dpl_u) ust_w) 0 0
    else segment_desc 0 0 0

-- The size of the table, with a descriptor of 16 bytes for each of 32 processors
abbrev pub gdt_size : ℕ
gdt_size = 8 * ngdt_entries + 16 * 32

-- A descriptor as a word of memory
abbrev pub descriptor_word : Descriptor → ℕ
descriptor_word d = d.a + 2 ^ 32 * d.b

abbrev pub fill_gdt : (gdt : ℕ) → Cmd (Unit {0})
fill_gdt gdt =
    store gdt (descriptor_word (gdt_entry 0))
    >> store (gdt + 8 * 1) (descriptor_word (gdt_entry 1))
    >> store (gdt + 8 * 2) (descriptor_word (gdt_entry 2))
    >> store (gdt + 8 * 3) (descriptor_word (gdt_entry 3))
    >> store (gdt + 8 * 4) (descriptor_word (gdt_entry 4))

-- What the loader has allocated, and `free_memory` behind it
pub record Allocated : Type 0 where
  pub config : ℕ
  pub gdt : ℕ
  pub pml4 : ℕ
  pub pages : ℕ
  pub free_memory : ℕ

unfoldable pub allocate : (pages_cnt free_memory : ℕ) → Allocated
allocate pages_cnt free_memory =
    let (config, free1) = loader_alloc 32 page_size free_memory in
    let (gdt, free2) = loader_alloc gdt_size 16 free1 in
    let (pml4, free3) = loader_alloc page_size page_size free2 in
    let (pages, free4) = loader_alloc (24 * pages_cnt) page_size free3 in
    record { config = config; gdt = gdt; pml4 = pml4; pages = pages; free_memory = free4 }

-- The words of struct kernel_config
unfoldable pub write_config : (pages_cnt : ℕ) → Allocated → Cmd (Unit {0})
write_config pages_cnt a =
    store (a.config + 16) pages_cnt
    >> store (a.config + 8) a.pages
    >> store a.config a.pml4
    >> store (a.config + 24) a.gdt

-- `if (loader_map_section(...) != 0) return -1;`, and the rest
abbrev pub and_section : Cmd Bool → Cmd Bool → Cmd Bool
and_section c rest = c >>= λ done. if done then rest else pure false

module _ ⦃q : ListOps⦄ where
  -- The sections that loader_init_memory maps; `boot_stack` is the address of the loader's stack.
  unfoldable pub map_sections : (boot_stack max_physical_address : ℕ) → Allocated → Cmd Bool
  map_sections boot_stack max a =
      and_section
        (loader_map_section a.pml4 (kernel_stack_top - kernel_stack_size) boot_stack
          kernel_stack_size true)
        (and_section (loader_map_section a.pml4 kernel_info a.config page_size true) (
          and_section (loader_map_section a.pml4 apic_base apic_base_pa page_size true) (
            and_section (loader_map_section a.pml4 ioapic_base ioapic_base_pa page_size true) (
              and_section (loader_map_section a.pml4 0 0 a.free_memory true)
                (loader_map_section a.pml4 vaddr_base 0 (round_down max page_size) false)))))

  -- loader_init_memory with the words of memory; the records of the pages are kept apart, as in the
  -- kernel's model.
  unfoldable pub loader_init_memory :
      (ℕ → BiosMmapEntry)
      → (cnt end boot_stack max_physical_address pages_cnt free_memory : ℕ) → (ℕ → ℕ)
      → Run Bool
  loader_init_memory mm cnt end boot_stack max pages_cnt free_memory mem =
      let a = allocate pages_cnt free_memory in
      (fill_gdt a.gdt
          >> clear_page a.pml4
          >> write_config pages_cnt a
          >> map_sections boot_stack max a)
        (init_pages mm cnt end a.free_memory pages_cnt mem)
