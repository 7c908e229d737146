-- ===== src/Task/Load.antt =====
-- task_create of kernel/task.c and the executables of kernel/misc/elf.h that it loads. An executable
-- is given by its bytes. The processor reads and writes through the loaded address space.
pub mod NewPages
pub mod Pages
pub mod Segment
pub mod Tests
use ann.Base.{
  ℕ, zero, suc, ◌+◌, ◌-◌, ◌*◌, ◌/◌, ◌%◌, ◌^◌, Option, none, some, Bool, true, false, bit_or, ◌/=◌,
  ltb, if◌then◌else◌,
}
use ann.LinkedList.{ListOps}
use ann.CString.{Bytes}
use ann.Memory.Layout.{u64, page_size, round_down, round_up, pte_w, pte_u, user_stack_top}
use ann.Memory.Layout.Laws.{frame_of}
use ann.Memory.Machine.{Machine, Cmd, Run, ok, panic, pure, ◌>>=◌, ◌>>◌, load, store}
use ann.Memory.Pages.{page_alloc}
use ann.Memory.Map.{page_insert}
use ann.Memory.Map.Walk.{translate}
use ann.Task.{TaskContext, Task, ready, Kernel, TaskPtr, in_array, task_at, set_task}
use ann.Task.Create.{Step, returns, panics, faults, on_machine, task_new}
use ann.Task.Destroy.{task_destroy, gdt_dpl_u}

-- The number in `n` bytes from `off` on, the lowest byte first.
unfoldable pub number_at : (n : ℕ) → Bytes → ℕ → ℕ
number_at zero binary off = 0
number_at (suc n) binary off = binary off + 2 ^ 8 * number_at n binary (off + 1)

-- struct elf64_header; the bytes `e_elf` are not kept.
pub record Elf64Header : Type 0 where
  pub e_magic : ℕ
  pub e_type : ℕ
  pub e_machine : ℕ
  pub e_version : ℕ
  pub e_entry : ℕ
  pub e_phoff : ℕ
  pub e_shoff : ℕ
  pub e_flags : ℕ
  pub e_ehsize : ℕ
  pub e_phentsize : ℕ
  pub e_phnum : ℕ
  pub e_shentsize : ℕ
  pub e_shnum : ℕ
  pub e_shstrndx : ℕ

unfoldable pub elf64_header : Bytes → Elf64Header
elf64_header binary = record {
  e_magic = number_at 4 binary 0;
  e_type = number_at 2 binary 16;
  e_machine = number_at 2 binary 18;
  e_version = number_at 4 binary 20;
  e_entry = number_at 8 binary 24;
  e_phoff = number_at 8 binary 32;
  e_shoff = number_at 8 binary 40;
  e_flags = number_at 4 binary 48;
  e_ehsize = number_at 2 binary 52;
  e_phentsize = number_at 2 binary 54;
  e_phnum = number_at 2 binary 56;
  e_shentsize = number_at 2 binary 58;
  e_shnum = number_at 2 binary 60;
  e_shstrndx = number_at 2 binary 62;
}

-- struct elf64_program_header
pub record Elf64ProgramHeader : Type 0 where
  pub p_type : ℕ
  pub p_flags : ℕ
  pub p_offset : ℕ
  pub p_va : ℕ
  pub p_pa : ℕ
  pub p_filesz : ℕ
  pub p_memsz : ℕ
  pub p_align : ℕ

abbrev pub program_header_size : ℕ
program_header_size = 56

unfoldable pub elf64_program_header : Bytes → ℕ → Elf64ProgramHeader
elf64_program_header binary off = record {
  p_type = number_at 4 binary off;
  p_flags = number_at 4 binary (off + 4);
  p_offset = number_at 8 binary (off + 8);
  p_va = number_at 8 binary (off + 16);
  p_pa = number_at 8 binary (off + 24);
  p_filesz = number_at 8 binary (off + 32);
  p_memsz = number_at 8 binary (off + 40);
  p_align = number_at 8 binary (off + 48);
}

abbrev pub elf_magic : ℕ
elf_magic = 0x464C457F

abbrev pub elf_pheader_type_load : ℕ
elf_pheader_type_load = 1

-- A page for the user that can be written to: `PTE_U | PTE_W`
abbrev pub user_page : ℕ
user_page = bit_or pte_u pte_w

-- Byte `i` of the word `w`, and the word with another byte there
abbrev pub with_byte : (w i b : ℕ) → ℕ
with_byte w i b = w - w / 2 ^ (8 * i) % 2 ^ 8 * 2 ^ (8 * i) + b * 2 ^ (8 * i)

-- The processor writes a byte while cr3 holds `pml4`. A fault of the kernel itself is not followed.
unfoldable pub write_byte : (pml4 va b : ℕ) → Cmd (Unit {0})
write_byte pml4 va b m = elim (translate 3 m.mem (pml4 / page_size) va) [
  | none ↦ panic
  | some e ↦
      let pa = frame_of e * page_size + va % page_size in
      let word = pa - pa % 8 in store word (with_byte (m.mem word) (pa % 8) b) m
]

-- `memcpy` and `memset` to user addresses, with `n` bytes left from byte `i` on
unfoldable pub write_bytes : (n i pml4 va : ℕ) → Bytes → Cmd (Unit {0})
write_bytes zero i pml4 va src = pure tt
write_bytes (suc n) i pml4 va src =
    write_byte pml4 (u64 (va + i)) (src i) >> write_bytes n (i + 1) pml4 va src

module _ ⦃q : ListOps⦄ where
  -- A new page at `va`; `false` stands for -1.
  unfoldable pub map_new : (pml4 va : ℕ) → Cmd Bool
  map_new pml4 va =
      page_alloc >>= λ o. elim o [ none ↦ pure false | some p ↦ page_insert pml4 p va user_page ]

  -- The loop of task_load_segment at offset `i`, with `n` pages left
  unfoldable pub map_segment : (n i pml4 va : ℕ) → Cmd Bool
  map_segment zero i pml4 va = pure true
  map_segment (suc n) i pml4 va = map_new pml4 (u64 (va + i)) >>= λ done.
      if done then map_segment n (i + page_size) pml4 va else pure false

  unfoldable pub task_load_segment : (pml4 : ℕ) → Bytes → Elf64ProgramHeader → Cmd Bool
  task_load_segment pml4 binary ph =
      let va = round_down ph.p_va page_size in
      let size = round_up ph.p_memsz page_size in
      map_segment (size / page_size) 0 pml4 va >>= λ done.
      if done
      then write_bytes ph.p_filesz 0 pml4 ph.p_va (λ i. binary (ph.p_offset + i))
        >> write_bytes (u64 (ph.p_memsz + 2 ^ 64 - ph.p_filesz)) 0 pml4
            (u64 (ph.p_va + ph.p_filesz)) (λ i. 0)
        >> pure true
      else pure false

  -- The loop of task_load, with `n` program headers left from `off` on
  unfoldable pub load_segments : (n off pml4 : ℕ) → Bytes → (size : ℕ) → Cmd Bool
  load_segments zero off pml4 binary size = pure true
  load_segments (suc n) off pml4 binary size =
      let ph = elf64_program_header binary off in
      (if ph.p_type /= elf_pheader_type_load
        then pure true
        else if ltb size ph.p_offset
        then pure false
        else task_load_segment pml4 binary ph)
      >>= λ done.
          if done then load_segments n (off + program_header_size) pml4 binary size else pure false

  -- task_load behind its loop
  abbrev pub loaded : (i e_entry : ℕ) → Bool → Kernel → Step Bool
  loaded i e_entry true k = returns true (
      set_task k (in_array i)
        (record (k.tasks i) { context = record ((k.tasks i).context) { rip = e_entry } }))
  loaded i e_entry false k = returns false (record k { cr3 = some k.kernel_pml4 })

  -- task_load for the new task `i`; a PML4 that is NULL is not followed.
  unfoldable pub task_load : (i : ℕ) → Bytes → (size : ℕ) → Kernel → Step Bool
  task_load i binary size k =
      let h = elf64_header binary in
      if h.e_magic /= elf_magic then returns false k else elim ((k.tasks i).pml4) [
        | none ↦ faults
        | some pml4 ↦
            on_machine (load_segments h.e_phnum h.e_phoff pml4 binary size) (loaded i h.e_entry)
              (record k { cr3 = some pml4 })
      ]

  -- GD_UT and GD_UD
  abbrev pub gd_ut : ℕ
  gd_ut = 0x0018

  abbrev pub gd_ud : ℕ
  gd_ud = 0x0020

  -- The context with the segments of a user task and its stack
  abbrev pub user_context : TaskContext → TaskContext
  user_context c = record c {
    cs = bit_or gd_ut gdt_dpl_u;
    ds = bit_or gd_ud gdt_dpl_u;
    es = bit_or gd_ud gdt_dpl_u;
    ss = bit_or gd_ud gdt_dpl_u;
    rsp = user_stack_top;
  }

  -- The label for errors of task_create and thread_create, with the result `r`
  abbrev pub cleanup : {A : Type 0} → A → (i : ℕ) → Kernel → Step A
  cleanup r i k = elim (task_destroy (in_array i) k) [
    | returns _ k' ↦ returns r k'
    | panics ↦ panics
    | faults ↦ faults
  ]

  -- task_create behind the stack
  abbrev pub created : (i : ℕ) → Bool → Kernel → Step Bool
  created i true k = returns true (
      set_task k (in_array i)
        (record (k.tasks i) { context = user_context ((k.tasks i).context); state = ready }))
  created i false k = cleanup false i k

  -- task_create behind task_load
  abbrev pub with_stack : (i : ℕ) → Bool → Kernel → Step Bool
  with_stack i true k = elim ((k.tasks i).pml4) [
    | none ↦ faults
    | some pml4 ↦ on_machine (map_new pml4 (user_stack_top - page_size)) (created i) k
  ]
  with_stack i false k = cleanup false i k

  abbrev pub create_in : (i : ℕ) → Bytes → (size : ℕ) → Kernel → Step Bool
  create_in i binary size k = elim (task_load i binary size k) [
    | panics ↦ panics
    | faults ↦ faults
    | returns done k1 ↦ with_stack i done k1
  ]

  unfoldable pub task_create : Bytes → Bytes → (size : ℕ) → Kernel → Step Bool
  task_create name binary size k = elim (task_new name k) [
    | panics ↦ panics
    | faults ↦ faults
    | returns none k1 ↦ returns false k1
    | returns (some i) k1 ↦ create_in i binary size k1
  ]
