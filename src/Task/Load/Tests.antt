-- ===== src/Task/Load/Tests.antt =====
-- Two pages for a segment, in an empty address space.
use ann.Base.{◌∙◌, ℕ, zero, suc, ◌*◌, none, Bool, ◌≡◌, refl, arith, if◌then◌else◌, ◌==◌, [], ◌∷◌}
use ann.LinkedList.{plain_list}
use ann.Memory.Machine.{Machine}
use ann.Memory.Yields.{Yields}
use ann.Memory.Map.Walk.{translate-suc, Typed}
use ann.Memory.Map.Grow.{present-zero}
use ann.Memory.Map.Tree.{TablePath}
use ann.Task.Load.{Elf64ProgramHeader, task_load_segment}
use ann.Task.Load.NewPages.{Now}
use ann.Task.Load.Pages.{Loaded}
use ann.Task.Load.Segment.{task_load_segment-Loaded}

-- The PML4 in page 1 is empty, and pages 2 to 8 are free.
abbrev pub empty_space : Machine
empty_space = record {
  mem = λ a. 0;
  ref = λ p. if p == 1 then 1 else 0;
  free = 2 ∷ 3 ∷ 4 ∷ 5 ∷ 6 ∷ 7 ∷ 8 ∷ [];
  pages_cnt = 9;
}

abbrev pub levels : ℕ → ℕ
levels f = if f == 1 then 4 else 0

abbrev pub only : ℕ → Bool
only x = x == 1

empty_space-Typed : Typed levels empty_space
empty_space-Typed = record {
  distinct = ground arith;
  bounded = λ p h. ground arith;
  spare = λ p h. ground arith;
  linked = λ f n i a b on. ground (arith, present-zero);
  blank = λ f n i a b off. refl;
}

no_tables : (x k q g : ℕ) → TablePath empty_space.mem x k q g → (k ≡ 0) × (q ≡ 0) × (g ≡ x)
no_tables x zero q g (z, e) = (refl, z, e)
no_tables x (suc k) q g (q0, g0, i, w, hi, u, on, eq, eg) = cc (on, present-zero)

pub empty_space-Now : Now only (λ x r. none) levels empty_space
empty_space-Now = record {
  typed = empty_space-Typed;
  are_roots = λ x h. ground arith;
  tree = λ x x' k q q' g rx rx' le w w'.
      let (a, b, c) = no_tables x k q g w in
      let (a', b', c') = no_tables x' k q' g w' in (omega arith, omega arith);
  pages = λ x r h hr. translate-suc empty_space.mem x (r * 4096) 2 ∙ rw present-zero refl;
  counts = λ o h. refl;
  taken = λ o h. h;
  data_frames = λ o h z. z;
}

-- 5000 bytes at 0x400000, 100 of them from the file
abbrev two_pages : Elf64ProgramHeader
two_pages = record {
  p_type = 1;
  p_flags = 6;
  p_offset = 64;
  p_va = 0x40_0000;
  p_pa = 0;
  p_filesz = 100;
  p_memsz = 5000;
  p_align = 4096;
}

task_load_segment-Loaded_example :
    Yields
      (Loaded only 1 refl (λ x r. none) levels empty_space 1024 2)
      (task_load_segment (1 * 4096) (λ i. 7) two_pages empty_space)
task_load_segment-Loaded_example =
    task_load_segment-Loaded only 1 refl levels empty_space (λ x r. none) empty_space-Now refl
      (λ i. 7) two_pages refl (omega arith) (omega arith) (λ r a b. refl)
