-- ===== src/Memory/Map/Walk.antt =====
-- What the processor makes of the tables in memory: the specification of kernel/lib/memory/map.c.
-- A table is named by its frame; level 0 is the page table, level 3 the PML4.
use ann.Base.{
  ℕ, zero, suc, ◌+◌, ◌*◌, ◌/◌, ◌%◌, ◌^◌, ◌<◌, Option, none, some, true, false, ◌≡◌, refl,
  if◌then◌else◌, arith, ◌∙◌, has, Distinct,
}
use native.Mathlib.Nat.{mod-lt}
use ann.Memory.Layout.{present}
use ann.Memory.Layout.Laws.{frame_of}
use ann.Memory.Machine.{Machine}

-- Nine bits of the address for each level, above the twelve of the offset.
abbrev pub index : ℕ → ℕ → ℕ
index n va = va / 2 ^ (12 + 9 * n) % 512

pub index-lt : (n va : ℕ) → index n va < 512
index-lt n va = mod-lt _ (omega arith)

abbrev pub entry_at : ℕ → ℕ → ℕ
entry_at f i = f * 4096 + 8 * i

-- The address of the last entry on the way to `va`, if all tables on the way are there.
unfoldable pub slot_of : ℕ → (ℕ → ℕ) → ℕ → ℕ → Option ℕ
slot_of zero mem f va = some (entry_at f (index 0 va))
slot_of (suc n) mem f va =
    let e = mem (entry_at f (index (suc n) va)) in
    let rest = slot_of n mem (frame_of e) va in if present e then rest else none

abbrev pub present_entry : ℕ → Option ℕ
present_entry e = if present e then some e else none

abbrev pub read_entry : (ℕ → ℕ) → Option ℕ → Option ℕ
read_entry mem none = none
read_entry mem (some s) = present_entry (mem s)

-- The entry that `va` is translated by, if it is mapped.
unfoldable pub translate : ℕ → (ℕ → ℕ) → ℕ → ℕ → Option ℕ
translate n mem f va = read_entry mem (slot_of n mem f va)

module _ (mem : ℕ → ℕ) (f va : ℕ) where
  pub translate-zero : translate zero mem f va ≡ (
      if present (mem (entry_at f (index 0 va)))
      then some (mem (entry_at f (index 0 va)))
      else none)
  unfolding translate slot_of
  translate-zero = refl

  pub translate-suc :
      (n : ℕ)
      → translate (suc n) mem f va ≡ (
          if present (mem (entry_at f (index (suc n) va)))
          then translate n mem (frame_of (mem (entry_at f (index (suc n) va)))) va
          else none)
  unfolding translate slot_of
  translate-suc n = ground arith

-- `lv` says what each frame is: 0 for a frame that is no table, `suc n` for a table of level `n`.
-- Tables may be shared between address spaces, but not between levels, none is a free page, and an
-- absent entry is 0.
pub record Typed (lv : ℕ → ℕ) (m : Machine) : Type 0 where
  pub distinct : Distinct m.free
  pub bounded : (p : ℕ) → has p m.free ≡ true → p < 2 ^ 52
  pub spare : (p : ℕ) → has p m.free ≡ true → lv p ≡ 0
  pub linked :
      (f n i : ℕ)
      → lv f ≡ suc (suc n)
      → i < 512
      → present (m.mem (entry_at f i)) ≡ true
      → lv (frame_of (m.mem (entry_at f i))) ≡ suc n
  pub blank :
      (f n i : ℕ)
      → lv f ≡ suc n
      → i < 512
      → present (m.mem (entry_at f i)) ≡ false
      → m.mem (entry_at f i) ≡ 0

-- `m'` has all the tables of `m`, perhaps some more that were free pages, and every address of
-- every address space means what it meant.
pub record Extends (lv : ℕ → ℕ) (m : Machine) (lv' : ℕ → ℕ) (m' : Machine) : Type 0 where
  pub keeps : (g n : ℕ) → lv g ≡ suc n → lv' g ≡ suc n
  pub entries :
      (g n i : ℕ)
      → lv g ≡ suc (suc n)
      → i < 512
      → present (m.mem (entry_at g i)) ≡ true
      → m'.mem (entry_at g i) ≡ m.mem (entry_at g i)
  pub same : (n g va : ℕ) → lv g ≡ suc n → translate n m'.mem g va ≡ translate n m.mem g va
  pub others : (a : ℕ) → lv (a / 4096) ≡ 0 → has (a / 4096) m.free ≡ false → m'.mem a ≡ m.mem a
  pub refs : (p : ℕ) → has p m.free ≡ false → m'.ref p ≡ m.ref p
  pub shrinks : (p : ℕ) → has p m.free ≡ false → has p m'.free ≡ false
  pub data_frames : (p : ℕ) → has p m.free ≡ false → lv p ≡ 0 → lv' p ≡ 0

pub Extends-refl : (lv : ℕ → ℕ) (m : Machine) → Extends lv m lv m
Extends-refl lv m = record {
  keeps = λ g n h. h;
  entries = λ g n i a b c. refl;
  same = λ n g va h. refl;
  others = λ a h k. refl;
  refs = λ p h. refl;
  shrinks = λ p h. h;
  data_frames = λ p h k. k;
}

pub Extends-trans :
    {lv lv' lv'' : ℕ → ℕ} {m m' m'' : Machine}
    → Extends lv m lv' m'
    → Extends lv' m' lv'' m''
    → Extends lv m lv'' m''
Extends-trans s t = record {
  keeps = λ g n h. t.keeps g n (s.keeps g n h);
  entries = λ g n i a b c.
      let e = s.entries g n i a b c in t.entries g n i (s.keeps g (suc n) a) b (rw e c) ∙ e;
  same = λ n g va h. t.same n g va (s.keeps g n h) ∙ s.same n g va h;
  others =
      λ a h k. t.others a (s.data_frames (a / 4096) k h) (s.shrinks (a / 4096) k) ∙ s.others a h k;
  refs = λ p h. t.refs p (s.shrinks p h) ∙ s.refs p h;
  shrinks = λ p h. t.shrinks p (s.shrinks p h);
  data_frames = λ p h k. t.data_frames p (s.shrinks p h) (s.data_frames p h k);
}
