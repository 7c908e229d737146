-- ===== src/Memory/Map/After.antt =====
-- What an operation that only adds tables, or writes to page tables, leaves of the walks.
use ann.Base.{
  Bool, ◌<◌, refl, ◌/◌, ℕ, zero, suc, none, some, true, false, ◌≡◌, ◌≢◌, ◌⊎◌, inl, inr, has,
  Bool-cases, Option-cases, arith, ap, ◌∙◌, sym, ◌+◌, ◌≤◌, length,
}
use ann.Memory.Layout.{present}
use ann.Memory.Layout.Laws.{frame_of}
use ann.Memory.Machine.{Machine}
use ann.Memory.Map.Tree.{AreRoots, IsTree}
use ann.Memory.Map.Walk.{index, index-lt, entry_at, slot_of, Typed, Extends, translate, read_entry}

-- Of the two addresses one has an entry, and the other has not that one.
abbrev pub Differ : Machine → ℕ → ℕ → ℕ → ℕ → Type 0
Differ m g va' f va =
    ((s : ℕ) × (slot_of 3 m.mem g va' ≡ some s) × (slot_of 3 m.mem f va ≢ some s))
    ⊎ ((s : ℕ) × (slot_of 3 m.mem f va ≡ some s) × (slot_of 3 m.mem g va' ≢ some s))

-- Tables stay tables of their level, entries stay where they are, and pages in use that are no
-- tables do not become tables and keep what they hold. The user part of the address spaces stays a
-- tree. At most three free pages are taken, for tables.
pub record After (lv : ℕ → ℕ) (m : Machine) (lv' : ℕ → ℕ) (m' : Machine) : Type 0 where
  pub keeps : (g n : ℕ) → lv g ≡ suc n → lv' g ≡ suc n
  pub slots :
      (n g va s : ℕ) → lv g ≡ suc n → slot_of n m.mem g va ≡ some s → slot_of n m'.mem g va ≡ some s
  pub data_frames : (o : ℕ) → has o m.free ≡ false → lv o ≡ 0 → lv' o ≡ 0
  pub entries :
      (g n i : ℕ)
      → lv g ≡ suc (suc n)
      → i < 512
      → present (m.mem (entry_at g i)) ≡ true
      → m'.mem (entry_at g i) ≡ m.mem (entry_at g i)
  pub trees : (roots : ℕ → Bool) → AreRoots roots lv → IsTree roots m.mem → IsTree roots m'.mem
  pub contents : (a : ℕ) → lv (a / 4096) ≡ 0 → has (a / 4096) m.free ≡ false → m'.mem a ≡ m.mem a
  pub stock : length m.free ≤ length m'.free + 3

pub slot_of-Extends :
    {lv lv' : ℕ → ℕ} {m m' : Machine}
    → Typed lv m
    → Extends lv m lv' m'
    → (n g va s : ℕ) → lv g ≡ suc n
    → slot_of n m.mem g va ≡ some s
    → slot_of n m'.mem g va ≡ some s
unfolding slot_of
slot_of-Extends t x zero g va s lg e = e
slot_of-Extends {m} t x (suc n) g va s lg e =
    let old = m.mem (entry_at g (index (suc n) va)) in
    elim (Bool-cases (present old)) [
      | inl on ↦
          rw (x.entries g n (index (suc n) va) lg (index-lt (suc n) va) on, on)
            (slot_of-Extends t x n (frame_of old) va s (t.linked g n _ lg (index-lt (suc n) va) on)
              (rw on at e))
      | inr off ↦ cc (rw off at e)
    ]

read_entry-some :
    (m : Machine) (s e : ℕ)
    → read_entry m.mem (some s) ≡ some e
    → (m.mem s ≡ e) × (present e ≡ true)
read_entry-some m s e h = ground arith

-- The entry that a translation is read from.
pub translate-slot_of :
    (m : Machine) (g va e : ℕ)
    → translate 3 m.mem g va ≡ some e
    → (s : ℕ) × (slot_of 3 m.mem g va ≡ some s) × (m.mem s ≡ e) × (present e ≡ true)
unfolding translate
translate-slot_of m g va e h = elim (Option-cases (slot_of 3 m.mem g va)) [
  | inl o ↦ cc (rw o at h)
  | inr (s, o) ↦
      (s, o, (read_entry-some m s e (rw o at h)).0, (read_entry-some m s e (rw o at h)).1)
]

-- A mapped address and one that is not mapped have not the same entry.
pub Differ-none :
    (m : Machine) (g f va' va e : ℕ)
    → translate 3 m.mem g va' ≡ some e
    → translate 3 m.mem f va ≡ none
    → Differ m g va' f va
unfolding translate
Differ-none m g f va' va e h k =
    let (s, es, _, _) = translate-slot_of m g va' e h in
    inl (s, es, λ same. cc (h, k, ap (read_entry m.mem) (es ∙ sym same)))

pub Differ-sym : (m : Machine) (g f va' va : ℕ) → Differ m g va' f va → Differ m f va g va'
Differ-sym m g f va' va (inl h) = inr h
Differ-sym m g f va' va (inr h) = inl h

pub After-refl : (lv : ℕ → ℕ) (m : Machine) → After lv m lv m
After-refl lv m = record {
  keeps = λ g n h. h;
  slots = λ n g va s h e. e;
  data_frames = λ o h z. z;
  entries = λ g n i h a on. refl;
  trees = λ roots r tree. tree;
  contents = λ a h k. refl;
  stock = omega arith;
}
