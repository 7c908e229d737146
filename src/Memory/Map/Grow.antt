-- ===== src/Memory/Map/Grow.antt =====
-- One new table: a free page is cleared and entered into a table that had no entry there.
use ann.Base.{
  ℕ, zero, suc, ◌+◌, ◌*◌, ◌/◌, ◌^◌, ◌<◌, none, true, false, ◌≡◌, ◌≢◌, refl, if◌then◌else◌, arith,
  List, ◌∷◌, has, Distinct, ◌==◌, ◌&&◌, ◌||◌, leb, ltb, update, ap,
}
use ann.Memory.Layout.{present}
use ann.Memory.Layout.Laws.{frame_of, present_mod}
use ann.Memory.Machine.{Machine}
use ann.Memory.Map.Walk.{
  index, index-lt, entry_at, translate, translate-zero, translate-suc, Typed, Extends,
}

-- Memory after page `p` was cleared and entered at `s`.
unfoldable pub grown_mem : (ℕ → ℕ) → ℕ → ℕ → ℕ → ℕ
grown_mem mem s p =
    update (λ a. if leb (p * 4096) a && ltb a (p * 4096 + 4096) then 0 else mem a) s (p * 4096 + 7)

abbrev pub grown : Machine → ℕ → ℕ → List ℕ → Machine
grown m s p rest = record m {
  mem = grown_mem m.mem s p;
  ref = update (update m.ref p 0) p 1;
  free = rest;
}

module _ (mem : ℕ → ℕ) (f i p : ℕ) (ne : f ≢ p) (hi : i < 512) where
  pub grown_mem-entry :
      (g j : ℕ)
      → j < 512
      → grown_mem mem (entry_at f i) p (entry_at g j)
        ≡ (if g == p then 0 else if (g == f) && (j == i) then p * 4096 + 7 else mem (entry_at g j))
  unfolding grown_mem
  grown_mem-entry g j hj = ground arith

  pub grown_mem-other :
      (a : ℕ) → a / 4096 ≢ f → a / 4096 ≢ p → grown_mem mem (entry_at f i) p a ≡ mem a
  unfolding grown_mem
  grown_mem-other a h k = ground arith

pub present-zero : present 0 ≡ false
present-zero = present_mod 0

pub present-new : (p : ℕ) → present (p * 4096 + 7) ≡ true
present-new p = ground (arith, present_mod (p * 4096 + 7))

pub frame_of-new : (p : ℕ) → p < 2 ^ 52 → frame_of (p * 4096 + 7) ≡ p
frame_of-new p h = omega arith

-- A cleared page maps nothing, read as a table of any level.
translate-cleared :
    (n : ℕ) (mem : ℕ → ℕ) (p va : ℕ)
    → ((j : ℕ) → j < 512 → mem (entry_at p j) ≡ 0)
    → translate n mem p va ≡ none
translate-cleared zero mem p va z =
    rw (translate-zero mem p va, z (index 0 va) (omega arith), present-zero) refl
translate-cleared (suc n) mem p va z =
    let zero_entry = z (index (suc n) va) (index-lt (suc n) va) in
    rw (translate-suc mem p va n, zero_entry, present-zero) refl

module _ {lv : ℕ → ℕ} {m : Machine} (t : Typed lv m) (f n i p : ℕ) (rest : List ℕ)
    (lf : lv f ≡ suc (suc n)) (hi : i < 512) (off : present (m.mem (entry_at f i)) ≡ false)
    (fr : m.free ≡ p ∷ rest) where
  abbrev m' : Machine
  m' = grown m (entry_at f i) p rest

  split : (has p rest ≡ false) × Distinct rest
  split = rw fr at t.distinct

  free-cons : (r : ℕ) → has r m.free ≡ (r == p || has r rest)
  free-cons r = rw fr

  p-free : has p m.free ≡ true
  p-free = rw fr (ground arith)

  p-level : lv p ≡ 0
  p-level = t.spare p p-free

  f-ne-p : f ≢ p
  f-ne-p e = omega (arith, p-level, lf, ap lv e)

  new_entry :
      (g j : ℕ)
      → j < 512
      → m'.mem (entry_at g j) ≡ (
          if g == p then 0 else if (g == f) && (j == i) then p * 4096 + 7 else m.mem (entry_at g j))
  new_entry = grown_mem-entry m.mem f i p f-ne-p hi

  translate-grown-suc :
      (k g va : ℕ)
      → lv g ≡ suc (suc k)
      → let e = m.mem (entry_at g (index (suc k) va)) in
        (present e ≡ true → translate k m'.mem (frame_of e) va ≡ translate k m.mem (frame_of e) va)
        → translate (suc k) m'.mem g va ≡ translate (suc k) m.mem g va
  translate-grown-suc k g va h deeper =
      let j = index (suc k) va in
      ground (
        arith,
        translate-suc m'.mem g va k,
        translate-suc m.mem g va k,
        new_entry g j (index-lt (suc k) va),
        p-level,
        deeper,
        frame_of-new p (t.bounded p p-free),
        translate-cleared k m'.mem p va (λ b hb. ground (arith, new_entry p b)),
      )

  translate-grown : (k g va : ℕ) → lv g ≡ suc k → translate k m'.mem g va ≡ translate k m.mem g va
  translate-grown zero g va h = ground (
    arith,
    new_entry g (index 0 va),
    p-level,
    translate-zero m'.mem g va,
    translate-zero m.mem g va,
  )
  translate-grown (suc k) g va h = translate-grown-suc k g va h λ on.
      translate-grown k (frame_of (m.mem (entry_at g (index (suc k) va)))) va
        (t.linked g k (index (suc k) va) h (index-lt (suc k) va) on)

  pub grown-Typed : Typed (update lv p (suc n)) m'
  grown-Typed = record {
    distinct = split.1;
    bounded = λ r h. t.bounded r (ground (arith, free-cons r));
    spare = λ r h. ground (arith, free-cons r, split, t.spare r);
    linked = λ g k j h hj on. ground (
      arith,
      new_entry g j,
      t.linked g k j,
      present-zero,
      frame_of-new p (t.bounded p p-free),
      p-level,
      t.linked g k j,
    );
    blank =
        λ g k j h hj on. ground (arith, new_entry g j, t.blank g k j, present-zero, present-new p);
  }

  pub grown-Extends : Extends lv m (update lv p (suc n)) m'
  grown-Extends = record {
    keeps = λ g k h. ground (arith, p-level);
    entries = λ g k j h hj on. ground (arith, new_entry g j, p-level);
    same = translate-grown;
    others = λ a h k.
        grown_mem-other m.mem f i p f-ne-p hi a (λ e. omega (arith, lf, ap lv e))
          (λ e. ground (arith, p-free));
    refs = λ r h. ground (arith, free-cons r);
    shrinks = λ r h. ground (arith, free-cons r);
    data_frames = λ r h k. ground (arith, p-free);
  }
