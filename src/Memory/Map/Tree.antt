-- ===== src/Memory/Map/Tree.antt =====
-- The tables for user addresses as trees: the entries 0 to 2 of a PML4, which the loops over address
-- spaces visit. No table is reached in two ways.
use ann.Base.{
  ℕ, zero, suc, ◌+◌, ◌-◌, ◌*◌, ◌<◌, ◌≤◌, Bool, true, false, ◌≡◌, ◌≢◌, refl, arith, ap, sym, subst,
  ◌∙◌, ◌⊎◌, inl, inr, List, ◌∷◌, has,
}
use native.Mathlib.Decide.{ℕ_discrete}
use ann.Memory.Layout.{present}
use ann.Memory.Layout.Laws.{frame_of}
use ann.Memory.Machine.{Machine}
use ann.Memory.Map.Walk.{entry_at, Typed}
use ann.Memory.Map.Grow.{grown, grown_mem-entry, present-zero, frame_of-new}

-- The entries of a PML4, at depth 0, that stand for user addresses.
abbrev pub IsUser : ℕ → ℕ → Type 0
IsUser zero i = i < 3
IsUser (suc k) i = Unit

-- Table `g` is reached from the PML4 `x` through `k` entries, whose indices are the digits of `q`.
abbrev pub TablePath : (ℕ → ℕ) → ℕ → ℕ → ℕ → ℕ → Type 0
TablePath mem x zero q g = (q ≡ 0) × (g ≡ x)
TablePath mem x (suc k) q g =
    (q0 : ℕ) × (g0 : ℕ) × (i : ℕ) × TablePath mem x k q0 g0
    × (i < 512)
    × IsUser k i
    × (present (mem (entry_at g0 i)) ≡ true)
    × (q ≡ q0 * 512 + i)
    × (g ≡ frame_of (mem (entry_at g0 i)))

-- `roots` are the PML4s that are looked at.
abbrev pub AreRoots : (ℕ → Bool) → (ℕ → ℕ) → Type 0
AreRoots roots lv = (x : ℕ) → roots x ≡ true → lv x ≡ 4

abbrev pub IsTree : (ℕ → Bool) → (ℕ → ℕ) → Type 0
IsTree roots mem =
    (x x' k q q' g : ℕ)
    → roots x ≡ true
    → roots x' ≡ true
    → k ≤ 3
    → TablePath mem x k q g
    → TablePath mem x' k q' g
    → (x ≡ x') × (q ≡ q')

module _ {lv : ℕ → ℕ} {m : Machine} (t : Typed lv m) where
  pub TablePath-level : (x k q g : ℕ) → lv x ≡ 4 → k ≤ 3 → TablePath m.mem x k q g → lv g + k ≡ 4
  TablePath-level x zero q g lx le (_, e) = omega (arith, lx, ap lv e)
  TablePath-level x (suc k) q g lx le (q0, g0, i, h, hi, _, on, _, e) =
      let l = TablePath-level x k q0 g0 lx (omega arith) h in
      omega (arith, ap lv e, t.linked g0 (2 - k) i (omega (arith, l)) hi on, le)

  -- A path stays while the entries that are present stay.
  pub TablePath-kept :
      (mem : ℕ → ℕ)
      → ((g n i : ℕ)
          → lv g ≡ suc (suc n)
          → i < 512
          → present (m.mem (entry_at g i)) ≡ true
          → mem (entry_at g i) ≡ m.mem (entry_at g i))
      → (x k q g : ℕ) → lv x ≡ 4
      → k ≤ 3
      → TablePath m.mem x k q g
      → TablePath mem x k q g
  TablePath-kept mem kept x zero q g lx le h = h
  TablePath-kept mem kept x (suc k) q g lx le (q0, g0, i, h, hi, u, on, eq, eg) =
      let l = TablePath-level x k q0 g0 lx (omega arith) h in
      let same = kept g0 (2 - k) i (omega (arith, l, le)) hi on in
      (
        q0,
        g0,
        i,
        TablePath-kept mem kept x k q0 g0 lx (omega arith) h,
        hi,
        u,
        rw same on,
        eq,
        eg ∙ ap frame_of (sym same),
      )

  -- Memory that has the same upper tables has the same paths.
  module _ (mem : ℕ → ℕ)
      (agree : (g n i : ℕ)
        → lv g ≡ suc (suc n)
        → i < 512
        → mem (entry_at g i) ≡ m.mem (entry_at g i)) where
    pub TablePath-back :
        (x k q g : ℕ) → lv x ≡ 4 → k ≤ 3 → TablePath mem x k q g → TablePath m.mem x k q g
    TablePath-back x zero q g lx le h = h
    TablePath-back x (suc k) q g lx le (q0, g0, i, h, hi, u, on, eq, eg) =
        let h0 = TablePath-back x k q0 g0 lx (omega arith) h in
        let l = TablePath-level x k q0 g0 lx (omega arith) h0 in
        let same = agree g0 (2 - k) i (omega (arith, l, le)) hi in
        (q0, g0, i, h0, hi, u, rw same at on, eq, eg ∙ ap frame_of same)

    pub IsTree-agree :
        (roots : ℕ → Bool) → AreRoots roots lv → IsTree roots m.mem → IsTree roots mem
    IsTree-agree roots r tree x x' k q q' g rx rx' le h h' =
        tree x x' k q q' g rx rx' le (TablePath-back x k q g (r x rx) le h)
          (TablePath-back x' k q' g (r x' rx') le h')

module _ {lv : ℕ → ℕ} {m : Machine} (t : Typed lv m) (f n i p : ℕ) (rest : List ℕ)
    (lf : lv f ≡ suc (suc n)) (hi : i < 512) (off : present (m.mem (entry_at f i)) ≡ false)
    (fr : m.free ≡ p ∷ rest) where
  abbrev m' : Machine
  m' = grown m (entry_at f i) p rest

  p-fresh : has p m.free ≡ true
  p-fresh = rw fr (ground arith)

  p-zero : lv p ≡ 0
  p-zero = t.spare p p-fresh

  f-apart : f ≢ p
  f-apart e = omega (arith, p-zero, lf, ap lv e)

  -- A path through the new entry ends in the new table.
  abbrev IsNew : ℕ → ℕ → ℕ → ℕ → Type 0
  IsNew x k q g =
      (g ≡ p) × (k0 : ℕ) × (q0 : ℕ) × (k ≡ suc k0) × TablePath m.mem x k0 q0 f × (q ≡ q0 * 512 + i)

  TablePath-grown :
      (x k q g : ℕ)
      → lv x ≡ 4
      → k ≤ 3
      → TablePath m'.mem x k q g
      → TablePath m.mem x k q g ⊎ IsNew x k q g
  TablePath-grown x zero q g lx le h = inl h
  TablePath-grown x (suc k) q g lx le (q0, g0, j, h, hj, u, on, eq, eg) =
      let entry = grown_mem-entry m.mem f i p f-apart hi g0 j hj in
      elim (TablePath-grown x k q0 g0 lx (omega arith) h) [
        | inr (new, _, _, _, _, _) ↦
            let nothing : m'.mem (entry_at g0 j) ≡ 0 = ground (arith, entry, new) in
            cc (rw nothing at on, present-zero)
        | inl old ↦
            let l = TablePath-level t x k q0 g0 lx (omega arith) old in
            let kept : g0 ≢ p = λ e. omega (arith, l, le, p-zero, ap lv e) in
            elim (ℕ_discrete g0 f) [
              | no ne ↦
                  let same : m'.mem (entry_at g0 j) ≡ m.mem (entry_at g0 j) =
                    ground (arith, entry, kept) in
                  inl (q0, g0, j, old, hj, u, rw same at on, eq, eg ∙ ap frame_of same)
              | yes here ↦ elim (ℕ_discrete j i) [
                | no ne ↦
                    let same : m'.mem (entry_at g0 j) ≡ m.mem (entry_at g0 j) =
                      ground (arith, entry, kept) in
                    inl (q0, g0, j, old, hj, u, rw same at on, eq, eg ∙ ap frame_of same)
                | yes this ↦
                    let new : m'.mem (entry_at g0 j) ≡ p * 4096 + 7 =
                      ground (arith, entry, f-apart) in
                    inr (
                      eg ∙ ap frame_of new ∙ frame_of-new p (t.bounded p p-fresh),
                      k,
                      q0,
                      refl,
                      subst (λ g1. TablePath m.mem x k q0 g1) here old,
                      rw this at eq,
                    )
              ]
            ]
      ]

  pub IsTree-grown :
      (roots : ℕ → Bool) → AreRoots roots lv → IsTree roots m.mem → IsTree roots m'.mem
  IsTree-grown roots r tree x x' k q q' g rx rx' le h h' =
      elim (TablePath-grown x k q g (r x rx) le h) [
        | inl old ↦ elim (TablePath-grown x' k q' g (r x' rx') le h') [
          | inl old' ↦ tree x x' k q q' g rx rx' le old old'
          | inr (new, _, _, _, _, _) ↦
              absurd
                (omega (arith, TablePath-level t x k q g (r x rx) le old, ap lv new, p-zero, le))
        ]
        | inr (new, k0, q0, ek, way, eq) ↦ elim (TablePath-grown x' k q' g (r x' rx') le h') [
          | inl old' ↦
              absurd (
                omega
                  (arith, TablePath-level t x' k q' g (r x' rx') le old', ap lv new, p-zero, le))
          | inr (_, k0', q0', ek', way', eq') ↦
              let same : k0' ≡ k0 = omega arith in
              let (ex, e) =
                tree x x' k0 q0 q0' f rx rx' (omega arith) way
                  (subst (λ d. TablePath m.mem x' d q0' f) same way') in
              (ex, omega (arith, e, eq, eq'))
        ]
      ]
