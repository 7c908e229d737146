-- ===== src/Memory/Map/Create.antt =====
-- mmap_lookup with `create`: it ends at the entry for the address, or has used up the free pages,
-- and in both cases no address space has changed its meaning.
use ann.Base.{
  ℕ, suc, ◌*◌, ◌^◌, ◌<◌, Option, none, some, Bool, true, false, ◌≡◌, ◌≢◌, refl, arith, Bool-cases,
  inl, inr, List, [], ◌∷◌, update, ap, ◌⊎◌, ◌∙◌, subst, zero,
}
use ann.LinkedList.{ListOps}
use ann.Memory.Layout.{present}
use ann.Memory.Layout.Laws.{frame_of, pml4_idx_mod, pdp_idx_mod, pd_idx_mod, pt_idx_mod}
use ann.Memory.Machine.{Machine}
use ann.Memory.Yields.{Yields, yields, after_or_null}
use ann.Memory.Map.{next_table, mmap_lookup}
use ann.Memory.Map.Walk.{
  index, index-lt, entry_at, slot_of, Typed, Extends, Extends-refl, Extends-trans,
}
use ann.Memory.Map.Grow.{
  grown_mem-entry, grown-Typed, grown-Extends, present-new, present-zero, frame_of-new,
}
use ann.Memory.Map.Tree.{AreRoots, IsTree, IsTree-grown}
use ann.Memory.Map.Lookup.{next_table-present, next_table-nil, next_table-cons}

zero-or-suc : (n : ℕ) → (n ≡ 0) ⊎ ((k : ℕ) × (n ≡ suc k))
zero-or-suc zero = inl refl
zero-or-suc (suc n) = inr (n, refl)

-- Entry `i` of table `f` names the table `g`.
pub record Link (m : Machine) (f i g : ℕ) : Type 0 where
  pub on : present (m.mem (entry_at f i)) ≡ true
  pub to : frame_of (m.mem (entry_at f i)) ≡ g

Link-Extends :
    {lv lv' : ℕ → ℕ} {m m' : Machine} {f n i g : ℕ}
    → Link m f i g
    → lv f ≡ suc (suc n)
    → i < 512
    → Extends lv m lv' m'
    → Link m' f i g
Link-Extends {f} {n} {i} l lf hi x =
    let e = x.entries f n i lf hi l.on in record { on = rw e l.on; to = rw e l.to }

slot_of-Link :
    {m : Machine} {f g s : ℕ} (n va : ℕ)
    → Link m f (index (suc n) va) g
    → slot_of n m.mem g va ≡ some s
    → slot_of (suc n) m.mem f va ≡ some s
unfolding slot_of
slot_of-Link n va l e = rw (l.on, l.to) e

-- The tables after a step: well-typed, more than before, and no table in two places of the user part.
pub record Grown (lv : ℕ → ℕ) (m : Machine) (lv' : ℕ → ℕ) (m' : Machine) : Type 0 where
  pub typed : Typed lv' m'
  pub extends : Extends lv m lv' m'
  pub trees : (roots : ℕ → Bool) → AreRoots roots lv → IsTree roots m.mem → IsTree roots m'.mem

-- Table `g` was there before, and nothing has changed, or it is a new one without entries.
data IsOldOrNew (lv : ℕ → ℕ) (m m' : Machine) (f i g : ℕ) : Type 0 where
  old_table : m' ≡ m → Link m f i g → IsOldOrNew lv m m' f i g
  new_table :
      lv g ≡ 0
      → ((j : ℕ) → j < 512 → present (m'.mem (entry_at g j)) ≡ false)
      → IsOldOrNew lv m m' f i g

-- What next_table returns: NULL with no page left, or a table one level down.
abbrev TableIn : (ℕ → ℕ) → Machine → ℕ → ℕ → ℕ → Option ℕ → (ℕ → ℕ) → Machine → Type 0
TableIn lv0 m0 f n i none lv m = m.free ≡ []
TableIn lv0 m0 f n i (some a) lv m =
    (g : ℕ) × (a ≡ g * 4096) × (lv g ≡ suc n) × Link m f i g × IsOldOrNew lv0 m0 m f i g

-- Where an entry that mmap_lookup returns comes from: the walk led to it before, and nothing has
-- changed, or it stands in a new table.
pub data Origin (lv : ℕ → ℕ) (m m' : Machine) (f va g s : ℕ) : Type 0 where
  was_there : m' ≡ m → slot_of 3 m.mem f va ≡ some s → Origin lv m m' f va g s
  is_new : lv g ≡ 0 → Origin lv m m' f va g s

-- What mmap_lookup returns: NULL with no page left, or the entry that the walk leads to, in a page
-- table.
abbrev pub SlotIn : (ℕ → ℕ) → Machine → ℕ → ℕ → Option ℕ → (ℕ → ℕ) → Machine → Type 0
SlotIn lv0 m0 f va none lv m = m.free ≡ []
SlotIn lv0 m0 f va (some s) lv m =
    (g : ℕ) × (lv g ≡ 1)
    × (s ≡ entry_at g (index 0 va))
    × (slot_of 3 m.mem f va ≡ some s)
    × Origin lv0 m0 m f va g s

abbrev pub Ends :
    (Option ℕ → (ℕ → ℕ) → Machine → Type 0) → (ℕ → ℕ) → Machine → Option ℕ → Machine → Type 0
Ends Q lv m o m' = (lv' : ℕ → ℕ) × Grown lv m lv' m' × Q o lv' m'

module _ ⦃q : ListOps⦄ where
  next_table-TableIn :
      {lv : ℕ → ℕ} {m : Machine} (f n i : ℕ)
      → Typed lv m
      → lv f ≡ suc (suc n)
      → i < 512
      → Yields (Ends (TableIn lv m f n i) lv m) (next_table true (entry_at f i) m)
  next_table-TableIn {lv} {m} f n i t lf hi = elim (Bool-cases (present (m.mem (entry_at f i)))) [
    | inl on ↦ rw (next_table-present true _ m on) (
        yields (
          lv,
          record { typed = t; extends = Extends-refl lv m; trees = λ roots a tree. tree },
          (
            frame_of (m.mem (entry_at f i)),
            refl,
            t.linked f n i lf hi on,
            record { on = on; to = refl },
            old_table refl (record { on = on; to = refl }),
          ),
        ))
    | inr off ↦ absent off m.free refl
  ]
    where
      absent :
          present (m.mem (entry_at f i)) ≡ false
          → (l : List ℕ) → m.free ≡ l
          → Yields (Ends (TableIn lv m f n i) lv m) (next_table true (entry_at f i) m)
      absent off [] e = rw (next_table-nil _ m off e) (
          yields (
            lv,
            record { typed = t; extends = Extends-refl lv m; trees = λ roots a tree. tree },
            e,
          ))
      absent off (p ∷ rest) e =
          let hp : p < 2 ^ 52 = t.bounded p (rw e (ground arith)) in
          let ne : f ≢ p = λ k. omega (arith, lf, ap lv k, t.spare p (rw e (ground arith))) in
          let there = grown_mem-entry m.mem f i p ne hi f i hi in
          rw (next_table-cons _ p rest m off e t.distinct hp) (
            yields (
              update lv p (suc n),
              record {
                typed = grown-Typed t f n i p rest lf hi off e;
                extends = grown-Extends t f n i p rest lf hi off e;
                trees = IsTree-grown t f n i p rest lf hi off e;
              },
              (
                p,
                refl,
                ground arith,
                record {
                  on = ground (arith, there, present-new p);
                  to = ground (arith, there, frame_of-new p hp);
                },
                new_table (t.spare p (rw e (ground arith))) (λ j hj.
                    ground (arith, grown_mem-entry m.mem f i p ne hi p j hj, present-zero)),
              ),
            ))

  Grown-trans :
      {lv lv' lv'' : ℕ → ℕ} {m m' m'' : Machine}
      → Grown lv m lv' m'
      → Grown lv' m' lv'' m''
      → Grown lv m lv'' m''
  Grown-trans a b = record {
    typed = b.typed;
    extends = Extends-trans a.extends b.extends;
    trees =
        λ roots r tree. b.trees roots (λ x h. a.extends.keeps x 3 (r x h)) (a.trees roots r tree);
  }

  -- A table that is empty has no table below it.
  no-Link :
      {m : Machine} {f i g : ℕ}
      → ((j : ℕ) → j < 512 → present (m.mem (entry_at f j)) ≡ false)
      → i < 512
      → Link m f i g
      → ⊥
  no-Link {i} e hi l = cc (e i hi, l.on)

  level-zero :
      {lv lv' : ℕ → ℕ} {m m' : Machine} (g : ℕ) → Extends lv m lv' m' → lv' g ≡ 0 → lv g ≡ 0
  level-zero {lv} g x z = elim (zero-or-suc (lv g)) [
    | inl e ↦ e
    | inr (n, e) ↦ absurd (omega (arith, x.keeps g n e, z))
  ]

  walk-Origin :
      {lv0 lv1 lv2 : ℕ → ℕ} {m0 m1 m2 m3 : Machine} {f pdp pd pt : ℕ} (va s : ℕ)
      → Extends lv0 m0 lv1 m1
      → Extends lv1 m1 lv2 m2
      → IsOldOrNew lv0 m0 m1 f (index 3 va) pdp
      → IsOldOrNew lv1 m1 m2 pdp (index 2 va) pd
      → IsOldOrNew lv2 m2 m3 pd (index 1 va) pt
      → s ≡ entry_at pt (index 0 va)
      → Origin lv0 m0 m3 f va pt s
  unfolding slot_of
  walk-Origin va s x1 x2 a b (new_table z e) es = is_new (level-zero _ x1 (level-zero _ x2 z))
  walk-Origin va s x1 x2 a (new_table z e) (old_table same l) es =
      absurd (no-Link e (index-lt 1 va) l)
  walk-Origin va s x1 x2 (new_table z e) (old_table same1 l1) (old_table same l) es =
      absurd (no-Link e (index-lt 2 va) l1)
  walk-Origin {m0} {pdp} {pd} {pt} va s x1 x2 (old_table same0 l0) (old_table same1 l1)
        (old_table same2 l2) es =
      was_there (same2 ∙ same1 ∙ same0) (
        slot_of-Link 2 va l0 (
          slot_of-Link 1 va (subst (λ m. Link m pdp (index 2 va) pd) same0 l1) (
            slot_of-Link 0 va (subst (λ m. Link m pd (index 1 va) pt) (same1 ∙ same0) l2)
              (rw es refl))))

  -- On well-typed tables, for a PML4 `f`, mmap_lookup with `create` does not panic, leaves well-typed
  -- tables and the counters of pages in use alone. It returns NULL only when no free page is left.
  -- Otherwise it returns the entry to which the walk now leads, in a page table. In both cases
  -- every address of every address space is translated as before.
  pub mmap_lookup-SlotIn :
      {lv : ℕ → ℕ} {m : Machine} (f va : ℕ)
      → Typed lv m
      → lv f ≡ 4
      → Yields (Ends (SlotIn lv m f va) lv m) (mmap_lookup (f * 4096) va true m)
  unfolding mmap_lookup slot_of
  mmap_lookup-SlotIn {lv} {m} f va t lf = rw pml4_idx_mod (
      after_or_null (next_table-TableIn f 2 (index 3 va) t lf (index-lt 3 va))
        (λ m1 (lv1, g1, e). (lv1, g1, e))
        λ a m1 (lv1, g1, (pdp, ea, l1, k1, w1)).
          rw (ea, pdp_idx_mod)
            (after_or_null (next_table-TableIn pdp 1 (index 2 va) g1.typed l1 (index-lt 2 va))
              (λ m2 (lv2, g2, e). (lv2, Grown-trans g1 g2, e))
              λ b m2 (lv2, g2, (pd, eb, l2, k2, w2)).
                rw (eb, pd_idx_mod)
                  (after_or_null (next_table-TableIn pd 0 (index 1 va) g2.typed l2 (index-lt 1 va))
                    (λ m3 (lv3, g3, e). (lv3, Grown-trans g1 (Grown-trans g2 g3), e))
                    λ c m3 (lv3, g3, (pt, ec, l3, k3, w3)).
                      rw (ec, pt_idx_mod)
                        (let l1' = g2.extends.keeps pdp 2 l1 in
                          let k1' =
                            Link-Extends k1 (g1.extends.keeps f 3 lf) (index-lt 3 va)
                              (Extends-trans g2.extends g3.extends) in
                          let k2' = Link-Extends k2 l1' (index-lt 2 va) g3.extends in
                          yields (
                            lv3,
                            Grown-trans g1 (Grown-trans g2 g3),
                            (
                              pt,
                              l3,
                              refl,
                              slot_of-Link 2 va k1'
                                  (slot_of-Link 1 va k2' (slot_of-Link 0 va k3 refl)),
                              walk-Origin va _ g1.extends g2.extends w1 w2 w3 refl,
                            ),
                          )))))
