-- ===== src/Memory/Map/Stock.antt =====
-- How many free pages mmap_lookup takes: one for each table that it makes.
use ann.Base.{
  ℕ, ◌+◌, ◌^◌, ◌<◌, ◌≤◌, some, true, false, ◌≡◌, refl, arith, Bool-cases, inl, inr, List, [], ◌∷◌,
  has, Distinct, length, ==_refl,
}
use ann.LinkedList.{ListOps}
use ann.Memory.Layout.{present}
use ann.Memory.Machine.{Machine}
use ann.Memory.Yields.{Yields, yields, after_or_null}
use ann.Memory.Map.{next_table, mmap_lookup}
use ann.Memory.Map.Grow.{grown}
use ann.Memory.Map.Lookup.{next_table-present, next_table-nil, next_table-cons}

-- A list of free pages as it should be.
abbrev pub IsStock : Machine → Type 0
IsStock m = Distinct m.free × ((p : ℕ) → has p m.free ≡ true → p < 2 ^ 52)

-- At most `n` free pages are taken.
abbrev pub Takes : {A : Type 0} → ℕ → Machine → A → Machine → Type 0
Takes n m a m' = IsStock m' × (length m.free ≤ length m'.free + n)

grown-IsStock :
    (s p : ℕ) (rest : List ℕ) (m : Machine)
    → m.free ≡ p ∷ rest
    → IsStock m
    → Takes 1 m (some p) (grown m s p rest)
grown-IsStock s p rest m e (d, b) =
    (((rw e at d).1, λ q h. b q (rw e (ground arith))), rw e (omega arith))

module _ ⦃q : ListOps⦄ where
  next_table-Takes : (s : ℕ) (m : Machine) → IsStock m → Yields (Takes 1 m) (next_table true s m)
  next_table-Takes s m k = elim (Bool-cases (present (m.mem s))) [
    | inl on ↦ rw (next_table-present true s m on) (yields (k, omega arith))
    | inr off ↦ go off (m.free) refl
  ]
    where
      go :
          present (m.mem s) ≡ false
          → (l : List ℕ) → m.free ≡ l
          → Yields (Takes 1 m) (next_table true s m)
      go off [] e = rw (next_table-nil s m off e) (yields (k, omega arith))
      go off (p ∷ rest) e =
          rw (next_table-cons s p rest m off e k.0 (k.1 p (rw e (rw (==_refl p) refl))))
            (yields (grown-IsStock s p rest m e k))

  -- Whether it returns an entry or NULL, mmap_lookup with `create` takes at most three free pages.
  pub mmap_lookup-Takes :
      (pml4 va : ℕ) (m : Machine) → IsStock m → Yields (Takes 3 m) (mmap_lookup pml4 va true m)
  unfolding mmap_lookup
  mmap_lookup-Takes pml4 va m k =
      after_or_null (next_table-Takes _ m k) (λ m1 (k1, n1). (k1, omega (arith, n1)))
        λ a m1 (k1, n1).
          after_or_null (next_table-Takes _ m1 k1) (λ m2 (k2, n2). (k2, omega (arith, n1, n2)))
            λ b m2 (k2, n2).
              after_or_null (next_table-Takes _ m2 k2)
                (λ m3 (k3, n3). (k3, omega (arith, n1, n2, n3)))
                λ c m3 (k3, n3). yields (k3, omega (arith, n1, n2, n3))
