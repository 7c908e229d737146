-- ===== src/Memory/Map/UserPage.antt =====
-- User pages by number, and where the walk for such a page passes.
use ann.Base.{
  ℕ, zero, suc, ◌+◌, ◌*◌, ◌/◌, ◌%◌, ◌^◌, ◌<◌, ◌≤◌, some, Bool, true, ◌≡◌, refl, arith, ap, sym,
  subst, ◌∙◌, inl, inr, Bool-cases,
}
use ann.Memory.Layout.{present}
use ann.Memory.Layout.Laws.{frame_of}
use ann.Memory.Map.Walk.{index, index-lt, entry_at, slot_of}
use ann.Memory.Map.Write.{entry_at-injective}
use ann.Memory.Map.Tree.{IsUser, TablePath, IsTree}

-- The pages that three entries of a PML4 map
abbrev pub user_pages : ℕ
user_pages = 3 * 2 ^ 27

-- The number of page `r` among the ranges that one entry of a table of level `n` maps
unfoldable pub ancestor : ℕ → ℕ → ℕ
ancestor zero r = r
ancestor (suc n) r = ancestor n r / 512

module _ (r : ℕ) where
  pub index-ancestor : (n : ℕ) → n ≤ 3 → index n (r * 4096) ≡ ancestor n r % 512
  unfolding ancestor
  index-ancestor zero h = omega arith
  index-ancestor (suc zero) h = omega arith
  index-ancestor (suc (suc zero)) h = omega arith
  index-ancestor (suc (suc (suc zero))) h = omega arith
  index-ancestor (suc (suc (suc (suc n)))) h = absurd (omega arith)

  pub ancestor-at : (d c : ℕ) → d ≤ 3 → c * 512 ^ d ≤ r → r < (c + 1) * 512 ^ d → ancestor d r ≡ c
  unfolding ancestor
  ancestor-at zero c le a b = omega arith
  ancestor-at (suc zero) c le a b = omega arith
  ancestor-at (suc (suc zero)) c le a b = omega arith
  ancestor-at (suc (suc (suc zero))) c le a b = omega arith
  ancestor-at (suc (suc (suc (suc d)))) c le a b = absurd (omega arith)

  pub ancestor-suc : (d : ℕ) → ancestor (suc d) r ≡ ancestor d r / 512
  unfolding ancestor
  ancestor-suc d = refl

  pub ancestor-top : r < user_pages → ancestor 4 r ≡ 0
  unfolding ancestor
  ancestor-top h = omega arith

  IsUser-ancestor : (k n : ℕ) → k + n ≡ 3 → r < user_pages → IsUser k (ancestor n r % 512)
  unfolding ancestor
  IsUser-ancestor zero n e h =
      let three : 3 ≡ n = omega (arith, e) in
      subst (λ d. ancestor d r % 512 < 3) three (omega arith)
  IsUser-ancestor (suc k) n e h = tt

module _ (mem : ℕ → ℕ) (x r : ℕ) where
  -- The walk for a page passes through the tables on its path.
  pub TablePath-slot_of :
      (k n g : ℕ)
      → k + n ≡ 3
      → TablePath mem x k (ancestor (suc n) r) g
      → slot_of 3 mem x (r * 4096) ≡ slot_of n mem g (r * 4096)
  unfolding slot_of ancestor
  TablePath-slot_of zero n g e (_, eg) =
      let three : 3 ≡ n = omega (arith, e) in
      subst (λ d. slot_of 3 mem x (r * 4096) ≡ slot_of d mem g (r * 4096)) three
        (ap (λ y. slot_of 3 mem y (r * 4096)) (sym eg))
  TablePath-slot_of (suc k) n g e (q0, g0, i, h, hi, u, on, eq, eg) =
      let up : ancestor (suc (suc n)) r ≡ q0 = omega (arith, eq, hi) in
      let digit : ancestor (suc n) r % 512 ≡ i = omega (arith, eq, hi) in
      let at : index (suc n) (r * 4096) ≡ i = index-ancestor r (suc n) (omega arith) ∙ digit in
      TablePath-slot_of k (suc n) g0 (omega arith) (subst (λ q. TablePath mem x k q g0) (sym up) h)
      ∙ rw (at, on, eg) refl

  -- Where the last entry for a page stands.
  slot_of-down :
      (k n g s : ℕ)
      → k + n ≡ 3
      → r < user_pages
      → TablePath mem x k (ancestor (suc n) r) g
      → slot_of n mem g (r * 4096) ≡ some s
      → (pt : ℕ) × TablePath mem x 3 (ancestor 1 r) pt × (s ≡ entry_at pt (ancestor 0 r % 512))
  unfolding slot_of ancestor
  slot_of-down k zero g s e h w k1 =
      let last : entry_at g (index 0 (r * 4096)) ≡ s = cc in
      let three : k ≡ 3 = omega (arith, e) in
      (
        g,
        subst (λ d. TablePath mem x d (ancestor 1 r) g) three w,
        sym last ∙ ap (entry_at g) (index-ancestor r 0 (omega arith)),
      )
  slot_of-down k (suc n) g s e h w k1 =
      let i = index (suc n) (r * 4096) in
      let at : i ≡ ancestor (suc n) r % 512 = index-ancestor r (suc n) (omega arith) in
      elim (Bool-cases (present (mem (entry_at g i)))) [
        | inr off ↦ cc (rw off at k1)
        | inl on ↦
            slot_of-down (suc k) n (frame_of (mem (entry_at g i))) s (omega arith) h
              (
                ancestor (suc (suc n)) r,
                g,
                i,
                w,
                index-lt (suc n) (r * 4096),
                rw at (IsUser-ancestor r k (suc n) e h),
                on,
                omega (arith, at),
                refl,
              )
              (rw on at k1)
      ]

  pub slot_of-TablePath :
      (s : ℕ)
      → r < user_pages
      → slot_of 3 mem x (r * 4096) ≡ some s
      → (pt : ℕ) × TablePath mem x 3 (ancestor 1 r) pt × (s ≡ entry_at pt (ancestor 0 r % 512))
  slot_of-TablePath s h e = slot_of-down 0 3 x s refl h (ancestor-top r h, refl) e

-- Two user pages with the same last entry are the same page of the same address space.
pub slot_of-apart :
    (roots : ℕ → Bool) (mem : ℕ → ℕ)
    → IsTree roots mem
    → (x x' r r' s : ℕ) → roots x ≡ true
    → roots x' ≡ true
    → r < user_pages
    → r' < user_pages
    → slot_of 3 mem x (r * 4096) ≡ some s
    → slot_of 3 mem x' (r' * 4096) ≡ some s
    → (x ≡ x') × (r ≡ r')
unfolding ancestor
slot_of-apart roots mem tree x x' r r' s rx rx' h h' e e' =
    let (pt, w, at) = slot_of-TablePath mem x r s h e in
    let (pt', w', at') = slot_of-TablePath mem x' r' s h' e' in
    let (same, digit) =
      entry_at-injective pt pt' (ancestor 0 r % 512) (ancestor 0 r' % 512) (omega arith)
        (omega arith) (sym at ∙ at') in
    let (ex, eq) =
      tree x x' 3 (ancestor 1 r) (ancestor 1 r') pt rx rx' (omega arith) w
        (subst (λ g. TablePath mem x' 3 (ancestor 1 r') g) (sym same) w') in
    (ex, omega (arith, digit, eq))
