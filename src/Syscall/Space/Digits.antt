-- ===== src/Syscall/Space/Digits.antt =====
-- The digits of user pages: which pages are below an entry, and how their entries are read.
use ann.Base.{
  ℕ, zero, suc, ◌+◌, ◌*◌, ◌%◌, ◌^◌, ◌<◌, ◌≤◌, none, some, true, false, ◌≡◌, refl, arith, ap, ◌∙◌,
  subst,
}
use native.Mathlib.Numerals.{unary_clauses}
use ann.Memory.Layout.{present}
use ann.Memory.Map.Walk.{index, entry_at, slot_of, translate, read_entry}
use ann.Memory.Map.Tree.{TablePath, IsUser}
use ann.Memory.Map.UserPage.{user_pages, ancestor, ancestor-suc, index-ancestor, TablePath-slot_of}
use ann.Memory.Map.Spaces.{page_entry}

module _ (mem : ℕ → ℕ) (x : ℕ) where
  digits_1 : (q g : ℕ) → TablePath mem x 1 q g → q < 3
  digits_1 q g (q0, g0, i, (z, _), hi, u, _, eq, _) = omega arith

  digits_2 : (q g : ℕ) → TablePath mem x 2 q g → q < 3 * 512
  digits_2 q g (q0, g0, i, h, hi, u, _, eq, _) = omega (arith, digits_1 q0 g0 h)

  digits_3 : (q g : ℕ) → TablePath mem x 3 q g → q < 3 * 512 ^ 2
  digits_3 q g (q0, g0, i, h, hi, u, _, eq, _) = omega (arith, digits_2 q0 g0 h)

  -- The entries below 512, or below 3 in a PML4, map user pages.
  pub TablePath-range :
      (k d q g i : ℕ)
      → k + d ≡ 3
      → TablePath mem x k q g
      → i < 512
      → IsUser k i
      → (q * 512 + i) * 512 ^ d + 512 ^ d ≤ user_pages
  TablePath-range zero d q g i e (z, _) hi u =
      let three : d ≡ 3 = omega (arith, e) in rw three (omega arith)
  TablePath-range (suc zero) d q g i e h hi u =
      let two : d ≡ 2 = omega (arith, e) in rw two (omega (arith, digits_1 q g h))
  TablePath-range (suc (suc zero)) d q g i e h hi u =
      let one : d ≡ 1 = omega (arith, e) in rw one (omega (arith, digits_2 q g h))
  TablePath-range (suc (suc (suc zero))) d q g i e h hi u =
      let none_left : d ≡ 0 = omega (arith, e) in rw none_left (omega (arith, digits_3 q g h))
  TablePath-range (suc (suc (suc (suc k)))) d q g i e h hi u = absurd (omega arith)

pub nonlinear : (q i w : ℕ) → (q * 512 + i) * w + w ≡ (q * 512 + (i + 1)) * w
nonlinear q i w = grind arith

pub nonlinear1 : (q i w : ℕ) → (q * 512 + i + 1) * w ≡ (q * 512 + i) * w + w
nonlinear1 q i w = grind arith

pow_below : (d : ℕ) → 512 ^ suc d ≡ 512 * 512 ^ d
pow_below d = simp unary_clauses (omega arith)

pub first_below : (c d : ℕ) → c * 512 ^ suc d ≡ (c * 512 + 0) * 512 ^ d
first_below c d = rw (pow_below d) (grind arith)

pub last_below : (c d : ℕ) → (c * 512 + (0 + 512)) * 512 ^ d ≡ (c + 1) * 512 ^ suc d
last_below c d = rw (pow_below d) (grind arith)

read-absent :
    (mem : ℕ → ℕ) (d g va : ℕ)
    → present (mem (entry_at g (index d va))) ≡ false
    → read_entry mem (slot_of d mem g va) ≡ none
unfolding slot_of
read-absent mem zero g va off = rw off refl
read-absent mem (suc d) g va off = rw off refl

-- A page below an absent entry is not mapped.
pub below-absent :
    (mem : ℕ → ℕ) (x r k d q g i : ℕ)
    → k + d ≡ 3
    → TablePath mem x k q g
    → ancestor d r ≡ q * 512 + i
    → i < 512
    → present (mem (entry_at g i)) ≡ false
    → page_entry mem x r ≡ none
unfolding translate
below-absent mem x r k d q g i e w at hi off =
    let digit : ancestor d r % 512 ≡ i = omega (arith, at, hi) in
    let idx : index d (r * 4096) ≡ i = index-ancestor r d (omega arith) ∙ digit in
    let up : q ≡ ancestor (suc d) r = omega (arith, ancestor-suc r d, at, hi) in
    ap (read_entry mem)
      (TablePath-slot_of mem x r k d g e (subst (λ c. TablePath mem x k c g) up w))
    ∙ read-absent mem d g (r * 4096) (rw idx off)

-- The entry for a page whose page table is `g`
pub page_entry-present :
    (mem : ℕ → ℕ) (x q g l : ℕ)
    → TablePath mem x 3 q g
    → l < 512
    → present (mem (entry_at g l)) ≡ true
    → page_entry mem x (q * 512 + l) ≡ some (mem (entry_at g l))
unfolding translate slot_of ancestor
page_entry-present mem x q g l w hl on =
    let r = q * 512 + l in
    let idx : index 0 (r * 4096) ≡ l = omega arith in
    let up : q ≡ ancestor 1 r = omega arith in
    ap (read_entry mem)
      (TablePath-slot_of mem x r 3 0 g refl (subst (λ c. TablePath mem x 3 c g) up w))
    ∙ rw (idx, on) refl
