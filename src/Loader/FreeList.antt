-- ===== src/Loader/FreeList.antt =====
-- The list of free pages after the loader has filled it.
use ann.Base.{
  ℕ, zero, suc, ◌+◌, ◌*◌, Bool, false, ◌≡◌, ltb, ◌&&◌, not, if◌then◌else◌, arith, Bool-cases, inl,
  inr, has, Distinct,
}
use native.Mathlib.Decide.{ℕ_discrete}
use ann.LinkedList.{ListOps}
use ann.Memory.Layout.{page_size}
use ann.Memory.Machine.{Machine}
use ann.Loader.{BiosMmapEntry, fill_free, init_pages, page_is_available}

-- The pages below `n` are sorted out: those available are on the free list, once each, with counter
-- 0, and the others are in use by one.
pub record Sorted (n : ℕ) (available : ℕ → Bool) (m : Machine) : Type 0 where
  pub distinct : Distinct m.free
  pub listed : (p : ℕ) → has p m.free ≡ (ltb p n && available (p * page_size))
  pub counted : (p : ℕ) → m.ref p ≡ (if ltb p n && not (available (p * page_size)) then 1 else 0)

module _ ⦃q : ListOps⦄ where
  fill_free-Sorted :
      (n i k : ℕ) (available : ℕ → Bool) (m : Machine)
      → i + n ≡ k
      → Sorted i available m
      → Sorted k available (fill_free n i available m)
  unfolding fill_free
  fill_free-Sorted zero i k available m e s = record {
    distinct = s.distinct;
    listed = λ p. ground (arith, s.listed p);
    counted = λ p. ground (arith, s.counted p);
  }
  fill_free-Sorted (suc n) i k available m e s = elim (Bool-cases (available (i * page_size))) [
    | inl free ↦
        let off : has i m.free ≡ false = ground (arith, s.listed i) in
        rw (free, q.insert_head_lem i m.free off)
          (fill_free-Sorted n (i + 1) k available _ (omega arith) (record {
            distinct = (off, s.distinct);
            listed = λ p. elim (ℕ_discrete p i) [
              | yes e ↦ rw e (ground (arith, s.listed i))
              | no ne ↦ ground (arith, s.listed p)
            ];
            counted = λ p. elim (ℕ_discrete p i) [
              | yes e ↦ rw e (ground (arith, s.counted i))
              | no ne ↦ ground (arith, s.counted p)
            ];
          }))
    | inr used ↦ rw used (
        fill_free-Sorted n (i + 1) k available _ (omega arith) (record {
          distinct = s.distinct;
          listed = λ p. elim (ℕ_discrete p i) [
            | yes e ↦ rw e (ground (arith, s.listed i))
            | no ne ↦ ground (arith, s.listed p)
          ];
          counted = λ p. elim (ℕ_discrete p i) [
            | yes e ↦ rw e (ground (arith, s.counted i))
            | no ne ↦ ground (arith, s.counted p)
          ];
        }))
  ]

-- After the loader has filled the list of free pages, a page below `pages_cnt` is on it, once and
-- with counter 0, if page_is_available holds for its address, and has counter 1 if not. No other page
-- is on it.
pub init_pages-Sorted :
    ⦃q : ListOps⦄ (mm : ℕ → BiosMmapEntry) (cnt end free_memory pages_cnt : ℕ) (mem : ℕ → ℕ)
    → Sorted pages_cnt
        (λ addr. page_is_available addr mm cnt end free_memory)
        (init_pages mm cnt end free_memory pages_cnt mem)
unfolding init_pages
init_pages-Sorted mm cnt end free_memory pages_cnt mem =
    fill_free-Sorted pages_cnt 0 pages_cnt _ _ (omega arith)
      (record { distinct = tt; listed = λ p. ground arith; counted = λ p. ground arith })
