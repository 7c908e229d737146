-- ===== src/Memory/Pages/Laws.antt =====
-- What page_alloc, page_free and page_decref do to the free list and the counters.
use ann.Base.{
  ℕ, ◌+◌, ◌-◌, ◌*◌, ◌^◌, ◌<◌, none, some, false, ◌≡◌, if◌then◌else◌, arith, Bool-cases, inl, inr,
  List, [], ◌∷◌, has, Distinct, update, ◌==◌, ==_refl, ltb,
}
use ann.LinkedList.{ListOps}
use ann.Memory.Machine.{Machine, ok, panic}
use ann.Memory.Pages.{page2pa, pa2page, page_alloc, page_free, page_decref}

pub page2pa_lem : (p : ℕ) → p < 2 ^ 52 → page2pa p ≡ p * 4096
unfolding page2pa
page2pa_lem p h = omega arith

-- A page's address leads back to the page.
pub pa2page-page2pa : (p off : ℕ) → p < 2 ^ 52 → off < 4096 → pa2page (page2pa p + off) ≡ p
unfolding page2pa pa2page
pa2page-page2pa p off h k = omega arith

-- The page's counter falls by one; a page whose counter reaches 0 goes to the free list.
abbrev pub dropped : Machine → ℕ → Machine
dropped m o = record m {
  ref = update m.ref o (m.ref o - 1);
  free = if m.ref o == 1 then o ∷ m.free else m.free;
}

module _ ⦃q : ListOps⦄ (m : Machine) where
  pub page_alloc-nil : m.free ≡ [] → page_alloc m ≡ ok none m
  unfolding page_alloc
  page_alloc-nil e = ground (arith, q.first_lem m.free)

  pub page_alloc-cons :
      (p : ℕ) (rest : List ℕ)
      → m.free ≡ p ∷ rest
      → Distinct m.free
      → page_alloc m ≡ ok (some p) (record m { free = rest; ref = update m.ref p 0 })
  unfolding page_alloc
  page_alloc-cons p rest e d =
      ground (arith, q.first_lem m.free, q.remove_lem p m.free d, ==_refl p)

  pub page_free_lem :
      (p : ℕ)
      → has p m.free ≡ false
      → page_free p m ≡ (if m.ref p == 0 then ok tt (record m { free = p ∷ m.free }) else panic)
  unfolding page_free
  page_free_lem p out = ground (arith, q.insert_head_lem p m.free out)

  -- page_decref of a page that is not on the free list, with a positive counter, lowers its counter, and frees the page with the last
  -- reference; with the counter at 0 its assertion fails.
  pub page_decref_lem :
      (p : ℕ)
      → has p m.free ≡ false
      → page_decref p m ≡ (if ltb 0 (m.ref p) then ok tt (dropped m p) else panic)
  unfolding page_decref page_free
  page_decref_lem p out = elim (Bool-cases (m.ref p == 1)) [
    | inl last ↦
        let e : m.ref p ≡ 1 = ground arith in rw (e, ==_refl p, q.insert_head_lem p m.free out)
    | inr more ↦ elim (Bool-cases (ltb 0 (m.ref p))) [
      | inr none_held ↦ rw none_held
      | inl held ↦ let left : (m.ref p - 1 == 0) ≡ false = ground arith in rw (held, left, more)
    ]
  ]
