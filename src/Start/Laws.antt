-- ===== src/Start/Laws.antt =====
-- The conversion of the pages array in place reads each record before it is overwritten.
use ann.Base.{
  ℕ, zero, suc, ◌+◌, ◌*◌, ◌/◌, ◌%◌, ◌^◌, ◌<◌, ◌≤◌, some, true, false, ◌∷◌, has, Distinct, length,
  ◌≡◌, ◌≢◌, refl, arith, Bool-cases, inl, inr, ◌==◌, ◌/=◌, leb, ltb, ◌&&◌, if◌then◌else◌, ◌∙◌,
  List-cases,
}
use native.Mathlib.Decide.{ℕ_discrete}
use ann.LinkedList.{ListOps}
use ann.Start.{
  is_link, LinkStore, ref32, links32, reset_page, PagesState, convert_pages, kernel_init_mmap,
}

-- What the loader leaves: a page that is not linked has one reference, one that is linked at most one.
abbrev pub Prepared : ℕ → (ℕ → ℕ) → Type 0
Prepared cnt words =
    (i : ℕ)
    → i < cnt
    → (if links32 words i == 0 then ref32 words i == 1 else leb (ref32 words i) 1) ≡ true

-- The records from page `n` on are converted, those below stand as the loader left them.
pub record Converted (cnt : ℕ) (words : ℕ → ℕ) (n : ℕ) (s : PagesState) : Type 0 where
  pub unread : (j : ℕ) → j < 3 * n → s.words j ≡ words j
  pub refs : (i : ℕ) → n ≤ i → i < cnt → s.words (6 * i) ≡ ref32 words i
  pub listed : (p : ℕ) → has p s.free ≡ (leb n p && ltb p cnt && (links32 words p /= 0))
  pub distinct : Distinct s.free
  pub total : s.used_pages + length s.free + n ≡ cnt

module _ ⦃q : ListOps⦄ ⦃ls : LinkStore⦄ (cnt : ℕ) (words : ℕ → ℕ) (small : cnt < 2 ^ 32) where
  reset_page-other : (i rc j : ℕ) (w : ℕ → ℕ) → j / 6 ≢ i → reset_page i rc w j ≡ w j
  unfolding reset_page
  reset_page-other i rc j w ne = ground arith

  reset_page-ref : (i rc : ℕ) (w : ℕ → ℕ) → reset_page i rc w (6 * i) ≡ rc
  unfolding reset_page
  reset_page-ref i rc w = ground arith

  -- The next record is read as the loader left it.
  same_record :
      (i : ℕ) (s : PagesState)
      → Converted cnt words (suc i) s
      → (ref32 s.words i ≡ ref32 words i) × (links32 s.words i ≡ links32 words i)
  same_record i s c = (
    c.unread (3 * i) (omega arith),
    rw (c.unread (3 * i + 1) (omega arith), c.unread (3 * i + 2) (omega arith)) refl,
  )

  not_listed : (i : ℕ) (s : PagesState) → Converted cnt words (suc i) s → has i s.free ≡ false
  not_listed i s c = ground (arith, c.listed i)

  used-Converted :
      (i : ℕ) (s : PagesState)
      → Converted cnt words (suc i) s
      → links32 words i ≡ 0
      → Converted cnt words i (record s {
        words = reset_page i (ref32 words i) s.words;
        used_pages = (s.used_pages + 1) % 2 ^ 32;
      })
  used-Converted i s c z = record {
    unread =
        λ j h. reset_page-other i _ j s.words (λ e. omega (arith, e, h)) ∙ c.unread j (omega arith);
    refs = λ k lo hi. elim (ℕ_discrete k i) [
      | yes e ↦ rw e (reset_page-ref i _ s.words)
      | no ne ↦
          reset_page-other i _ (6 * k) s.words (λ e. omega (arith, e, ne))
          ∙ c.refs k (omega (arith, ne, lo)) hi
    ];
    listed = λ p. elim (ℕ_discrete p i) [
      | yes e ↦ rw e (ground (arith, c.listed i, z))
      | no ne ↦ ground (arith, c.listed p)
    ];
    distinct = c.distinct;
    total = omega (arith, c.total);
  }

  linked-Converted :
      (i : ℕ) (s : PagesState)
      → i < cnt
      → Converted cnt words (suc i) s
      → links32 words i ≢ 0
      → Converted cnt words i (record s {
        words = ls.set_links i s.free (reset_page i (ref32 words i) s.words);
        free = i ∷ s.free;
      })
  linked-Converted i s hi c nz = record {
    unread = λ j h.
        ls.set_links_lem i s.free _ j (before j h)
        ∙ reset_page-other i _ j s.words (λ e. omega (arith, e, h))
        ∙ c.unread j (omega arith);
    refs = λ k lo hk. ls.set_links_lem i s.free _ (6 * k) (ground arith) ∙ elim (ℕ_discrete k i) [
      | yes e ↦ rw e (reset_page-ref i _ s.words)
      | no ne ↦
          reset_page-other i _ (6 * k) s.words (λ e. omega (arith, e, ne))
          ∙ c.refs k (omega (arith, ne, lo)) hk
    ];
    listed = λ p. elim (ℕ_discrete p i) [
      | yes e ↦ rw e (ground (arith, nz, hi))
      | no ne ↦ ground (arith, c.listed p)
    ];
    distinct = (not_listed i s c, c.distinct);
    total = omega (arith, c.total);
  }
    where
      before : (j : ℕ) → j < 3 * i → is_link i s.free j ≡ false
      before j h = elim (List-cases s.free) [
        | inl e ↦ rw e (ground arith)
        | inr (x, l, e) ↦
            let there : has x s.free ≡ true = rw e (ground arith) in
            rw e (ground (arith, c.listed x, there))
      ]

  convert_pages-Converted :
      (n : ℕ) (s : PagesState)
      → n ≤ cnt
      → Prepared cnt words
      → Converted cnt words n s
      → (s' : PagesState) × (convert_pages n s ≡ some s') × Converted cnt words 0 s'
  unfolding convert_pages
  convert_pages-Converted zero s le prep c = (s, refl, c)
  convert_pages-Converted (suc i) s le prep c =
      let (same_ref, same_links) = same_record i s c in
      let hi : i < cnt = omega arith in
      let prepared = prep i hi in
      elim (Bool-cases (links32 words i == 0)) [
        | inl used ↦
            let (s', e, d) =
              convert_pages-Converted i _ (omega arith) prep
                (used-Converted i s c (ground (arith, used))) in
            (s', rw (same_ref, same_links, used, rw used at prepared) e, d)
        | inr linked ↦
            let (s', e, d) =
              convert_pages-Converted i _ (omega arith) prep
                (linked-Converted i s hi c (ground (arith, linked))) in
            (
              s',
              rw
                  (
                    same_ref,
                    same_links,
                    linked,
                    rw linked at prepared,
                    q.insert_head_lem i s.free (not_listed i s c),
                  )
                  e,
              d,
            )
      ]

  -- Let the array hold fewer than 2 ^ 32 records of 12 bytes, and let every page that is not linked have
  -- one reference and every other at most one. Then no assertion of kernel_init_mmap fails, and each
  -- record of 24 bytes has the counter that the loader left for its page, although the new records
  -- overlie those of other pages. The free list holds exactly the pages that were linked, each once, and
  -- `used_pages` counts the others.
  pub kernel_init_mmap-Converted :
      Prepared cnt words
      → (s : PagesState) × (kernel_init_mmap cnt words ≡ some s) × Converted cnt words 0 s
  unfolding kernel_init_mmap
  kernel_init_mmap-Converted prep = convert_pages-Converted cnt _ (omega arith) prep (record {
    unread = λ j h. refl;
    refs = λ i lo hi. absurd (omega arith);
    listed = λ p. ground arith;
    distinct = tt;
    total = omega arith;
  })
