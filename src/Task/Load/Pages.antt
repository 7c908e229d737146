-- ===== src/Task/Load/Pages.antt =====
-- The loop of task_load_segment: a range of user pages that were not mapped gets new pages.
use ann.Base.{
  ℕ, length, zero, suc, ◌+◌, ◌*◌, ◌<◌, ◌≤◌, Option, none, some, Bool, true, false, ◌≡◌, ◌≢◌, refl,
  arith, if◌then◌else◌, ◌==◌, ◌||◌, has, Distinct, List, [], ◌∷◌, ◌∙◌, subst, update, inl, inr, ◌⊎◌,
}
use ann.LinkedList.{ListOps}
use ann.Memory.Layout.{u64}
use ann.Memory.Machine.{Machine, pure}
use ann.Memory.Yields.{Yields, yields, after, Yields-weaken}
use ann.Memory.Pages.Laws.{page_alloc-cons, page_alloc-nil}
use ann.Memory.Map.UserPage.{user_pages}
use ann.Memory.Map.Insert.{mapping}
use ann.Memory.Map.Spaces.{set_page, Spaces, Spaces-equal, InsertedAt, page_insert-InsertedAt}
use ann.Task.Load.{user_page, map_new, map_segment}
use ann.Task.Load.NewPages.{Now, allocated, NewPage, NewPages, segment, first_frame, one_more}

module _ (roots : ℕ → Bool) where
  rebase :
      {lv0 : ℕ → ℕ} {m0 : Machine} {maps : ℕ → ℕ → Option ℕ} {refs lv : ℕ → ℕ} {m : Machine}
      → Spaces roots lv0 m0 maps refs lv m
      → Now roots maps lv m
  rebase s = record {
    typed = s.typed;
    are_roots = s.are_roots;
    tree = s.tree;
    pages = s.pages;
    counts = λ o h. refl;
    taken = λ o h. h;
    data_frames = λ o h z. z;
  }

  module _ (lv : ℕ → ℕ) (m : Machine) (maps : ℕ → ℕ → Option ℕ) (s : Now roots maps lv m) (p : ℕ)
      (rest : List ℕ) (ep : m.free ≡ p ∷ rest) where
    listed : has p m.free ≡ true
    listed = rw ep (ground arith)

    free_cons : (o : ℕ) → has o m.free ≡ (o == p || has o rest)
    free_cons o = rw ep refl

    apart : (has p rest ≡ false) × Distinct rest
    apart = rw ep at s.typed.distinct

    still : (o : ℕ) → has o m.free ≡ false → (o ≢ p) × (has o rest ≡ false)
    still o h = (λ e. ground (arith, free_cons o), ground (arith, free_cons o))

    allocated-Now : Now roots maps lv (allocated m p rest)
    allocated-Now = record {
      typed = record {
        distinct = apart.1;
        bounded = λ r h. s.typed.bounded r (ground (arith, free_cons r));
        spare = λ r h. s.typed.spare r (ground (arith, free_cons r));
        linked = s.typed.linked;
        blank = s.typed.blank;
      };
      are_roots = s.are_roots;
      tree = s.tree;
      pages = s.pages;
      counts = λ o h. refl;
      taken = λ o h. h;
      data_frames = λ o h z. z;
    }

  -- After map_new of page `r` of `f`.
  abbrev pub Mapped : (ℕ → ℕ → Option ℕ) → (ℕ → ℕ) → Machine → ℕ → ℕ → Bool → Machine → Type 0
  Mapped maps lv m f r true m' =
      (p : ℕ) × (lv' : ℕ → ℕ) × Now roots (set_page maps f r (some (mapping p user_page))) lv' m'
      × NewPage lv m p lv' m'
  Mapped maps lv m f r false m' =
      (lv' : ℕ → ℕ) × Now roots maps lv' m' × (m'.free ≡ []) × (length m.free ≤ 4)

  module _ ⦃q : ListOps⦄ (f : ℕ) (rf : roots f ≡ true) where
    pub map_new-Mapped :
        (lv : ℕ → ℕ) (m : Machine) (maps : ℕ → ℕ → Option ℕ) (r : ℕ)
        → Now roots maps lv m
        → has 0 m.free ≡ false
        → r < user_pages
        → maps f r ≡ none
        → Yields (Mapped maps lv m f r) (map_new (f * 4096) (r * 4096) m)
    unfolding map_new
    map_new-Mapped lv m maps r s h0 hr empty = go (m.free) refl
      where
        positive : (p : ℕ) → has p m.free ≡ true → 0 < p
        positive zero h = cc (h, h0)
        positive (suc p) h = omega arith

        inserted :
            (p : ℕ) (rest : List ℕ)
            → m.free ≡ p ∷ rest
            → (b : Bool) (m' : Machine)
            → InsertedAt roots lv
                (allocated m p rest)
                maps
                (update m.ref p 0)
                (allocated m p rest)
                f
                p
                r
                user_page
                b
                m'
            → Mapped maps lv m f r b m'
        inserted p rest ep true m' (lv', s', st, _) = (
          p,
          lv',
          rebase s',
          record {
            data_page =
                s'.data_frames p ((apart lv m maps s p rest ep).0)
                  (s.typed.spare p (listed lv m maps s p rest ep));
            data_frames = λ o h z. s'.data_frames o ((still lv m maps s p rest ep o h).1) z;
            was_free = listed lv m maps s p rest ep;
            taken = s'.taken p ((apart lv m maps s p rest ep).0);
            count = s'.counts p ((apart lv m maps s p rest ep).0) ∙ rw empty (ground arith);
            others = λ o h.
                let used = still lv m maps s p rest ep o h in
                (s'.counts o used.1 ∙ rw empty (ground (arith, used)), s'.taken o used.1);
          },
        )
        inserted p rest ep false m' (lv', s', full, few) =
            (lv', rebase s', full, rw ep (omega (arith, few)))

        go :
            (l : List ℕ)
            → m.free ≡ l
            → Yields (Mapped maps lv m f r) (map_new (f * 4096) (r * 4096) m)
        go [] e = rw (map_new, page_alloc-nil m e) (yields (lv, s, e, rw e (omega arith)))
        go (p ∷ rest) e =
            rw (map_new, page_alloc-cons m p rest e s.typed.distinct)
              (Yields-weaken
                (page_insert-InsertedAt roots lv (allocated m p rest) maps (update m.ref p 0) lv
                  (allocated m p rest) (allocated-Now lv m maps s p rest e) f p r user_page rf hr
                  (s.typed.bounded p (listed lv m maps s p rest e))
                  (positive p (listed lv m maps s p rest e)) (omega arith)
                  ((apart lv m maps s p rest e).0) (s.typed.spare p (listed lv m maps s p rest e))
                  (λ a k. cc (empty, k)) (λ a k. cc (empty, k)))
                (inserted p rest e))

    -- After the loop over `n` pages from page `a` on.
    abbrev pub Loaded : (ℕ → ℕ → Option ℕ) → (ℕ → ℕ) → Machine → ℕ → ℕ → Bool → Machine → Type 0
    Loaded maps lv m a n true m' =
        (frame : ℕ → ℕ) × (lv' : ℕ → ℕ) × Now roots (segment maps frame f a n) lv' m'
        × NewPages lv m frame a n lv' m'
    Loaded maps lv m a n false m' =
        (lv' : ℕ → ℕ) × (maps' : ℕ → ℕ → Option ℕ) × Now roots maps' lv' m'
        × ((x r : ℕ) → (x ≢ f) ⊎ ((r < a) ⊎ (a + n ≤ r)) → maps' x r ≡ maps x r)
        × (m'.free ≡ [])

    outside :
        (z r a n : ℕ)
        → (z ≢ f) ⊎ ((r < a) ⊎ (a + suc n ≤ r))
        → ((z ≢ f) ⊎ ((r < a + 1) ⊎ (a + 1 + n ≤ r))) × ((z ≢ f) ⊎ (r ≢ a))
    outside z r a n (inl h) = (inl h, inl h)
    outside z r a n (inr (inl h)) = (inr (inl (omega arith)), inr (omega arith))
    outside z r a n (inr (inr h)) = (inr (inr (omega arith)), inr (omega arith))

    elsewhere :
        (maps : ℕ → ℕ → Option ℕ) (a : ℕ) (v : Option ℕ) (z r : ℕ)
        → (z ≢ f) ⊎ (r ≢ a)
        → set_page maps f a v z r ≡ maps z r
    elsewhere maps a v z r (inl h) = ground arith
    elsewhere maps a v z r (inr h) = ground arith

    after_page :
        (n a : ℕ) {lv lv1 : ℕ → ℕ} (m m1 : Machine) (maps : ℕ → ℕ → Option ℕ) (p : ℕ)
        → NewPage lv m p lv1 m1
        → (b : Bool) (m' : Machine)
        → Loaded (set_page maps f a (some (mapping p user_page))) lv1 m1 (a + 1) n b m'
        → Loaded maps lv m a (suc n) b m'
    after_page n a m m1 maps p x true m' (frame, lv', s, y) = (
      first_frame a p frame,
      lv',
      rebase (Spaces-equal roots lv' m' (λ z r h hr. ground arith) (λ o h. refl) s),
      one_more m m1 m' p a n frame x y,
    )
    after_page n a m m1 maps p x false m' (lv', maps', s, same, full) = (
      lv',
      maps',
      s,
      (λ z r h. same z r ((outside z r a n h).0) ∙ elsewhere maps a _ z r ((outside z r a n h).1)),
      full,
    )

    after_map :
        (n c d : ℕ) (lv : ℕ → ℕ) (m : Machine) (maps : ℕ → ℕ → Option ℕ)
        → ((lv1 : ℕ → ℕ) (m1 : Machine) (maps1 : ℕ → ℕ → Option ℕ)
            → Now roots maps1 lv1 m1
            → has 0 m1.free ≡ false
            → ((r : ℕ) → c + (d + 1) ≤ r → r < c + (d + 1) + n → maps1 f r ≡ none)
            → Yields
                (Loaded maps1 lv1 m1 (c + (d + 1)) n)
                (map_segment n ((d + 1) * 4096) (f * 4096) (c * 4096) m1))
        → has 0 m.free ≡ false
        → ((r : ℕ) → c + d ≤ r → r < c + d + suc n → maps f r ≡ none)
        → (b : Bool) (m1 : Machine) → Mapped maps lv m f (c + d) b m1
        → Yields
            (Loaded maps lv m (c + d) (suc n))
            ((if b then map_segment n (d * 4096 + 4096) (f * 4096) (c * 4096) else pure false) m1)
    after_map n c d lv m maps loop h0 empty true m1 (p, lv1, s1, x) =
        let next : c + (d + 1) ≡ c + d + 1 = omega arith in
        let offset : (d + 1) * 4096 ≡ d * 4096 + 4096 = omega arith in
        let maps1 = set_page maps f (c + d) (some (mapping p user_page)) in
        let rest = loop lv1 m1 maps1 s1 ((x.others 0 h0).1) (λ r a b.
          elsewhere maps (c + d) _ f r (inr (omega arith)) ∙ empty r (omega arith) (omega arith)) in
        let rest_here =
          subst
            (λ o.
              Yields (Loaded maps1 lv1 m1 (c + (d + 1)) n)
                (map_segment n o (f * 4096) (c * 4096) m1))
            offset rest in
        Yields-weaken
          (subst
            (λ a.
              Yields (Loaded maps1 lv1 m1 a n)
                (map_segment n (d * 4096 + 4096) (f * 4096) (c * 4096) m1))
            next rest_here)
          (after_page n (c + d) m m1 maps p x)
    after_map n c d lv m maps loop h0 empty false m1 (lv1, s1, full, _) =
        yields (lv1, maps, s1, (λ z r h. refl), full)

    -- Let `maps` say how the user pages of the PML4s `roots`, with `f` among them, are mapped, in well-typed
    -- tables where no table of the user part is reached in two ways; let page 0 not be free, and let
    -- the `n` pages of `f` from page `c + d` on be user pages that are not mapped. Then the loop of
    -- task_load_segment at offset `d` pages, with `n` pages left, does not panic. With the result 0 each
    -- of these pages is mapped to a page of its own that was free, for the user and writable, with the
    -- counter 1; every other user page of every PML4 is mapped as before; and pages in use keep their
    -- counters and stay in use. With the result -1 no page is free, and all other user pages are mapped as
    -- before. In both cases the tables are as they should be.
    pub map_segment-Loaded :
        (n c d : ℕ) (lv : ℕ → ℕ) (m : Machine) (maps : ℕ → ℕ → Option ℕ)
        → Now roots maps lv m
        → has 0 m.free ≡ false
        → c + d + n ≤ user_pages
        → ((r : ℕ) → c + d ≤ r → r < c + d + n → maps f r ≡ none)
        → Yields (Loaded maps lv m (c + d) n) (map_segment n (d * 4096) (f * 4096) (c * 4096) m)
    unfolding map_segment
    map_segment-Loaded zero c d lv m maps s h0 le empty = yields (
      (λ r. 0),
      lv,
      rebase (Spaces-equal roots lv m (λ z r h hr. ground arith) (λ o h. refl) s),
      record {
        was_free = λ r h k. absurd (omega arith);
        taken = λ r h k. absurd (omega arith);
        counts = λ r h k. absurd (omega arith);
        differ = λ r r' h k l. absurd (omega arith);
        data_pages = λ r h k. absurd (omega arith);
        data_frames = λ o h z. z;
        others = λ o h. (refl, h);
      },
    )
    map_segment-Loaded (suc n) c d lv m maps s h0 le empty =
        let at : u64 (c * 4096 + d * 4096) ≡ (c + d) * 4096 = omega arith in
        let first = empty (c + d) (omega arith) (omega arith) in
        rw at (
          after (map_new-Mapped lv m maps (c + d) s h0 (omega arith) first) (
            after_map n c d lv m maps
              (λ lv1 m1 maps1 s1 h1 e1.
                map_segment-Loaded n c (d + 1) lv1 m1 maps1 s1 h1 (omega arith) e1)
              h0 empty))
