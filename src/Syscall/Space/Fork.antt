-- ===== src/Syscall/Space/Fork.antt =====
-- What the loops of sys_fork do to the address spaces, page by page.
use ann.Base.{
  ℕ, zero, suc, ◌≤◌, length, ◌+◌, ◌*◌, ◌<◌, Option, none, Bool, true, false, ◌≡◌, ◌≢◌, refl, arith,
  ◌⊎◌, inl, inr, [], has, ◌∙◌, ltb, if◌then◌else◌,
}
use native.Mathlib.Decide.{ℕ_discrete}
use ann.LinkedList.{ListOps}
use ann.Memory.Machine.{Machine}
use ann.Memory.Yields.{Yields, Yields-weaken}
use ann.Memory.Map.Walk.{Typed}
use ann.Memory.Map.Tree.{AreRoots, IsTree}
use ann.Memory.Map.UserPage.{user_pages}
use ann.Syscall.{share_space}
use ann.Memory.Map.Spaces.{page_entry, Spaces, set_page}
use ann.Syscall.Space.Page.{
  child_entry, parent_entry, map_entry, uses, mapped_pages, mapped_pages-suc, Spent, Sharable,
  sharing, sharing_refs, Stopped, Reached,
}
use ann.Syscall.Space.Loops.{share_space-Next}

-- The child has all that the parent had.
pub record Copied (roots : ℕ → Bool) (dest src : ℕ) (m m' : Machine) : Type 0 where
  pub child :
      (r : ℕ)
      → r < user_pages
      → page_entry m'.mem dest r ≡ map_entry child_entry (page_entry m.mem src r)
  pub parent :
      (r : ℕ)
      → r < user_pages
      → page_entry m'.mem src r ≡ map_entry parent_entry (page_entry m.mem src r)
  pub counts :
      (o : ℕ) → has o m.free ≡ false → m'.ref o ≡ m.ref o + uses (page_entry m.mem src) user_pages o
  pub spent : length m.free ≤ length m'.free + 6 * mapped_pages (page_entry m.mem src) user_pages

-- The memory was used up at one page: those below it are shared, those above are as before, and of it
-- only the parent's entry may have changed.
pub record CopiedPart (roots : ℕ → Bool) (dest src : ℕ) (m m' : Machine) : Type 0 where
  pub at : ℕ
  pub in_range : at < user_pages
  pub child :
      (r : ℕ)
      → r < user_pages
      → page_entry m'.mem dest r
        ≡ (if ltb r at then map_entry child_entry (page_entry m.mem src r) else none)
  pub parent :
      (r : ℕ)
      → r < user_pages
      → r ≢ at
      → page_entry m'.mem src r ≡ (
          if ltb r at
          then map_entry parent_entry (page_entry m.mem src r)
          else page_entry m.mem src r)
  pub parent_at :
      (page_entry m'.mem src at ≡ page_entry m.mem src at)
      ⊎ (page_entry m'.mem src at ≡ map_entry parent_entry (page_entry m.mem src at))
  pub counts :
      (o : ℕ) → has o m.free ≡ false → m'.ref o ≡ m.ref o + uses (page_entry m.mem src) at o
  pub full : m'.free ≡ []
  pub need : length m.free ≤ 6 * mapped_pages (page_entry m.mem src) user_pages

abbrev pub ByResult : (ℕ → Bool) → ℕ → ℕ → Machine → Bool → Machine → Type 0
ByResult roots dest src m true m' = Copied roots dest src m m'
ByResult roots dest src m false m' = CopiedPart roots dest src m m'

-- Well-typed tables, with the user parts still apart, and no other space changed; and by the result,
-- all pages or some.
abbrev pub Forks : (ℕ → Bool) → ℕ → ℕ → Machine → Bool → Machine → Type 0
Forks roots dest src m b m' =
    ((lv' : ℕ → ℕ) × Typed lv' m' × AreRoots roots lv')
    × IsTree roots m'.mem
    × ((x r : ℕ)
        → roots x ≡ true
        → r < user_pages
        → x ≢ src
        → x ≢ dest
        → page_entry m'.mem x r ≡ page_entry m.mem x r)
    × ByResult roots dest src m b m'

module _ ⦃ops : ListOps⦄ (roots : ℕ → Bool) (lv : ℕ → ℕ) (m : Machine) (dest src : ℕ)
    (typed : Typed lv m) (are_roots : AreRoots roots lv) (tree : IsTree roots m.mem)
    (rs : roots src ≡ true) (rd : roots dest ≡ true) (ne : dest ≢ src)
    (empty : (r : ℕ) → r < user_pages → page_entry m.mem dest r ≡ none)
    (ok : Sharable lv m src) where
  at_start :
      Spaces roots lv m (sharing m dest src 0) (sharing_refs m dest src 0) lv m
      × Spent m dest src 0 m
  unfolding uses mapped_pages
  at_start = (
    record {
      typed = typed;
      are_roots = are_roots;
      tree = tree;
      pages = λ x r h hr. ground arith;
      counts = λ o h. omega arith;
      taken = λ o h. h;
      data_frames = λ o h z. z;
    },
    omega arith,
  )

  mapped_pages-le :
      (maps : ℕ → Option ℕ) (n u : ℕ) → n < u → mapped_pages maps (suc n) ≤ mapped_pages maps u
  mapped_pages-le maps n zero h = absurd (omega arith)
  mapped_pages-le maps n (suc u) h = elim (ℕ_discrete n u) [
    | yes e ↦ rw e (omega arith)
    | no ne ↦ omega (arith, mapped_pages-le maps n u (omega arith), mapped_pages-suc maps u)
  ]

  tried :
      (n x r : ℕ)
      → (x ≢ src) ⊎ (r ≢ n)
      → set_page (sharing m dest src n) src n (map_entry parent_entry (page_entry m.mem src n)) x r
        ≡ sharing m dest src n x r
  tried n x r (inl h) = ground arith
  tried n x r (inr h) = ground arith

  -- Where the memory is used up, all but the page that was tried is known.
  partly :
      (n : ℕ) (maps : ℕ → ℕ → Option ℕ) (lv' : ℕ → ℕ) (m' : Machine)
      → n < user_pages
      → ((x r : ℕ) → (x ≢ src) ⊎ (r ≢ n) → maps x r ≡ sharing m dest src n x r)
      → (maps src n ≡ page_entry m.mem src n)
        ⊎ (maps src n ≡ map_entry parent_entry (page_entry m.mem src n))
      → Spaces roots lv m maps (sharing_refs m dest src n) lv' m'
      → m'.free ≡ []
      → length m.free ≤ 6 * mapped_pages (page_entry m.mem src) (suc n)
      → Forks roots dest src m false m'
  partly n maps lv' m' hn but here s full need = (
    (lv', s.typed, s.are_roots),
    s.tree,
    λ x r h hr ns nd. s.pages x r h hr ∙ but x r (inl ns) ∙ ground arith,
    record {
      at = n;
      in_range = hn;
      child = λ r hr. s.pages dest r rd hr ∙ but dest r (inl ne) ∙ ground (arith, empty r);
      parent = λ r hr other. s.pages src r rs hr ∙ but src r (inr other) ∙ ground (arith, ne);
      parent_at = elim here [
        | inl e ↦ inl (s.pages src n rs hn ∙ e)
        | inr e ↦ inr (s.pages src n rs hn ∙ e)
      ];
      counts = s.counts;
      full = full;
      need = omega (arith, need, mapped_pages-le (page_entry m.mem src) n user_pages hn);
    },
  )

  stopped-Forks : (m' : Machine) → Stopped roots lv m dest src m' → Forks roots dest src m false m'
  stopped-Forks m' st = elim (st.spaces) [
    | inl s ↦
        partly (st.at) _ (st.lv) m' st.in_range (λ x r h. refl) (inl (ground arith)) s st.full
          st.need
    | inr s ↦
        partly (st.at) _ (st.lv) m' st.in_range (λ x r h. tried (st.at) x r h) (inr (ground arith))
          s st.full st.need
  ]

  result-Forks :
      (b : Bool) (m' : Machine)
      → Reached roots lv m dest src user_pages m b m'
      → Forks roots dest src m b m'
  result-Forks true m' (lv', s, st, spent) = (
    (lv', s.typed, s.are_roots),
    s.tree,
    λ x r h hr ns nd. s.pages x r h hr ∙ ground arith,
    record {
      child = λ r hr. s.pages dest r rd hr ∙ ground arith;
      parent = λ r hr. s.pages src r rs hr ∙ ground (arith, ne);
      counts = s.counts;
      spent = spent;
    },
  )
  result-Forks false m' st = stopped-Forks m' st

  -- Let `src` and `dest` be different PML4s among `roots`, in well-typed tables where no table of the user
  -- part is reached in two ways from `roots`; let `dest` have no user page, and let the user pages of `src`
  -- be data pages in use with fewer than 2 ^ 31 references. Then the loops of sys_fork do not panic,
  -- the tables stay as they should be, and no user page of another PML4 of `roots` changes. With the
  -- result 0 every user page of the parent is mapped for the child too, without the write flag and
  -- marked for both where it was writable or marked, and as it was elsewhere; and each counter has
  -- grown by the number of user pages mapped to it. With the result -1 no page is free, and that is
  -- so for the pages below one page, while the child has none from there on, and the parent's are as
  -- before but for perhaps the flags of that one. For each user page of the parent at most six free pages
  -- are taken, so that the result is 0 when more than that are free.
  pub share_space-Forks : Yields (Forks roots dest src m) (share_space (dest * 4096) (src * 4096) m)
  share_space-Forks =
      Yields-weaken (share_space-Next roots lv m dest src rs rd ne empty ok lv at_start)
        result-Forks
