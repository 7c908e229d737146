-- ===== src/Syscall/Space/Page.antt =====
-- task_share_page as one step of sharing an address space: pages below a number are shared, the
-- others are as at the start.
use ann.Base.{
  ℕ, zero, suc, ◌+◌, ◌*◌, ◌%◌, ◌^◌, ◌<◌, ◌≤◌, Option, none, some, Bool, true, false, ◌≡◌, ◌≢◌, refl,
  arith, if◌then◌else◌, ◌==◌, ltb, [], ap, sym, ◌∙◌, subst, inl, inr, ◌⊎◌, Bool-cases, Option-cases,
  length,
}
use ann.LinkedList.{ListOps}
use ann.Memory.Layout.Laws.{frame_of}
use ann.Memory.Machine.{Machine, pure}
use ann.Memory.Yields.{Yields, yields, after, Yields-weaken}
use ann.Memory.Map.{page_insert}
use ann.Memory.Map.Write.{Held}
use ann.Memory.Map.Remove.{page_lookup-translate}
use ann.Memory.Map.Insert.{mapping, counters}
use ann.Memory.Map.UserPage.{user_pages}
use ann.Syscall.{task_share_page}
use ann.Syscall.Share.{is_shared, shared_flags, shared_flags-range}
use ann.Memory.Map.Spaces.{
  page_entry, set_page, Spaces, Spaces-equal, Stays, Stays-trans, InsertedAt,
  page_insert-InsertedAt,
}

-- The flags that the child has a page with.
abbrev pub given_flags : ℕ → ℕ
given_flags perm = if is_shared perm then shared_flags perm else perm

abbrev pub child_entry : ℕ → ℕ
child_entry e = mapping (frame_of e) (given_flags (e % 4096))

-- What the parent's entry `e` becomes.
abbrev pub parent_entry : ℕ → ℕ
parent_entry e = if is_shared (e % 4096) then mapping (frame_of e) (shared_flags (e % 4096)) else e

abbrev pub map_entry : (ℕ → ℕ) → Option ℕ → Option ℕ
map_entry f none = none
map_entry f (some e) = some (f e)

abbrev pub one_if_at : ℕ → Option ℕ → ℕ
one_if_at o none = 0
one_if_at o (some e) = if frame_of e == o then 1 else 0

-- How many of the pages below a number are mapped to frame `o`.
unfoldable pub uses : (ℕ → Option ℕ) → ℕ → ℕ → ℕ
uses maps zero o = 0
uses maps (suc n) o = uses maps n o + one_if_at o (maps n)

pub uses-le : (maps : ℕ → Option ℕ) (n o : ℕ) → uses maps n o ≤ n
unfolding uses
uses-le maps zero o = omega arith
uses-le maps (suc n) o = ground (arith, uses-le maps n o, Option-cases (maps n))

abbrev one_if_mapped : Option ℕ → ℕ
one_if_mapped none = 0
one_if_mapped (some e) = 1

-- How many of the pages below a number are mapped.
unfoldable pub mapped_pages : (ℕ → Option ℕ) → ℕ → ℕ
mapped_pages maps zero = 0
mapped_pages maps (suc n) = mapped_pages maps n + one_if_mapped (maps n)

pub mapped_pages-suc :
    (maps : ℕ → Option ℕ) (n : ℕ) → mapped_pages maps n ≤ mapped_pages maps (suc n)
unfolding mapped_pages
mapped_pages-suc maps n = omega arith

-- The pages of the parent before the call are data pages in use, with counters that have room for one
-- reference from every page.
pub record Sharable (lv0 : ℕ → ℕ) (m0 : Machine) (src : ℕ) : Type 0 where
  pub held :
      (r e : ℕ) → r < user_pages → page_entry m0.mem src r ≡ some e → Held lv0 m0 (frame_of e)
  pub nonzero : (r e : ℕ) → r < user_pages → page_entry m0.mem src r ≡ some e → 0 < frame_of e
  pub room :
      (r e : ℕ) → r < user_pages → page_entry m0.mem src r ≡ some e → m0.ref (frame_of e) < 2 ^ 31

some-injective : {a b : ℕ} → some a ≡ some b → a ≡ b
some-injective k = cc

module _ (m0 : Machine) (dest src : ℕ) where
  abbrev pub start : ℕ → Option ℕ
  start r = page_entry m0.mem src r

  -- The translations when the pages below `n` are shared, and the counters.
  abbrev pub sharing : ℕ → ℕ → ℕ → Option ℕ
  sharing n x r =
      if ltb r n
      then if x == dest
        then map_entry child_entry (start r)
        else if x == src
        then map_entry parent_entry (start r)
        else page_entry m0.mem x r
      else page_entry m0.mem x r

  abbrev pub sharing_refs : ℕ → ℕ → ℕ
  sharing_refs n o = m0.ref o + uses start n o

  -- Each page that was shared has taken at most six free pages, for tables.
  abbrev pub Spent : ℕ → Machine → Type 0
  Spent n m = length m0.free ≤ length m.free + 6 * mapped_pages start n

module _ (roots : ℕ → Bool) (lv0 : ℕ → ℕ) (m0 : Machine) (dest src : ℕ) where
  -- The memory is used up at page `n`: the parent's entry has changed or not, the child has none.
  pub record Stopped (m' : Machine) : Type 0 where
    pub at : ℕ
    pub in_range : at < user_pages
    pub lv : ℕ → ℕ
    pub spaces :
        Spaces roots lv0 m0 (sharing m0 dest src at) (sharing_refs m0 dest src at) lv m'
        ⊎ Spaces roots lv0 m0
            (set_page
              (sharing m0 dest src at)
              src
              at
              (map_entry parent_entry (page_entry m0.mem src at)))
            (sharing_refs m0 dest src at)
            lv
            m'
    pub full : m'.free ≡ []
    pub need : length m0.free ≤ 6 * mapped_pages (start m0 dest src) (suc at)

  abbrev pub Reached : ℕ → Machine → Bool → Machine → Type 0
  Reached n m true m' =
      (lv' : ℕ → ℕ) × Spaces roots lv0 m0 (sharing m0 dest src n) (sharing_refs m0 dest src n) lv'
        m'
      × Stays roots m m'
      × Spent m0 dest src n m'
  Reached n m false m' = Stopped m'

  module _ (rs : roots src ≡ true) (rd : roots dest ≡ true) (ne : dest ≢ src)
      (empty : (r : ℕ) → r < user_pages → page_entry m0.mem dest r ≡ none)
      (ok : Sharable lv0 m0 src) (n : ℕ) (hn : n < user_pages) (lv : ℕ → ℕ) (m : Machine)
      (s : Spaces roots lv0 m0 (sharing m0 dest src n) (sharing_refs m0 dest src n) lv m)
      (spent : Spent m0 dest src n m) where
    pub absent-Spent : page_entry m0.mem src n ≡ none → Spent m0 dest src (suc n) m
    unfolding mapped_pages
    absent-Spent nothing = rw nothing (omega (arith, spent))

    -- A page that the parent has not needs nothing.
    pub absent-Spaces :
        page_entry m0.mem src n ≡ none
        → Spaces roots lv0 m0 (sharing m0 dest src (suc n)) (sharing_refs m0 dest src (suc n)) lv m
    unfolding uses
    absent-Spaces nothing =
        Spaces-equal roots lv0 m0 (λ x r h hr. ground (arith, nothing, empty r))
          (λ o h. ground (arith, nothing)) s

    module _ (e : ℕ) (mapped : page_entry m0.mem src n ≡ some e) where
      abbrev p : ℕ
      p = frame_of e

      h : Held lv0 m0 p
      h = ok.held n e hn mapped

      one_page : mapped_pages (start m0 dest src) (suc n) ≡ mapped_pages (start m0 dest src) n + 1
      unfolding mapped_pages
      one_page = rw mapped refl

      no_wrap : (sharing_refs m0 dest src n p + 1) % 2 ^ 32 ≡ sharing_refs m0 dest src n p + 1
      no_wrap = omega (arith, ok.room n e hn mapped, uses-le (start m0 dest src) n p)

      flags_ok : given_flags (e % 4096) < 4096
      flags_ok = ground (arith, shared_flags-range (e % 4096))

      abbrev half : ℕ → ℕ → Option ℕ
      half = set_page (sharing m0 dest src n) src n (some (parent_entry e))

      half-dest : half dest n ≡ none
      half-dest = ground (arith, empty n, ne)

      both :
          (x r : ℕ)
          → roots x ≡ true
          → r < user_pages
          → set_page half dest n (some (child_entry e)) x r ≡ sharing m0 dest src (suc n) x r
      both x r rx hr = ground (arith, mapped, ne, empty r)

      one_more :
          (o : ℕ)
          → counters (sharing_refs m0 dest src n) (half dest n) p o
            ≡ sharing_refs m0 dest src (suc n) o
      unfolding uses
      one_more o = rw half-dest (ground (arith, no_wrap, mapped))

      stopped :
          {m' : Machine} (lv' : ℕ → ℕ)
          → Spaces roots lv0 m0 half (sharing_refs m0 dest src n) lv' m'
          → m'.free ≡ []
          → length m.free ≤ 6
          → Stopped m'
      stopped lv' s' full few = record {
        at = n;
        in_range = hn;
        lv = lv';
        spaces = inr (rw mapped s');
        full = full;
        need = omega (arith, spent, one_page, few);
      }

      -- The child's entry, when the parent's is as it should be.
      second :
          ⦃q : ListOps⦄ (m1 : Machine) (lv1 : ℕ → ℕ)
          → Stays roots m m1
          → length m.free ≤ length m1.free + 3
          → Spaces roots lv0 m0 half (sharing_refs m0 dest src n) lv1 m1
          → Yields
              (Reached (suc n) m)
              (page_insert (dest * 4096) p (n * 4096) (given_flags (e % 4096)) m1)
      second m1 lv1 st few s1 =
          Yields-weaken
            (page_insert-InsertedAt roots lv0 m0 half (sharing_refs m0 dest src n) lv1 m1 s1 dest p
              n (given_flags (e % 4096)) rd hn (omega arith) (ok.nonzero n e hn mapped) flags_ok
              h.taken h.data_page (λ e' k. omega (arith, h.counted)) (λ e' k. cc (half-dest, k)))
            weaken
        where
          weaken :
              (b : Bool) (m' : Machine)
              → InsertedAt roots lv0 m0 half
                  (sharing_refs m0 dest src n)
                  m1
                  dest
                  p
                  n
                  (given_flags (e % 4096))
                  b
                  m'
              → Reached (suc n) m b m'
          weaken true m' (lv', s', st', few') = (
            lv',
            Spaces-equal roots lv0 m0 both (λ o k. one_more o) s',
            Stays-trans roots m m1 m' st st',
            omega (arith, spent, one_page, few, few'),
          )
          weaken false m' (lv', s', full, few') = stopped lv' s' full (omega (arith, few, few'))

      half-alone :
          is_shared (e % 4096) ≡ false
          → (x r : ℕ) → roots x ≡ true
          → r < user_pages
          → sharing m0 dest src n x r ≡ half x r
      half-alone off x r rx hr = rw off (ground (arith, mapped))

      now : page_entry m.mem src n ≡ some e
      now = s.pages src n rs hn ∙ ground (arith, mapped)

      here : sharing m0 dest src n src n ≡ some e
      here = ground (arith, mapped)

      same_refs :
          (o : ℕ)
          → counters (sharing_refs m0 dest src n) (sharing m0 dest src n src n) p o
            ≡ sharing_refs m0 dest src n o
      same_refs o = rw here (ground arith)

      half-shared :
          is_shared (e % 4096) ≡ true
          → (x r : ℕ) → roots x ≡ true
          → r < user_pages
          → set_page (sharing m0 dest src n) src n (some (mapping p (shared_flags (e % 4096)))) x r
            ≡ half x r
      half-shared on x r rx hr = rw on refl

      given_if : is_shared (e % 4096) ≡ true → given_flags (e % 4096) ≡ shared_flags (e % 4096)
      given_if on = rw on refl

      given_alone : is_shared (e % 4096) ≡ false → given_flags (e % 4096) ≡ e % 4096
      given_alone off = rw off refl

      after_first :
          ⦃q : ListOps⦄
          → is_shared (e % 4096) ≡ true
          → (b : Bool) (m1 : Machine)
          → InsertedAt roots lv0 m0
              (sharing m0 dest src n)
              (sharing_refs m0 dest src n)
              m
              src
              p
              n
              (shared_flags (e % 4096))
              b
              m1
          → Yields (Reached (suc n) m) (
              (if b
                  then page_insert (dest * 4096) p (n * 4096) (shared_flags (e % 4096))
                  else pure false)
                m1)
      after_first on true m1 (lv1, s1, st, few) =
          subst (λ f. Yields (Reached (suc n) m) (page_insert (dest * 4096) p (n * 4096) f m1))
            (given_if on)
            (second m1 lv1 st few
              (Spaces-equal roots lv0 m0 (half-shared on) (λ o k. same_refs o) s1))
      after_first on false m1 (lv1, s1, full, few) = yields (record {
        at = n;
        in_range = hn;
        lv = lv1;
        spaces = inl s1;
        full = full;
        need = omega (arith, spent, one_page, few);
      })

      -- One call of task_share_page shares one page more, or uses up the memory.
      pub task_share_page-Reached :
          ⦃q : ListOps⦄
          → Yields
              (Reached (suc n) m)
              (task_share_page (dest * 4096) (src * 4096) (n * 4096) (e % 4096) m)
      unfolding task_share_page
      task_share_page-Reached =
          rw (page_lookup-translate m src (n * 4096), now)
            (elim (Bool-cases (is_shared (e % 4096))) [
              | inr off ↦ rw off (
                  subst
                    (λ f. Yields (Reached (suc n) m) (page_insert (dest * 4096) p (n * 4096) f m))
                    (given_alone off)
                    (second m lv (λ x k r g a b w. w) (omega arith)
                      (Spaces-equal roots lv0 m0 (half-alone off) (λ o k. refl) s)))
              | inl on ↦ rw on (
                  after
                    (page_insert-InsertedAt roots lv0 m0 (sharing m0 dest src n)
                      (sharing_refs m0 dest src n) lv m s src p n (shared_flags (e % 4096)) rs hn
                      (omega arith) (ok.nonzero n e hn mapped)
                      ((shared_flags-range (e % 4096) (omega arith)).0) h.taken h.data_page
                      (λ e' k. omega (arith, h.counted))
                      (λ e' k. ap frame_of (some-injective (sym k ∙ here))))
                    (after_first on))
            ])
