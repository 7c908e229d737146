-- ===== src/Syscall/Space/Loops.antt =====
-- The four nested loops of sys_fork.
use ann.Base.{
  ℕ, zero, suc, ◌+◌, ◌*◌, ◌%◌, ◌^◌, ◌<◌, ◌≤◌, none, Bool, true, false, ◌≡◌, ◌≢◌, refl, arith,
  if◌then◌else◌, sym, ◌∙◌, subst, inl, inr, Bool-cases, bit_and, bit_and_mask,
}
use ann.LinkedList.{ListOps}
use ann.Memory.Layout.{present, entry_addr, page_addr, pml4_idx, pte_flags_mask}
use ann.Memory.Layout.Laws.{frame_of, entry_addr_frame, page_addr_sum}
use ann.Memory.Machine.{Machine, Cmd, pure}
use ann.Memory.Yields.{Yields, yields, after, Yields-weaken}
use ann.Memory.Map.Walk.{entry_at}
use ann.Memory.Map.Tree.{TablePath, IsUser}
use ann.Memory.Map.UserPage.{user_pages, ancestor-at}
use ann.Syscall.{for_entries, share_space, task_share_page}
use ann.Memory.Map.Spaces.{page_entry, Spaces, Stays, Stays-trans}
use ann.Syscall.Space.Page.{
  Sharable, sharing, sharing_refs, Reached, absent-Spaces, absent-Spent, Spent,
  task_share_page-Reached,
}
use ann.Syscall.Space.Digits.{
  TablePath-range, nonlinear, nonlinear1, first_below, last_below, below-absent, page_entry-present,
}

module _ ⦃ops : ListOps⦄ (roots : ℕ → Bool) (lv0 : ℕ → ℕ) (m0 : Machine) (dest src : ℕ)
    (rs : roots src ≡ true) (rd : roots dest ≡ true) (ne : dest ≢ src)
    (empty : (r : ℕ) → r < user_pages → page_entry m0.mem dest r ≡ none)
    (ok : Sharable lv0 m0 src) where
  -- The pages below `n` are shared.
  abbrev Shared : ℕ → (ℕ → ℕ) → Machine → Type 0
  Shared n lv m =
      Spaces roots lv0 m0 (sharing m0 dest src n) (sharing_refs m0 dest src n) lv m
      × Spent m0 dest src n m

  abbrev Next : ℕ → Machine → Bool → Machine → Type 0
  Next n m b m' = Reached roots lv0 m0 dest src n m b m'

  unshared :
      (n : ℕ) (lv : ℕ → ℕ) (m : Machine)
      → Shared n lv m
      → n < user_pages
      → page_entry m.mem src n ≡ page_entry m0.mem src n
  unshared n lv m (s, _) h = s.pages src n rs h ∙ ground arith

  skip :
      (w n : ℕ) (lv : ℕ → ℕ) (m : Machine)
      → n + w ≤ user_pages
      → ((r : ℕ) → n ≤ r → r < n + w → page_entry m.mem src r ≡ none)
      → Shared n lv m
      → Shared (n + w) lv m
  skip zero n lv m le nothing s = subst (λ a. Shared a lv m) (omega arith) s
  skip (suc w) n lv m le nothing s =
      let here = sym (unshared n lv m s (omega arith)) ∙ nothing n (omega arith) (omega arith) in
      subst (λ a. Shared a lv m) (omega arith)
        (skip w (suc n) lv m (omega arith) (λ r a b. nothing r (omega arith) (omega arith))
          (
            absent-Spaces roots lv0 m0 dest src rs rd ne empty ok n (omega arith) lv m s.0 s.1 here,
            absent-Spent roots lv0 m0 dest src rs rd ne empty ok n (omega arith) lv m s.0 s.1 here,
          ))

  Next-trans :
      (n : ℕ) (m m1 : Machine)
      → Stays roots m m1
      → (b : Bool) (m' : Machine) → Next n m1 b m'
      → Next n m b m'
  Next-trans n m m1 st true m' (lv', s, st', b) = (lv', s, Stays-trans roots m m1 m' st st', b)
  Next-trans n m m1 st false m' h = h

  -- One loop over entries of table `g`, whose pages begin with the digits `q`.
  module _ (k d q g : ℕ) (deep : k + d ≡ 3) (body : ℕ → ℕ → Cmd Bool)
      (body_ok : (i : ℕ) (lv : ℕ → ℕ) (m : Machine)
        → i < 512
        → IsUser k i
        → Shared ((q * 512 + i) * 512 ^ d) lv m
        → TablePath m.mem src k q g
        → present (m.mem (entry_at g i)) ≡ true
        → Yields (Next ((q * 512 + i + 1) * 512 ^ d) m) (body i (m.mem (entry_at g i)) m)) where
    -- What the loop does from entry `i` on, with `n` entries left.
    abbrev From : ℕ → ℕ → Type 0
    From n i =
        (lv : ℕ → ℕ) (m : Machine)
        → Shared ((q * 512 + i) * 512 ^ d) lv m
        → TablePath m.mem src k q g
        → Yields (Next ((q * 512 + (i + n)) * 512 ^ d) m) (for_entries body n i (g * 4096) m)

    after_entry :
        (n i : ℕ) (m : Machine)
        → From n (i + 1)
        → TablePath m.mem src k q g
        → (b : Bool) (m1 : Machine) → Next ((q * 512 + i + 1) * 512 ^ d) m b m1
        → Yields
            (Next ((q * 512 + (i + suc n)) * 512 ^ d) m)
            ((if b then for_entries body n (i + 1) (g * 4096) else pure false) m1)
    after_entry n i m loop w true m1 (lv1, s1, st, b1) =
        let more =
          loop lv1 m1 (subst (λ a. Shared (a * 512 ^ d) lv1 m1) (omega arith) (s1, b1))
            (st src k q g rs (omega (arith, deep)) w) in
        subst
          (λ a.
            Yields (Next ((q * 512 + a) * 512 ^ d) m) (for_entries body n (i + 1) (g * 4096) m1))
          (omega arith) (Yields-weaken more (Next-trans _ m m1 st))
    after_entry n i m loop w false m1 h = yields h

    after_absent :
        (n i : ℕ)
        → From n (i + 1)
        → i < 512
        → IsUser k i
        → (lv : ℕ → ℕ) (m : Machine) → Shared ((q * 512 + i) * 512 ^ d) lv m
        → TablePath m.mem src k q g
        → present (m.mem (entry_at g i)) ≡ false
        → Yields
            (Next ((q * 512 + (i + suc n)) * 512 ^ d) m)
            (for_entries body n (i + 1) (g * 4096) m)
    after_absent n i loop hi u lv m s w off =
        let base = (q * 512 + i) * 512 ^ d in
        let none_below : (r : ℕ) → base ≤ r → r < base + 512 ^ d → page_entry m.mem src r ≡ none =
          λ r a b.
            below-absent m.mem src r k d q g i deep w
              (ancestor-at r d (q * 512 + i) (omega (arith, deep)) a
                (rw (nonlinear1 q i (512 ^ d)) b))
              hi off in
        let s1 =
          subst (λ a. Shared a lv m) (nonlinear q i (512 ^ d))
            (skip (512 ^ d) ((q * 512 + i) * 512 ^ d) lv m
              (TablePath-range m.mem src k d q g i deep w hi u) none_below s) in
        subst
          (λ a. Yields (Next ((q * 512 + a) * 512 ^ d) m) (for_entries body n (i + 1) (g * 4096) m))
          (omega arith) (loop lv m s1 w)

    -- The loop shares the pages of its entries, or ends with the memory used up.
    for_entries-Next : (n i : ℕ) → ((j : ℕ) → j < i + n → (j < 512) × IsUser k j) → From n i
    unfolding for_entries
    for_entries-Next zero i fits lv m s w =
        let (s1, b1) : Shared ((q * 512 + (i + 0)) * 512 ^ d) lv m =
          subst (λ a. Shared ((q * 512 + a) * 512 ^ d) lv m) (omega arith) s in
        yields (lv, s1, (λ x c r h le a b. b), b1)
    for_entries-Next (suc n) i fits lv m s w =
        let (hi, u) = fits i (omega arith) in
        let loop : From n (i + 1) = for_entries-Next n (i + 1) (λ j h. fits j (omega arith)) in
        elim (Bool-cases (present (m.mem (entry_at g i)))) [
          | inl on ↦ rw on (after (body_ok i lv m hi u s w on) (after_entry n i m loop w))
          | inr off ↦ rw off (after_absent n i loop hi u lv m s w off)
        ]

  -- The body of the innermost loop
  leaf :
      (i j k l g : ℕ) (lv : ℕ → ℕ) (m : Machine)
      → i < 3
      → j < 512
      → k < 512
      → l < 512
      → let q = ((0 * 512 + i) * 512 + j) * 512 + k in
        Shared ((q * 512 + l) * 512 ^ 0) lv m
        → TablePath m.mem src 3 q g
        → present (m.mem (entry_at g l)) ≡ true
        → Yields (Next ((q * 512 + l + 1) * 512 ^ 0) m) (
            task_share_page
              (dest * 4096)
              (src * 4096)
              (page_addr i j k l 0)
              (bit_and (m.mem (entry_at g l)) pte_flags_mask)
              m)
  leaf i j k l g lv m hi hj hk hl s w on =
      let r = (((0 * 512 + i) * 512 + j) * 512 + k) * 512 + l in
      let e = m.mem (entry_at g l) in
      let at : page_addr i j k l 0 ≡ r * 4096 = omega (
        arith,
        page_addr_sum {i = i} {j = j} {k = k} {l = l} {off = 0} (omega arith) hj hk hl
            (omega arith),
      ) in
      let s' : Shared r lv m = subst (λ a. Shared a lv m) (omega arith) s in
      let mapped =
        sym (unshared r lv m s' (omega arith)) ∙ page_entry-present m.mem src _ g l w hl on in
      let one =
        task_share_page-Reached roots lv0 m0 dest src rs rd ne empty ok r (omega arith) lv m s'.0
          s'.1 e mapped in
      rw (at, bit_and_mask 12 e)
        (subst
          (λ a.
            Yields (Next a m) (task_share_page (dest * 4096) (src * 4096) (r * 4096) (e % 4096) m))
          (omega arith) one)

  -- A loop around loops: what holds of the loop over the table below an entry holds of the entry.
  module _ (k d q i g : ℕ) (deep : k + suc d ≡ 3) (hi : i < 512) (u : IsUser k i)
      (inner : ℕ → ℕ → Cmd Bool)
      (inner_ok : (g' j : ℕ) (lv : ℕ → ℕ) (m : Machine)
        → j < 512
        → Shared (((q * 512 + i) * 512 + j) * 512 ^ d) lv m
        → TablePath m.mem src (suc k) (q * 512 + i) g'
        → present (m.mem (entry_at g' j)) ≡ true
        → Yields
            (Next (((q * 512 + i) * 512 + j + 1) * 512 ^ d) m)
            (inner j (m.mem (entry_at g' j)) m)) where
    descend :
        (lv : ℕ → ℕ) (m : Machine)
        → Shared ((q * 512 + i) * 512 ^ suc d) lv m
        → TablePath m.mem src k q g
        → present (m.mem (entry_at g i)) ≡ true
        → Yields
            (Next ((q * 512 + i + 1) * 512 ^ suc d) m)
            (for_entries inner 512 0 (entry_addr (m.mem (entry_at g i))) m)
    descend lv m s w on =
        let c = q * 512 + i in
        let e = m.mem (entry_at g i) in
        let below =
          for_entries-Next (suc k) d c (frame_of e) (omega arith) inner
            (λ j lv1 m1 hj v s1 w1 on1. inner_ok (frame_of e) j lv1 m1 hj s1 w1 on1) 512 0
            (λ j h. (omega arith, tt)) lv m (subst (λ a. Shared a lv m) (first_below c d) s)
            (q, g, i, w, hi, u, on, refl, refl) in
        rw (entry_addr_frame e) (
          subst (λ a. Yields (Next a m) (for_entries inner 512 0 (frame_of e * 4096) m))
            (last_below c d) below)

  table_2 :
      (i j k g : ℕ) (lv : ℕ → ℕ) (m : Machine)
      → i < 3
      → j < 512
      → k < 512
      → let q = (0 * 512 + i) * 512 + j in
        Shared ((q * 512 + k) * 512 ^ 1) lv m
        → TablePath m.mem src 2 q g
        → present (m.mem (entry_at g k)) ≡ true
        → Yields (Next ((q * 512 + k + 1) * 512 ^ 1) m) (
            for_entries
              (λ l pte.
                task_share_page
                  (dest * 4096)
                  (src * 4096)
                  (page_addr i j k l 0)
                  (bit_and pte pte_flags_mask))
              512
              0
              (entry_addr (m.mem (entry_at g k)))
              m)
  table_2 i j k g lv m hi hj hk =
      descend 2 0 ((0 * 512 + i) * 512 + j) k g refl hk tt
        (λ l pte.
          task_share_page (dest * 4096) (src * 4096) (page_addr i j k l 0)
            (bit_and pte pte_flags_mask))
        (λ g' l lv1 m1 hl. leaf i j k l g' lv1 m1 hi hj hk hl) lv m

  -- The loops of sys_fork share every user page of the parent, or end with the memory used up.
  pub share_space-Next :
      (lv : ℕ → ℕ)
      → Shared 0 lv m0
      → Yields (Next user_pages m0) (share_space (dest * 4096) (src * 4096) m0)
  unfolding share_space pml4_idx
  share_space-Next lv s =
      for_entries-Next 0 3 0 src refl _
        (λ i lv1 m1 hi u s1 w1 on1.
          descend 0 2 0 i src refl hi u _
            (λ g2 j lv2 m2 hj s2 w2 on2.
              descend 1 1 (0 * 512 + i) j g2 refl hj tt _
                (λ g3 k lv3 m3 hk. table_2 i j k g3 lv3 m3 u hj hk) lv2 m2 s2 w2 on2)
            lv1 m1 s1 w1 on1)
        3 0 (λ j h. (omega arith, omega arith)) lv m0 s (refl, refl)
