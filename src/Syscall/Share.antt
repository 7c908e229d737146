-- ===== src/Syscall/Share.antt =====
-- task_share_page: parent and child have the page, and neither can write to it.
use ann.Base.{
  ℕ, ◌+◌, ◌-◌, ◌*◌, ◌%◌, ◌^◌, ◌<◌, none, some, Bool, true, false, ◌≡◌, ◌≢◌, refl, arith, Bool-cases,
  inl, inr, ◌⊎◌, [], has, bit_and, bit_or, ◌==◌, ◌/=◌, ltb, ◌&&◌, ◌||◌, if◌then◌else◌, holds_below,
  holds_below-lt, ◌∙◌, sym, ap, subst,
}
use ann.LinkedList.{ListOps}
use ann.Memory.Layout.{pte_w, pte_cow}
use ann.Memory.Layout.Laws.{frame_of}
use ann.Memory.Machine.{Machine, pure}
use ann.Memory.Yields.{Yields, yields, after, Yields-weaken}
use ann.Memory.Map.{page_insert}
use ann.Memory.Map.Walk.{slot_of, translate, Typed}
use ann.Memory.Map.Write.{Held}
use ann.Memory.Map.After.{After, After-refl, Differ, Differ-none, Differ-sym, translate-slot_of}
use ann.Memory.Map.Remove.{page_lookup-translate}
use ann.Memory.Map.Insert.{Done, mapping, page_insert-Done}
use ann.Syscall.{task_share_page}

some-injective : {a b : ℕ} → some a ≡ some b → a ≡ b
some-injective h = cc

-- Is the page writable, or marked for copy on write?
abbrev pub is_shared : ℕ → Bool
is_shared perm = bit_and perm pte_w /= 0 || bit_and perm pte_cow /= 0

-- The flags of a page that both have: marked, and not writable.
abbrev pub shared_flags : ℕ → ℕ
shared_flags perm = bit_and (bit_or perm pte_cow) (2 ^ 32 - 1 - pte_w)

shared_flags_ok : ℕ → Bool
shared_flags_ok perm =
    ltb (shared_flags perm) 4096
    && (bit_and (shared_flags perm) pte_w == 0)
    && (bit_and (shared_flags perm) pte_cow /= 0)

shared_flags_all : holds_below shared_flags_ok 4096 ≡ true
unfolding holds_below shared_flags_ok
shared_flags_all = refl

pub shared_flags-range :
    (perm : ℕ)
    → perm < 4096
    → (shared_flags perm < 4096)
      × (bit_and (shared_flags perm) pte_w ≡ 0)
      × (bit_and (shared_flags perm) pte_cow ≢ 0)
unfolding shared_flags_ok
shared_flags-range perm h =
    ground (arith, holds_below-lt shared_flags_ok 4096 perm shared_flags_all h)

-- After `p` is mapped at an address that was free: all that was mapped stays, and the counter of `p`
-- tells whether there was memory for the tables.
pub record Added (lv : ℕ → ℕ) (m : Machine) (f p va perm : ℕ) (done : Bool) (m' : Machine)
    : Type 0 where
  pub here : translate 3 m'.mem f va ≡ (if done then some (mapping p perm) else none)
  pub count : m'.ref p ≡ (if done then (m.ref p + 1) % 2 ^ 32 else m.ref p)
  pub stays :
      (g va' e : ℕ)
      → lv g ≡ 4
      → translate 3 m.mem g va' ≡ some e
      → translate 3 m'.mem g va' ≡ some e
  pub full : done ≡ false → m'.free ≡ []

module _ ⦃q : ListOps⦄ {lv : ℕ → ℕ} {m : Machine} (f p va perm : ℕ) (t : Typed lv m) (lf : lv f ≡ 4)
    (hp : p < 2 ^ 52) (nonzero : 0 < p) (hf : perm < 4096) (taken : has p m.free ≡ false) where
  page_insert-Added :
      translate 3 m.mem f va ≡ none
      → Yields (Added lv m f p va perm) (page_insert (f * 4096) p va perm m)
  page_insert-Added empty =
      Yields-weaken (page_insert-Done f p va perm t lf hp nonzero hf (λ e h. cc (empty, h)) taken)
        weaken
    where
      weaken : (b : Bool) (m' : Machine) → Done lv m f p va perm b m' → Added lv m f p va perm b m'
      weaken true m' (lv', t', i, a) = record {
        here = i.here;
        count = (i.counts p taken).0 ∙ rw empty (ground arith);
        stays = λ g va' e lg h. i.apart g va' lg (Differ-none m g f va' va e h empty) ∙ h;
        full = λ e. absurd (ground (arith, e));
      }
      weaken false m' (lv', t', (none_left, same, refs), a) = record {
        here = same f va lf ∙ empty;
        count = refs p taken;
        stays = λ g va' e lg h. same g va' lg ∙ h;
        full = λ e. none_left;
      }

module _ ⦃q : ListOps⦄ {lv : ℕ → ℕ} {m : Machine} (dest src va perm e : ℕ) (t : Typed lv m)
    (ls : lv src ≡ 4) (ld : lv dest ≡ 4) (mapped : translate 3 m.mem src va ≡ some e)
    (held : Held lv m (frame_of e)) (nonzero : 0 < frame_of e) (hf : perm < 4096)
    (empty : translate 3 m.mem dest va ≡ none) where
  -- The child has the page with these flags, and the parent's entry is this.
  abbrev pub given : ℕ
  given = if is_shared perm then shared_flags perm else perm

  abbrev pub parent_entry : ℕ
  parent_entry = if is_shared perm then mapping (frame_of e) (shared_flags perm) else e

  pub record Shares (done : Bool) (m' : Machine) : Type 0 where
    pub parent :
        (translate 3 m'.mem src va ≡ some parent_entry)
        ⊎ ((done ≡ false) × (translate 3 m'.mem src va ≡ some e))
    pub child :
        translate 3 m'.mem dest va ≡ (if done then some (mapping (frame_of e) given) else none)
    pub count :
        m'.ref (frame_of e)
        ≡ (if done then (m.ref (frame_of e) + 1) % 2 ^ 32 else m.ref (frame_of e))
    pub others :
        (g va' e' : ℕ)
        → lv g ≡ 4
        → translate 3 m.mem g va' ≡ some e'
        → slot_of 3 m.mem g va' ≢ slot_of 3 m.mem src va
        → translate 3 m'.mem g va' ≡ some e'
    pub full : done ≡ false → m'.free ≡ []

  flags_ok : given < 4096
  flags_ok = elim (Bool-cases (is_shared perm)) [
    | inl on ↦ rw on ((shared_flags-range perm hf).0)
    | inr off ↦ rw off hf
  ]

  -- The parent's entry has the new flags already, in `m1`; what is left is the child's.
  second_Shares :
      (lv1 : ℕ → ℕ) (m1 : Machine)
      → Typed lv1 m1
      → After lv m lv1 m1
      → translate 3 m1.mem src va ≡ some parent_entry
      → ((g va' : ℕ)
          → lv g ≡ 4
          → Differ m g va' src va
          → translate 3 m1.mem g va' ≡ translate 3 m.mem g va')
      → m1.ref (frame_of e) ≡ m.ref (frame_of e)
      → has (frame_of e) m1.free ≡ false
      → Yields Shares (page_insert (dest * 4096) (frame_of e) va given m1)
  second_Shares lv1 m1 t1 a par oth rf tk =
      let differ = Differ-sym m src dest va va (Differ-none m src dest va va e mapped empty) in
      Yields-weaken
        (page_insert-Added dest (frame_of e) va given t1 (a.keeps dest 3 ld) (omega arith) nonzero
          flags_ok tk (oth dest va ld differ ∙ empty))
        (λ b m2 d. record {
          parent = inl (d.stays src va parent_entry (a.keeps src 3 ls) par);
          child = d.here;
          count = rw (sym rf) (d.count);
          others = λ g va' e' lg h ne.
              let (s, es, _, _) = translate-slot_of m g va' e' h in
              d.stays g va' e' (a.keeps g 3 lg)
                (oth g va' lg (inl (s, es, λ k. ne (es ∙ sym k))) ∙ h);
          full = d.full;
        })

  if_shared :
      is_shared perm ≡ true
      → (given ≡ shared_flags perm) × (parent_entry ≡ mapping (frame_of e) (shared_flags perm))
  if_shared on = rw on (refl, refl)

  if_alone : is_shared perm ≡ false → (given ≡ perm) × (parent_entry ≡ e)
  if_alone off = rw off (refl, refl)

  after_first :
      is_shared perm ≡ true
      → (done : Bool) (m1 : Machine) → Done lv m src (frame_of e) va (shared_flags perm) done m1
      → Yields Shares (
          (if done
              then page_insert (dest * 4096) (frame_of e) va (shared_flags perm)
              else pure false)
            m1)
  after_first on true m1 (lv1, t1, i, a) =
      let (fl, en) = if_shared on in
      let (count, listed) = i.counts (frame_of e) held.taken in
      subst (λ f. Yields Shares (page_insert (dest * 4096) (frame_of e) va f m1)) fl
        (second_Shares lv1 m1 t1 a (i.here ∙ ap some (sym en)) i.apart
          (count ∙ rw mapped (ground arith)) (listed ∙ rw mapped (ground arith)))
  after_first on false m1 (lv1, t1, (none_left, same, refs), a) = yields (record {
    parent = inr (refl, same src va ls ∙ mapped);
    child = same dest va ld ∙ empty;
    count = refs (frame_of e) held.taken;
    others = λ g va' e' lg h ne. same g va' lg ∙ h;
    full = λ z. none_left;
  })

  -- Let `e` map page `p` at `va` in the space of `src`, with `p` in use, and `va` be free in the space of
  -- `dest`; let the tables be well-typed and `perm` be below 4096. Then task_share_page does not panic.
  -- With the result 0 the child has the page, and its counter is one higher. If the page was writable
  -- or marked, both have it without the write flag and marked; if not, the parent's entry is as before.
  -- Every other mapped entry, of every address space, stays. With the result -1 the memory is used up,
  -- and the child has nothing.
  pub task_share_page-Shares : Yields Shares (task_share_page (dest * 4096) (src * 4096) va perm m)
  unfolding task_share_page
  task_share_page-Shares =
      rw (page_lookup-translate m src va, mapped)
        (elim (Bool-cases (is_shared perm)) [
          | inr off ↦
              let (fl, en) = if_alone off in
              rw off (
                subst (λ f. Yields Shares (page_insert (dest * 4096) (frame_of e) va f m)) fl
                  (second_Shares lv m t (After-refl lv m) (mapped ∙ ap some (sym en))
                    (λ g va' lg d. refl) refl held.taken))
          | inl on ↦ rw on (
              after
                (page_insert-Done src (frame_of e) va (shared_flags perm) t ls (omega arith) nonzero
                  ((shared_flags-range perm hf).0)
                  (λ e' h.
                    subst (λ x. Held lv m (frame_of x)) (some-injective (sym mapped ∙ h)) held)
                  held.taken)
                (after_first on))
        ])
