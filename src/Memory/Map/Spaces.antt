-- ===== src/Memory/Map/Spaces.antt =====
-- What is said of several address spaces at once: the translation of every user page, and the
-- counters. One page_insert changes one page.
use ann.Base.{
  ℕ, ◌+◌, length, ◌*◌, ◌^◌, ◌<◌, ◌≤◌, Option, none, some, Bool, true, false, ◌≡◌, refl, arith,
  if◌then◌else◌, ◌==◌, ◌&&◌, has, [], sym, ◌∙◌, subst, inl, inr, Bool-cases,
}
use ann.LinkedList.{ListOps}
use ann.Memory.Layout.Laws.{frame_of}
use ann.Memory.Machine.{Machine}
use ann.Memory.Yields.{Yields, Yields-weaken}
use ann.Memory.Map.{page_insert}
use ann.Memory.Map.Walk.{translate, Typed}
use ann.Memory.Map.Write.{Held}
use ann.Memory.Map.Tree.{TablePath, AreRoots, IsTree, TablePath-kept}
use ann.Memory.Map.UserPage.{user_pages, slot_of-apart}
use ann.Memory.Map.After.{After, translate-slot_of}
use ann.Memory.Map.Insert.{Done, Inserted, mapping, counters, freed, page_insert-Done}

-- Page `r` of `x` by number
abbrev pub page_entry : (ℕ → ℕ) → ℕ → ℕ → Option ℕ
page_entry mem x r = translate 3 mem x (r * 4096)

abbrev pub set_page : (ℕ → ℕ → Option ℕ) → ℕ → ℕ → Option ℕ → ℕ → ℕ → Option ℕ
set_page maps f r v x r' = if (x == f) && (r' == r) then v else maps x r'

-- The user pages of the address spaces `roots` are translated by `maps`, and the frames that were in
-- use in `m0` still are, with the counters `refs`.
pub record Spaces (roots : ℕ → Bool) (lv0 : ℕ → ℕ) (m0 : Machine) (maps : ℕ → ℕ → Option ℕ)
    (refs : ℕ → ℕ) (lv : ℕ → ℕ) (m : Machine) : Type 0 where
  pub typed : Typed lv m
  pub are_roots : AreRoots roots lv
  pub tree : IsTree roots m.mem
  pub pages : (x r : ℕ) → roots x ≡ true → r < user_pages → page_entry m.mem x r ≡ maps x r
  pub counts : (o : ℕ) → has o m0.free ≡ false → m.ref o ≡ refs o
  pub taken : (o : ℕ) → has o m0.free ≡ false → has o m.free ≡ false
  pub data_frames : (o : ℕ) → has o m0.free ≡ false → lv0 o ≡ 0 → lv o ≡ 0

-- Every table of the address spaces is where it was.
abbrev pub Stays : (ℕ → Bool) → Machine → Machine → Type 0
Stays roots m m' =
    (x k q g : ℕ) → roots x ≡ true → k ≤ 3 → TablePath m.mem x k q g → TablePath m'.mem x k q g

pub Stays-trans :
    (roots : ℕ → Bool) (m m1 m2 : Machine) → Stays roots m m1 → Stays roots m1 m2 → Stays roots m m2
Stays-trans roots m m1 m2 a b x k q g h le p = b x k q g h le (a x k q g h le p)

module _ (roots : ℕ → Bool) (lv0 : ℕ → ℕ) (m0 : Machine) where
  -- The descriptions can be changed for equal ones.
  pub Spaces-equal :
      {maps maps' : ℕ → ℕ → Option ℕ} {refs refs' lv : ℕ → ℕ} {m : Machine}
      → ((x r : ℕ) → roots x ≡ true → r < user_pages → maps x r ≡ maps' x r)
      → ((o : ℕ) → has o m0.free ≡ false → refs o ≡ refs' o)
      → Spaces roots lv0 m0 maps refs lv m
      → Spaces roots lv0 m0 maps' refs' lv m
  Spaces-equal a b s = record {
    typed = s.typed;
    are_roots = s.are_roots;
    tree = s.tree;
    pages = λ x r h hr. s.pages x r h hr ∙ a x r h hr;
    counts = λ o h. s.counts o h ∙ b o h;
    taken = s.taken;
    data_frames = s.data_frames;
  }

  -- After page_insert, whose page was mapped to the same frame or not at all
  abbrev pub InsertedAt :
      (maps : ℕ → ℕ → Option ℕ) (refs : ℕ → ℕ) (m : Machine) (f p r perm : ℕ)
      → Bool
      → Machine
      → Type 0
  InsertedAt maps refs m f p r perm true m' =
      (lv' : ℕ → ℕ) × Spaces roots lv0 m0 (set_page maps f r (some (mapping p perm)))
        (counters refs (maps f r) p) lv' m'
      × Stays roots m m'
      × (length m.free ≤ length m'.free + 3)
  InsertedAt maps refs m f p r perm false m' =
      (lv' : ℕ → ℕ) × Spaces roots lv0 m0 maps refs lv' m' × (m'.free ≡ []) × (length m.free ≤ 3)

  counters-same :
      (mapped : Option ℕ) (refs refs' : ℕ → ℕ) (p o : ℕ)
      → refs p ≡ refs' p
      → refs o ≡ refs' o
      → ((e : ℕ) → mapped ≡ some e → frame_of e ≡ p)
      → counters refs mapped p o ≡ counters refs' mapped p o
  counters-same none refs refs' p o a b h = ground arith
  counters-same (some e) refs refs' p o a b h = rw (h e refl) (ground arith)

  freed-none :
      (mapped : Option ℕ) (refs : ℕ → ℕ) (p o : ℕ)
      → ((e : ℕ) → mapped ≡ some e → frame_of e ≡ p)
      → freed refs mapped p o ≡ false
  freed-none none refs p o h = refl
  freed-none (some e) refs p o h = rw (h e refl) (ground arith)

  module _ (maps : ℕ → ℕ → Option ℕ) (refs lv : ℕ → ℕ) (m : Machine)
      (s : Spaces roots lv0 m0 maps refs lv m) (f p r perm : ℕ) (rf : roots f ≡ true)
      (hr : r < user_pages) (hp : p < 2 ^ 52) (nonzero : 0 < p) (hf : perm < 4096)
      (taken : has p m0.free ≡ false) (data_page : lv0 p ≡ 0)
      (counted : (e : ℕ) → maps f r ≡ some e → 0 < refs p)
      (same : (e : ℕ) → maps f r ≡ some e → frame_of e ≡ p) where
    now : page_entry m.mem f r ≡ maps f r
    now = s.pages f r rf hr

    same_now : (e : ℕ) → page_entry m.mem f r ≡ some e → frame_of e ≡ p
    same_now e h = same e (sym now ∙ h)

    held : (e : ℕ) → maps f r ≡ some e → Held lv m p
    held e h = record {
      counted = rw (s.counts p taken) (counted e h);
      taken = s.taken p taken;
      data_page = s.data_frames p taken data_page;
    }

    other_pages :
        (lv' : ℕ → ℕ) (m' : Machine)
        → Inserted lv m f p (r * 4096) perm m'
        → After lv m lv' m'
        → (x r' : ℕ) → roots x ≡ true
        → r' < user_pages
        → page_entry m'.mem x r' ≡ set_page maps f r (some (mapping p perm)) x r'
    other_pages lv' m' i a x r' rx hr' = elim (Bool-cases ((x == f) && (r' == r))) [
      | inl this ↦
          let (ex, er) : (x ≡ f) × (r' ≡ r) = (ground arith, ground arith) in
          rw (this, ex, er) i.here
      | inr other ↦
          let (s0, at, _, _) = translate-slot_of m' f (r * 4096) (mapping p perm) i.here in
          rw other (
            i.elsewhere x (r' * 4096) (s.are_roots x rx) (λ e.
              let (ex, er) =
                slot_of-apart roots m'.mem (a.trees roots s.are_roots s.tree) x f r' r s0 rx rf hr'
                  hr (e ∙ at) at in
              ground arith)
            ∙ s.pages x r' rx hr')
    ]

    inserted :
        (b : Bool) (m' : Machine)
        → Done lv m f p (r * 4096) perm b m'
        → InsertedAt maps refs m f p r perm b m'
    inserted true m' (lv', t', i, a) = (
      lv',
      record {
        typed = t';
        are_roots = λ x h. a.keeps x 3 (s.are_roots x h);
        tree = a.trees roots s.are_roots s.tree;
        pages = other_pages lv' m' i a;
        counts = λ o h.
            (i.counts o (s.taken o h)).0
            ∙ rw now
                (counters-same (maps f r) m.ref refs p o (s.counts p taken) (s.counts o h) same);
        taken = λ o h.
            (i.counts o (s.taken o h)).1 ∙ freed-none (page_entry m.mem f r) m.ref p o same_now;
        data_frames = λ o h z. a.data_frames o (s.taken o h) (s.data_frames o h z);
      },
      λ x k q g h le w. TablePath-kept s.typed m'.mem a.entries x k q g (s.are_roots x h) le w,
      a.stock,
    )
    inserted false m' (lv', t', (none_left, maps_same, refs_same), a) = (
      lv',
      record {
        typed = t';
        are_roots = λ x h. a.keeps x 3 (s.are_roots x h);
        tree = a.trees roots s.are_roots s.tree;
        pages = λ x r' h hr'. maps_same x (r' * 4096) (s.are_roots x h) ∙ s.pages x r' h hr';
        counts = λ o h. refs_same o (s.taken o h) ∙ s.counts o h;
        taken = λ o h. rw none_left refl;
        data_frames = λ o h z. a.data_frames o (s.taken o h) (s.data_frames o h z);
      },
      none_left,
      subst (λ l. length m.free ≤ length l + 3) none_left a.stock,
    )

    -- One page_insert at a user page changes the translation of that page, and of no other.
    pub page_insert-InsertedAt :
        ⦃q : ListOps⦄
        → Yields (InsertedAt maps refs m f p r perm) (page_insert (f * 4096) p (r * 4096) perm m)
    page_insert-InsertedAt =
        Yields-weaken
          (page_insert-Done f p (r * 4096) perm s.typed (s.are_roots f rf) hp nonzero hf
            (λ e h. subst (λ o. Held lv m o) (sym (same_now e h)) (held e (sym now ∙ h)))
            (s.taken p taken))
          inserted
