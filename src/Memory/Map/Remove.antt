-- ===== src/Memory/Map/Remove.antt =====
-- page_lookup reads the translation; page_remove ends it and gives the page back.
use ann.Base.{
  ◌/◌, ℕ, ◌*◌, ◌-◌, Option, none, some, Bool, true, false, ◌≡◌, ◌≢◌, refl, if◌then◌else◌, arith,
  Bool-cases, Option-cases, inl, inr, has, ◌==◌, lt→ltb, ◌∙◌, sym,
}
use ann.LinkedList.{ListOps}
use ann.Memory.Layout.{present, entry_addr}
use ann.Memory.Layout.Laws.{frame_of, entry_addr_frame}
use ann.Memory.Machine.{Machine, ok}
use ann.Memory.Yields.{Yields, yields}
use ann.Memory.Pages.{page_decref, pa2page}
use ann.Memory.Pages.Laws.{dropped, page_decref_lem}
use ann.Memory.Map.{page_lookup, page_remove}
use ann.Memory.Map.Walk.{index, index-lt, entry_at, slot_of, translate, Typed}
use ann.Memory.Map.Grow.{present-zero}
use ann.Memory.Map.Lookup.{mmap_lookup-slot_of}
use ann.Memory.Map.Write.{
  write, write-contents, Held, dropped-Typed, write-Typed, translate-write_ne, translate-write_self,
  slot_of-level,
}

pa2page-entry_addr : (e : ℕ) → pa2page (entry_addr e) ≡ frame_of e
unfolding pa2page
pa2page-entry_addr e = rw (entry_addr_frame e) (omega arith)

-- The page that an entry maps.
abbrev pub mapped_page : Option ℕ → Option ℕ
mapped_page none = none
mapped_page (some e) = some (frame_of e)

abbrev pub maps_to : ℕ → Option ℕ → Bool
maps_to o none = false
maps_to o (some e) = o == frame_of e

-- What is mapped at `va`, if anything, is a data page in use.
abbrev pub HeldAt : (ℕ → ℕ) → Machine → ℕ → ℕ → Type 0
HeldAt lv m f va = (e : ℕ) → translate 3 m.mem f va ≡ some e → Held lv m (frame_of e)

-- The machine after page_remove of the entry at `s`.
abbrev pub removed : Machine → ℕ → Machine
removed m s = if present (m.mem s) then write (dropped m (frame_of (m.mem s))) s 0 else m

module _ ⦃q : ListOps⦄ (m : Machine) (f va : ℕ) where
  -- page_lookup gives the page that `va` is translated to and the entry's address, and changes
  -- nothing.
  pub page_lookup-translate :
      page_lookup (f * 4096) va m
      ≡ ok (mapped_page (translate 3 m.mem f va), slot_of 3 m.mem f va) m
  unfolding page_lookup translate
  page_lookup-translate = elim (Option-cases (slot_of 3 m.mem f va)) [
    | inl e ↦ rw (mmap_lookup-slot_of f va m, e)
    | inr (s, e) ↦
        rw (mmap_lookup-slot_of f va m, e)
          (elim (Bool-cases (present (m.mem s))) [
            | inl on ↦ rw (on, pa2page-entry_addr)
            | inr off ↦ rw off
          ])
  ]

  pub page_decref-dropped :
      {lv : ℕ → ℕ} (o : ℕ) → Held lv m o → page_decref o m ≡ ok tt (dropped m o)
  page_decref-dropped o h = rw (page_decref_lem m o h.taken, lt→ltb _ _ h.counted)

  -- page_remove clears the entry, if it maps a page, and drops the page.
  pub page_remove-removed :
      {lv : ℕ → ℕ} (s : ℕ)
      → slot_of 3 m.mem f va ≡ some s
      → (present (m.mem s) ≡ true → Held lv m (frame_of (m.mem s)))
      → page_remove (f * 4096) va m ≡ ok tt (removed m s)
  unfolding page_remove translate
  page_remove-removed s e held = elim (Bool-cases (present (m.mem s))) [
    | inr off ↦ rw (page_lookup-translate, e, off)
    | inl on ↦
        rw (page_lookup-translate, e, on, page_decref-dropped (frame_of (m.mem s)) (held on)) refl
  ]

  page_remove-absent : slot_of 3 m.mem f va ≡ none → page_remove (f * 4096) va m ≡ ok tt m
  unfolding page_remove translate
  page_remove-absent e = rw (page_lookup-translate, e)

-- What page_remove leaves behind.
pub record Unmapped (lv : ℕ → ℕ) (m : Machine) (f va : ℕ) (m' : Machine) : Type 0 where
  pub typed : Typed lv m'
  pub gone : translate 3 m'.mem f va ≡ none
  pub contents : (a : ℕ) → lv (a / 4096) ≡ 0 → m'.mem a ≡ m.mem a
  pub elsewhere :
      (g va' : ℕ)
      → lv g ≡ 4
      → slot_of 3 m.mem g va' ≢ slot_of 3 m.mem f va
      → translate 3 m'.mem g va' ≡ translate 3 m.mem g va'
  pub counts :
      (o : ℕ)
      → let this = maps_to o (translate 3 m.mem f va) in
        (m'.ref o ≡ (if this then m.ref o - 1 else m.ref o))
        × (has o m'.free ≡ (if this then m.ref o == 1 else has o m.free))

module _ ⦃q : ListOps⦄ {lv : ℕ → ℕ} {m : Machine} (f va : ℕ) (t : Typed lv m) (lf : lv f ≡ 4)
    (held : HeldAt lv m f va) where
  removed-Unmapped :
      (pt : ℕ)
      → lv pt ≡ 1
      → slot_of 3 m.mem f va ≡ some (entry_at pt (index 0 va))
      → Unmapped lv m f va (removed m (entry_at pt (index 0 va)))
  unfolding translate
  removed-Unmapped pt lp so = elim (Bool-cases (present old)) [
    | inr off ↦ rw off (record {
      typed = t;
      gone = rw (so, off);
      contents = λ a z. refl;
      elsewhere = λ g va' lg ne. refl;
      counts = λ o. rw (so, off) (refl, refl);
    })
    | inl on ↦
        let h = held old (rw so (rw on)) in
        let s = entry_at pt (index 0 va) in
        rw on (record {
          typed =
              write-Typed (dropped-Typed (frame_of old) t h (omega arith)) pt (index 0 va) lp
                (index-lt 0 va) 0 (inr refl);
          gone =
              translate-write_self t pt (index 0 va) lp (index-lt 0 va) 0 3 f va lf so
              ∙ rw present-zero;
          contents = write-contents t pt (index 0 va) lp (index-lt 0 va) 0;
          elsewhere = λ g va' lg ne.
              translate-write_ne t pt (index 0 va) lp (index-lt 0 va) 0 3 g va' lg
                (λ k. ne (k ∙ sym so));
          counts = λ o. rw (so, on) (ground arith, ground (arith, h.taken));
        })
  ]
    where
      old : ℕ
      old = m.mem (entry_at pt (index 0 va))

  -- Let the tables be well-typed with `f` a PML4, and the page mapped at `va`, if any, a data page in
  -- use. Then page_remove does not panic, leaves well-typed tables, ends the translation of the address,
  -- drops the page that was mapped there, and changes no translation by another entry, no other counter
  -- and no word of a page that is no table; the page is freed with its last reference.
  pub page_remove-Unmapped : Yields (λ _ m'. Unmapped lv m f va m') (page_remove (f * 4096) va m)
  page_remove-Unmapped = elim (Option-cases (slot_of 3 m.mem f va)) [
    | inl e ↦ rw (page_remove-absent m f va e) (
        yields (record {
          typed = t;
          gone = unfold translate in rw e;
          contents = λ a z. refl;
          elsewhere = λ g va' lg ne. refl;
          counts = λ o. unfold translate in rw e (refl, refl);
        }))
    | inr (s, e) ↦
        let (pt, lp, es) = slot_of-level 3 f va t lf e in
        rw
          (
            page_remove-removed m f va {lv = lv} s e
                (λ on. held (m.mem s) (unfold translate in rw e (rw on))),
            es,
          )
          (yields (removed-Unmapped pt lp (rw es at e)))
  ]
