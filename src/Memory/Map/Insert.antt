-- ===== src/Memory/Map/Insert.antt =====
-- page_insert: what the address is translated by afterwards, what every other address is, and what
-- happens to the counters.
use ann.Base.{
  suc, ◌/◌, ℕ, ◌+◌, ◌*◌, ◌%◌, ◌^◌, ◌-◌, ◌<◌, Option, none, some, Bool, true, false, ◌≡◌, ◌≢◌, refl,
  if◌then◌else◌, arith, Bool-cases, inl, inr, [], has, ◌==◌, update, ◌∙◌, ap, sym, bit_or, ◌&&◌,
  ◌/=◌, ◌≤◌, length, bit_or_low, bit_or_field, bit_or-lt, bit_or_step,
}
use mathlib.Core.Path.{fun_ext}
use ann.LinkedList.{ListOps}
use ann.Memory.Layout.{present}
use ann.Memory.Layout.Laws.{frame_of, entry_addr_frame, present_mod}
use ann.Memory.Machine.{Machine}
use ann.Memory.Yields.{Yields, yields, Yields-both, after_option}
use ann.Memory.Pages.{page_incref, page2pa}
use ann.Memory.Pages.Laws.{page2pa_lem, dropped}
use ann.Memory.Map.{page_insert, insert_at}
use ann.Memory.Map.Walk.{
  index, index-lt, entry_at, slot_of, present_entry, read_entry, translate, Typed, Extends,
}
use ann.Memory.Map.Create.{mmap_lookup-SlotIn, Origin, was_there, is_new}
use ann.Memory.Map.Stock.{mmap_lookup-Takes}
use ann.Memory.Map.Write.{
  write, write-upper, write-contents, dropped-Typed, Held, write-Typed, slot_of-write,
  translate-write_ne, translate-write_self, slot_of-level, entry_at-injective,
}
use ann.Memory.Map.Tree.{AreRoots, IsTree, IsTree-agree}
use ann.Memory.Map.After.{Differ, After, slot_of-Extends}
use ann.Memory.Map.Remove.{HeldAt, page_remove-removed}

-- The entry that page_insert writes.
abbrev pub mapping : ℕ → ℕ → ℕ
mapping p perm = p * 4096 + bit_or perm 1

mapping_lem :
    (p perm : ℕ) → p < 2 ^ 52 → perm < 4096 → bit_or (bit_or (page2pa p) perm) 1 ≡ mapping p perm
mapping_lem p perm hp hf =
    rw (page2pa_lem p hp, bit_or_field 12 p perm hf) (bit_or_low 12 p perm 1 hf (omega arith))

pub present-mapping : (p perm : ℕ) → perm < 4096 → present (mapping p perm) ≡ true
present-mapping p perm hf =
    ground (arith, present_mod (mapping p perm), bit_or_step perm 1, bit_or-lt 12 perm 1 hf)

pub frame_of-mapping : (p perm : ℕ) → p < 2 ^ 52 → perm < 4096 → frame_of (mapping p perm) ≡ p
frame_of-mapping p perm hp hf = omega (arith, bit_or-lt 12 perm 1 hf (omega arith))

-- The counters after `p` takes the place of what was mapped by the entry `e`: nothing moves if that
-- was `p` itself; otherwise the old page loses a reference and `p` gains one.
abbrev pub counters : (ℕ → ℕ) → Option ℕ → ℕ → ℕ → ℕ
counters ref none p = update ref p ((ref p + 1) % 2 ^ 32)
counters ref (some e) p =
    if frame_of e == p
    then ref
    else update (update ref (frame_of e) (ref (frame_of e) - 1)) p ((ref p + 1) % 2 ^ 32)

-- A page goes to the free list exactly when it was replaced and lost its last reference.
abbrev pub freed : (ℕ → ℕ) → Option ℕ → ℕ → ℕ → Bool
freed ref none p o = false
freed ref (some e) p o = (o == frame_of e) && (frame_of e /= p) && (ref o == 1)

pub record Inserted (lv : ℕ → ℕ) (m : Machine) (f p va perm : ℕ) (m' : Machine) : Type 0 where
  pub here : translate 3 m'.mem f va ≡ some (mapping p perm)
  pub elsewhere :
      (g va' : ℕ)
      → lv g ≡ 4
      → slot_of 3 m'.mem g va' ≢ slot_of 3 m'.mem f va
      → translate 3 m'.mem g va' ≡ translate 3 m.mem g va'
  pub apart :
      (g va' : ℕ)
      → lv g ≡ 4
      → Differ m g va' f va
      → translate 3 m'.mem g va' ≡ translate 3 m.mem g va'
  pub slots_apart :
      (g va' : ℕ) → lv g ≡ 4 → Differ m g va' f va → slot_of 3 m'.mem g va' ≢ slot_of 3 m'.mem f va
  pub counts :
      (o : ℕ)
      → has o m.free ≡ false
      → (m'.ref o ≡ counters m.ref (translate 3 m.mem f va) p o)
        × (has o m'.free ≡ freed m.ref (translate 3 m.mem f va) p o)

abbrev pub Outcome : (ℕ → ℕ) → Machine → ℕ → ℕ → ℕ → ℕ → Bool → Machine → Type 0
Outcome lv m f p va perm true m' = Inserted lv m f p va perm m'
Outcome lv m f p va perm false m' =
    (m'.free ≡ [])
    × ((g va' : ℕ) → lv g ≡ 4 → translate 3 m'.mem g va' ≡ translate 3 m.mem g va')
    × ((o : ℕ) → has o m.free ≡ false → m'.ref o ≡ m.ref o)

abbrev pub Done : (ℕ → ℕ) → Machine → ℕ → ℕ → ℕ → ℕ → Bool → Machine → Type 0
Done lv m f p va perm b m' =
    (lv' : ℕ → ℕ) × Typed lv' m' × Outcome lv m f p va perm b m' × After lv m lv' m'

update-update : (g : ℕ → ℕ) (k v w : ℕ) → update (update g k v) k w ≡ update g k w
update-update g k v w = fun_ext λ j. ground arith

-- The part of page_insert behind the lookup, which has led to entry `index 0 va` of table `pt`.
module _ {lv lv1 : ℕ → ℕ} {m m1 : Machine} (f p va perm pt : ℕ) (lf : lv f ≡ 4) (t0 : Typed lv m)
    (x : Extends lv m lv1 m1) (t : Typed lv1 m1) (lp : lv1 pt ≡ 1)
    (so : slot_of 3 m1.mem f va ≡ some (entry_at pt (index 0 va))) (hp : p < 2 ^ 52)
    (og : Origin lv m m1 f va pt (entry_at pt (index 0 va))) (nonzero : 0 < p) (hf : perm < 4096)
    (held : HeldAt lv m f va) (taken : has p m.free ≡ false)
    (grows : (roots : ℕ → Bool) → AreRoots roots lv → IsTree roots m.mem → IsTree roots m1.mem)
    (stock1 : length m.free ≤ length m1.free + 3) where
  abbrev s : ℕ
  s = entry_at pt (index 0 va)

  abbrev old : ℕ
  old = m1.mem s

  before : translate 3 m.mem f va ≡ present_entry old
  unfolding translate
  before = sym (x.same 3 f va lf) ∙ ap (read_entry m1.mem) so

  old-Held : present old ≡ true → Held lv m (frame_of old)
  old-Held on = held old (before ∙ rw on)

  old-Held1 : present old ≡ true → Held lv1 m1 (frame_of old)
  old-Held1 on =
      let h = old-Held on in
      let o = frame_of old in
      record {
        counted = rw (x.refs o h.taken) h.counted;
        taken = x.shrinks o h.taken;
        data_page = x.data_frames o h.taken h.data_page;
      }

  -- An entry that was reached before `m1` is not in a new table.
  not-new : (g va' : ℕ) → lv g ≡ 4 → slot_of 3 m.mem g va' ≡ some s → lv pt ≢ 0
  not-new g va' lg e z =
      let (pt', l1, es) = slot_of-level 3 g va' t0 lg e in
      let (same, _) =
        entry_at-injective pt pt' (index 0 va) (index 0 va') (index-lt 0 va) (index-lt 0 va') es in
      omega (arith, ap lv same, z, l1)

  slot-apart : (g va' : ℕ) → lv g ≡ 4 → Differ m g va' f va → slot_of 3 m1.mem g va' ≢ some s
  slot-apart g va' lg (inl (s', eg, nf)) k = elim og [
    | was_there same e ↦ nf (e ∙ sym k ∙ slot_of-Extends t0 x 3 g va' s' lg eg)
    | is_new z ↦ not-new g va' lg (eg ∙ sym (slot_of-Extends t0 x 3 g va' s' lg eg) ∙ k) z
  ]
  slot-apart g va' lg (inr (s', ef, ng)) k =
      let same_slot = ef ∙ sym (slot_of-Extends t0 x 3 f va s' lf ef) ∙ so in
      elim og [
        | was_there same e ↦ ng (rw same at k ∙ sym same_slot ∙ ef)
        | is_new z ↦ not-new f va lf same_slot z
      ]

  inserted :
      (m' : Machine)
      → m'.mem ≡ update m1.mem s (mapping p perm)
      → ((o : ℕ)
          → has o m1.free ≡ false
          → (m'.ref o ≡ counters m1.ref (present_entry old) p o)
            × (has o m'.free ≡ freed m1.ref (present_entry old) p o))
      → Inserted lv m f p va perm m'
  inserted m' e counts = record {
    here =
        rw
          (
            e,
            translate-write_self t pt (index 0 va) lp (index-lt 0 va) (mapping p perm) 3 f va
                (x.keeps f 3 lf) so,
          )
          (rw (present-mapping p perm hf));
    elsewhere = λ g va' lg ne.
        let w = slot_of-write t pt (index 0 va) lp (index-lt 0 va) (mapping p perm) 3 in
        let ne1 : slot_of 3 m1.mem g va' ≢ some s =
          λ k. ne (rw (e, w g va' (x.keeps g 3 lg), w f va (x.keeps f 3 lf)) (k ∙ sym so)) in
        rw e (
          translate-write_ne t pt (index 0 va) lp (index-lt 0 va) (mapping p perm) 3 g va'
            (x.keeps g 3 lg) ne1)
        ∙ x.same 3 g va' lg;
    apart = λ g va' lg d.
        rw e (
          translate-write_ne t pt (index 0 va) lp (index-lt 0 va) (mapping p perm) 3 g va'
            (x.keeps g 3 lg) (slot-apart g va' lg d))
        ∙ x.same 3 g va' lg;
    slots_apart = λ g va' lg d.
        let w = slot_of-write t pt (index 0 va) lp (index-lt 0 va) (mapping p perm) 3 in
        rw (e, w g va' (x.keeps g 3 lg), w f va (x.keeps f 3 lf), so) (slot-apart g va' lg d);
    counts = λ o out. rw before (elim (Bool-cases (present old)) [
      | inl on ↦ ground (
        arith,
        counts o (x.shrinks o out),
        x.refs o out,
        x.refs p taken,
        x.refs (frame_of old),
        old-Held on,
      )
      | inr off ↦ ground (arith, counts o (x.shrinks o out), x.refs o out, x.refs p taken)
    ]);
  }

  abbrev new_mem : ℕ → ℕ
  new_mem = update m1.mem s (mapping p perm)

  -- The same page again: only the flags change.
  remapped : Machine
  remapped = record m1 { mem = new_mem }

  added : Machine
  added = record m1 { mem = new_mem; ref = update m1.ref p ((m1.ref p + 1) % 2 ^ 32) }

  abbrev fewer : Machine
  fewer = dropped m1 (frame_of old)

  replaced : Machine
  replaced = record fewer { mem = new_mem; ref = update fewer.ref p ((fewer.ref p + 1) % 2 ^ 32) }

  written-Typed : Typed lv1 (write m1 s (mapping p perm))
  written-Typed =
      write-Typed t pt (index 0 va) lp (index-lt 0 va) (mapping p perm)
        (inl (present-mapping p perm hf))

  -- Counters and free list do not matter to the tables.
  other_fields : (m' : Machine) → m'.mem ≡ new_mem → m'.free ≡ m1.free → Typed lv1 m'
  other_fields m' e k = record {
    distinct = rw k t.distinct;
    bounded = λ r h. t.bounded r (rw k at h);
    spare = λ r h. t.spare r (rw k at h);
    linked = rw e written-Typed.linked;
    blank = rw e written-Typed.blank;
  }

  remapped-Inserted : present old ≡ true → frame_of old ≡ p → Inserted lv m f p va perm remapped
  unfolding remapped
  remapped-Inserted on same = inserted remapped refl λ o out. rw on (ground arith)

  added-Inserted : present old ≡ false → Inserted lv m f p va perm added
  unfolding added
  added-Inserted off = inserted added refl λ o out. rw off (ground arith)

  replaced-Inserted : present old ≡ true → frame_of old ≢ p → Inserted lv m f p va perm replaced
  unfolding replaced
  replaced-Inserted on differs =
      inserted replaced refl λ o out. rw on (ground (arith, old-Held1 on))

  replaced-Typed : present old ≡ true → Typed lv1 replaced
  unfolding replaced
  replaced-Typed on =
      let d = dropped-Typed (frame_of old) t (old-Held1 on) (omega arith) in
      record {
        distinct = d.distinct;
        bounded = d.bounded;
        spare = d.spare;
        linked = written-Typed.linked;
        blank = written-Typed.blank;
      }

  dropped-free : (o : ℕ) → length m1.free ≤ length ((dropped m1 o).free)
  dropped-free o = ground arith

  written-After :
      (m' : Machine) → m'.mem ≡ new_mem → length m1.free ≤ length m'.free → After lv m lv1 m'
  written-After m' e more = record {
    keeps = x.keeps;
    slots = λ n g va' r lg k.
        rw
          (
            e,
            slot_of-write t pt (index 0 va) lp (index-lt 0 va) (mapping p perm) n g va'
                (x.keeps g n lg),
          )
          (slot_of-Extends t0 x n g va' r lg k);
    data_frames = x.data_frames;
    entries = λ g n i lg hi on.
        rw e (
          write-upper t pt (index 0 va) lp (index-lt 0 va) (mapping p perm) g n i
            (x.keeps g (suc n) lg) hi)
        ∙ x.entries g n i lg hi on;
    trees = λ roots r tree.
        IsTree-agree t m'.mem
          (λ g n i lg hi.
            rw e (write-upper t pt (index 0 va) lp (index-lt 0 va) (mapping p perm) g n i lg hi))
          roots (λ y h. x.keeps y 3 (r y h)) (grows roots r tree);
    contents = λ a z out.
        rw e (
          write-contents t pt (index 0 va) lp (index-lt 0 va) (mapping p perm) a
            (x.data_frames (a / 4096) out z))
        ∙ x.others a z out;
    stock = omega (arith, stock1, more);
  }

  insert_at-Done :
      ⦃q : ListOps⦄ → Yields (Done lv m f p va perm) (insert_at (f * 4096) p va perm s m1)
  unfolding insert_at page_incref remapped added replaced
  insert_at-Done =
      rw (mapping_lem p perm hp hf, entry_addr_frame old, page2pa_lem p hp)
        (elim (Bool-cases (present old)) [
          | inr off ↦
              let zero_old = t.blank pt 0 (index 0 va) lp (index-lt 0 va) off in
              let differs : (frame_of old * 4096 == p * 4096) ≡ false = ground arith in
              rw (differs, page_remove-removed m1 f va {lv = lv1} s so (λ on. cc), off)
                (yields (
                  lv1,
                  other_fields added refl refl,
                  added-Inserted off,
                  written-After added refl (omega arith),
                ))
          | inl on ↦ elim (Bool-cases (frame_of old * 4096 == p * 4096)) [
            | inl same ↦ rw same (
                yields (
                  lv1,
                  other_fields remapped refl refl,
                  remapped-Inserted on (ground arith),
                  written-After remapped refl (omega arith),
                ))
            | inr differs ↦
                rw
                  (
                    differs,
                    page_remove-removed m1 f va s so old-Held1,
                    on,
                    update-update m1.mem s 0 (mapping p perm),
                  )
                  (yields (
                    lv1,
                    replaced-Typed on,
                    replaced-Inserted on (ground arith),
                    written-After replaced refl (dropped-free (frame_of old)),
                  ))
          ]
        ])

module _ ⦃q : ListOps⦄ {lv : ℕ → ℕ} {m : Machine} (f p va perm : ℕ) (t : Typed lv m) (lf : lv f ≡ 4)
    (hp : p < 2 ^ 52) (nonzero : 0 < p) (hf : perm < 4096) (held : HeldAt lv m f va)
    (taken : has p m.free ≡ false) where
  -- Let the tables be well-typed with `f` a PML4, `perm` below 4096, `p` a page below 2 ^ 52 that is
  -- not page 0 and not free, and the page mapped at `va` before, if any, a data page in use. Then
  -- page_insert does not panic and leaves well-typed tables. With the result 0 the address is translated
  -- to `p` with the given flags; every address with another entry, before or after, is translated as
  -- before, in every address space; and the counters and the free list account for the page that was
  -- replaced. With the result -1 no free page is left, and no translation and no counter in use has
  -- changed. In both cases tables stay tables, entries that were there stay where they are, and pages in
  -- use that are no tables keep what they hold; and at most three free pages are taken for tables.
  pub page_insert-Done : Yields (Done lv m f p va perm) (page_insert (f * 4096) p va perm m)
  unfolding page_insert
  page_insert-Done =
      after_option
        (Yields-both (mmap_lookup-SlotIn f va t lf)
          (mmap_lookup-Takes (f * 4096) va m (t.distinct, λ r h. t.bounded r h)))
        (λ m1 ((lv1, g, e), (_, few)). yields (
          lv1,
          g.typed,
          (e, λ h va' lh. g.extends.same 3 h va' lh, g.extends.refs),
          record {
            keeps = g.extends.keeps;
            slots = slot_of-Extends t g.extends;
            data_frames = g.extends.data_frames;
            entries = g.extends.entries;
            trees = g.trees;
            contents = g.extends.others;
            stock = few;
          },
        ))
        λ a m1 ((lv1, g, (pt, lp, ea, so, og)), (_, few)). rw ea (
          insert_at-Done f p va perm pt lf t g.extends g.typed lp (rw ea at so) hp (rw ea at og)
            nonzero hf held taken g.trees few)
