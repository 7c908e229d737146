-- ===== src/Task/Load/Segment.antt =====
-- task_load_segment as a whole: what it writes stays within the pages that it has mapped.
use ann.Base.{
  ℕ, zero, suc, ◌+◌, ◌-◌, ◌*◌, ◌/◌, ◌%◌, ◌^◌, ◌<◌, ◌≤◌, Option, none, some, Bool, true, false, ◌≡◌,
  ◌≢◌, refl, arith, if◌then◌else◌, has, ap, sym, ◌∙◌, subst,
}
use ann.LinkedList.{ListOps}
use ann.CString.{Bytes}
use ann.Memory.Layout.{u64, page_size, round_down, round_up}
use ann.Memory.Layout.Laws.{frame_of}
use ann.Memory.Machine.{Machine, Cmd, pure, ◌>>◌}
use ann.Memory.Yields.{Yields, yields, after, Yields-weaken}
use ann.Memory.Map.Walk.{index, entry_at, slot_of, translate, read_entry, Typed}
use ann.Memory.Map.Agree.{translate-agree, Typed-agree}
use ann.Memory.Map.Tree.{IsTree-agree}
use ann.Memory.Map.UserPage.{user_pages}
use ann.Memory.Map.Insert.{mapping, frame_of-mapping}
use ann.Task.Load.{
  Elf64ProgramHeader, user_page, write_byte, write_bytes, map_segment, task_load_segment,
}
use ann.Task.Load.NewPages.{Now, NewPages, segment}
use ann.Task.Load.Pages.{Loaded, map_segment-Loaded}

-- No table is written to, and no page changes hands.
pub record SameTables (lv : ℕ → ℕ) (m m' : Machine) : Type 0 where
  pub tables : (g n i : ℕ) → lv g ≡ suc n → i < 512 → m'.mem (entry_at g i) ≡ m.mem (entry_at g i)
  pub free_lem : m'.free ≡ m.free
  pub ref_lem : m'.ref ≡ m.ref

pub SameTables-trans :
    {lv : ℕ → ℕ} {m m1 m2 : Machine} → SameTables lv m m1 → SameTables lv m1 m2 → SameTables lv m m2
SameTables-trans a b = record {
  tables = λ g n i lg hi. b.tables g n i lg hi ∙ a.tables g n i lg hi;
  free_lem = b.free_lem ∙ a.free_lem;
  ref_lem = b.ref_lem ∙ a.ref_lem;
}

-- The kernel can write to the address, and what it writes is in no table.
abbrev pub Writable : (ℕ → ℕ) → (ℕ → ℕ) → ℕ → ℕ → Type 0
Writable lv mem f va = (e : ℕ) × (translate 3 mem f va ≡ some e) × (lv (frame_of e) ≡ 0)

module _ {lv : ℕ → ℕ} (f : ℕ) (lf : lv f ≡ 4) where
  write_byte-SameTables :
      (m : Machine) (va b : ℕ)
      → Writable lv m.mem f va
      → Yields
          (λ _ m'. (SameTables lv m m') × (m' ≡ record m { mem = m'.mem }))
          (write_byte (f * 4096) va b m)
  unfolding write_byte
  write_byte-SameTables m va b (e, at, z) =
      let own : f * 4096 / page_size ≡ f = omega arith in
      rw (write_byte, own, at)
        (yields (
          record {
            tables = λ g n i lg hi.
                let there : g ≢ frame_of e = λ k. omega (arith, lg, z, ap lv k) in
                ground (arith, there);
            free_lem = refl;
            ref_lem = refl;
          },
          refl,
        ))

  pub write_bytes-SameTables :
      (n i : ℕ) (m : Machine) (va : ℕ) (src : Bytes)
      → Typed lv m
      → ((j : ℕ) → i ≤ j → j < i + n → Writable lv m.mem f (u64 (va + j)))
      → Yields (λ _ m'. (Typed lv m') × SameTables lv m m') (write_bytes n i (f * 4096) va src m)
  unfolding write_bytes
  write_bytes-SameTables zero i m va src t writable =
      yields (t, record { tables = λ g n j lg hj. refl; free_lem = refl; ref_lem = refl })
  write_bytes-SameTables (suc n) i m va src t writable =
      after
        (write_byte-SameTables m (u64 (va + i)) (src i) (writable i (omega arith) (omega arith)))
        λ _ m1 (same, shape).
          let t1 : Typed lv m1 =
            subst (λ x. Typed lv x) (sym shape) (Typed-agree t m1.mem same.tables) in
          Yields-weaken
            (write_bytes-SameTables n (i + 1) m1 va src t1 (λ j a b.
              let (e, at, z) = writable j (omega arith) (omega arith) in
              (e, translate-agree t m1.mem same.tables 3 f (u64 (va + j)) lf ∙ at, z)))
            (λ _ m2 (t2, s2). (t2, SameTables-trans same s2))

-- An address is translated as its page is.
pub slot_of-page :
    (n : ℕ) (mem : ℕ → ℕ) (f va : ℕ)
    → n ≤ 3
    → slot_of n mem f va ≡ slot_of n mem f (va / 4096 * 4096)
unfolding slot_of
slot_of-page zero mem f va h =
    let same : index 0 va ≡ index 0 (va / 4096 * 4096) = omega arith in rw same refl
slot_of-page (suc n) mem f va h =
    let same = index-page (suc n) va h in rw (same, slot_of-page n mem _ va (omega arith)) refl
  where
    index-page : (k va : ℕ) → k ≤ 3 → index k va ≡ index k (va / 4096 * 4096)
    index-page zero va h = omega arith
    index-page (suc zero) va h = omega arith
    index-page (suc (suc zero)) va h = omega arith
    index-page (suc (suc (suc zero))) va h = omega arith
    index-page (suc (suc (suc (suc k)))) va h = absurd (omega arith)

module _ (roots : ℕ → Bool) (f : ℕ) (rf : roots f ≡ true) where
  pub Now-same :
      {maps : ℕ → ℕ → Option ℕ} {lv : ℕ → ℕ} {m m' : Machine}
      → Now roots maps lv m
      → Typed lv m'
      → SameTables lv m m'
      → Now roots maps lv m'
  Now-same {m'} s t same = record {
    typed = t;
    are_roots = s.are_roots;
    tree =
        IsTree-agree s.typed m'.mem (λ g n i lg hi. same.tables g (suc n) i lg hi) roots s.are_roots
          s.tree;
    pages = λ x r rx hr.
        translate-agree s.typed m'.mem same.tables 3 x (r * 4096) (s.are_roots x rx)
        ∙ s.pages x r rx hr;
    counts = λ o h. refl;
    taken = λ o h. h;
    data_frames = λ o h z. z;
  }

  NewPages-same :
      {lv lv' : ℕ → ℕ} {m m1 m' : Machine} {frame : ℕ → ℕ} {a n : ℕ}
      → NewPages lv m frame a n lv' m1
      → SameTables lv' m1 m'
      → NewPages lv m frame a n lv' m'
  NewPages-same y same = record {
    data_pages = y.data_pages;
    data_frames = y.data_frames;
    was_free = y.was_free;
    taken = λ r h k. rw same.free_lem (y.taken r h k);
    counts = λ r h k. rw same.ref_lem (y.counts r h k);
    differ = y.differ;
    others = λ o h. rw (same.free_lem, same.ref_lem) (y.others o h);
  }

  module _ ⦃q : ListOps⦄ (lv : ℕ → ℕ) (m : Machine) (maps : ℕ → ℕ → Option ℕ)
      (s : Now roots maps lv m) (h0 : has 0 m.free ≡ false) (binary : Bytes)
      (ph : Elf64ProgramHeader) (aligned : ph.p_va % 4096 ≡ 0)
      (fits : ph.p_va + ph.p_memsz ≤ user_pages * 4096) (small : ph.p_filesz ≤ ph.p_memsz)
      (empty : (r : ℕ)
        → ph.p_va / 4096 ≤ r
        → r < ph.p_va / 4096 + (ph.p_memsz + 4095) / 4096
        → maps f r ≡ none) where
    abbrev c : ℕ
    c = ph.p_va / 4096

    abbrev n : ℕ
    n = (ph.p_memsz + 4095) / 4096

    from : round_down ph.p_va page_size ≡ c * 4096
    unfolding round_down
    from = omega arith

    rounds : round_up ph.p_memsz page_size / page_size ≡ n
    unfolding round_up round_down
    rounds = omega arith

    mapped : Yields (Loaded roots f rf maps lv m c n) (map_segment n 0 (f * 4096) (c * 4096) m)
    mapped =
        let first : c + 0 ≡ c = omega arith in
        subst
          (λ a. Yields (Loaded roots f rf maps lv m a n) (map_segment n 0 (f * 4096) (c * 4096) m))
          first
          (map_segment-Loaded roots f rf n c 0 lv m maps s h0 (omega arith)
            (λ r h k. empty r (omega arith) (omega arith)))

    module _ (frame lv1 : ℕ → ℕ) (m1 : Machine) (s1 : Now roots (segment maps frame f c n) lv1 m1)
        (y : NewPages lv m frame c n lv1 m1) where
      writable : (j : ℕ) → j < ph.p_memsz → Writable lv1 m1.mem f (ph.p_va + j)
      unfolding translate
      writable j h =
          let r = (ph.p_va + j) / 4096 in
          let low : c ≤ r = omega arith in
          let high : r < c + n = omega arith in
          let p = frame r in
          let bound = s.typed.bounded p (y.was_free r low high) in
          let here : segment maps frame f c n f r ≡ some (mapping p user_page) = ground arith in
          (
            mapping p user_page,
            ap (read_entry m1.mem) (slot_of-page 3 m1.mem f (ph.p_va + j) (omega arith))
                ∙ s1.pages f r rf (omega arith)
                ∙ here,
            rw (frame_of-mapping p user_page bound (omega arith)) (y.data_pages r low high),
          )

      -- The two writes of task_load_segment
      abbrev writes : Cmd (Unit {0})
      writes =
          write_bytes ph.p_filesz 0 (f * 4096) ph.p_va (λ i. binary (ph.p_offset + i))
          >> write_bytes (u64 (ph.p_memsz + 2 ^ 64 - ph.p_filesz)) 0 (f * 4096)
              (u64 (ph.p_va + ph.p_filesz)) (λ i. 0)

      at_byte : (a j : ℕ) → j < ph.p_memsz → a ≡ ph.p_va + j → Writable lv1 m1.mem f a
      at_byte a j h e = subst (Writable lv1 m1.mem f) (sym e) (writable j h)

      written : Yields (λ _ m'. (Typed lv1 m') × SameTables lv1 m1 m') (writes m1)
      written =
          let lf = s1.are_roots f rf in
          after
            (write_bytes-SameTables f lf ph.p_filesz 0 m1 ph.p_va (λ i. binary (ph.p_offset + i))
              s1.typed (λ j a b. at_byte (u64 (ph.p_va + j)) j (omega arith) (omega arith)))
            λ _ m2 (t2, same2).
              Yields-weaken
                (write_bytes-SameTables f lf (u64 (ph.p_memsz + 2 ^ 64 - ph.p_filesz)) 0 m2
                  (u64 (ph.p_va + ph.p_filesz)) (λ i. 0) t2
                  (λ j a b.
                    let va = u64 (u64 (ph.p_va + ph.p_filesz) + j) in
                    let (e, at, z) = at_byte va (ph.p_filesz + j) (omega arith) (omega arith) in
                    (e, translate-agree s1.typed m2.mem same2.tables 3 f va lf ∙ at, z)))
                (λ _ m3 (t3, same3). (t3, SameTables-trans same2 same3))

    finish :
        (b : Bool) (m1 : Machine)
        → Loaded roots f rf maps lv m c n b m1
        → Yields (Loaded roots f rf maps lv m c n) (
            (if b
                then write_bytes ph.p_filesz 0 (f * 4096) ph.p_va (λ i. binary (ph.p_offset + i))
                  >> write_bytes
                      (u64 (ph.p_memsz + 2 ^ 64 - ph.p_filesz))
                      0
                      (f * 4096)
                      (u64 (ph.p_va + ph.p_filesz))
                      (λ i. 0)
                  >> pure true
                else pure false)
              m1)
    finish true m1 (frame, lv1, s1, y) =
        after (written frame lv1 m1 s1 y)
          λ _ m3 (t3, same). yields (frame, lv1, Now-same s1 t3 same, NewPages-same y same)
    finish false m1 l = yields l

    -- Let `maps` say how the user pages of the PML4s `roots`, with `f` among them, are mapped, in well-typed
    -- tables where no table of the user part is reached in two ways; let page 0 not be free; and let the
    -- segment start at a multiple of the page size, end in the user part, have no more bytes in the file
    -- than in memory, and lie in pages of `f` that are not mapped. Then task_load_segment does not panic:
    -- every byte that it writes is in a page that it has mapped. With the result 0 each page of the
    -- segment is mapped to a page of its own that was free, for the user and writable, with the counter
    -- 1; every other user page of every PML4 is mapped as before; and pages in use keep their counters
    -- and stay in use. With the result -1 no page is free, and all other user pages are mapped as before.
    pub task_load_segment-Loaded :
        Yields (Loaded roots f rf maps lv m c n) (task_load_segment (f * 4096) binary ph m)
    unfolding task_load_segment
    task_load_segment-Loaded = rw (task_load_segment, from, rounds) (after mapped finish)
