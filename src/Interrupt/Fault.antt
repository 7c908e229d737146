-- ===== src/Interrupt/Fault.antt =====
-- page_fault_handler of kernel/interrupt/interrupt.c: a write to a page that is marked for copy on
-- write.
use ann.Base.{
  ℕ, ◌+◌, ◌-◌, ◌*◌, ◌/◌, ◌^◌, ◌<◌, none, some, Bool, true, false, not, ◌≡◌, ◌≢◌, refl, arith, ap,
  ◌∙◌, sym, subst, List, List-cases, [], ◌∷◌, has, bit_and, bit_or, bit_and_mask, bit_or-lt, update,
  ◌==◌, if◌then◌else◌, inl, inr, ◌≤◌, length,
}
use ann.LinkedList.{ListOps}
use ann.Memory.Layout.{page_size, round_down, pte_w, pte_cow, pte_flags_mask, kernel_temp}
use ann.Memory.Layout.Laws.{frame_of}
use ann.Memory.Machine.{Machine, ok, pure, load, ◌>>=◌, ◌>>◌}
use ann.Memory.Yields.{Yields, yields, after}
use ann.Memory.Pages.Laws.{page_alloc-cons, page_alloc-nil}
use ann.Memory.Map.{page_insert, page_remove}
use ann.Memory.Map.Walk.{slot_of, translate, Typed}
use ann.Memory.Map.Write.{Held}
use ann.Memory.Map.After.{After, Differ-none, translate-slot_of}
use ann.Memory.Map.Remove.{HeldAt, page_lookup-translate, Unmapped, page_remove-Unmapped}
use ann.Memory.Map.Insert.{Inserted, Done, mapping, frame_of-mapping, page_insert-Done}
use ann.Interrupt.{copy_page, unshare, resolve_fault, error_code_r_w}
use ann.Interrupt.Copy.{
  slot_of-round_down, translate-round_down, copied, copied-there, copied-elsewhere, copied-Typed,
  copied-slot_of, copied-translate, copy_page-copied,
}

-- The flags of the page of its own: those of the shared page, and the write flag.
abbrev pub own_flags : ℕ → ℕ
own_flags e = bit_or (bit_and e pte_flags_mask) pte_w

own_flags-lt : (e : ℕ) → own_flags e < 4096
own_flags-lt e =
    bit_or-lt 12 (bit_and e pte_flags_mask) 2 (rw (bit_and_mask 12 e) (omega arith)) (omega arith)

-- What is mapped at `va` by entry `e`, shared, is now a page of its own, page `new`.
pub record Unshared (lv : ℕ → ℕ) (m : Machine) (f va e new : ℕ) (m' : Machine) : Type 0 where
  pub typed : (lv' : ℕ → ℕ) × Typed lv' m'
  pub fresh : has new m.free ≡ true
  pub here : translate 3 m'.mem f va ≡ some (mapping new (own_flags e))
  pub same_words : (i : ℕ) → i < 4096 → m'.mem (new * 4096 + i) ≡ m.mem (frame_of e * 4096 + i)
  pub contents : (a : ℕ) → lv (a / 4096) ≡ 0 → has (a / 4096) m.free ≡ false → m'.mem a ≡ m.mem a
  pub temporary : translate 3 m'.mem f kernel_temp ≡ none
  pub others :
      (g va' e' : ℕ)
      → lv g ≡ 4
      → translate 3 m.mem g va' ≡ some e'
      → slot_of 3 m.mem g va' ≢ slot_of 3 m.mem f va
      → translate 3 m'.mem g va' ≡ some e'
  pub old_count : m'.ref (frame_of e) ≡ m.ref (frame_of e) - 1
  pub new_count : m'.ref new ≡ 1

-- The label `fail` is reached: no memory is left, and all that was mapped is so still at that point.
pub record GivesUp (lv : ℕ → ℕ) (m : Machine) (m' : Machine) : Type 0 where
  pub full : m'.free ≡ []
  pub few : length m.free ≤ 7
  pub stays :
      (g va' e' : ℕ)
      → lv g ≡ 4
      → translate 3 m.mem g va' ≡ some e'
      → translate 3 m'.mem g va' ≡ some e'

abbrev pub Resolved : (ℕ → ℕ) → Machine → (f va e : ℕ) → Bool → Machine → Type 0
Resolved lv m f va e true m' = (new : ℕ) × Unshared lv m f va e new m'
Resolved lv m f va e false m' = GivesUp lv m m'

abbrev allocated : Machine → ℕ → List ℕ → Machine
allocated m new rest = record m { free = rest; ref = update m.ref new 0 }

module _ ⦃q : ListOps⦄ {lv : ℕ → ℕ} {m : Machine} (f va e : ℕ) (t : Typed lv m) (lf : lv f ≡ 4)
    (mapped : translate 3 m.mem f va ≡ some e) (held : Held lv m (frame_of e))
    (no_temp : translate 3 m.mem f kernel_temp ≡ none) (not_zero : has 0 m.free ≡ false) where
  module _ (new : ℕ) (rest : List ℕ) (pages : m.free ≡ new ∷ rest) where
    abbrev m0 : Machine
    m0 = allocated m new rest

    abbrev fl : ℕ
    fl = own_flags e

    allocated-Typed : Typed lv m0
    allocated-Typed = record {
      distinct = (rw pages at t.distinct).1;
      bounded = λ p h. t.bounded p (rw pages (ground (arith, h)));
      spare = λ p h. t.spare p (rw pages (ground (arith, h)));
      linked = t.linked;
      blank = t.blank;
    }

    fresh_page : has new m.free ≡ true
    fresh_page = rw pages (ground arith)

    new-positive : 0 < new
    new-positive = ground (arith, not_zero, pages)

    new-bounded : new < 2 ^ 52
    new-bounded = t.bounded new fresh_page

    new-spare : lv new ≡ 0
    new-spare = t.spare new fresh_page

    new-taken : has new rest ≡ false
    new-taken = (rw pages at t.distinct).0

    still_taken : (o : ℕ) → has o m.free ≡ false → has o rest ≡ false
    still_taken o h = ground (arith, rw pages at h)

    not_new : (o : ℕ) → has o m.free ≡ false → o ≢ new
    not_new o h k = cc (fresh_page, h, ap (λ (x : ℕ). has x m.free) k)

    -- The new page is mapped at the temporary address.
    module _ {lv1 : ℕ → ℕ} {m1 : Machine} (t1 : Typed lv1 m1)
        (i : Inserted lv m0 f new kernel_temp fl m1) (a : After lv m0 lv1 m1) where
      abbrev words2 : ℕ → ℕ
      words2 = copied m1.mem new (frame_of e)

      abbrev m2 : Machine
      m2 = record m1 { mem = words2 }

      frame_of-temp : frame_of (mapping new fl) ≡ new
      frame_of-temp = frame_of-mapping new fl new-bounded (own_flags-lt e)

      va-first : translate 3 m1.mem f va ≡ some e
      va-first = i.apart f va lf (Differ-none m0 f f va kernel_temp e mapped no_temp) ∙ mapped

      new-data : lv1 new ≡ 0
      new-data = a.data_frames new new-taken new-spare

      lf1 : lv1 f ≡ 4
      lf1 = a.keeps f 3 lf

      copy-lem : copy_page f kernel_temp (round_down va page_size) m1 ≡ ok tt m2
      copy-lem =
          subst
            (λ d.
              copy_page f kernel_temp (round_down va page_size) m1
              ≡ ok tt (record m1 { mem = copied m1.mem d (frame_of e) }))
            frame_of-temp
            (copy_page-copied m1 f kernel_temp (round_down va page_size) (mapping new fl) e i.here
              (translate-round_down m1.mem f va ∙ va-first))

      typed2 : Typed lv1 m2
      typed2 = copied-Typed new (frame_of e) t1 new-data

      same2 : (g va' : ℕ) → lv g ≡ 4 → translate 3 words2 g va' ≡ translate 3 m1.mem g va'
      same2 g va' lg = copied-translate new (frame_of e) t1 new-data g va' (a.keeps g 3 lg)

      slots2 :
          (g va' s : ℕ)
          → lv g ≡ 4
          → slot_of 3 m.mem g va' ≡ some s
          → slot_of 3 words2 g va' ≡ some s
      slots2 g va' s lg k =
          copied-slot_of new (frame_of e) t1 new-data g va' (a.keeps g 3 lg)
          ∙ a.slots 3 g va' s lg k

      entry2 : (s : ℕ) → slot_of 3 m.mem f va ≡ some s → words2 s ≡ e
      entry2 s k =
          let (s', es, now, _) = translate-slot_of m2 f va e (same2 f va lf ∙ va-first) in
          let same : s' ≡ s = cc (es, slots2 f va s lf k) in rw same at now

      old1 : m1.ref (frame_of e) ≡ m.ref (frame_of e)
      old1 =
          (i.counts (frame_of e) (still_taken (frame_of e) held.taken)).0
          ∙ rw no_temp (ground (arith, not_new (frame_of e) held.taken))

      old_listed1 : has (frame_of e) m1.free ≡ false
      old_listed1 =
          (i.counts (frame_of e) (still_taken (frame_of e) held.taken)).1 ∙ rw no_temp refl

      new1 : m1.ref new ≡ 1
      new1 = (i.counts new new-taken).0 ∙ rw no_temp (ground arith)

      new_listed1 : has new m1.free ≡ false
      new_listed1 = (i.counts new new-taken).1 ∙ rw no_temp refl

      Held2 : HeldAt lv1 m2 f (round_down va page_size)
      Held2 e' k =
          let same : e ≡ e' = cc (translate-round_down words2 f va, same2 f va lf, va-first, k) in
          subst (λ x. Held lv1 m2 (frame_of x)) same
            (record {
              counted = rw old1 held.counted;
              taken = old_listed1;
              data_page =
                  a.data_frames (frame_of e) (still_taken (frame_of e) held.taken) held.data_page;
            })

      second :
          Yields
            (Done lv1 m2 f new (round_down va page_size) fl)
            (page_insert (f * 4096) new (round_down va page_size) fl m2)
      second =
          page_insert-Done f new (round_down va page_size) fl typed2 lf1 new-bounded new-positive
            (own_flags-lt e) Held2 new_listed1

      -- An address that was mapped has not the entry of the temporary address.
      slot_apart1 :
          (g va' e' : ℕ)
          → lv g ≡ 4
          → translate 3 m.mem g va' ≡ some e'
          → slot_of 3 words2 g va' ≢ slot_of 3 words2 f kernel_temp
      slot_apart1 g va' e' lg h =
          rw
            (
              copied-slot_of new (frame_of e) t1 new-data g va' (a.keeps g 3 lg),
              copied-slot_of new (frame_of e) t1 new-data f kernel_temp lf1,
            )
            (i.slots_apart g va' lg (Differ-none m0 g f va' kernel_temp e' h no_temp))

      -- The new page is mapped at the address of the fault too.
      module _ {lv3 : ℕ → ℕ} {m3 : Machine} (t3 : Typed lv3 m3)
          (j : Inserted lv1 m2 f new (round_down va page_size) fl m3)
          (b : After lv1 m2 lv3 m3) where
        here3 : translate 3 m3.mem f va ≡ some (mapping new fl)
        here3 = sym (translate-round_down m3.mem f va) ∙ j.here

        slot-temp : (s : ℕ) × (slot_of 3 words2 f kernel_temp ≡ some s)
        slot-temp =
            let (s, es, _, _) =
              translate-slot_of m2 f kernel_temp (mapping new fl)
                (same2 f kernel_temp lf ∙ i.here) in
            (s, es)

        temp3 : translate 3 m3.mem f kernel_temp ≡ some (mapping new fl)
        temp3 =
            let (s, es) = slot-temp in
            j.apart f kernel_temp lf1 (
              inl (
                s,
                es,
                λ k.
                    slot_apart1 f va e lf mapped
                      (sym (slot_of-round_down words2 f va) ∙ k ∙ sym es),
              ))
            ∙ same2 f kernel_temp lf
            ∙ i.here

        others3 :
            (g va' e' : ℕ)
            → lv g ≡ 4
            → translate 3 m.mem g va' ≡ some e'
            → slot_of 3 m.mem g va' ≢ slot_of 3 m.mem f va
            → translate 3 m3.mem g va' ≡ some e'
        others3 g va' e' lg h ne =
            let (s', es', _, _) = translate-slot_of m g va' e' h in
            let (s, es, _, _) = translate-slot_of m f va e mapped in
            j.apart g va' (a.keeps g 3 lg) (
              inl (
                s',
                slots2 g va' s' lg es',
                λ k. ne (cc (es', es, slots2 f va s lf es, k, slot_of-round_down words2 f va)),
              ))
            ∙ same2 g va' lg
            ∙ i.apart g va' lg (Differ-none m0 g f va' kernel_temp e' h no_temp)
            ∙ h

        apart3 :
            (g va' e' : ℕ)
            → lv g ≡ 4
            → translate 3 m.mem g va' ≡ some e'
            → slot_of 3 m3.mem g va' ≢ slot_of 3 m3.mem f kernel_temp
        apart3 g va' e' lg h k =
            let (s', es', _, _) = translate-slot_of m g va' e' h in
            let (st, et) = slot-temp in
            let now = slots2 g va' s' lg es' in
            slot_apart1 g va' e' lg h (
              cc (
                now,
                et,
                k,
                b.slots 3 g va' s' (a.keeps g 3 lg) now,
                b.slots 3 f kernel_temp st lf1 et,
              ))

        replaced_entry : translate 3 words2 f (round_down va page_size) ≡ some e
        replaced_entry = translate-round_down words2 f va ∙ same2 f va lf ∙ va-first

        old3 : m3.ref (frame_of e) ≡ m.ref (frame_of e) - 1
        old3 =
            (j.counts (frame_of e) old_listed1).0
            ∙ rw replaced_entry (ground (arith, old1, not_new (frame_of e) held.taken))

        new3 : m3.ref new ≡ 2
        new3 =
            (j.counts new new_listed1).0
            ∙ rw replaced_entry (ground (arith, new1, not_new (frame_of e) held.taken))

        new_listed3 : has new m3.free ≡ false
        new_listed3 =
            (j.counts new new_listed1).1
            ∙ rw replaced_entry (ground (arith, not_new (frame_of e) held.taken))

        new-data3 : lv3 new ≡ 0
        new-data3 = b.data_frames new new_listed1 new-data

        Held3 : HeldAt lv3 m3 f kernel_temp
        Held3 e' k =
            let same : frame_of e' ≡ new = cc (temp3, k, frame_of-temp) in
            rw same
              (record { counted = omega (arith, new3); taken = new_listed3; data_page = new-data3 })

        listed1 : (o : ℕ) → has o m.free ≡ false → has o m1.free ≡ false
        listed1 o out = (i.counts o (still_taken o out)).1 ∙ rw no_temp refl

        final : (m4 : Machine) → Unmapped lv3 m3 f kernel_temp m4 → Unshared lv m f va e new m4
        final m4 u = record {
          typed = (lv3, u.typed);
          fresh = fresh_page;
          here = u.elsewhere f va (b.keeps f 3 lf1) (apart3 f va e lf mapped) ∙ here3;
          same_words = λ n hn.
              let in_new : (new * 4096 + n) / 4096 ≡ new = omega arith in
              let in_old : (frame_of e * 4096 + n) / 4096 ≡ frame_of e = omega arith in
              u.contents (new * 4096 + n) (rw in_new new-data3)
              ∙ b.contents (new * 4096 + n) (rw in_new new-data) (rw in_new new_listed1)
              ∙ copied-there m1.mem new (frame_of e) n hn
              ∙ a.contents (frame_of e * 4096 + n) (rw in_old held.data_page)
                  (rw in_old (still_taken (frame_of e) held.taken));
          contents = λ x z out.
              let z1 = a.data_frames (x / 4096) (still_taken (x / 4096) out) z in
              u.contents x (b.data_frames (x / 4096) (listed1 (x / 4096) out) z1)
              ∙ b.contents x z1 (listed1 (x / 4096) out)
              ∙ copied-elsewhere m1.mem new (frame_of e) x (not_new (x / 4096) out)
              ∙ a.contents x z (still_taken (x / 4096) out);
          temporary = u.gone;
          others = λ g va' e' lg h ne.
              u.elsewhere g va' (b.keeps g 3 (a.keeps g 3 lg)) (apart3 g va' e' lg h)
              ∙ others3 g va' e' lg h ne;
          old_count =
              (u.counts (frame_of e)).0
              ∙ rw (temp3, frame_of-temp) (ground (arith, old3, not_new (frame_of e) held.taken));
          new_count = (u.counts new).0 ∙ rw (temp3, frame_of-temp) (ground (arith, new3));
        }

      inserts_again :
          (done : Bool) (m3 : Machine)
          → Done lv1 m2 f new (round_down va page_size) fl done m3
          → Yields (Resolved lv m f va e) (
              (if not done then pure false else (page_remove (f * 4096) kernel_temp >> pure true))
                m3)
      inserts_again false m3 (lv3, t3, (none_left, same, refs), b) = yields (record {
        full = none_left;
        few =
            rw pages (
              omega (arith, a.stock, subst (λ l. length m1.free ≤ length l + 3) none_left b.stock));
        stays = λ g va' e' lg h.
            same g va' (a.keeps g 3 lg)
            ∙ same2 g va' lg
            ∙ i.apart g va' lg (Differ-none m0 g f va' kernel_temp e' h no_temp)
            ∙ h;
      })
      inserts_again true m3 (lv3, t3, j, b) =
          after (page_remove-Unmapped f kernel_temp t3 (b.keeps f 3 lf1) (Held3 t3 j b))
            (λ _ m4 u. yields (new, final t3 j b m4 u))

    module _ (s : ℕ) (slot_here : slot_of 3 m.mem f va ≡ some s) where
      inserts_first :
          (done : Bool) (m1 : Machine)
          → Done lv m0 f new kernel_temp fl done m1
          → Yields (Resolved lv m f va e) (
              (if not done
                  then pure false
                  else (copy_page (f * 4096 / 4096) kernel_temp (round_down va page_size)
                      >> (load s >>= λ e'.
                          page_insert (f * 4096) new (round_down va page_size) (own_flags e')
                          >>= λ second.
                              if not second
                              then pure false
                              else (page_remove (f * 4096) kernel_temp >> pure true))))
                m1)
      inserts_first false m1 (lv1, t1, (none_left, same, refs), a) = yields (record {
        full = none_left;
        few = rw pages (omega (arith, subst (λ l. length rest ≤ length l + 3) none_left a.stock));
        stays = λ g va' e' lg h. same g va' lg ∙ h;
      })
      inserts_first true m1 (lv1, t1, i, a) =
          let frame : f * 4096 / 4096 ≡ f = omega arith in
          rw (frame, copy-lem t1 i a, entry2 t1 i a s slot_here)
            (after (second t1 i a) (inserts_again t1 i a))

      unshare-Resolved :
          Yields (Resolved lv m f va e) (unshare (f * 4096) va s new (bit_and e pte_flags_mask) m0)
      unfolding unshare
      unshare-Resolved =
          after
            (page_insert-Done f new kernel_temp fl allocated-Typed lf new-bounded new-positive
              (own_flags-lt e) (λ e' h. cc (no_temp, h)) new-taken)
            inserts_first

  -- A write fault at a page that is marked: page_fault_handler up to the label `fail` does not panic. Either
  -- the page is unshared, or at most seven pages were free, and the label is reached.
  pub resolve_fault-Resolved :
      (error_code : ℕ)
      → (bit_and error_code error_code_r_w == 0) ≡ false
      → (bit_and e pte_cow == 0) ≡ false
      → Yields (Resolved lv m f va e) (resolve_fault (f * 4096) va error_code m)
  unfolding resolve_fault
  resolve_fault-Resolved error_code on_write cow =
      let (s, es, now, on) = translate-slot_of m f va e mapped in
      elim (List-cases m.free) [
        | inl nil ↦
            rw (page_lookup-translate m f va, on_write, es, now, cow, on, page_alloc-nil m nil)
              (yields
                (record { full = nil; few = rw nil (omega arith); stays = λ g va' e' lg h. h }))
        | inr (new, rest, pages) ↦
            rw
              (
                page_lookup-translate m f va,
                on_write,
                es,
                now,
                cow,
                on,
                page_alloc-cons m new rest pages t.distinct,
                now,
              )
              (unshare-Resolved new rest pages s es)
      ]
