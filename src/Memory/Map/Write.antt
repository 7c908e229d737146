-- ===== src/Memory/Map/Write.antt =====
-- A write to an entry of a page table, and changes of counters and of the free list: the tables stay
-- well-typed, and only what is translated by that entry changes.
use ann.Base.{
  ◌/◌, ℕ, zero, suc, ◌^◌, ◌<◌, Option, none, some, true, false, ◌≡◌, ◌≢◌, refl, arith, Bool-cases,
  inl, inr, ◌⊎◌, has, ==_refl, update, ap,
}
use ann.Memory.Layout.{present}
use ann.Memory.Layout.Laws.{frame_of}
use ann.Memory.Machine.{Machine}
use ann.Memory.Pages.Laws.{dropped}
use ann.Memory.Map.Walk.{
  index, index-lt, entry_at, slot_of, present_entry, read_entry, translate, Typed,
}

abbrev pub write : Machine → ℕ → ℕ → Machine
write m s w = record m { mem = update m.mem s w }

pub entry_at-injective :
    (f g i j : ℕ) → i < 512 → j < 512 → entry_at f i ≡ entry_at g j → (f ≡ g) × (i ≡ j)
entry_at-injective f g i j hi hj e = (omega arith, omega arith)

module _ {lv : ℕ → ℕ} {m : Machine} (t : Typed lv m) (pt i : ℕ) (lp : lv pt ≡ 1) (hi : i < 512)
    (w : ℕ) where
  -- Upper tables do not see the write.
  pub write-upper :
      (g n j : ℕ)
      → lv g ≡ suc (suc n)
      → j < 512
      → update m.mem (entry_at pt i) w (entry_at g j) ≡ m.mem (entry_at g j)
  write-upper g n j lg hj = ground (arith, entry_at-injective g pt j i hj hi, ap lv)

  pub slot_of-write :
      (n g va : ℕ)
      → lv g ≡ suc n
      → slot_of n (update m.mem (entry_at pt i) w) g va ≡ slot_of n m.mem g va
  unfolding slot_of
  slot_of-write zero g va lg = refl
  slot_of-write (suc n) g va lg =
      let e = m.mem (entry_at g (index (suc n) va)) in
      rw (write-upper g n (index (suc n) va) lg (index-lt (suc n) va))
        (elim (Bool-cases (present e)) [
          | inl on ↦
              rw on (slot_of-write n (frame_of e) va (t.linked g n _ lg (index-lt (suc n) va) on))
          | inr off ↦ rw off
        ])

  pub translate-write_ne :
      (n g va : ℕ)
      → lv g ≡ suc n
      → slot_of n m.mem g va ≢ some (entry_at pt i)
      → translate n (update m.mem (entry_at pt i) w) g va ≡ translate n m.mem g va
  unfolding translate
  translate-write_ne n g va lg ne = rw (slot_of-write n g va lg) (read (slot_of n m.mem g va) ne)
    where
      read :
          (o : Option ℕ)
          → o ≢ some (entry_at pt i)
          → read_entry (update m.mem (entry_at pt i) w) o ≡ read_entry m.mem o
      read none h = refl
      read (some s) h = ground arith

  pub translate-write_self :
      (n g va : ℕ)
      → lv g ≡ suc n
      → slot_of n m.mem g va ≡ some (entry_at pt i)
      → translate n (update m.mem (entry_at pt i) w) g va ≡ present_entry w
  unfolding translate
  translate-write_self n g va lg e = rw (slot_of-write n g va lg, e, ==_refl (entry_at pt i))

  pub write-contents : (a : ℕ) → lv (a / 4096) ≡ 0 → update m.mem (entry_at pt i) w a ≡ m.mem a
  write-contents a z =
      let there : entry_at pt i / 4096 ≡ pt = omega arith in
      let apart : a ≢ entry_at pt i =
        λ e. omega (arith, lp, z, ap (λ (x : ℕ). lv (x / 4096)) e, ap lv there) in
      ground arith

  pub write-Typed : (present w ≡ true) ⊎ (w ≡ 0) → Typed lv (write m (entry_at pt i) w)
  write-Typed ok_entry = record {
    distinct = t.distinct;
    bounded = t.bounded;
    spare = t.spare;
    linked = λ g n j lg hj on.
        let u = write-upper g n j lg hj in rw u (t.linked g n j lg hj (rw u at on));
    blank = λ g n j lg hj off. ground (arith, t.blank g n j lg hj);
  }

-- A page that is in use as a data page.
pub record Held (lv : ℕ → ℕ) (m : Machine) (o : ℕ) : Type 0 where
  pub counted : 0 < m.ref o
  pub taken : has o m.free ≡ false
  pub data_page : lv o ≡ 0

pub dropped-Typed :
    {lv : ℕ → ℕ} {m : Machine} (o : ℕ)
    → Typed lv m
    → Held lv m o
    → o < 2 ^ 52
    → Typed lv (dropped m o)
dropped-Typed {m} o t h ho = record {
  distinct = ground (arith, h.taken, t.distinct);
  bounded = λ r k. ground (arith, t.bounded r);
  spare = λ r k. ground (arith, t.spare r, h.data_page);
  linked = t.linked;
  blank = t.blank;
}

-- The walk ends in a page table.
pub slot_of-level :
    {lv : ℕ → ℕ} {m : Machine} (n f va : ℕ) {s : ℕ}
    → Typed lv m
    → lv f ≡ suc n
    → slot_of n m.mem f va ≡ some s
    → (pt : ℕ) × (lv pt ≡ 1) × (s ≡ entry_at pt (index 0 va))
unfolding slot_of
slot_of-level zero f va t lf e = (f, lf, cc)
slot_of-level {m} (suc n) f va t lf e =
    let old = m.mem (entry_at f (index (suc n) va)) in
    elim (Bool-cases (present old)) [
      | inl on ↦
          slot_of-level n (frame_of old) va t (t.linked f n _ lf (index-lt (suc n) va) on)
            (rw on at e)
      | inr off ↦ cc (rw off at e)
    ]
