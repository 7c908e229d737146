-- ===== src/Memory/Map/Agree.antt =====
-- Memory that agrees on all tables.
use ann.Base.{ℕ, zero, suc, ◌<◌, ◌≡◌, refl, Bool-cases, inl, inr}
use ann.Memory.Layout.{present}
use ann.Memory.Layout.Laws.{frame_of}
use ann.Memory.Machine.{Machine}
use ann.Memory.Map.Walk.{
  index, index-lt, entry_at, slot_of, translate, translate-zero, translate-suc, Typed,
}

module _ {lv : ℕ → ℕ} {m : Machine} (t : Typed lv m) (mem : ℕ → ℕ)
    (agree : (g n i : ℕ) → lv g ≡ suc n → i < 512 → mem (entry_at g i) ≡ m.mem (entry_at g i)) where
  pub slot_of-agree : (n g va : ℕ) → lv g ≡ suc n → slot_of n mem g va ≡ slot_of n m.mem g va
  unfolding slot_of
  slot_of-agree zero g va lg = refl
  slot_of-agree (suc n) g va lg =
      let e = m.mem (entry_at g (index (suc n) va)) in
      rw (agree g (suc n) (index (suc n) va) lg (index-lt (suc n) va))
        (elim (Bool-cases (present e)) [
          | inl on ↦
              rw on (slot_of-agree n (frame_of e) va (t.linked g n _ lg (index-lt (suc n) va) on))
          | inr off ↦ rw off refl
        ])

  pub translate-agree : (n g va : ℕ) → lv g ≡ suc n → translate n mem g va ≡ translate n m.mem g va
  translate-agree zero g va lg =
      rw
        (
          translate-zero mem g va,
          translate-zero m.mem g va,
          agree g zero (index 0 va) lg (index-lt 0 va),
        )
        refl
  translate-agree (suc n) g va lg =
      let e = m.mem (entry_at g (index (suc n) va)) in
      rw
        (
          translate-suc mem g va n,
          translate-suc m.mem g va n,
          agree g (suc n) (index (suc n) va) lg (index-lt (suc n) va),
        )
        (elim (Bool-cases (present e)) [
          | inl on ↦
              rw on (translate-agree n (frame_of e) va (t.linked g n _ lg (index-lt (suc n) va) on))
          | inr off ↦ rw off refl
        ])

  pub Typed-agree : Typed lv (record m { mem = mem })
  Typed-agree = record {
    distinct = t.distinct;
    bounded = t.bounded;
    spare = t.spare;
    linked = λ f n i lf hi on.
        let e = agree f (suc n) i lf hi in rw e (t.linked f n i lf hi (rw e at on));
    blank =
        λ f n i lf hi off. let e = agree f n i lf hi in rw e (t.blank f n i lf hi (rw e at off));
  }
