-- ===== src/Interrupt/Copy.antt =====
-- The memcpy of page_fault_handler: one data page is copied to another, through their addresses.
use ann.Base.{
  ℕ, suc, ◌+◌, ◌-◌, ◌*◌, ◌/◌, ◌<◌, some, ◌≡◌, ◌≢◌, refl, arith, ap, ◌∙◌, sym, ltb, leb, ◌&&◌,
  if◌then◌else◌,
}
use ann.Memory.Layout.{round_down, page_size}
use ann.Memory.Layout.Laws.{frame_of}
use ann.Memory.Machine.{Machine, ok}
use ann.Memory.Map.Walk.{index, entry_at, slot_of, translate, Typed}
use ann.Memory.Map.Agree.{slot_of-agree, translate-agree, Typed-agree}
use ann.Interrupt.{copy_frame, copy_page}

-- The start of the page of `va` takes the same way through the tables.
round_down-index :
    (va : ℕ)
    → (index 0 (round_down va page_size) ≡ index 0 va)
      × (index 1 (round_down va page_size) ≡ index 1 va)
      × (index 2 (round_down va page_size) ≡ index 2 va)
      × (index 3 (round_down va page_size) ≡ index 3 va)
unfolding round_down
round_down-index va = (omega arith, omega arith, omega arith, omega arith)

pub slot_of-round_down :
    (mem : ℕ → ℕ) (f va : ℕ) → slot_of 3 mem f (round_down va page_size) ≡ slot_of 3 mem f va
unfolding slot_of
slot_of-round_down mem f va = let (a, b, c, d) = round_down-index va in rw (a, b, c, d) refl

pub translate-round_down :
    (mem : ℕ → ℕ) (f va : ℕ) → translate 3 mem f (round_down va page_size) ≡ translate 3 mem f va
unfolding translate
translate-round_down mem f va = rw (slot_of-round_down mem f va) refl

-- Memory after the words of frame `s` were copied to frame `d`.
abbrev pub copied : (ℕ → ℕ) → (d s : ℕ) → ℕ → ℕ
copied mem d s a =
    if leb (d * 4096) a && ltb a (d * 4096 + 4096) then mem (s * 4096 + (a - d * 4096)) else mem a

pub copied-there :
    (mem : ℕ → ℕ) (d s i : ℕ) → i < 4096 → copied mem d s (d * 4096 + i) ≡ mem (s * 4096 + i)
copied-there mem d s i h =
    let back : d * 4096 + i - d * 4096 ≡ i = omega arith in
    ground (arith, ap (λ (x : ℕ). mem (s * 4096 + x)) back)

pub copied-elsewhere : (mem : ℕ → ℕ) (d s a : ℕ) → a / 4096 ≢ d → copied mem d s a ≡ mem a
copied-elsewhere mem d s a ne = ground arith

module _ {lv : ℕ → ℕ} {m : Machine} (d s : ℕ) (t : Typed lv m) (ld : lv d ≡ 0) where
  tables-agree :
      (g n i : ℕ) → lv g ≡ suc n → i < 512 → copied m.mem d s (entry_at g i) ≡ m.mem (entry_at g i)
  tables-agree g n i lg hi =
      let there : entry_at g i / 4096 ≡ g = omega arith in
      copied-elsewhere m.mem d s (entry_at g i) (λ e. omega (arith, lg, ld, ap lv (sym there ∙ e)))

  pub copied-Typed : Typed lv (record m { mem = copied m.mem d s })
  copied-Typed = Typed-agree t (copied m.mem d s) tables-agree

  pub copied-slot_of :
      (g va : ℕ) → lv g ≡ 4 → slot_of 3 (copied m.mem d s) g va ≡ slot_of 3 m.mem g va
  copied-slot_of g va lg = slot_of-agree t (copied m.mem d s) tables-agree 3 g va lg

  pub copied-translate :
      (g va : ℕ) → lv g ≡ 4 → translate 3 (copied m.mem d s) g va ≡ translate 3 m.mem g va
  copied-translate g va lg = translate-agree t (copied m.mem d s) tables-agree 3 g va lg

pub copy_page-copied :
    (m : Machine) (f dest src d e : ℕ)
    → translate 3 m.mem f dest ≡ some d
    → translate 3 m.mem f src ≡ some e
    → copy_page f dest src m ≡ ok tt (record m { mem = copied m.mem (frame_of d) (frame_of e) })
unfolding copy_page copy_frame
copy_page-copied m f dest src d e hd hs = rw (copy_page, hd, hs, copy_frame) refl
