-- ===== src/Task/Load/NewPages.antt =====
-- Pages that were free and are mapped now, one or a range.
use ann.Base.{
  ℕ, suc, ◌+◌, ◌<◌, ◌≤◌, Option, some, Bool, true, false, ◌≡◌, ◌≢◌, arith, if◌then◌else◌, ◌==◌,
  ◌&&◌, ltb, leb, has, List, ◌∙◌, update, inl, inr, Bool-cases,
}
use native.Mathlib.Decide.{ℕ_discrete}
use ann.Memory.Machine.{Machine}
use ann.Memory.Map.Insert.{mapping}
use ann.Memory.Map.Spaces.{Spaces}
use ann.Task.Load.{user_page}

-- The address spaces as they are, with their counters as they are.
abbrev pub Now : (ℕ → Bool) → (ℕ → ℕ → Option ℕ) → (ℕ → ℕ) → Machine → Type 0
Now roots maps lv m = Spaces roots lv m maps m.ref lv m

abbrev pub allocated : Machine → ℕ → List ℕ → Machine
allocated m p rest = record m { free = rest; ref = update m.ref p 0 }

-- A new page is mapped, with one reference; what was in use is so still.
pub record NewPage (lv : ℕ → ℕ) (m : Machine) (p : ℕ) (lv' : ℕ → ℕ) (m' : Machine) : Type 0 where
  pub data_page : lv' p ≡ 0
  pub data_frames : (o : ℕ) → has o m.free ≡ false → lv o ≡ 0 → lv' o ≡ 0
  pub was_free : has p m.free ≡ true
  pub taken : has p m'.free ≡ false
  pub count : m'.ref p ≡ 1
  pub others : (o : ℕ) → has o m.free ≡ false → (m'.ref o ≡ m.ref o) × (has o m'.free ≡ false)

-- New pages for the range, each another.
pub record NewPages (lv : ℕ → ℕ) (m : Machine) (frame : ℕ → ℕ) (a n : ℕ) (lv' : ℕ → ℕ)
    (m' : Machine) : Type 0 where
  pub data_pages : (r : ℕ) → a ≤ r → r < a + n → lv' (frame r) ≡ 0
  pub data_frames : (o : ℕ) → has o m.free ≡ false → lv o ≡ 0 → lv' o ≡ 0
  pub was_free : (r : ℕ) → a ≤ r → r < a + n → has (frame r) m.free ≡ true
  pub taken : (r : ℕ) → a ≤ r → r < a + n → has (frame r) m'.free ≡ false
  pub counts : (r : ℕ) → a ≤ r → r < a + n → m'.ref (frame r) ≡ 1
  pub differ : (r r' : ℕ) → a ≤ r → r < r' → r' < a + n → frame r ≢ frame r'
  pub others : (o : ℕ) → has o m.free ≡ false → (m'.ref o ≡ m.ref o) × (has o m'.free ≡ false)

-- The translations when the pages from `a` on, `n` of them, are mapped.
abbrev pub segment : (ℕ → ℕ → Option ℕ) → (ℕ → ℕ) → (f a n : ℕ) → ℕ → ℕ → Option ℕ
segment maps frame f a n x r =
    if (x == f) && (leb a r && ltb r (a + n)) then some (mapping (frame r) user_page) else maps x r

-- `page` for page `a`, `frame` for the others
abbrev pub first_frame : ℕ → ℕ → (ℕ → ℕ) → ℕ → ℕ
first_frame a page frame r = if r == a then page else frame r

pub one_more :
    {lv lv1 lv' : ℕ → ℕ} (m m1 m' : Machine) (p a n : ℕ) (frame : ℕ → ℕ)
    → NewPage lv m p lv1 m1
    → NewPages lv1 m1 frame (a + 1) n lv' m'
    → NewPages lv m (first_frame a p frame) a (suc n) lv' m'
one_more m m1 m' p a n frame x y = record {
  data_pages = λ r h k. elim (ℕ_discrete r a) [
    | yes e ↦ ground (arith, y.data_frames p x.taken x.data_page)
    | no e ↦ ground (arith, y.data_pages r)
  ];
  data_frames = λ o h z. y.data_frames o ((x.others o h).1) (x.data_frames o h z);
  was_free = λ r h k. elim (ℕ_discrete r a) [
    | yes e ↦ ground (arith, x.was_free)
    | no e ↦
        let later = y.was_free r (omega arith) (omega arith) in
        elim (Bool-cases (has (frame r) m.free)) [
          | inl free ↦ ground arith
          | inr used ↦ cc (later, (x.others (frame r) used).1)
        ]
  ];
  taken = λ r h k. elim (ℕ_discrete r a) [
    | yes e ↦ ground (arith, y.others p x.taken)
    | no e ↦ ground (arith, y.taken r)
  ];
  counts = λ r h k. elim (ℕ_discrete r a) [
    | yes e ↦ ground (arith, y.others p x.taken, x.count)
    | no e ↦ ground (arith, y.counts r)
  ];
  differ = λ r r' h k l. elim (ℕ_discrete r a) [
    | yes e ↦
        let later = y.was_free r' (omega arith) (omega arith) in
        let apart : p ≢ frame r' = λ w. cc (x.taken, later, w) in ground arith
    | no e ↦ ground (arith, y.differ r r')
  ];
  others = λ o h. let (a1, b1) = x.others o h in let (a2, b2) = y.others o b1 in (a2 ∙ a1, b2);
}
