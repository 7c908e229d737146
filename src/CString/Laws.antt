-- ===== src/CString/Laws.antt =====
-- What the functions of string.c compute.
use ann.Base.{
  ℕ, zero, suc, ◌+◌, ◌-◌, ◌*◌, ◌/◌, ◌%◌, ◌^◌, ◌<◌, ◌≤◌, some, true, false, ◌≡◌, ◌≢◌, refl, inl, inr,
  ◌==◌, ltb, leb, ◌&&◌, ◌∙◌, if◌then◌else◌, update, arith, Bool-cases, ap,
}
use native.Mathlib.Decide.{ℕ_discrete}
use native.Mathlib.Nat.{mul-add, add-mul, mul_assoc, mul_comm}
use ann.CString.{
  Bytes, strlen_from, strlen, memset_from, memset, memcpy_from, memcpy, ℤ, pos, char_sub, is_zero,
  strcmp_from, strcmp, strncmp_from, strncmp, strncpy_from, strncpy, atoi_loop, atoi,
}

-- A text of length `n`: the first NUL byte stands at `n`.
pub record IsText (s : Bytes) (n : ℕ) : Type 0 where
  pub ends : s n ≡ 0
  pub before : (i : ℕ) → i < n → s i ≢ 0

strlen_from-IsText :
    (fuel r n : ℕ) (s : Bytes) → IsText s n → r ≤ n → n < r + fuel → strlen_from fuel s r ≡ some n
unfolding strlen_from
strlen_from-IsText zero r n s t h k = absurd (omega arith)
strlen_from-IsText (suc fuel) r n s t h k = elim (Bool-cases (s r == 0)) [
  | inl z ↦ rw z (ground (arith, t.before r))
  | inr more ↦
      rw more (strlen_from-IsText fuel (r + 1) n s t (ground (arith, t.ends)) (omega arith))
]

-- strlen finds the length of every text that ends within the bytes it may read.
pub strlen-IsText : (fuel n : ℕ) (s : Bytes) → IsText s n → n < fuel → strlen fuel s ≡ some n
unfolding strlen
strlen-IsText fuel n s t h = strlen_from-IsText fuel 0 n s t (omega arith) (omega arith)

memcpy_from_lem :
    (n i j : ℕ) (dest src : Bytes)
    → memcpy_from n i dest src j ≡ (if leb i j && ltb j (i + n) then src j else dest j)
unfolding memcpy_from
memcpy_from_lem zero i j dest src = ground arith
memcpy_from_lem (suc n) i j dest src =
    ground (arith, memcpy_from_lem n (i + 1) j (update dest i (src i)) src)

-- memcpy copies the first `n` bytes and changes no other.
memcpy_lem :
    (n j : ℕ) (dest src : Bytes) → memcpy dest src n j ≡ (if ltb j n then src j else dest j)
unfolding memcpy
memcpy_lem n j dest src = ground (arith, memcpy_from_lem n 0 j dest src)

strncpy_from_lem :
    (n i j k : ℕ) (dest src : Bytes)
    → IsText src k
    → i ≤ k
    → strncpy_from n i dest src j
      ≡ (if leb i j && (ltb j (i + n) && leb j k) then src j else dest j)
unfolding strncpy_from
strncpy_from_lem zero i j k dest src t h = ground arith
strncpy_from_lem (suc n) i j k dest src t h = elim (Bool-cases (src i == 0)) [
  | inl z ↦ rw z (ground (arith, t.before i))
  | inr more ↦ rw more (
      strncpy_from_lem n (i + 1) j k (update dest i (src i)) src t (ground (arith, t.ends))
      ∙ ground arith)
]

-- strncpy with a positive size leaves a text in the buffer: the source, cut to size - 1 bytes.
-- Nothing behind the buffer is written.
pub strncpy-IsText :
    (n k : ℕ) (dest src : Bytes)
    → 0 < n
    → IsText src k
    → (IsText (strncpy dest src n) (if ltb k (n - 1) then k else n - 1))
      × ((j : ℕ) → n ≤ j → strncpy dest src n j ≡ dest j)
      × ((j : ℕ) → j < n - 1 → j < k → strncpy dest src n j ≡ src j)
unfolding strncpy
strncpy-IsText n k dest src h t = (
  record {
    ends =
        ground
          (arith, strncpy_from_lem n 0 (if ltb k (n - 1) then k else n - 1) k dest src t, t.ends);
    before = λ j hj. ground (arith, strncpy_from_lem n 0 j k dest src t, t.before j);
  },
  λ j hj. ground (arith, strncpy_from_lem n 0 j k dest src t),
  λ j hj hk. ground (arith, strncpy_from_lem n 0 j k dest src t),
)

memset_from_lem :
    (n i j c : ℕ) (s : Bytes)
    → memset_from n i s c j ≡ (if leb i j && ltb j (i + n) then c % 2 ^ 8 else s j)
unfolding memset_from
memset_from_lem zero i j c s = ground arith
memset_from_lem (suc n) i j c s =
    ground (arith, memset_from_lem n (i + 1) j c (update s i (c % 2 ^ 8)))

-- memset sets the first `n` bytes to the low byte of `c` and changes no other.
memset_lem : (n j c : ℕ) (s : Bytes) → memset s c n j ≡ (if ltb j n then c % 2 ^ 8 else s j)
unfolding memset
memset_lem n j c s = ground (arith, memset_from_lem n 0 j c s)

-- The outcome of a comparison of the bytes from `i` to below `n`: they are all equal, or the result
-- is the difference of the first two that are not.
pub data Compares (s1 s2 : Bytes) (i n : ℕ) : ℤ → Type 0 where
  all_same : ((j : ℕ) → i ≤ j → j < n → s1 j ≡ s2 j) → Compares s1 s2 i n (pos 0)
  first_at :
      (d : ℕ)
      → i ≤ d
      → d < n
      → s1 d ≢ s2 d
      → ((j : ℕ) → i ≤ j → j < d → s1 j ≡ s2 j)
      → Compares s1 s2 i n (char_sub (s1 d) (s2 d))

abbrev pub IsBytes : Bytes → Type 0
IsBytes s = (i : ℕ) → s i < 2 ^ 8

char_sub-same : (c : ℕ) → char_sub c c ≡ pos 0
unfolding char_sub
char_sub-same c = ground arith

positive : (n : ℕ) → n ≢ 0 → (n == 0) ≡ false
positive n h = ground arith

is_zero-differ : (c1 c2 : ℕ) → c1 < 2 ^ 8 → c2 < 2 ^ 8 → c1 ≢ c2 → is_zero (char_sub c1 c2) ≡ false
unfolding is_zero char_sub
is_zero-differ c1 c2 h1 h2 ne =
    let apart : (c1 + 128) % 2 ^ 8 ≢ (c2 + 128) % 2 ^ 8 = λ e. ne (omega arith) in
    elim (Bool-cases (leb ((c2 + 128) % 2 ^ 8) ((c1 + 128) % 2 ^ 8))) [
      | inl le ↦ rw le (positive ((c1 + 128) % 2 ^ 8 - (c2 + 128) % 2 ^ 8) (ground arith))
      | inr gt ↦ rw gt refl
    ]

Compares-suc :
    (s1 s2 : Bytes) (i n : ℕ) (r : ℤ)
    → s1 i ≡ s2 i
    → Compares s1 s2 (i + 1) n r
    → Compares s1 s2 i n r
Compares-suc s1 s2 i n r e (all_same f) = all_same (λ j h k. ground (arith, f j))
Compares-suc s1 s2 i n r e (first_at d h k ne f) =
    first_at d (omega arith) k ne (λ j h k. ground (arith, f j))

Compares-here :
    (s1 s2 : Bytes) (i n : ℕ) → i < n → s1 i ≢ s2 i → Compares s1 s2 i n (char_sub (s1 i) (s2 i))
Compares-here s1 s2 i n h ne = first_at i (omega arith) h ne (λ j a b. absurd (omega arith))

is_zero-same : (c1 c2 : ℕ) → c1 ≡ c2 → is_zero (char_sub c1 c2) ≡ true
unfolding is_zero
is_zero-same c1 c2 e = rw (e, char_sub-same c2) refl

last_same :
    (s1 s2 : Bytes) (i k n : ℕ)
    → IsText s1 k
    → s1 i ≡ 0
    → i ≤ k
    → n ≤ k + 1
    → s1 i ≡ s2 i
    → Compares s1 s2 i n (pos 0)
last_same s1 s2 i k n t z h b e =
    let stop : i ≡ k = ground (arith, t.before i) in
    all_same (λ j a c. (let here : j ≡ i = omega arith in rw here e))

module _ (s1 s2 : Bytes) (b1 : IsBytes s1) (b2 : IsBytes s2) where
  strncmp_from-Compares :
      (n i k e : ℕ)
      → IsText s1 k
      → i ≤ k
      → e ≡ (if ltb k (i + n) then k + 1 else i + n)
      → Compares s1 s2 i e (strncmp_from n s1 s2 i)
  unfolding strncmp_from
  strncmp_from-Compares zero i k e t h w = all_same (λ j a b. absurd (ground arith))
  strncmp_from-Compares (suc n) i k e t h w = elim (ℕ_discrete (s1 i) (s2 i)) [
    | no ne ↦
        rw (is_zero-differ (s1 i) (s2 i) (b1 i) (b2 i) ne)
          (Compares-here s1 s2 i e (ground arith) ne)
    | yes same ↦ rw (is_zero-same (s1 i) (s2 i) same) (elim (Bool-cases (s1 i == 0)) [
      | inl z ↦ rw z (last_same s1 s2 i k e t (ground arith) h (ground arith) same)
      | inr more ↦ rw more (
          Compares-suc s1 s2 i e _ same
            (strncmp_from-Compares n (i + 1) k e t (ground (arith, t.ends)) (ground arith)))
    ])
  ]

  strcmp_from-Compares :
      (fuel i k : ℕ)
      → IsText s1 k
      → i ≤ k
      → k < i + fuel
      → (r : ℤ) × (strcmp_from fuel s1 s2 i ≡ some r) × Compares s1 s2 i (k + 1) r
  unfolding strcmp_from
  strcmp_from-Compares zero i k t h w = absurd (omega arith)
  strcmp_from-Compares (suc fuel) i k t h w = elim (ℕ_discrete (s1 i) (s2 i)) [
    | no ne ↦
        rw (is_zero-differ (s1 i) (s2 i) (b1 i) (b2 i) ne)
          (_, refl, Compares-here s1 s2 i (k + 1) (omega arith) ne)
    | yes same ↦ rw (is_zero-same (s1 i) (s2 i) same) (elim (Bool-cases (s1 i == 0)) [
      | inl z ↦ rw z (
        _,
        refl,
        rw (same, char_sub-same (s2 i))
            (last_same s1 s2 i k (k + 1) t (ground arith) h (omega arith) same),
      )
      | inr more ↦ rw more (
          let (r, e, c) =
            strcmp_from-Compares fuel (i + 1) k t (ground (arith, t.ends)) (omega arith) in
          (r, e, Compares-suc s1 s2 i (k + 1) r same c))
    ])
  ]

  -- For a text `s1` of `k` bytes, strcmp returns within `k + 1` steps: 0 if the two agree up to and
  -- with the NUL byte of `s1`, and else the difference of the first two bytes that are not equal.
  pub strcmp-Compares :
      (fuel k : ℕ)
      → IsText s1 k
      → k < fuel
      → (r : ℤ) × (strcmp fuel s1 s2 ≡ some r) × Compares s1 s2 0 (k + 1) r
  unfolding strcmp
  strcmp-Compares fuel k t h = strcmp_from-Compares fuel 0 k t (omega arith) (omega arith)

  -- For a text `s1` of `k` bytes, strncmp compares the first `n` bytes of the two, and none behind
  -- the NUL byte of `s1`.
  pub strncmp-Compares :
      (n k : ℕ) → IsText s1 k → Compares s1 s2 0 (if ltb k n then k + 1 else n) (strncmp s1 s2 n)
  unfolding strncmp
  strncmp-Compares n k t = strncmp_from-Compares n 0 k _ t (omega arith) (ground arith)

-- The number that the first `n` digits of `s` are in base ten.
unfoldable pub decimal : Bytes → ℕ → ℕ
decimal s zero = 0
decimal s (suc n) = decimal s n * 10 + (s n - b'0')

spread :
    (mul v d q w : ℕ)
    → mul * 10 ≡ 2 ^ 32 * q + w
    → mul * (v * 10 + d) ≡ 2 ^ 32 * (q * v) + w * v + mul * d
spread mul v d q w e =
    let times : mul * 10 * v ≡ (2 ^ 32 * q + w) * v = rw e refl in
    mul-add mul (v * 10) d
    ∙ omega (
      arith,
      times,
      mul_assoc mul 10 v,
      mul_comm v 10,
      add-mul (2 ^ 32 * q) w v,
      mul_assoc (2 ^ 32) q v,
    )

wraps :
    (r mul v d : ℕ)
    → ((r + mul * d) % 2 ^ 32 + mul * 10 % 2 ^ 32 * v) % 2 ^ 32 ≡ (r + mul * (v * 10 + d)) % 2 ^ 32
wraps r mul v d =
    omega (arith, spread mul v d (mul * 10 / 2 ^ 32) (mul * 10 % 2 ^ 32) (omega arith))

-- Every one of the first `n` bytes is a digit.
abbrev pub IsNumber : Bytes → ℕ → Type 0
IsNumber s n = (i : ℕ) → i < n → (b'0' ≤ s i) × (s i ≤ b'9')

atoi_loop_lem :
    (n r mul : ℕ) (s : Bytes)
    → IsNumber s n
    → r < 2 ^ 32
    → atoi_loop n r mul s ≡ (r + mul * decimal s n) % 2 ^ 32
unfolding atoi_loop decimal
atoi_loop_lem zero r mul s digits h = omega arith
atoi_loop_lem (suc n) r mul s digits h =
    let (lo, hi) = digits n (omega arith) in
    ground (
      arith,
      atoi_loop_lem n ((r + mul * (s n - b'0')) % 2 ^ 32) (mul * 10 % 2 ^ 32) s
          (λ i k. digits i (omega arith)) (omega arith),
      wraps r mul (decimal s n) (s n - b'0'),
    )

-- On a text of `n` digits atoi returns their number in base ten, cut to 32 bits.
pub atoi-decimal :
    (fuel n : ℕ) (s : Bytes)
    → IsText s n
    → n < fuel
    → IsNumber s n
    → atoi fuel s ≡ some (decimal s n % 2 ^ 32)
unfolding atoi
atoi-decimal fuel n s t h digits =
    rw (atoi, strlen-IsText fuel n s t h)
      (ap some (atoi_loop_lem n 0 1 s digits (omega arith) ∙ omega arith))

atoi_loop-zero :
    (n i r mul : ℕ) (s : Bytes)
    → i < n
    → ((b'0' ≤ s i) × (s i ≤ b'9') → ⊥)
    → atoi_loop n r mul s ≡ 0
unfolding atoi_loop
atoi_loop-zero zero i r mul s h bad = absurd (omega arith)
atoi_loop-zero (suc n) i r mul s h bad = elim (ℕ_discrete i n) [
  | yes e ↦ let bad' : (b'0' ≤ s n) × (s n ≤ b'9') → ⊥ = λ b. bad (rw e b) in ground (arith, bad')
  | no ne ↦ ground (
    arith,
    atoi_loop-zero n i ((r + mul * (s n - b'0')) % 2 ^ 32) (mul * 10 % 2 ^ 32) s (omega arith) bad,
  )
]

-- On a text with a byte that is no digit atoi returns 0.
pub atoi-zero :
    (fuel n i : ℕ) (s : Bytes)
    → IsText s n
    → n < fuel
    → i < n
    → ((b'0' ≤ s i) × (s i ≤ b'9') → ⊥)
    → atoi fuel s ≡ some 0
unfolding atoi
atoi-zero fuel n i s t h k bad =
    rw (atoi, strlen-IsText fuel n s t h, atoi_loop-zero n i 0 1 s k bad) refl
