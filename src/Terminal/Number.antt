-- ===== src/Terminal/Number.antt =====
-- terminal_print_digit prints numerals.
use ann.Base.{
  ℕ, zero, suc, ◌+◌, ◌-◌, ◌*◌, ◌/◌, ◌%◌, ◌^◌, ◌<◌, ◌≤◌, Option, none, some, true, List, [], ◌∷◌,
  ◌++◌, ◌≡◌, refl, ◌==◌, ltb, leb, ◌||◌, if◌then◌else◌, arith, Bool-cases, inl, inr, ◌⊎◌, ◌∙◌, sym,
}
use native.Mathlib.Nat.{div-add-mod', pow-suc}
use ann.Terminal.{Terminal, terminal_put, terminal_print_digit, convert_digit, digit2hex, then_do}

-- The digit that the character `c` stands for, 'A' being 10.
abbrev pub digit_value : ℕ → ℕ
digit_value c = if leb b'A' c then c - b'A' + 10 else c - b'0'

-- `c` is a character for a digit in base `base`: one of '0' to '9' or 'A' to 'F'.
abbrev pub IsDigit : (base c : ℕ) → Type 0
IsDigit base c = (((b'0' ≤ c) × (c ≤ b'9')) ⊎ ((b'A' ≤ c) × (c ≤ b'F'))) × (digit_value c < base)

abbrev pub AreDigits : ℕ → List ℕ → Type 0
AreDigits base [] = Unit
AreDigits base (c ∷ cs) = IsDigit base c × AreDigits base cs

AreDigits-append :
    (base c : ℕ) (cs : List ℕ)
    → AreDigits base cs
    → IsDigit base c
    → AreDigits base (cs ++ (c ∷ []))
AreDigits-append base c [] a d = (d, tt)
AreDigits-append base c (x ∷ cs) a d = (a.0, AreDigits-append base c cs a.1 d)

-- The number that a text stands for, read from its first digit on.
unfoldable pub value_from : (acc base : ℕ) → List ℕ → ℕ
value_from acc base [] = acc
value_from acc base (c ∷ cs) = value_from (acc * base + digit_value c) base cs

unfoldable pub put_all : List ℕ → Terminal → Option Terminal
put_all [] t = some t
put_all (c ∷ cs) t = then_do (terminal_put c t) (put_all cs)

then_do-some : {A : Type 0} (o : Option A) → then_do o some ≡ o
then_do-some none = refl
then_do-some (some a) = refl

then_do-then_do :
    {A B C : Type 0} (o : Option A) (k : A → Option B) (l : B → Option C)
    → then_do (then_do o k) l ≡ then_do o (λ a. then_do (k a) l)
then_do-then_do none k l = refl
then_do-then_do (some a) k l = refl

pub then_do-each :
    {A B : Type 0} (o : Option A) (k l : A → Option B)
    → ((a : A) → k a ≡ l a)
    → then_do o k ≡ then_do o l
then_do-each none k l e = refl
then_do-each (some a) k l e = e a

put_all-append :
    (cs : List ℕ) (c : ℕ) (t : Terminal)
    → put_all (cs ++ (c ∷ [])) t ≡ then_do (put_all cs t) (terminal_put c)
unfolding put_all
put_all-append [] c t = then_do-some (terminal_put c t) ∙ refl
put_all-append (x ∷ cs) c t =
    then_do-each (terminal_put x t) _ _ (put_all-append cs c)
    ∙ sym (then_do-then_do (terminal_put x t) (put_all cs) (terminal_put c))

value_from-append :
    (cs : List ℕ) (c acc base : ℕ)
    → value_from acc base (cs ++ (c ∷ [])) ≡ value_from acc base cs * base + digit_value c
unfolding value_from
value_from-append [] c acc base = refl
value_from-append (x ∷ cs) c acc base = value_from-append cs c _ base

abbrev pub IsBase : ℕ → Type 0
IsBase base = (base ≡ 2) ⊎ ((base ≡ 10) ⊎ (base ≡ 16))

digit2hex_lem : (d : ℕ) → d < 16 → digit_value (digit2hex d) ≡ d
unfolding digit2hex
digit2hex_lem d h = ground arith

digit2hex-IsDigit : (d base : ℕ) → d < 16 → d < base → IsDigit base (digit2hex d)
unfolding digit2hex
digit2hex-IsDigit d base h k = elim (Bool-cases (ltb d 10)) [
  | inl low ↦ rw low (inl (omega arith, ground arith), ground arith)
  | inr high ↦ rw high (inr (omega arith, ground arith), ground arith)
]

IsBase-accepted : {base : ℕ} → IsBase base → (base == 2 || (base == 10 || base == 16)) ≡ true
IsBase-accepted b = ground arith

convert_digit_lem :
    (d base : ℕ) → IsBase base → d < base → convert_digit d base ≡ some (digit2hex d)
unfolding convert_digit
convert_digit_lem d base b h = ground arith

smaller : (digit base p : ℕ) → IsBase base → digit < 2 * p → base ≤ digit → digit / base < p
smaller digit base p (inl e) h k = rw e (omega arith)
smaller digit base p (inr (inl e)) h k = rw e (omega arith)
smaller digit base p (inr (inr e)) h k = rw e (omega arith)

last-lt : (digit base : ℕ) → IsBase base → digit % base < base
last-lt digit base (inl e) = rw e (omega arith)
last-lt digit base (inr (inl e)) = rw e (omega arith)
last-lt digit base (inr (inr e)) = rw e (omega arith)

IsBase-le : {base d : ℕ} → IsBase base → d < base → d < 16
IsBase-le b h = ground arith

fuel_left : (fuel digit : ℕ) → digit < 2 ^ suc fuel → 2 ≤ digit → 0 < fuel
fuel_left zero digit h k = absurd (omega arith)
fuel_left (suc fuel) digit h k = omega arith

whole : (digit base : ℕ) → IsBase base → digit / base * base + digit % base ≡ digit
whole digit base b = div-add-mod' digit base

-- The characters of a numeral: printing it is to put them one after the other.
pub record Prints (fuel digit base : ℕ) : Type 0 where
  pub chars : List ℕ
  pub put : (t : Terminal) → terminal_print_digit fuel digit base t ≡ put_all chars t
  pub digits : AreDigits base chars
  pub number : value_from 0 base chars ≡ digit

-- terminal_print_digit in base 2, 10 or 16 puts the characters of a numeral: each is one of '0' to '9'
-- and 'A' to 'F' for a digit below the base, and the numeral stands for the number `digit`. A fuel of 64 is enough for every `uint64_t`.
pub terminal_print_digit-Prints :
    (fuel digit base : ℕ) → IsBase base → digit < 2 ^ fuel → 0 < fuel → Prints fuel digit base
unfolding terminal_print_digit put_all value_from
terminal_print_digit-Prints zero digit base b h z = absurd (omega arith)
terminal_print_digit-Prints (suc fuel) digit base b h z = elim (Bool-cases (ltb digit base)) [
  | inl small ↦ record {
    chars = digit2hex digit ∷ [];
    put = λ t.
        rw (IsBase-accepted b, small, convert_digit_lem digit base b (ground arith))
          (sym (then_do-some _));
    digits = (digit2hex-IsDigit digit base (ground arith) (ground arith), tt);
    number = omega (arith, digit2hex_lem digit (ground arith));
  }
  | inr large ↦
      let rest =
        terminal_print_digit-Prints fuel (digit / base) base b
          (smaller digit base (2 ^ fuel) b (omega (arith, pow-suc 2 fuel)) (ground arith))
          (fuel_left fuel digit h (ground arith)) in
      let last_digit = digit2hex (digit % base) in
      let last_lt = last-lt digit base b in
      record {
        chars = rest.chars ++ (last_digit ∷ []);
        put = λ t.
            rw
              (
                IsBase-accepted b,
                large,
                convert_digit_lem (digit % base) base b last_lt,
                rest.put t,
              )
              (sym (put_all-append rest.chars last_digit t));
        digits =
            AreDigits-append base last_digit rest.chars rest.digits
              (digit2hex-IsDigit (digit % base) base (IsBase-le b last_lt) last_lt);
        number =
            value_from-append rest.chars last_digit 0 base
            ∙ rw (rest.number, digit2hex_lem (digit % base) (IsBase-le b last_lt))
                (whole digit base b);
      }
]
