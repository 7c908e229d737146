-- ===== src/Terminal/Printf.antt =====
-- terminal_vprintf of kernel/lib/console/terminal.c.
use ann.Base.{
  ℕ, ◌+◌, ◌-◌, ◌%◌, ◌^◌, Option, none, some, List, [], ◌∷◌, ◌==◌, ltb, leb, if◌then◌else◌, ◌≡◌,
  refl, Bool-cases, inl, inr, arith,
}
use ann.Terminal.{Terminal, terminal_put, terminal_print_digit, then_do}
use ann.Terminal.Number.{put_all, then_do-each}

-- What stands in the argument list: a register's value, or the characters of a text up to its NUL
-- byte. An argument of the wrong kind, or none, is undefined in C and `none` here, as is a panic.
pub data Arg : Type 0 where
  number : ℕ → Arg
  text : List ℕ → Arg

-- `-digit` for a negative number of `w` bits, as a `uint64_t`.
unfoldable pub negated : (w digit : ℕ) → ℕ
negated w digit =
    let n = (2 ^ w - digit) % 2 ^ w in if leb (2 ^ (w - 1)) n then n + (2 ^ 64 - 2 ^ w) else n

unfoldable pub print_unsigned : (w base arg : ℕ) → Terminal → Option Terminal
print_unsigned w base arg t = terminal_print_digit 64 (arg % 2 ^ w) base t

unfoldable pub print_signed : (w arg : ℕ) → Terminal → Option Terminal
print_signed w arg t =
    let digit = arg % 2 ^ w in
    if ltb digit (2 ^ (w - 1))
    then terminal_print_digit 64 digit 10 t
    else then_do (terminal_put b'-' t) (terminal_print_digit 64 (negated w digit) 10)

unfoldable pub print_hex : (w arg : ℕ) → Terminal → Option Terminal
print_hex w arg t = then_do (put_all (b'0' ∷ b'x' ∷ []) t) (print_unsigned w 16 arg)

-- The cases `d`, `u`, `b` and `x`, which are there for 32 and, behind `l`, for 64 bits.
unfoldable pub print_number : (w c arg : ℕ) → Terminal → Option Terminal
print_number w c arg t =
    if c == b'd'
    then print_signed w arg t
    else if c == b'u'
    then print_unsigned w 10 arg t
    else if c == b'b'
    then print_unsigned w 2 arg t
    else if c == b'x'
    then print_hex w arg t
    else none

-- The cases behind `%` that take an argument.
unfoldable pub directive : ℕ → Arg → Terminal → Option Terminal
directive c (number n) t =
    if c == b'c'
    then terminal_put (n % 2 ^ 8) t
    else if c == b'p'
    then print_hex 64 n t
    else print_number 32 c n t
directive c (text s) t = if c == b's' then put_all s t else none

unfoldable pub long_directive : ℕ → Arg → Terminal → Option Terminal
long_directive c (number n) t = print_number 64 c n t
long_directive c (text s) t = none

-- Where the function stands in the format: behind nothing, behind `%`, or behind `%l`.
pub data Mode : Type 0 where
  plain percent long : Mode

unfoldable pub vprintf_from : Mode → List ℕ → List Arg → Terminal → Option Terminal
vprintf_from plain [] args t = some t
vprintf_from percent [] args t = none
vprintf_from long [] args t = none
vprintf_from plain (c ∷ fmt) args t =
    if c == b'%'
    then vprintf_from percent fmt args t
    else then_do (terminal_put c t) (vprintf_from plain fmt args)
vprintf_from percent (c ∷ fmt) args t =
    if c == b'%'
    then then_do (terminal_put b'%' t) (vprintf_from plain fmt args)
    else if c == b'l'
    then vprintf_from long fmt args t
    else elim args [
      | [] ↦ none
      | a ∷ rest ↦ then_do (directive c a t) (vprintf_from plain fmt rest)
    ]
vprintf_from long (c ∷ fmt) args t = elim args [
  | [] ↦ none
  | a ∷ rest ↦ then_do (long_directive c a t) (vprintf_from plain fmt rest)
]

unfoldable pub terminal_vprintf : List ℕ → List Arg → Terminal → Option Terminal
terminal_vprintf fmt args t = vprintf_from plain fmt args t

-- A text as a format: every `%` is doubled.
abbrev pub escape : List ℕ → List ℕ
escape [] = []
escape (c ∷ cs) = if c == b'%' then b'%' ∷ b'%' ∷ escape cs else c ∷ escape cs

vprintf_from-escape :
    (cs : List ℕ) (args : List Arg) (t : Terminal)
    → vprintf_from plain (escape cs) args t ≡ put_all cs t
unfolding vprintf_from put_all
vprintf_from-escape [] args t = refl
vprintf_from-escape (c ∷ cs) args t = elim (Bool-cases (c == b'%')) [
  | inl sign ↦
      let same : c ≡ b'%' = ground arith in
      rw same (then_do-each (terminal_put b'%' t) _ _ (vprintf_from-escape cs args))
  | inr other ↦
      rw (other, other) (then_do-each (terminal_put c t) _ _ (vprintf_from-escape cs args))
]

-- terminal_vprintf of any text in which every `%` is doubled puts the characters of that text one
-- after the other, whatever the arguments.
pub terminal_vprintf-escape :
    (cs : List ℕ) (args : List Arg) (t : Terminal)
    → terminal_vprintf (escape cs) args t ≡ put_all cs t
unfolding terminal_vprintf
terminal_vprintf-escape cs args t = vprintf_from-escape cs args t
