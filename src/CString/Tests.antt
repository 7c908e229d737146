-- ===== src/CString/Tests.antt =====
-- The string functions at the texts "120" and "12x".
use ann.Base.{ℕ, ◌-◌, ◌<◌, ◌≤◌, some, ◌≡◌, refl, ◌==◌, if◌then◌else◌, arith}
use ann.CString.{Bytes, strlen, ℤ, negsuc, char_sub, is_zero, strcmp, strcmp_from, strncpy, atoi}
use ann.CString.Laws.{
  IsText, IsBytes, Compares, strlen-IsText, strncpy-IsText, strcmp-Compares, decimal, IsNumber,
  atoi-decimal,
}

abbrev text : Bytes
text i = if i == 0 then b'1' else if i == 1 then b'2' else if i == 2 then b'0' else 0

abbrev other : Bytes
other i = if i == 0 then b'1' else if i == 1 then b'2' else if i == 2 then b'x' else 0

text-IsText : IsText text 3
text-IsText = record { ends = refl; before = λ i h. ground arith }

other-IsText : IsText other 3
other-IsText = record { ends = refl; before = λ i h. ground arith }

text-IsBytes : IsBytes text
text-IsBytes i = ground arith

other-IsBytes : IsBytes other
other-IsBytes i = ground arith

strlen-IsText_example : strlen 8 text ≡ some 3
strlen-IsText_example = strlen-IsText 8 3 text text-IsText (omega arith)

strncpy-IsText_example :
    (IsText (strncpy other text 3) 2)
    × ((j : ℕ) → 3 ≤ j → strncpy other text 3 j ≡ other j)
    × ((j : ℕ) → j < 2 → j < 3 → strncpy other text 3 j ≡ text j)
strncpy-IsText_example = strncpy-IsText 3 3 other text (omega arith) text-IsText

strcmp-Compares_example : (r : ℤ) × (strcmp 5 text other ≡ some r) × Compares text other 0 4 r
strcmp-Compares_example =
    strcmp-Compares text other text-IsBytes other-IsBytes 5 3 text-IsText (omega arith)

text-IsNumber : IsNumber text 3
text-IsNumber i h = (ground arith, ground arith)

atoi-decimal_example : atoi 8 text ≡ some 120
unfolding decimal
atoi-decimal_example = atoi-decimal 8 3 text text-IsText (omega arith) text-IsNumber

strcmp_run : strcmp 8 text other ≡ some (negsuc (b'x' - b'0' - 1))
unfolding strcmp strcmp_from char_sub is_zero
strcmp_run = refl
