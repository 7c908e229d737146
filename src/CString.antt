-- ===== src/CString.antt =====
-- stdlib/string.c and stdlib/stdlib.c over bytes. Memory seen from a pointer is a function from the
-- offset to the byte there. A loop that runs until it meets a NUL byte takes the number of bytes
-- that it may read, and returns `none` if none of them is NUL.
pub mod Laws
mod Tests
use ann.Base.{
  ℕ, zero, suc, ◌+◌, ◌-◌, ◌*◌, ◌%◌, ◌^◌, Option, none, some, Bool, true, false, ◌==◌, ltb, leb,
  ◌&&◌, not, if◌then◌else◌, update,
}

abbrev pub Bytes : Type 0
Bytes = ℕ → ℕ

-- `while (s[r] != '\0') r++`
unfoldable pub strlen_from : (fuel : ℕ) → Bytes → ℕ → Option ℕ
strlen_from zero s r = none
strlen_from (suc fuel) s r =
    let rest = strlen_from fuel s (r + 1) in if s r == 0 then some r else rest

unfoldable pub strlen : ℕ → Bytes → Option ℕ
unfolding strlen_from
strlen fuel s = strlen_from fuel s 0

unfoldable pub memset_from : (n i : ℕ) → Bytes → ℕ → Bytes
memset_from zero i s c = s
memset_from (suc n) i s c = memset_from n (i + 1) (update s i (c % 2 ^ 8)) c

unfoldable pub memset : Bytes → ℕ → ℕ → Bytes
memset s c n = memset_from n 0 s c

-- The source does not overlap the destination.
unfoldable pub memcpy_from : (n i : ℕ) → Bytes → Bytes → Bytes
memcpy_from zero i dest src = dest
memcpy_from (suc n) i dest src = memcpy_from n (i + 1) (update dest i (src i)) src

unfoldable pub memcpy : Bytes → Bytes → ℕ → Bytes
memcpy dest src n = memcpy_from n 0 dest src

-- `int`, with the constructors of the integers.
pub data ℤ : Type 0 where
  pos : ℕ → ℤ
  negsuc : ℕ → ℤ

-- `*s1 - *s2`: `char` is signed, so 128 is added to both before they are subtracted.
unfoldable pub char_sub : ℕ → ℕ → ℤ
char_sub c1 c2 =
    let a = (c1 + 128) % 2 ^ 8 in
    let b = (c2 + 128) % 2 ^ 8 in if leb b a then pos (a - b) else negsuc (b - a - 1)

unfoldable pub is_zero : ℤ → Bool
is_zero (pos n) = n == 0
is_zero (negsuc n) = false

-- `while ((r = *s1 - *s2) == 0 && *s1 != '\0')`
unfoldable pub strcmp_from : (fuel : ℕ) → Bytes → Bytes → ℕ → Option ℤ
strcmp_from zero s1 s2 i = none
strcmp_from (suc fuel) s1 s2 i =
    let rest = strcmp_from fuel s1 s2 (i + 1) in
    let r = char_sub (s1 i) (s2 i) in if is_zero r && not (s1 i == 0) then rest else some r

unfoldable pub strcmp : ℕ → Bytes → Bytes → Option ℤ
strcmp fuel s1 s2 = strcmp_from fuel s1 s2 0

unfoldable pub strncmp_from : (n : ℕ) → Bytes → Bytes → ℕ → ℤ
strncmp_from zero s1 s2 i = pos 0
strncmp_from (suc n) s1 s2 i =
    let rest = strncmp_from n s1 s2 (i + 1) in
    let r = char_sub (s1 i) (s2 i) in
    if not (is_zero r) then r else if s1 i == 0 then pos 0 else rest

unfoldable pub strncmp : Bytes → Bytes → ℕ → ℤ
strncmp s1 s2 n = strncmp_from n s1 s2 0

unfoldable pub strncpy_from : (n i : ℕ) → Bytes → Bytes → Bytes
strncpy_from zero i dest src = dest
strncpy_from (suc n) i dest src =
    let dest' = update dest i (src i) in
    let rest = strncpy_from n (i + 1) dest' src in if src i == 0 then dest' else rest

-- `n` is not 0.
unfoldable pub strncpy : Bytes → Bytes → ℕ → Bytes
strncpy dest src n = update (strncpy_from n 0 dest src) (n - 1) 0

-- atoi: `len` bytes are left to read, from the last one on; `r` and `mul` are `int`, which wraps at
-- 32 bits.
unfoldable pub atoi_loop : (len r mul : ℕ) → Bytes → ℕ
atoi_loop zero r mul s = r
atoi_loop (suc len) r mul s =
    let rest = atoi_loop len ((r + mul * (s len - b'0')) % 2 ^ 32) (mul * 10 % 2 ^ 32) s in
    if ltb (s len) b'0' then 0 else if ltb b'9' (s len) then 0 else rest

unfoldable pub atoi : ℕ → Bytes → Option ℕ
atoi fuel s = elim (strlen fuel s) [ none ↦ none | some len ↦ some (atoi_loop len 0 1 s) ]
