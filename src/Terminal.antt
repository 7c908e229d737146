-- ===== src/Terminal.antt =====
-- The text screen of kernel/lib/console/terminal.c. Control of interrupts is not modelled: `cli` in
-- terminal_put has no effect on the screen.
pub mod Laws
pub mod Number
pub mod Printf
mod Tests
use ann.Base.{
  ℕ, zero, suc, ◌+◌, ◌-◌, ◌*◌, ◌/◌, ◌%◌, ◌^◌, Option, none, some, Bool, true, false, List, [], ◌∷◌,
  bit_or, bit_and, ◌==◌, ltb, leb, ◌&&◌, ◌||◌, not, if◌then◌else◌, update,
}
use ann.CString.{Bytes, memset}

abbrev pub row_count : ℕ
row_count = 24

abbrev pub col_count : ℕ
col_count = 80

-- The static variables: `buffer` holds a 16-bit cell per index, `command` is the buffer of
-- terminal_read_command.
pub record Terminal : Type 0 where
  pub buffer : ℕ → ℕ
  pub color : ℕ
  pub column : ℕ
  pub row : ℕ
  pub command : Bytes

pub record Position : Type 0 where
  pub row : ℕ
  pub column : ℕ

-- `none` stands for a failed assertion, after which the kernel does not go on.
abbrev pub assert : {A : Type 0} → Bool → Option A → Option A
assert true rest = rest
assert false rest = none

abbrev pub then_do : {A B : Type 0} → Option A → (A → Option B) → Option B
then_do none k = none
then_do (some a) k = k a

abbrev pub terminal_position : Terminal → Position
terminal_position t = record { row = t.row; column = t.column }

unfoldable pub terminal_set_position : Position → Terminal → Option Terminal
terminal_set_position p t =
    assert (leb p.row row_count)
      (assert (ltb p.column col_count) (some (record t { row = p.row; column = p.column })))

-- The 80 cells of row `i` are those of `cells`.
unfoldable pub set_row : ℕ → (ℕ → ℕ) → (ℕ → ℕ) → ℕ → ℕ
set_row i cells buffer j =
    if leb (i * col_count) j && ltb j (i * col_count + col_count) then cells j else buffer j

unfoldable pub terminal_clear_line : Terminal → Terminal
terminal_clear_line t = record t { buffer = set_row t.row (λ j. 0) t.buffer; column = 0 }

unfoldable pub terminal_make_char : ℕ → ℕ → ℕ
terminal_make_char ch color = bit_or (color * 2 ^ 8 % 2 ^ 16) ch

unfoldable pub terminal_make_color : ℕ → ℕ → ℕ
terminal_make_color fg bg = bit_or (bg * 2 ^ 4) (bit_and fg 0xf) % 2 ^ 8

-- `for (i = 0; i < terminal_row-1; i++) memcpy(TERMINAL_ROW(i), TERMINAL_ROW(i+1), TERMINAL_ROW_SIZE)`
unfoldable pub move_rows : (n i : ℕ) → (ℕ → ℕ) → ℕ → ℕ
move_rows zero i buffer = buffer
move_rows (suc n) i buffer = move_rows n (i + 1) (set_row i (λ j. buffer (j + col_count)) buffer)

unfoldable pub scroll : Terminal → Option Terminal
scroll t =
    if t.row == row_count - 1
    then assert (t.column == 0) (
        some (record t {
          buffer = set_row (t.row - 1) (λ j. 0) (move_rows (t.row - 1) 0 t.buffer);
          row = t.row - 1;
        }))
    else some t

-- What follows the switch in terminal_put_color.
unfoldable pub wrap_line : Terminal → Option Terminal
wrap_line t =
    let t' : Terminal =
      if t.column == col_count then record t { column = 0; row = t.row + 1 } else t in
    assert (leb t.column col_count) (assert (leb t'.row row_count) (scroll t'))

-- terminal_put_color for a character that is not '\t'.
unfoldable pub put_one : ℕ → ℕ → Terminal → Option Terminal
put_one ch color t =
    let index = t.row * col_count + t.column in
    if ch == b'\r'
    then some (record t { column = 0 })
    else if ch == b'\n'
    then assert (ltb t.row row_count) (wrap_line (record t { column = 0; row = t.row + 1 }))
    else wrap_line (record t {
      buffer = update t.buffer index (terminal_make_char ch color);
      column = t.column + 1;
    })

unfoldable pub put_spaces : ℕ → ℕ → Terminal → Option Terminal
put_spaces zero color t = some t
put_spaces (suc n) color t = then_do (put_one b' ' color t) (put_spaces n color)

abbrev pub tab_space : ℕ
tab_space = 8

unfoldable pub terminal_put_color : ℕ → ℕ → Terminal → Option Terminal
terminal_put_color ch color t =
    if ch == b'\t' then put_spaces tab_space color t else put_one ch color t

unfoldable pub terminal_put : ℕ → Terminal → Option Terminal
terminal_put ch t = terminal_put_color ch t.color t

-- The character of the table "0123456789ABCDEF" at `digit`.
unfoldable pub digit2hex : ℕ → ℕ
digit2hex digit = if ltb digit 10 then b'0' + digit else b'A' + (digit - 10)

unfoldable pub convert_digit : ℕ → ℕ → Option ℕ
convert_digit digit base =
    assert (ltb digit base) (
      if ltb digit 10 then some (digit2hex digit) else assert (base == 16) (some (digit2hex digit)))

-- `digit` has at most `fuel` digits.
unfoldable pub terminal_print_digit : (fuel digit base : ℕ) → Terminal → Option Terminal
terminal_print_digit zero digit base t = none
terminal_print_digit (suc fuel) digit base t =
    let before = terminal_print_digit fuel (digit / base) base t in
    assert (base == 2 || (base == 10 || base == 16)) (
      if ltb digit base
      then then_do (convert_digit digit base) (λ ch. terminal_put ch t)
      else then_do before
          (λ t'. then_do (convert_digit (digit % base) base) (λ ch. terminal_put ch t')))

-- White on black; the color's name is its number.
unfoldable pub terminal_clear : Terminal → Terminal
terminal_clear t = record t {
  color = terminal_make_color 15 0;
  column = 0;
  row = 0;
  buffer = λ j. if ltb j (row_count * col_count) then 0 else t.buffer j;
}

-- The first loop of terminal_read_command, with `n` columns left from `i` on.
unfoldable pub read_cells : (n i len : ℕ) → Terminal → ℕ × Terminal
read_cells zero i len t = (len, t)
read_cells (suc n) i len t =
    let cell = t.buffer (t.row * col_count + i) in
    if t.command 0 == 0 && cell == b' '
    then read_cells n (i + 1) len t
    else read_cells n (i + 1) (len + 1) (record t { command = update t.command len (cell % 2 ^ 8) })

-- `while (len > 0 && buffer[len-1] == ' ') buffer[--len] = '\0';`
unfoldable pub trim : ℕ → Bytes → Bytes
trim zero s = s
trim (suc len) s = if s len == b' ' then trim len (update s len 0) else s

-- The text stands in the result's `command`. The call `memset(buffer, sizeof(buffer), '\0')` is the
-- source's.
unfoldable pub terminal_read_command : ℕ → Terminal → Terminal
terminal_read_command off t =
    let (len, t') =
      read_cells (col_count - off) off 0 (record t { command = memset t.command col_count 0 }) in
    record t' { command = trim len t'.command }
