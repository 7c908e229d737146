-- ===== src/Monitor/Line.antt =====
-- Characters on the row of the command line, the last of the screen.
use ann.Base.{
  ℕ, zero, suc, ◌+◌, ◌-◌, ◌*◌, ◌<◌, ◌≤◌, Option, none, some, true, false, ◌≡◌, ◌≢◌, refl, arith,
  Bool-cases, inl, inr, ◌==◌, leb, if◌then◌else◌, update, ==_no, le→leb, ◌∙◌,
}
use ann.Terminal.{
  Terminal, row_count, col_count, terminal_put, terminal_put_color, put_one, put_spaces, tab_space,
  wrap_line, scroll, terminal_make_char,
}

-- At most `n` characters were put on the command line: the cursor is still there, and the text above
-- is as before.
pub record Line (n : ℕ) (t : Terminal) (o : Option Terminal) : Type 0 where
  pub after : Terminal
  pub returns : o ≡ some after
  pub row : after.row ≡ row_count
  pub column : after.column ≤ t.column + n
  pub above : (j : ℕ) → j < row_count * col_count → after.buffer j ≡ t.buffer j

-- wrap_line changes nothing on this row, before its end.
pub wrap_line-inside :
    (t : Terminal) → t.row ≡ row_count → t.column < col_count → wrap_line t ≡ some t
unfolding wrap_line scroll
wrap_line-inside t hr hc =
    let in_row : (t.column == col_count) ≡ false = ground arith in
    let not_last : (t.row == row_count - 1) ≡ false = ground arith in
    rw
      (
        in_row,
        le→leb t.column col_count (omega arith),
        le→leb t.row row_count (omega (arith, hr)),
        not_last,
      )
      refl

put_one-Line :
    (ch color : ℕ) (t : Terminal)
    → t.row ≡ row_count
    → t.column + 1 < col_count
    → ch ≢ b'\n'
    → Line 1 t (put_one ch color t)
unfolding put_one
put_one-Line ch color t hr hc plain = elim (Bool-cases (ch == b'\r')) [
  | inl cr ↦
      rw cr
        (record { after = _; returns = refl; row = hr; column = omega arith; above = λ j h. refl })
  | inr more ↦
      rw
        (
          more,
          ==_no plain,
          wrap_line-inside
              (record t {
                buffer =
                    update t.buffer (t.row * col_count + t.column) (terminal_make_char ch color);
                column = t.column + 1;
              })
              hr hc,
        )
        (record {
          after = _;
          returns = refl;
          row = hr;
          column = omega arith;
          above = λ j h. ground (arith, hr);
        })
]

put_spaces-Line :
    (n color : ℕ) (t : Terminal)
    → t.row ≡ row_count
    → t.column + n < col_count
    → Line n t (put_spaces n color t)
unfolding put_spaces
put_spaces-Line zero color t hr hc = record {
  after = t;
  returns = refl;
  row = hr;
  column = omega arith;
  above = λ j h. refl;
}
put_spaces-Line (suc n) color t hr hc =
    let first = put_one-Line b' ' color t hr (omega (arith, hc)) (λ e. omega (arith, e)) in
    let more = put_spaces-Line n color first.after first.row (omega (arith, hc, first.column)) in
    rw first.returns (record {
      after = more.after;
      returns = more.returns;
      row = more.row;
      column = omega (arith, more.column, first.column);
      above = λ j h. more.above j h ∙ first.above j h;
    })

-- At its end the row below is not there.
wrap_line-end : (t : Terminal) → t.row ≡ row_count → t.column ≡ col_count → wrap_line t ≡ none
unfolding wrap_line
wrap_line-end t hr hc =
    let at_end : (t.column == col_count) ≡ true = ground arith in
    let below : leb (t.row + 1) row_count ≡ false = ground arith in
    rw (at_end, le→leb t.column col_count (omega arith), below) refl

-- Spaces up to the end of the row are too many.
pub put_spaces-none :
    (n color : ℕ) (t : Terminal)
    → t.row ≡ row_count
    → t.column < col_count
    → col_count ≤ t.column + n
    → put_spaces n color t ≡ none
unfolding put_spaces put_one
put_spaces-none zero color t hr hc many = absurd (omega (arith, hc, many))
put_spaces-none (suc n) color t hr hc many =
    let next : Terminal = record t {
      buffer = update t.buffer (t.row * col_count + t.column) (terminal_make_char b' ' color);
      column = t.column + 1;
    } in
    elim (Bool-cases (t.column + 1 == col_count)) [
      | inl end ↦ rw (wrap_line-end next hr (ground arith)) refl
      | inr inside ↦
          rw (wrap_line-inside next hr (ground arith))
            (put_spaces-none n color next hr (ground arith) (omega (arith, many)))
    ]

-- A tab takes eight columns.
abbrev pub width : ℕ → ℕ
width code = if code == b'\t' then tab_space else 1

pub terminal_put-Line :
    (code : ℕ) (t : Terminal)
    → t.row ≡ row_count
    → t.column + width code < col_count
    → code ≢ b'\n'
    → Line (width code) t (terminal_put code t)
unfolding terminal_put terminal_put_color
terminal_put-Line code t hr room plain = elim (Bool-cases (code == b'\t')) [
  | inl tab ↦ rw tab (put_spaces-Line tab_space t.color t hr (ground (arith, rw tab at room)))
  | inr more ↦ rw more (put_one-Line code t.color t hr (ground (arith, rw more at room)) plain)
]
