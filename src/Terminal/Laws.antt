-- ===== src/Terminal/Laws.antt =====
-- The screen's cursor and cells after each operation.
use ann.Base.{
  update, ℕ, zero, suc, ◌+◌, ◌-◌, ◌*◌, ◌<◌, ◌≤◌, Option, some, ◌≡◌, refl, ◌==◌, ltb, leb, ◌&&◌,
  if◌then◌else◌, arith, Bool-cases, le→leb, ==_no, lt→ltb, ◌≢◌, ◌∙◌, inl, inr,
}
use native.Mathlib.Decide.{ℕ_discrete}
use ann.Terminal.{
  row_count, col_count, Terminal, set_row, move_rows, scroll, wrap_line, put_one, put_spaces,
  terminal_make_char, terminal_put_color, then_do, tab_space,
}

move_rows_lem :
    (n i j : ℕ) (buffer : ℕ → ℕ)
    → move_rows n i buffer j ≡ (
        if leb (i * col_count) j && ltb j ((i + n) * col_count)
        then buffer (j + col_count)
        else buffer j)
unfolding move_rows set_row
move_rows_lem zero i j buffer = ground arith
move_rows_lem (suc n) i j buffer =
    ground (arith, move_rows_lem n (i + 1) j (set_row i (λ k. buffer (k + col_count)) buffer))

-- The cursor is within the lines that text is put in; the last line of the screen stays free.
pub record OnScreen (t : Terminal) : Type 0 where
  pub row : t.row < row_count - 1
  pub column : t.column < col_count

-- The cells behind the last line of text are those of before.
abbrev pub Below : Terminal → Terminal → Type 0
Below t t' = (j : ℕ) → (row_count - 1) * col_count ≤ j → t'.buffer j ≡ t.buffer j

pub record Stays (t : Terminal) (o : Option Terminal) : Type 0 where
  pub after : Terminal
  pub returns : o ≡ some after
  pub on_screen : OnScreen after
  pub below : Below t after
  pub color : after.color ≡ t.color

scroll-Stays :
    (t0 t : Terminal)
    → t.row ≤ row_count - 1
    → t.column < col_count
    → (t.row ≡ row_count - 1 → t.column ≡ 0)
    → Below t0 t
    → t.color ≡ t0.color
    → Stays t0 (scroll t)
unfolding scroll set_row
scroll-Stays t0 t hr hc hz b c = elim (Bool-cases (t.row == row_count - 1)) [
  | inr stay ↦ rw stay (record {
    after = t;
    returns = refl;
    on_screen = record { row = ground arith; column = hc };
    below = b;
    color = c;
  })
  | inl last ↦
      let top : t.row ≡ 23 = ground arith in
      rw (last, hz top)
        (record {
          after = _;
          returns = refl;
          on_screen = record { row = omega arith; column = omega arith };
          below = λ j h. ground (arith, b j, move_rows_lem (t.row - 1) 0 j t.buffer);
          color = c;
        })
]

wrap_line-Stays :
    (t0 t : Terminal)
    → t.row ≤ row_count - 1
    → t.column ≤ col_count
    → (t.row ≡ row_count - 1 → t.column ≡ 0)
    → Below t0 t
    → t.color ≡ t0.color
    → Stays t0 (wrap_line t)
unfolding wrap_line
wrap_line-Stays t0 t hr hc hz b c = elim (Bool-cases (t.column == col_count)) [
  | inr inside ↦
      rw (inside, le→leb (t.column) col_count hc, le→leb (t.row) row_count (omega arith))
        (scroll-Stays t0 t hr (ground arith) hz b c)
  | inl end ↦
      let low : t.row ≢ row_count - 1 = λ e. ground (arith, hz e) in
      rw (end, le→leb (t.column) col_count hc, le→leb (t.row + 1) row_count (omega arith))
        (scroll-Stays t0 (record t { column = 0; row = t.row + 1 }) (omega (arith, low))
          (omega arith) (λ e. refl) b c)
]

put_one-Stays : (ch color : ℕ) (t : Terminal) → OnScreen t → Stays t (put_one ch color t)
unfolding put_one
put_one-Stays ch color t o = elim (Bool-cases (ch == b'\r')) [
  | inl cr ↦ rw cr (record {
    after = _;
    returns = refl;
    on_screen = record { row = o.row; column = omega arith };
    below = λ j h. refl;
    color = refl;
  })
  | inr more ↦ rw more (elim (Bool-cases (ch == b'\n')) [
    | inl lf ↦
        rw (lf, lt→ltb (t.row) row_count (omega (arith, o.row)))
          (wrap_line-Stays t (record t { column = 0; row = t.row + 1 }) (omega (arith, o.row))
            (omega arith) (λ e. refl) (λ j h. refl) refl)
    | inr plain ↦ rw plain (
        wrap_line-Stays t _ (omega (arith, o.row)) (omega (arith, o.column))
          (λ e. absurd (omega (arith, e, o.row))) (λ j h. ground (arith, o.row, o.column)) refl)
  ])
]

-- then_do goes on where the first command left the screen.
then_do-Stays :
    (t : Terminal) (o : Option Terminal) (k : Terminal → Option Terminal)
    → Stays t o
    → ((t' : Terminal) → OnScreen t' → Stays t' (k t'))
    → Stays t (then_do o k)
then_do-Stays t o k s next =
    let r = next s.after s.on_screen in
    rw s.returns (record {
      after = r.after;
      returns = r.returns;
      on_screen = r.on_screen;
      below = λ j h. r.below j h ∙ s.below j h;
      color = r.color ∙ s.color;
    })

put_spaces-Stays : (n color : ℕ) (t : Terminal) → OnScreen t → Stays t (put_spaces n color t)
unfolding put_spaces
put_spaces-Stays zero color t o = record {
  after = t;
  returns = refl;
  on_screen = o;
  below = λ j h. refl;
  color = refl;
}
put_spaces-Stays (suc n) color t o =
    then_do-Stays t _ _ (put_one-Stays b' ' color t o) (put_spaces-Stays n color)

-- With the cursor in the first 23 lines, terminal_put_color meets no failed assertion, whatever the
-- character, leaves the cursor in these lines, and writes no cell behind them.
pub terminal_put_color-Stays :
    (ch color : ℕ) (t : Terminal) → OnScreen t → Stays t (terminal_put_color ch color t)
unfolding terminal_put_color
terminal_put_color-Stays ch color t o = elim (Bool-cases (ch == b'\t')) [
  | inl tab ↦ rw tab (put_spaces-Stays tab_space color t o)
  | inr more ↦ rw more (put_one-Stays ch color t o)
]

-- The screen as one sequence of cells: the character stands at the old cursor, which moves on by
-- one. Behind the end of line 22 the sequence moves up by a line, and its last line is blank.
abbrev pub full : Terminal → ℕ
full t = if t.row * col_count + t.column + 1 == (row_count - 1) * col_count then col_count else 0

pub record Writes (cell : ℕ) (t t' : Terminal) : Type 0 where
  pub cursor : t'.row * col_count + t'.column + full t ≡ t.row * col_count + t.column + 1
  pub cells :
      (j : ℕ)
      → j + full t < (row_count - 1) * col_count
      → t'.buffer j
        ≡ (if j + full t == t.row * col_count + t.column then cell else t.buffer (j + full t))
  pub blank :
      (j : ℕ)
      → j < (row_count - 1) * col_count
      → (row_count - 1) * col_count ≤ j + full t
      → t'.buffer j ≡ 0

-- With the cursor in the first 23 lines, terminal_put_color of a character that is not tab, carriage
-- return or newline writes its cell at the cursor and moves the cursor on by one. The text moves up
-- by a line if the cursor was at the end of the last line, and nothing else changes on these lines.
pub terminal_put_color-Writes :
    (ch color : ℕ) (t : Terminal)
    → OnScreen t
    → ch ≢ b'\t'
    → ch ≢ b'\r'
    → ch ≢ b'\n'
    → (t' : Terminal) × (terminal_put_color ch color t ≡ some t')
      × Writes (terminal_make_char ch color) t t'
unfolding terminal_put_color put_one wrap_line scroll set_row
terminal_put_color-Writes ch color t o nt nr nl =
    let row_lt = o.row in
    let col_lt = o.column in
    rw (==_no nt, ==_no nr, ==_no nl)
      (elim (ℕ_discrete (t.column + 1) col_count) [
        | no inside ↦
            rw
              (
                ==_no inside,
                le→leb (t.column + 1) col_count (omega arith),
                le→leb (t.row) row_count (omega arith),
                ==_no {a = t.row} {b = 23} (omega arith),
              )
              (
                _,
                refl,
                record {
                  cursor = ground arith;
                  cells = λ j h. ground arith;
                  blank = λ j h k. ground arith;
                },
              )
        | yes end ↦ rw (end) (elim (ℕ_discrete (t.row + 1) (row_count - 1)) [
          | no higher ↦
              rw (le→leb (t.row + 1) row_count (omega arith), ==_no higher)
                (
                  _,
                  refl,
                  record {
                    cursor = ground arith;
                    cells = λ j h. ground arith;
                    blank = λ j h k. ground arith;
                  },
                )
          | yes last ↦ rw last (
            _,
            refl,
            record {
              cursor = ground arith;
              cells = λ j h. ground (
                arith,
                move_rows_lem 22 0 j
                    (update t.buffer (t.row * col_count + t.column) (terminal_make_char ch color)),
              );
              blank = λ j h k. ground arith;
            },
          )
        ])
      ])
