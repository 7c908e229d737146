-- ===== src/Monitor/Edit.antt =====
-- An edit of the command line, with the cursor on it.
use ann.Base.{
  ℕ, zero, suc, ◌+◌, ◌-◌, ◌*◌, ◌%◌, ◌^◌, ◌<◌, ◌≤◌, Option, none, some, Bool, true, false, ◌≡◌, ◌≢◌,
  refl, arith, Bool-cases, inl, inr, ◌==◌, ltb, ◌&&◌, if◌then◌else◌, update, le→leb, lt→ltb, ◌∙◌,
  ap,
}
use ann.CString.{Bytes, memset}
use ann.Terminal.{
  Terminal, Position, row_count, col_count, terminal_position, terminal_set_position, terminal_put,
  terminal_put_color, put_one, tab_space, then_do, terminal_make_char, terminal_read_command,
  read_cells, terminal_clear_line, set_row,
}
use ann.Terminal.Number.{put_all}
use ann.Monitor.{Monitor, scancodes, key_backspace, prompt_len, command_line_prompt, edit_line}
use ann.Monitor.Line.{wrap_line-inside, terminal_put-Line, width}

-- Where the command line stands.
pub record OnLine (p : Position) : Type 0 where
  pub row : p.row ≡ row_count
  pub from : prompt_len ≤ p.column
  pub within : p.column < col_count

-- A key left the cursor and the text above the command line as they were.
pub record Pressed (mon : Monitor) (o : Option (Monitor × Option Bytes)) : Type 0 where
  pub after : Monitor
  pub command : Option Bytes
  pub returns : o ≡ some (after, command)
  pub line : OnLine after.command_line
  pub cursor : terminal_position after.terminal ≡ terminal_position mon.terminal
  pub above : (j : ℕ) → j < row_count * col_count → after.terminal.buffer j ≡ mon.terminal.buffer j

-- The edit of the line, from the cursor on it.
pub record Edited (mon : Monitor) (o : Option (Monitor × Option Bytes)) : Type 0 where
  pub after : Monitor
  pub command : Option Bytes
  pub returns : o ≡ some (after, command)
  pub row : after.terminal.row ≡ row_count
  pub column : after.terminal.column < col_count
  pub empty : command ≢ none → after.terminal.column ≡ 0
  pub line : OnLine after.command_line
  pub above : (j : ℕ) → j < row_count * col_count → after.terminal.buffer j ≡ mon.terminal.buffer j

abbrev Screens : Terminal → ℕ × Terminal → Type 0
Screens t r = (r.1.buffer ≡ t.buffer) × (r.1.row ≡ t.row)

choose :
    (t : Terminal) (b : Bool) (x y : ℕ × Terminal)
    → Screens t x
    → Screens t y
    → Screens t (if b then x else y)
choose t true x y h g = h
choose t false x y h g = g

read_cells-screen : (n i len : ℕ) (t : Terminal) → Screens t (read_cells n i len t)
unfolding read_cells
read_cells-screen zero i len t = (refl, refl)
read_cells-screen (suc n) i len t = choose t _ _ _ (read_cells-screen n (i + 1) len t) (
    read_cells-screen n (i + 1) (len + 1)
      (record t { command = update t.command len (t.buffer (t.row * col_count + i) % 2 ^ 8) }))

pub set_position-some :
    (p : Position) (t : Terminal)
    → p.row ≤ row_count
    → p.column < col_count
    → terminal_set_position p t ≡ some (record t { row = p.row; column = p.column })
unfolding terminal_set_position
set_position-some p t hr hc = rw (le→leb p.row row_count hr, lt→ltb p.column col_count hc) refl

abbrev put : Terminal → ℕ → Terminal
put t ch = record t {
  buffer = update t.buffer (t.row * col_count + t.column) (terminal_make_char ch t.color);
  column = t.column + 1;
}

-- One character of the prompt
put_plain :
    (ch : ℕ) (t : Terminal)
    → t.row ≡ row_count
    → t.column + 1 < col_count
    → ((ch == b'\t') ≡ false) × ((ch == b'\r') ≡ false) × ((ch == b'\n') ≡ false)
    → terminal_put ch t ≡ some (put t ch)
unfolding terminal_put terminal_put_color put_one
put_plain ch t hr hc (tab, cr, lf) = rw (tab, cr, lf) (wrap_line-inside _ hr hc)

pub prompt-drawn :
    (t : Terminal)
    → t.row ≡ row_count
    → t.column ≡ 0
    → (t' : Terminal) × (put_all command_line_prompt t ≡ some t')
      × (t'.row ≡ row_count)
      × (t'.column ≡ prompt_len)
      × ((j : ℕ) → j < row_count * col_count → t'.buffer j ≡ t.buffer j)
unfolding put_all
prompt-drawn t hr hc =
    let t1 = put t b'-' in
    let t2 = put t1 b'>' in
    let t3 = put t2 b' ' in
    (
      t3,
      rw
          (
            put_plain b'-' t hr (omega (arith, hc)) (refl, refl, refl),
            put_plain b'>' t1 hr (omega (arith, hc)) (refl, refl, refl),
            put_plain b' ' t2 hr (omega (arith, hc)) (refl, refl, refl),
          )
          refl,
      hr,
      omega (arith, hc),
      λ j h. ground (arith, hr, hc),
    )

set_row-above :
    (i : ℕ) (cells buffer : ℕ → ℕ) (j : ℕ)
    → i ≡ row_count
    → j < row_count * col_count
    → set_row i cells buffer j ≡ buffer j
unfolding set_row
set_row-above i cells buffer j e h = ground (arith, e)

-- The edit of the line at its cursor.
module _ (mon : Monitor) (o : OnLine mon.command_line) (hr : mon.terminal.row ≡ row_count)
    (hc : mon.terminal.column ≡ mon.command_line.column) where
  unchanged : Edited mon (some (mon, none))
  unchanged = record {
    after = mon;
    command = none;
    returns = refl;
    row = hr;
    column = rw hc o.within;
    empty = λ ne. absurd (ne refl);
    line = o;
    above = λ j h. refl;
  }

  entered : Edited mon (
      let t1 = terminal_read_command prompt_len mon.terminal in
      some (record mon { terminal = terminal_clear_line t1 }, some t1.command))
  unfolding terminal_read_command terminal_clear_line set_row
  entered =
      let t0 : Terminal = record (mon.terminal) {
        command = memset mon.terminal.command col_count 0;
      } in
      let (same, row) = read_cells-screen (col_count - prompt_len) prompt_len 0 t0 in
      record {
        after = _;
        command = _;
        returns = refl;
        row = row ∙ hr;
        column = omega arith;
        empty = λ ne. refl;
        line = o;
        above = λ j h.
            set_row-above _ (λ x. 0) (terminal_read_command prompt_len mon.terminal).buffer j
              (row ∙ hr) h
            ∙ ap (λ (b : ℕ → ℕ). b j) same;
      }

  typed :
      (code : ℕ)
      → mon.command_line.column + width code < col_count
      → code ≢ b'\n'
      → Edited mon (
          then_do (terminal_put code mon.terminal) (λ t1. some (
            record {
              terminal = t1;
              command_line = record {
                row = mon.command_line.row;
                column = mon.command_line.column + 1;
              };
            },
            none,
          )))
  typed code room plain =
      let l = terminal_put-Line code mon.terminal hr (rw hc room) plain in
      rw l.returns (record {
        after = _;
        command = none;
        returns = refl;
        row = l.row;
        column = omega (arith, l.column, hc, room);
        empty = λ ne. absurd (ne refl);
        line = record { row = o.row; from = omega (arith, o.from); within = ground (arith, room) };
        above = l.above;
      })

  erased :
      prompt_len < mon.command_line.column
      → Edited mon (
          then_do
            (terminal_set_position
              (record { row = mon.command_line.row; column = mon.command_line.column - 1 })
              mon.terminal)
            (λ t1. then_do (terminal_put b' ' t1) (λ t2. some (
              record {
                terminal = t2;
                command_line = record {
                  row = mon.command_line.row;
                  column = mon.command_line.column - 1;
                };
              },
              none,
            ))))
  erased more =
      let p : Position = record {
        row = mon.command_line.row;
        column = mon.command_line.column - 1;
      } in
      let t1 : Terminal = record (mon.terminal) { row = p.row; column = p.column } in
      let l = terminal_put-Line b' ' t1 o.row (omega (arith, o.within)) (λ e. omega (arith, e)) in
      rw
        (
          set_position-some p mon.terminal (omega (arith, o.row)) (omega (arith, o.within)),
          l.returns,
        )
        (record {
          after = _;
          command = none;
          returns = refl;
          row = l.row;
          column = omega (arith, l.column, more, o.within);
          empty = λ ne. absurd (ne refl);
          line = record {
            row = o.row;
            from = omega (arith, more);
            within = omega (arith, o.within);
          };
          above = l.above;
        })

  pub edit_line-Edited :
      (scancode : ℕ)
      → (scancodes scancode ≡ b'\t' → mon.command_line.column + tab_space < col_count)
      → Edited mon (edit_line scancode mon)
  unfolding edit_line
  edit_line-Edited scancode tab =
      let code = scancodes scancode in
      elim (Bool-cases (scancode == key_backspace && ltb prompt_len mon.command_line.column)) [
        | inl back ↦ rw (edit_line, back) (erased (ground (arith, back)))
        | inr b0 ↦ elim (Bool-cases (code == b'\n')) [
          | inl enter ↦ rw (edit_line, b0, enter) entered
          | inr b1 ↦ elim (Bool-cases (code == 0)) [
            | inl nothing ↦ rw (edit_line, b0, b1, nothing) unchanged
            | inr b2 ↦ elim (Bool-cases (ltb mon.command_line.column (col_count - 1))) [
              | inl room ↦
                  rw (edit_line, b0, b1, b2, room)
                    (typed code (ground (arith, tab)) (λ e. ground (arith, e)))
              | inr end ↦ rw (edit_line, b0, b1, b2, end) unchanged
            ]
          ]
        ]
      ]
