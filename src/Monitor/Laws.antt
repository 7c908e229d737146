-- ===== src/Monitor/Laws.antt =====
-- The command line keeps to its row, and the text above stays; except for a tab near the end of the
-- row.
use ann.Base.{ℕ, ◌+◌, ◌-◌, ◌*◌, ◌<◌, ◌≤◌, Option, none, some, ◌≡◌, refl, arith, lt→ltb, ◌∙◌}
use ann.CString.{Bytes}
use ann.Terminal.{
  row_count, col_count, terminal_position, terminal_put, terminal_put_color, tab_space,
}
use ann.Terminal.Laws.{OnScreen}
use ann.Monitor.{Monitor, scancodes, edit_line, redraw_prompt, press_key}
use ann.Monitor.Line.{put_spaces-none}
use ann.Monitor.Edit.{OnLine, Pressed, Edited, edit_line-Edited, set_position-some, prompt-drawn}

-- The prompt after Enter
redrawn :
    {mon : Monitor} {o : Option (Monitor × Option Bytes)} (e : Edited mon o) (c : Option Bytes)
    → e.command ≡ c
    → (mon2 : Monitor) × (redraw_prompt e.command e.after ≡ some mon2)
      × OnLine mon2.command_line
      × ((j : ℕ) → j < row_count * col_count → mon2.terminal.buffer j ≡ mon.terminal.buffer j)
unfolding redraw_prompt
redrawn e none k = (e.after, rw k refl, e.line, e.above)
redrawn e (some line) k =
    let (t, drawn, row, column, above) =
      prompt-drawn e.after.terminal e.row (e.empty (λ z. cc (k, z))) in
    (
      record { terminal = t; command_line = terminal_position t },
      rw (k, drawn) refl,
      record { row = row; from = omega (arith, column); within = omega (arith, column) },
      λ j h. above j h ∙ e.above j h,
    )

-- Let the command line stand in its row, the last, behind the prompt, and the cursor of the text in the
-- lines above; and let the key not be a tab with less than nine columns left. Then no assertion fails,
-- whatever the key is. The command line stands in its row behind the prompt again, the cursor of the
-- text is where it was, and no cell of the text has changed.
pub press_key-Pressed :
    (scancode : ℕ) (mon : Monitor)
    → OnLine mon.command_line
    → OnScreen mon.terminal
    → (scancodes scancode ≡ b'\t' → mon.command_line.column + tab_space < col_count)
    → Pressed mon (press_key scancode mon)
unfolding press_key
press_key-Pressed scancode mon o on tab =
    let p = mon.command_line in
    let mon0 : Monitor = record mon {
      terminal = record (mon.terminal) { row = p.row; column = p.column };
    } in
    let e = edit_line-Edited mon0 o o.row refl scancode tab in
    let (mon2, drawn, line, above) = redrawn e e.command refl in
    rw
      (
        set_position-some p mon.terminal (omega (arith, o.row)) o.within,
        e.returns,
        drawn,
        set_position-some (terminal_position mon.terminal) mon2.terminal (omega (arith, on.row))
            on.column,
      )
      (record {
        after = _;
        command = e.command;
        returns = refl;
        line = line;
        cursor = refl;
        above = above;
      })

-- With the command line in its row and the cursor on it at column 72 to 78, a tab makes an assertion
-- fail, and the kernel panics.
pub press_key-tab :
    (mon : Monitor)
    → mon.command_line.row ≡ row_count
    → 72 ≤ mon.command_line.column
    → mon.command_line.column < col_count - 1
    → press_key 0xf mon ≡ none
unfolding press_key edit_line terminal_put terminal_put_color scancodes
press_key-tab mon hr lo hi =
    let p = mon.command_line in
    rw
      (
        set_position-some p mon.terminal (omega (arith, hr)) (omega (arith, hi)),
        lt→ltb p.column (col_count - 1) hi,
        put_spaces-none tab_space mon.terminal.color
            (record (mon.terminal) { row = p.row; column = p.column }) hr (omega (arith, hi))
            (omega (arith, lo)),
      )
      refl
