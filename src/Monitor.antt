-- ===== src/Monitor.antt =====
-- The command line below the text: the keys of kernel/monitor.c.
pub mod Line
pub mod Edit
pub mod Laws
pub mod Command
mod Tests
use ann.Base.{
  ℕ, zero, suc, ◌+◌, ◌-◌, Option, none, some, Bool, true, false, List, [], ◌∷◌, get_elem?, ◌==◌,
  ltb, ◌&&◌, if◌then◌else◌, codes,
}
use ann.CString.{Bytes}
use ann.Terminal.{
  Terminal, Position, terminal_position, terminal_set_position, terminal_put, terminal_read_command,
  terminal_clear_line, then_do, row_count, col_count,
}
use ann.Terminal.Number.{put_all}

-- The screen, and the variable `command_line_position`.
pub record Monitor : Type 0 where
  pub terminal : Terminal
  pub command_line : Position

abbrev pub command_line_prompt : List ℕ
command_line_prompt = codes "-> "

abbrev pub prompt_len : ℕ
prompt_len = 3

abbrev pub key_backspace : ℕ
key_backspace = 0xe

-- `scancodes`; the entries that are not written in the source are 0.
abbrev pub scancode_table : List ℕ
scancode_table =
    0 ∷ 0 ∷ b'1' ∷ b'2' ∷ b'3' ∷ b'4' ∷ b'5' ∷ b'6' ∷ b'7' ∷ b'8' ∷ b'9' ∷ b'0' ∷ b'-' ∷ b'=' ∷ 0
    ∷ b'\t' ∷ b'q' ∷ b'w' ∷ b'e' ∷ b'r' ∷ b't' ∷ b'y' ∷ b'u' ∷ b'i' ∷ b'o' ∷ b'p' ∷ b'[' ∷ b']'
    ∷ b'\n' ∷ 0 ∷ b'a' ∷ b's' ∷ b'd' ∷ b'f' ∷ b'g' ∷ b'h' ∷ b'j' ∷ b'k' ∷ b'l' ∷ b';' ∷ b'\'' ∷ b'`'
    ∷ 0 ∷ b'\\' ∷ b'z' ∷ b'x' ∷ b'c' ∷ b'v' ∷ b'b' ∷ b'n' ∷ b'm' ∷ b',' ∷ b'.' ∷ b'/' ∷ 0 ∷ b'*' ∷ 0
    ∷ b' ' ∷ []

abbrev pub or_zero : Option ℕ → ℕ
or_zero none = 0
or_zero (some n) = n

unfoldable pub scancodes : ℕ → ℕ
scancodes scancode = or_zero (get_elem? scancode_table scancode)

unfoldable pub monitor_init : Monitor → Option Monitor
monitor_init mon =
    then_do (terminal_set_position (record { row = row_count; column = 0 }) mon.terminal) λ t1.
      then_do (put_all command_line_prompt t1) λ t2.
        then_do (terminal_set_position (terminal_position mon.terminal) t2)
          λ t3. some (record { terminal = t3; command_line = terminal_position t2 })

-- The branches of monitor_process_key_press, with the cursor on the command line. With Enter the
-- result holds the command.
unfoldable pub edit_line : (scancode : ℕ) → Monitor → Option (Monitor × Option Bytes)
edit_line scancode mon =
    let code = scancodes scancode in
    let p = mon.command_line in
    if scancode == key_backspace && ltb prompt_len p.column
    then then_do
        (terminal_set_position (record { row = p.row; column = p.column - 1 }) mon.terminal)
        (λ t1. then_do (terminal_put b' ' t1) (λ t2. some (
          record { terminal = t2; command_line = record { row = p.row; column = p.column - 1 } },
          none,
        )))
    else if code == b'\n'
    then (let t1 = terminal_read_command prompt_len mon.terminal in
        some (record mon { terminal = terminal_clear_line t1 }, some t1.command))
    else if code == 0
    then some (mon, none)
    else if ltb p.column (col_count - 1)
    then then_do (terminal_put code mon.terminal) (λ t1. some (
      record { terminal = t1; command_line = record { row = p.row; column = p.column + 1 } },
      none,
    ))
    else some (mon, none)

-- `if (command != NULL)` after the branches
unfoldable pub redraw_prompt : Option Bytes → Monitor → Option Monitor
redraw_prompt none mon = some mon
redraw_prompt (some command) mon =
    then_do (put_all command_line_prompt mon.terminal)
      λ t. some (record { terminal = t; command_line = terminal_position t })

-- monitor_process_key_press up to the processing of a command.
unfoldable pub press_key : (scancode : ℕ) → Monitor → Option (Monitor × Option Bytes)
press_key scancode mon =
    let p = terminal_position mon.terminal in
    then_do (terminal_set_position mon.command_line mon.terminal) λ t.
      then_do (edit_line scancode (record mon { terminal = t })) λ (mon1, command).
        then_do (redraw_prompt command mon1) λ mon2.
          then_do (terminal_set_position p mon2.terminal)
            λ t'. some (record mon2 { terminal = t' }, command)
