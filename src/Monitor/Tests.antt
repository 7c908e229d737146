-- ===== src/Monitor/Tests.antt =====
-- Keys at a command line with a few characters, and at one that is nearly full.
use ann.Base.{ℕ, ◌≡◌, refl, arith, none}
use ann.Monitor.{Monitor, press_key}
use ann.Monitor.Edit.{Pressed}
use ann.Monitor.Laws.{press_key-Pressed, press_key-tab}

-- The text's cursor is at the start; the command line is at this column.
abbrev screen_at : ℕ → Monitor
screen_at c = record {
  terminal = record { buffer = λ j. 0; color = 7; column = 0; row = 0; command = λ i. 0 };
  command_line = record { row = 24; column = c };
}

press_key-Pressed_example : Pressed (screen_at 5) (press_key 0x1e (screen_at 5))
press_key-Pressed_example =
    press_key-Pressed 0x1e (screen_at 5)
      (record { row = refl; from = omega arith; within = omega arith })
      (record { row = omega arith; column = omega arith }) (λ e. omega arith)

press_key-tab_example : press_key 0xf (screen_at 72) ≡ none
press_key-tab_example = press_key-tab (screen_at 72) refl (omega arith) (omega arith)
