-- ===== src/Terminal/Tests.antt =====
-- The screen at the end of its last line of text.
use ann.Base.{[], ◌∷◌, some, ◌≡◌, refl, arith, inr}
use ann.Terminal.{Terminal, terminal_put_color, terminal_make_char}
use ann.Terminal.Laws.{OnScreen, Stays, Writes, terminal_put_color-Stays, terminal_put_color-Writes}
use ann.Terminal.Printf.{number, terminal_vprintf, terminal_vprintf-escape}
use ann.Terminal.Number.{put_all, Prints, terminal_print_digit-Prints}

abbrev at_end : Terminal
at_end = record { buffer = λ j. j; color = 15; column = 79; row = 22; command = λ i. 0 }

at_end-OnScreen : OnScreen at_end
at_end-OnScreen = record { row = omega arith; column = omega arith }

terminal_put_color-Stays_example : Stays at_end (terminal_put_color b'\t' 15 at_end)
terminal_put_color-Stays_example = terminal_put_color-Stays b'\t' 15 at_end at_end-OnScreen

terminal_put_color-Writes_example :
    (t' : Terminal) × (terminal_put_color b'a' 15 at_end ≡ some t')
    × Writes (terminal_make_char b'a' 15) at_end t'
terminal_put_color-Writes_example =
    terminal_put_color-Writes b'a' 15 at_end at_end-OnScreen (λ e. omega (arith, e))
      (λ e. omega (arith, e)) (λ e. omega (arith, e))

terminal_print_digit-Prints_example : Prints 64 0xc0ffee 16
terminal_print_digit-Prints_example =
    terminal_print_digit-Prints 64 0xc0ffee 16 (inr (inr refl)) (omega arith) (omega arith)

terminal_vprintf-escape_example :
    terminal_vprintf (b'5' ∷ b'%' ∷ b'%' ∷ []) (number 7 ∷ []) at_end
    ≡ put_all (b'5' ∷ b'%' ∷ []) at_end
terminal_vprintf-escape_example = terminal_vprintf-escape (b'5' ∷ b'%' ∷ []) (number 7 ∷ []) at_end
