-- ===== src/Interrupt/Keeps/Commands.antt =====
-- The commands of the monitor: only `kill` touches the tasks.
use ann.Base.{
  ℕ, Option, none, some, Option-cases, Bool-cases, inl, inr, ◌==◌, not, ◌+◌, [], List, [], ◌+◌,
}
use ann.LinkedList.{ListOps}
use ann.CString.{Bytes, atoi}
use ann.Terminal.{Terminal}
use ann.Task.{Kernel}
use ann.Task.Create.{Step, returns, panics, faults}
use ann.Monitor.{Monitor, press_key, or_zero}
use ann.Monitor.Command.{
  Words, Handler, clear_command, help_command, ps_command, kill_command, on_screen, or_panic,
  kill_handler, run_handler, unknown_command, monitor_process_command, monitor_process_key_press,
  words_of, find_command, at_offset, monitor_command, command_size,
}
use ann.Interrupt.Keeps.{Entered, Ends, never, ended}
use ann.Interrupt.Keeps.Tasks.{task_kill-Ends}

module _ ⦃q : ListOps⦄ (c : ℕ) where
  on_screen-Ends :
      (o : Option Terminal) (mon : Monitor) (k : Kernel)
      → Entered c k
      → Ends (λ _ k'. Entered c k') (on_screen o mon k)
  on_screen-Ends none mon k s = never
  on_screen-Ends (some t) mon k s = ended s

  or_panic-Ends :
      (o : Option Monitor) (k : Kernel) → Entered c k → Ends (λ _ k'. Entered c k') (or_panic o k)
  or_panic-Ends none k s = never
  or_panic-Ends (some mon) k s = ended s

  killed-Ends :
      (mon : Monitor) {x : Step (Unit {0})}
      → Ends (λ _ k'. Entered c k') x
      → Ends
          (λ _ k'. Entered c k')
          (elim x [ returns _ k' ↦ returns mon k' | panics ↦ panics | faults ↦ faults ])
  killed-Ends mon never = never
  killed-Ends mon (ended s) = ended s

  kill_handler-Ends :
      (w : Words) (mon : Monitor) (k : Kernel)
      → Entered c k
      → Ends (λ _ k'. Entered c k') (kill_handler w mon k)
  unfolding kill_handler
  kill_handler-Ends w mon k s = elim (Bool-cases (not (w.argc == 2))) [
    | inl usage ↦ rw (kill_handler, usage) (on_screen-Ends _ mon k s)
    | inr two ↦
        elim (Option-cases (atoi (command_size + 1) (at_offset w.command (or_zero (w.argv 1))))) [
          | inl e ↦ rw (kill_handler, two, e) never
          | inr (id, e) ↦ rw (kill_handler, two, e) (killed-Ends mon (task_kill-Ends c id k s))
        ]
  ]

  run_handler-Ends :
      (h : Handler) (w : Words) (mon : Monitor) (k : Kernel)
      → Entered c k
      → Ends (λ _ k'. Entered c k') (run_handler h w mon k)
  unfolding run_handler
  run_handler-Ends clear_command w mon k s = or_panic-Ends _ k s
  run_handler-Ends help_command w mon k s = on_screen-Ends _ mon k s
  run_handler-Ends ps_command w mon k s = on_screen-Ends _ mon k s
  run_handler-Ends kill_command w mon k s = kill_handler-Ends w mon k s

  unknown_command-Ends :
      (name : List ℕ) (mon : Monitor) (k : Kernel)
      → Entered c k
      → Ends (λ _ k'. Entered c k') (unknown_command name mon k)
  unfolding unknown_command
  unknown_command-Ends name mon k s = on_screen-Ends _ mon k s

  monitor_process_command-Ends :
      (line : Bytes) (mon : Monitor) (k : Kernel)
      → Entered c k
      → Ends (λ _ k'. Entered c k') (monitor_process_command line mon k)
  unfolding monitor_process_command
  monitor_process_command-Ends line mon k s =
      let w = words_of line in
      elim (Option-cases (w.argv 0)) [
        | inl e ↦ rw (monitor_process_command, e) (unknown_command-Ends [] mon k s)
        | inr (p, e) ↦ elim (Option-cases (find_command (at_offset w.command p) monitor_command)) [
          | inl e' ↦ rw (monitor_process_command, e, e') (unknown_command-Ends _ mon k s)
          | inr (h, e') ↦ rw (monitor_process_command, e, e') (run_handler-Ends h w mon k s)
        ]
      ]

  pub monitor_process_key_press-Ends :
      (scancode : ℕ) (mon : Monitor) (k : Kernel)
      → Entered c k
      → Ends (λ _ k'. Entered c k') (monitor_process_key_press scancode mon k)
  unfolding monitor_process_key_press
  monitor_process_key_press-Ends scancode mon k s = elim (Option-cases (press_key scancode mon)) [
    | inl e ↦ rw (monitor_process_key_press, e) never
    | inr ((mon', none), e) ↦ rw (monitor_process_key_press, e) (ended s)
    | inr ((mon', some line), e) ↦
        rw (monitor_process_key_press, e) (monitor_process_command-Ends line mon' k s)
  ]
