-- ===== src/Monitor/Command.antt =====
-- The commands of kernel/monitor.c. What task_kill and task_list print is not modelled.
use ann.Base.{
  ℕ, zero, suc, ◌+◌, Option, none, some, Bool, false, List, [], ◌∷◌, get_elem?, not, bit_and, ◌==◌,
  ◌&&◌, update, if◌then◌else◌, codes,
}
use ann.LinkedList.{ListOps}
use ann.CString.{Bytes, strncpy, strcmp, is_zero, atoi}
use ann.Terminal.{Terminal, terminal_clear, then_do}
use ann.Terminal.Number.{put_all}
use ann.Terminal.Printf.{number, text, terminal_vprintf}
use ann.Task.{Kernel, Task, is_ready, is_run, task_max_cnt}
use ann.Task.Create.{Step, returns, panics, faults, name_size}
use ann.Task.Destroy.{task_kill, gdt_dpl_u}
use ann.Monitor.{Monitor, monitor_init, press_key, or_zero}

-- The local variables of the loop in monitor_process_command: `argv` holds offsets into `command`.
pub record Words : Type 0 where
  pub argc : ℕ
  pub argv : ℕ → Option ℕ
  pub command : Bytes

-- The loop from offset `p` on. The text ends within `fuel` bytes.
unfoldable pub split_words : (fuel p : ℕ) → Words → Words
split_words zero p w = w
split_words (suc fuel) p w =
    let c = w.command p in
    let next = λ (w' : Words). split_words fuel (p + 1) w' in
    if c == 0 then w else elim (w.argv w.argc) [
      | none ↦
          if c == b' '
          then next w
          else next (record w { argv = λ i. if i == w.argc then some p else w.argv i })
      | some _ ↦
          if c == b' '
          then next (record w { command = update w.command p 0; argc = w.argc + 1 })
          else next w
    ]

abbrev pub command_size : ℕ
command_size = 256

-- The words of a command, `argc` counting the last one.
unfoldable pub words_of : Bytes → Words
words_of c =
    let w =
      split_words command_size 0
        (record { argc = 0; argv = λ i. none; command = strncpy (λ i. 0) c command_size }) in
    elim (w.argv w.argc) [ none ↦ w | some _ ↦ record w { argc = w.argc + 1 } ]

pub data Handler : Type 0 where
  clear_command help_command ps_command kill_command : Handler

pub record MonitorCommand : Type 0 where
  pub name : List ℕ
  pub description : List ℕ
  pub handler : Handler

-- The entries before the one with the handler NULL
abbrev pub monitor_command : List MonitorCommand
monitor_command =
    record { name = codes "clear"; description = codes "clear screen"; handler = clear_command }
    ∷ record {
      name = codes "help";
      description = codes "show this message";
      handler = help_command;
    }
    ∷ record {
      name = codes "ps";
      description = codes "show running processes";
      handler = ps_command;
    }
    ∷ record {
      name = codes "kill";
      description = codes "kill process by id";
      handler = kill_command;
    }
    ∷ []

-- A text in memory, with NUL bytes behind it; and the text that stands at an offset.
abbrev pub bytes_of : List ℕ → Bytes
bytes_of s i = or_zero (get_elem? s i)

abbrev pub at_offset : Bytes → ℕ → Bytes
at_offset s p i = s (p + i)

unfoldable pub chars_of : (fuel : ℕ) → Bytes → List ℕ
chars_of zero s = []
chars_of (suc fuel) s =
    let rest = chars_of fuel (at_offset s 1) in if s 0 == 0 then [] else s 0 ∷ rest

-- `strcmp(s, name) == 0`
unfoldable pub same_text : Bytes → List ℕ → Bool
same_text s name = elim (strcmp (command_size + 1) s (bytes_of name)) [
  | none ↦ false
  | some r ↦ is_zero r
]

unfoldable pub find_command : Bytes → List MonitorCommand → Option Handler
find_command s [] = none
find_command s (c ∷ cs) = if same_text s c.name then some c.handler else find_command s cs

unfoldable pub print_commands : List MonitorCommand → Terminal → Option Terminal
print_commands [] t = some t
print_commands (c ∷ cs) t =
    then_do (terminal_vprintf (codes "`%s': %s\n") (text c.name ∷ text c.description ∷ []) t)
      (print_commands cs)

unfoldable pub help_command_handler : Terminal → Option Terminal
help_command_handler t =
    then_do (put_all (codes "Available commands:\n") t) (print_commands monitor_command)

-- The loop of task_list, with `n` tasks left.
unfoldable pub list_tasks : (n i : ℕ) → Kernel → Terminal → Option Terminal
list_tasks zero i k t = some t
list_tasks (suc n) i k t =
    let task : Task = k.tasks i in
    let rest = λ (t' : Terminal). list_tasks n (i + 1) k t' in
    if not (is_run task.state) && not (is_ready task.state)
    then rest t
    else then_do
        (terminal_vprintf (codes "  %d         %s          %s\n")
          (number task.id
            ∷ text (chars_of name_size task.name)
            ∷ text (if bit_and task.context.cs gdt_dpl_u == 0 then codes "kernel" else codes "user")
            ∷ [])
          t)
        rest

unfoldable pub task_list : Kernel → Terminal → Option Terminal
task_list k t =
    then_do (put_all (codes "task_id        name           owner\n") t)
      (list_tasks task_max_cnt 0 k)

-- A change of the screen; the kernel panics if an assertion fails in it.
abbrev pub on_screen : Option Terminal → Monitor → Kernel → Step Monitor
on_screen none mon k = panics
on_screen (some t) mon k = returns (record mon { terminal = t }) k

abbrev pub or_panic : Option Monitor → Kernel → Step Monitor
or_panic none k = panics
or_panic (some mon) k = returns mon k

module _ ⦃q : ListOps⦄ where
  -- kill_command_handler
  unfoldable pub kill_handler : Words → Monitor → Kernel → Step Monitor
  kill_handler w mon k =
      if not (w.argc == 2)
      then on_screen (put_all (codes "Usage: kill <task_id>\n") mon.terminal) mon k
      else elim (atoi (command_size + 1) (at_offset w.command (or_zero (w.argv 1)))) [
        | none ↦ panics
        | some id ↦ elim (task_kill id k) [
          | returns _ k' ↦ returns mon k'
          | panics ↦ panics
          | faults ↦ faults
        ]
      ]

  unfoldable pub run_handler : Handler → Words → Monitor → Kernel → Step Monitor
  run_handler clear_command w mon k =
      or_panic (monitor_init (record mon { terminal = terminal_clear mon.terminal })) k
  run_handler help_command w mon k = on_screen (help_command_handler mon.terminal) mon k
  run_handler ps_command w mon k = on_screen (task_list k mon.terminal) mon k
  run_handler kill_command w mon k = kill_handler w mon k

  unfoldable pub unknown_command : List ℕ → Monitor → Kernel → Step Monitor
  unknown_command s mon k =
      on_screen
        (then_do (terminal_vprintf (codes "unknown command: `%s'\n") (text s ∷ []) mon.terminal)
          help_command_handler)
        mon k

  unfoldable pub monitor_process_command : Bytes → Monitor → Kernel → Step Monitor
  monitor_process_command c mon k =
      let w = words_of c in
      elim (w.argv 0) [
        | none ↦ unknown_command [] mon k
        | some p ↦
            let arg = at_offset w.command p in
            elim (find_command arg monitor_command) [
              | none ↦ unknown_command (chars_of command_size arg) mon k
              | some h ↦ run_handler h w mon k
            ]
      ]

  unfoldable pub monitor_process_key_press : (scancode : ℕ) → Monitor → Kernel → Step Monitor
  monitor_process_key_press scancode mon k = elim (press_key scancode mon) [
    | none ↦ panics
    | some (mon', none) ↦ returns mon' k
    | some (mon', some c) ↦ monitor_process_command c mon' k
  ]
