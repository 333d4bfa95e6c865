-- ===== src/Terminal/Examples.antt =====
-- The theorems on the terminal manager at a concrete manager: chat 7 has session 0, which runs; the
-- policy admits `ls` and denies `rm -rf`.
use telegram_remote_terminal.Prelude.{
  Bool, nat_key, some, lookup, insert, int_key, ℤ, pos, ◌≡◌, ◌↔◌, ◌⊎◌, inr, refl, true, false, [],
  ◌∷◌, Bytes, none, codes, lookup, insert, nat_key, int_key, is_some, Any,
}
use telegram_remote_terminal.Text.{trim_space, to_lower, contains}
use telegram_remote_terminal.Terminal.Policy.{
  validate_command, Denies, Admitted, validate_command_iff,
}
use telegram_remote_terminal.Terminal.Session.{fresh_session, write_line, io_failed}
use telegram_remote_terminal.Terminal.Manager.{
  ManagedSession, on_session, Config, CommandMeta, Manager, command, control, resized, new_manager,
  new_session, register,
}
use telegram_remote_terminal.Terminal.Manager.Operations.{
  execute_with_meta, send_control, send_interactive_input, interactive_audit_command, resize,
}
use telegram_remote_terminal.Terminal.Manager.Closing.{close, on_exit}
use telegram_remote_terminal.Terminal.Manager.Stale.{register-on_exit_stale}
use telegram_remote_terminal.Terminal.Manager.Gate.{
  send_interactive_input-Logged, resize-Logged, execute_with_meta-Logged, execute_with_meta_refused,
  send_control-Logged,
}
use telegram_remote_terminal.Terminal.Manager.Logged.{Logged}
use telegram_remote_terminal.Terminal.Manager.Running.{Runs, IsRegistered, IsPending}
use telegram_remote_terminal.Terminal.Manager.Leaks.Reach.{
  Reach, starts, creates, registers, closes, Reach-tracked, Reach-closed,
}

abbrev unchanged : Bytes → Bytes
unchanged s = s

abbrev setup : Config
setup = record {
  shell = codes "sh";
  work_dir = codes "/";
  idle_timeout = pos 100;
  has_bus = true;
  allow_prefixes = codes "ls" ∷ [];
  deny_substrings = codes "rm -rf" ∷ [];
  has_audit = true;
}

abbrev manager_new : Manager
manager_new = record {
  config = setup;
  sessions = [];
  closed = false;
  heap = [];
  next = 0;
  events = [];
  records = [];
}

abbrev chat_7 : ℤ
chat_7 = pos 7

abbrev sender : CommandMeta
sender = record { user_id = pos 1; source = codes "telegram" }

abbrev manager_7 : Manager
manager_7 = (register (new_session manager_new).0 5 chat_7 0).0

manager_7-Reach : Reach setup manager_7 []
unfolding new_manager new_session register
manager_7-Reach =
    registers (new_session manager_new).0 [] [] 5 chat_7 0
      (creates manager_new [] chat_7 (starts manager_new refl))

Reach-tracked_example : IsRegistered manager_7 0 ⊎ IsPending [] 0
unfolding new_session register lookup insert
Reach-tracked_example =
    Reach-tracked setup manager_7 [] 0 manager_7-Reach (fresh_session, refl, refl)

Reach-closed_example : ¬ Runs (close manager_7) 0
unfolding close new_session register lookup insert
Reach-closed_example =
    Reach-closed setup (close manager_7) 0 (closes manager_7 [] manager_7-Reach) refl

validate_command_iff_example :
    (validate_command unchanged setup.deny_substrings setup.allow_prefixes (codes "ls -l") ≡ none)
    ↔ ((¬ Any (Denies unchanged (codes "ls -l")) setup.deny_substrings)
        × Admitted unchanged (codes "ls -l") setup.allow_prefixes)
validate_command_iff_example =
    validate_command_iff unchanged (codes "ls -l") setup.deny_substrings setup.allow_prefixes

execute_with_meta-Logged_example :
    Logged manager_7 chat_7
      (command (trim_space (codes " ls ")))
      (execute_with_meta unchanged manager_7 9 true true chat_7 (codes " ls ") sender)
unfolding new_session register lookup
execute_with_meta-Logged_example =
    execute_with_meta-Logged unchanged manager_7 9 true true chat_7 (codes " ls ") sender refl

abbrev rm_line : Bytes
rm_line = codes "ls; rm -rf /"

execute_with_meta_refused_example :
    let (m', error) = execute_with_meta unchanged manager_7 9 true true chat_7 rm_line sender in
    (m' ≡ record manager_7 { records = m'.records }) × (is_some error ≡ true)
unfolding validate_command trim_space to_lower contains new_session register lookup
execute_with_meta_refused_example =
    execute_with_meta_refused unchanged manager_7 9 true true chat_7 rm_line sender (
      inr (λ h. cc (
        (validate_command_iff unchanged (trim_space rm_line) (codes "rm -rf" ∷ [])
            (codes "ls" ∷ [])).1
          h)))

send_interactive_input-Logged_example :
    Logged manager_7 chat_7
      (interactive_audit_command (codes "y") true)
      (send_interactive_input manager_7 9 true true chat_7 (codes "y") true sender)
unfolding new_session register lookup
send_interactive_input-Logged_example =
    send_interactive_input-Logged manager_7 9 true true chat_7 (codes "y") true sender refl

send_control-Logged_example :
    Logged manager_7 chat_7
      (control (codes "ctrlc"))
      (send_control unchanged manager_7 9 true true chat_7 (codes "ctrlc") sender)
unfolding new_session register lookup
send_control-Logged_example =
    send_control-Logged unchanged manager_7 9 true true chat_7 (codes "ctrlc") sender refl

resize-Logged_example :
    Logged manager_7 chat_7
      (resized (pos 80) (pos 24))
      (resize manager_7 9 true true chat_7 (pos 80) (pos 24) sender)
unfolding new_session register lookup
resize-Logged_example = resize-Logged manager_7 9 true true chat_7 (pos 80) (pos 24) sender refl

register-on_exit_stale_example :
    let m' =
      (register (on_exit (new_session manager_new).0 4 chat_7 0 (codes "exit")) 5 chat_7 0).0 in
    ((entry : ManagedSession) × (lookup chat_7 m'.sessions ≡ some entry) × (entry.session ≡ 0))
    × ((writes : Bool) (line : Bytes)
        → (on_session m' 0 (λ t. write_line t writes line)).1 ≡ some io_failed)
unfolding new_session lookup insert
register-on_exit_stale_example =
    register-on_exit_stale (new_session manager_new).0 4 5 chat_7 0 (codes "exit") fresh_session
      refl refl refl
