-- ===== src/Terminal/Manager/Operations.antt =====
-- The operations of internal/terminal/manager.go that take input for a chat.
use telegram_remote_terminal.Prelude.{
  ℕ, ℤ, pos, Bool, false, [], ◌∷◌, ◌++◌, Bytes, codes, Option, none, some, ltb, if◌then◌else◌,
  int_key, nat_key, eq_bytes, length, take,
}
use telegram_remote_terminal.Text.{trim_space, to_lower, is_empty}
use telegram_remote_terminal.Terminal.Policy.{validate_command}
use telegram_remote_terminal.Terminal.Session.{
  Session, Error, shell_required, workdir_required, bus_required, manager_closed, start_failed,
  unsupported_control, command_empty, blocked, io_failed, fresh_session, write_raw, write_line,
  write_bytes, stop,
}
use telegram_remote_terminal.Terminal.Session
use telegram_remote_terminal.Terminal.Manager.{
  CommandMeta, Audited, command, interactive, control, resized, Manager, audit, get_or_create,
  with_source, with_got, use_session, run_on,
}

module _ (fold : Bytes → Bytes) where
  unfoldable pub execute_with_meta :
      Manager → ℕ → Bool → Bool → ℤ → Bytes → CommandMeta → Manager × Option Error
  unfolding run_on
  execute_with_meta m now starts writes chat text meta =
      let line = trim_space text in
      let refuse = λ (e : Error) (by : CommandMeta).
        let result : Manager × Option Error =
          (audit m now chat (command line) by false (some e), some e) in
        result in
      if is_empty line
      then refuse command_empty meta
      else elim (validate_command fold m.config.deny_substrings m.config.allow_prefixes line) [
        | some e ↦ refuse (blocked e) (with_source meta)
        | none ↦
            run_on m now starts chat (command line) (with_source meta)
              (λ s. write_line s writes line)
      ]

  unfoldable pub execute : Manager → ℕ → Bool → Bool → ℤ → Bytes → Manager × Option Error
  unfolding execute_with_meta
  execute m now starts writes chat text =
      execute_with_meta m now starts writes chat text
        (record { user_id = pos 0; source = codes "internal" })

  -- The bytes of each key; `none` is the `default` case.
  unfoldable pub control_payload : Bytes → Option Bytes
  control_payload text =
      let key = to_lower fold (trim_space text) in
      if eq_bytes key (codes "ctrlc")
      then some (0x03 ∷ [])
      else if eq_bytes key (codes "ctrld")
      then some (0x04 ∷ [])
      else if eq_bytes key (codes "ctrlz")
      then some (0x1a ∷ [])
      else if eq_bytes key (codes "tab")
      then some (0x09 ∷ [])
      else if eq_bytes key (codes "up")
      then some (0x1b ∷ codes "[A")
      else if eq_bytes key (codes "down")
      then some (0x1b ∷ codes "[B")
      else none

  -- The `switch` of `SendControl` and what follows it; the session is there already.
  unfoldable pub send_payload :
      Manager → ℕ → Bool → ℤ → Bytes → CommandMeta → Option Bytes → ℕ → Manager × Option Error
  unfolding use_session
  send_payload m now writes chat text meta none id = (
    audit m now chat (control text) meta false (some (unsupported_control text)),
    some (unsupported_control text),
  )
  send_payload m now writes chat text meta (some payload) id =
      use_session m now chat (control text) meta (λ s. write_bytes s writes payload) id

  unfoldable pub send_control :
      Manager → ℕ → Bool → Bool → ℤ → Bytes → CommandMeta → Manager × Option Error
  unfolding with_got send_payload control_payload
  send_control m now starts writes chat text meta =
      let by = with_source meta in
      let (m', g) = get_or_create m now starts chat in
      with_got m' now chat (control text) by g
        (send_payload m' now writes chat text by (control_payload text))

abbrev preview_of : Bytes → Bytes
preview_of trimmed = if ltb 48 (length trimmed) then take 48 trimmed ++ codes "..." else trimmed

unfoldable pub interactive_audit_command : Bytes → Bool → Audited
interactive_audit_command input append_newline =
    let preview = preview_of (trim_space input) in
    interactive append_newline (if is_empty preview then codes "<empty>" else preview)
      (length input)

unfoldable pub send_interactive_input :
    Manager → ℕ → Bool → Bool → ℤ → Bytes → Bool → CommandMeta → Manager × Option Error
unfolding run_on interactive_audit_command
send_interactive_input m now starts writes chat input append_newline meta =
    run_on m now starts chat (interactive_audit_command input append_newline) (with_source meta)
      (λ s. if append_newline then write_line s writes input else write_raw s writes input)

unfoldable pub resize : Manager → ℕ → Bool → Bool → ℤ → ℤ → ℤ → CommandMeta → Manager × Option Error
unfolding run_on
resize m now starts sets chat cols rows meta =
    run_on m now starts chat (resized cols rows) (with_source meta)
      (λ s. Session.resize s sets cols rows)
