-- ===== src/Terminal/Manager/Gate.antt =====
-- What an operation of internal/terminal/manager.go hands to the audit logger, and the policy as its gate.
use telegram_remote_terminal.Prelude.{
  ℕ, ℤ, Bool, true, false, Bytes, Option, none, some, is_some, Bool-cases, Option-cases,
  if◌then◌else◌, ◌≡◌, inl, inr, refl, ◌⊎◌, Any,
}
use telegram_remote_terminal.Text.{trim_space, is_empty}
use telegram_remote_terminal.Terminal.Policy.{
  validate_command, Denies, Admitted, validate_command_iff,
}
use telegram_remote_terminal.Terminal.Session.{
  Session, Error, command_empty, unsupported_control, write_bytes, blocked, write_line, write_raw,
}
use telegram_remote_terminal.Terminal.Session
use telegram_remote_terminal.Terminal.Manager.{
  CommandMeta, Audited, command, control, resized, Manager, audit, get_or_create, with_source,
}
use telegram_remote_terminal.Terminal.Manager.Operations.{
  execute_with_meta, interactive_audit_command, send_control, send_payload, control_payload,
  send_interactive_input, resize,
}
use telegram_remote_terminal.Terminal.Manager.Logged.{
  Quiet, get_or_create-Quiet, Logged, audit-Logged, use_session-Logged, with_got-Logged,
  run_on-Logged,
}

-- With an audit logger, `SendInteractiveInput` hands it exactly one record, whatever happens: of its
-- chat and its input, with the error that it returns, and allowed exactly if there is none.
pub send_interactive_input-Logged :
    (m : Manager) (now : ℕ) (starts writes : Bool) (chat : ℤ) (input : Bytes) (newline : Bool)
    → (meta : CommandMeta) → m.config.has_audit ≡ true
    → Logged m chat
        (interactive_audit_command input newline)
        (send_interactive_input m now starts writes chat input newline meta)
unfolding send_interactive_input
send_interactive_input-Logged m now starts writes chat input newline meta on =
    run_on-Logged m now starts chat (interactive_audit_command input newline) (with_source meta)
      (λ s. if newline then write_line s writes input else write_raw s writes input) on

-- With an audit logger, `Resize` hands it exactly one record, whatever happens: of its chat and the
-- size asked for, with the error that it returns, and allowed exactly if there is none.
pub resize-Logged :
    (m : Manager) (now : ℕ) (starts sets : Bool) (chat cols rows : ℤ) (meta : CommandMeta)
    → m.config.has_audit ≡ true
    → Logged m chat (resized cols rows) (resize m now starts sets chat cols rows meta)
unfolding resize
resize-Logged m now starts sets chat cols rows meta on =
    run_on-Logged m now starts chat (resized cols rows) (with_source meta)
      (λ s. Session.resize s sets cols rows) on

audit_records :
    (m : Manager) (now : ℕ) (chat : ℤ) (what : Audited) (by : CommandMeta) (allowed : Bool)
    (err : Option Error)
    → let m' = audit m now chat what by allowed err in m' ≡ record m { records = m'.records }
unfolding audit
audit_records m now chat what by allowed err = elim (Bool-cases m.config.has_audit) [
  | inl on ↦ rw on refl
  | inr off ↦ rw off refl
]

module _ (fold : Bytes → Bytes) where
  -- With an audit logger, `ExecuteWithMeta` hands it exactly one record, whether the command is empty,
  -- refused by the policy, without a session, not written or written: of its chat and the trimmed
  -- command, with the error that it returns, and allowed exactly if there is none.
  pub execute_with_meta-Logged :
      (m : Manager) (now : ℕ) (starts writes : Bool) (chat : ℤ) (text : Bytes) (meta : CommandMeta)
      → m.config.has_audit ≡ true
      → Logged m chat
          (command (trim_space text))
          (execute_with_meta fold m now starts writes chat text meta)
  unfolding execute_with_meta
  execute_with_meta-Logged m now starts writes chat text meta on =
      let line = trim_space text in
      let policy = validate_command fold m.config.deny_substrings m.config.allow_prefixes line in
      elim (Bool-cases (is_empty line)) [
        | inl nothing ↦
            rw (nothing)
              (audit-Logged m m now chat (command line) meta (some command_empty) on (refl, refl))
        | inr there ↦ elim (Option-cases policy) [
          | inl passed ↦
              rw (there, passed)
                (run_on-Logged m now starts chat (command line) (with_source meta)
                  (λ s. write_line s writes line) on)
          | inr (e, refusal) ↦
              rw (there, refusal)
                (audit-Logged m m now chat (command line) (with_source meta) (some (blocked e)) on
                  (refl, refl))
        ]
      ]

  -- A command that the policy refuses, or an empty one, reaches no session and starts none: only
  -- what the audit logger was handed can change, and an error is returned.
  pub execute_with_meta_refused :
      (m : Manager) (now : ℕ) (starts writes : Bool) (chat : ℤ) (text : Bytes) (meta : CommandMeta)
      → (is_empty (trim_space text) ≡ true)
        ⊎ (¬ (
            (¬ Any (Denies fold (trim_space text)) m.config.deny_substrings)
            × Admitted fold (trim_space text) m.config.allow_prefixes))
      → let (m', error) = execute_with_meta fold m now starts writes chat text meta in
        (m' ≡ record m { records = m'.records }) × (is_some error ≡ true)
  unfolding execute_with_meta
  execute_with_meta_refused m now starts writes chat text meta why =
      let line = trim_space text in
      let policy = validate_command fold m.config.deny_substrings m.config.allow_prefixes line in
      elim (Bool-cases (is_empty line)) [
        | inl nothing ↦ rw nothing (audit_records m now chat (command line) meta false _, refl)
        | inr there ↦ elim (Option-cases policy) [
          | inl passed ↦ absurd (elim why [
            | inl e ↦ cc (e, there)
            | inr barred ↦ barred (
                (validate_command_iff fold line m.config.deny_substrings m.config.allow_prefixes).0
                  passed)
          ])
          | inr (e, refusal) ↦
              rw (there, refusal)
                (audit_records m now chat (command line) (with_source meta) false _, refl)
        ]
      ]

  send_payload-Logged :
      (m m1 : Manager) (now : ℕ) (writes : Bool) (chat : ℤ) (text : Bytes) (by : CommandMeta)
      → (payload : Option Bytes) (id : ℕ) → m.config.has_audit ≡ true
      → Quiet m m1
      → Logged m chat (control text) (send_payload fold m1 now writes chat text by payload id)
  unfolding send_payload
  send_payload-Logged m m1 now writes chat text by none id on q =
      audit-Logged m m1 now chat (control text) by (some (unsupported_control text)) on q
  send_payload-Logged m m1 now writes chat text by (some payload) id on q =
      use_session-Logged m m1 now chat (control text) by (λ s. write_bytes s writes payload) id on q

  -- With an audit logger, `SendControl` hands it exactly one record, for an unknown key too: of its
  -- chat and the key, with the error that it returns, and allowed exactly if there is none.
  pub send_control-Logged :
      (m : Manager) (now : ℕ) (starts writes : Bool) (chat : ℤ) (text : Bytes) (meta : CommandMeta)
      → m.config.has_audit ≡ true
      → Logged m chat (control text) (send_control fold m now starts writes chat text meta)
  unfolding send_control
  send_control-Logged m now starts writes chat text meta on =
      let q = get_or_create-Quiet m now starts chat in
      let m1 = (get_or_create m now starts chat).0 in
      with_got-Logged m m1 now chat (control text) (with_source meta)
        (get_or_create m now starts chat).1
        (send_payload fold m1 now writes chat text (with_source meta) (control_payload fold text))
        on q
        (λ id.
          send_payload-Logged m m1 now writes chat text (with_source meta)
            (control_payload fold text) id on q)
