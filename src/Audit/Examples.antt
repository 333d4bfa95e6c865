-- ===== src/Audit/Examples.antt =====
-- The theorem on the audit file, with the source of a record as its text.
use telegram_remote_terminal.Prelude.{
  pos, ◌≡◌, refl, true, [], ◌∷◌, Bytes, codes, Option, none, some, All, if◌then◌else◌, false, inl,
  inr, Bool-cases, subst, sym, ◌∙◌, if_true, if_false,
}
use telegram_remote_terminal.Terminal.Manager.{Record, command}
use telegram_remote_terminal.Audit.{Logger}
use telegram_remote_terminal.Audit.Lines.{IsInLine, lines_of, texts_of, log_all, lines_of-log_all}

-- A record of an operation that is allowed is its one letter `+`, and another is not written.
letter : Record → Option Bytes
letter r = if r.allowed then some (codes "+") else none

letter-IsInLine : (r : Record) (text : Bytes) → letter r ≡ some text → All IsInLine text
unfolding letter
letter-IsInLine r text e = elim (Bool-cases r.allowed) [
  | inl allowed ↦
      subst (λ t. All IsInLine t) (some_eq (sym (if_true r.allowed _ _ allowed) ∙ e)) (refl, tt)
  | inr refused ↦ elim (none_some (sym (if_false r.allowed _ _ refused) ∙ e)) [ ]
]
  where
    some_eq : {s t : Bytes} → some s ≡ some t → s ≡ t
    some_eq h = cc

    none_some : {t : Bytes} → none ≡ some t → ⊥
    none_some h = cc

abbrev new_file : Logger
new_file = record { content = []; closed = false }

abbrev listed : Record
listed = record {
  timestamp = 1;
  chat_id = pos 7;
  user_id = pos 1;
  source = codes "webterm";
  audited = command (codes "ls");
  allowed = true;
  error = none;
}

lines_of-log_all_example :
    lines_of (log_all letter new_file (listed ∷ listed ∷ [])).content
    ≡ texts_of letter (listed ∷ listed ∷ [])
lines_of-log_all_example =
    lines_of-log_all letter new_file (listed ∷ listed ∷ []) refl refl letter-IsInLine
