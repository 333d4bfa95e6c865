-- ===== src/Config.antt =====
-- internal/config/config.go. `env` is `os.Getenv` once the file .env is read, with no text for what is
-- not set; `parse_duration` is `time.ParseDuration`.
pub mod Sound
use telegram_remote_terminal.Prelude.{
  ℕ, ℤ, pos, negsuc, Bool, true, false, ◌||◌, List, [], ◌∷◌, Bytes, codes, Option, none, some,
  if◌then◌else◌, eq_bytes, nonpos, ◌==◌, ◌*◌,
}
use telegram_remote_terminal.Text.{trim_space, to_lower, is_empty}
use telegram_remote_terminal.Text.Decimal.{parse_int64}

pub record Config : Type 0 where
  pub web_term_token_ttl : ℤ
  pub shell : Bytes
  pub work_dir : Bytes
  pub listen_addr : Bytes
  pub session_idle_timeout : ℤ
  pub event_history_ttl : ℤ
  pub shutdown_timeout : ℤ
  pub max_output_chunk : ℤ
  pub command_allow_prefixes : List Bytes
  pub command_deny_substrings : List Bytes
  pub audit_log_path : Bytes
  pub dashboard_db_path : Bytes
  pub dashboard_encryption_key : Bytes
  pub console_auth_password_hash : Bytes
  pub console_auth_session_ttl : ℤ

abbrev onto_first : ℕ → List Bytes → List Bytes
onto_first c [] = (c ∷ []) ∷ []
onto_first c (part ∷ parts) = (c ∷ part) ∷ parts

-- `strings.Split(s, ",")`
unfoldable pub split_comma : Bytes → List Bytes
split_comma [] = [] ∷ []
split_comma (c ∷ s) =
    let parts = split_comma s in if c == b',' then [] ∷ parts else onto_first c parts

-- The parts that are not blank, trimmed.
unfoldable pub kept_parts : List Bytes → List Bytes
kept_parts [] = []
kept_parts (p ∷ parts) =
    let rest = kept_parts parts in if is_empty (trim_space p) then rest else trim_space p ∷ rest

unfoldable pub parse_string_list : Bytes → List Bytes
unfolding split_comma kept_parts
parse_string_list raw = kept_parts (split_comma raw)

-- `raw` is what the environment has for the key.
unfoldable pub get_with_default : (raw fallback : Bytes) → Bytes
get_with_default raw fallback = if is_empty (trim_space raw) then fallback else trim_space raw

unfoldable pub must_int : (raw : Bytes) (fallback : ℤ) → ℤ
unfolding parse_int64
must_int raw fallback =
    if is_empty (trim_space raw) then fallback else elim (parse_int64 (trim_space raw)) [
      | none ↦ fallback
      | some parsed ↦ if nonpos parsed then fallback else parsed
    ]

unfoldable pub must_bool : (Bytes → Bytes) → (raw : Bytes) (fallback : Bool) → Bool
must_bool fold raw fallback =
    let text = trim_space (to_lower fold raw) in
    if is_empty text
    then fallback
    else if eq_bytes text (codes "1")
        || eq_bytes text (codes "true")
        || eq_bytes text (codes "yes")
        || eq_bytes text (codes "on")
    then true
    else if eq_bytes text (codes "0")
        || eq_bytes text (codes "false")
        || eq_bytes text (codes "no")
        || eq_bytes text (codes "off")
    then false
    else fallback

-- a second, in nanoseconds
abbrev seconds : ℕ → ℤ
seconds n = pos (n * 1_000_000_000)

module _ (parse_duration : Bytes → Option ℤ) where
  unfoldable pub must_duration : (raw : Bytes) (fallback : ℤ) → ℤ
  must_duration raw fallback =
      if is_empty (trim_space raw)
      then fallback
      else elim (parse_duration (trim_space raw)) [ none ↦ fallback | some parsed ↦ parsed ]

  unfoldable pub load : (env : Bytes → Bytes) → Config
  unfolding must_duration get_with_default must_int parse_string_list
  load env = record {
    web_term_token_ttl = must_duration (env (codes "WEB_TERM_TOKEN_TTL")) (seconds 300);
    shell = get_with_default (env (codes "SHELL_PATH")) (codes "/bin/bash");
    work_dir = get_with_default (env (codes "TERMINAL_WORKDIR")) (codes ".");
    listen_addr = get_with_default (env (codes "LISTEN_ADDR")) (codes ":8080");
    session_idle_timeout = must_duration (env (codes "SESSION_IDLE_TIMEOUT")) (seconds 1_800);
    event_history_ttl = must_duration (env (codes "EVENT_HISTORY_TTL")) (seconds 86_400);
    shutdown_timeout = must_duration (env (codes "SHUTDOWN_TIMEOUT")) (seconds 8);
    max_output_chunk = must_int (env (codes "MAX_OUTPUT_CHUNK")) (pos 3_000);
    command_allow_prefixes = parse_string_list (env (codes "COMMAND_ALLOW_PREFIXES"));
    command_deny_substrings = parse_string_list (env (codes "COMMAND_DENY_SUBSTRINGS"));
    audit_log_path = get_with_default (env (codes "AUDIT_LOG_PATH")) (codes "logs/audit.log");
    dashboard_db_path =
        get_with_default (env (codes "DASHBOARD_DB_PATH")) (codes "data/dashboard.sqlite");
    dashboard_encryption_key = trim_space (env (codes "DASHBOARD_ENCRYPTION_KEY"));
    console_auth_password_hash = trim_space (env (codes "CONSOLE_AUTH_PASSWORD_HASH"));
    console_auth_session_ttl =
        must_duration (env (codes "CONSOLE_AUTH_SESSION_TTL")) (seconds 43_200);
  }
