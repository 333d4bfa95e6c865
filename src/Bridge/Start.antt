-- ===== src/Bridge/Start.antt =====
-- How cmd/bridge/main.go builds the server of a configuration.
use telegram_remote_terminal.Prelude.{
  ℤ, pos, ◌≡◌, refl, ap, inl, inr, Bool, true, false, not, [], Bytes, codes, Option, none, some,
  if◌then◌else◌, nonpos, All, arith, Bool-cases, if_false, ◌∙◌,
}
use telegram_remote_terminal.Text.{trim_space, is_empty}
use telegram_remote_terminal.Events.{new_bus}
use telegram_remote_terminal.Hub.{new_hub}
use telegram_remote_terminal.Terminal.Manager.{Manager, Created, created, refused, new_manager}
use telegram_remote_terminal.Terminal.Manager
use telegram_remote_terminal.Config.{Config, load}
use telegram_remote_terminal.Config.Sound.{
  IsGiven, IsCount, get_with_default-IsGiven, parse_string_list-IsGiven, must_int-IsCount,
}
use telegram_remote_terminal.Dashboard.Database.{Database}
use telegram_remote_terminal.Web.Auth.{new_console_auth, is_enabled}
use telegram_remote_terminal.Web.Tokens.{new_token_store}
use telegram_remote_terminal.Web.Server.{Server}

abbrev pub manager_config : Config → Manager.Config
manager_config cfg = record {
  shell = cfg.shell;
  work_dir = cfg.work_dir;
  idle_timeout = cfg.session_idle_timeout;
  has_bus = true;
  allow_prefixes = cfg.command_allow_prefixes;
  deny_substrings = cfg.command_deny_substrings;
  has_audit = true;
}

positive :
    (z fallback : ℤ) → nonpos fallback ≡ false → nonpos (if nonpos z then fallback else z) ≡ false
positive z fallback h = elim (Bool-cases (nonpos z)) [
  | inl low ↦ rw low h
  | inr high ↦ rw high high
]

-- A manager that is new and waits a positive time.
abbrev pub IsFresh : Manager.Config → Manager → Type 0
IsFresh cfg m =
    (m.closed ≡ false)
    × ((m.sessions ≡ [])
        × ((nonpos m.config.idle_timeout ≡ false)
            × ((m.config.deny_substrings ≡ cfg.deny_substrings)
                × (m.config.allow_prefixes ≡ cfg.allow_prefixes))))

new_manager-set :
    (cfg : Manager.Config)
    → IsGiven cfg.shell
    → IsGiven cfg.work_dir
    → cfg.has_bus ≡ true
    → (m : Manager) × ((new_manager cfg ≡ created m) × IsFresh cfg m)
unfolding new_manager
new_manager-set cfg shell dir bus = (
  _,
  (
    if_false (is_empty cfg.shell) _ _ shell
        ∙ (if_false (is_empty cfg.work_dir) _ _ dir ∙ if_false (not cfg.has_bus) _ _ (ap not bus)),
    (refl, (refl, (positive cfg.idle_timeout _ refl, (refl, refl)))),
  ),
)

module _ (D : Database) where
  abbrev server_of : Config → Manager → D.Db → Server D
  server_of cfg m d = record {
    bus = new_bus (pos 200) cfg.event_history_ttl;
    manager = m;
    tokens = new_token_store cfg.web_term_token_ttl;
    store = some d;
    auth = some (new_console_auth cfg.console_auth_password_hash cfg.console_auth_session_ttl);
    agent_hub = some (new_hub true);
  }

  abbrev with_manager : Config → Created → Option D.Db → Option (Server D)
  with_manager cfg (refused e) store = none
  with_manager cfg (created m) none = none
  with_manager cfg (created m) (some d) = some (server_of cfg m d)

  -- `none` is that the program ends; `log_opens` is whether the audit log is opened, and `store` what
  -- was opened as the dashboard's database.
  unfoldable pub start : Config → (log_opens : Bool) → (store : Option D.Db) → Option (Server D)
  unfolding new_bus new_manager new_token_store new_console_auth new_hub
  start cfg log_opens store =
      if not log_opens then none else with_manager cfg (new_manager (manager_config cfg)) store

  console_on :
      (hash : Bytes) (ttl : ℤ)
      → is_enabled (some (new_console_auth hash ttl)) ≡ not (is_empty (trim_space hash))
  unfolding new_console_auth
  console_on hash ttl = elim (Bool-cases (is_empty (trim_space hash))) [
    | inl blank ↦ rw (blank, new_console_auth) refl
    | inr there ↦ rw (there, new_console_auth) refl
  ]

  -- Whatever the environment has, the program comes up once its log and its database are opened: the
  -- manager is made, is open and without sessions, and it and the token store have positive times to
  -- live; no entry of the two command lists is empty, and the size of an output chunk is a positive
  -- int64. The console is open to all exactly if the password's hash is blank.
  pub start-load :
      (parse_duration : Bytes → Option ℤ) (env : Bytes → Bytes) (d : D.Db)
      → let cfg = load parse_duration env in
        (s : Server D) × ((start cfg true (some d) ≡ some s)
          × (IsFresh (manager_config cfg) s.manager
              × ((nonpos s.tokens.ttl ≡ false)
                  × ((All IsGiven cfg.command_deny_substrings
                        × All IsGiven cfg.command_allow_prefixes)
                      × (IsCount cfg.max_output_chunk
                          × (is_enabled s.auth
                              ≡ not (is_empty (trim_space cfg.console_auth_password_hash))))))))
  unfolding start load new_token_store new_console_auth
  start-load parse_duration env d =
      let cfg = load parse_duration env in
      let (m, (made, fresh)) =
        new_manager-set (manager_config cfg) (get_with_default-IsGiven _ _ refl)
          (get_with_default-IsGiven _ _ refl) refl in
      (
        server_of cfg m d,
        (
          rw (start, made) refl,
          (
            fresh,
            (
              positive cfg.web_term_token_ttl _ refl,
              (
                (
                  parse_string_list-IsGiven (env (codes "COMMAND_DENY_SUBSTRINGS")),
                  parse_string_list-IsGiven (env (codes "COMMAND_ALLOW_PREFIXES")),
                ),
                (
                  must_int-IsCount _ _ (refl, omega arith),
                  console_on _ cfg.console_auth_session_ttl,
                ),
              ),
            ),
          ),
        ),
      )
