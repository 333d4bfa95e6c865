-- ===== src/Terminal/Manager.antt =====
-- internal/terminal/manager.go. `heap` holds every session that was started, by its number; the map
-- `sessions` refers to it, so an alias of a session sees what is written through another. `events`
-- and `records` are what was handed to the bus and to the audit logger, oldest first. What happens
-- under `mu` is one step; the clock, the outcome of starting a process and that of a write are
-- arguments. A method that fails returns its state beside the error.
pub mod Operations
pub mod Closing
pub mod Logged
pub mod Running
pub mod Gate
pub mod Leaks
pub mod Stale
pub mod Live
pub mod Frames
pub mod Elsewhere
use telegram_remote_terminal.Prelude.{
  ℕ, suc, ℤ, pos, Bool, true, false, List, [], ◌∷◌, ◌++◌, Bytes, codes, Option, none, some, Map,
  lookup, insert, remove, retain, nonpos, sub_time, ltb, if◌then◌else◌, not, int_key, nat_key,
  is_some, eq_bytes, ◌*◌, ◌==◌, keep_if, length, take,
}
use telegram_remote_terminal.Text.{trim_space, to_lower, is_empty}
use telegram_remote_terminal.Events.{OutputEvent}
use telegram_remote_terminal.Terminal.Policy.{CommandError, validate_command}
use telegram_remote_terminal.Terminal.Session.{
  Session, Error, shell_required, workdir_required, bus_required, manager_closed, start_failed,
  unsupported_control, command_empty, blocked, io_failed, fresh_session, write_raw, write_line,
  write_bytes, stop,
}
use telegram_remote_terminal.Terminal.Session

pub record Config : Type 0 where
  pub shell : Bytes
  pub work_dir : Bytes
  pub idle_timeout : ℤ
  pub has_bus : Bool
  pub allow_prefixes : List Bytes
  pub deny_substrings : List Bytes
  pub has_audit : Bool

pub record CommandMeta : Type 0 where
  pub user_id : ℤ
  pub source : Bytes

-- The command of an audit record; the code formats it into a text.
pub data Audited : Type 0 where
  command : Bytes → Audited
  interactive : (newline : Bool) (preview : Bytes) (len : ℕ) → Audited
  control : Bytes → Audited
  resized : (cols rows : ℤ) → Audited

-- internal/audit/logger.go
pub record Record : Type 0 where
  pub timestamp : ℕ
  pub chat_id : ℤ
  pub user_id : ℤ
  pub source : Bytes
  pub audited : Audited
  pub allowed : Bool
  pub error : Option Error

pub record ManagedSession : Type 0 where
  pub session : ℕ
  pub last_active : ℕ

pub record Manager : Type 0 where
  pub config : Config
  pub sessions : Map ℤ ManagedSession
  pub closed : Bool
  pub heap : Map ℕ Session
  pub next : ℕ
  pub events : List OutputEvent
  pub records : List Record

-- half an hour, in nanoseconds
abbrev pub default_idle_timeout : ℤ
default_idle_timeout = pos (1800 * 1_000_000_000)

pub data Created : Type 0 where
  created : Manager → Created
  refused : Error → Created

unfoldable pub new_manager : Config → Created
new_manager cfg =
    if is_empty cfg.shell
    then refused shell_required
    else if is_empty cfg.work_dir
    then refused workdir_required
    else if not cfg.has_bus
    then refused bus_required
    else created (record {
      config = record cfg {
        idle_timeout = if nonpos cfg.idle_timeout then default_idle_timeout else cfg.idle_timeout;
      };
      sessions = [];
      closed = false;
      heap = [];
      next = 0;
      events = [];
      records = [];
    })

unfoldable pub audit : Manager → ℕ → ℤ → Audited → CommandMeta → Bool → Option Error → Manager
audit m now chat what meta allowed err = if not m.config.has_audit then m else record m {
  records =
      m.records
      ++ (record {
        timestamp = now;
        chat_id = chat;
        user_id = meta.user_id;
        source = meta.source;
        audited = what;
        allowed = allowed;
        error = err;
      }
          ∷ []);
}

abbrev pub status_event : ℤ → Bytes → ℕ → OutputEvent
status_event chat text now = record {
  chat_id = chat;
  text = text;
  kind = codes "status";
  timestamp = now;
}

abbrev pub announce : Manager → OutputEvent → Manager
announce m e = record m { events = m.events ++ (e ∷ []) }

-- What `getOrCreate` returns.
pub data Got : Type 0 where
  got : ℕ → Got
  failed : Error → Got

unfoldable pub touch : Manager → ℕ → ℤ → Manager
touch m now chat = elim (lookup chat m.sessions) [
  | none ↦ m
  | some entry ↦ record m { sessions = insert chat (record entry { last_active = now }) m.sessions }
]

-- The first locked part of `getOrCreate`; `none` is that there is no session yet.
unfoldable pub find_session : Manager → ℕ → ℤ → Manager × Option Got
unfolding touch
find_session m now chat =
    if m.closed then (m, some (failed manager_closed)) else elim (lookup chat m.sessions) [
      | none ↦ (m, none)
      | some entry ↦ (touch m now chat, some (got entry.session))
    ]

-- `NewSession`, which starts the process.
unfoldable pub new_session : Manager → Manager × ℕ
new_session m = (record m { heap = insert m.next fresh_session m.heap; next = suc m.next }, m.next)

unfoldable pub stop_session : Manager → ℕ → Manager
unfolding stop
stop_session m id = elim (lookup id m.heap) [
  | none ↦ m
  | some s ↦ record m { heap = insert id (stop s) m.heap }
]

-- The second locked part of `getOrCreate`, with what follows it.
unfoldable pub register : Manager → ℕ → ℤ → ℕ → Manager × Got
unfolding stop_session
register m now chat id =
    if m.closed then (stop_session m id, failed manager_closed) else elim (lookup chat m.sessions) [
      | some existing ↦ (stop_session m id, got existing.session)
      | none ↦ (
        announce
            (record m {
              sessions = insert chat (record { session = id; last_active = now }) m.sessions;
            })
            (status_event chat (codes "[new terminal session created]\n") now),
        got id,
      )
    ]

-- `getOrCreate` when nothing else runs between its two locked parts; `starts` is that the process
-- can be started.
unfoldable pub get_or_create : Manager → ℕ → Bool → ℤ → Manager × Got
unfolding find_session new_session register
get_or_create m now starts chat =
    let (m1, found) = find_session m now chat in
    elim found [
      | some g ↦ (m1, g)
      | none ↦
          if not starts
          then (m1, failed start_failed)
          else let (m2, id) = new_session m1 in register m2 now chat id
    ]

-- A call of a method of the session that the heap holds.
unfoldable pub on_session :
    Manager → ℕ → (Session → Session × Option Error) → Manager × Option Error
on_session m id method = elim (lookup id m.heap) [
  | none ↦ (m, some io_failed)
  | some s ↦ let (s', err) = method s in (record m { heap = insert id s' m.heap }, err)
]

abbrev pub with_source : CommandMeta → CommandMeta
with_source meta = record meta {
  source = if is_empty meta.source then codes "unknown" else meta.source;
}

-- What every operation does with the session that it got, and with the failure to get one.
unfoldable pub with_got :
    Manager
    → ℕ
    → ℤ
    → Audited
    → CommandMeta
    → Got
    → (ℕ → Manager × Option Error)
    → Manager × Option Error
unfolding audit
with_got m now chat what meta (failed err) k =
    (audit m now chat what meta false (some err), some err)
with_got m now chat what meta (got id) k = k id

-- `m.touch`, the method of the session, and the audit record.
unfoldable pub use_session :
    Manager
    → ℕ
    → ℤ
    → Audited
    → CommandMeta
    → (Session → Session × Option Error)
    → ℕ
    → Manager × Option Error
unfolding on_session audit touch
use_session m now chat what meta method id =
    let (m', err) = on_session (touch m now chat) id method in
    (audit m' now chat what meta (not (is_some err)) err, err)

unfoldable pub run_on :
    Manager
    → ℕ
    → Bool
    → ℤ
    → Audited
    → CommandMeta
    → (Session → Session × Option Error)
    → Manager × Option Error
unfolding with_got use_session
run_on m now starts chat what meta method =
    let (m', g) = get_or_create m now starts chat in
    with_got m' now chat what meta g (use_session m' now chat what meta method)
