-- ===== src/Terminal/Session.antt =====
-- internal/terminal/session.go. A session is what its pseudo terminal was given: the bytes written
-- to it, the window size, and whether `Stop` has closed it. Whether a write or `Setsize` on an open
-- file succeeds is an argument; on a closed file they fail.
use telegram_remote_terminal.Prelude.{
  ℕ, ℤ, pos, negsuc, Bool, true, false, [], ◌∷◌, ◌++◌, Bytes, Option, none, some, nonpos, ◌||◌, ◌%◌,
  ◌-◌, if◌then◌else◌, not, ◌&&◌,
}
use telegram_remote_terminal.Terminal.Policy.{CommandError}

pub data Error : Type 0 where
  shell_required workdir_required bus_required : Error
  manager_closed start_failed io_failed invalid_size : Error
  unsupported_control : Bytes → Error
  command_empty : Error
  blocked : CommandError → Error

pub record Session : Type 0 where
  pub written : Bytes
  pub size : Option (ℕ × ℕ)
  pub stopped : Bool

abbrev pub fresh_session : Session
fresh_session = record { written = []; size = none; stopped = false }

unfoldable pub write_raw : Session → Bool → Bytes → Session × Option Error
write_raw s ok input =
    if ok && not s.stopped
    then (record s { written = s.written ++ input }, none)
    else (s, some io_failed)

unfoldable pub write_line : Session → Bool → Bytes → Session × Option Error
unfolding write_raw
write_line s ok input = write_raw s ok (input ++ (b'\n' ∷ []))

unfoldable pub write_bytes : Session → Bool → Bytes → Session × Option Error
write_bytes s ok payload =
    if ok && not s.stopped
    then (record s { written = s.written ++ payload }, none)
    else (s, some io_failed)

-- `uint16(n)` of an int
abbrev pub to_uint16 : ℤ → ℕ
to_uint16 (pos n) = n % 0x10000
to_uint16 (negsuc n) = 0xffff - n % 0x10000

unfoldable pub resize : Session → Bool → ℤ → ℤ → Session × Option Error
resize s ok cols rows =
    if nonpos cols || nonpos rows
    then (s, some invalid_size)
    else if ok && not s.stopped
    then (record s { size = some (to_uint16 cols, to_uint16 rows) }, none)
    else (s, some io_failed)

-- `oneStop` makes a second call do nothing.
unfoldable pub stop : Session → Session
stop s = record s { stopped = true }
