-- ===== src/Audit.antt =====
-- internal/audit/logger.go. The file is its bytes and whether it is closed; `marshal` is `json.Marshal`
-- of a record, and how a write to the file ends is an argument.
pub mod Lines
mod Examples
use telegram_remote_terminal.Prelude.{
  ℕ, Bool, true, false, not, ◌&&◌, List, [], ◌∷◌, ◌++◌, Bytes, Option, none, some, if◌then◌else◌,
  take,
}
use telegram_remote_terminal.Terminal.Manager.{Record}

pub record Logger : Type 0 where
  pub content : Bytes
  pub closed : Bool

-- A write that fails may have written the first bytes.
pub data WriteEnd : Type 0 where
  whole : WriteEnd
  broken : ℕ → WriteEnd

pub data LogError : Type 0 where
  not_marshalled not_written : LogError

-- `New`; `content` is what the file has, which is opened for appending. `none` is a failure.
unfoldable pub new_logger : (makes_dir opens : Bool) → (content : Bytes) → Option Logger
new_logger makes_dir opens content =
    if makes_dir && opens then some (record { content = content; closed = false }) else none

unfoldable pub append : Logger → WriteEnd → Bytes → Logger × Option LogError
append l whole line =
    if l.closed then (l, some not_written) else (record l { content = l.content ++ line }, none)
append l (broken n) line =
    if l.closed
    then (l, some not_written)
    else (record l { content = l.content ++ take n line }, some not_written)

module _ (marshal : Record → Option Bytes) where
  unfoldable pub log : Logger → WriteEnd → Record → Logger × Option LogError
  unfolding append
  log l end r = elim (marshal r) [
    | none ↦ (l, some not_marshalled)
    | some line ↦ append l end (line ++ (b'\n' ∷ []))
  ]

unfoldable pub close : Logger → Logger
close l = record l { closed = true }
