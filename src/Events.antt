-- ===== src/Events.antt =====
-- internal/events/bus.go. `next` and `channels` are the heap of Go channels that `make` fills; a
-- channel's buffer has its oldest event first. A send on a closed channel panics, which is `none`.
-- What happens under `mu` is one step; `publish` is its locked part and then one send after another.
pub mod Delivery
pub mod Invariant
pub mod Subscriptions
pub mod Publish
pub mod Reach
pub mod Replay
mod Examples
use telegram_remote_terminal.Prelude.{
  ℕ, suc, ℤ, pos, negsuc, Bool, true, false, List, [], ◌∷◌, ◌++◌, Bytes, Option, none, some, Map,
  lookup, insert, remove, nonpos, sub_time, ltb, ◌==◌, if◌then◌else◌, int_key, nat_key, length, ◌*◌,
}

pub record OutputEvent : Type 0 where
  pub chat_id : ℤ
  pub text : Bytes
  pub kind : Bytes
  pub timestamp : ℕ

pub record Channel : Type 0 where
  pub buffer : List OutputEvent
  pub capacity : ℕ
  pub closed : Bool

pub record Bus : Type 0 where
  pub default_size : ℕ
  pub subs : Map ℤ (Map ℕ (Unit {0}))
  pub history : Map ℤ (List OutputEvent)
  pub history_ttl : ℤ
  pub channels : Map ℕ Channel
  pub next : ℕ

abbrev pub positive_or : ℤ → ℕ → ℕ
positive_or (pos n) fallback = if n == 0 then fallback else n
positive_or (negsuc n) fallback = fallback

-- a day, in nanoseconds
abbrev pub default_history_ttl : ℤ
default_history_ttl = pos (24 * 3600 * 1_000_000_000)

unfoldable pub new_bus : ℤ → ℤ → Bus
new_bus default_size history_ttl = record {
  default_size = positive_or default_size 100;
  subs = [];
  history = [];
  history_ttl = if nonpos history_ttl then default_history_ttl else history_ttl;
  channels = [];
  next = 0;
}

-- What a map of maps, or of slices, holds at a key that may be missing.
abbrev pub or_empty {ℓ} : {A : Type ℓ} → Option (List A) → List A
or_empty none = []
or_empty (some l) = l

unfoldable pub subscribe : Bus → ℤ → Bus × ℕ
subscribe b chat = (
  record b {
    subs = insert chat (insert b.next tt (or_empty (lookup chat b.subs))) b.subs;
    channels =
        insert b.next (record { buffer = []; capacity = b.default_size; closed = false })
          b.channels;
    next = suc b.next;
  },
  b.next,
)

abbrev close_channel : ℕ → Map ℕ Channel → Map ℕ Channel
close_channel ch channels = elim (lookup ch channels) [
  | none ↦ channels
  | some c ↦ insert ch (record c { closed = true }) channels
]

abbrev put_subs : ℤ → Map ℕ (Unit {0}) → Map ℤ (Map ℕ (Unit {0})) → Map ℤ (Map ℕ (Unit {0}))
put_subs chat [] subs = remove chat subs
put_subs chat (x ∷ l) subs = insert chat (x ∷ l) subs

-- The closure that `Subscribe` returns.
unfoldable pub unsubscribe : Bus → ℤ → ℕ → Bus
unsubscribe b chat ch = elim (lookup chat b.subs) [
  | none ↦ b
  | some chat_subs ↦ elim (lookup ch chat_subs) [
    | none ↦ b
    | some _ ↦ record b {
      subs = put_subs chat (remove ch chat_subs) b.subs;
      channels = close_channel ch b.channels;
    }
  ]
]

-- The loop of `pruneHistoryLocked`: what is left once `idx` has passed the old events.
unfoldable pub drop_before : ℕ → List OutputEvent → List OutputEvent
drop_before cutoff [] = []
drop_before cutoff (e ∷ h) =
    let rest = drop_before cutoff h in if ltb e.timestamp cutoff then rest else e ∷ h

unfoldable pub prune_history : ℤ → List OutputEvent → ℕ → List OutputEvent
unfolding drop_before
prune_history ttl h now = if nonpos ttl then h else drop_before (sub_time now ttl) h

abbrev pub stamped : OutputEvent → ℕ → OutputEvent
stamped e now = record e { timestamp = if e.timestamp == 0 then now else e.timestamp }

abbrev pub history_of : Bus → ℤ → List OutputEvent
history_of b chat = or_empty (lookup chat b.history)

abbrev pub subs_of : Bus → ℤ → Map ℕ (Unit {0})
subs_of b chat = or_empty (lookup chat b.subs)

-- The part of `Publish` under the lock; the channels to send to come with it. `e` is stamped.
unfoldable pub publish_locked : Bus → OutputEvent → Bus × Map ℕ (Unit {0})
unfolding prune_history
publish_locked b e = (
  record b {
    history =
        insert e.chat_id
          (prune_history b.history_ttl (history_of b e.chat_id ++ (e ∷ [])) e.timestamp) b.history;
  },
  subs_of b e.chat_id,
)

-- A channel with room takes the event; a full one is passed over.
abbrev pub offer : OutputEvent → Channel → Channel
offer e c =
    if ltb (length c.buffer) c.capacity then record c { buffer = c.buffer ++ (e ∷ []) } else c

-- `select { case ch <- evt: default: }`
unfoldable pub send : OutputEvent → ℕ → Map ℕ Channel → Option (Map ℕ Channel)
send e ch channels = elim (lookup ch channels) [
  | none ↦ some channels
  | some c ↦ if c.closed then none else some (insert ch (offer e c) channels)
]

infixl 5 ◌>>=◌
abbrev pub ◌>>=◌ {ℓ κ} : {A : Type ℓ} {B : Type κ} → Option A → (A → Option B) → Option B
none >>= f = none
some a >>= f = f a

unfoldable pub send_all : OutputEvent → Map ℕ (Unit {0}) → Map ℕ Channel → Option (Map ℕ Channel)
unfolding send
send_all e [] channels = some channels
send_all e ((ch, _) ∷ subs) channels = do channels' ← send e ch channels; send_all e subs channels'

unfoldable pub publish : Bus → ℕ → OutputEvent → Option Bus
unfolding publish_locked send_all
publish b now e = do
  let e' = stamped e now
  let locked = publish_locked b e'
  channels ← send_all e' locked.1 locked.0.channels
  some (record locked.0 { channels = channels })

unfoldable pub snapshot : Bus → ℤ → ℕ → Bus × List OutputEvent
unfolding prune_history
snapshot b chat now =
    let h = prune_history b.history_ttl (history_of b chat) now in
    (record b { history = insert chat h b.history }, h)
