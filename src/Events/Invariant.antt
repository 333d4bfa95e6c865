-- ===== src/Events/Invariant.antt =====
-- The invariant of the bus of internal/events/bus.go, and its channels after `Subscribe` and its closure.
use telegram_remote_terminal.Prelude.{
  ℕ, ℤ, ◌<◌, ◌≤◌, ◌≡◌, refl, inl, inr, [], ◌∷◌, none, some, arith, Map, IsMap, lookup, insert,
  remove, lookup-insert, lookup-remove, int_key, nat_key, if◌then◌else◌, eq_ℤ, Option-cases, length,
}
use telegram_remote_terminal.Events.{
  Channel, Bus, subscribe, unsubscribe, subs_of, or_empty, close_channel, put_subs, new_bus,
}
use telegram_remote_terminal.Events.Delivery.{AllOpen}

-- What holds of the bus between two steps: every subscribed channel is open, belongs to one chat
-- and is older than the next, and no buffer is over its capacity.
pub record Inv (b : Bus) : Type 0 where
  pub distinct : (chat : ℤ) → IsMap (subs_of b chat)
  pub opened : (chat : ℤ) → AllOpen (subs_of b chat) b.channels
  pub older : (chat : ℤ) (ch : ℕ) → lookup ch (subs_of b chat) ≡ some tt → ch < b.next
  pub one_chat :
      (chat chat' : ℤ) (ch : ℕ)
      → lookup ch (subs_of b chat) ≡ some tt
      → lookup ch (subs_of b chat') ≡ some tt
      → chat ≡ chat'
  pub bounded :
      (ch : ℕ) (c : Channel) → lookup ch b.channels ≡ some c → length c.buffer ≤ c.capacity

pub new_bus-Inv : (size ttl : ℤ) → Inv (new_bus size ttl)
unfolding new_bus lookup
new_bus-Inv size ttl = record {
  distinct = λ chat. tt;
  opened = λ chat ch h. cc;
  older = λ chat ch h. cc;
  one_chat = λ chat chat' ch h. cc;
  bounded = λ ch c h. cc;
}

pub subs_of-subscribe :
    (b : Bus) (chat chat' : ℤ)
    → subs_of (subscribe b chat).0 chat'
      ≡ (if eq_ℤ chat chat' then insert b.next tt (subs_of b chat) else subs_of b chat')
unfolding subscribe
subs_of-subscribe b chat chat' = rw lookup-insert (ground arith)

pub subs_found :
    (b : Bus) (chat : ℤ) (ch : ℕ)
    → lookup ch (subs_of b chat) ≡ some tt
    → (chat_subs : Map ℕ (Unit {0})) × (lookup chat b.subs ≡ some chat_subs)
      × (lookup ch chat_subs ≡ some tt)
subs_found b chat ch h = elim (Option-cases (lookup chat b.subs)) [
  | inl missing ↦ absurd (unfold lookup in cc (rw missing at h))
  | inr (l, found) ↦ (l, found, rw found at h)
]

-- A channel that leaves is taken out of the chat's set and closed, and nothing else changes.
pub unsubscribe_present :
    (b : Bus) (chat : ℤ) (ch : ℕ) (l : Map ℕ (Unit {0}))
    → lookup chat b.subs ≡ some l
    → lookup ch l ≡ some tt
    → unsubscribe b chat ch ≡ record b {
      subs = put_subs chat (remove ch l) b.subs;
      channels = close_channel ch b.channels;
    }
unfolding unsubscribe
unsubscribe_present b chat ch l found member = rw (found, unsubscribe, member) refl

pub or_empty-put_subs :
    (chat chat' : ℤ) (l : Map ℕ (Unit {0})) (subs : Map ℤ (Map ℕ (Unit {0})))
    → or_empty (lookup chat' (put_subs chat l subs))
      ≡ (if eq_ℤ chat chat' then l else or_empty (lookup chat' subs))
or_empty-put_subs chat chat' [] subs = rw lookup-remove (ground arith)
or_empty-put_subs chat chat' (x ∷ l) subs = rw lookup-insert (ground arith)

pub subs_of-unsubscribe :
    (b : Bus) (chat chat' : ℤ) (ch : ℕ)
    → lookup ch (subs_of b chat) ≡ some tt
    → subs_of (unsubscribe b chat ch) chat'
      ≡ (if eq_ℤ chat chat' then remove ch (subs_of b chat) else subs_of b chat')
subs_of-unsubscribe b chat chat' ch h =
    let (l, found, member) = subs_found b chat ch h in
    rw (unsubscribe_present b chat ch l found member, or_empty-put_subs, found) refl

pub channels-unsubscribe :
    (b : Bus) (chat : ℤ) (ch : ℕ)
    → lookup ch (subs_of b chat) ≡ some tt
    → (unsubscribe b chat ch).channels ≡ close_channel ch b.channels
channels-unsubscribe b chat ch h =
    let (l, found, member) = subs_found b chat ch h in
    rw (unsubscribe_present b chat ch l found member)

-- Nothing is left to do for a channel that is not subscribed.
pub unsubscribe_absent :
    (b : Bus) (chat : ℤ) (ch : ℕ) → lookup ch (subs_of b chat) ≡ none → unsubscribe b chat ch ≡ b
unfolding unsubscribe
unsubscribe_absent b chat ch h = ground arith
