-- ===== src/Events/Delivery.antt =====
-- Who gets an event, and when a send panics.
use telegram_remote_terminal.Prelude.{
  ℕ, ◌≡◌, refl, inl, inr, false, [], ◌∷◌, Option, none, some, arith, Map, IsMap, lookup, insert,
  lookup-insert, int_key, nat_key, is_some, if◌then◌else◌, ==_iff, ◌==◌, Bool-cases, ◌∙◌,
}
use mathlib.Core.Option
use telegram_remote_terminal.Events.{OutputEvent, Channel, send, send_all, offer}

-- The channel is there and takes sends.
abbrev pub IsOpen : Option Channel → Type 0
IsOpen none = ⊥
IsOpen (some c) = c.closed ≡ false

abbrev pub AllOpen : Map ℕ (Unit {0}) → Map ℕ Channel → Type 0
AllOpen subs channels = (ch : ℕ) → lookup ch subs ≡ some tt → IsOpen (lookup ch channels)

send_open :
    (e : OutputEvent) (ch : ℕ) (channels : Map ℕ Channel) (c : Channel)
    → lookup ch channels ≡ some c
    → c.closed ≡ false
    → send e ch channels ≡ some (insert ch (offer e c) channels)
unfolding send
send_open e ch channels c found opened = rw (found, send, opened) refl

pub open_found : (o : Option Channel) → IsOpen o → (c : Channel) × (o ≡ some c) × (c.closed ≡ false)
open_found none h = absurd h
open_found (some c) h = (c, refl, h)

offer_open : (e : OutputEvent) (c : Channel) → (offer e c).closed ≡ c.closed
offer_open e c = ground arith

IsOpen-insert :
    (e : OutputEvent) (k ch : ℕ) (channels : Map ℕ Channel) (c : Channel)
    → c.closed ≡ false
    → IsOpen (lookup ch channels)
    → IsOpen (lookup ch (insert k (offer e c) channels))
IsOpen-insert e k ch channels c opened h = rw lookup-insert (elim (Bool-cases (k == ch)) [
  | inl hit ↦ rw hit (offer_open e c ∙ opened)
  | inr miss ↦ rw miss h
])

-- The sends that follow a publication end without a panic if the channels are open, and each channel
-- among them was offered the event once.
pub send_all_lem :
    (e : OutputEvent) (subs : Map ℕ (Unit {0})) (channels : Map ℕ Channel)
    → IsMap subs
    → AllOpen subs channels
    → (channels' : Map ℕ Channel) × (send_all e subs channels ≡ some channels')
      × ((ch : ℕ)
          → lookup ch channels' ≡ (
              if is_some (lookup ch subs)
              then Option.map (offer e) (lookup ch channels)
              else lookup ch channels))
unfolding send_all lookup
send_all_lem e [] channels distinct opened = (channels, refl, λ ch. refl)
send_all_lem e ((k, u) ∷ subs) channels distinct opened =
    let (c, found, is_open) =
      open_found (lookup k channels) (opened k (ground (arith, ==_iff k k))) in
    let (channels', sent, offers) =
      send_all_lem e subs (insert k (offer e c) channels) distinct.1 (λ ch h.
        IsOpen-insert e k ch channels c is_open (opened ch (ground (arith, ==_iff k ch)))) in
    (
      channels',
      rw (send_open e k channels c found is_open) sent,
      λ ch.
          offers ch
          ∙ ground (arith, lookup-insert k ch (offer e c) channels, ==_iff k ch, found, distinct.0),
    )
