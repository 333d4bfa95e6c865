-- ===== src/Events/Publish.antt =====
-- Publications from every state that the bus can reach.
use telegram_remote_terminal.Prelude.{
  ℕ, ℤ, eq_ℤ, if_false, ◌≤◌, ◌≡◌, refl, ◌⊎◌, inl, inr, Bool, true, false, [], ◌∷◌, Option, none,
  some, arith, Map, lookup, insert, lookup-insert, subst, sym, int_key, nat_key, is_some,
  if◌then◌else◌, ==_iff, ◌==◌, Option-cases, Bool-cases, ◌∙◌, length, length-append,
}
use mathlib.Core.Option
use telegram_remote_terminal.Events.{
  OutputEvent, Channel, Bus, unsubscribe, publish, publish_locked, send, send_all, offer, stamped,
  subs_of,
}
use telegram_remote_terminal.Events.Delivery.{IsOpen, send_all_lem, open_found}
use telegram_remote_terminal.Events.Subscriptions.{lookup-close_channel_self}
use telegram_remote_terminal.Events.Invariant.{Inv, channels-unsubscribe}

-- The bus that the locked part leaves, with the channels after the sends.
abbrev published : Bus → OutputEvent → Map ℕ Channel → Bus
published b e channels = record (publish_locked b e).0 { channels = channels }

publish-sends :
    (b : Bus) (now : ℕ) (e : OutputEvent) (channels : Map ℕ Channel)
    → send_all (stamped e now) (subs_of b (stamped e now).chat_id) b.channels ≡ some channels
    → publish b now e ≡ some (published b (stamped e now) channels)
unfolding publish
publish-sends b now e channels sent = rw sent refl

abbrev after_offer : OutputEvent → Bool → Option Channel → Option Channel
after_offer e subscribed o = if subscribed then Option.map (offer e) o else o

IsOpen-after_offer :
    (e : OutputEvent) (subscribed : Bool) (o : Option Channel)
    → IsOpen o
    → IsOpen (after_offer e subscribed o)
IsOpen-after_offer e subscribed none h = absurd h
IsOpen-after_offer e true (some c) h = ground arith
IsOpen-after_offer e false (some c) h = h

bounded-after_offer :
    (e : OutputEvent) (subscribed : Bool) (o : Option Channel) (c : Channel)
    → ((d : Channel) → o ≡ some d → length d.buffer ≤ d.capacity)
    → after_offer e subscribed o ≡ some c
    → length c.buffer ≤ c.capacity
bounded-after_offer e subscribed none c h m = ground arith
bounded-after_offer e true (some d) c h m =
    ground (arith, h d refl, length-append d.buffer (e ∷ []))
bounded-after_offer e false (some d) c h m = h c m

published-Inv :
    (b : Bus) (e : OutputEvent) (channels : Map ℕ Channel)
    → Inv b
    → ((ch : ℕ)
        → lookup ch channels
          ≡ after_offer e (is_some (lookup ch (subs_of b e.chat_id))) (lookup ch b.channels))
    → Inv (published b e channels)
unfolding publish_locked
published-Inv b e channels h offers = record {
  distinct = h.distinct;
  opened = λ chat ch m. rw offers (
      IsOpen-after_offer e (is_some (lookup ch (subs_of b e.chat_id))) (lookup ch b.channels)
        (h.opened chat ch m));
  older = h.older;
  one_chat = h.one_chat;
  bounded = λ ch c m.
      bounded-after_offer e (is_some (lookup ch (subs_of b e.chat_id))) (lookup ch b.channels) c
        (h.bounded ch) (sym (offers ch) ∙ m);
}

-- On a well-formed bus a publication that nothing interrupts does not panic. It offers the event once to each channel
-- that is subscribed to its chat, where a channel with room takes it behind what it holds and a full
-- one passes it over; every other channel is as it was, and the bus stays well-formed.
pub publish_lem :
    (b : Bus) (now : ℕ) (e : OutputEvent)
    → Inv b
    → let e' = stamped e now in
      (b' : Bus) × (publish b now e ≡ some b')
      × Inv b'
      × ((ch : ℕ)
          → lookup ch b'.channels ≡ (
              if is_some (lookup ch (subs_of b e'.chat_id))
              then Option.map (offer e') (lookup ch b.channels)
              else lookup ch b.channels))
publish_lem b now e h =
    let e' = stamped e now in
    let (channels, sent, offers) =
      send_all_lem e' (subs_of b e'.chat_id) b.channels (h.distinct e'.chat_id)
        (h.opened e'.chat_id) in
    (
      published b e' channels,
      publish-sends b now e channels sent,
      published-Inv b e' channels h offers,
      offers,
    )

-- What `b'` has of `b` but for the chat: all but the histories and the channels, the history of every
-- other chat, and every channel that is not subscribed to the chat.
pub record BusKeeps (chat : ℤ) (b b' : Bus) : Type 0 where
  pub rest : b' ≡ record b { history = b'.history; channels = b'.channels }
  pub history :
      (other : ℤ) → (eq_ℤ chat other ≡ true) ⊎ (lookup other b'.history ≡ lookup other b.history)
  pub channels :
      (ch : ℕ)
      → (lookup ch (subs_of b chat) ≡ some tt) ⊎ (lookup ch b'.channels ≡ lookup ch b.channels)

pub same-BusKeeps : (chat : ℤ) (b : Bus) → BusKeeps chat b b
same-BusKeeps chat b = record {
  rest = refl;
  history = λ other. inr refl;
  channels = λ ch. inr refl;
}

published-history :
    (b : Bus) (e : OutputEvent) (channels : Map ℕ Channel) (other : ℤ)
    → (eq_ℤ e.chat_id other ≡ true)
      ⊎ (lookup other (published b e channels).history ≡ lookup other b.history)
unfolding publish_locked
published-history b e channels other = elim (Bool-cases (eq_ℤ e.chat_id other)) [
  | inl same ↦ inl same
  | inr away ↦
      inr (lookup-insert e.chat_id other _ b.history ∙ if_false (eq_ℤ e.chat_id other) _ _ away)
]

-- A publication on a well-formed bus goes through, leaves the bus well-formed, and reaches only its chat.
pub publish-BusKeeps :
    (b : Bus) (now : ℕ) (e : OutputEvent)
    → Inv b
    → (b' : Bus) × (publish b now e ≡ some b') × Inv b' × BusKeeps e.chat_id b b'
unfolding publish_locked
publish-BusKeeps b now e h =
    let e' = stamped e now in
    let (channels, sent, offers) =
      send_all_lem e' (subs_of b e.chat_id) b.channels (h.distinct e.chat_id)
        (h.opened e.chat_id) in
    (
      published b e' channels,
      publish-sends b now e channels sent,
      published-Inv b e' channels h offers,
      record {
        rest = refl;
        history = published-history b e' channels;
        channels = λ ch. elim (Option-cases (lookup ch (subs_of b e.chat_id))) [
          | inl other ↦ inr (offers ch ∙ rw other refl)
          | inr (u, subscribed) ↦ inl subscribed
        ];
      },
    )

abbrev IsShut : Option Channel → Type 0
IsShut none = ⊥
IsShut (some c) = c.closed ≡ true

send_to_shut :
    (e : OutputEvent) (ch : ℕ) (channels : Map ℕ Channel)
    → IsShut (lookup ch channels)
    → send e ch channels ≡ none
unfolding send
send_to_shut e ch channels h = elim (Option-cases (lookup ch channels)) [
  | inl missing ↦ absurd (rw missing at h)
  | inr (c, found) ↦ rw (found, send) (let shut : c.closed ≡ true = rw found at h in rw shut)
]

send_cases :
    (e : OutputEvent) (k : ℕ) (channels channels' : Map ℕ Channel)
    → send e k channels ≡ some channels'
    → (channels ≡ channels')
      ⊎ ((c : Channel) × (lookup k channels ≡ some c)
          × (c.closed ≡ false)
          × (insert k (offer e c) channels ≡ channels'))
unfolding send
send_cases e k channels channels' sent = elim (Option-cases (lookup k channels)) [
  | inl missing ↦ inl (ground arith)
  | inr (c, found) ↦ inr (c, found, ground arith, ground arith)
]

send_panics :
    (e : OutputEvent) (k ch : ℕ) (channels channels' : Map ℕ Channel)
    → send e k channels ≡ some channels'
    → IsShut (lookup ch channels)
    → IsShut (lookup ch channels')
send_panics e k ch channels channels' sent h = elim (send_cases e k channels channels' sent) [
  | inl same ↦ subst (λ m. IsShut (lookup ch m)) same h
  | inr (c, found, is_open, written) ↦
      subst (λ m. IsShut (lookup ch m)) written
        (rw lookup-insert (elim (Bool-cases (k == ch)) [
          | inl here ↦ absurd (
              cc (
                send_to_shut e k channels
                    (subst (λ j. IsShut (lookup j channels)) (sym ((==_iff k ch).0 here)) h),
                sent,
              ))
          | inr other ↦ rw other h
        ]))
]

-- A send to a closed channel among the others panics.
send_all-shut :
    (e : OutputEvent) (ch : ℕ) (subs : Map ℕ (Unit {0})) (channels : Map ℕ Channel)
    → lookup ch subs ≡ some tt
    → IsShut (lookup ch channels)
    → send_all e subs channels ≡ none
unfolding send_all lookup
send_all-shut e ch [] channels m h = cc
send_all-shut e ch ((k, u) ∷ subs) channels m h = elim (Option-cases (send e k channels)) [
  | inl panic ↦ rw panic
  | inr (channels', sent) ↦ elim (Bool-cases (k == ch)) [
    | inl here ↦ absurd (
        cc (
          send_to_shut e k channels
              (subst (λ j. IsShut (lookup j channels)) (sym ((==_iff k ch).0 here)) h),
          sent,
        ))
    | inr later ↦ rw sent (
        send_all-shut e ch subs channels' (rw later at m)
          (send_panics e k ch channels channels' sent h))
  ]
]

-- The defect, on a well-formed bus: whenever a subscriber of the chat leaves between the locked part of a publication and
-- its sends, the publication panics, since `Publish` sends to a channel that was closed meanwhile.
pub publish-unsubscribe_panics :
    (b : Bus) (e : OutputEvent) (ch : ℕ)
    → Inv b
    → lookup ch (subs_of b e.chat_id) ≡ some tt
    → let locked = publish_locked b e in
      send_all e locked.1 (unsubscribe locked.0 e.chat_id ch).channels ≡ none
unfolding publish_locked
publish-unsubscribe_panics b e ch h member =
    let (c, found, _) = open_found (lookup ch b.channels) (h.opened e.chat_id ch member) in
    send_all-shut e ch (subs_of b e.chat_id) _ member (
      rw
        (
          channels-unsubscribe (publish_locked b e).0 e.chat_id ch member,
          lookup-close_channel_self ch b.channels c found,
        )
        refl)
