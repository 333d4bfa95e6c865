-- ===== src/Events/Reach.antt =====
-- The states of the bus, by induction on how they were reached.
use telegram_remote_terminal.Prelude.{
  ℕ, ℤ, ◌≤◌, ◌≡◌, inl, inr, List, [], ◌∷◌, none, some, arith, lookup, insert, lookup-insert,
  lookup-insert_cases, subst, sym, int_key, nat_key, ==_iff, ◌==◌, Option-cases, Bool-cases, length,
}
use telegram_remote_terminal.Events.{
  OutputEvent, Channel, Bus, subscribe, unsubscribe, publish, new_bus,
}
use telegram_remote_terminal.Events.{snapshot}
use telegram_remote_terminal.Events.Delivery.{IsOpen}
use telegram_remote_terminal.Events.Subscriptions.{subscribe-Inv, unsubscribe-Inv}
use telegram_remote_terminal.Events.Invariant.{Inv, new_bus-Inv}
use telegram_remote_terminal.Events.Publish.{publish_lem}

abbrev pub tail_of {ℓ} : {A : Type ℓ} → List A → List A
tail_of [] = []
tail_of (x ∷ l) = l

-- A subscriber takes the oldest event out of its channel.
unfoldable pub receive : Bus → ℕ → Bus
receive b ch = elim (lookup ch b.channels) [
  | none ↦ b
  | some c ↦ record b { channels = insert ch (record c { buffer = tail_of c.buffer }) b.channels }
]

-- Every state that the bus can reach while publications run undisturbed.
pub data Reach (size ttl : ℤ) : Bus → Type 0 where
  start : Reach size ttl (new_bus size ttl)
  subscribes : {b : Bus} (chat : ℤ) → Reach size ttl b → Reach size ttl (subscribe b chat).0
  leaves : {b : Bus} (chat : ℤ) (ch : ℕ) → Reach size ttl b → Reach size ttl (unsubscribe b chat ch)
  reads : {b : Bus} (chat : ℤ) (now : ℕ) → Reach size ttl b → Reach size ttl (snapshot b chat now).0
  receives : {b : Bus} (ch : ℕ) → Reach size ttl b → Reach size ttl (receive b ch)
  publishes :
      {b b' : Bus} (now : ℕ) (e : OutputEvent)
      → Reach size ttl b
      → publish b now e ≡ some b'
      → Reach size ttl b'

tail_le : (l : List OutputEvent) (n : ℕ) → length l ≤ n → length (tail_of l) ≤ n
tail_le [] n h = h
tail_le (x ∷ l) n h = omega arith

tail_of-bounded :
    (c : Channel) → length c.buffer ≤ c.capacity → length (tail_of c.buffer) ≤ c.capacity
tail_of-bounded c h = tail_le c.buffer c.capacity h

snapshot-Inv : (b : Bus) (chat : ℤ) (now : ℕ) → Inv b → Inv (snapshot b chat now).0
unfolding snapshot
snapshot-Inv b chat now h = record {
  distinct = h.distinct;
  opened = h.opened;
  older = h.older;
  one_chat = h.one_chat;
  bounded = h.bounded;
}

receive-Inv : (b : Bus) (ch : ℕ) → Inv b → Inv (receive b ch)
unfolding receive
receive-Inv b ch h = elim (Option-cases (lookup ch b.channels)) [
  | inl missing ↦ rw (missing, receive) h
  | inr (c, found) ↦
      rw (found, receive)
        (record {
          distinct = h.distinct;
          opened = λ chat k m. rw lookup-insert (elim (Bool-cases (ch == k)) [
            | inl here ↦
                let is_open : IsOpen (lookup ch b.channels) =
                  subst (λ j. IsOpen (lookup j b.channels)) (sym ((==_iff ch k).0 here))
                    (h.opened chat k m) in
                rw here (rw found at is_open)
            | inr other ↦ rw other (h.opened chat k m)
          ]);
          older = h.older;
          one_chat = h.one_chat;
          bounded = λ k d m. elim (lookup-insert_cases ch k _ d b.channels m) [
            | inl (_, new) ↦ rw (← new) (tail_of-bounded c (h.bounded ch c found))
            | inr old ↦ h.bounded k d old
          ];
        })
]

publish-Inv : (b b' : Bus) (now : ℕ) (e : OutputEvent) → Inv b → publish b now e ≡ some b' → Inv b'
publish-Inv b b' now e h p =
    let (b'', p', inv, _) = publish_lem b now e h in
    let same : b'' ≡ b' = cc (p, p') in subst Inv same inv

-- In every state that the bus reaches while publications run undisturbed, each subscribed channel
-- is open and belongs to one chat, and no buffer is over its capacity.
pub Reach-Inv : (size ttl : ℤ) (b : Bus) → Reach size ttl b → Inv b
Reach-Inv size ttl _ start = new_bus-Inv size ttl
Reach-Inv size ttl _ (subscribes {b = b} chat r) = subscribe-Inv b chat (Reach-Inv size ttl b r)
Reach-Inv size ttl _ (leaves {b = b} chat ch r) = unsubscribe-Inv b chat ch (Reach-Inv size ttl b r)
Reach-Inv size ttl _ (reads {b = b} chat now r) = snapshot-Inv b chat now (Reach-Inv size ttl b r)
Reach-Inv size ttl _ (receives {b = b} ch r) = receive-Inv b ch (Reach-Inv size ttl b r)
Reach-Inv size ttl _ (publishes {b = b} {b' = b'} now e r p) =
    publish-Inv b b' now e (Reach-Inv size ttl b r) p
