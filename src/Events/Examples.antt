-- ===== src/Events/Examples.antt =====
-- The theorems on the bus at a concrete bus: channel 0 is subscribed to chat 7, which has published
-- once.
use telegram_remote_terminal.Prelude.{
  ℕ, ℤ, pos, ◌≡◌, refl, [], ◌∷◌, List, none, some, arith, codes, if◌then◌else◌, lookup, insert,
  nat_key, int_key, is_some, keep_if, ◌-◌,
}
use mathlib.Core.Option
use telegram_remote_terminal.Events.{
  OutputEvent, Bus, new_bus, subscribe, unsubscribe, publish, publish_locked, send_all, stamped,
  subs_of, offer, snapshot,
}
use telegram_remote_terminal.Events.Subscriptions.{subscribe-Inv}
use telegram_remote_terminal.Events.Invariant.{Inv, new_bus-Inv}
use telegram_remote_terminal.Events.Publish.{publish_lem, publish-unsubscribe_panics}
use telegram_remote_terminal.Events.Reach.{start, subscribes, leaves, Reach-Inv}
use telegram_remote_terminal.Events.Replay.{Call, publishes, reads, joins, run, log, snapshot-run}
use telegram_remote_terminal.Events.Replay.Order.{recent}

abbrev chat_7 : ℤ
chat_7 = pos 7

abbrev bus_7 : Bus
bus_7 = (subscribe (new_bus (pos 2) (pos 50)) chat_7).0

abbrev said : OutputEvent
said = record { chat_id = chat_7; text = codes "hi"; kind = codes "output"; timestamp = 0 }

bus_7-Inv : Inv bus_7
bus_7-Inv = subscribe-Inv (new_bus (pos 2) (pos 50)) chat_7 (new_bus-Inv (pos 2) (pos 50))

publish_lem_example :
    (b' : Bus) × (publish bus_7 9 said ≡ some b')
    × Inv b'
    × ((ch : ℕ)
        → lookup ch b'.channels ≡ (
            if is_some (lookup ch (subs_of bus_7 chat_7))
            then Option.map (offer (stamped said 9)) (lookup ch bus_7.channels)
            else lookup ch bus_7.channels))
publish_lem_example = publish_lem bus_7 9 said bus_7-Inv

publish-unsubscribe_panics_example :
    send_all said
      (publish_locked bus_7 said).1
      (unsubscribe (publish_locked bus_7 said).0 chat_7 0).channels
    ≡ none
unfolding subscribe new_bus lookup insert
publish-unsubscribe_panics_example = publish-unsubscribe_panics bus_7 said 0 bus_7-Inv refl

Reach-Inv_example : Inv (unsubscribe bus_7 chat_7 0)
Reach-Inv_example =
    Reach-Inv (pos 2) (pos 50) (unsubscribe bus_7 chat_7 0)
      (leaves chat_7 0 (subscribes chat_7 start))

abbrev calls_7 : List Call
calls_7 = reads 60 chat_7 ∷ publishes 55 said ∷ publishes 9 said ∷ joins chat_7 ∷ []

snapshot-run_example :
    (snapshot (run (new_bus (pos 2) (pos 50)) calls_7) chat_7 62).1
    ≡ keep_if (recent (62 - 50)) (log calls_7 chat_7)
snapshot-run_example =
    snapshot-run 49 (pos 2) calls_7 62 chat_7 (omega arith, (omega arith, (omega arith, tt)))
