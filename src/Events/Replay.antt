-- ===== src/Events/Replay.antt =====
-- What `Snapshot` replays, against the full log of all that was published.
pub mod Order
use telegram_remote_terminal.Prelude.{
  ℕ, suc, ℤ, pos, negsuc, ◌<◌, ◌≤◌, ◌≡◌, refl, ◌⊎◌, inl, inr, Bool, true, false, List, [], ◌∷◌,
  ◌++◌, Option, none, some, arith, Map, nat_key, lookup, insert, lookup-insert, subst, sym, int_key,
  nonpos, sub_time, if◌then◌else◌, eq_ℤ_iff, eq_ℤ, Option-cases, Bool-cases, ◌∙◌, ltb, keep_if, All,
  ap, not, ◌-◌,
}
use telegram_remote_terminal.Events.{
  OutputEvent, Channel, Bus, subs_of, subscribe, unsubscribe, publish, publish_locked, snapshot,
  send_all, stamped, history_of, or_empty, new_bus, prune_history, drop_before, default_history_ttl,
  ◌>>=◌,
}
use Order.{
  recent, Sorted, drop_before-keep_if, keep_if-keep_if, keep_if-concat, Sorted-concat,
  Sorted-keep_if, All-le_trans, All-le-concat,
}

pub data Call : Type 0 where
  publishes : ℕ → OutputEvent → Call
  reads : ℕ → ℤ → Call
  joins : ℤ → Call
  leaves : ℤ → ℕ → Call

-- A publication that panics has run its locked part.
abbrev pub after_publish : Bus → OutputEvent → Option Bus → Bus
after_publish b e none = (publish_locked b e).0
after_publish b e (some b') = b'

unfoldable pub step : Bus → Call → Bus
step b (publishes now e) = after_publish b (stamped e now) (publish b now e)
step b (reads now chat) = (snapshot b chat now).0
step b (joins chat) = (subscribe b chat).0
step b (leaves chat ch) = unsubscribe b chat ch

-- The latest call stands first.
unfoldable pub run : Bus → List Call → Bus
unfolding step
run b [] = b
run b (c ∷ past) = step (run b past) c

-- Everything that was published to the chat, oldest first.
unfoldable pub log : List Call → ℤ → List OutputEvent
log [] chat = []
log (publishes now e ∷ past) chat =
    let old = log past chat in if eq_ℤ e.chat_id chat then old ++ (stamped e now ∷ []) else old
log (reads now c ∷ past) chat = log past chat
log (joins c ∷ past) chat = log past chat
log (leaves c ch ∷ past) chat = log past chat

-- The clocks that the calls read do not run backwards, and are at most `now`.
abbrev pub Ordered : ℕ → List Call → Type 0
Ordered now [] = Unit
Ordered now (publishes n e ∷ past) =
    ((stamped e n).timestamp ≤ now) × Ordered (stamped e n).timestamp past
Ordered now (reads n chat ∷ past) = (n ≤ now) × Ordered n past
Ordered now (joins chat ∷ past) = Ordered now past
Ordered now (leaves chat ch ∷ past) = Ordered now past

-- The history holds what is not older than some moment, which is past the time to live already.
abbrev Holds : ℕ → ℕ → List OutputEvent → List OutputEvent → Type 0
Holds d now h full =
    (c : ℕ) × (c ≤ now - d)
    × (h ≡ keep_if (recent c) full)
    × Sorted full
    × All (λ (e : OutputEvent). e.timestamp ≤ now) full

Holds-later : (d m n : ℕ) (h full : List OutputEvent) → m ≤ n → Holds d m h full → Holds d n h full
Holds-later d m n h full le (c, before, same, sorted, bound) =
    (c, omega arith, same, sorted, All-le_trans m n full le bound)

Holds-prune :
    (d m now : ℕ) (h full : List OutputEvent)
    → m ≤ now
    → Holds d m h full
    → drop_before (now - d) h ≡ keep_if (recent (now - d)) full
Holds-prune d m now h full le (c, before, same, sorted, bound) = rw same (
    drop_before-keep_if (now - d) (keep_if (recent c) full) (Sorted-keep_if (recent c) full sorted)
    ∙ keep_if-keep_if c (now - d) full (omega arith))

Holds-publish :
    (d m : ℕ) (e : OutputEvent) (h full : List OutputEvent)
    → m ≤ e.timestamp
    → Holds d m h full
    → Holds d e.timestamp (drop_before (e.timestamp - d) (h ++ (e ∷ []))) (full ++ (e ∷ []))
Holds-publish d m e h full le (c, before, same, sorted, bound) =
    let recent_e : recent c e ≡ true = ground arith in
    let older = All-le_trans m e.timestamp full le bound in
    let sorted' = Sorted-concat full e sorted older in
    let bound' = All-le-concat e.timestamp full e older (omega arith) in
    let before' : c ≤ e.timestamp - d = omega arith in
    (
      e.timestamp - d,
      omega arith,
      Holds-prune d e.timestamp e.timestamp (h ++ (e ∷ [])) (full ++ (e ∷ [])) (omega arith)
          (c, before', rw same (sym (keep_if-concat (recent c) full e recent_e)), sorted', bound'),
      sorted',
      bound',
    )

Holds-read :
    (d m now : ℕ) (h full : List OutputEvent)
    → m ≤ now
    → Holds d m h full
    → Holds d now (drop_before (now - d) h) full
Holds-read d m now h full le (c, before, same, sorted, bound) = (
  now - d,
  omega arith,
  Holds-prune d m now h full le (c, before, same, sorted, bound),
  sorted,
  All-le_trans m now full le bound,
)

history-insert :
    (b : Bus) (chat chat' : ℤ) (h : List OutputEvent)
    → or_empty (lookup chat' (insert chat h b.history))
      ≡ (if eq_ℤ chat chat' then h else history_of b chat')
history-insert b chat chat' h = rw lookup-insert (ground arith)

after_publish-history :
    (b : Bus) (e : OutputEvent) (o : Option (Map ℕ Channel))
    → let after =
        after_publish b e
          (o >>= λ channels. some (record (publish_locked b e).0 { channels = channels })) in
      (after.history ≡ (publish_locked b e).0.history)
      × (after.history_ttl ≡ (publish_locked b e).0.history_ttl)
after_publish-history b e none = (refl, refl)
after_publish-history b e (some channels) = (refl, refl)

publish-history :
    (b : Bus) (now : ℕ) (e : OutputEvent)
    → let e' = stamped e now in
      ((step b (publishes now e)).history
        ≡ insert e.chat_id
            (prune_history b.history_ttl (history_of b e.chat_id ++ (e' ∷ [])) e'.timestamp)
            b.history)
      × ((step b (publishes now e)).history_ttl ≡ b.history_ttl)
unfolding step publish
publish-history b now e =
    after_publish-history b (stamped e now)
      (send_all (stamped e now) (subs_of b e.chat_id) b.channels)

unsubscribe-history :
    (b : Bus) (chat : ℤ) (ch : ℕ)
    → ((unsubscribe b chat ch).history ≡ b.history)
      × ((unsubscribe b chat ch).history_ttl ≡ b.history_ttl)
unfolding unsubscribe
unsubscribe-history b chat ch = (ground arith, ground arith)

prune-positive :
    (d : ℕ) (ttl : ℤ) (h : List OutputEvent) (now : ℕ)
    → ttl ≡ pos (suc d)
    → prune_history ttl h now ≡ drop_before (now - suc d) h
unfolding prune_history
prune-positive d ttl h now e = rw e refl

module _ (d : ℕ) where
  record Inv (now : ℕ) (calls : List Call) (b : Bus) : Type 0 where
    ttl : b.history_ttl ≡ pos (suc d)
    histories : (chat : ℤ) → Holds (suc d) now (history_of b chat) (log calls chat)

  later-Inv : (m n : ℕ) (calls : List Call) (b : Bus) → m ≤ n → Inv m calls b → Inv n calls b
  later-Inv m n calls b le h = record {
    ttl = h.ttl;
    histories =
        λ chat. Holds-later (suc d) m n (history_of b chat) (log calls chat) le (h.histories chat);
  }

  publish-Inv :
      (m now : ℕ) (e : OutputEvent) (past : List Call) (b : Bus)
      → m ≤ (stamped e now).timestamp
      → Inv m past b
      → Inv (stamped e now).timestamp (publishes now e ∷ past) (step b (publishes now e))
  unfolding log
  publish-Inv m now e past b le h =
      let e' = stamped e now in
      let (written, kept) = publish-history b now e in
      record {
        ttl = kept ∙ h.ttl;
        histories = λ chat.
            rw
              (
                written,
                history-insert,
                prune-positive d b.history_ttl (history_of b e.chat_id ++ (e' ∷ [])) e'.timestamp
                    h.ttl,
              )
              (elim (Bool-cases (eq_ℤ e.chat_id chat)) [
                | inl here ↦ rw here (
                    subst
                      (λ c.
                        Holds (suc d) e'.timestamp
                          (drop_before (e'.timestamp - suc d) (history_of b e.chat_id ++ (e' ∷ [])))
                          (log past c ++ (e' ∷ [])))
                      ((eq_ℤ_iff e.chat_id chat).0 here)
                      (Holds-publish (suc d) m e' (history_of b e.chat_id) (log past e.chat_id) le
                        (h.histories e.chat_id)))
                | inr elsewhere ↦ rw elsewhere (
                    Holds-later (suc d) m e'.timestamp (history_of b chat) (log past chat) le
                      (h.histories chat))
              ]);
      }

  read-Inv :
      (m now : ℕ) (chat : ℤ) (past : List Call) (b : Bus)
      → m ≤ now
      → Inv m past b
      → Inv now (reads now chat ∷ past) (step b (reads now chat))
  unfolding log step snapshot
  read-Inv m now chat past b le h = record {
    ttl = h.ttl;
    histories = λ chat'.
        rw (history-insert, prune-positive d b.history_ttl (history_of b chat) now h.ttl)
          (elim (Bool-cases (eq_ℤ chat chat')) [
            | inl here ↦ rw here (
                subst
                  (λ c.
                    Holds (suc d) now (drop_before (now - suc d) (history_of b chat)) (log past c))
                  ((eq_ℤ_iff chat chat').0 here)
                  (Holds-read (suc d) m now (history_of b chat) (log past chat) le
                    (h.histories chat)))
            | inr elsewhere ↦ rw elsewhere (
                Holds-later (suc d) m now (history_of b chat') (log past chat') le
                  (h.histories chat'))
          ]);
  }

  run-Inv :
      (b : Bus) (calls : List Call) (now : ℕ)
      → b.history_ttl ≡ pos (suc d)
      → b.history ≡ []
      → Ordered now calls
      → Inv now calls (run b calls)
  unfolding run log step subscribe
  run-Inv b [] now ttl empty o = record {
    ttl = ttl;
    histories = λ chat. rw empty (unfold lookup in (0, omega arith, refl, tt, tt));
  }
  run-Inv b (publishes n e ∷ past) now ttl empty o = later-Inv _ now _ _ o.0 (
      publish-Inv (stamped e n).timestamp n e past (run b past) (omega arith)
        (run-Inv b past (stamped e n).timestamp ttl empty o.1))
  run-Inv b (reads n chat ∷ past) now ttl empty o =
      later-Inv n now _ _ o.0
        (read-Inv n n chat past (run b past) (omega arith) (run-Inv b past n ttl empty o.1))
  run-Inv b (joins chat ∷ past) now ttl empty o =
      let h = run-Inv b past now ttl empty o in record { ttl = h.ttl; histories = h.histories }
  run-Inv b (leaves chat ch ∷ past) now ttl empty o =
      let h = run-Inv b past now ttl empty o in
      let (same, kept) = unsubscribe-history (run b past) chat ch in
      record { ttl = kept ∙ h.ttl; histories = λ c. rw same (h.histories c) }

  -- Whatever was published, replayed, subscribed and left before, as long as the times in the events
  -- and the clock do not run backwards: a snapshot of a chat at time `now` is all that was ever
  -- published to that chat, oldest first, less what is older than the time to live. No event of
  -- another chat is among it, and none that is recent enough was lost, even if a send panicked.
  pub snapshot-run :
      (size : ℤ) (calls : List Call) (now : ℕ) (chat : ℤ)
      → Ordered now calls
      → (snapshot (run (new_bus size (pos (suc d))) calls) chat now).1
        ≡ keep_if (recent (now - suc d)) (log calls chat)
  unfolding snapshot
  snapshot-run size calls now chat o =
      let h =
        run-Inv (new_bus size (pos (suc d))) calls now (unfold new_bus in refl)
          (unfold new_bus in refl) o in
      let b = run (new_bus size (pos (suc d))) calls in
      prune-positive d b.history_ttl (history_of b chat) now h.ttl
      ∙ Holds-prune (suc d) now now (history_of b chat) (log calls chat) (omega arith)
          (h.histories chat)
