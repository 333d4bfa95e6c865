-- ===== src/Hub/Calls.antt =====
-- The methods of a connection, and the hub's, against the protocol.
use telegram_remote_terminal.Prelude.{
  ℕ, zero, suc, ℤ, ◌≡◌, refl, inl, inr, Bool, true, false, List, ◌∷◌, Bytes, Option, none, lookup,
  insert, remove, arith, is_some, eq_ℤ_iff, int_key, nat_key, bytes_key, Bool-cases, Option-cases,
  ◌∙◌, sym, ltb, subst, ◌-◌,
}
use telegram_remote_terminal.Hub.{
  Frame, opens, closes, inputs, resizes, uninstalls, AgentConn, send, count_of, open_chat,
  close_chat, ensure_open, deliver, uninstall_conn,
}
use telegram_remote_terminal.Hub.Protocol.{
  is_open, may_follow, Proper, Good, Sound, send_cases, send-Sound, open-Good, close-Good,
  recount-Good, counts,
}

two_or_more : (n : ℕ) → ltb 1 (suc (suc n)) ≡ true
two_or_more n = ground arith

one_less : (n : ℕ) → suc (suc n) - 1 ≡ suc n
one_less n = omega arith

module _ (a : AgentConn) (chat : ℤ) (ok : Bool) where
  open_first :
      count_of (lookup chat a.refs) ≡ 0
      → (open_chat chat ok a).0
        ≡ (send (record a { refs = insert chat 1 a.refs }) ok (opens chat)).0
  unfolding open_chat
  open_first h = rw h refl

  open_again :
      (n : ℕ)
      → count_of (lookup chat a.refs) ≡ suc n
      → (open_chat chat ok a).0 ≡ record a { refs = insert chat (suc (suc n)) a.refs }
  unfolding open_chat
  open_again n h = rw h (rw (two_or_more n) refl)

  close_last :
      ltb 1 (count_of (lookup chat a.refs)) ≡ false
      → (close_chat chat ok a).0
        ≡ (send (record a { refs = remove chat a.refs }) ok (closes chat)).0
  unfolding close_chat
  close_last h = rw h refl

  close_early :
      (n : ℕ)
      → count_of (lookup chat a.refs) ≡ suc (suc n)
      → (close_chat chat ok a).0 ≡ record a { refs = insert chat (suc n) a.refs }
  unfolding close_chat
  close_early n h = rw h (rw (two_or_more n, one_less n) refl)

-- A method that does not forget a failure is considered on a good connection only.
from_Good :
    (a a' : AgentConn)
    → (a.failed ≡ true → a'.failed ≡ true)
    → (Good a → Sound a')
    → Sound a
    → Sound a'
from_Good a a' keeps h sound whole = elim (Bool-cases a.failed) [
  | inl lost ↦ cc (keeps lost, whole)
  | inr none_yet ↦ h (sound none_yet) whole
]

module _ (a : AgentConn) (chat : ℤ) (ok : Bool) where
  open_chat-failed : a.failed ≡ true → (open_chat chat ok a).0.failed ≡ true
  unfolding open_chat send
  open_chat-failed h = ground arith

  close_chat-failed : a.failed ≡ true → (close_chat chat ok a).0.failed ≡ true
  unfolding close_chat send
  close_chat-failed h = ground arith

  ensure_open-failed : a.failed ≡ true → (ensure_open chat ok a).0.failed ≡ true
  unfolding ensure_open send
  ensure_open-failed h = ground arith

pub open_chat-Sound :
    (a : AgentConn) (chat : ℤ) (ok : Bool) → Sound a → Sound (open_chat chat ok a).0
open_chat-Sound a chat ok = from_Good a (open_chat chat ok a).0 (open_chat-failed a chat ok) (λ g.
    elim (counts (lookup chat a.refs) (g.counted chat)) [
      | inl (free, zero_of) ↦ subst Sound (sym (open_first a chat ok zero_of)) (
          send-Sound (record a { refs = insert chat 1 a.refs }) ok (opens chat)
            (λ _. open-Good a chat 0 free g))
      | inr (held, (n, count)) ↦
          subst Sound (sym (open_again a chat ok n count)) (λ _. recount-Good a chat (suc n) held g)
    ])

last_one : (o : Option ℕ) → count_of o ≡ suc zero → ltb 1 (count_of o) ≡ false
last_one o h = rw h (ground arith)

none_left : (o : Option ℕ) → count_of o ≡ 0 → ltb 1 (count_of o) ≡ false
none_left o h = rw h (ground arith)

pub close_chat-Sound :
    (a : AgentConn) (chat : ℤ) (ok : Bool) → Sound a → Sound (close_chat chat ok a).0
close_chat-Sound a chat ok =
    from_Good a (close_chat chat ok a).0 (close_chat-failed a chat ok) (λ g.
      let lasts = λ (h : ltb 1 (count_of (lookup chat a.refs)) ≡ false).
        let result : Sound (close_chat chat ok a).0 = subst Sound (sym (close_last a chat ok h)) (
          send-Sound (record a { refs = remove chat a.refs }) ok (closes chat)
            (λ _. close-Good a chat g)) in
        result in
      elim (counts (lookup chat a.refs) (g.counted chat)) [
        | inl (free, zero_of) ↦ lasts (none_left (lookup chat a.refs) zero_of)
        | inr (held, (zero, count)) ↦ lasts (last_one (lookup chat a.refs) count)
        | inr (held, (suc n, count)) ↦
            subst Sound (sym (close_early a chat ok n count)) (λ _. recount-Good a chat n held g)
      ])

-- After `ensure_open` the chat is open, if that gave no error.
ensure_open-Sound :
    (a : AgentConn) (chat : ℤ) (ok : Bool) → Sound a → Sound (ensure_open chat ok a).0
unfolding ensure_open
ensure_open-Sound a chat ok h = elim (Bool-cases (is_some (lookup chat a.refs))) [
  | inl held ↦ rw held h
  | inr free ↦ rw free (
      send-Sound (record a { refs = insert chat 1 a.refs }) ok (opens chat)
        (λ whole. open-Good a chat 0 free (h whole)))
]

ensure_open-is_open :
    (a : AgentConn) (chat : ℤ) (ok : Bool)
    → Good a
    → (ensure_open chat ok a).1 ≡ none
    → is_open chat (ensure_open chat ok a).0.sent ≡ true
unfolding ensure_open is_open
ensure_open-is_open a chat ok g h = elim (Bool-cases (is_some (lookup chat a.refs))) [
  | inl held ↦ rw held (sym (g.agrees chat) ∙ held)
  | inr free ↦ elim (send_cases (record a { refs = insert chat 1 a.refs }) ok (opens chat)) [
    | inl (_, lost) ↦ cc (rw free at h, lost)
    | inr (same, _) ↦ rw (free, same) (ground (arith, eq_ℤ_iff chat chat))
  ]
]

-- A frame for a chat that is open.
use-Good :
    (a : AgentConn) (chat : ℤ) (f : Frame)
    → ((past : List Frame) → may_follow f past ≡ is_open chat past)
    → ((c : ℤ) (past : List Frame) → is_open c (f ∷ past) ≡ is_open c past)
    → is_open chat a.sent ≡ true
    → Good a
    → Good (record a { sent = f ∷ a.sent })
unfolding Proper
use-Good a chat f follows silent there g = record {
  proper = (follows a.sent ∙ there, g.proper);
  counted = g.counted;
  agrees = λ c. g.agrees c ∙ sym (silent c a.sent);
}

deliver-failed :
    (a : AgentConn) (chat : ℤ) (ok ok' : Bool) (f : Frame)
    → a.failed ≡ true
    → (deliver chat ok ok' f a).0.failed ≡ true
unfolding deliver ensure_open send
deliver-failed a chat ok ok' f h = ground arith

deliver-Sound :
    (a : AgentConn) (chat : ℤ) (ok ok' : Bool) (f : Frame)
    → ((past : List Frame) → may_follow f past ≡ is_open chat past)
    → ((c : ℤ) (past : List Frame) → is_open c (f ∷ past) ≡ is_open c past)
    → Sound a
    → Sound (deliver chat ok ok' f a).0
unfolding deliver
deliver-Sound a chat ok ok' f follows silent =
    from_Good a (deliver chat ok ok' f a).0 (deliver-failed a chat ok ok' f) (λ g.
      let opened : Sound (ensure_open chat ok a).0 = ensure_open-Sound a chat ok (λ _. g) in
      elim (Option-cases (ensure_open chat ok a).1) [
        | inl fine ↦
            rw (fine, deliver)
              (send-Sound (ensure_open chat ok a).0 ok' f (λ whole.
                use-Good (ensure_open chat ok a).0 chat f follows silent
                  (ensure_open-is_open a chat ok g fine) (opened whole)))
        | inr (e, failure) ↦ rw (failure, deliver) opened
      ])

pub inputs-Sound :
    (a : AgentConn) (chat : ℤ) (ok ok' : Bool) (text : Bytes)
    → Sound a
    → Sound (deliver chat ok ok' (inputs chat text) a).0
unfolding may_follow is_open
inputs-Sound a chat ok ok' text =
    deliver-Sound a chat ok ok' (inputs chat text) (λ past. refl) (λ c past. refl)

pub resizes-Sound :
    (a : AgentConn) (chat : ℤ) (ok ok' : Bool) (cols rows : ℤ)
    → Sound a
    → Sound (deliver chat ok ok' (resizes chat cols rows) a).0
unfolding may_follow is_open
resizes-Sound a chat ok ok' cols rows =
    deliver-Sound a chat ok ok' (resizes chat cols rows) (λ past. refl) (λ c past. refl)

pub closed-Sound : (a : AgentConn) → Sound a → Sound (record a { closed = true })
closed-Sound a h whole =
    let g = h whole in record { proper = g.proper; counted = g.counted; agrees = g.agrees }

pub uninstall_conn-Sound : (a : AgentConn) (ok : Bool) → Sound a → Sound (uninstall_conn ok a).0
unfolding uninstall_conn Proper may_follow is_open
uninstall_conn-Sound a ok h =
    let sent : Sound (send a ok uninstalls).0 = send-Sound a ok uninstalls (λ whole.
      let g = h whole in
      record { proper = (refl, g.proper); counted = g.counted; agrees = g.agrees }) in
    elim (Option-cases (send a ok uninstalls).1) [
      | inl fine ↦ rw (fine, uninstall_conn) (closed-Sound (send a ok uninstalls).0 sent)
      | inr (e, failure) ↦ rw (failure, uninstall_conn) sent
    ]
