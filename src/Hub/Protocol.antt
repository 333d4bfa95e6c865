-- ===== src/Hub/Protocol.antt =====
-- What the hub writes to an agent's connection follows a protocol: a chat is opened before it is used.
use telegram_remote_terminal.Prelude.{
  ℕ, zero, suc, ℤ, ◌≡◌, ◌≢◌, refl, ◌⊎◌, inl, inr, Bool, true, false, List, [], ◌∷◌, Option, none,
  some, Map, lookup, insert, remove, if◌then◌else◌, not, ◌&&◌, arith, is_some, eq_ℤ, eq_ℤ_iff,
  int_key, nat_key, bytes_key, Bool-cases, lookup-insert, lookup-remove,
}
use telegram_remote_terminal.Hub.{
  Frame, opens, closes, inputs, resizes, uninstalls, AgentConn, send, count_of,
}

-- The chat is open for an agent that has read the frames: the last `opens` or `closes` of it opened.
unfoldable pub is_open : ℤ → List Frame → Bool
is_open chat [] = false
is_open chat (opens c ∷ past) = let rest = is_open chat past in if eq_ℤ c chat then true else rest
is_open chat (closes c ∷ past) = let rest = is_open chat past in if eq_ℤ c chat then false else rest
is_open chat (inputs c text ∷ past) = is_open chat past
is_open chat (resizes c cols rows ∷ past) = is_open chat past
is_open chat (uninstalls ∷ past) = is_open chat past

-- A frame may follow others: a chat is opened only while it is not open, and used only while it is.
unfoldable pub may_follow : Frame → List Frame → Bool
may_follow (opens c) past = not (is_open c past)
may_follow (closes c) past = true
may_follow (inputs c text) past = is_open c past
may_follow (resizes c cols rows) past = is_open c past
may_follow uninstalls past = true

-- Every frame of the connection could follow those before it.
unfoldable pub Proper : List Frame → Type 0
Proper [] = Unit
Proper (f ∷ past) = (may_follow f past ≡ true) × Proper past

-- What holds of a connection to which no write has failed: its frames are proper, no count of
-- references is 0, and the chats that are referred to are those that are open for the agent.
pub record Good (a : AgentConn) : Type 0 where
  pub proper : Proper a.sent
  pub counted : (chat : ℤ) → lookup chat a.refs ≢ some 0
  pub agrees : (chat : ℤ) → is_some (lookup chat a.refs) ≡ is_open chat a.sent

-- The references change at one chat, as the frame says.
put_frame :
    (refs refs' : Map ℤ ℕ) (past : List Frame) (c : ℤ) (f : Frame) (on : Bool)
    → ((chat : ℤ) → is_some (lookup chat refs) ≡ is_open chat past)
    → ((chat : ℤ)
        → is_some (lookup chat refs') ≡ (if eq_ℤ c chat then on else is_some (lookup chat refs)))
    → ((chat : ℤ) → is_open chat (f ∷ past) ≡ (if eq_ℤ c chat then on else is_open chat past))
    → (chat : ℤ) → is_some (lookup chat refs') ≡ is_open chat (f ∷ past)
put_frame refs refs' past c f on h after shown chat = ground (arith, h chat, after chat, shown chat)

insert-is_some :
    (c chat : ℤ) (n : ℕ) (refs : Map ℤ ℕ)
    → is_some (lookup chat (insert c n refs))
      ≡ (if eq_ℤ c chat then true else is_some (lookup chat refs))
insert-is_some c chat n refs = rw lookup-insert (ground arith)

remove-is_some :
    (c chat : ℤ) (refs : Map ℤ ℕ)
    → is_some (lookup chat (remove c refs))
      ≡ (if eq_ℤ c chat then false else is_some (lookup chat refs))
remove-is_some c chat refs = rw lookup-remove (ground arith)

insert-counted :
    (c chat : ℤ) (n : ℕ) (refs : Map ℤ ℕ)
    → lookup chat refs ≢ some 0
    → lookup chat (insert c (suc n) refs) ≢ some 0
insert-counted c chat n refs h =
    rw lookup-insert
      (elim (Bool-cases (eq_ℤ c chat)) [ inl same ↦ rw same (λ e. cc) | inr other ↦ rw other h ])

remove-counted :
    (c chat : ℤ) (refs : Map ℤ ℕ) → lookup chat refs ≢ some 0 → lookup chat (remove c refs) ≢ some 0
remove-counted c chat refs h =
    rw lookup-remove
      (elim (Bool-cases (eq_ℤ c chat)) [ inl same ↦ rw same (λ e. cc) | inr other ↦ rw other h ])

-- A write that fails is remembered; any other adds its frame.
pub send_cases :
    (a : AgentConn) (ok : Bool) (f : Frame)
    → (((send a ok f).0.failed ≡ true) × (is_some (send a ok f).1 ≡ true))
      ⊎ (((send a ok f).0 ≡ record a { sent = f ∷ a.sent }) × ((send a ok f).1 ≡ none))
unfolding send
send_cases a ok f = elim (Bool-cases (ok && not a.closed)) [
  | inl written ↦ inr (ground arith, ground arith)
  | inr lost ↦ inl (ground arith, ground arith)
]

-- Sound: good, unless a write has failed.
abbrev pub Sound : AgentConn → Type 0
Sound a = a.failed ≡ false → Good a

pub send-Sound :
    (a : AgentConn) (ok : Bool) (f : Frame)
    → (a.failed ≡ false → Good (record a { sent = f ∷ a.sent }))
    → Sound (send a ok f).0
send-Sound a ok f h whole = elim (send_cases a ok f) [
  | inl (lost, _) ↦ cc (lost, whole)
  | inr (same, _) ↦ let whole' : a.failed ≡ false = rw same at whole in rw same (h whole')
]

pub open-Good :
    (a : AgentConn) (chat : ℤ) (n : ℕ)
    → is_some (lookup chat a.refs) ≡ false
    → Good a
    → Good (record a { refs = insert chat (suc n) a.refs; sent = opens chat ∷ a.sent })
unfolding Proper may_follow is_open
open-Good a chat n free g = record {
  proper = (ground (arith, g.agrees chat, free), g.proper);
  counted = λ c. insert-counted chat c n a.refs (g.counted c);
  agrees =
      put_frame a.refs (insert chat (suc n) a.refs) a.sent chat (opens chat) true g.agrees
        (λ c. insert-is_some chat c (suc n) a.refs) (λ c. refl);
}

pub close-Good :
    (a : AgentConn) (chat : ℤ)
    → Good a
    → Good (record a { refs = remove chat a.refs; sent = closes chat ∷ a.sent })
unfolding Proper may_follow is_open
close-Good a chat g = record {
  proper = (refl, g.proper);
  counted = λ c. remove-counted chat c a.refs (g.counted c);
  agrees =
      put_frame a.refs (remove chat a.refs) a.sent chat (closes chat) false g.agrees
        (λ c. remove-is_some chat c a.refs) (λ c. refl);
}

pub recount-Good :
    (a : AgentConn) (chat : ℤ) (n : ℕ)
    → is_some (lookup chat a.refs) ≡ true
    → Good a
    → Good (record a { refs = insert chat (suc n) a.refs })
recount-Good a chat n held g = record {
  proper = g.proper;
  counted = λ c. insert-counted chat c n a.refs (g.counted c);
  agrees = λ c. still c;
}
  where
    still : (c : ℤ) → is_some (lookup c (insert chat (suc n) a.refs)) ≡ is_open c a.sent
    still c = ground (
      arith,
      insert-is_some chat c (suc n) a.refs,
      g.agrees c,
      g.agrees chat,
      eq_ℤ_iff chat c,
      held,
    )

pub counts :
    (o : Option ℕ)
    → o ≢ some 0
    → ((is_some o ≡ false) × (count_of o ≡ 0))
      ⊎ ((is_some o ≡ true) × ((n : ℕ) × (count_of o ≡ suc n)))
counts none h = inl (refl, refl)
counts (some zero) h = absurd (h refl)
counts (some (suc n)) h = inr (refl, (n, refl))
