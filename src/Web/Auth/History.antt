-- ===== src/Web/Auth/History.antt =====
-- The console's sessions against a ledger of logins and logouts that forgets nothing.
use telegram_remote_terminal.Prelude.{
  ℕ, ◌≤◌, ◌≡◌, ◌≢◌, ◌⊎◌, refl, inl, inr, Bool, true, false, List, [], ◌∷◌, Bytes, Option, none,
  some, arith, IsMap, lookup, insert, remove, lookup-insert, lookup-remove, lookup-retain,
  insert-IsMap, remove-IsMap, retain-IsMap, add_time, ltb, not, bytes_key, eq_bytes, Option-cases,
  if◌then◌else◌, ◌∙◌, only_if,
}
use mathlib.Core.Option
use telegram_remote_terminal.Text.{trim_space}
use telegram_remote_terminal.Web.Random.{new_auth_token}
use telegram_remote_terminal.Web.Auth.{
  ConsoleAuth, Request, sweep, is_live, is_authenticated, handle_login, handle_logout,
  start_session, open_session, end_session, is_post, verify_password,
}
use telegram_remote_terminal.Web.Auth.Session.{is_authenticated-lookup}

-- A call, at its time.
pub data Call : Type 0 where
  logs_in : ℕ → Option Bytes → Request → Call
  logs_out : ℕ → Request → Call
  asks : ℕ → Option Bytes → Call

abbrev pub at : Call → ℕ
at (logs_in now rand r) = now
at (logs_out now r) = now
at (asks now cookie) = now

-- The latest call stands first, and none is before the one that follows it in the list.
abbrev pub Ordered : ℕ → List Call → Type 0
Ordered now [] = Unit
Ordered now (c ∷ past) = (at c ≤ now) × Ordered (at c) past

module _ (check : Bytes → Bytes → Bool) (fold : Bytes → Bytes) (epoch : ℕ)
    (start : ConsoleAuth) where
  unfoldable pub step : ConsoleAuth → Call → ConsoleAuth
  step a (logs_in now rand r) = (handle_login check fold a now rand r).0
  step a (logs_out now r) = (handle_logout fold a epoch r).0
  step a (asks now cookie) = (is_authenticated a now cookie).0

  unfoldable pub run : List Call → ConsoleAuth
  unfolding step
  run [] = start
  run (c ∷ past) = step (run past) c

  -- The token that a login hands out, if it hands one out.
  abbrev pub opened : Option Bytes → Request → Option Bytes
  opened rand r =
      if is_post r.method
      then (elim r.password [
        | none ↦ none
        | some password ↦ if check start.password_hash password then new_auth_token rand else none
      ])
      else none

  -- The token that a logout revokes.
  abbrev pub closed : Request → Option Bytes
  closed r = if is_post r.method then Option.map trim_space r.cookie else none

  abbrev pub names : Bytes → Option Bytes → Bool
  names t none = false
  names t (some token) = eq_bytes token t

  -- The ledger: when the session of a token ends, if it has one.
  unfoldable pub ledger : List Call → Bytes → Option ℕ
  ledger [] t = none
  ledger (logs_in now rand r ∷ past) t =
      if names t (opened rand r) then some (add_time now start.session_ttl) else ledger past t
  ledger (logs_out now r ∷ past) t = if names t (closed r) then none else ledger past t
  ledger (asks now cookie ∷ past) t = ledger past t

  -- The map has what the ledger has, but for what expired before `now`.
  abbrev Agrees : ℕ → Option ℕ → Option ℕ → Type 0
  Agrees now none none = Unit
  Agrees now none (some e) = e ≤ now
  Agrees now (some e) none = ⊥
  Agrees now (some e) (some e') = e ≡ e'

  record Inv (now : ℕ) (calls : List Call) (a : ConsoleAuth) : Type 0 where
    enabled : a.enabled ≡ true
    hash : a.password_hash ≡ start.password_hash
    ttl : a.session_ttl ≡ start.session_ttl
    distinct : IsMap a.sessions
    entries : (t : Bytes) → Agrees now (lookup t a.sessions) (ledger calls t)

  login_state :
      (a : ConsoleAuth) (now : ℕ) (rand : Option Bytes) (r : Request)
      → a.enabled ≡ true
      → a.password_hash ≡ start.password_hash
      → ((opened rand r ≡ none) × ((handle_login check fold a now rand r).0 ≡ a))
        ⊎ ((t : Bytes) × (opened rand r ≡ some t)
            × ((handle_login check fold a now rand r).0
                ≡ record a { sessions = insert t (add_time now a.session_ttl) a.sessions }))
  unfolding handle_login open_session start_session verify_password
  login_state a now rand r on hash = elim (Option-cases (opened rand r)) [
    | inl shut ↦ inl (shut, ground arith)
    | inr (t, drawn) ↦ inr (t, drawn, ground arith)
  ]

  logout_state :
      (a : ConsoleAuth) (r : Request)
      → a.enabled ≡ true
      → ((closed r ≡ none) × ((handle_logout fold a epoch r).0 ≡ a))
        ⊎ ((t : Bytes) × (closed r ≡ some t)
            × ((handle_logout fold a epoch r).0 ≡ record a { sessions = remove t a.sessions }))
  unfolding handle_logout end_session
  logout_state a r on = elim (Option-cases (closed r)) [
    | inl shut ↦ inl (shut, ground arith)
    | inr (t, drawn) ↦ inr (t, drawn, ground arith)
  ]

  ask_state :
      (a : ConsoleAuth) (now : ℕ) (cookie : Option Bytes)
      → a.enabled ≡ true
      → ((is_authenticated a now cookie).0 ≡ a)
        ⊎ ((is_authenticated a now cookie).0 ≡ record a { sessions = sweep now a.sessions })
  unfolding is_authenticated
  ask_state a now none on = ground arith
  ask_state a now (some value) on = ground arith

  Agrees-later : (m n : ℕ) (o o' : Option ℕ) → m ≤ n → Agrees m o o' → Agrees n o o'
  Agrees-later m n none none h g = tt
  Agrees-later m n none (some e) h g = omega arith
  Agrees-later m n (some e) none h g = g
  Agrees-later m n (some e) (some e') h g = g

  -- A sweep drops what expired, and nothing else.
  Agrees-sweep :
      (m n : ℕ) (o o' : Option ℕ)
      → m ≤ n
      → Agrees m o o'
      → Agrees n (only_if (λ expires_at. not (ltb expires_at n)) o) o'
  Agrees-sweep m n none none h g = tt
  Agrees-sweep m n none (some e) h g = omega arith
  Agrees-sweep m n (some e) none h g = absurd g
  Agrees-sweep m n (some e) (some e') h g = ground arith

  Agrees-insert :
      (m n : ℕ) (hit : Bool) (e : ℕ) (o o' : Option ℕ)
      → m ≤ n
      → Agrees m o o'
      → Agrees n (if hit then some e else o) (if hit then some e else o')
  Agrees-insert m n true e o o' h g = refl
  Agrees-insert m n false e o o' h g = Agrees-later m n o o' h g

  Agrees-remove :
      (m n : ℕ) (hit : Bool) (o o' : Option ℕ)
      → m ≤ n
      → Agrees m o o'
      → Agrees n (if hit then none else o) (if hit then none else o')
  Agrees-remove m n true o o' h g = tt
  Agrees-remove m n false o o' h g = Agrees-later m n o o' h g

  login-Inv :
      (m now : ℕ) (rand : Option Bytes) (r : Request) (past : List Call) (a : ConsoleAuth)
      → m ≤ now
      → Inv m past a
      → Inv now (logs_in now rand r ∷ past) (handle_login check fold a now rand r).0
  unfolding ledger
  login-Inv m now rand r past a later h = elim (login_state a now rand r h.enabled h.hash) [
    | inl (shut, same) ↦ rw same (record {
      enabled = h.enabled;
      hash = h.hash;
      ttl = h.ttl;
      distinct = h.distinct;
      entries = λ t.
          rw (shut) (Agrees-later m now (lookup t a.sessions) (ledger past t) later (h.entries t));
    })
    | inr (token, drawn, state) ↦ rw state (record {
      enabled = h.enabled;
      hash = h.hash;
      ttl = h.ttl;
      distinct = insert-IsMap token _ _ h.distinct;
      entries = λ t.
          rw (drawn, lookup-insert, h.ttl)
            (Agrees-insert m now (eq_bytes token t) (add_time now start.session_ttl)
              (lookup t a.sessions) (ledger past t) later (h.entries t));
    })
  ]

  logout-Inv :
      (m now : ℕ) (r : Request) (past : List Call) (a : ConsoleAuth)
      → m ≤ now
      → Inv m past a
      → Inv now (logs_out now r ∷ past) (handle_logout fold a epoch r).0
  unfolding ledger
  logout-Inv m now r past a later h = elim (logout_state a r h.enabled) [
    | inl (shut, same) ↦ rw same (record {
      enabled = h.enabled;
      hash = h.hash;
      ttl = h.ttl;
      distinct = h.distinct;
      entries = λ t.
          rw shut (Agrees-later m now (lookup t a.sessions) (ledger past t) later (h.entries t));
    })
    | inr (token, ended, state) ↦ rw state (record {
      enabled = h.enabled;
      hash = h.hash;
      ttl = h.ttl;
      distinct = remove-IsMap token _ h.distinct;
      entries = λ t.
          rw (ended, lookup-remove)
            (Agrees-remove m now (eq_bytes token t) (lookup t a.sessions) (ledger past t) later
              (h.entries t));
    })
  ]

  ask-Inv :
      (m now : ℕ) (cookie : Option Bytes) (past : List Call) (a : ConsoleAuth)
      → m ≤ now
      → Inv m past a
      → Inv now (asks now cookie ∷ past) (is_authenticated a now cookie).0
  unfolding ledger
  ask-Inv m now cookie past a later h = elim (ask_state a now cookie h.enabled) [
    | inl same ↦ rw same (record {
      enabled = h.enabled;
      hash = h.hash;
      ttl = h.ttl;
      distinct = h.distinct;
      entries = λ t. Agrees-later m now (lookup t a.sessions) (ledger past t) later (h.entries t);
    })
    | inr swept ↦ rw swept (record {
      enabled = h.enabled;
      hash = h.hash;
      ttl = h.ttl;
      distinct = retain-IsMap _ _ h.distinct;
      entries = λ t.
          rw (lookup-retain _ t a.sessions h.distinct)
            (Agrees-sweep m now (lookup t a.sessions) (ledger past t) later (h.entries t));
    })
  ]

  run-Inv :
      (calls : List Call) (now : ℕ)
      → start.enabled ≡ true
      → start.sessions ≡ []
      → Ordered now calls
      → (m : ℕ) × (m ≤ now) × Inv m calls (run calls)
  unfolding run ledger
  run-Inv [] now on empty o = (
    now,
    omega arith,
    record {
      enabled = on;
      hash = refl;
      ttl = refl;
      distinct = rw empty tt;
      entries = λ t. rw empty (unfold lookup in tt);
    },
  )
  run-Inv (logs_in n rand r ∷ past) now on empty o =
      let (m, later, h) = run-Inv past n on empty o.1 in
      (n, o.0, login-Inv m n rand r past (run past) later h)
  run-Inv (logs_out n r ∷ past) now on empty o =
      let (m, later, h) = run-Inv past n on empty o.1 in
      (n, o.0, logout-Inv m n r past (run past) later h)
  run-Inv (asks n cookie ∷ past) now on empty o =
      let (m, later, h) = run-Inv past n on empty o.1 in
      (n, o.0, ask-Inv m n cookie past (run past) later h)

  is_live-Agrees :
      (m now : ℕ) (o o' : Option ℕ) → m ≤ now → Agrees m o o' → is_live now o ≡ is_live now o'
  is_live-Agrees m now none none h g = refl
  is_live-Agrees m now none (some e) h g = ground arith
  is_live-Agrees m now (some e) none h g = absurd g
  is_live-Agrees m now (some e) (some e') h g = rw g

  -- From a console with a password and without sessions, after any logins, logouts and requests in
  -- the order of their times, a request with a cookie that is not blank gets in exactly if the ledger
  -- has a session for it that has not ended: one that a login with the right password opened, that no
  -- later logout closed, and whose time has not run out. It makes no difference when and how often
  -- the expired sessions were swept.
  pub is_authenticated-ledger :
      (calls : List Call) (now : ℕ) (value : Bytes)
      → start.enabled ≡ true
      → start.sessions ≡ []
      → Ordered now calls
      → trim_space value ≢ []
      → (is_authenticated (run calls) now (some value)).1
        ≡ is_live now (ledger calls (trim_space value))
  is_authenticated-ledger calls now value on empty o some_id =
      let (m, later, h) = run-Inv calls now on empty o in
      is_authenticated-lookup (run calls) now value h.enabled h.distinct some_id
      ∙ is_live-Agrees m now (lookup (trim_space value) (run calls).sessions)
          (ledger calls (trim_space value)) later (h.entries (trim_space value))
