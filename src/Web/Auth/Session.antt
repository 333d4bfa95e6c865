-- ===== src/Web/Auth/Session.antt =====
-- One login, one logout, and what the console answers afterwards.
use telegram_remote_terminal.Prelude.{
  ℕ, ◌≡◌, ◌≢◌, ◌⊎◌, refl, inl, inr, Bool, true, false, [], Bytes, Option, none, some, arith, IsMap,
  lookup, insert, remove, lookup-insert_self, lookup-remove_self, lookup-retain, insert-IsMap,
  remove-IsMap, add_time, ltb, not, bytes_key, All, Option-cases, Bool-cases, sym, ◌∙◌,
}
use mathlib.Core.Option
use telegram_remote_terminal.Text.{trim_space}
use telegram_remote_terminal.Text.Trim.{trim_space-plain}
use telegram_remote_terminal.Web.Random.{
  new_auth_token, hex_encode, hex_encode-ne-nil, hex_encode-IsPlain, IsByte,
}
use telegram_remote_terminal.Web.Auth.{
  ConsoleAuth, Request, Cookie, Method, post_method, is_live, is_authenticated, handle_login,
  handle_logout, start_session, open_session, end_session, is_post, verify_password,
}

-- With a password set and no token twice in the map, `IsAuthenticated` lets a cookie that is not
-- blank in exactly if it names a session that has not expired; the sweep before the lookup does not
-- change that.
pub is_authenticated-lookup :
    (a : ConsoleAuth) (now : ℕ) (value : Bytes)
    → a.enabled ≡ true
    → IsMap a.sessions
    → trim_space value ≢ []
    → (is_authenticated a now (some value)).1 ≡ is_live now (lookup (trim_space value) a.sessions)
unfolding is_authenticated
is_authenticated-lookup a now value on u some_id = ground (
  arith,
  lookup-retain (λ (expires_at : ℕ). not (ltb expires_at now)) (trim_space value) a.sessions u,
)

is_post-eq : (m : Method) → is_post m ≡ true → m ≡ post_method
is_post-eq m h = ground arith

module _ (check : Bytes → Bytes → Bool) (fold : Bytes → Bytes) where
  login_accepted :
      (a : ConsoleAuth) (now : ℕ) (rand : Option Bytes) (r : Request) (password t : Bytes)
      → a.enabled ≡ true
      → r.method ≡ post_method
      → r.password ≡ some password
      → check a.password_hash password ≡ true
      → new_auth_token rand ≡ some t
      → ((handle_login check fold a now rand r).0
          ≡ record a { sessions = insert t (add_time now a.session_ttl) a.sessions })
        × ((handle_login check fold a now rand r).1.status ≡ 200)
        × (Option.map (λ (c : Cookie). c.value) (handle_login check fold a now rand r).1.set_cookie
            ≡ some t)
  unfolding handle_login open_session start_session
  login_accepted a now rand r password t on post given right drawn =
      rw (post, given, drawn, handle_login, open_session, start_session, on)
        (ground arith, ground arith, ground arith)

  -- With a password set and no token twice in the map, a POST with the right password, for which
  -- bytes are drawn, is answered with 200 and a cookie that lets its bearer in exactly until the time
  -- to live of the session has passed.
  pub is_authenticated-handle_login :
      (a : ConsoleAuth) (now later : ℕ) (buf : Bytes) (r : Request) (password : Bytes)
      → a.enabled ≡ true
      → IsMap a.sessions
      → r.method ≡ post_method
      → r.password ≡ some password
      → check a.password_hash password ≡ true
      → buf ≢ []
      → All IsByte buf
      → let login = handle_login check fold a now (some buf) r in
        (login.1.status ≡ 200)
        × ((t : Bytes) × (Option.map (λ (c : Cookie). c.value) login.1.set_cookie ≡ some t)
            × ((is_authenticated login.0 later (some t)).1
                ≡ ltb later (add_time now a.session_ttl)))
  is_authenticated-handle_login a now later buf r password on u post given right some_bytes bytes =
      let t = hex_encode buf in
      let (state, status, cookie) =
        login_accepted a now (some buf) r password t on post given right
          (unfold new_auth_token in refl) in
      let same = trim_space-plain t (hex_encode-IsPlain buf bytes) in
      let expires = add_time now a.session_ttl in
      (
        status,
        (
          t,
          cookie,
          rw state (
              is_authenticated-lookup (record a { sessions = insert t expires a.sessions }) later t
                on (insert-IsMap t expires a.sessions u)
                (λ e. hex_encode-ne-nil buf some_bytes (sym same ∙ e))
              ∙ rw (same, lookup-insert_self) refl),
        ),
      )

  -- With a password set, the console answers a login with 200 only to a POST whose password bcrypt
  -- accepts; after any other answer its sessions are as they were and no cookie is set.
  pub handle_login_guard :
      (a : ConsoleAuth) (now : ℕ) (rand : Option Bytes) (r : Request)
      → a.enabled ≡ true
      → let login = handle_login check fold a now rand r in
        ((r.method ≡ post_method)
          × ((password : Bytes) × (r.password ≡ some password)
              × (check a.password_hash password ≡ true))
          × (login.1.status ≡ 200))
        ⊎ ((login.1.status ≢ 200) × (login.0 ≡ a) × (login.1.set_cookie ≡ none))
  unfolding handle_login open_session start_session verify_password
  handle_login_guard a now rand r on = elim (Bool-cases (is_post r.method)) [
    | inl post ↦ elim (Option-cases r.password) [
      | inl absent ↦ inr (ground arith, ground arith, ground arith)
      | inr (password, given) ↦ elim (Bool-cases (check a.password_hash password)) [
        | inl right ↦ elim (Option-cases (new_auth_token rand)) [
          | inl failed ↦
              inr (ground (arith, failed), ground (arith, failed), ground (arith, failed))
          | inr (t, drawn) ↦
              inl (is_post-eq r.method post, (password, given, right), ground (arith, drawn))
        ]
        | inr wrong ↦ inr (ground arith, ground arith, ground arith)
      ]
    ]
    | inr other ↦ inr (ground arith, ground arith, ground arith)
  ]

absent_refused :
    (a : ConsoleAuth) (now : ℕ) (value : Bytes)
    → a.enabled ≡ true
    → IsMap a.sessions
    → lookup (trim_space value) a.sessions ≡ none
    → (is_authenticated a now (some value)).1 ≡ false
unfolding is_authenticated
absent_refused a now value on u absent = ground (
  arith,
  lookup-retain (λ (expires_at : ℕ). not (ltb expires_at now)) (trim_space value) a.sessions u,
)

pub logout_state :
    (fold : Bytes → Bytes) (a : ConsoleAuth) (epoch : ℕ) (r : Request) (value : Bytes)
    → a.enabled ≡ true
    → r.method ≡ post_method
    → r.cookie ≡ some value
    → (handle_logout fold a epoch r).0
      ≡ record a { sessions = remove (trim_space value) a.sessions }
unfolding handle_logout end_session
logout_state fold a epoch r value on post cookie =
    rw (post, cookie, handle_logout, end_session, on) refl

-- With a password set and no token twice in the map, no request with the cookie of a POST to logout
-- gets in after it.
pub is_authenticated-handle_logout :
    (fold : Bytes → Bytes) (a : ConsoleAuth) (epoch later : ℕ) (r : Request) (value : Bytes)
    → a.enabled ≡ true
    → IsMap a.sessions
    → r.method ≡ post_method
    → r.cookie ≡ some value
    → (is_authenticated (handle_logout fold a epoch r).0 later (some value)).1 ≡ false
is_authenticated-handle_logout fold a epoch later r value on u post cookie =
    rw (logout_state fold a epoch r value on post cookie) (
      absent_refused (record a { sessions = remove (trim_space value) a.sessions }) later value on
        (remove-IsMap (trim_space value) a.sessions u)
        (lookup-remove_self (trim_space value) a.sessions))
