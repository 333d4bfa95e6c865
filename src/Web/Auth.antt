-- ===== src/Web/Auth.antt =====
-- internal/webterm/auth.go. The clock and the random bytes are arguments, bcrypt is the parameter
-- `check` (hash, then password); `r.Body` is given as what its JSON decoder made of it.
pub mod Session
pub mod History
mod Examples
use telegram_remote_terminal.Prelude.{
  ℕ, zero, ℤ, pos, negsuc, Bool, true, false, [], Bytes, String, codes, Option, none, some, Map,
  lookup, insert, remove, retain, nonpos, add_time, ltb, if◌then◌else◌, not, bytes_key, ◌*◌,
  eq_bytes, ◌&&◌,
}
use telegram_remote_terminal.Text.{is_empty, trim_space, to_lower}
use telegram_remote_terminal.Web.Random.{new_auth_token}

pub record ConsoleAuth : Type 0 where
  pub enabled : Bool
  pub password_hash : Bytes
  pub session_ttl : ℤ
  pub sessions : Map Bytes ℕ

pub data Method : Type 0 where
  get_method post_method put_method delete_method : Method
  other_method : Bytes → Method

pub record Request : Type 0 where
  pub method : Method
  pub cookie : Option Bytes
  pub tls : Bool
  pub forwarded_proto : Bytes
  pub password : Option Bytes

pub data SameSite : Type 0 where
  lax_mode : SameSite

abbrev pub console_session_cookie_name : Bytes
console_session_cookie_name = codes "webterm_console_session"

pub record Cookie : Type 0 where
  pub name : Bytes
  pub value : Bytes
  pub path : String
  pub http_only : Bool
  pub same_site : SameSite
  pub secure : Bool
  pub expires : ℕ
  pub max_age : ℤ

pub data Body : Type 0 where
  error_text : String → Body
  session_info : (enabled authenticated : Bool) → Body
  login_done : (enabled : Bool) → Body
  logout_done : Body

pub record Response : Type 0 where
  pub status : ℕ
  pub body : Body
  pub set_cookie : Option Cookie

abbrev pub http_error : String → ℕ → Response
http_error text code = record { status = code; body = error_text text; set_cookie = none }

-- twelve hours, in nanoseconds
abbrev pub default_session_ttl : ℤ
default_session_ttl = pos (12 * 3600 * 1_000_000_000)

unfoldable pub new_console_auth : Bytes → ℤ → ConsoleAuth
new_console_auth hash session_ttl =
    let password_hash = trim_space hash in
    if is_empty password_hash
    then record { enabled = false; password_hash = []; session_ttl = pos 0; sessions = [] }
    else record {
      enabled = true;
      password_hash = password_hash;
      session_ttl = if nonpos session_ttl then default_session_ttl else session_ttl;
      sessions = [];
    }

-- The receiver may be nil.
abbrev pub is_enabled : Option ConsoleAuth → Bool
is_enabled none = false
is_enabled (some a) = a.enabled

-- The sweep of `IsAuthenticated`, which drops what has expired.
abbrev pub sweep : ℕ → Map Bytes ℕ → Map Bytes ℕ
sweep now = retain (λ expires_at. not (ltb expires_at now))

abbrev pub is_live : ℕ → Option ℕ → Bool
is_live now none = false
is_live now (some expires_at) = ltb now expires_at

unfoldable pub is_authenticated : ConsoleAuth → ℕ → Option Bytes → ConsoleAuth × Bool
is_authenticated a now none = (a, not (is_enabled (some a)))
is_authenticated a now (some value) =
    let session_id = trim_space value in
    let swept = record a { sessions = sweep now a.sessions } in
    if not (is_enabled (some a))
    then (a, true)
    else if is_empty session_id
    then (a, false)
    else (swept, is_live now (lookup session_id swept.sessions))

unfoldable pub is_https : (Bytes → Bytes) → Request → Bool
is_https fold r =
    if r.tls then true else eq_bytes (trim_space (to_lower fold r.forwarded_proto)) (codes "https")

module _ (fold : Bytes → Bytes) where
  -- The new sessions, whether it succeeded, and the cookie that it set.
  unfoldable pub start_session :
      ConsoleAuth → ℕ → Option Bytes → Request → ConsoleAuth × Bool × Option Cookie
  start_session a now rand r =
      if not (is_enabled (some a)) then (a, true, none) else elim (new_auth_token rand) [
        | none ↦ (a, false, none)
        | some token ↦
            let expires_at = add_time now a.session_ttl in
            (
              record a { sessions = insert token expires_at a.sessions },
              true,
              some (record {
                name = console_session_cookie_name;
                value = token;
                path = "/";
                http_only = true;
                same_site = lax_mode;
                secure = is_https fold r;
                expires = expires_at;
                max_age = pos 0;
              }),
            )
      ]

  abbrev end_sessions : ConsoleAuth → Option Bytes → ConsoleAuth
  end_sessions a none = a
  end_sessions a (some value) = record a { sessions = remove (trim_space value) a.sessions }

  -- `epoch` is `time.Unix(0, 0)`.
  unfoldable pub end_session : ConsoleAuth → ℕ → Request → ConsoleAuth × Cookie
  end_session a epoch r = (
    if is_enabled (some a) then end_sessions a r.cookie else a,
    record {
      name = console_session_cookie_name;
      value = [];
      path = "/";
      http_only = true;
      same_site = lax_mode;
      secure = is_https fold r;
      expires = epoch;
      max_age = negsuc 0;
    },
  )

unfoldable pub require_auth : ConsoleAuth → ℕ → Request → ConsoleAuth × Option Response
unfolding is_authenticated
require_auth a now r =
    let (a', ok) = is_authenticated a now r.cookie in
    (a', if ok then none else some (http_error "unauthorized" 401))

unfoldable pub handle_session : ConsoleAuth → ℕ → Request → ConsoleAuth × Response
unfolding is_authenticated
handle_session a now r =
    let (a', ok) = is_authenticated a now r.cookie in
    (a', record { status = 200; body = session_info (is_enabled (some a)) ok; set_cookie = none })

abbrev pub is_post : Method → Bool
is_post post_method = true
is_post _ = false

module _ (check : Bytes → Bytes → Bool) (fold : Bytes → Bytes) where
  unfoldable pub verify_password : ConsoleAuth → Bytes → Bool
  verify_password a password =
      if not (is_enabled (some a)) then true else check a.password_hash password

  -- The part of `HandleLogin` behind the password.
  open_session : ConsoleAuth → ℕ → Option Bytes → Request → ConsoleAuth × Response
  unfolding start_session
  open_session a now rand r =
      let (a', ok, cookie) = start_session fold a now rand r in
      if ok
      then (a', record { status = 200; body = login_done true; set_cookie = cookie })
      else (a', http_error "create session failed" 500)

  unfoldable pub handle_login : ConsoleAuth → ℕ → Option Bytes → Request → ConsoleAuth × Response
  unfolding open_session verify_password
  handle_login a now rand r =
      if not (is_post r.method)
      then (a, http_error "method not allowed" 405)
      else if not (is_enabled (some a))
      then (a, record { status = 200; body = login_done false; set_cookie = none })
      else elim r.password [
        | none ↦ (a, http_error "invalid json body" 400)
        | some password ↦
            if not (verify_password a password)
            then (a, http_error "invalid credentials" 401)
            else open_session a now rand r
      ]

unfoldable pub handle_logout : (Bytes → Bytes) → ConsoleAuth → ℕ → Request → ConsoleAuth × Response
unfolding end_session
handle_logout fold a epoch r =
    if not (is_post r.method)
    then (a, http_error "method not allowed" 405)
    else let (a', cookie) = end_session fold a epoch r in
      (a', record { status = 200; body = logout_done; set_cookie = some cookie })
