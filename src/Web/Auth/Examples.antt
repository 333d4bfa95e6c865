-- ===== src/Web/Auth/Examples.antt =====
-- The theorems on the console's sessions at concrete requests; the password is its own hash here.
use telegram_remote_terminal.Prelude.{
  pos, ◌≡◌, ◌≢◌, ◌⊎◌, refl, true, false, [], ◌∷◌, List, Bytes, none, some, arith, codes, add_time,
  eq_bytes, lookup, bytes_key, ltb,
}
use mathlib.Core.Option
use telegram_remote_terminal.Text.{trim_space, trim_left, trim_right}
use telegram_remote_terminal.Web.Auth.{
  ConsoleAuth, Request, Cookie, get_method, post_method, is_live, is_authenticated, handle_login,
  handle_logout,
}
use telegram_remote_terminal.Web.Auth.Session.{
  is_authenticated-lookup, is_authenticated-handle_login, handle_login_guard,
  is_authenticated-handle_logout,
}
use telegram_remote_terminal.Web.Auth.History.{
  Call, logs_in, logs_out, asks, run, ledger, is_authenticated-ledger,
}

abbrev unchanged : Bytes → Bytes
unchanged s = s

abbrev empty_console : ConsoleAuth
empty_console = record {
  enabled = true;
  password_hash = codes "pw";
  session_ttl = pos 50;
  sessions = [];
}

abbrev console : ConsoleAuth
console = record empty_console { sessions = (codes "01", 100) ∷ [] }

abbrev login_request : Request
login_request = record {
  method = post_method;
  cookie = some (codes "01");
  tls = true;
  forwarded_proto = [];
  password = some (codes "pw");
}

is_authenticated-lookup_example :
    (is_authenticated console 40 (some (codes " 01"))).1
    ≡ is_live 40 (lookup (trim_space (codes " 01")) console.sessions)
unfolding lookup trim_space trim_left trim_right
is_authenticated-lookup_example =
    is_authenticated-lookup console 40 (codes " 01") refl (refl, tt) (λ e. cc)

is_authenticated-handle_login_example :
    let login = handle_login eq_bytes unchanged console 40 (some (2 ∷ [])) login_request in
    (login.1.status ≡ 200)
    × ((t : Bytes) × (Option.map (λ (c : Cookie). c.value) login.1.set_cookie ≡ some t)
        × ((is_authenticated login.0 60 (some t)).1 ≡ ltb 60 (add_time 40 console.session_ttl)))
unfolding lookup eq_bytes
is_authenticated-handle_login_example =
    is_authenticated-handle_login eq_bytes unchanged console 40 60 (2 ∷ []) login_request
      (codes "pw") refl (refl, tt) refl refl refl (λ e. cc) (omega arith, tt)

handle_login_guard_example :
    let login = handle_login eq_bytes unchanged console 40 none login_request in
    ((login_request.method ≡ post_method)
      × ((password : Bytes) × (login_request.password ≡ some password)
          × (eq_bytes console.password_hash password ≡ true))
      × (login.1.status ≡ 200))
    ⊎ ((login.1.status ≢ 200) × (login.0 ≡ console) × (login.1.set_cookie ≡ none))
handle_login_guard_example =
    handle_login_guard eq_bytes unchanged console 40 none login_request refl

is_authenticated-handle_logout_example :
    (is_authenticated (handle_logout unchanged console 0 login_request).0 60 (some (codes "01"))).1
    ≡ false
unfolding lookup
is_authenticated-handle_logout_example =
    is_authenticated-handle_logout unchanged console 0 60 login_request (codes "01") refl (refl, tt)
      refl refl

abbrev calls_made : List Call
calls_made =
    logs_out 30 (record login_request { method = get_method })
    ∷ asks 25 (some (codes "02"))
    ∷ logs_in 20 (some (2 ∷ [])) login_request
    ∷ []

is_authenticated-ledger_example :
    (is_authenticated (run eq_bytes unchanged 0 empty_console calls_made) 40 (some (codes "02"))).1
    ≡ is_live 40 (ledger eq_bytes unchanged 0 empty_console calls_made (trim_space (codes "02")))
unfolding trim_space trim_left trim_right
is_authenticated-ledger_example =
    is_authenticated-ledger eq_bytes unchanged 0 empty_console calls_made 40 (codes "02") refl refl
      (omega arith, (omega arith, (omega arith, tt))) (λ e. cc)
