-- ===== src/Web/Server/States.antt =====
-- The handlers of internal/webterm/server.go for the dashboard's state.
use telegram_remote_terminal.Prelude.{
  ℕ, Bool, true, false, not, ◌&&◌, ◌||◌, [], ◌∷◌, Bytes, codes, Option, none, some, Result, ok, err,
  if◌then◌else◌, ltb, leb, ◌==◌, eq_bytes, length, is_some,
}
use telegram_remote_terminal.Text.{trim_space, is_empty}
use telegram_remote_terminal.Dashboard.Codec.{Aead}
use telegram_remote_terminal.Dashboard.Database.{Database}
use telegram_remote_terminal.Dashboard.Store.{StoreError, get, save}
use telegram_remote_terminal.Web.Auth.{
  Method, get_method, post_method, put_method, delete_method, other_method,
}
use telegram_remote_terminal.Web.Server.{
  World, HttpRequest, Reply, refused, state_found, state_missing, state_saved, Server,
  require_console_auth, guarded,
}

-- What the JSON decoder made of the body; the payload is its raw text.
pub record StateBody : Type 0 where
  pub profile_id : Bytes
  pub payload : Bytes

abbrev is_profile_byte : ℕ → Bool
is_profile_byte c =
    (leb b'a' c && leb c b'z')
    || (leb b'A' c && leb c b'Z')
    || (leb b'0' c && leb c b'9')
    || (c == b'-' || c == b'_' || c == b'.')

unfoldable pub all_profile_bytes : Bytes → Bool
all_profile_bytes [] = true
all_profile_bytes (c ∷ s) = is_profile_byte c && all_profile_bytes s

unfoldable pub valid_profile_id : Bytes → Bool
unfolding all_profile_bytes
valid_profile_id v =
    let text = trim_space v in
    if ltb (length text) 8 || ltb 128 (length text) then false else all_profile_bytes text

abbrev pub max_payload : ℕ
max_payload = 1_000_000

-- `reencode` is what the JSON encoder writes of the value that `json.Unmarshal` reads from a text, or
-- none when that fails.
module _ (D : Database) (codec : Option Aead) (reencode : Bytes → Option Bytes) where
  abbrev pub found_reply : Bytes → Result StoreError (Option Bytes) → Reply
  found_reply profile_id (err e) = refused "read dashboard state failed" 500
  found_reply profile_id (ok none) = state_missing profile_id
  found_reply profile_id (ok (some payload)) = elim (reencode payload) [
    | none ↦ state_missing profile_id
    | some text ↦ state_found profile_id text
  ]

  unfoldable pub handle_get_dashboard_state :
      Server D → D.Db → World → HttpRequest → Server D × Reply
  unfolding valid_profile_id get
  handle_get_dashboard_state s d w r =
      let profile_id = trim_space r.profile_id in
      if not (valid_profile_id profile_id)
      then (s, refused "invalid profile_id" 400)
      else (s, found_reply profile_id (get D codec d w.db_works profile_id))

  abbrev pub saved_reply : Server D → D.Db × Option StoreError → Server D × Reply
  saved_reply s (d', some e) =
      (record s { store = some d' }, refused "save dashboard state failed" 500)
  saved_reply s (d', none) = (record s { store = some d' }, state_saved)

  -- `none` is a body that is not decoded.
  unfoldable pub handle_save_dashboard_state :
      Server D → D.Db → World → Option StateBody → Server D × Reply
  unfolding valid_profile_id save
  handle_save_dashboard_state s d w none = (s, refused "invalid json body" 400)
  handle_save_dashboard_state s d w (some body) =
      let profile_id = trim_space body.profile_id in
      let payload = trim_space body.payload in
      if not (valid_profile_id profile_id)
      then (s, refused "invalid profile_id" 400)
      else if is_empty payload || eq_bytes payload (codes "null")
      then (s, refused "payload is required" 400)
      else if ltb max_payload (length payload)
      then (s, refused "payload too large" 413)
      else if not (is_some (reencode payload))
      then (s, refused "payload must be valid json" 400)
      else saved_reply s (save D codec d w.db_works w.db_now w.draws.nonce profile_id payload)

  unfoldable pub serve_state :
      Server D → D.Db → World → HttpRequest → Option StateBody → Method → Server D × Reply
  unfolding handle_get_dashboard_state handle_save_dashboard_state
  serve_state s d w r body get_method = handle_get_dashboard_state s d w r
  serve_state s d w r body post_method = handle_save_dashboard_state s d w body
  serve_state s d w r body put_method = (s, refused "method not allowed" 405)
  serve_state s d w r body delete_method = (s, refused "method not allowed" 405)
  serve_state s d w r body (other_method m) = (s, refused "method not allowed" 405)

  abbrev pub with_store :
      Option D.Db → Server D → World → HttpRequest → Option StateBody → Server D × Reply
  with_store none s w r body = (s, refused "dashboard state store not configured" 503)
  with_store (some d) s w r body =
      guarded D (require_console_auth D s w.now r.base)
        (λ s'. serve_state s' d w r body r.base.method)

  unfoldable pub handle_dashboard_state :
      Server D → World → HttpRequest → Option StateBody → Server D × Reply
  unfolding require_console_auth serve_state
  handle_dashboard_state s w r body = with_store s.store s w r body
