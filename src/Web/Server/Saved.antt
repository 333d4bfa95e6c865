-- ===== src/Web/Server/Saved.antt =====
-- A state of the dashboard that is saved through internal/webterm/server.go and read back.
use telegram_remote_terminal.Prelude.{
  ◌≡◌, refl, ◌∙◌, sym, ap, inl, inr, ◌||◌, Bool, true, false, Bytes, codes, Option, none, some, ok,
  eq_bytes, eq_bytes_iff, is_some, ltb, length, Option-cases, Bool-cases,
}
use telegram_remote_terminal.Text.{trim_space, is_empty}
use telegram_remote_terminal.Dashboard.Codec.{Aead, encrypt}
use telegram_remote_terminal.Dashboard.Codec.RoundTrip.{Fits}
use telegram_remote_terminal.Dashboard.Database.{Database}
use telegram_remote_terminal.Dashboard.Store.{StoreError, get, save}
use telegram_remote_terminal.Dashboard.Store.Profiles.{get-save}
use telegram_remote_terminal.Web.Auth.{get_method, post_method}
use telegram_remote_terminal.Web.Server.{
  World, HttpRequest, state_found, state_saved, Server, require_console_auth, guarded-admitted,
}
use telegram_remote_terminal.Web.Server.States.{
  StateBody, max_payload, valid_profile_id, found_reply, handle_get_dashboard_state,
  handle_save_dashboard_state, handle_dashboard_state, serve_state, saved_reply, with_store,
}

module _ (D : Database) (codec : Option Aead) (reencode : Bytes → Option Bytes) where
  -- What a POST that was answered with success went through.
  record Accepted (s s' : Server D) (d : D.Db) (w : World) (body : StateBody) : Type 0 where
    is_valid : valid_profile_id (trim_space body.profile_id) ≡ true
    parses : is_some (reencode (trim_space body.payload)) ≡ true
    works : w.db_works ≡ true
    no_error :
        (save D codec d true w.db_now w.draws.nonce
          (trim_space body.profile_id)
          (trim_space body.payload)).1
        ≡ none
    store_is :
        s'.store
        ≡ some
            (save D codec d true w.db_now w.draws.nonce
              (trim_space body.profile_id)
              (trim_space body.payload)).0

  saved_ok :
      (s s' : Server D) (x : D.Db × Option StoreError)
      → saved_reply D codec reencode s x ≡ (s', state_saved)
      → (x.1 ≡ none) × (s'.store ≡ some x.0)
  saved_ok s s' (d', none) h = (refl, ap (λ y. y.0.store) (sym h))
  saved_ok s s' (d', some e) h = cc

  save_works :
      (d : D.Db) (works : Bool) (now : Bytes) (rand : Option Bytes) (profile payload : Bytes)
      → (save D codec d works now rand profile payload).1 ≡ none
      → works ≡ true
  unfolding save
  save_works d true now rand profile payload h = refl
  save_works d false now rand profile payload h = elim (Option-cases (encrypt codec rand payload)) [
    | inl failed ↦ cc (rw (failed, save) at h)
    | inr (stored, e) ↦ cc (rw (e, save) at h)
  ]

  accepted :
      (s s' : Server D) (d : D.Db) (w : World) (body : StateBody)
      → handle_save_dashboard_state D codec reencode s d w (some body) ≡ (s', state_saved)
      → Accepted s s' d w body
  unfolding handle_save_dashboard_state
  accepted s s' d w body h =
      let profile_id = trim_space body.profile_id in
      let payload = trim_space body.payload in
      elim (Bool-cases (valid_profile_id profile_id)) [
        | inr bad ↦ cc (rw (bad, handle_save_dashboard_state) at h)
        | inl valid ↦ elim (Bool-cases (is_empty payload || eq_bytes payload (codes "null"))) [
          | inl blank ↦ cc (rw (valid, blank, handle_save_dashboard_state) at h)
          | inr there ↦ elim (Bool-cases (ltb max_payload (length payload))) [
            | inl long ↦ cc (rw (valid, there, long, handle_save_dashboard_state) at h)
            | inr short ↦ elim (Bool-cases (is_some (reencode payload))) [
              | inr broken ↦ cc (rw (valid, there, short, broken, handle_save_dashboard_state) at h)
              | inl json ↦
                  let (no_error, store_is) =
                    saved_ok s s' _
                      (rw (valid, there, short, json, handle_save_dashboard_state) at h) in
                  let works = save_works d _ _ _ _ _ no_error in
                  record {
                    is_valid = valid;
                    parses = json;
                    works = works;
                    no_error = rw works at no_error;
                    store_is = rw works at store_is;
                  }
            ]
          ]
        ]
      ]

  -- What a POST by an admitted request is answered with, and a GET, over a store.
  posted :
      (s : Server D) (d : D.Db) (w : World) (r : HttpRequest) (body : Option StateBody)
      → s.store ≡ some d
      → r.base.method ≡ post_method
      → (require_console_auth D s w.now r.base).1 ≡ none
      → handle_dashboard_state D codec reencode s w r body
        ≡ handle_save_dashboard_state D codec reencode
            (require_console_auth D s w.now r.base).0
            d
            w
            body
  unfolding handle_dashboard_state serve_state
  posted s d w r body there post login =
      ap (λ x. with_store D codec reencode x s w r body) there
      ∙ (guarded-admitted D (require_console_auth D s w.now r.base) _ login
          ∙ ap (serve_state D codec reencode (require_console_auth D s w.now r.base).0 d w r body)
              post)

  got :
      (s : Server D) (d : D.Db) (w : World) (r : HttpRequest) (body : Option StateBody)
      → s.store ≡ some d
      → r.base.method ≡ get_method
      → (require_console_auth D s w.now r.base).1 ≡ none
      → handle_dashboard_state D codec reencode s w r body
        ≡ handle_get_dashboard_state D codec reencode
            (require_console_auth D s w.now r.base).0
            d
            w
            r
  unfolding handle_dashboard_state serve_state
  got s d w r body there gets login =
      ap (λ x. with_store D codec reencode x s w r body) there
      ∙ (guarded-admitted D (require_console_auth D s w.now r.base) _ login
          ∙ ap (serve_state D codec reencode (require_console_auth D s w.now r.base).0 d w r body)
              gets)

  found_reply_lem :
      (profile payload text : Bytes)
      → reencode payload ≡ some text
      → found_reply D codec reencode profile (ok (some payload)) ≡ state_found profile text
  found_reply_lem profile payload text again = rw (again, found_reply) refl

  -- A state that a POST was answered for with success is what a GET of the same profile answers right
  -- afterwards, whatever the codec did to it: the trimmed text as the JSON decoder and encoder write it
  -- again. Both requests pass the login,
  -- the database works for the GET, and the codec can read the payload back.
  pub found-saved :
      (s s' : Server D) (d : D.Db) (w w' : World) (r r' : HttpRequest) (body : StateBody)
      (other : Option StateBody)
      → s.store ≡ some d
      → r.base.method ≡ post_method
      → r'.base.method ≡ get_method
      → (require_console_auth D s w.now r.base).1 ≡ none
      → (require_console_auth D s' w'.now r'.base).1 ≡ none
      → w'.db_works ≡ true
      → trim_space r'.profile_id ≡ trim_space body.profile_id
      → Fits codec w.draws.nonce (trim_space body.payload)
      → handle_dashboard_state D codec reencode s w r (some body) ≡ (s', state_saved)
      → (text : Bytes) × (reencode (trim_space body.payload) ≡ some text)
        × ((handle_dashboard_state D codec reencode s' w' r' other).1
            ≡ state_found (trim_space body.profile_id) text)
  unfolding handle_get_dashboard_state
  found-saved s s' d w w' r r' body other there post gets login login' works same fits h =
      let ok_post =
        accepted _ s' d w body (sym (posted s d w r (some body) there post login) ∙ h) in
      let d' =
        (save D codec d true w.db_now w.draws.nonce (trim_space body.profile_id)
          (trim_space body.payload)).0 in
      let read : get D codec d' true (trim_space body.profile_id)
          ≡ ok (some (trim_space body.payload)) =
        get-save D codec d w.db_now w.draws.nonce (trim_space body.profile_id)
          (trim_space body.payload) (trim_space body.profile_id) fits ok_post.no_error
        ∙ rw ((eq_bytes_iff (trim_space body.profile_id) (trim_space body.profile_id)).1 refl)
            refl in
      let answered : (handle_dashboard_state D codec reencode s' w' r' other).1
          ≡ found_reply D codec reencode (trim_space body.profile_id)
              (ok (some (trim_space body.payload))) =
        ap (λ x. x.1) (got s' d' w' r' other ok_post.store_is gets login')
        ∙ rw (same, ok_post.is_valid, works, handle_get_dashboard_state, read) refl in
      elim (Option-cases (reencode (trim_space body.payload))) [
        | inl fails ↦ absurd (let parses = ok_post.parses in cc (rw fails at parses))
        | inr (text, again) ↦
            (text, again, answered ∙ found_reply_lem (trim_space body.profile_id) _ text again)
      ]
