-- ===== src/Dashboard/Store/Profiles.antt =====
-- The stored states of the profiles in internal/webterm/state_store.go.
use telegram_remote_terminal.Prelude.{
  ◌≡◌, refl, inl, inr, true, Bytes, Option, none, some, ok, if◌then◌else◌, eq_bytes, Option-cases,
  Bool-cases,
}
use telegram_remote_terminal.Dashboard.Codec.{Aead, encrypt}
use telegram_remote_terminal.Dashboard.Codec.RoundTrip.{Fits, decrypt-encrypt}
use telegram_remote_terminal.Dashboard.Database.{Database}
use telegram_remote_terminal.Dashboard.Store.{get, save}

module _ (D : Database) (codec : Option Aead) where
  -- `Save` that reports no error has stored the payload: `Get` of the profile gives it back, whatever
  -- the codec did to it, and every other profile is as it was. The payload is one that the codec can
  -- read back, and the database works for the read.
  pub get-save :
      (d : D.Db) (now : Bytes) (rand : Option Bytes) (profile payload p : Bytes)
      → Fits codec rand payload
      → (save D codec d true now rand profile payload).1 ≡ none
      → get D codec (save D codec d true now rand profile payload).0 true p
        ≡ (if eq_bytes profile p then ok (some payload) else get D codec d true p)
  unfolding get save
  get-save d now rand profile payload p fits h = elim (Option-cases (encrypt codec rand payload)) [
    | inl failed ↦ cc (rw (failed, save) at h)
    | inr (stored, e) ↦
        rw (e, save, get, D.payload_of-put_payload d profile stored now p)
          (elim (Bool-cases (eq_bytes profile p)) [
            | inl same ↦ rw (same, decrypt-encrypt codec rand payload stored fits e) refl
            | inr other ↦ rw other refl
          ])
  ]
