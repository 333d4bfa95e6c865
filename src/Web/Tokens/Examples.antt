-- ===== src/Web/Tokens/Examples.antt =====
-- The theorems on the tokens at concrete stores: chat 7 has a page token and a socket token, each
-- valid until moment 100.
use telegram_remote_terminal.Prelude.{
  ℕ, ℤ, pos, false, eq_bytes, insert, ◌≤◌, ◌≡◌, refl, [], ◌∷◌, List, none, some, arith, codes,
  add_time, leb, if◌then◌else◌, lookup, bytes_key,
}
use telegram_remote_terminal.Web.Random.{new_token, hex_encode}
use telegram_remote_terminal.Web.Tokens.{
  TokenEntry, TokenStore, new_token_store, issue, issue_ws_token, use_page_token, resolve_ws_token,
  cleanup_expired,
}
use telegram_remote_terminal.Web.Tokens.Exchange.{
  resolve-issue_ws_token, resolve-use_page_token, use_page_token_again, resolve-cleanup_expired,
  use_page_token-cleanup_expired,
}
use telegram_remote_terminal.Web.Tokens.Calls.{Call, issues, uses, issues_ws, run, step, WsOrigin}
use telegram_remote_terminal.Web.Tokens.History.{effective, resolve-has-origin}

abbrev chat_7 : ℤ
chat_7 = pos 7

abbrev page_7 : TokenEntry
page_7 = record { chat_id = chat_7; agent_id = []; expires_at = 100; used = false; ws_token = [] }

abbrev socket_7 : TokenEntry
socket_7 = record {
  chat_id = chat_7;
  agent_id = codes "a";
  expires_at = 100;
  used = false;
  ws_token = [];
}

abbrev store_7 : TokenStore
store_7 = record {
  page_tokens = (codes "p", page_7) ∷ [];
  ws_tokens = (codes "w", socket_7) ∷ [];
  ttl = pos 50;
}

resolve-issue_ws_token_example :
    (resolve_ws_token
      (issue_ws_token store_7 60 (some (1 ∷ [])) chat_7 (codes "b")).0
      110
      (codes "01")).1
    ≡ (if leb 110 (add_time 60 store_7.ttl) then some (chat_7, codes "b") else none)
unfolding new_token hex_encode
resolve-issue_ws_token_example =
    resolve-issue_ws_token store_7 60 110 (some (1 ∷ [])) chat_7 (codes "b") (codes "01") refl

resolve-use_page_token_example :
    ((use_page_token (issue store_7 60 (some (1 ∷ [])) chat_7).0 80 (some (2 ∷ [])) (codes "01")).1
      ≡ some (codes "02", chat_7))
    × ((resolve_ws_token
          (use_page_token
            (issue store_7 60 (some (1 ∷ [])) chat_7).0
            80
            (some (2 ∷ []))
            (codes "01")).0
          111
          (codes "02")).1
        ≡ (if leb 111 (add_time 60 store_7.ttl) then some (chat_7, []) else none))
unfolding new_token hex_encode
resolve-use_page_token_example =
    resolve-use_page_token store_7 60 80 111 (some (1 ∷ [])) (some (2 ∷ [])) chat_7 (codes "01")
      (codes "02") refl refl (omega arith)

use_page_token_again_example :
    use_page_token (use_page_token store_7 10 (some (2 ∷ [])) (codes "p")).0 100 none (codes "p")
    ≡ ((use_page_token store_7 10 (some (2 ∷ [])) (codes "p")).0, some (codes "02", chat_7))
unfolding use_page_token new_token hex_encode lookup eq_bytes
use_page_token_again_example =
    use_page_token_again store_7 10 100 (2 ∷ []) none (codes "p") (codes "02") chat_7 page_7
      (λ e. cc) refl (omega arith) refl

resolve-cleanup_expired_example :
    (resolve_ws_token (cleanup_expired store_7 90) 95 (codes "w")).1
    ≡ (resolve_ws_token store_7 95 (codes "w")).1
unfolding lookup
resolve-cleanup_expired_example =
    resolve-cleanup_expired store_7 90 95 (codes "w") (refl, tt) (omega arith)

use_page_token-cleanup_expired_example :
    (use_page_token (cleanup_expired store_7 90) 95 (some (3 ∷ [])) (codes "p")).1
    ≡ (use_page_token store_7 95 (some (3 ∷ [])) (codes "p")).1
unfolding lookup
use_page_token-cleanup_expired_example =
    use_page_token-cleanup_expired store_7 90 95 (some (3 ∷ [])) (codes "p") (refl, tt)
      (omega arith)

abbrev history_7 : List Call
history_7 =
    uses 8 (some (2 ∷ [])) (codes "01")
    ∷ issues_ws 6 (some (3 ∷ [])) chat_7 (codes "a")
    ∷ issues 5 (some (1 ∷ [])) chat_7
    ∷ []

resolve-has-origin_example :
    (expires : ℕ) × (9 ≤ expires)
    × WsOrigin (effective (pos 50)) history_7 (codes "02") chat_7 [] expires
unfolding run step insert new_token_store eq_bytes resolve_ws_token use_page_token issue
    issue_ws_token new_token hex_encode lookup
resolve-has-origin_example = resolve-has-origin (pos 50) history_7 9 (codes "02") chat_7 [] refl
