-- ===== src/Agent.antt =====
-- cmd/agent/main.go: the sessions of the agent, one message of its loop, the callback when a shell
-- ends, and the configuration. `heap` has the sessions that were started, by number; `sessions` refers
-- to it. `sent` is what was written to the socket, the newest first; a failed write is ignored there.
pub mod Strays
mod Examples
use telegram_remote_terminal.Prelude.{
  ℕ, suc, ℤ, pos, Bool, true, false, not, ◌||◌, List, [], ◌∷◌, ◌++◌, Bytes, codes, Option, none,
  some, Result, ok, err, Map, lookup, insert, remove, if◌then◌else◌, int_key, nat_key, eq_ℤ,
  eq_bytes, nonpos, is_some,
}
use telegram_remote_terminal.Text.{
  trim_space, to_lower, is_empty, has_prefix, trim_prefix, contains,
}
use telegram_remote_terminal.Terminal.Session.{
  Session, Error, fresh_session, write_raw, resize, stop,
}
use telegram_remote_terminal.Config.{get_with_default}

-- A `message` with its type in any writing.
pub record Message : Type 0 where
  pub kind : Bytes
  pub chat : ℤ
  pub text : Bytes
  pub cols : ℤ
  pub rows : ℤ

-- What the agent sends.
pub data Report : Type 0 where
  status output : (chat : ℤ) → (text : Bytes) → Report

pub record Agent : Type 0 where
  pub sessions : Map ℤ ℕ
  pub heap : Map ℕ Session
  pub next : ℕ
  pub sent : List Report
  -- the loop has returned
  pub ended : Bool

abbrev pub new_agent : Agent
new_agent = record { sessions = []; heap = []; next = 0; sent = []; ended = false }

abbrev pub report : Agent → Report → Agent
report a r = record a { sent = r ∷ a.sent }

unfoldable pub stop_session : Agent → ℕ → Agent
unfolding stop
stop_session a id = elim (lookup id a.heap) [
  | none ↦ a
  | some s ↦ record a { heap = insert id (stop s) a.heap }
]

-- `starts` is none, or the text of the error of `NewSession`.
unfoldable pub on_open : Agent → (fails : Option Bytes) → ℤ → Agent
on_open a fails chat =
    if eq_ℤ chat (pos 0) || is_some (lookup chat a.sessions) then a else elim fails [
      | some text ↦
          report a (status chat (codes "\n[open session failed: " ++ (text ++ codes "]\n")))
      | none ↦
          report
            (record a {
              sessions = insert chat a.next a.sessions;
              heap = insert a.next fresh_session a.heap;
              next = suc a.next;
            })
            (status chat (codes "[new terminal session created]\n"))
    ]

abbrev stop_found : Agent → Option ℕ → Agent
stop_found a none = a
stop_found a (some id) = stop_session a id

unfoldable pub on_close : Agent → ℤ → Agent
unfolding stop_session
on_close a chat =
    if eq_ℤ chat (pos 0)
    then a
    else stop_found (record a { sessions = remove chat a.sessions }) (lookup chat a.sessions)

-- A method of the session that the chat has.
unfoldable pub on_session : Agent → ℤ → (Session → Session × Option Error) → Agent
on_session a chat method = elim (lookup chat a.sessions) [
  | none ↦ a
  | some id ↦ elim (lookup id a.heap) [
    | none ↦ a
    | some s ↦ record a { heap = insert id (method s).0 a.heap }
  ]
]

abbrev request_uninstall : Agent → Agent
request_uninstall a = record (report a (status (pos 0) (codes "[agent uninstall requested]\n"))) {
  ended = true;
}

module _ (fold : Bytes → Bytes) where
  -- One message of the loop; `works` is whether a write to the shell or its size succeeds.
  unfoldable pub on_message : Agent → (fails : Option Bytes) → (works : Bool) → Message → Agent
  unfolding on_open on_close on_session
  on_message a fails works msg =
      let kind = to_lower fold (trim_space msg.kind) in
      if eq_bytes kind (codes "open")
      then on_open a fails msg.chat
      else if eq_bytes kind (codes "close")
      then on_close a msg.chat
      else if eq_bytes kind (codes "input")
      then (if eq_ℤ msg.chat (pos 0)
          then a
          else on_session a msg.chat (λ s. write_raw s works msg.text))
      else if eq_bytes kind (codes "resize")
      then (if eq_ℤ msg.chat (pos 0) || (nonpos msg.cols || nonpos msg.rows)
          then a
          else on_session a msg.chat (λ s. resize s works msg.cols msg.rows))
      else if eq_bytes kind (codes "uninstall")
      then request_uninstall a
      else a

-- What a shell prints.
unfoldable pub on_output : Agent → ℤ → Bytes → Agent
on_output a chat out = report a (output chat out)

abbrev closed_text : Option Bytes → Bytes
closed_text none = codes "\n[session closed]\n"
closed_text (some text) = codes "\n[session closed: " ++ (text ++ codes "]\n")

-- The end of the process of session `id`, which was opened for the chat: `Stop` of the session, and
-- then the callback, which does not ask whose entry it deletes.
unfoldable pub on_exit : Agent → ℤ → (id : ℕ) → (error : Option Bytes) → Agent
unfolding stop_session
on_exit a chat id error =
    let a1 = report (stop_session a id) (status chat (closed_text error)) in
    record a1 { sessions = remove chat a1.sessions }

unfoldable pub stop_all : Agent → Map ℤ ℕ → Agent
unfolding stop_session
stop_all a [] = a
stop_all a ((chat, id) ∷ rest) = stop_all (stop_session a id) rest

-- `closeAll`, when the loop returns.
unfoldable pub close_all : Agent → Agent
unfolding stop_all
close_all a = stop_all (record a { sessions = [] }) a.sessions

pub record AgentConfig : Type 0 where
  pub server_url : Bytes
  pub agent_id : Bytes
  pub token : Bytes
  pub shell : Bytes
  pub work_dir : Bytes

pub data ConfigError : Type 0 where
  url_required url_invalid id_and_token_required : ConfigError

-- The URL that is made of a host and a port.
unfoldable pub url_of_host : (host port : Bytes) → Bytes
url_of_host host port =
    let plain =
      has_prefix host (codes "http://")
      || (has_prefix host (codes "ws://")
          || (contains host (codes "127.0.0.1") || contains host (codes "localhost"))) in
    let scheme = if plain then codes "ws" else codes "wss" in
    let bare =
      trim_prefix
        (trim_prefix (trim_prefix (trim_prefix host (codes "https://")) (codes "http://"))
          (codes "wss://"))
        (codes "ws://") in
    let h = if is_empty port then bare else bare ++ (b':' ∷ port) in
    scheme ++ (codes "://" ++ (h ++ codes "/agent/ws"))

abbrev set_or : Bytes → Bytes → Bytes
set_or text fallback = if is_empty text then fallback else text

-- `env` is `os.Getenv`, and `parses` is whether `url.Parse` accepts a text; `get_with_default` of the
-- bridge's configuration is `getenv`, to the word.
unfoldable pub load_agent :
    (env : Bytes → Bytes) → (parses : Bytes → Bool) → Result ConfigError AgentConfig
unfolding get_with_default url_of_host
load_agent env parses =
    let port = trim_space (get_with_default (env (codes "AGENT_PORT")) []) in
    let host = trim_space (get_with_default (env (codes "AGENT_SERVER_HOST")) []) in
    let given = trim_space (env (codes "AGENT_SERVER_URL")) in
    let url =
      if is_empty given then (if is_empty host then [] else url_of_host host port) else given in
    let id = trim_space (env (codes "AGENT_ID")) in
    let token = trim_space (env (codes "AGENT_TOKEN")) in
    if is_empty url
    then err url_required
    else if not (parses url)
    then err url_invalid
    else if is_empty id || is_empty token
    then err id_and_token_required
    else ok (record {
      server_url = url;
      agent_id = id;
      token = token;
      shell =
          set_or (get_with_default (env (codes "AGENT_SHELL")) (codes "/bin/bash"))
            (codes "/bin/bash");
      work_dir = set_or (get_with_default (env (codes "AGENT_WORKDIR")) (codes ".")) (codes ".");
    })
