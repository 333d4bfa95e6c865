-- ===== src/Web/Server/Examples.antt =====
-- The theorems on the server at concrete requests: the console has no password, and chat 7 a shell.
use mathlib.Core.Option
use telegram_remote_terminal.Prelude.{
  ℕ, ℤ, pos, ◌≡◌, refl, true, false, [], ◌∷◌, Bytes, codes, Option, none, some, arith,
  if◌then◌else◌, insert, lookup, bytes_key, int_key, nat_key, eq_bytes, eq_ℤ, ◌==◌,
}
use telegram_remote_terminal.Text.{trim_space, trim_left, trim_right, has_prefix}
use telegram_remote_terminal.Events.{
  subscribe, new_bus, history_of, publish, publish_locked, prune_history, drop_before, send_all,
  send,
}
use telegram_remote_terminal.Events.Invariant.{new_bus-Inv}
use telegram_remote_terminal.Terminal.Session.{fresh_session}
use telegram_remote_terminal.Terminal.Manager.{
  Manager, ManagedSession, status_event, run_on, get_or_create, find_session, new_session, register,
  use_session, on_session, touch, audit, with_got,
}
use telegram_remote_terminal.Terminal.Manager.Operations.{send_interactive_input}
use telegram_remote_terminal.Dashboard.Tables.{tables, empty_tables, plain_aead}
use telegram_remote_terminal.Dashboard.Store.{save}
use telegram_remote_terminal.Dashboard.Codec.{encrypt}
use telegram_remote_terminal.Web.Auth.{get_method, post_method}
use telegram_remote_terminal.Web.Server.{
  World, HttpRequest, Reply, state_found, Server, require_console_auth,
}
use telegram_remote_terminal.Web.Server.States.{
  StateBody, handle_dashboard_state, serve_state, handle_save_dashboard_state, valid_profile_id,
  all_profile_bytes,
}
use telegram_remote_terminal.Web.Server.Saved.{found-saved}
use telegram_remote_terminal.Web.Server.Tokens.{handle_issue_ws_token}
use telegram_remote_terminal.Web.Server.Sockets.{
  Socket, publish_all, on_manager, send_input, on_socket,
}
use telegram_remote_terminal.Web.Server.Isolation.{Stays, on_socket-Stays}
use telegram_remote_terminal.Web.Server.Input.{on_socket-types}

abbrev world : World
world = record {
  now = 10;
  token_bytes = some (5 ∷ []);
  draws = record {
    id_bytes = some (1 ∷ []);
    token_bytes = some (2 ∷ []);
    nonce = some (7 ∷ []);
    clock = [];
  };
  db_works = true;
  db_now = codes "now";
  starts = true;
  writes = true;
}

abbrev shell_7 : ManagedSession
shell_7 = record { session = 0; last_active = 3 }

abbrev manager_7 : Manager
manager_7 = record {
  config = record {
    shell = codes "sh";
    work_dir = codes "/";
    idle_timeout = pos 100;
    has_bus = true;
    allow_prefixes = [];
    deny_substrings = [];
    has_audit = true;
  };
  sessions = (pos 7, shell_7) ∷ [];
  closed = false;
  heap = (0, fresh_session) ∷ [];
  next = 1;
  events = [];
  records = [];
}

abbrev server : Server tables
server = record {
  bus = record {
    default_size = 4;
    subs = [];
    history = [];
    history_ttl = pos 100;
    channels = [];
    next = 0;
  };
  manager = manager_7;
  tokens = record { page_tokens = []; ws_tokens = []; ttl = pos 50 };
  store = some empty_tables;
  auth = none;
  agent_hub = none;
}

abbrev request : HttpRequest
request = record {
  base = record {
    method = post_method;
    cookie = none;
    tls = true;
    forwarded_proto = [];
    password = none;
  };
  agent_id = [];
  chat_id = codes "7";
  profile_id = codes "profile1";
  token = codes "05";
  host = codes "host";
  forwarded_host = [];
}

abbrev asking : HttpRequest
asking = record request { base = record request.base { method = get_method } }

abbrev body : StateBody
body = record { profile_id = codes "profile1"; payload = codes " { }" }

abbrev compact : Bytes → Option Bytes
compact text = if eq_bytes text (codes "{ }") then some (codes "{}") else none

abbrev saved : Server tables × Reply
saved = handle_dashboard_state tables (some plain_aead) compact server world request (some body)

found-saved_example :
    (text : Bytes) × (compact (codes "{ }") ≡ some text)
    × ((handle_dashboard_state tables (some plain_aead) compact saved.0 world asking none).1
        ≡ state_found (codes "profile1") text)
unfolding handle_dashboard_state require_console_auth serve_state handle_save_dashboard_state save
    encrypt valid_profile_id all_profile_bytes trim_space trim_left trim_right eq_bytes insert
    lookup
found-saved_example =
    found-saved tables (some plain_aead) compact server saved.0 empty_tables world world request
      asking body none refl refl refl refl refl refl refl
      ((omega arith, (omega arith, (omega arith, tt))), (refl, (omega arith, tt))) refl

abbrev issued : Server tables × Reply
issued = handle_issue_ws_token tables none server world request none

abbrev socket_7 : Socket
socket_7 = record { chat = pos 7; agent_id = []; channel = 0 }

on_socket-types_example :
    let (o, pong) =
      on_socket tables (λ text. none) (λ text. text) server world socket_7 (codes "ls ") in
    (s' : Server tables) × (o ≡ some s')
    × (pong ≡ none)
    × (s' ≡ record server { manager = s'.manager })
    × ((id : ℕ)
        → lookup id s'.manager.heap ≡ (
            if shell_7.session == id
            then some (record fresh_session { written = codes "ls " })
            else lookup id manager_7.heap))
    × ((other : ℤ)
        → lookup other s'.manager.sessions ≡ (
            if eq_ℤ socket_7.chat other
            then some (record shell_7 { last_active = world.now })
            else lookup other manager_7.sessions))
unfolding trim_space trim_left trim_right has_prefix lookup
on_socket-types_example =
    on_socket-types tables (λ text. none) (λ text. text) server world socket_7 (codes "ls ") shell_7
      fresh_session refl (record { open_yet = refl; registered = refl; present = refl }) refl refl
      refl refl

abbrev socket_8 : Socket
socket_8 = record { chat = pos 8; agent_id = []; channel = 0 }

on_socket-Stays_example :
    Stays tables socket_8 server
      (on_socket tables (λ text. none) (λ text. text) server world socket_8 (codes "{x")).0
      true
unfolding new_bus
on_socket-Stays_example =
    on_socket-Stays tables (λ text. none) (λ text. text) server world socket_8
      (new_bus-Inv (pos 4) (pos 100)) (codes "{x")

-- A first input starts a shell, which the viewers of the chat are told.
first_input :
    let (o, _) =
      on_socket tables
        (λ text. none)
        (λ text. text)
        (record server { bus = (subscribe server.bus (pos 8)).0 })
        world
        socket_8
        (codes "ls") in
    Option.map (λ (s : Server tables). history_of s.bus (pos 8)) o
    ≡ some (status_event (pos 8) (codes "[new terminal session created]\n") world.now ∷ [])
unfolding on_socket send_input on_manager publish_all publish publish_locked prune_history
    drop_before send_all send send_interactive_input run_on get_or_create find_session new_session
    register use_session on_session touch audit with_got subscribe has_prefix trim_space trim_left
    trim_right insert lookup
first_input = refl
