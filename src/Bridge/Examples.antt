-- ===== src/Bridge/Examples.antt =====
-- The theorems on the program as a whole, on tables in memory.
use telegram_remote_terminal.Prelude.{
  pos, ◌≡◌, arith, refl, ◌⊎◌, true, false, not, [], ◌∷◌, codes, none, some, All, nonpos, insert,
  lookup, bytes_key, eq_bytes,
}
use telegram_remote_terminal.Text.{trim_space, trim_left, trim_right, is_empty}
use telegram_remote_terminal.Hub.{AgentHub, new_hub, answered, joined}
use telegram_remote_terminal.Hub.Joins.{HasJoined}
use telegram_remote_terminal.Dashboard.Tables.{Tables, tables, empty_tables, inserted}
use telegram_remote_terminal.Dashboard.Store.{create_gateway, normalize_agent_id, random_hex}
use telegram_remote_terminal.Dashboard.Codec.{encrypt}
use telegram_remote_terminal.Config.{load}
use telegram_remote_terminal.Config.Sound.{IsGiven, IsCount}
use telegram_remote_terminal.Web.Auth.{
  ConsoleAuth, is_authenticated, is_enabled, delete_method, post_method,
}
use telegram_remote_terminal.Web.Random.{hex_encode}
use telegram_remote_terminal.Web.Server.{World, HttpRequest, Reply, Server, require_console_auth}
use telegram_remote_terminal.Web.Server.Gateways.{
  handle_gateways, serve_gateways, build_install_command,
}
use telegram_remote_terminal.Bridge.{
  gateways_api, agent_socket, replied, agent_end, Bodies, Outside, serve,
}
use telegram_remote_terminal.Bridge.Start.{manager_config, IsFresh, start, start-load}
use telegram_remote_terminal.Bridge.Guard.{
  gateways_behind, IsTurnedAway, swept, serve_unauthenticated,
}
use telegram_remote_terminal.Bridge.Revoked.{agent-deleted}
use telegram_remote_terminal.Bridge.Joined.{agent-created}

start-load_example :
    let cfg = load (λ text. none) (λ key. []) in
    (s : Server tables) × ((start tables cfg true (some empty_tables) ≡ some s)
      × (IsFresh (manager_config cfg) s.manager
          × ((nonpos s.tokens.ttl ≡ false)
              × ((All IsGiven cfg.command_deny_substrings × All IsGiven cfg.command_allow_prefixes)
                  × (IsCount cfg.max_output_chunk
                      × (is_enabled s.auth
                          ≡ not (is_empty (trim_space cfg.console_auth_password_hash))))))))
start-load_example = start-load tables (λ text. none) (λ key. []) empty_tables

abbrev outside : Outside
outside = record {
  url_text = λ scheme host path. host;
  fold = λ text. text;
  check = eq_bytes;
  parse_time = λ text. none;
  reencode = λ text. some text;
  read_file = λ path. none;
  fallback = codes "script";
  join = λ a b. b;
  exe_dir = none;
  page_readable = true;
  upgrades = true;
  epoch = 0;
  makes_temp = true;
  builds = true;
  reads_binary = true;
}

abbrev world : World
world = record {
  now = 10;
  token_bytes = some (5 ∷ []);
  draws = record {
    id_bytes = some (1 ∷ []);
    token_bytes = some (2 ∷ []);
    nonce = some (7 ∷ []);
    clock = [];
  };
  db_works = true;
  db_now = codes "now";
  starts = true;
  writes = true;
}

abbrev one_gateway : Tables
one_gateway =
    (create_gateway tables none empty_tables true (codes "now") world.draws (codes "gw1") []).0

abbrev server : Server tables
server = record {
  bus = record {
    default_size = 4;
    subs = [];
    history = [];
    history_ttl = pos 100;
    channels = [];
    next = 0;
  };
  manager = record {
    config = record {
      shell = codes "sh";
      work_dir = codes "/";
      idle_timeout = pos 100;
      has_bus = true;
      allow_prefixes = [];
      deny_substrings = [];
      has_audit = true;
    };
    sessions = [];
    closed = false;
    heap = [];
    next = 0;
    events = [];
    records = [];
  };
  tokens = record { page_tokens = []; ws_tokens = []; ttl = pos 50 };
  store = some one_gateway;
  auth = none;
  agent_hub = some (new_hub true);
}

abbrev console : ConsoleAuth
console = record { enabled = true; password_hash = codes "pw"; session_ttl = pos 50; sessions = [] }

abbrev request : HttpRequest
request = record {
  base = record {
    method = delete_method;
    cookie = none;
    tls = true;
    forwarded_proto = [];
    password = none;
  };
  agent_id = codes "gw1";
  chat_id = [];
  profile_id = [];
  token = codes "02";
  host = codes "host";
  forwarded_host = [];
}

abbrev bodies : Bodies
bodies = record {
  gateway = record { agent_id = []; name = []; decoded = false };
  state = none;
  chat = none;
  system = [];
  arch = [];
}

serve_unauthenticated_example :
    let s = record server { auth = some console } in
    (reply : Reply) × ((serve tables none outside s world gateways_api request bodies).1
      ≡ replied reply)
    × (IsTurnedAway reply
        × (((serve tables none outside s world gateways_api request bodies).0 ≡ s)
            ⊎ ((serve tables none outside s world gateways_api request bodies).0
                ≡ swept tables none s console world.now request.base)))
unfolding is_authenticated
serve_unauthenticated_example =
    serve_unauthenticated tables none outside (record server { auth = some console }) console world
      request refl refl gateways_api bodies gateways_behind

agent-deleted_example :
    let t = (serve tables none outside server world gateways_api request bodies).0 in
    let (s', end) = serve tables none outside t world agent_socket request bodies in
    (end ≡ agent_end (answered 403)) × (s'.agent_hub ≡ some (new_hub true))
unfolding serve handle_gateways serve_gateways require_console_auth normalize_agent_id trim_space
    trim_left trim_right new_hub lookup encrypt inserted insert eq_bytes
agent-deleted_example =
    agent-deleted tables none outside server one_gateway world world request request bodies bodies
      (new_hub true) refl refl refl refl refl refl refl refl refl

abbrev posting : HttpRequest
posting = record request { base = record request.base { method = post_method } }

abbrev making : Bodies
making = record bodies { gateway = record { agent_id = codes "gw2"; name = []; decoded = true } }

agent-created_example :
    let t = (serve tables none outside server world gateways_api posting making).0 in
    let (s'', end) =
      serve tables none outside t world agent_socket
        (record request { agent_id = codes " gw2" })
        bodies in
    (end ≡ agent_end (joined 0))
    × ((h' : AgentHub) × (s''.agent_hub ≡ some h')
        × HasJoined (trim_space (codes " gw2")) (new_hub true) h')
unfolding serve handle_gateways serve_gateways require_console_auth create_gateway
    normalize_agent_id random_hex hex_encode build_install_command trim_space trim_left trim_right
    new_hub encrypt inserted insert lookup eq_bytes
agent-created_example =
    agent-created tables none outside server
      (serve tables none outside server world gateways_api posting making).0 one_gateway world world
      posting (record request { agent_id = codes " gw2" }) making bodies (new_hub true)
      (codes "gw2") (codes "02")
      (build_install_command outside.url_text outside.fold posting (codes "gw2") (codes "02"))
      (1 ∷ []) (2 ∷ []) refl refl refl refl refl refl refl refl (omega arith) (omega arith, tt)
      (omega arith, tt) (λ a e. cc) refl refl refl refl refl refl
