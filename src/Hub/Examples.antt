-- ===== src/Hub/Examples.antt =====
-- The theorem on the hub's protocol at a hub with one agent, whose chat 7 was opened twice, typed to
-- and closed once.
use telegram_remote_terminal.Prelude.{
  ℤ, pos, refl, Bool, true, false, [], ◌∷◌, Bytes, Option, some, codes, lookup, insert, nat_key,
  bytes_key, eq_bytes,
}
use telegram_remote_terminal.Text.{trim_space, trim_left, trim_right}
use telegram_remote_terminal.Hub.{
  opens, inputs, AgentConn, AgentHub, new_hub, handle_ws, join, close_conn, on_agent, open_agent,
  close_agent, input, open_chat, close_chat, ensure_open, deliver, send,
}
use telegram_remote_terminal.Hub.Protocol.{Good}
use telegram_remote_terminal.Hub.Reach.{
  Reach, starts, handles, opens_chat, closes_chat, sends_input, Reach-Good,
}

abbrev chat_7 : ℤ
chat_7 = pos 7

abbrev accepts : Bytes → Bytes → Option Bool
accepts id token = some true

abbrev unchanged : Bytes → Bytes
unchanged s = s

abbrev hub_0 : AgentHub
hub_0 = (handle_ws accepts (new_hub true) (codes "a") (codes "t") true).0

abbrev hub_1 : AgentHub
hub_1 = (open_agent hub_0 (codes "a") chat_7 true).0

abbrev hub_2 : AgentHub
hub_2 = (input hub_1 (codes "a") chat_7 true true (codes "ls")).0

abbrev hub_3 : AgentHub
hub_3 = close_agent (open_agent hub_2 (codes "a") chat_7 true).0 (codes "a") chat_7 true

hub_3-Reach : Reach accepts unchanged true hub_3
hub_3-Reach = closes_chat (codes "a") chat_7 true (
    opens_chat (codes "a") chat_7 true (
      sends_input (codes "a") chat_7 true true (codes "ls")
        (opens_chat (codes "a") chat_7 true (handles (codes "a") (codes "t") true starts))))

abbrev conn_3 : AgentConn
conn_3 = record {
  refs = (chat_7, 1) ∷ [];
  sent = inputs chat_7 (codes "ls") ∷ opens chat_7 ∷ [];
  closed = false;
  failed = false;
}

Reach-Good_example : Good conn_3
unfolding new_hub handle_ws join close_conn on_agent open_agent close_agent input open_chat
    close_chat ensure_open deliver send lookup insert eq_bytes trim_space trim_left trim_right
Reach-Good_example = Reach-Good accepts unchanged true hub_3 0 conn_3 hub_3-Reach refl refl
