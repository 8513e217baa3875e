-- ===== src/Tests/Routes.antt =====
-- A server with all its routes, and a client that asks for resource packs
-- (internal/server/mcpe_router.go).
use open_ai_mc_be_server.Prelude.{ℕ, [], true, false, arith}
use open_ai_mc_be_server.Prelude.Int.{ℤ}
use open_ai_mc_be_server.Session.Table.{IsTable}
use open_ai_mc_be_server.Command.Registry.{new_registry}
use open_ai_mc_be_server.Server.Routes.{Hub, Site, packs_asked, handle_routed_packet}
use open_ai_mc_be_server.Server.Sound.{handle_routed_packet-IsTable}
use open_ai_mc_be_server.Tests.Bodies.{
  plain_protocol, keys, flag_numbers, input_numbers, whole, meeting,
}
use open_ai_mc_be_server.Tests.Clients.{busy, busy-IsTable, one_delivers}
use open_ai_mc_be_server.Tests.Chats.{
  same_text, same_texts, count_runs, all_allowed, refusal, everything,
}
use open_ai_mc_be_server.Tests.Packs.{two_packs, one_letter, requests}
use open_ai_mc_be_server.Tests.Sending.{source, varint}

-- The session's packets reach client 0 only, and all others arrive.
abbrev site : Site ℤ ℕ ℕ
site = record {
  session_delivers = one_delivers;
  body_delivers = λ ref u. true;
  bag_delivers = λ p. true;
  text_delivers = everything;
  pack_delivers = λ ref p. true;
  sub_chunk_delivers = λ ref entries. true;
  current_protocol = 800;
  float = whole;
  keys = keys;
  flag_numbers = flag_numbers;
  input_numbers = input_numbers;
  uuid_string = one_letter;
  varint32 = varint;
  source = source;
  is_cancelled = λ i. false;
  trim_bytes = same_text;
  to_lower = same_text;
  trim_space = same_text;
  sort_strings = same_texts;
  run = count_runs;
  registry = new_registry;
  allowed = all_allowed;
  texts = refusal;
  refusal = λ slash. [];
}

abbrev hub : Hub ℤ ℕ ℕ
hub = record {
  stage = record meeting { server = busy };
  host = 0;
  heard = [];
  queues = λ ref. two_packs;
  pack_packets = [];
  sub_chunks = [];
}

handle_routed_packet-IsTable_example :
    IsTable (handle_routed_packet site 1 (packs_asked requests) hub).1.stage.server
handle_routed_packet-IsTable_example =
    handle_routed_packet-IsTable site 1 (packs_asked requests) hub busy-IsTable (omega arith)
