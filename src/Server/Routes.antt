-- ===== src/Server/Routes.antt =====
-- All routes of a client's packets (internal/server/mcpe_router.go, and `HandlePacket` of
-- internal/server/mcpe_session.go): each takes its packet to the model of its handler. What a login
-- makes of a client's body and inventory is left out: they are there from the start.
use open_ai_mc_be_server.Prelude.{
  ℕ, Bool, true, false, List, [], ◌∷◌, ◌++◌, Option, none, some, if◌then◌else◌,
}
use open_ai_mc_be_server.Prelude.Int.{ℤ}
use open_ai_mc_be_server.Session.State.{Outcome, done, failed, Message, Handler}
use open_ai_mc_be_server.Session.Packets.{
  Packet, resource_pack_client_response, send_packs, is_disconnected,
}
use open_ai_mc_be_server.Session.Handlers.{dispatch}
use open_ai_mc_be_server.Movement.Metadata.{Keys, FlagNumbers, InputNumbers}
use open_ai_mc_be_server.Movement.Body.{Float32, Stage, Update, replace}
use open_ai_mc_be_server.Movement.Handlers.{
  BodyPacket, StageHandler, from_bag, is_some, route_body_packet,
}
use open_ai_mc_be_server.Inventory.Item.{Protocol}
use open_ai_mc_be_server.Inventory.Client
use open_ai_mc_be_server.Inventory.Client.{
  Sent, EquipmentRequest, handle_mob_equipment, handle_item_stack_request,
}
use open_ai_mc_be_server.Inventory.Requests.{ItemStackRequest}
use open_ai_mc_be_server.ResourcePack.Queue.{Queue, PackPacket, begin, handle_chunk_request}
use open_ai_mc_be_server.Publisher.Entries.{
  ChunkProvider, SubChunkRequest, SubChunkEntry, Answer, answer, endless, sub_chunk_packet,
}
use open_ai_mc_be_server.Publisher.Entries
use open_ai_mc_be_server.Network.Codec.{Bytes}
use open_ai_mc_be_server.Command.Args.{Text}
use open_ai_mc_be_server.Command.Registry.{Registry}
use open_ai_mc_be_server.Command.Dispatch.{Invocation, Result, Reply}
use open_ai_mc_be_server.Command.Chat.{TextPacket, RoomHandler, handle_text, handle_command_request}

-- The server with all that its clients' packets reach. `host` is what commands change; the lists are
-- what went out and to whom, in order. `queues` are the clients' downloads of resource packs.
pub record Hub (F D H : Type 0) : Type 0 where
  pub stage : Stage F D
  pub host : H
  pub heard : List (ℕ × TextPacket)
  pub queues : ℕ → Queue
  pub pack_packets : List (ℕ × PackPacket)
  pub sub_chunks : List (ℕ × List SubChunkEntry)

-- A packet of one of the 19 routes, or of none. `in_session` has those of Session.Packets, `packs_asked`
-- a resource pack response that names packs, and `of_body` PlayerAuthInput, MovePlayer and Interact.
pub data Routed (F D : Type 0) : Type 0 where
  in_session : Packet → Routed F D
  packs_asked : List Text → Routed F D
  pack_chunk : (uuid : Text) → (index : ℕ) → Routed F D
  sub_chunk : SubChunkRequest → Routed F D
  of_body : BodyPacket F → Routed F D
  equipment : EquipmentRequest D → Routed F D
  item_stacks : List ItemStackRequest → Routed F D
  typed_text : (is_chat : Bool) → Bytes → Routed F D
  typed_command : (from_player : Bool) → Bytes → Routed F D
  unhandled : Routed F D

abbrev pub HubHandler : Type 0 → Type 0 → Type 0 → Type 0
HubHandler F D H = Hub F D H → Outcome × Hub F D H

-- What the handlers stand on: which writes succeed, and the parameters of their models.
pub record Site (F D H : Type 0) : Type 0 where
  pub session_delivers : ℕ → Message → Bool
  pub body_delivers : ℕ → Update F → Bool
  pub bag_delivers : Sent D → Bool
  pub text_delivers : ℕ → TextPacket → Bool
  pub pack_delivers : ℕ → PackPacket → Bool
  pub sub_chunk_delivers : ℕ → List SubChunkEntry → Bool
  pub current_protocol : ℕ
  pub float : Float32 F
  pub keys : Keys
  pub flag_numbers : FlagNumbers
  pub input_numbers : InputNumbers
  pub uuid_string : ℕ → Text
  pub varint32 : ℤ → Bytes
  pub source : ChunkProvider
  pub is_cancelled : ℕ → Bool
  pub trim_bytes : Bytes → Bytes
  pub to_lower : Text → Text
  pub trim_space : Text → Text
  pub sort_strings : List Text → List Text
  pub run : ℕ → Invocation → H → Result × H
  pub registry : Registry
  pub allowed : ℕ → Text → Bool
  pub texts : Reply → List Text
  pub refusal : Bool → Text

module _ {F D H : Type 0} where
  abbrev pub on_stage : StageHandler F D → HubHandler F D H
  on_stage m h = let (r, stage) = m h.stage in (r, record h { stage = stage })

  abbrev pub on_server : Handler → HubHandler F D H
  on_server m = on_stage (λ s. let (r, server) = m s.server in (r, record s { server = server }))

  abbrev pub on_bag : ℕ → Client.Handler D → HubHandler F D H
  on_bag ref m = on_stage (λ s.
      let (r, bag) = m (s.bags ref) in (from_bag r, record s { bags = replace ref bag s.bags }))

  abbrev pub on_room : RoomHandler H → HubHandler F D H
  on_room m h =
      let (r, room) = m (record { server = h.stage.server; host = h.host; sent = h.heard }) in
      (
        r,
        record h {
          stage = record (h.stage) { server = room.server };
          host = room.host;
          heard = room.sent;
        },
      )

  module _ ⦃q : Protocol D⦄ (site : Site F D H) where
    abbrev pub no_packs : List Text → Bool
    no_packs [] = true
    no_packs (r ∷ requests) = false

    -- `handleResourcePackClientResponse` to `PackResponseSendPacks`: the queue of the client begins.
    unfoldable pub handle_packs_asked : ℕ → List Text → HubHandler F D H
    handle_packs_asked ref requests h =
        let (packets, queue) = begin site.uuid_string requests (h.queues ref) in
        let response =
          resource_pack_client_response (send_packs (is_some packets) (no_packs requests)) in
        on_server (dispatch site.session_delivers site.current_protocol ref response)
          (if no_packs requests then h else record h { queues = replace ref queue h.queues })

    -- `writeClientPackets`
    unfoldable pub write_pack_packets : ℕ → List PackPacket → HubHandler F D H
    write_pack_packets ref [] h = (done, h)
    write_pack_packets ref (p ∷ packets) h =
        let rest =
          write_pack_packets ref packets
            (record h { pack_packets = h.pack_packets ++ (ref, p) ∷ [] }) in
        if site.pack_delivers ref p then rest else (failed, h)

    abbrev pub write_if_some : ℕ → Option (List PackPacket) → HubHandler F D H
    write_if_some ref none h = (failed, h)
    write_if_some ref (some packets) h = write_pack_packets ref packets h

    unfoldable pub handle_pack_chunk : ℕ → Text → ℕ → HubHandler F D H
    handle_pack_chunk ref uuid index h =
        let (packets, queue) = handle_chunk_request site.uuid_string uuid index (h.queues ref) in
        write_if_some ref packets (record h { queues = replace ref queue h.queues })

    -- A loop over layers that does not end never returns. It stands as a failure here.
    abbrev pub write_sub_chunks : ℕ → Answer (List SubChunkEntry) → HubHandler F D H
    write_sub_chunks ref Entries.failed h = (failed, h)
    write_sub_chunks ref endless h = (failed, h)
    write_sub_chunks ref (answer entries) h =
        if site.sub_chunk_delivers ref entries
        then (done, record h { sub_chunks = h.sub_chunks ++ (ref, entries) ∷ [] })
        else (failed, h)

    unfoldable pub send_sub_chunks : ℕ → SubChunkRequest → HubHandler F D H
    send_sub_chunks ref request =
        write_sub_chunks ref (sub_chunk_packet site.varint32 site.source site.is_cancelled request)

    unfoldable pub route : ℕ → Routed F D → HubHandler F D H
    route ref (in_session pk) =
        on_server (dispatch site.session_delivers site.current_protocol ref pk)
    route ref (packs_asked requests) = handle_packs_asked ref requests
    route ref (pack_chunk uuid index) = handle_pack_chunk ref uuid index
    route ref (sub_chunk request) = send_sub_chunks ref request
    route ref (of_body pk) = on_stage (
        route_body_packet site.body_delivers site.float site.bag_delivers site.session_delivers
          site.current_protocol site.keys site.flag_numbers site.input_numbers ref pk)
    route ref (equipment pk) = on_bag ref (handle_mob_equipment site.bag_delivers pk)
    route ref (item_stacks requests) =
        on_bag ref (handle_item_stack_request site.bag_delivers requests)
    route ref (typed_text is_chat given) = on_room (
        handle_text site.text_delivers site.trim_bytes site.to_lower site.trim_space
          site.sort_strings site.run site.registry site.allowed site.texts ref is_chat given)
    route ref (typed_command from_player line) = on_room (
        handle_command_request site.text_delivers site.trim_bytes site.to_lower site.trim_space
          site.sort_strings site.run site.registry site.allowed site.texts site.refusal ref
          from_player line)
    route ref unhandled = λ h. (done, h)

    -- `HandlePacket`
    unfoldable pub handle_routed_packet : ℕ → Routed F D → HubHandler F D H
    handle_routed_packet ref pk h =
        if is_disconnected (h.stage.server.clients ref).state then (done, h) else route ref pk h
