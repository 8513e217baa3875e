-- ===== src/Server/Sound.antt =====
-- The table of players is sound after every packet (internal/server/mcpe_router.go, on all routes).
use open_ai_mc_be_server.Prelude.{
  ℕ, ◌+◌, ◌<◌, ◌≡◌, refl, sym, ap, ◌∙◌, subst, Bool, true, false, List, [], ◌∷◌, Option, none, some,
  inl, inr, Bool-cases, ◌==◌, if◌then◌else◌, not, ◌&&◌,
}
use open_ai_mc_be_server.Session.State.{
  Server, Outcome, done, failed, is_spawned, spawned_players_except,
}
use open_ai_mc_be_server.Session.Packets.{is_disconnected}
use open_ai_mc_be_server.Session.Table.{IsTable}
use open_ai_mc_be_server.Session.Keeps.{inventory-Keeps}
use open_ai_mc_be_server.Session.Invariant.{dispatch-IsTable}
use open_ai_mc_be_server.Movement.Body.{
  put_body, same_vec, Stage, Update, mode_normal, move_player_packet, set_actor_data_packet,
  set_actor_motion_packet,
}
use open_ai_mc_be_server.Movement.Metadata.{input_flag}
use open_ai_mc_be_server.Movement.Handlers.{
  StageHandler, ◌next◌, write_update, write_updates, when, broadcast_to_spawned_peers,
  PlayerAuthInput, MovePlayer, Interact, InteractAction, BodyPacket, auth_input, move, interaction,
  mouse_over_entity, open_inventory, leave_vehicle, other_action, move_by_input,
  handle_player_auth_input, handle_move_player, handle_mouse_over_entity, handle_leave_vehicle,
  interact_by, handle_interact, finite_pose, moved_by_input, announce_data, announce_move,
  announce_motion, same_pose, moved_to, placed_at, process_requests, player_exists, finite_if_given,
  route_body_packet,
}
use open_ai_mc_be_server.Inventory.Item.{Protocol}
use open_ai_mc_be_server.ResourcePack.Queue.{PackPacket}
use open_ai_mc_be_server.Publisher.Entries.{SubChunkEntry, Answer, answer, endless}
use open_ai_mc_be_server.Publisher.Entries
use open_ai_mc_be_server.Command.Runes.{Bytes}
use open_ai_mc_be_server.Command.Chat.{
  dispatched, is_panic, is_command, Room, TextPacket, write_text, write_command_output, handle_text,
  handle_command_request,
}
use open_ai_mc_be_server.Command.Heard.{handle_text-heard}
use open_ai_mc_be_server.Server.Routes.{
  Hub, Routed, Site, in_session, packs_asked, pack_chunk, sub_chunk, of_body, equipment,
  item_stacks, typed_text, typed_command, unhandled, route, handle_packs_asked, handle_pack_chunk,
  send_sub_chunks, write_pack_packets, write_if_some, write_sub_chunks, handle_routed_packet,
}

-- What a handler returns has this server.
record HasServer {X : Type 0} (server_of : X → Server) (s : Server) (r : Outcome × X) : Type 0 where
  pub same : server_of r.1 ≡ s

same-IsTable :
    {X : Type 0} {server_of : X → Server} {s : Server} {r : Outcome × X}
    → HasServer server_of s r
    → IsTable s
    → IsTable (server_of r.1)
same-IsTable h t = subst IsTable (sym h.same) t

if-HasServer :
    {X : Type 0} {server_of : X → Server} {s : Server} (b : Bool) {x y : Outcome × X}
    → HasServer server_of s x
    → HasServer server_of s y
    → HasServer server_of s (if b then x else y)
if-HasServer true h k = h
if-HasServer false h k = k

module _ {F D : Type 0} where
  abbrev OnStage : Server → Outcome × Stage F D → Type 0
  OnStage s r = HasServer (λ (t : Stage F D). t.server) s r

  -- A handler that leaves the table and the sessions alone.
  abbrev KeepsServer : StageHandler F D → Type 0
  KeepsServer m = (s : Stage F D) → OnStage s.server (m s)

  next-HasServer :
      {s : Server} (r : Outcome × Stage F D) {m : StageHandler F D}
      → KeepsServer m
      → OnStage s r
      → OnStage s (r next m)
  next-HasServer (done, t) k h = record { same = (k t).same ∙ h.same }
  next-HasServer (failed, t) k h = record { same = h.same }

  module _ (delivers : ℕ → Update F → Bool) where
    write-KeepsServer : (ref : ℕ) (u : Update F) → KeepsServer (write_update delivers ref u)
    unfolding write_update
    write-KeepsServer ref u s =
        if-HasServer (delivers ref u) (record { same = refl }) (record { same = refl })

    writes-KeepsServer :
        (refs : List ℕ) (u : Update F) → KeepsServer (write_updates delivers refs u)
    unfolding write_updates
    writes-KeepsServer [] u s = record { same = refl }
    writes-KeepsServer (ref ∷ refs) u s =
        next-HasServer (write_update delivers ref u s) (writes-KeepsServer refs u)
          (write-KeepsServer ref u s)

    broadcast-KeepsServer :
        (ref : ℕ) (packet : Stage F D → Update F)
        → KeepsServer (λ s. broadcast_to_spawned_peers delivers ref (packet s) s)
    unfolding broadcast_to_spawned_peers
    broadcast-KeepsServer ref packet s =
        writes-KeepsServer (spawned_players_except s.server ref) (packet s) s

    when-KeepsServer :
        (b : Bool) (m : StageHandler F D) → KeepsServer m → KeepsServer (when delivers b m)
    when-KeepsServer true m h s = h s
    when-KeepsServer false m h s = record { same = refl }

module _ {F D H : Type 0} ⦃q : Protocol D⦄ (site : Site F D H) where
  move_by_input-KeepsServer :
      (ref : ℕ) (pk : PlayerAuthInput F)
      → KeepsServer (
          move_by_input site.body_delivers site.float site.bag_delivers site.keys site.flag_numbers
            site.input_numbers ref pk)
  unfolding move_by_input
  move_by_input-KeepsServer ref pk s =
      let d = site.body_delivers in
      let (new, changed) =
        moved_by_input d site.float site.bag_delivers site.keys site.flag_numbers site.input_numbers
          pk (s.bodies ref) in
      let old = s.bodies ref in
      let first = when d changed (announce_data d ref pk.tick) (put_body ref new s) in
      let turned = not (same_pose d site.float site.bag_delivers old new) in
      let second = when d turned (announce_move d ref mode_normal pk.tick) in
      next-HasServer (first next second)
        (when-KeepsServer d (not (same_vec site.float old.velocity new.velocity))
          (announce_motion d ref pk.tick)
          (broadcast-KeepsServer d ref (λ t. set_actor_motion_packet t ref pk.tick)))
        (next-HasServer first
          (when-KeepsServer d turned (announce_move d ref mode_normal pk.tick)
            (broadcast-KeepsServer d ref (λ t. move_player_packet t ref mode_normal pk.tick)))
          (when-KeepsServer d changed (announce_data d ref pk.tick)
            (broadcast-KeepsServer d ref (λ t. set_actor_data_packet t ref pk.tick))
            (put_body ref new s)))

  auth-KeepsServer :
      (ref : ℕ) (pk : PlayerAuthInput F)
      → KeepsServer (
          handle_player_auth_input site.body_delivers site.float site.bag_delivers site.keys
            site.flag_numbers site.input_numbers ref pk)
  unfolding handle_player_auth_input
  auth-KeepsServer ref pk s =
      let pose =
        finite_pose site.body_delivers site.float site.bag_delivers pk.position pk.pitch pk.yaw
          pk.head_yaw in
      let asks = input_flag pk.input_data (site.input_numbers).perform_item_stack_request in
      let requests = process_requests site.body_delivers site.float site.bag_delivers in
      if-HasServer ((s.server.clients ref).runtime_id == 0) (record { same = refl })
        (if-HasServer (not pose) (record { same = refl })
          (if-HasServer (not (is_spawned (s.server.clients ref).state))
            (write-KeepsServer site.body_delivers ref _ s)
            (next-HasServer (when site.body_delivers asks (requests ref pk.item_stack_request) s)
              (move_by_input-KeepsServer ref pk)
              (when-KeepsServer site.body_delivers asks (requests ref pk.item_stack_request)
                (λ t. record { same = refl }) s))))

  move-KeepsServer :
      (ref : ℕ) (pk : MovePlayer F)
      → KeepsServer (handle_move_player site.body_delivers site.float site.bag_delivers ref pk)
  unfolding handle_move_player
  move-KeepsServer ref pk s =
      let own = (s.server.clients ref).runtime_id in
      let pose =
        finite_pose site.body_delivers site.float site.bag_delivers pk.position pk.pitch pk.yaw
          pk.head_yaw in
      if-HasServer (own == 0) (record { same = refl })
        (if-HasServer (not (pk.entity_runtime_id == 0) && not (pk.entity_runtime_id == own))
          (record { same = refl })
          (if-HasServer (not pose) (record { same = refl })
            (if-HasServer (not (is_spawned (s.server.clients ref).state))
              (write-KeepsServer site.body_delivers ref _ s)
              (broadcast-KeepsServer site.body_delivers ref
                (λ t. move_player_packet t ref pk.mode pk.tick)
                (put_body ref
                  (moved_to site.body_delivers site.float site.bag_delivers pk (s.bodies ref))
                  s)))))

  mouse-KeepsServer :
      (ref : ℕ) (pk : Interact F)
      → KeepsServer
          (handle_mouse_over_entity site.body_delivers site.float site.bag_delivers ref pk)
  unfolding handle_mouse_over_entity
  mouse-KeepsServer ref pk s =
      if-HasServer
        (not (pk.target == 0)
          && not (player_exists site.body_delivers site.float site.bag_delivers pk.target s.server))
        (record { same = refl })
        (if-HasServer
          (not (finite_if_given site.body_delivers site.float site.bag_delivers pk.position))
          (record { same = refl }) (record { same = refl }))

  leave-KeepsServer :
      (ref : ℕ) (pk : Interact F)
      → KeepsServer (handle_leave_vehicle site.body_delivers site.float site.bag_delivers ref pk)
  unfolding handle_leave_vehicle
  leave-KeepsServer ref pk s =
      if-HasServer
        (not (finite_if_given site.body_delivers site.float site.bag_delivers pk.position))
        (record { same = refl })
        (broadcast-KeepsServer site.body_delivers ref (λ t. move_player_packet t ref mode_normal 0)
          (put_body ref
            (placed_at site.body_delivers site.float site.bag_delivers pk.position (s.bodies ref))
            s))

  -- Only the opening of the inventory changes a session.
  interact-IsTable :
      (ref : ℕ) (pk : Interact F) (action : InteractAction) (s : Stage F D)
      → IsTable s.server
      → IsTable
          (interact_by site.body_delivers site.float site.bag_delivers site.session_delivers
            site.current_protocol action ref pk s).1.server
  interact-IsTable ref pk mouse_over_entity s t = same-IsTable (mouse-KeepsServer ref pk s) t
  interact-IsTable ref pk open_inventory s t =
      (inventory-Keeps site.session_delivers site.current_protocol ref).keep s.server t
  interact-IsTable ref pk leave_vehicle s t = same-IsTable (leave-KeepsServer ref pk s) t
  interact-IsTable ref pk other_action s t = t

  body-IsTable :
      (ref : ℕ) (pk : BodyPacket F) (s : Stage F D)
      → IsTable s.server
      → IsTable
          (route_body_packet site.body_delivers site.float site.bag_delivers site.session_delivers
            site.current_protocol site.keys site.flag_numbers site.input_numbers ref pk s).1.server
  unfolding handle_interact
  body-IsTable ref (auth_input pk) s t = same-IsTable (auth-KeepsServer ref pk s) t
  body-IsTable ref (move pk) s t = same-IsTable (move-KeepsServer ref pk s) t
  body-IsTable ref (interaction pk) s t =
      elim (Bool-cases ((s.server.clients ref).runtime_id == 0)) [
        | inl e ↦ rw e t
        | inr e ↦ rw e (interact-IsTable ref pk pk.action s t)
      ]

  abbrev OnRoom : Server → Outcome × Room H → Type 0
  OnRoom s r = HasServer (λ (t : Room H). t.server) s r

  text-OnRoom :
      (ref : ℕ) (is_chat : Bool) (given : Bytes) (s : Room H)
      → OnRoom s.server (
          handle_text site.text_delivers site.trim_bytes site.to_lower site.trim_space
            site.sort_strings site.run site.registry site.allowed site.texts ref is_chat given s)
  text-OnRoom ref is_chat given s =
      let of = λ (r : Outcome × Room H). r.1.server in
      elim (handle_text-heard site.text_delivers site.trim_bytes site.to_lower site.trim_space
        site.sort_strings site.run site.registry site.allowed site.texts ref is_chat given s) [
          | inl (inl (quiet, e)) ↦ record { same = ap of e }
          | inl (inr (c, p, e)) ↦ record { same = ap of e }
          | inr (p, c, b, inl (d, n, e)) ↦ record { same = ap of e }
          | inr (p, c, b, inr (d, n, e)) ↦ record { same = ap of e }
        ]

  write_text-OnRoom :
      (ref : ℕ) (pk : TextPacket) (s : Room H)
      → OnRoom s.server (write_text site.text_delivers ref pk s)
  unfolding write_text
  write_text-OnRoom ref pk s =
      if-HasServer (site.text_delivers ref pk) (record { same = refl }) (record { same = refl })

  command-OnRoom :
      (ref : ℕ) (from_player : Bool) (line : Bytes) (s : Room H)
      → OnRoom s.server (
          handle_command_request site.text_delivers site.trim_bytes site.to_lower site.trim_space
            site.sort_strings site.run site.registry site.allowed site.texts site.refusal ref
            from_player line s)
  unfolding handle_command_request write_command_output
  command-OnRoom ref from_player line s =
      let (reply, host) =
        dispatched site.text_delivers site.trim_bytes site.to_lower site.trim_space
          site.sort_strings site.run site.registry site.allowed site.texts ref line s.host in
      if-HasServer (not (is_spawned (s.server.clients ref).state)) (record { same = refl })
        (if-HasServer (not from_player) (write_text-OnRoom ref _ s) (
          if-HasServer (not (is_command (site.trim_bytes line))) (write_text-OnRoom ref _ s) (
            if-HasServer (is_panic reply) (record { same = refl })
              (write_text-OnRoom ref _ (record s { host = host })))))

  write_pack_packets-stage :
      (ref : ℕ) (packets : List PackPacket) (h : Hub F D H)
      → (write_pack_packets site ref packets h).1.stage ≡ h.stage
  unfolding write_pack_packets
  write_pack_packets-stage ref [] h = refl
  write_pack_packets-stage ref (p ∷ packets) h = elim (Bool-cases (site.pack_delivers ref p)) [
    | inl e ↦ rw e (write_pack_packets-stage ref packets _)
    | inr e ↦ rw e refl
  ]

  write_if_some-stage :
      (ref : ℕ) (packets : Option (List PackPacket)) (h : Hub F D H)
      → (write_if_some site ref packets h).1.stage ≡ h.stage
  write_if_some-stage ref none h = refl
  write_if_some-stage ref (some packets) h = write_pack_packets-stage ref packets h

  write_sub_chunks-stage :
      (ref : ℕ) (found : Answer (List SubChunkEntry)) (h : Hub F D H)
      → (write_sub_chunks site ref found h).1.stage ≡ h.stage
  write_sub_chunks-stage ref Entries.failed h = refl
  write_sub_chunks-stage ref endless h = refl
  write_sub_chunks-stage ref (answer entries) h =
      elim (Bool-cases (site.sub_chunk_delivers ref entries)) [
        | inl e ↦ rw e refl
        | inr e ↦ rw e refl
      ]

  route-IsTable :
      (ref : ℕ) (pk : Routed F D) (h : Hub F D H)
      → IsTable h.stage.server
      → h.stage.server.next_id + 1 < 18446744073709551616
      → IsTable (route site ref pk h).1.stage.server
  unfolding route handle_packs_asked handle_pack_chunk send_sub_chunks
  route-IsTable ref (in_session pk) h t small =
      dispatch-IsTable site.session_delivers site.current_protocol ref pk h.stage.server t small
  route-IsTable ref (packs_asked []) h t small =
      dispatch-IsTable site.session_delivers site.current_protocol ref _ h.stage.server t small
  route-IsTable ref (packs_asked (r ∷ requests)) h t small =
      dispatch-IsTable site.session_delivers site.current_protocol ref _ h.stage.server t small
  route-IsTable ref (pack_chunk uuid index) h t small =
      subst (λ (s : Stage F D). IsTable s.server) (sym (write_if_some-stage ref _ _)) t
  route-IsTable ref (sub_chunk request) h t small =
      subst (λ (s : Stage F D). IsTable s.server) (sym (write_sub_chunks-stage ref _ h)) t
  route-IsTable ref (of_body pk) h t small = body-IsTable ref pk h.stage t
  route-IsTable ref (equipment pk) h t small = t
  route-IsTable ref (item_stacks requests) h t small = t
  route-IsTable ref (typed_text is_chat given) h t small =
      same-IsTable (text-OnRoom ref is_chat given _) t
  route-IsTable ref (typed_command from_player line) h t small =
      same-IsTable (command-OnRoom ref from_player line _) t
  route-IsTable ref unhandled h t small = t

  -- A packet of any of the 19 routes, or of none, that a client sends in any state keeps the
  -- table of players sound, whether its handler succeeds or fails and whichever writes fail,
  -- if the next runtime id fits 64 bits. Sound is: each player in the table is listed under a
  -- positive id that was handed out, and its UUID is known.
  pub handle_routed_packet-IsTable :
      (ref : ℕ) (pk : Routed F D) (h : Hub F D H)
      → IsTable h.stage.server
      → h.stage.server.next_id + 1 < 18446744073709551616
      → IsTable (handle_routed_packet site ref pk h).1.stage.server
  unfolding handle_routed_packet
  handle_routed_packet-IsTable ref pk h t small =
      elim (Bool-cases (is_disconnected (h.stage.server.clients ref).state)) [
        | inl e ↦ rw e t
        | inr e ↦ rw e (route-IsTable ref pk h t small)
      ]
