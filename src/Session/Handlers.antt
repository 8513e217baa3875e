-- ===== src/Session/Handlers.antt =====
-- The packet handlers that move a client from the first packet to a spawned player
-- (internal/server/mcpe_login_flow.go, mcpe_resourcepacks.go, mcpe_world_sync.go). Packets that are
-- sent in one go with their errors passed on alike are one message.
use open_ai_mc_be_server.Prelude.{
  ◌%◌, ℕ, ◌+◌, Bool, true, false, ◌&&◌, ◌||◌, not, Option, none, some, ltb, ◌==◌, if◌then◌else◌,
}
use open_ai_mc_be_server.Session.State.{
  resource_pack_data, await_login, await_client_handshake, await_resource_pack_response,
  await_chunk_radius, await_initialised, spawned, LoginData, Message, login_failed_client,
  login_failed_server, network_settings, disconnect, server_handshake, login_success,
  resource_packs_info, resource_pack_stack, jigsaw_structure_data, voxel_shapes, start_game,
  item_registry, available_commands, chunk_radius_updated, biome_definition_list, creative_content,
  inventory_content, held_item, initial_chunks, player_spawn, player_joined, container_open,
  container_close, done, failed, Handler, ◌>>◌, return_err, ignore, assign, other_players,
  spawned_players_except,
}
use open_ai_mc_be_server.Session.Players.{
  write_packet, write_packet_to_clients, spawn_to_initialised_players, add_player_to,
  send_initial_player_sync, or_return,
}
use open_ai_mc_be_server.Session.Packets.{
  LoadingScreen, PackResponse, Packet, all_packs_downloaded, awaits_packs, before_initialised,
  client_cache_status, client_to_server_handshake, close_container, completed, identity_of,
  is_disconnected, login, open_inventory, refused, request_chunk_radius, request_network_settings,
  resource_pack_client_response, resource_packs_ready_for_validation, same_id, send_packs,
  server_bound_loading_screen, set_local_player_as_initialised, set_state, track_loading,
  unknown_response,
}

-- `current` is the server's protocol number.
module _ (delivers : ℕ → Message → Bool) (current : ℕ) where
  unfoldable pub handle_request_network_settings : ℕ → ℕ → Handler
  handle_request_network_settings ref protocol =
      if not (protocol == current)
      then ignore (
          write_packet delivers ref
            (if ltb current protocol then login_failed_server else login_failed_client))
        >> return_err
      else write_packet delivers ref network_settings
        >> assign ref (λ c. record c { compressed = true; state = await_login })

  -- After the packet was parsed. The handshake fails without a public key.
  abbrev pub accept_login : ℕ → LoginData → Handler
  accept_login ref data_of s =
      if s.online_mode && not data_of.xbox_live_authenticated
      then (ignore (write_packet delivers ref disconnect) >> return_err) s
      else (assign ref (λ c. record c { login = some data_of })
            >> (if data_of.has_public_key
                then write_packet delivers ref server_handshake
                  >> assign ref (λ c. record c { encrypted = true; state = await_client_handshake })
                else return_err))
          s

  abbrev pub parsed_login : ℕ → Option LoginData → Handler
  parsed_login ref none = return_err
  parsed_login ref (some data_of) = accept_login ref data_of

  unfoldable pub handle_login : ℕ → ℕ → Option LoginData → Handler
  handle_login ref protocol parsed =
      if not (protocol == current)
      then ignore (write_packet delivers ref login_failed_client) >> return_err
      else parsed_login ref parsed

  unfoldable pub handle_client_to_server_handshake : ℕ → Handler
  handle_client_to_server_handshake ref =
      set_state ref await_resource_pack_response
      >> write_packet delivers ref login_success
      >> write_packet delivers ref resource_packs_info

  -- `initPlayerState` fails if the identity is no UUID; the runtime id is taken all the same.
  abbrev pub init_player_state : ℕ → Option ℕ → Handler
  init_player_state ref none = return_err
  init_player_state ref (some id) = assign ref (λ c. record c { uuid = some id })

  -- `handler.nextID.Add(1)` on a uint64.
  abbrev pub take_runtime_id : ℕ → Handler
  take_runtime_id ref s =
      let id = (s.next_id + 1) % 18446744073709551616 in
      assign ref (λ c. record c { runtime_id = id }) (record s { next_id = id })

  unfoldable pub enter_game : ℕ → Handler
  enter_game ref s =
      (write_packet delivers ref jigsaw_structure_data
          >> write_packet delivers ref voxel_shapes
          >> write_packet delivers ref start_game
          >> write_packet delivers ref item_registry
          >> write_packet delivers ref available_commands
          >> send_initial_player_sync delivers ref (other_players s ref)
          >> set_state ref await_chunk_radius)
        (add_player_to delivers ref s)

  unfoldable pub start_game_for : ℕ → Handler
  start_game_for ref s =
      (take_runtime_id ref
          >> init_player_state ref (identity_of (s.clients ref).login)
          >> enter_game ref)
        s

  unfoldable pub send_resource_pack_stack : ℕ → Handler
  send_resource_pack_stack ref s =
      if (s.clients ref).stack_sent
      then (done, s)
      else (assign ref (λ c. record c { stack_sent = true })
            >> write_packet delivers ref resource_pack_stack)
          s

  unfoldable pub finish_resource_pack_flow : ℕ → Handler
  finish_resource_pack_flow ref s =
      if awaits_packs (s.clients ref).state
      then (or_return (s.has_packs && not (s.clients ref).stack_sent) (send_resource_pack_stack ref)
            >> start_game_for ref)
          s
      else (done, s)

  -- The downloads (`resourceDownloads`) are not part of this model: `found` says whether all packs
  -- that were asked for exist, and what is sent then is one message.
  unfoldable pub handle_resource_pack_client_response : ℕ → PackResponse → Handler
  handle_resource_pack_client_response ref (send_packs found none_asked) =
      if none_asked
      then send_resource_pack_stack ref
      else if found
      then write_packet delivers ref resource_pack_data
      else return_err
  handle_resource_pack_client_response ref all_packs_downloaded = send_resource_pack_stack ref
  handle_resource_pack_client_response ref completed = finish_resource_pack_flow ref
  handle_resource_pack_client_response ref refused = return_err
  handle_resource_pack_client_response ref unknown_response = return_err

  unfoldable pub handle_resource_packs_ready_for_validation : ℕ → Handler
  handle_resource_packs_ready_for_validation ref s =
      if (s.clients ref).stack_sent then finish_resource_pack_flow ref s else (done, s)

  -- A radius is an int32 that the handler wants to be positive.
  unfoldable pub handle_request_chunk_radius : ℕ → ℕ → Handler
  handle_request_chunk_radius ref radius s =
      if radius == 0
      then (failed, s)
      else (write_packet delivers ref chunk_radius_updated
            >> write_packet delivers ref biome_definition_list
            >> write_packet delivers ref creative_content
            >> write_packet delivers ref inventory_content
            >> write_packet delivers ref inventory_content
            >> write_packet delivers ref held_item
            >> or_return (not (s.clients ref).chunks_sent) (
                write_packet delivers ref initial_chunks
                >> assign ref (λ c. record c { chunks_sent = true }))
            >> write_packet delivers ref player_spawn
            >> set_state ref await_initialised)
          s

  unfoldable pub handle_set_local_player_as_initialised : ℕ → ℕ → Handler
  handle_set_local_player_as_initialised ref runtime_id s =
      if not (runtime_id == (s.clients ref).runtime_id)
      then (failed, s)
      else (set_state ref spawned
            >> spawn_to_initialised_players delivers ref
            >> ignore (λ s'.
              write_packet_to_clients delivers (spawned_players_except s' ref) player_joined s'))
          s

  unfoldable pub handle_server_bound_loading_screen : ℕ → LoadingScreen → Option ℕ → Handler
  handle_server_bound_loading_screen ref kind id s =
      if not (same_id id (s.clients ref).loading_screen_id)
      then (failed, s)
      else track_loading ref kind id s

  -- `handleOpenInventory`
  unfoldable pub handle_open_inventory : ℕ → Handler
  handle_open_inventory ref s =
      if before_initialised (s.clients ref).state || (s.clients ref).inventory_open
      then (done, s)
      else (assign ref (λ c. record c { inventory_open = true })
            >> write_packet delivers ref container_open)
          s

  -- `handleInteract` does nothing for a client that has not started the game.
  abbrev pub interact : ℕ → Handler
  interact ref s =
      if (s.clients ref).runtime_id == 0 then (done, s) else handle_open_inventory ref s

  -- Window 0 is answered, 255 is not.
  unfoldable pub handle_container_close : ℕ → ℕ → Handler
  handle_container_close ref window =
      if window == 0
      then assign ref (λ c. record c { inventory_open = false })
        >> write_packet delivers ref container_close
      else if window == 255
      then assign ref (λ c. record c { inventory_open = false })
      else return_err

  -- Their routes in `newMCPEClientRouter`.
  unfoldable pub dispatch : ℕ → Packet → Handler
  dispatch ref (request_network_settings protocol) = handle_request_network_settings ref protocol
  dispatch ref (login protocol parsed) = handle_login ref protocol parsed
  dispatch ref client_to_server_handshake = handle_client_to_server_handshake ref
  dispatch ref (resource_pack_client_response response) =
      handle_resource_pack_client_response ref response
  dispatch ref resource_packs_ready_for_validation = handle_resource_packs_ready_for_validation ref
  dispatch ref (client_cache_status enabled) =
      assign ref (λ c. record c { client_cache_enabled = enabled })
  dispatch ref (request_chunk_radius radius) = handle_request_chunk_radius ref radius
  dispatch ref (set_local_player_as_initialised id) = handle_set_local_player_as_initialised ref id
  dispatch ref (server_bound_loading_screen kind id) =
      handle_server_bound_loading_screen ref kind id
  dispatch ref open_inventory = interact ref
  dispatch ref (close_container window) = handle_container_close ref window

  -- `HandlePacket`, for these packets.
  unfoldable pub handle_packet : ℕ → Packet → Handler
  handle_packet ref pk s =
      if is_disconnected (s.clients ref).state then (done, s) else dispatch ref pk s
