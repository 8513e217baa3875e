-- ===== src/Session/Invariant.antt =====
-- The table of players stays sound under every packet of the session's handlers, valid or not.
use open_ai_mc_be_server.Session.Players.{add_player_to, write_packet, or_return}
use open_ai_mc_be_server.Prelude.{
  ==_iff, ◌&&◌, ℕ, ◌+◌, ◌%◌, ◌<◌, ◌≤◌, ◌≡◌, ◌≢◌, Bool, true, false, Option, none, some, refl, arith,
  inl, inr, Bool-cases, ◌==◌, not,
}
use open_ai_mc_be_server.Session.State.{
  resource_pack_data, await_chunk_radius, available_commands, item_registry, start_game,
  voxel_shapes, jigsaw_structure_data, Message, Server, ◌>>◌, assign, other_players,
}
use open_ai_mc_be_server.Session.Packets.{
  awaits_packs, request_network_settings, login, client_to_server_handshake,
  resource_pack_client_response, resource_packs_ready_for_validation, client_cache_status,
  request_chunk_radius, set_local_player_as_initialised, server_bound_loading_screen,
  open_inventory, close_container, send_packs, all_packs_downloaded, completed, refused,
  unknown_response, PackResponse, close_container, server_bound_loading_screen,
  set_local_player_as_initialised, request_chunk_radius, client_cache_status, send_packs,
  resource_pack_client_response, PackResponse, login, request_network_settings, identity_of, Packet,
}
use open_ai_mc_be_server.Session.Handlers.{
  handle_resource_pack_client_response, handle_resource_packs_ready_for_validation,
  init_player_state, take_runtime_id, start_game_for, enter_game, finish_resource_pack_flow,
  send_resource_pack_stack, dispatch,
}
use open_ai_mc_be_server.Session.Writes.{send_initial_player_sync-WritesOnly, Outcome-cases}
use open_ai_mc_be_server.Session.Table.{
  IsTable, WritesOnly-Keeps, Keeps->>, assign-Keeps, add_player_to-IsTable,
}
use open_ai_mc_be_server.Session.Keeps.{
  set_state-Keeps, write-Keeps, settings-Keeps, login-Keeps, handshake-Keeps, stack-Keeps,
  radius-Keeps, initialised-Keeps, screen-Keeps, interact-Keeps, close-Keeps,
}

module _ (delivers : ℕ → Message → Bool) (current : ℕ) where
  enter-IsTable :
      (ref : ℕ) (s : Server)
      → IsTable s
      → 0 < (s.clients ref).runtime_id
      → (s.clients ref).runtime_id ≤ s.next_id
      → (s.clients ref).uuid ≢ none
      → IsTable (enter_game delivers current ref s).1
  unfolding enter_game
  enter-IsTable ref s t p le u =
      (Keeps->> _ _
          (Keeps->> _ _
            (Keeps->> _ _
              (Keeps->> _ _
                (Keeps->> _ _
                  (Keeps->> _ _ (write-Keeps delivers current ref jigsaw_structure_data)
                    (write-Keeps delivers current ref voxel_shapes))
                  (write-Keeps delivers current ref start_game))
                (write-Keeps delivers current ref item_registry))
              (write-Keeps delivers current ref available_commands))
            (WritesOnly-Keeps _
              (send_initial_player_sync-WritesOnly delivers ref (other_players s ref))))
          (set_state-Keeps ref await_chunk_radius)).keep
        (add_player_to delivers ref s) (add_player_to-IsTable delivers ref s t p le u)

  -- Giving out the next runtime id.
  numbered-IsTable :
      (ref : ℕ) (s : Server)
      → IsTable s
      → s.next_id + 1 < 18446744073709551616
      → IsTable (take_runtime_id delivers current ref s).1
  numbered-IsTable ref s t small =
      (assign-Keeps ref _ (λ c u. u)).keep
        (record s { next_id = (s.next_id + 1) % 18446744073709551616 })
        (record {
          listed = λ id other e. let (a, b, u) = t.listed id other e in (a, omega arith, u);
        })

  begin-IsTable :
      (ref : ℕ) (identity : Option ℕ) (s : Server)
      → IsTable s
      → s.next_id + 1 < 18446744073709551616
      → IsTable
          ((take_runtime_id delivers current ref
              >> init_player_state delivers current ref identity
              >> enter_game delivers current ref)
            s).1
  unfolding assign
  begin-IsTable ref none s t small = numbered-IsTable ref s t small
  begin-IsTable ref (some id) s t small =
      let numbered = (take_runtime_id delivers current ref s).1 in
      let named = (init_player_state delivers current ref (some id) numbered).1 in
      let itself : (ref == ref) ≡ true = (==_iff ref ref).1 refl in
      enter-IsTable ref named
        ((assign-Keeps ref (λ c. record c { uuid = some id }) (λ c u. (λ e. cc))).keep numbered
          (numbered-IsTable ref s t small))
        (rw itself (omega arith)) (rw itself (omega arith)) (rw itself (λ e. cc))

  start-IsTable :
      (ref : ℕ) (s : Server)
      → IsTable s
      → s.next_id + 1 < 18446744073709551616
      → IsTable (start_game_for delivers current ref s).1
  unfolding start_game_for
  start-IsTable ref s = begin-IsTable ref (identity_of (s.clients ref).login) s

  stack-next_id :
      (ref : ℕ) (s : Server)
      → (send_resource_pack_stack delivers current ref s).1.next_id ≡ s.next_id
  unfolding send_resource_pack_stack write_packet assign
  stack-next_id ref s = ground arith

  after-IsTable :
      (ref : ℕ) (first : Bool) (s : Server)
      → IsTable s
      → s.next_id + 1 < 18446744073709551616
      → IsTable
          ((or_return first (send_resource_pack_stack delivers current ref)
              >> start_game_for delivers current ref)
            s).1
  after-IsTable ref false s t small = start-IsTable ref s t small
  after-IsTable ref true s t small =
      let sent = send_resource_pack_stack delivers current ref s in
      elim (Outcome-cases sent.0) [
        | inl e ↦ rw e (
            start-IsTable ref sent.1 ((stack-Keeps delivers current ref).keep s t)
              (rw (stack-next_id ref s) small))
        | inr e ↦ rw e ((stack-Keeps delivers current ref).keep s t)
      ]

  finish-IsTable :
      (ref : ℕ) (s : Server)
      → IsTable s
      → s.next_id + 1 < 18446744073709551616
      → IsTable (finish_resource_pack_flow delivers current ref s).1
  unfolding finish_resource_pack_flow
  finish-IsTable ref s t small = elim (Bool-cases (awaits_packs (s.clients ref).state)) [
    | inl e ↦ rw e (after-IsTable ref (s.has_packs && not (s.clients ref).stack_sent) s t small)
    | inr e ↦ rw e t
  ]

  respond-IsTable :
      (ref : ℕ) (response : PackResponse) (s : Server)
      → IsTable s
      → s.next_id + 1 < 18446744073709551616
      → IsTable (handle_resource_pack_client_response delivers current ref response s).1
  unfolding handle_resource_pack_client_response
  respond-IsTable ref (send_packs found true) s t small =
      (stack-Keeps delivers current ref).keep s t
  respond-IsTable ref (send_packs true false) s t small =
      (write-Keeps delivers current ref resource_pack_data).keep s t
  respond-IsTable ref (send_packs false false) s t small = t
  respond-IsTable ref all_packs_downloaded s t small = (stack-Keeps delivers current ref).keep s t
  respond-IsTable ref completed s t small = finish-IsTable ref s t small
  respond-IsTable ref refused s t small = t
  respond-IsTable ref unknown_response s t small = t

  ready-IsTable :
      (ref : ℕ) (s : Server)
      → IsTable s
      → s.next_id + 1 < 18446744073709551616
      → IsTable (handle_resource_packs_ready_for_validation delivers current ref s).1
  unfolding handle_resource_packs_ready_for_validation
  ready-IsTable ref s t small = elim (Bool-cases (s.clients ref).stack_sent) [
    | inl e ↦ rw e (finish-IsTable ref s t small)
    | inr e ↦ rw e t
  ]

  pub dispatch-IsTable :
      (ref : ℕ) (pk : Packet) (s : Server)
      → IsTable s
      → s.next_id + 1 < 18446744073709551616
      → IsTable (dispatch delivers current ref pk s).1
  unfolding dispatch
  dispatch-IsTable ref (request_network_settings protocol) s t small =
      (settings-Keeps delivers current ref protocol).keep s t
  dispatch-IsTable ref (login protocol parsed) s t small =
      (login-Keeps delivers current ref protocol parsed).keep s t
  dispatch-IsTable ref client_to_server_handshake s t small =
      (handshake-Keeps delivers current ref).keep s t
  dispatch-IsTable ref (resource_pack_client_response response) s t small =
      respond-IsTable ref response s t small
  dispatch-IsTable ref resource_packs_ready_for_validation s t small = ready-IsTable ref s t small
  dispatch-IsTable ref (client_cache_status enabled) s t small =
      (assign-Keeps ref _ (λ c u. u)).keep s t
  dispatch-IsTable ref (request_chunk_radius radius) s t small =
      (radius-Keeps delivers current ref radius).keep s t
  dispatch-IsTable ref (set_local_player_as_initialised id) s t small =
      (initialised-Keeps delivers current ref id).keep s t
  dispatch-IsTable ref (server_bound_loading_screen kind id) s t small =
      (screen-Keeps delivers current ref kind id).keep s t
  dispatch-IsTable ref open_inventory s t small = (interact-Keeps delivers current ref).keep s t
  dispatch-IsTable ref (close_container window) s t small =
      (close-Keeps delivers current ref window).keep s t
