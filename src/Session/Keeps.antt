-- ===== src/Session/Keeps.antt =====
-- The handlers of the session that give out no runtime id keep the table of players sound.
use open_ai_mc_be_server.Session.Players.{write_packet, or_return, write_packet_to_clients}
use open_ai_mc_be_server.Prelude.{
  ◌||◌, ◌&&◌, ℕ, Bool, true, false, List, Option, none, some, ◌==◌, not, if◌then◌else◌,
}
use open_ai_mc_be_server.Session.State.{
  await_initialised, player_spawn, initial_chunks, held_item, container_open, inventory_content,
  resource_packs_info, creative_content, player_joined, server_handshake, disconnect,
  biome_definition_list, login_success, container_close, network_settings, resource_pack_stack,
  spawned, await_resource_pack_response, chunk_radius_updated, SessionState, LoginData, Message,
  Server, Handler, ignore, return_ok, return_err, spawned_players_except,
}
use open_ai_mc_be_server.Session.Packets.{
  loading_start, loading_end, loading_unknown, loading_other, before_initialised, track_loading,
  same_id, set_state, LoadingScreen,
}
use open_ai_mc_be_server.Session.Handlers.{
  interact, handle_container_close, handle_server_bound_loading_screen,
  handle_set_local_player_as_initialised, handle_request_chunk_radius,
  handle_request_network_settings, send_resource_pack_stack, accept_login, handle_login,
  handle_client_to_server_handshake, handle_open_inventory,
}
use open_ai_mc_be_server.Session.Writes.{
  spawn_to_initialised_players-WritesOnly, write_packet_to_clients-WritesOnly,
  write_packet-WritesOnly,
}
use open_ai_mc_be_server.Session.Table.{IsTable, Keeps, WritesOnly-Keeps, Keeps->>, assign-Keeps}

pub Keeps-if : (b : Bool) (m k : Handler) → Keeps m → Keeps k → Keeps (if b then m else k)
Keeps-if true m k hm hk = hm
Keeps-if false m k hm hk = hk

-- A choice that the state makes.
pub Keeps-if-at :
    (b : Bool) (m k : Handler) (s : Server)
    → Keeps m
    → Keeps k
    → IsTable s
    → IsTable (if b then m s else k s).1
Keeps-if-at true m k s hm hk t = hm.keep s t
Keeps-if-at false m k s hm hk t = hk.keep s t

pub ok-Keeps : Keeps return_ok
ok-Keeps = record { keep = λ s t. t }

pub err-Keeps : Keeps return_err
err-Keeps = record { keep = λ s t. t }

pub ignore-Keeps : (m : Handler) → Keeps m → Keeps (ignore m)
ignore-Keeps m h = record { keep = h.keep }

pub or_return-Keeps : (b : Bool) (m : Handler) → Keeps m → Keeps (or_return b m)
or_return-Keeps true m h = h
or_return-Keeps false m h = ok-Keeps

pub set_state-Keeps : (ref : ℕ) (state : SessionState) → Keeps (set_state ref state)
set_state-Keeps ref state = assign-Keeps ref _ (λ c u. u)

pub track_loading-Keeps :
    (ref : ℕ) (kind : LoadingScreen) (id : Option ℕ) → Keeps (track_loading ref kind id)
track_loading-Keeps ref loading_start none = assign-Keeps ref _ (λ c u. u)
track_loading-Keeps ref loading_start (some i) = assign-Keeps ref _ (λ c u. u)
track_loading-Keeps ref loading_end id = assign-Keeps ref _ (λ c u. u)
track_loading-Keeps ref loading_unknown id = ok-Keeps
track_loading-Keeps ref loading_other id = err-Keeps

module _ (delivers : ℕ → Message → Bool) (current : ℕ) where
  pub write-Keeps : (ref : ℕ) (m : Message) → Keeps (write_packet delivers ref m)
  write-Keeps ref m = WritesOnly-Keeps _ (write_packet-WritesOnly delivers ref m)

  pub settings-Keeps :
      (ref protocol : ℕ) → Keeps (handle_request_network_settings delivers current ref protocol)
  unfolding handle_request_network_settings
  settings-Keeps ref protocol =
      Keeps-if _ _ _ (Keeps->> _ return_err (ignore-Keeps _ (write-Keeps ref _)) err-Keeps)
        (Keeps->> _ _ (write-Keeps ref network_settings) (assign-Keeps ref _ (λ c u. u)))

  pub packets-Keeps :
      (refs : List ℕ) (m : Message) → Keeps (write_packet_to_clients delivers refs m)
  packets-Keeps refs m = WritesOnly-Keeps _ (write_packet_to_clients-WritesOnly delivers refs m)

  pub accept-Keeps :
      (ref : ℕ) (data_of : LoginData) → Keeps (accept_login delivers current ref data_of)
  accept-Keeps ref data_of = record {
    keep = λ s.
        Keeps-if-at (s.online_mode && not data_of.xbox_live_authenticated) _ _ s
          (Keeps->> _ return_err (ignore-Keeps _ (write-Keeps ref disconnect)) err-Keeps)
          (Keeps->> _ _ (assign-Keeps ref _ (λ c u. u)) (
            Keeps-if data_of.has_public_key _ _
              (Keeps->> _ _ (write-Keeps ref server_handshake) (assign-Keeps ref _ (λ c u. u)))
              err-Keeps));
  }

  pub login-Keeps :
      (ref protocol : ℕ) (parsed : Option LoginData)
      → Keeps (handle_login delivers current ref protocol parsed)
  unfolding handle_login
  login-Keeps ref protocol none =
      Keeps-if _ _ _ (Keeps->> _ return_err (ignore-Keeps _ (write-Keeps ref _)) err-Keeps)
        err-Keeps
  login-Keeps ref protocol (some data_of) =
      Keeps-if _ _ _ (Keeps->> _ return_err (ignore-Keeps _ (write-Keeps ref _)) err-Keeps)
        (accept-Keeps ref data_of)

  pub handshake-Keeps : (ref : ℕ) → Keeps (handle_client_to_server_handshake delivers current ref)
  unfolding handle_client_to_server_handshake
  handshake-Keeps ref =
      Keeps->> _ _
        (Keeps->> _ _ (set_state-Keeps ref await_resource_pack_response)
          (write-Keeps ref login_success))
        (write-Keeps ref resource_packs_info)

  pub stack-Keeps : (ref : ℕ) → Keeps (send_resource_pack_stack delivers current ref)
  unfolding send_resource_pack_stack
  stack-Keeps ref = record {
    keep = λ s.
        Keeps-if-at (s.clients ref).stack_sent return_ok _ s ok-Keeps
          (Keeps->> _ _ (assign-Keeps ref _ (λ c u. u)) (write-Keeps ref resource_pack_stack));
  }

  pub radius-Keeps :
      (ref radius : ℕ) → Keeps (handle_request_chunk_radius delivers current ref radius)
  unfolding handle_request_chunk_radius
  radius-Keeps ref radius = record {
    keep = λ s.
        let chunks =
          or_return-Keeps (not (s.clients ref).chunks_sent) _
            (Keeps->> _ _ (write-Keeps ref initial_chunks) (assign-Keeps ref _ (λ c u. u))) in
        Keeps-if-at (radius == 0) return_err _ s err-Keeps (
          Keeps->> _ _
            (Keeps->> _ _
              (Keeps->> _ _
                (Keeps->> _ _
                  (Keeps->> _ _
                    (Keeps->> _ _
                      (Keeps->> _ _
                        (Keeps->> _ _ (write-Keeps ref chunk_radius_updated)
                          (write-Keeps ref biome_definition_list))
                        (write-Keeps ref creative_content))
                      (write-Keeps ref inventory_content))
                    (write-Keeps ref inventory_content))
                  (write-Keeps ref held_item))
                chunks)
              (write-Keeps ref player_spawn))
            (set_state-Keeps ref await_initialised));
  }

  pub initialised-Keeps :
      (ref id : ℕ) → Keeps (handle_set_local_player_as_initialised delivers current ref id)
  unfolding handle_set_local_player_as_initialised
  initialised-Keeps ref id = record {
    keep = λ s. Keeps-if-at (not (id == (s.clients ref).runtime_id)) return_err _ s err-Keeps (
        Keeps->> _ _
          (Keeps->> _ _ (set_state-Keeps ref spawned)
            (WritesOnly-Keeps _ (spawn_to_initialised_players-WritesOnly delivers ref)))
          (record {
            keep = λ s'. (packets-Keeps (spawned_players_except s' ref) player_joined).keep s';
          }));
  }

  pub screen-Keeps :
      (ref : ℕ) (kind : LoadingScreen) (id : Option ℕ)
      → Keeps (handle_server_bound_loading_screen delivers current ref kind id)
  unfolding handle_server_bound_loading_screen
  screen-Keeps ref kind id = record {
    keep = λ s.
        Keeps-if-at (not (same_id id (s.clients ref).loading_screen_id)) return_err _ s err-Keeps
          (track_loading-Keeps ref kind id);
  }

  pub inventory-Keeps : (ref : ℕ) → Keeps (handle_open_inventory delivers current ref)
  unfolding handle_open_inventory
  inventory-Keeps ref = record {
    keep = λ s.
        Keeps-if-at (before_initialised (s.clients ref).state || (s.clients ref).inventory_open)
          return_ok _ s ok-Keeps
          (Keeps->> _ _ (assign-Keeps ref _ (λ c u. u)) (write-Keeps ref container_open));
  }

  pub interact-Keeps : (ref : ℕ) → Keeps (interact delivers current ref)
  interact-Keeps ref = record {
    keep = λ s.
        Keeps-if-at ((s.clients ref).runtime_id == 0) return_ok _ s ok-Keeps (inventory-Keeps ref);
  }

  pub close-Keeps : (ref window : ℕ) → Keeps (handle_container_close delivers current ref window)
  unfolding handle_container_close
  close-Keeps ref window =
      Keeps-if (window == 0) _ _
        (Keeps->> _ _ (assign-Keeps ref _ (λ c u. u)) (write-Keeps ref container_close))
        (Keeps-if (window == 255) _ return_err (assign-Keeps ref _ (λ c u. u)) err-Keeps)
