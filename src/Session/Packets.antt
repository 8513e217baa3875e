-- ===== src/Session/Packets.antt =====
-- What a client sends to the handlers of the session, and the small tests and assignments that the
-- handlers share (internal/server/mcpe_session.go, mcpe_resourcepacks.go, mcpe_world_sync.go).
use open_ai_mc_be_server.Prelude.{ℕ, Bool, true, false, Option, none, some, ◌==◌}
use open_ai_mc_be_server.Session.State.{
  SessionState, await_network_settings, await_login, await_client_handshake,
  await_resource_pack_response, await_chunk_radius, await_initialised, spawned, disconnected,
  LoginData, Handler, return_ok, return_err, assign,
}

-- What the handlers read of the packets. A protocol number is an int32: a negative one is refused
-- like 0.
pub data LoadingScreen : Type 0 where
  loading_start loading_end loading_unknown loading_other : LoadingScreen

pub data PackResponse : Type 0 where
  send_packs : (found none_asked : Bool) → PackResponse
  all_packs_downloaded completed refused unknown_response : PackResponse

-- The packets of the session's own handlers: ten routes of `newMCPEClientRouter`, and of an eleventh,
-- Interact, the opening of the inventory. Server.Routes has the packets of all routes.
pub data Packet : Type 0 where
  request_network_settings : (protocol : ℕ) → Packet
  login : (protocol : ℕ) → Option LoginData → Packet
  client_to_server_handshake : Packet
  resource_pack_client_response : PackResponse → Packet
  resource_packs_ready_for_validation : Packet
  client_cache_status : Bool → Packet
  request_chunk_radius : ℕ → Packet
  set_local_player_as_initialised : (runtime_id : ℕ) → Packet
  server_bound_loading_screen : LoadingScreen → Option ℕ → Packet
  open_inventory : Packet
  close_container : (window : ℕ) → Packet

abbrev pub same_id : Option ℕ → Option ℕ → Bool
same_id none b = true
same_id (some a) none = true
same_id (some a) (some b) = a == b

abbrev pub set_state : ℕ → SessionState → Handler
set_state ref state = assign ref (λ c. record c { state = state })

abbrev pub awaits_packs : SessionState → Bool
awaits_packs await_resource_pack_response = true
awaits_packs await_network_settings = false
awaits_packs await_login = false
awaits_packs await_client_handshake = false
awaits_packs await_chunk_radius = false
awaits_packs await_initialised = false
awaits_packs spawned = false
awaits_packs disconnected = false

abbrev pub identity_of : Option LoginData → Option ℕ
identity_of none = none
identity_of (some data_of) = data_of.identity

-- `client.state < stateAwaitInitialised`
abbrev pub before_initialised : SessionState → Bool
before_initialised await_network_settings = true
before_initialised await_login = true
before_initialised await_client_handshake = true
before_initialised await_resource_pack_response = true
before_initialised await_chunk_radius = true
before_initialised await_initialised = false
before_initialised spawned = false
before_initialised disconnected = false

abbrev pub is_disconnected : SessionState → Bool
is_disconnected disconnected = true
is_disconnected await_network_settings = false
is_disconnected await_login = false
is_disconnected await_client_handshake = false
is_disconnected await_resource_pack_response = false
is_disconnected await_chunk_radius = false
is_disconnected await_initialised = false
is_disconnected spawned = false

abbrev pub track_loading : ℕ → LoadingScreen → Option ℕ → Handler
track_loading ref loading_start none = assign ref (λ c. record c { loading_screen_open = true })
track_loading ref loading_start (some i) =
    assign ref (λ c. record c { loading_screen_open = true; loading_screen_id = some i })
track_loading ref loading_end id =
    assign ref (λ c. record c { loading_screen_open = false; loading_screen_id = none })
track_loading ref loading_unknown id = return_ok
track_loading ref loading_other id = return_err
