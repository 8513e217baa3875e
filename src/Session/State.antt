-- ===== src/Session/State.antt =====
-- The clients of the server and the table of its players (internal/server/mcpe_session.go and
-- mcpe_player_sync.go). A client is an object that the handlers share: it is named by a number, and
-- the server holds the state of each.
use open_ai_mc_be_server.Prelude.{
  ℕ, Bool, true, false, ◌&&◌, not, List, [], ◌∷◌, Option, none, ◌==◌, if◌then◌else◌, map,
}
use open_ai_mc_be_server.Prelude.Dict.{Dict}
use open_ai_mc_be_server.Prelude.Sort.{sort_by}

pub data SessionState : Type 0 where
  await_network_settings await_login await_client_handshake : SessionState
  await_resource_pack_response await_chunk_radius await_initialised : SessionState
  spawned disconnected : SessionState

-- What `gtlogin.Parse` finds in a login request: the identity's UUID if its text is one, whether
-- Xbox Live vouches for it, and whether it brings a public key.
pub record LoginData : Type 0 where
  pub identity : Option ℕ
  pub xbox_live_authenticated : Bool
  pub has_public_key : Bool

-- `login` is `none` until a login packet was parsed: the zero value has no identity.
pub record Client : Type 0 where
  pub state : SessionState
  pub runtime_id : ℕ
  pub login : Option LoginData
  pub uuid : Option ℕ
  pub compressed : Bool
  pub encrypted : Bool
  pub stack_sent : Bool
  pub chunks_sent : Bool
  pub client_cache_enabled : Bool
  pub loading_screen_open : Bool
  pub loading_screen_id : Option ℕ
  pub inventory_open : Bool

-- The packets that the session handlers send, without their contents.
pub data Message : Type 0 where
  login_failed_client login_failed_server network_settings : Message
  disconnect server_handshake login_success resource_packs_info : Message
  resource_pack_stack resource_pack_data jigsaw_structure_data voxel_shapes : Message
  start_game : Message
  item_registry available_commands player_list set_actor_data : Message
  set_actor_motion chunk_radius_updated biome_definition_list : Message
  creative_content inventory_content held_item initial_chunks : Message
  player_spawn add_player player_joined player_left remove_actor : Message
  player_list_remove container_open container_close : Message

-- `players` is the map from runtime ids to clients, `sent` what went out and to whom, in order.
pub record Server : Type 0 where
  pub online_mode : Bool
  pub has_packs : Bool
  pub view_distance : ℕ
  pub next_id : ℕ
  pub players : Dict ℕ
  pub clients : ℕ → Client
  pub sent : List (ℕ × Message)

pub data Outcome : Type 0 where
  done failed : Outcome

abbrev pub Handler : Type 0
Handler = Server → Outcome × Server

abbrev pub continue : Outcome → Server → Handler → Outcome × Server
continue done s k = k s
continue failed s k = (failed, s)

infixl 5 ◌>>◌
abbrev pub ◌>>◌ : Handler → Handler → Handler
◌>>◌ m k s = let (r, s') = m s in continue r s' k

abbrev pub return_ok : Handler
return_ok s = (done, s)

abbrev pub return_err : Handler
return_err s = (failed, s)

-- `_ = m`: the error of `m` is dropped.
abbrev pub ignore : Handler → Handler
ignore m s = (done, (m s).1)

abbrev pub update : ℕ → Client → (ℕ → Client) → ℕ → Client
update ref c clients k = if k == ref then c else clients k

-- An assignment to the client's fields.
unfoldable pub assign : ℕ → (Client → Client) → Handler
assign ref f s = (done, record s { clients = update ref (f (s.clients ref)) s.clients })

abbrev pub new_client : Client
new_client = record {
  state = await_network_settings;
  runtime_id = 0;
  login = none;
  uuid = none;
  compressed = false;
  encrypted = false;
  stack_sent = false;
  chunks_sent = false;
  client_cache_enabled = false;
  loading_screen_open = false;
  loading_screen_id = none;
  inventory_open = false;
}

abbrev pub is_spawned : SessionState → Bool
is_spawned spawned = true
is_spawned await_network_settings = false
is_spawned await_login = false
is_spawned await_client_handshake = false
is_spawned await_resource_pack_response = false
is_spawned await_chunk_radius = false
is_spawned await_initialised = false
is_spawned disconnected = false

-- `allPlayers`: the clients in the table, sorted by runtime id.
unfoldable pub all_players : Server → List ℕ
all_players s = sort_by (λ ref. (s.clients ref).runtime_id) (map (λ e. e.1) s.players)

unfoldable pub keep_players : (ℕ → Bool) → List ℕ → List ℕ
keep_players test [] = []
keep_players test (ref ∷ rest) =
    if test ref then ref ∷ keep_players test rest else keep_players test rest

unfoldable pub spawned_players : Server → List ℕ
spawned_players s = keep_players (λ ref. is_spawned (s.clients ref).state) (all_players s)

unfoldable pub spawned_players_except : Server → ℕ → List ℕ
spawned_players_except s ref =
    keep_players (λ other. not (other == ref) && is_spawned (s.clients other).state) (all_players s)

-- The players that `addPlayer` finds.
unfoldable pub other_players : Server → ℕ → List ℕ
other_players s ref = keep_players (λ other. not (other == ref)) (all_players s)
