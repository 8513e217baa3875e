-- ===== src/Movement/Handlers.antt =====
-- The packets that move a player (internal/server/mcpe_player_sync.go). `delivers` says which writes of
-- a body's packet succeed, `bag_delivers` which of the inventory's, `session_delivers` which of the
-- session's. The conversion of a position to the block of an opened inventory is left out.
use open_ai_mc_be_server.Session.Packets.{is_disconnected}
use open_ai_mc_be_server.Prelude.{
  ℕ, Bool, true, false, ◌&&◌, not, List, [], ◌∷◌, ◌++◌, Option, none, some, ◌==◌, if◌then◌else◌,
}
use open_ai_mc_be_server.Prelude.Dict.{lookup}
use open_ai_mc_be_server.World.Flat.{Vec3}
use open_ai_mc_be_server.Session.State.{
  Server, Outcome, done, failed, Message, is_spawned, spawned_players_except,
}
use open_ai_mc_be_server.Session.Handlers.{handle_open_inventory}
use open_ai_mc_be_server.Inventory.Item.{Protocol}
use open_ai_mc_be_server.Inventory.Client
use open_ai_mc_be_server.Inventory.Client.{Sent, process_item_stack_requests}
use open_ai_mc_be_server.Inventory.Requests.{ItemStackRequest}
use open_ai_mc_be_server.Movement.Metadata.{
  Keys, FlagNumbers, InputNumbers, Bitset, input_flag, update_player_metadata_from_input,
}
use open_ai_mc_be_server.Movement.Body.{
  Body, Float32, MoveMode, mode_normal, mode_reset, Stage, Update, finite_vec, same_vec, sub_vec,
  normalise_degrees, put_body, replace, move_player_packet, set_actor_data_packet,
  set_actor_motion_packet,
}

pub record PlayerAuthInput (F : Type 0) : Type 0 where
  pub position : Vec3 F
  pub pitch : F
  pub yaw : F
  pub head_yaw : F
  pub delta : Vec3 F
  pub input_data : Bitset
  pub item_stack_request : ItemStackRequest
  pub tick : ℕ

pub record MovePlayer (F : Type 0) : Type 0 where
  pub entity_runtime_id : ℕ
  pub position : Vec3 F
  pub pitch : F
  pub yaw : F
  pub head_yaw : F
  pub mode : MoveMode
  pub on_ground : Bool
  pub tick : ℕ

pub data InteractAction : Type 0 where
  mouse_over_entity open_inventory leave_vehicle other_action : InteractAction

-- `position` is an optional field of the packet.
pub record Interact (F : Type 0) : Type 0 where
  pub action : InteractAction
  pub target : ℕ
  pub position : Option (Vec3 F)

pub data BodyPacket (F : Type 0) : Type 0 where
  auth_input : PlayerAuthInput F → BodyPacket F
  move : MovePlayer F → BodyPacket F
  interaction : Interact F → BodyPacket F

abbrev pub StageHandler : Type 0 → Type 0 → Type 0
StageHandler F D = Stage F D → Outcome × Stage F D

infixl 5 ◌next◌
abbrev pub ◌next◌ : {F D : Type 0} → Outcome × Stage F D → StageHandler F D → Outcome × Stage F D
◌next◌ (done, s) k = k s
◌next◌ (failed, s) k = (failed, s)

abbrev pub from_bag : Client.Outcome → Outcome
from_bag Client.done = done
from_bag Client.failed = failed

abbrev pub is_some : {A : Type 0} → Option A → Bool
is_some none = false
is_some (some a) = true

module _ {F D : Type 0} (delivers : ℕ → Update F → Bool) where
  unfoldable pub write_update : ℕ → Update F → StageHandler F D
  write_update ref u s =
      if delivers ref u
      then (done, record s { updates = s.updates ++ (ref, u) ∷ [] })
      else (failed, s)

  -- `writePacketToClients`
  unfoldable pub write_updates : List ℕ → Update F → StageHandler F D
  write_updates [] u s = (done, s)
  write_updates (ref ∷ refs) u s = write_update ref u s next write_updates refs u

  unfoldable pub broadcast_to_spawned_peers : ℕ → Update F → StageHandler F D
  broadcast_to_spawned_peers ref u s = write_updates (spawned_players_except s.server ref) u s

  abbrev pub announce_data : ℕ → ℕ → StageHandler F D
  announce_data ref tick s = broadcast_to_spawned_peers ref (set_actor_data_packet s ref tick) s

  abbrev pub announce_move : ℕ → MoveMode → ℕ → StageHandler F D
  announce_move ref mode tick s =
      broadcast_to_spawned_peers ref (move_player_packet s ref mode tick) s

  abbrev pub announce_motion : ℕ → ℕ → StageHandler F D
  announce_motion ref tick s = broadcast_to_spawned_peers ref (set_actor_motion_packet s ref tick) s

  abbrev pub when : Bool → StageHandler F D → StageHandler F D
  when true m s = m s
  when false m s = (done, s)

  module _ ⦃q : Protocol D⦄ (float : Float32 F) (bag_delivers : Sent D → Bool) where
    abbrev pub finite_pose : Vec3 F → F → F → F → Bool
    finite_pose position pitch yaw head_yaw =
        finite_vec float position && float.finite pitch && float.finite yaw && float.finite head_yaw

    abbrev pub process_requests : ℕ → ItemStackRequest → StageHandler F D
    process_requests ref request s =
        let (r, bag) = process_item_stack_requests bag_delivers (request ∷ []) (s.bags ref) in
        (from_bag r, record s { bags = replace ref bag s.bags })

    abbrev pub same_pose : Body F → Body F → Bool
    same_pose old new =
        same_vec float old.position new.position
        && float.same old.pitch new.pitch
        && float.same old.yaw new.yaw
        && float.same old.head_yaw new.head_yaw

    module _ (keys : Keys) (flag : FlagNumbers) (in_ : InputNumbers) where
      -- The body that an input moves, and whether its metadata changed.
      unfoldable pub moved_by_input : PlayerAuthInput F → Body F → Body F × Bool
      moved_by_input pk b =
          let (metadata, changed) =
            update_player_metadata_from_input keys flag in_ pk.input_data b.metadata in
          (
            record b {
              position = pk.position;
              pitch = normalise_degrees float pk.pitch;
              yaw = normalise_degrees float pk.yaw;
              head_yaw = normalise_degrees float pk.head_yaw;
              velocity = pk.delta;
              on_ground = not (input_flag pk.input_data in_.jumping);
              metadata = metadata;
            },
            changed,
          )

      unfoldable pub move_by_input : ℕ → PlayerAuthInput F → StageHandler F D
      move_by_input ref pk s =
          let old = s.bodies ref in
          let (new, changed) = moved_by_input pk old in
          (done, put_body ref new s)
          next when changed (announce_data ref pk.tick)
          next when (not (same_pose old new)) (announce_move ref mode_normal pk.tick)
          next when (not (same_vec float old.velocity new.velocity)) (announce_motion ref pk.tick)

      unfoldable pub handle_player_auth_input : ℕ → PlayerAuthInput F → StageHandler F D
      handle_player_auth_input ref pk s =
          if (s.server.clients ref).runtime_id == 0
          then (done, s)
          else if not (finite_pose pk.position pk.pitch pk.yaw pk.head_yaw)
          then (failed, s)
          else if not (is_spawned (s.server.clients ref).state)
          then write_update ref (move_player_packet s ref mode_reset pk.tick) s
          else when (input_flag pk.input_data in_.perform_item_stack_request)
              (process_requests ref pk.item_stack_request) s
            next move_by_input ref pk

    abbrev pub moved_to : MovePlayer F → Body F → Body F
    moved_to pk b = record b {
      position = pk.position;
      pitch = normalise_degrees float pk.pitch;
      yaw = normalise_degrees float pk.yaw;
      head_yaw = normalise_degrees float pk.head_yaw;
      on_ground = pk.on_ground;
      velocity = sub_vec float pk.position b.position;
    }

    unfoldable pub handle_move_player : ℕ → MovePlayer F → StageHandler F D
    handle_move_player ref pk s =
        if (s.server.clients ref).runtime_id == 0
        then (done, s)
        else if not (pk.entity_runtime_id == 0)
            && not (pk.entity_runtime_id == (s.server.clients ref).runtime_id)
        then (failed, s)
        else if not (finite_pose pk.position pk.pitch pk.yaw pk.head_yaw)
        then (failed, s)
        else if not (is_spawned (s.server.clients ref).state)
        then write_update ref (move_player_packet s ref mode_reset pk.tick) s
        else (done, put_body ref (moved_to pk (s.bodies ref)) s)
          next announce_move ref pk.mode pk.tick

    -- `playerExists`
    abbrev pub player_exists : ℕ → Server → Bool
    player_exists id server = is_some (lookup id server.players)

    abbrev pub finite_if_given : Option (Vec3 F) → Bool
    finite_if_given none = true
    finite_if_given (some position) = finite_vec float position

    unfoldable pub handle_mouse_over_entity : ℕ → Interact F → StageHandler F D
    handle_mouse_over_entity ref pk s =
        if not (pk.target == 0) && not (player_exists pk.target s.server)
        then (done, s)
        else if not (finite_if_given pk.position)
        then (failed, s)
        else (done, put_body ref (record (s.bodies ref) { target = pk.target }) s)

    abbrev pub placed_at : Option (Vec3 F) → Body F → Body F
    placed_at none b = b
    placed_at (some position) b = record b { position = position }

    unfoldable pub handle_leave_vehicle : ℕ → Interact F → StageHandler F D
    handle_leave_vehicle ref pk s =
        if not (finite_if_given pk.position)
        then (failed, s)
        else (done, put_body ref (placed_at pk.position (s.bodies ref)) s)
          next announce_move ref mode_normal 0

    module _ (session_delivers : ℕ → Message → Bool) (current : ℕ) where
      abbrev pub open_inventory_of : ℕ → StageHandler F D
      open_inventory_of ref s =
          let (r, server) = handle_open_inventory session_delivers current ref s.server in
          (r, record s { server = server })

      abbrev pub interact_by : InteractAction → ℕ → Interact F → StageHandler F D
      interact_by mouse_over_entity ref pk = handle_mouse_over_entity ref pk
      interact_by open_inventory ref pk = open_inventory_of ref
      interact_by leave_vehicle ref pk = handle_leave_vehicle ref pk
      interact_by other_action ref pk = λ s. (failed, s)

      unfoldable pub handle_interact : ℕ → Interact F → StageHandler F D
      handle_interact ref pk s =
          if (s.server.clients ref).runtime_id == 0
          then (done, s)
          else interact_by pk.action ref pk s

      abbrev pub route_body_packet :
          Keys → FlagNumbers → InputNumbers → ℕ → BodyPacket F → StageHandler F D
      route_body_packet keys flag in_ ref (auth_input pk) =
          handle_player_auth_input keys flag in_ ref pk
      route_body_packet keys flag in_ ref (move pk) = handle_move_player ref pk
      route_body_packet keys flag in_ ref (interaction pk) = handle_interact ref pk

      -- The routes of `newMCPEClientRouter` for these packets, after `handlePacket` has let them in.
      unfoldable pub handle_body_packet :
          Keys → FlagNumbers → InputNumbers → ℕ → BodyPacket F → StageHandler F D
      handle_body_packet keys flag in_ ref pk s =
          if is_disconnected (s.server.clients ref).state
          then (done, s)
          else route_body_packet keys flag in_ ref pk s
