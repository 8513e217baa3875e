-- ===== src/Movement/Body.antt =====
-- The state of a player's body, and the packets that tell of it (internal/server/mcpe_player_sync.go).
-- `F` is float32, whose operations are Go's.
use open_ai_mc_be_server.Prelude.{◌==◌, ℕ, Bool, false, ◌&&◌, List, if◌then◌else◌}
use open_ai_mc_be_server.World.Flat.{Vec3}
use open_ai_mc_be_server.Session.State.{Server}
use open_ai_mc_be_server.Inventory.Client
use open_ai_mc_be_server.Movement.Metadata.{Metadata}

-- `finite`: not NaN and not infinite. `same` is `==`, `sub` is `-`, `mod_360` is math.Mod(v, 360),
-- `is_negative` is `v < 0` and `add_360` is `v + 360`.
pub record Float32 (F : Type 0) : Type 0 where
  pub zero_float : F
  pub finite : F → Bool
  pub same : F → F → Bool
  pub sub : F → F → F
  pub mod_360 : F → F
  pub is_negative : F → Bool
  pub add_360 : F → F

pub record Body (F : Type 0) : Type 0 where
  pub position : Vec3 F
  pub velocity : Vec3 F
  pub pitch : F
  pub yaw : F
  pub head_yaw : F
  pub on_ground : Bool
  pub target : ℕ
  pub metadata : Metadata F

pub data MoveMode : Type 0 where
  mode_normal mode_reset : MoveMode
  mode_other : ℕ → MoveMode

-- Each packet carries the runtime id of the player it tells of.
pub data Update (F : Type 0) : Type 0 where
  move_player :
      (id : ℕ)
      → (position : Vec3 F) → (pitch yaw head_yaw : F) → MoveMode
      → (on_ground : Bool) → (tick : ℕ) → Update F
  set_actor_data : (id : ℕ) → Metadata F → (tick : ℕ) → Update F
  set_actor_motion : (id : ℕ) → (velocity : Vec3 F) → (tick : ℕ) → Update F

-- The server, with the bodies and the inventories of its clients; `updates` is what went out and to
-- whom, in order.
pub record Stage (F D : Type 0) : Type 0 where
  pub server : Server
  pub bodies : ℕ → Body F
  pub bags : ℕ → Client.Client D
  pub updates : List (ℕ × Update F)

abbrev pub replace : {A : Type 0} → ℕ → A → (ℕ → A) → ℕ → A
replace ref a f k = if k == ref then a else f k

abbrev pub put_body : {F D : Type 0} → ℕ → Body F → Stage F D → Stage F D
put_body ref b s = record s { bodies = replace ref b s.bodies }

-- `initPlayerState` after the identity was parsed.
abbrev pub initial_body : {F : Type 0} → Float32 F → Vec3 F → Metadata F → Body F
initial_body float spawn metadata = record {
  position = spawn;
  velocity = record { x = float.zero_float; y = float.zero_float; z = float.zero_float };
  pitch = float.zero_float;
  yaw = float.zero_float;
  head_yaw = float.zero_float;
  on_ground = false;
  target = 0;
  metadata = metadata;
}

module _ {F : Type 0} (float : Float32 F) where
  open float use {finite, same, sub, mod_360, is_negative, add_360}

  unfoldable pub finite_vec : Vec3 F → Bool
  finite_vec v = finite v.x && finite v.y && finite v.z

  unfoldable pub same_vec : Vec3 F → Vec3 F → Bool
  same_vec v w = same v.x w.x && same v.y w.y && same v.z w.z

  unfoldable pub sub_vec : Vec3 F → Vec3 F → Vec3 F
  sub_vec v w = record { x = sub v.x w.x; y = sub v.y w.y; z = sub v.z w.z }

  unfoldable pub normalise_degrees : F → F
  normalise_degrees value =
      let rest = mod_360 value in if is_negative rest then add_360 rest else rest

module _ {F D : Type 0} (s : Stage F D) (ref : ℕ) where
  abbrev pub own_id : ℕ
  own_id = (s.server.clients ref).runtime_id

  abbrev pub move_player_packet : MoveMode → ℕ → Update F
  move_player_packet mode tick =
      let b = s.bodies ref in
      move_player own_id b.position b.pitch b.yaw b.head_yaw mode b.on_ground tick

  abbrev pub set_actor_data_packet : ℕ → Update F
  set_actor_data_packet tick = set_actor_data own_id (s.bodies ref).metadata tick

  abbrev pub set_actor_motion_packet : ℕ → Update F
  set_actor_motion_packet tick = set_actor_motion own_id (s.bodies ref).velocity tick
