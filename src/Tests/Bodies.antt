-- ===== src/Tests/Bodies.antt =====
-- Two players, of which one moves (internal/server/mcpe_player_sync.go).
use open_ai_mc_be_server.Inventory.Store.{new_inventory}
use open_ai_mc_be_server.Prelude.Dict.{lookup}
use open_ai_mc_be_server.Prelude.{
  ℕ, ◌≡◌, ◌≢◌, refl, Bool, true, false, ◌&&◌, not, [], ◌∷◌, some, ◌==◌, if◌then◌else◌, arith, ◌||◌,
  ◌+◌, ◌<◌,
}
use open_ai_mc_be_server.Prelude.Int.{eqb_ℤ, ℤ, pos, negsuc}
use open_ai_mc_be_server.World.Flat.{Vec3}
use open_ai_mc_be_server.Session.State.{
  Server, Client, new_client, spawned, done, Message, spawned_players_except,
}
use open_ai_mc_be_server.Inventory.Item.{Protocol, container_code}
use open_ai_mc_be_server.Inventory.Client.{Sent}
use open_ai_mc_be_server.Movement.Metadata.{
  Keys, FlagNumbers, InputNumbers, Toggle, Bitset, Metadata, int64,
  update_player_metadata_from_input,
}
use open_ai_mc_be_server.Movement.Flags.{has_flag}
use open_ai_mc_be_server.Movement.Input.{after_input, update_player_metadata_from_input_lem}
use open_ai_mc_be_server.Movement.Body.{initial_body, finite_vec, Body, Float32, Stage, Update}
use open_ai_mc_be_server.Movement.Handlers.{
  finite_pose, auth_input, PlayerAuthInput, handle_body_packet, handle_player_auth_input,
}
use open_ai_mc_be_server.Movement.Finite.{FiniteLaws, AllFinite, handle_body_packet-AllFinite}
use open_ai_mc_be_server.Movement.View.{seen, pose_of, listed}
use open_ai_mc_be_server.Movement.Seen.{asked, asked_same, handle_player_auth_input-seen}

instance abbrev pub plain_protocol : Protocol ℕ
plain_protocol = record {
  zero_details = 0;
  deep_equal = λ a b. a == b;
  container_id = container_code;
}

abbrev pub keys : Keys
keys = record {
  flags = 0;
  flags_two = 92;
  name = 4;
  scale = 38;
  width = 53;
  height = 54;
  air_supply = 7;
  air_supply_max = 42;
}

abbrev pub flag_numbers : FlagNumbers
flag_numbers = record {
  show_name = 14;
  always_show_name = 15;
  has_collision = 48;
  has_gravity = 49;
  sneaking = 1;
  sprinting = 3;
  swimming = 57;
  gliding = 32;
  fly = 46;
  crawling = 115;
}

abbrev toggle : ℕ → Toggle
toggle n = record { start = n; stop = n + 1 }

abbrev pub input_numbers : InputNumbers
input_numbers = record {
  sneaking = 8;
  jumping = 6;
  perform_item_stack_request = 35;
  sprinting = toggle 25;
  swimming = toggle 29;
  gliding = toggle 33;
  flying = toggle 42;
  crawling = toggle 46;
}

-- The player sneaks and starts to crawl.
abbrev crouching : Bitset
crouching = record { len = 65; load = λ n. n == 8 || n == 46 }

abbrev upright : Metadata ℤ
upright = (0, int64 0) ∷ (92, int64 0) ∷ []

keys_apart : keys.flags ≢ keys.flags_two
keys_apart e = absurd (omega arith)

update_player_metadata_from_input_lem_example :
    ((g : ℕ)
      → g < 128
      → has_flag keys
          (update_player_metadata_from_input keys flag_numbers input_numbers crouching upright).0
          g
        ≡ after_input flag_numbers input_numbers crouching g (has_flag keys upright g))
    × ((update_player_metadata_from_input keys flag_numbers input_numbers crouching upright).1
          ≡ false
        → (update_player_metadata_from_input keys flag_numbers input_numbers crouching upright).0
          ≡ upright)
    × ((k : ℕ)
        → k ≢ keys.flags
        → k ≢ keys.flags_two
        → lookup k
            (update_player_metadata_from_input keys flag_numbers input_numbers crouching upright).0
          ≡ lookup k upright)
update_player_metadata_from_input_lem_example =
    update_player_metadata_from_input_lem keys keys_apart flag_numbers input_numbers crouching
      upright (omega arith) (omega arith) (omega arith) (omega arith) (omega arith) (omega arith)

-- Whole numbers as floats; -1 stands for all that is not finite.
abbrev pub whole : Float32 ℤ
whole = record {
  zero_float = pos 0;
  finite = λ v. not (eqb_ℤ v (negsuc 0));
  same = eqb_ℤ;
  sub = λ v w. v;
  mod_360 = λ v. v;
  is_negative = λ v. false;
  add_360 = λ v. v;
}

whole_laws : FiniteLaws whole
whole_laws = record { zero_finite = refl; mod_finite = λ v h. h; add_finite = λ v h n. h }

abbrev at_spawn : Vec3 ℤ
at_spawn = record { x = pos 0; y = pos 64; z = pos 0 }

abbrev standing : Body ℤ
standing = initial_body whole at_spawn upright

abbrev player : ℕ → Client
player id = record new_client { state = spawned; runtime_id = id }

abbrev two_players : Server
two_players = record {
  online_mode = true;
  has_packs = false;
  view_distance = 8;
  next_id = 2;
  players = (1, 0) ∷ (2, 1) ∷ [];
  clients = λ ref. if ref == 0 then player 1 else player 2;
  sent = [];
}

abbrev pub meeting : Stage ℤ ℕ
meeting = record {
  server = two_players;
  bodies = λ ref. standing;
  bags = λ ref. record { runtime_id = 1; creative = false; inventory = new_inventory; sent = [] };
  updates = [];
}

abbrev step : PlayerAuthInput ℤ
step = record {
  position = record { x = pos 1; y = pos 64; z = pos 0 };
  pitch = pos 0;
  yaw = pos 90;
  head_yaw = pos 90;
  delta = record { x = pos 1; y = pos 0; z = pos 0 };
  input_data = crouching;
  item_stack_request = record { request_id = pos 1; actions = [] };
  tick = 5;
}

abbrev always : ℕ → Update ℤ → Bool
always ref u = true

abbrev bag_always : Sent ℕ → Bool
bag_always u = true

abbrev session_always : ℕ → Message → Bool
session_always ref m = true

finite_meeting : AllFinite whole meeting
unfolding finite_vec
finite_meeting k = record { place = refl; pitch = refl; yaw = refl; head_yaw = refl }

handle_body_packet-AllFinite_example :
    AllFinite whole
      (handle_body_packet always whole bag_always session_always 800 keys flag_numbers input_numbers
        0
        (auth_input step)
        meeting).1
handle_body_packet-AllFinite_example =
    handle_body_packet-AllFinite whole whole_laws always bag_always session_always 800 keys
      flag_numbers input_numbers 0 (auth_input step) meeting finite_meeting

step-finite :
    finite_pose always whole bag_always step.position step.pitch step.yaw step.head_yaw ≡ true
unfolding finite_vec
step-finite = refl

handle_player_auth_input-seen_example :
    let t =
      handle_player_auth_input always whole bag_always keys flag_numbers input_numbers 0 step
        meeting in
    (t.0 ≡ done)
    × (pose_of (t.1.bodies 0)
        ≡ asked always (λ ref u. refl) whole bag_always keys flag_numbers input_numbers step)
    × ((p : ℕ)
        → seen p 1 t.1.updates ≡ (
            if not (
                asked_same always
                  (λ ref u. refl)
                  whole
                  bag_always
                  keys
                  flag_numbers
                  input_numbers
                  standing
                  step)
              && listed p (spawned_players_except two_players 0)
            then some
                (asked always (λ ref u. refl) whole bag_always keys flag_numbers input_numbers step)
            else seen p 1 []))
handle_player_auth_input-seen_example =
    handle_player_auth_input-seen always (λ ref u. refl) whole bag_always keys flag_numbers
      input_numbers 0 step meeting refl step-finite refl refl
