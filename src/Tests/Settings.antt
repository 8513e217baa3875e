-- ===== src/Tests/Settings.antt =====
-- A configuration, the answer to a ping, and a generated chunk (internal/config/config.go,
-- internal/network/raknet/motd.go, internal/world/flat.go).
use open_ai_mc_be_server.Config.Strings.{is_space, trim_right, trim_left}
use open_ai_mc_be_server.Prelude.{◌≡◌, refl, true, false, [], ◌∷◌, some, map, arith}
use open_ai_mc_be_server.Prelude.Int.{pos, negsuc}
use open_ai_mc_be_server.Prelude.Strings.{codes}
use open_ai_mc_be_server.Config.Numbers.{itoa}
use open_ai_mc_be_server.Config.Properties.{
  is_valid, default_config, marshal_properties, load_text, load, missing,
}
use open_ai_mc_be_server.Config.RoundTrip.{
  IsWritable, InBounds, load_text-marshal_properties, load-InBounds,
}
use open_ai_mc_be_server.Network.Motd.{trim_backslashes, PongInfo, pong_data}
use open_ai_mc_be_server.Network.Pong.{split_fields, unescape, pong_data-fields}

default-IsWritable : IsWritable default_config
unfolding is_valid trim_left trim_right is_space
default-IsWritable = record {
  valid = refl;
  server_name = record { front = refl; back = refl; single = refl; short = omega arith };
  address = record { front = refl; back = refl; single = refl; short = omega arith };
  game_mode = record { front = refl; back = refl; single = refl; short = omega arith };
  log_level = record { front = refl; back = refl; single = refl; short = omega arith };
  log_file = record { front = refl; back = refl; single = refl; short = omega arith };
  max_players = refl;
  view_distance = refl;
}

load_text-marshal_properties_example :
    load_text (marshal_properties default_config) ≡ some default_config
load_text-marshal_properties_example =
    load_text-marshal_properties default_config default-IsWritable

first_start : (load (missing true)).0 ≡ some default_config
unfolding load
first_start = refl

load-InBounds_example : InBounds default_config
load-InBounds_example = load-InBounds (missing true) default_config first_start

-- A name with a semicolon in it.
abbrev ping : PongInfo
ping = record {
  motd = codes "one; two";
  protocol_version = pos 800;
  minecraft_version = codes "1.21.80";
  online_players = pos 3;
  max_players = pos 20;
  server_id = negsuc 6;
  server_name = codes "BetterAltay-Go";
  game_mode = codes "Survival";
}

name_trimmed : trim_backslashes ping.motd ≡ ping.motd
unfolding trim_backslashes
name_trimmed = refl

server_trimmed : trim_backslashes ping.server_name ≡ ping.server_name
unfolding trim_backslashes
server_trimmed = refl

mode_trimmed : trim_backslashes ping.game_mode ≡ ping.game_mode
unfolding trim_backslashes
mode_trimmed = refl

pong_data-fields_example :
    map unescape (split_fields false (pong_data ping))
    ≡ codes "MCPE"
      ∷ codes "one; two"
      ∷ itoa (pos 800)
      ∷ codes "1.21.80"
      ∷ itoa (pos 3)
      ∷ itoa (pos 20)
      ∷ itoa (negsuc 6)
      ∷ codes "BetterAltay-Go"
      ∷ codes "Survival"
      ∷ []
pong_data-fields_example = pong_data-fields ping name_trimmed server_trimmed mode_trimmed refl
