-- ===== src/Config/RoundTrip.antt =====
-- What `MarshalProperties` writes, `Load` reads back; what `Load` returns is valid (internal/config/config.go).
use open_ai_mc_be_server.Config.Reading.{
  read-log_file, read-log_level, read-game_mode, read-online_mode, read-view_distance,
  read-max_players, read-port, read-address, read-server_name, read-heading, read-color_logs,
  load_text-applied, read, applied,
}
use open_ai_mc_be_server.Command.Registry.{is_blank}
use mathlib.Core.List.{append-nil}
use open_ai_mc_be_server.Prelude.{
  subst, sym, ◌∙◌, ap, ℕ, ◌^◌, ◌≡◌, refl, Bool, true, false, [], ◌∷◌, Option, none, some, ltb,
  Bool-cases, inl, inr, arith, ◌≢◌,
}
use open_ai_mc_be_server.Prelude.Int.{ℤ, pos, negsuc, ltb_ℤ, ◌≤ℤ◌}
use open_ai_mc_be_server.Prelude.Strings.{codes}
use open_ai_mc_be_server.Command.Args.{Text}
use open_ai_mc_be_server.Config.Strings.{split_lines, check_lines, scan_lines}
use open_ai_mc_be_server.Config.Numbers.{format_bool}
use open_ai_mc_be_server.Config.Properties.{
  content, missing, unreadable, ConfigFile, load, Config, default_config, marshal_properties,
  load_text, is_valid, apply_lines, validated, line_of,
}
use open_ai_mc_be_server.Config.Lines.{IsPlain}

-- The bounds that a running server relies on.
pub record InBounds (cfg : Config) : Type 0 where
  pub named : cfg.server_name ≢ []
  pub port_above : pos 1 ≤ℤ cfg.port
  pub port_below : cfg.port ≤ℤ pos 65535
  pub some_players : pos 1 ≤ℤ cfg.max_players
  pub some_distance : pos 2 ≤ℤ cfg.view_distance
  pub some_mode : cfg.game_mode ≢ []

-- A configuration that a file can hold: a valid one, of plain texts and numbers of int64.
pub record IsWritable (cfg : Config) : Type 0 where
  pub valid : is_valid cfg ≡ true
  pub server_name : IsPlain cfg.server_name
  pub address : IsPlain cfg.address
  pub game_mode : IsPlain cfg.game_mode
  pub log_level : IsPlain cfg.log_level
  pub log_file : IsPlain cfg.log_file
  pub max_players : ltb_ℤ cfg.max_players (pos (2 ^ 63)) ≡ true
  pub view_distance : ltb_ℤ cfg.view_distance (pos (2 ^ 63)) ≡ true

color_logs-last :
    (b : Bool) (cfg : Config)
    → read (line_of (codes "color-logs") (format_bool b)) cfg ≡ some (record cfg { color_logs = b })
unfolding apply_lines scan_lines check_lines split_lines
color_logs-last b cfg =
    ap (λ t. read t cfg) (sym (append-nil (line_of (codes "color-logs") (format_bool b))))
    ∙ read-color_logs b [] cfg

-- The whole file, its numbers at least zero, read into any configuration.
read-marshal_properties :
    (cfg given : Config) (p m v : ℕ)
    → cfg.port ≡ pos p
    → cfg.max_players ≡ pos m
    → cfg.view_distance ≡ pos v
    → ltb p (2 ^ 63) ≡ true
    → ltb m (2 ^ 63) ≡ true
    → ltb v (2 ^ 63) ≡ true
    → IsPlain cfg.server_name
    → IsPlain cfg.address
    → IsPlain cfg.game_mode
    → IsPlain cfg.log_level
    → IsPlain cfg.log_file
    → read (marshal_properties cfg) given ≡ some cfg
unfolding marshal_properties
read-marshal_properties cfg given p m v ep em ev hp hm hv name address mode level file =
    rw (ep, em, ev)
      (read-heading _ _
        ∙ read-server_name cfg.server_name _ _ name
        ∙ read-address cfg.address _ _ address
        ∙ read-port p _ _ hp
        ∙ read-max_players m _ _ hm
        ∙ read-view_distance v _ _ hv
        ∙ read-online_mode cfg.online_mode _ _
        ∙ read-game_mode cfg.game_mode _ _ mode
        ∙ read-log_level cfg.log_level _ _ level
        ∙ read-log_file cfg.log_file _ _ file
        ∙ color_logs-last cfg.color_logs _)

not-is_blank : (t : Text) → is_blank t ≡ false → t ≢ []
not-is_blank [] h e = cc
not-is_blank (r ∷ t) h e = cc

is_valid-InBounds : (cfg : Config) → is_valid cfg ≡ true → InBounds cfg
unfolding is_valid
is_valid-InBounds cfg h = record {
  named = not-is_blank cfg.server_name (ground arith);
  port_above = ground arith;
  port_below = ground arith;
  some_players = ground arith;
  some_distance = ground arith;
  some_mode = not-is_blank cfg.game_mode (ground arith);
}

nat_of :
    (a : ℤ) (n : ℕ)
    → pos n ≤ℤ a
    → ltb_ℤ a (pos (2 ^ 63)) ≡ true
    → (m : ℕ) × (a ≡ pos m) × (ltb m (2 ^ 63) ≡ true)
nat_of (pos m) n h k = (m, refl, ground arith)
nat_of (negsuc m) n h k = absurd (omega arith)

-- What `MarshalProperties` writes of a configuration, `Load` reads back as that configuration,
-- if it is valid, its two free numbers are in the range of int64, and its five texts have no
-- white space around them, no newline in them, and fit the scanner's buffer as part of a line.
pub load_text-marshal_properties :
    (cfg : Config) → IsWritable cfg → load_text (marshal_properties cfg) ≡ some cfg
load_text-marshal_properties cfg w =
    let b = is_valid-InBounds cfg w.valid in
    let (p, ep, hp) = nat_of cfg.port 1 b.port_above (ground (arith, b.port_below)) in
    let (m, em, hm) = nat_of cfg.max_players 1 b.some_players w.max_players in
    let (v, ev, hv) = nat_of cfg.view_distance 2 b.some_distance w.view_distance in
    load_text-applied (marshal_properties cfg)
    ∙ ap validated (
        read-marshal_properties cfg default_config p m v ep em ev hp hm hv w.server_name w.address
          w.game_mode w.log_level w.log_file)
    ∙ rw w.valid refl

validated-InBounds : (o : Option Config) {cfg : Config} → validated o ≡ some cfg → InBounds cfg
validated-InBounds none h = absurd (ground arith)
validated-InBounds (some given) {cfg} h = elim (Bool-cases (is_valid given)) [
  | inl ok ↦ subst InBounds (ground (arith, h, ok)) (is_valid-InBounds given ok)
  | inr bad ↦ absurd (ground (arith, h, bad))
]

load_text-InBounds : (t : Text) (cfg : Config) → load_text t ≡ some cfg → InBounds cfg
load_text-InBounds t cfg h =
    validated-InBounds (applied (scan_lines t) default_config) (sym (load_text-applied t) ∙ h)

-- Every configuration that `Load` returns, the default one that it writes or one from a file of
-- any content, has a name, a game mode, a port from 1 to 65535, room for one player and a view
-- distance of 2 at least.
pub load-InBounds : (file : ConfigFile) (cfg : Config) → (load file).0 ≡ some cfg → InBounds cfg
unfolding load is_valid
load-InBounds (missing true) cfg h = subst InBounds (cc) (is_valid-InBounds default_config refl)
load-InBounds (missing false) cfg h = absurd (cc)
load-InBounds unreadable cfg h = absurd (cc)
load-InBounds (content t) cfg h = load_text-InBounds t cfg h
