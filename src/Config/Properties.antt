-- ===== src/Config/Properties.antt =====
-- The configuration, its file, and how it is loaded (internal/config/config.go).
use open_ai_mc_be_server.Prelude.{
  ℕ, Bool, true, false, ◌||◌, List, [], ◌∷◌, ◌++◌, Option, none, some, ◌==◌, if◌then◌else◌,
}
use open_ai_mc_be_server.Prelude.Int.{ℤ, pos, ltb_ℤ}
use open_ai_mc_be_server.Prelude.Strings.{codes}
use open_ai_mc_be_server.Command.Args.{Text}
use open_ai_mc_be_server.Command.Registry.{is_blank, text_eqb}
use open_ai_mc_be_server.Config.Strings.{trim_space, scan_lines}
use open_ai_mc_be_server.Config.Numbers.{atoi, itoa, parse_bool, format_bool}

pub record Config : Type 0 where
  pub server_name : Text
  pub address : Text
  pub port : ℤ
  pub max_players : ℤ
  pub view_distance : ℤ
  pub online_mode : Bool
  pub game_mode : Text
  pub log_level : Text
  pub log_file : Text
  pub color_logs : Bool

abbrev pub default_config : Config
default_config = record {
  server_name = codes "BetterAltay-Go Server";
  address = codes "0.0.0.0";
  port = pos 19132;
  max_players = pos 20;
  view_distance = pos 8;
  online_mode = false;
  game_mode = codes "Survival";
  log_level = codes "info";
  log_file = codes "logs/server.log";
  color_logs = true;
}

abbrev pub line_of : Text → Text → Text
line_of key value = key ++ b'=' ∷ (value ++ b'\n' ∷ [])

abbrev pub heading : Text
heading = codes "# BetterAltay-Go server configuration"

unfoldable pub marshal_properties : Config → Text
marshal_properties cfg =
    (heading ++ b'\n' ∷ [])
    ++ (line_of (codes "server-name") cfg.server_name
        ++ (line_of (codes "server-address") cfg.address
            ++ (line_of (codes "server-port") (itoa cfg.port)
                ++ (line_of (codes "max-players") (itoa cfg.max_players)
                    ++ (line_of (codes "view-distance") (itoa cfg.view_distance)
                        ++ (line_of (codes "online-mode") (format_bool cfg.online_mode)
                            ++ (line_of (codes "gamemode") cfg.game_mode
                                ++ (line_of (codes "log-level") cfg.log_level
                                    ++ (line_of (codes "log-file") cfg.log_file
                                        ++ line_of (codes "color-logs")
                                            (format_bool cfg.color_logs))))))))))

-- Whether `Validate` gives no error.
unfoldable pub is_valid : Config → Bool
is_valid cfg =
    if is_blank cfg.server_name
    then false
    else if ltb_ℤ cfg.port (pos 1) || ltb_ℤ (pos 65535) cfg.port
    then false
    else if ltb_ℤ cfg.max_players (pos 1)
    then false
    else if ltb_ℤ cfg.view_distance (pos 2)
    then false
    else if is_blank cfg.game_mode
    then false
    else true

abbrev pub set_if : {A : Type 0} → Option A → (A → Config) → Option Config
set_if none f = none
set_if (some a) f = some (f a)

-- `none` is the error of an unknown key, or of a value that is none of its kind.
unfoldable pub apply : Text → Text → Config → Option Config
apply key value cfg =
    if text_eqb key (codes "server-name")
    then some (record cfg { server_name = value })
    else if text_eqb key (codes "server-address")
    then some (record cfg { address = value })
    else if text_eqb key (codes "server-port")
    then set_if (atoi value) (λ n. record cfg { port = n })
    else if text_eqb key (codes "max-players")
    then set_if (atoi value) (λ n. record cfg { max_players = n })
    else if text_eqb key (codes "view-distance")
    then set_if (atoi value) (λ n. record cfg { view_distance = n })
    else if text_eqb key (codes "online-mode")
    then set_if (parse_bool value) (λ b. record cfg { online_mode = b })
    else if text_eqb key (codes "gamemode")
    then some (record cfg { game_mode = value })
    else if text_eqb key (codes "log-level")
    then some (record cfg { log_level = value })
    else if text_eqb key (codes "log-file")
    then some (record cfg { log_file = value })
    else if text_eqb key (codes "color-logs")
    then set_if (parse_bool value) (λ b. record cfg { color_logs = b })
    else none

-- `strings.Cut(line, "=")`
abbrev pub put_before : ℕ → Option (Text × Text) → Option (Text × Text)
put_before r none = none
put_before r (some parts) = some (r ∷ parts.0, parts.1)

unfoldable pub cut_equals : Text → Option (Text × Text)
cut_equals [] = none
cut_equals (r ∷ rs) =
    let rest = cut_equals rs in if r == b'=' then some ([], rs) else put_before r rest

abbrev pub is_comment : Text → Bool
is_comment [] = true
is_comment (r ∷ rs) = r == b'#'

abbrev pub apply_parts : Option (Text × Text) → Config → Option Config
apply_parts none cfg = none
apply_parts (some parts) cfg = apply (trim_space parts.0) (trim_space parts.1) cfg

-- A line without the white space around it, unless it is empty or a comment.
unfoldable pub apply_line : Text → Config → Option Config
apply_line given cfg =
    let line = trim_space given in
    if is_comment line then some cfg else apply_parts (cut_equals line) cfg

unfoldable pub apply_lines : List Text → Config → Option Config
apply_lines [] cfg = some cfg
apply_lines (line ∷ lines) cfg = elim (apply_line line cfg) [
  | none ↦ none
  | some cfg' ↦ apply_lines lines cfg'
]

abbrev pub validated : Option Config → Option Config
validated none = none
validated (some cfg) = if is_valid cfg then some cfg else none

abbrev pub apply_scanned : Option (List Text) → Option Config
apply_scanned none = none
apply_scanned (some lines) = validated (apply_lines lines default_config)

unfoldable pub load_text : Text → Option Config
load_text content = apply_scanned (scan_lines content)

-- What `Load` finds at its path: `unreadable` stands for every error of MkdirAll, Stat and Open.
pub data ConfigFile : Type 0 where
  missing : (writable : Bool) → ConfigFile
  unreadable : ConfigFile
  content : Text → ConfigFile

-- The configuration, and what was written to the path.
unfoldable pub load : ConfigFile → Option Config × Option Text
load (missing true) = (some default_config, some (marshal_properties default_config))
load (missing false) = (none, none)
load unreadable = (none, none)
load (content t) = (load_text t, none)
