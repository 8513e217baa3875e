-- ===== src/Config/Reading.antt =====
-- How each line of a configuration file is read (internal/config/config.go).
use mathlib.Core.List.{append_assoc}
use open_ai_mc_be_server.Config.Decimals.{
  parse_bool-format_bool, IsPlain-itoa, IsPlain-format_bool, atoi-itoa,
}
use open_ai_mc_be_server.Prelude.{
  ◌∙◌, ap, ℕ, ◌≤◌, ◌^◌, ◌≡◌, refl, Bool, true, List, [], ◌∷◌, ◌++◌, Option, none, some, ltb, arith,
}
use open_ai_mc_be_server.Prelude.Int.{pos}
use open_ai_mc_be_server.Prelude.Strings.{codes}
use open_ai_mc_be_server.Command.Args.{Text}
use open_ai_mc_be_server.Config.Strings.{
  trim_space, is_space, trim_left, trim_right, utf8_length, scan_lines, line_then,
}
use open_ai_mc_be_server.Config.Numbers.{itoa, format_bool}
use open_ai_mc_be_server.Config.Properties.{
  apply_line, apply_scanned, Config, default_config, load_text, apply, apply_lines, validated,
  line_of, heading,
}
use open_ai_mc_be_server.Config.Lines.{
  scan_lines-line, IsPlain, is_key, entry, scan_lines-entry, apply_line-entry,
}

abbrev pub applied : Option (List Text) → Config → Option Config
applied none cfg = none
applied (some lines) cfg = apply_lines lines cfg

pub load_text-applied : (t : Text) → load_text t ≡ validated (applied (scan_lines t) default_config)
unfolding load_text
load_text-applied t = lem (scan_lines t)
  where
    lem : (o : Option (List Text)) → apply_scanned o ≡ validated (applied o default_config)
    lem none = refl
    lem (some lines) = refl

apply_lines-cons :
    (line : Text) (lines : List Text) (cfg cfg' : Config)
    → apply_line line cfg ≡ some cfg'
    → apply_lines (line ∷ lines) cfg ≡ apply_lines lines cfg'
unfolding apply_lines
apply_lines-cons line lines cfg cfg' h = rw (h, apply_lines) refl

line_of-append :
    (key value rest : Text) → line_of key value ++ rest ≡ key ++ b'=' ∷ (value ++ b'\n' ∷ rest)
line_of-append [] value rest = ap (λ t. b'=' ∷ t) (append_assoc value (b'\n' ∷ []) rest)
line_of-append (r ∷ key) value rest = ap (λ t. r ∷ t) (line_of-append key value rest)

applied-line_then :
    (line : Text) (o : Option (List Text)) (cfg cfg' : Config)
    → apply_line line cfg ≡ some cfg'
    → applied (line_then true line o) cfg ≡ applied o cfg'
applied-line_then line none cfg cfg' h = refl
applied-line_then line (some lines) cfg cfg' h = apply_lines-cons line lines cfg cfg' h

abbrev pub read : Text → Config → Option Config
read t cfg = applied (scan_lines t) cfg

-- The line of a key is read, and the rest is read into the configuration it gives.
read-entry :
    (key value rest : Text) (cfg cfg' : Config)
    → is_key key ≡ true
    → utf8_length key ≤ 14
    → IsPlain value
    → apply key value cfg ≡ some cfg'
    → read (line_of key value ++ rest) cfg ≡ read rest cfg'
read-entry key value rest cfg cfg' k n v h =
    ap (λ t. read t cfg) (line_of-append key value rest)
    ∙ ap (λ o. applied o cfg) (scan_lines-entry key value rest k n v)
    ∙ applied-line_then (entry key value) (scan_lines rest) cfg cfg'
        (apply_line-entry key value cfg k v ∙ h)

-- The heading is a comment.
pub read-heading :
    (rest : Text) (cfg : Config) → read ((heading ++ b'\n' ∷ []) ++ rest) cfg ≡ read rest cfg
unfolding apply_line trim_space trim_left trim_right is_space
read-heading rest cfg =
    ap (λ o. applied o cfg) (scan_lines-line heading rest refl (omega arith) refl)
    ∙ applied-line_then heading (scan_lines rest) cfg cfg refl

pub read-server_name :
    (value rest : Text) (cfg : Config)
    → IsPlain value
    → read (line_of (codes "server-name") value ++ rest) cfg
      ≡ read rest (record cfg { server_name = value })
unfolding is_space apply
read-server_name value rest cfg p =
    read-entry (codes "server-name") value rest cfg _ refl (omega arith) p refl

pub read-address :
    (value rest : Text) (cfg : Config)
    → IsPlain value
    → read (line_of (codes "server-address") value ++ rest) cfg
      ≡ read rest (record cfg { address = value })
unfolding is_space apply
read-address value rest cfg p =
    read-entry (codes "server-address") value rest cfg _ refl (omega arith) p refl

pub read-port :
    (n : ℕ) (rest : Text) (cfg : Config)
    → ltb n (2 ^ 63) ≡ true
    → read (line_of (codes "server-port") (itoa (pos n)) ++ rest) cfg
      ≡ read rest (record cfg { port = pos n })
unfolding is_space apply
read-port n rest cfg h =
    read-entry (codes "server-port") (itoa (pos n)) rest cfg _ refl (omega arith) (IsPlain-itoa n)
      (rw (atoi-itoa n h) refl)

pub read-max_players :
    (n : ℕ) (rest : Text) (cfg : Config)
    → ltb n (2 ^ 63) ≡ true
    → read (line_of (codes "max-players") (itoa (pos n)) ++ rest) cfg
      ≡ read rest (record cfg { max_players = pos n })
unfolding is_space apply
read-max_players n rest cfg h =
    read-entry (codes "max-players") (itoa (pos n)) rest cfg _ refl (omega arith) (IsPlain-itoa n)
      (rw (atoi-itoa n h) refl)

pub read-view_distance :
    (n : ℕ) (rest : Text) (cfg : Config)
    → ltb n (2 ^ 63) ≡ true
    → read (line_of (codes "view-distance") (itoa (pos n)) ++ rest) cfg
      ≡ read rest (record cfg { view_distance = pos n })
unfolding is_space apply
read-view_distance n rest cfg h =
    read-entry (codes "view-distance") (itoa (pos n)) rest cfg _ refl (omega arith) (IsPlain-itoa n)
      (rw (atoi-itoa n h) refl)

pub read-online_mode :
    (b : Bool) (rest : Text) (cfg : Config)
    → read (line_of (codes "online-mode") (format_bool b) ++ rest) cfg
      ≡ read rest (record cfg { online_mode = b })
unfolding is_space apply
read-online_mode b rest cfg =
    read-entry (codes "online-mode") (format_bool b) rest cfg _ refl (omega arith)
      (IsPlain-format_bool b) (rw (parse_bool-format_bool b) refl)

pub read-game_mode :
    (value rest : Text) (cfg : Config)
    → IsPlain value
    → read (line_of (codes "gamemode") value ++ rest) cfg
      ≡ read rest (record cfg { game_mode = value })
unfolding is_space apply
read-game_mode value rest cfg p =
    read-entry (codes "gamemode") value rest cfg _ refl (omega arith) p refl

pub read-log_level :
    (value rest : Text) (cfg : Config)
    → IsPlain value
    → read (line_of (codes "log-level") value ++ rest) cfg
      ≡ read rest (record cfg { log_level = value })
unfolding is_space apply
read-log_level value rest cfg p =
    read-entry (codes "log-level") value rest cfg _ refl (omega arith) p refl

pub read-log_file :
    (value rest : Text) (cfg : Config)
    → IsPlain value
    → read (line_of (codes "log-file") value ++ rest) cfg
      ≡ read rest (record cfg { log_file = value })
unfolding is_space apply
read-log_file value rest cfg p =
    read-entry (codes "log-file") value rest cfg _ refl (omega arith) p refl

pub read-color_logs :
    (b : Bool) (rest : Text) (cfg : Config)
    → read (line_of (codes "color-logs") (format_bool b) ++ rest) cfg
      ≡ read rest (record cfg { color_logs = b })
unfolding is_space apply
read-color_logs b rest cfg =
    read-entry (codes "color-logs") (format_bool b) rest cfg _ refl (omega arith)
      (IsPlain-format_bool b) (rw (parse_bool-format_bool b) refl)
