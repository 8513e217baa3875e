-- ===== src/Network/Motd.antt =====
-- What the server answers to a ping (internal/network/raknet/motd.go): nine fields, each with a
-- semicolon after it, of which those with free text are escaped.
use open_ai_mc_be_server.Prelude.{◌&&◌, List, [], ◌∷◌, ◌++◌, ◌==◌, if◌then◌else◌}
use open_ai_mc_be_server.Prelude.Int.{ℤ}
use open_ai_mc_be_server.Prelude.Strings.{codes}
use open_ai_mc_be_server.Command.Args.{Text}
use open_ai_mc_be_server.Command.Registry.{is_blank}
use open_ai_mc_be_server.Config.Numbers.{itoa}

pub record PongInfo : Type 0 where
  pub motd : Text
  pub protocol_version : ℤ
  pub minecraft_version : Text
  pub online_players : ℤ
  pub max_players : ℤ
  pub server_id : ℤ
  pub server_name : Text
  pub game_mode : Text

-- `strings.ReplaceAll(value, ";", `\;`)`
unfoldable pub replace_all : Text → Text
replace_all [] = []
replace_all (r ∷ rs) =
    let rest = replace_all rs in if r == b';' then b'\\' ∷ b';' ∷ rest else r ∷ rest

-- `strings.TrimRight(value, `\`)`
unfoldable pub trim_backslashes : Text → Text
trim_backslashes [] = []
trim_backslashes (r ∷ rs) =
    let rest = trim_backslashes rs in if (r == b'\\') && is_blank rest then [] else r ∷ rest

unfoldable pub escape_pong_field : Text → Text
escape_pong_field value = trim_backslashes (replace_all value)

abbrev pub fields_of : PongInfo → List Text
fields_of info =
    codes "MCPE"
    ∷ escape_pong_field info.motd
    ∷ itoa info.protocol_version
    ∷ info.minecraft_version
    ∷ itoa info.online_players
    ∷ itoa info.max_players
    ∷ itoa info.server_id
    ∷ escape_pong_field info.server_name
    ∷ escape_pong_field info.game_mode
    ∷ []

-- `strings.Join(fields, ";") + ";"`
unfoldable pub terminated : List Text → Text
terminated [] = []
terminated (field ∷ fields) = field ++ b';' ∷ terminated fields

unfoldable pub pong_data : PongInfo → Text
pong_data info = terminated (fields_of info)
