-- ===== src/Command/Defaults.antt =====
-- The built-in commands (internal/server/mcpe_commands.go). What they answer is a case of Answered, and
-- `text_of` its text. What `op` and `deop` send to the player whom they name is left out. The players
-- are listed in the order in which Go ranges over the map.
use open_ai_mc_be_server.Prelude.{
  ℕ, List, [], ◌∷◌, ◌++◌, Bool, true, false, Option, none, some, ◌==◌, if◌then◌else◌,
}
use open_ai_mc_be_server.Prelude.Dict.{Dict}
use open_ai_mc_be_server.Command.Args.{Text}
use open_ai_mc_be_server.Command.Registry.{
  Registry, Command, is_blank, text_eqb, new_registry, register,
}
use open_ai_mc_be_server.Command.Permissions.{
  set_operator, permission_command_help, permission_command_list,
}
use open_ai_mc_be_server.Command.Dispatch.{Invocation, Result, success_of, failure_of}

-- `bds.command.say`
abbrev pub permission_command_say : Text
permission_command_say =
    98 ∷ 100 ∷ 115 ∷ 46 ∷ 99 ∷ 111 ∷ 109 ∷ 109 ∷ 97 ∷ 110 ∷ 100 ∷ 46 ∷ 115 ∷ 97 ∷ 121 ∷ []

-- `bds.command.stop`
abbrev pub permission_command_stop : Text
permission_command_stop =
    98 ∷ 100 ∷ 115 ∷ 46 ∷ 99 ∷ 111 ∷ 109 ∷ 109 ∷ 97 ∷ 110 ∷ 100 ∷ 46 ∷ 115 ∷ 116 ∷ 111 ∷ 112 ∷ []

-- `bds.command.op`
abbrev pub permission_command_op : Text
permission_command_op =
    98 ∷ 100 ∷ 115 ∷ 46 ∷ 99 ∷ 111 ∷ 109 ∷ 109 ∷ 97 ∷ 110 ∷ 100 ∷ 46 ∷ 111 ∷ 112 ∷ []

-- `bds.command.deop`
abbrev pub permission_command_deop : Text
permission_command_deop =
    98 ∷ 100 ∷ 115 ∷ 46 ∷ 99 ∷ 111 ∷ 109 ∷ 109 ∷ 97 ∷ 110 ∷ 100 ∷ 46 ∷ 100 ∷ 101 ∷ 111 ∷ 112 ∷ []

pub record OnlinePlayer : Type 0 where
  pub display_name : Text
  pub id : ℕ

-- What the commands read and change.
pub record Host : Type 0 where
  pub online : List OnlinePlayer
  pub operators : Dict Bool
  pub announced : List Text
  pub has_shutdown : Bool
  pub stopping : Bool

pub data Answered : Type 0 where
  available_commands : Answered
  players_online : Answered
  usage : Answered
  broadcast_failed : Answered
  message_sent : Answered
  shutdown_not_wired : Answered
  stopping_the_server : Answered
  server_is_stopping : Answered
  player_not_found : Text → Answered
  operator_changed : Bool → Text → Answered

-- `Run` of the commands, by number.
abbrev pub run_help : ℕ
run_help = 0

abbrev pub run_list : ℕ
run_list = 1

abbrev pub run_say : ℕ
run_say = 2

abbrev pub run_stop : ℕ
run_stop = 3

abbrev pub run_op : ℕ
run_op = 4

abbrev pub run_deop : ℕ
run_deop = 5

abbrev pub first_arg : List Text → Text
first_arg [] = []
first_arg (a ∷ args) = a

-- `broadcasts`: whether a text reaches all players.
module _ (to_lower trim_space : Text → Text) (sort_strings : List Text → List Text)
    (text_of : Answered → Text) (broadcasts : Text → Bool) where
  abbrev pub succeeds : Answered → Host → Result × Host
  succeeds answered host =
      (success_of to_lower trim_space sort_strings (text_of answered ∷ []), host)

  abbrev pub fails : Answered → Host → Result × Host
  fails answered host = (failure_of to_lower trim_space sort_strings (text_of answered ∷ []), host)

  abbrev pub named_player : Text → List OnlinePlayer → Option OnlinePlayer
  named_player name [] = none
  named_player name (p ∷ players) =
      if text_eqb (to_lower p.display_name) name then some p else named_player name players

  unfoldable pub player_by_name : Text → Host → Option OnlinePlayer
  player_by_name name host = named_player (to_lower (trim_space name)) host.online

  abbrev pub announce : Text → Host → Host
  announce text host = record host { announced = host.announced ++ text ∷ [] }

  abbrev pub say : Invocation → Host → Result × Host
  say inv host =
      let message = trim_space inv.raw_args in
      if is_blank message
      then fails usage host
      else if broadcasts message
      then succeeds message_sent (announce message host)
      else fails broadcast_failed (announce message host)

  abbrev pub stop_server : Host → Result × Host
  stop_server host =
      let told = announce (text_of server_is_stopping) host in
      if host.has_shutdown
      then succeeds stopping_the_server (record told { stopping = true })
      else fails shutdown_not_wired told

  abbrev pub change_operator : Bool → Text → Option OnlinePlayer → Host → Result × Host
  change_operator value name none host = fails (player_not_found name) host
  change_operator value name (some p) host =
      succeeds (operator_changed value p.display_name)
        (record host { operators = set_operator p.id value host.operators })

  abbrev pub operate : Bool → Invocation → Host → Result × Host
  operate value inv host =
      let name = first_arg inv.args in
      if is_blank name
      then fails usage host
      else change_operator value name (player_by_name name host) host

  unfoldable pub run_command : ℕ → Invocation → Host → Result × Host
  run_command executor inv host =
      if executor == run_help
      then succeeds available_commands host
      else if executor == run_list
      then succeeds players_online host
      else if executor == run_say
      then say inv host
      else if executor == run_stop
      then stop_server host
      else if executor == run_op
      then operate true inv host
      else operate false inv host

  -- The name, the permission and the executor of a command; the usage does not matter here.
  abbrev pub built_in : Text → Text → ℕ → Command
  built_in name permission run = record {
    name = name;
    usage = [];
    permission = permission;
    aliases = [];
    executor = some run;
  }

  -- `none`: a registration panics.
  abbrev pub register_all : List Command → Registry → Option Registry
  register_all [] reg = some reg
  register_all (cmd ∷ commands) reg = elim (register to_lower trim_space sort_strings cmd reg) [
    | none ↦ none
    | some reg' ↦ register_all commands reg'
  ]

  abbrev pub default_list : List Command
  default_list =
      built_in (104 ∷ 101 ∷ 108 ∷ 112 ∷ []) permission_command_help run_help
      ∷ built_in (108 ∷ 105 ∷ 115 ∷ 116 ∷ []) permission_command_list run_list
      ∷ built_in (115 ∷ 97 ∷ 121 ∷ []) permission_command_say run_say
      ∷ built_in (115 ∷ 116 ∷ 111 ∷ 112 ∷ []) permission_command_stop run_stop
      ∷ built_in (111 ∷ 112 ∷ []) permission_command_op run_op
      ∷ built_in (100 ∷ 101 ∷ 111 ∷ 112 ∷ []) permission_command_deop run_deop
      ∷ []

  unfoldable pub new_default_commands : Option Registry
  new_default_commands = register_all default_list new_registry
