-- ===== src/Tests/Commands.antt =====
-- A registry with one command that has an alias (internal/command/command.go).
use open_ai_mc_be_server.Command.Guarded.{dispatch-guards}
use open_ai_mc_be_server.Command.Defaults.{
  Host, default_list, new_default_commands, Answered, run_command,
}
use open_ai_mc_be_server.Command.Dispatch.{Invocation, Result, Ran, dispatch, dispatch-Ran}
use open_ai_mc_be_server.Command.Dispatch.{dispatch-Ran, Result, Ran, Invocation}
use open_ai_mc_be_server.Prelude.{◌+◌, ◌⊎◌, ℕ, ◌≡◌, refl, List, [], ◌∷◌, some}
use open_ai_mc_be_server.Command.Args.{Text}
use open_ai_mc_be_server.Command.Registry.{
  prepared, Command, Registry, find, put, normalise_name, aliases_free, add_aliases, new_registry,
  register, with_command, lookup_command,
}
use open_ai_mc_be_server.Prelude.{Bool, true, false, ◌||◌, ◌==◌, if◌then◌else◌}
use open_ai_mc_be_server.Prelude.Dict.{lookup, Dict}
use open_ai_mc_be_server.Command.Registry.{is_blank}
use open_ai_mc_be_server.Command.Permissions.{
  is_operator, default_player_permission, has_player_permission, set_operator,
  has_player_permission-set_operator,
}
use open_ai_mc_be_server.Command.Lookup.{lookup_command-register}

-- The texts of the example are in lower case, without spaces, and their order does not matter.
abbrev as_is : Text → Text
as_is t = t

abbrev unsorted : List Text → List Text
unsorted names = names

-- `stop`, with the alias `s`.
abbrev stop : Command
stop = record {
  name = 115 ∷ 116 ∷ 111 ∷ 112 ∷ [];
  usage = 47 ∷ 115 ∷ [];
  permission = [];
  aliases = (115 ∷ []) ∷ [];
  executor = some 1;
}

abbrev with_stop : Registry
with_stop = with_command as_is as_is unsorted stop new_registry

-- `s`, a command with the name of the alias.
abbrev save : Command
save = record {
  name = 115 ∷ [];
  usage = 47 ∷ 115 ∷ [];
  permission = [];
  aliases = [];
  executor = some 2;
}

save_accepted :
    register as_is as_is unsorted save with_stop
    ≡ some (with_command as_is as_is unsorted save with_stop)
unfolding register normalise_name aliases_free add_aliases find put
save_accepted = refl

s_stops : lookup_command as_is as_is unsorted (115 ∷ []) with_stop ≡ some stop
unfolding lookup_command normalise_name add_aliases find put
s_stops = refl

-- `s` still stands for `stop`, and nothing for `save`.
lookup_command-register_example :
    lookup_command as_is as_is unsorted
      (115 ∷ [])
      (with_command as_is as_is unsorted save with_stop)
    ≡ some stop
lookup_command-register_example =
    lookup_command-register as_is as_is unsorted save with_stop
      (with_command as_is as_is unsorted save with_stop) (115 ∷ []) save_accepted s_stops

-- Player 4 is an operator, and loses that.
abbrev operators : Dict Bool
operators = (4, true) ∷ (5, true) ∷ []

has_player_permission-set_operator_example :
    has_player_permission (some 5) (115 ∷ []) (set_operator 4 false operators) ≡ (
      if is_blank (115 ∷ []) || default_player_permission (115 ∷ [])
      then true
      else if 4 == 5
      then false
      else has_player_permission (some 5) (115 ∷ []) operators)
has_player_permission-set_operator_example =
    has_player_permission-set_operator 4 5 false (115 ∷ []) operators

-- An executor that counts, and a player who types `/s`.
abbrev counts : ℕ → Invocation → ℕ → Result × ℕ
counts executor inv n = (record { success = true; messages = [] }, n + executor)

abbrev everything : Text → Bool
everything permission = true

dispatch-Ran_example :
    ((dispatch as_is as_is unsorted counts with_stop everything (47 ∷ 115 ∷ []) 8).1 ≡ 8)
    ⊎ Ran as_is as_is unsorted counts with_stop everything
        (47 ∷ 115 ∷ [])
        8
        (dispatch as_is as_is unsorted counts with_stop everything (47 ∷ 115 ∷ []) 8)
dispatch-Ran_example =
    dispatch-Ran as_is as_is unsorted counts with_stop everything (47 ∷ 115 ∷ []) 8

abbrev plain_text : Answered → Text
plain_text answered = []

abbrev reaches_all : Text → Bool
reaches_all text = true

abbrev with_built_in : Command → Registry → Registry
with_built_in cmd reg = with_command as_is as_is unsorted (prepared as_is as_is unsorted cmd) reg

abbrev listed : List Command → Registry → Registry
listed [] reg = reg
listed (cmd ∷ commands) reg = listed commands (with_built_in cmd reg)

abbrev default_commands : Registry
default_commands = listed (default_list as_is as_is unsorted plain_text reaches_all) new_registry

default_commands_made :
    new_default_commands as_is as_is unsorted plain_text reaches_all ≡ some default_commands
unfolding new_default_commands register normalise_name aliases_free add_aliases find put
default_commands_made = refl

-- Player 5 is an operator, player 6 is not.
abbrev host : Host
host = record {
  online = record { display_name = 97 ∷ []; id = 6 } ∷ [];
  operators = (5, true) ∷ [];
  announced = [];
  has_shutdown = true;
  stopping = false;
}

no_operator : is_operator 6 host.operators ≡ false
unfolding is_operator lookup
no_operator = refl

-- Player 6 types `/op a`.
dispatch-guards_example :
    (dispatch as_is as_is unsorted
      (run_command as_is as_is unsorted plain_text reaches_all)
      default_commands
      (λ permission. has_player_permission (some 6) permission host.operators)
      (47 ∷ 111 ∷ 112 ∷ 32 ∷ 97 ∷ [])
      host).1
    ≡ host
dispatch-guards_example =
    dispatch-guards as_is as_is unsorted plain_text reaches_all (47 ∷ 111 ∷ 112 ∷ 32 ∷ 97 ∷ []) 6
      host default_commands default_commands_made no_operator
