-- ===== src/Command/Permissions.antt =====
-- What players may do (internal/server/mcpe_permissions.go). A UUID is a number.
use open_ai_mc_be_server.Prelude.{
  ℕ, ◌≡◌, Bool, true, false, ◌||◌, [], ◌∷◌, Option, some, none, ◌==◌, if◌then◌else◌, arith, inl,
  inr, refl, Bool-cases,
}
use open_ai_mc_be_server.Prelude.Dict.{Dict, lookup, insert, erase, lookup-insert, lookup-erase}
use open_ai_mc_be_server.Command.Args.{Text}
use open_ai_mc_be_server.Command.Registry.{text_eqb, is_blank}

-- `bds.command.help`
abbrev pub permission_command_help : Text
permission_command_help =
    98 ∷ 100 ∷ 115 ∷ 46 ∷ 99 ∷ 111 ∷ 109 ∷ 109 ∷ 97 ∷ 110 ∷ 100 ∷ 46 ∷ 104 ∷ 101 ∷ 108 ∷ 112 ∷ []

-- `bds.command.list`
abbrev pub permission_command_list : Text
permission_command_list =
    98 ∷ 100 ∷ 115 ∷ 46 ∷ 99 ∷ 111 ∷ 109 ∷ 109 ∷ 97 ∷ 110 ∷ 100 ∷ 46 ∷ 108 ∷ 105 ∷ 115 ∷ 116 ∷ []

unfoldable pub default_player_permission : Text → Bool
default_player_permission permission =
    text_eqb permission permission_command_help || text_eqb permission permission_command_list

-- What the map of operators gives, false for a missing key.
abbrev pub or_false : Option Bool → Bool
or_false none = false
or_false (some b) = b

unfoldable pub is_operator : ℕ → Dict Bool → Bool
is_operator id operators = or_false (lookup id operators)

unfoldable pub set_operator : ℕ → Bool → Dict Bool → Dict Bool
set_operator id value operators = if value then insert id true operators else erase id operators

-- `none` is a missing client.
abbrev pub client_is_operator : Option ℕ → Dict Bool → Bool
client_is_operator none operators = false
client_is_operator (some id) operators = is_operator id operators

unfoldable pub has_player_permission : Option ℕ → Text → Dict Bool → Bool
has_player_permission client permission operators =
    if is_blank permission
    then true
    else if default_player_permission permission
    then true
    else client_is_operator client operators

is_operator-set_operator :
    (id other : ℕ) (value : Bool) (operators : Dict Bool)
    → is_operator other (set_operator id value operators)
      ≡ (if id == other then value else is_operator other operators)
unfolding is_operator set_operator
is_operator-set_operator id other true operators = elim (Bool-cases (id == other)) [
  | inl e ↦ rw (lookup-insert, e) refl
  | inr e ↦ rw (lookup-insert, e) refl
]
is_operator-set_operator id other false operators = elim (Bool-cases (id == other)) [
  | inl e ↦ rw (lookup-erase, e) refl
  | inr e ↦ rw (lookup-erase, e) refl
]

-- After `setOperator` for one player, the empty permission and the default ones are granted to
-- every player, that player has every other permission exactly if it was made an operator, and
-- what other players may do is as before.
pub has_player_permission-set_operator :
    (id other : ℕ) (value : Bool) (permission : Text) (operators : Dict Bool)
    → has_player_permission (some other) permission (set_operator id value operators) ≡ (
        if is_blank permission || default_player_permission permission
        then true
        else if id == other
        then value
        else has_player_permission (some other) permission operators)
unfolding has_player_permission
has_player_permission-set_operator id other value permission operators =
    ground (arith, is_operator-set_operator id other value operators)
