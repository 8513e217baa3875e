-- ===== src/Command/Registry.antt =====
-- The registry of commands (internal/command/command.go). The texts of errors are left out. `to_lower`,
-- `trim_space` and `sort_strings` are Go's `strings.ToLower`, `strings.TrimSpace` and `sort.Strings`.
use open_ai_mc_be_server.Prelude.{
  ℕ, Bool, true, false, ◌&&◌, ◌||◌, not, List, [], ◌∷◌, ◌++◌, Option, none, some, ◌==◌,
  if◌then◌else◌,
}
use open_ai_mc_be_server.Command.Args.{Text}

abbrev pub text_eqb : Text → Text → Bool
text_eqb [] [] = true
text_eqb [] (b ∷ bs) = false
text_eqb (a ∷ xs) [] = false
text_eqb (a ∷ xs) (b ∷ bs) = (a == b) && text_eqb xs bs

abbrev pub is_blank : Text → Bool
is_blank [] = true
is_blank (r ∷ rs) = false

-- A Go map with string keys.
abbrev pub TextMap : Type 0 → Type 0
TextMap V = List (Text × V)

module _ {V : Type 0} where
  unfoldable pub find : Text → TextMap V → Option V
  find k [] = none
  find k ((j, v) ∷ m) = if text_eqb k j then some v else find k m

  unfoldable pub put : Text → V → TextMap V → TextMap V
  put k v [] = (k, v) ∷ []
  put k v ((j, w) ∷ m) = if text_eqb k j then (k, v) ∷ m else (j, w) ∷ put k v m

  abbrev pub present : Option V → Bool
  present none = false
  present (some v) = true

  abbrev pub has : Text → TextMap V → Bool
  has k m = present (find k m)

-- `executor` names the function `Run`, if there is one.
pub record Command : Type 0 where
  pub name : Text
  pub usage : Text
  pub permission : Text
  pub aliases : List Text
  pub executor : Option ℕ

pub record Registry : Type 0 where
  pub commands : TextMap Command
  pub aliases : TextMap Text
  pub order : List Text

abbrev pub new_registry : Registry
new_registry = record { commands = []; aliases = []; order = [] }

abbrev pub slash : ℕ
slash = 47

abbrev pub trim_slash : Text → Text
trim_slash [] = []
trim_slash (r ∷ rs) = if r == slash then rs else r ∷ rs

-- What indexing a Go map with a missing key gives.
abbrev pub or_zero : Option Command → Command
or_zero none = record { name = []; usage = []; permission = []; aliases = []; executor = none }
or_zero (some cmd) = cmd

abbrev pub has_executor : Command → Bool
has_executor cmd = elim cmd.executor [ none ↦ false | some run ↦ true ]

module _ (to_lower trim_space : Text → Text) (sort_strings : List Text → List Text) where
  unfoldable pub normalise_name : Text → Text
  normalise_name name = to_lower (trim_space (trim_slash name))

  -- The first loop of `Register`: whether no alias names a command or is taken.
  unfoldable pub aliases_free : List Text → Registry → Bool
  aliases_free [] reg = true
  aliases_free (a ∷ rest) reg =
      let alias = normalise_name a in
      if is_blank alias
      then aliases_free rest reg
      else not (has alias reg.commands) && not (has alias reg.aliases) && aliases_free rest reg

  -- The second loop.
  unfoldable pub add_aliases : List Text → Text → TextMap Text → TextMap Text
  add_aliases [] name taken = taken
  add_aliases (a ∷ rest) name taken =
      let alias = normalise_name a in
      add_aliases rest name (if is_blank alias then taken else put alias name taken)

  -- The name is normalised and the usage filled in.
  abbrev pub prepared : Command → Command
  prepared cmd =
      let name = normalise_name cmd.name in
      record cmd { name = name; usage = if is_blank cmd.usage then slash ∷ name else cmd.usage }

  abbrev pub with_command : Command → Registry → Registry
  with_command cmd reg = record {
    commands = put cmd.name cmd reg.commands;
    aliases = add_aliases cmd.aliases cmd.name reg.aliases;
    order = sort_strings (reg.order ++ cmd.name ∷ []);
  }

  -- `none` is an error.
  unfoldable pub register : Command → Registry → Option Registry
  register given reg =
      let cmd = prepared given in
      if is_blank cmd.name || not (has_executor cmd)
      then none
      else if has cmd.name reg.commands || not (aliases_free cmd.aliases reg)
      then none
      else some (with_command cmd reg)

  abbrev pub canonical : Option Text → Text → Text
  canonical none name = name
  canonical (some other) name = other

  -- `Lookup` of a normalised name.
  abbrev pub lookup_name : Text → Registry → Option Command
  lookup_name name reg = find (canonical (find name reg.aliases) name) reg.commands

  unfoldable pub lookup_command : Text → Registry → Option Command
  lookup_command name reg = lookup_name (normalise_name name) reg

  -- `Visible`, for the sender whose permissions `allowed` tells.
  unfoldable pub visible_of : (Text → Bool) → List Text → Registry → List Command
  visible_of allowed [] reg = []
  visible_of allowed (name ∷ rest) reg =
      let others = visible_of allowed rest reg in
      let cmd = or_zero (find name reg.commands) in
      if allowed cmd.permission then cmd ∷ others else others

  unfoldable pub visible : (Text → Bool) → Registry → List Command
  visible allowed reg = visible_of allowed reg.order reg
