-- ===== src/Command/Dispatch.antt =====
-- The dispatch of a command line (internal/command/command.go, `ParseLine` and `Dispatch`). A
-- refusal stands for its text. A line is the list of its runes. What an executor does to the server is a function of its number.
use open_ai_mc_be_server.Prelude.{
  Bool-cases, inr, inl, Option-cases, ◌||◌, ◌⊎◌, some, ◌==◌, false, if◌then◌else◌, true, Option,
  Bool, ℕ, List, ◌≡◌, refl, [], ◌∷◌, none,
}
use open_ai_mc_be_server.Command.Args.{Text, split_args, space, tab}
use open_ai_mc_be_server.Command.Runes.{ranged}
use open_ai_mc_be_server.Command.Registry.{
  Registry, Command, is_blank, trim_slash, normalise_name, lookup_command,
}

pub record Invocation : Type 0 where
  pub label : Text
  pub args : List Text
  pub raw_args : Text

pub record Result : Type 0 where
  pub success : Bool
  pub messages : List Text

pub data Reply : Type 0 where
  bad_arguments : Reply
  no_command_entered : Reply
  unknown_command : Reply
  no_permission : Reply
  panics : Reply
  finished : Result → Reply

-- `Command executed.` and `Command failed.`
abbrev pub command_executed : Text
command_executed =
    67 ∷ 111 ∷ 109 ∷ 109 ∷ 97 ∷ 110 ∷ 100 ∷ 32 ∷ 101 ∷ 120 ∷ 101 ∷ 99 ∷ 117 ∷ 116 ∷ 101 ∷ 100 ∷ 46
    ∷ []

abbrev pub command_failed : Text
command_failed =
    67 ∷ 111 ∷ 109 ∷ 109 ∷ 97 ∷ 110 ∷ 100 ∷ 32 ∷ 102 ∷ 97 ∷ 105 ∷ 108 ∷ 101 ∷ 100 ∷ 46 ∷ []

abbrev pub messages_or : Bool → List Text → List Text
messages_or success [] = (if success then command_executed else command_failed) ∷ []
messages_or success (m ∷ messages) = m ∷ messages

abbrev pub with_message : Result → Result
with_message result = record result { messages = messages_or result.success result.messages }

-- What stands before the first space or tab, and the rest from there on.
unfoldable pub label_end : Text → Text × Text
label_end [] = ([], [])
label_end (r ∷ rs) =
    let (before, after) = label_end rs in
    if r == space || r == tab then ([], r ∷ rs) else (r ∷ before, after)

module _ (to_lower trim_space : Text → Text) (sort_strings : List Text → List Text) where
  abbrev pub with_args : Text → Text → Option (List Text) → Option Invocation
  with_args label raw none = none
  with_args label raw (some args) = some (record { label = label; args = args; raw_args = raw })

  -- `none` is the error of a quote that is not closed.
  unfoldable pub parse_line : Text → Option Invocation
  parse_line given =
      let line = trim_space (trim_slash (trim_space given)) in
      let (name, after) = label_end line in
      let raw = trim_space after in
      if is_blank line
      then some (record { label = []; args = []; raw_args = [] })
      else with_args (normalise_name to_lower trim_space sort_strings name) raw
          (split_args (ranged raw))

  abbrev pub compact_messages : List Text → List Text
  compact_messages [] = []
  compact_messages (m ∷ messages) =
      let message = trim_space m in
      let rest = compact_messages messages in if is_blank message then rest else message ∷ rest

  abbrev pub success_of : List Text → Result
  success_of messages = record { success = true; messages = compact_messages messages }

  abbrev pub failure_of : List Text → Result
  failure_of messages = record { success = false; messages = compact_messages messages }

  module _ {S : Type 0} (run : ℕ → Invocation → S → Result × S) (reg : Registry)
      (allowed : Text → Bool) where
    abbrev pub executed : Option ℕ → Invocation → S → Reply × S
    executed none inv s = (panics, s)
    executed (some executor) inv s =
        let (result, s') = run executor inv s in (finished (with_message result), s')

    abbrev pub run_found : Option Command → Invocation → S → Reply × S
    run_found none inv s = (unknown_command, s)
    run_found (some cmd) inv s =
        let done = executed cmd.executor inv s in
        if allowed cmd.permission then done else (no_permission, s)

    abbrev pub invoke : Option Invocation → S → Reply × S
    invoke none s = (bad_arguments, s)
    invoke (some inv) s =
        if is_blank inv.label
        then (no_command_entered, s)
        else run_found (lookup_command to_lower trim_space sort_strings inv.label reg) inv s

    unfoldable pub dispatch : Text → S → Reply × S
    dispatch line s = invoke (parse_line line) s

    -- A command that may have been run.
    pub record Ran (line : Text) (s : S) (end : Reply × S) : Type 0 where
      pub inv : Invocation
      pub cmd : Command
      pub executor : ℕ
      pub parsed : parse_line line ≡ some inv
      pub found : lookup_command to_lower trim_space sort_strings inv.label reg ≡ some cmd
      pub permitted : allowed cmd.permission ≡ true
      pub runs : cmd.executor ≡ some executor
      pub ended : end ≡ (finished (with_message (run executor inv s).0), (run executor inv s).1)

    -- `Dispatch` leaves the server as it was, or it ran the executor of the command that
    -- `Lookup` gives for the label of the line, once and with the parsed arguments, for a
    -- sender who has the permission of that command.
    pub dispatch-Ran :
        (line : Text) (s : S) → ((dispatch line s).1 ≡ s) ⊎ Ran line s (dispatch line s)
    unfolding dispatch
    dispatch-Ran line s = elim (Option-cases (parse_line line)) [
      | inl e ↦ rw e (inl refl)
      | inr (inv, e) ↦ elim (Bool-cases (is_blank inv.label)) [
        | inl b ↦ rw (e, b) (inl refl)
        | inr b ↦
            elim (Option-cases (lookup_command to_lower trim_space sort_strings inv.label reg)) [
              | inl f ↦ rw (e, b, f) (inl refl)
              | inr (cmd, f) ↦ elim (Bool-cases (allowed cmd.permission)) [
                | inr n ↦ rw (e, b, f, n) (inl refl)
                | inl p ↦ elim (Option-cases cmd.executor) [
                  | inl g ↦ rw (e, b, f, p, g) (inl refl)
                  | inr (executor, g) ↦
                      let ended : dispatch line s ≡ (
                        finished (with_message (run executor inv s).0),
                        (run executor inv s).1,
                      ) =
                        rw (dispatch, e, b, f, p, g) refl in
                      inr (record {
                        inv = inv;
                        cmd = cmd;
                        executor = executor;
                        parsed = e;
                        found = f;
                        permitted = p;
                        runs = g;
                        ended = ended;
                      })
                ]
              ]
            ]
      ]
    ]
