-- ===== src/Command/Guarded.antt =====
-- What the built-in commands let a player do who is no operator (internal/server/mcpe_commands.go).
use open_ai_mc_be_server.Prelude.{
  ℕ, ◌<◌, ◌≤◌, ◌≡◌, refl, sym, ap, ◌∙◌, List, [], ◌∷◌, Bool, false, none, some, Bool-cases,
  Option-cases, inl, inr, arith, zero, suc, ltb, ltb→lt, subst, true≢false,
}
use open_ai_mc_be_server.Command.Args.{Text}
use open_ai_mc_be_server.Command.Registry.{
  Registry, Command, TextMap, find, put, is_blank, text_eqb, new_registry, register, prepared,
  lookup_command,
}
use open_ai_mc_be_server.Command.Permissions.{
  default_player_permission, is_operator, has_player_permission,
}
use open_ai_mc_be_server.Command.Lookup.{register-accepts, find-put}
use open_ai_mc_be_server.Command.Dispatch.{Invocation, dispatch, dispatch-Ran}
use open_ai_mc_be_server.Command.Defaults.{
  Host, Answered, run_command, new_default_commands, register_all, default_list,
}

-- A command that changes something has a permission that not every player has.
abbrev IsGuarded : Command → Type 0
IsGuarded cmd =
    (run : ℕ)
    → cmd.executor ≡ some run
    → 2 ≤ run
    → (is_blank cmd.permission ≡ false) × (default_player_permission cmd.permission ≡ false)

reads_only : (n : ℕ) (P : Type 0) → n < 2 → (run : ℕ) → some n ≡ some run → 2 ≤ run → P
reads_only n P lt run f le = let same : n ≡ run = cc in absurd (omega (arith, same, lt, le))

AllGuarded : TextMap Command → Type 0
AllGuarded commands = (k : Text) (cmd : Command) → find k commands ≡ some cmd → IsGuarded cmd

module _ (to_lower trim_space : Text → Text) (sort_strings : List Text → List Text) where
  register-AllGuarded :
      (given : Command) (reg reg' : Registry)
      → IsGuarded given
      → AllGuarded reg.commands
      → register to_lower trim_space sort_strings given reg ≡ some reg'
      → AllGuarded reg'.commands
  unfolding AllGuarded
  register-AllGuarded given reg reg' g all e k cmd f =
      let new = prepared to_lower trim_space sort_strings given in
      let (fresh, free, same) =
        register-accepts to_lower trim_space sort_strings given reg reg' e in
      let now : find k (put new.name new reg.commands) ≡ some cmd =
        ap (λ (r : Registry). find k r.commands) (sym same) ∙ f in
      let read = find-put new.name k new reg.commands in
      elim (Bool-cases (text_eqb k new.name)) [
        | inl hit ↦
            let put_there : some new ≡ some cmd = sym (rw hit at read) ∙ now in
            let it : new ≡ cmd = cc in subst IsGuarded it g
        | inr miss ↦ all k cmd (sym (rw miss at read) ∙ now)
      ]

  -- Every command of a list.
  abbrev EachGuarded : List Command → Type 0
  EachGuarded [] = Unit {0}
  EachGuarded (cmd ∷ commands) = IsGuarded cmd × EachGuarded commands

  module _ (text_of : Answered → Text) (broadcasts : Text → Bool) where
    run_command-reads :
        (run : ℕ) (inv : Invocation) (host : Host)
        → run < 2
        → (run_command to_lower trim_space sort_strings text_of broadcasts run inv host).1 ≡ host
    unfolding run_command
    run_command-reads zero inv host lt = refl
    run_command-reads (suc zero) inv host lt = refl
    run_command-reads (suc (suc run)) inv host lt = absurd (omega (arith, lt))

    register_all-AllGuarded :
        (commands : List Command) (reg reg' : Registry)
        → EachGuarded commands
        → AllGuarded reg.commands
        → register_all to_lower trim_space sort_strings text_of broadcasts commands reg ≡ some reg'
        → AllGuarded reg'.commands
    register_all-AllGuarded [] reg reg' each all e = let same : reg ≡ reg' = cc in rw (← same) all
    register_all-AllGuarded (cmd ∷ commands) reg reg' each all e =
        elim (Option-cases (register to_lower trim_space sort_strings cmd reg)) [
          | inl f ↦ let failed : none ≡ some reg' = rw (register_all, f) at e in cc
          | inr (next, f) ↦
              register_all-AllGuarded commands next reg' each.1
                (register-AllGuarded cmd reg next each.0 all f) (rw (register_all, f) at e)
        ]

    new_default_commands-AllGuarded :
        (reg : Registry)
        → new_default_commands to_lower trim_space sort_strings text_of broadcasts ≡ some reg
        → AllGuarded reg.commands
    unfolding new_default_commands AllGuarded default_player_permission find
    new_default_commands-AllGuarded reg e =
        register_all-AllGuarded (default_list to_lower trim_space sort_strings text_of broadcasts)
          new_registry reg
          (
            reads_only 0 _ (omega arith),
            (
              reads_only 1 _ (omega arith),
              (
                λ run f le. (refl, refl),
                (
                  λ run f le. (refl, refl),
                  (λ run f le. (refl, refl), (λ run f le. (refl, refl), tt)),
                ),
              ),
            ),
          )
          (λ k cmd f. cc) e

    -- On a server whose built-in commands were registered, no line that a player types who
    -- is no operator changes the operators, announces anything or stops the server, whatever
    -- the line is.
    pub dispatch-guards :
        (line : Text) (id : ℕ) (host : Host) (reg : Registry)
        → new_default_commands to_lower trim_space sort_strings text_of broadcasts ≡ some reg
        → is_operator id host.operators ≡ false
        → (dispatch to_lower trim_space sort_strings
            (run_command to_lower trim_space sort_strings text_of broadcasts)
            reg
            (λ permission. has_player_permission (some id) permission host.operators)
            line
            host).1
          ≡ host
    unfolding has_player_permission AllGuarded lookup_command
    dispatch-guards line id host reg e no_operator =
        elim (dispatch-Ran to_lower trim_space sort_strings
          (run_command to_lower trim_space sort_strings text_of broadcasts) reg
          (λ permission. has_player_permission (some id) permission host.operators) line host) [
            | inl same ↦ same
            | inr ran ↦ elim (Bool-cases (ltb ran.executor 2)) [
              | inl reads ↦
                  ap (λ r. r.1) ran.ended
                  ∙ run_command-reads ran.executor ran.inv host (ltb→lt ran.executor 2 reads)
              | inr writes ↦
                  let changes : 2 ≤ ran.executor = ground (arith, writes) in
                  let guarded =
                    new_default_commands-AllGuarded reg e _ ran.cmd ran.found ran.executor ran.runs
                      changes in
                  let refused : has_player_permission (some id) ran.cmd.permission host.operators
                      ≡ false =
                    rw (guarded.0, guarded.1) no_operator in
                  absurd (true≢false (sym ran.permitted ∙ refused))
            ]
          ]
