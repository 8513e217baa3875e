-- ===== src/Command/Lookup.antt =====
-- What a registration does to the commands that names stand for (internal/command/command.go).
use open_ai_mc_be_server.Prelude.{
  true≢false, ◌≡◌, ◌⊎◌, inl, inr, refl, sym, ap, ◌∙◌, Bool, true, false, ◌&&◌, ◌||◌, not, List, [],
  ◌∷◌, none, some, ◌==◌, ==_iff, if◌then◌else◌, Bool-cases, Option-cases,
}
use open_ai_mc_be_server.Command.Args.{Text}
use open_ai_mc_be_server.Command.Registry.{
  text_eqb, is_blank, TextMap, find, put, has, present, Command, Registry, normalise_name,
  aliases_free, add_aliases, prepared, with_command, register, lookup_command,
}

text_eqb_eq : (a b : Text) → text_eqb a b ≡ true → a ≡ b
text_eqb_eq [] [] e = refl
text_eqb_eq [] (b ∷ bs) e = cc
text_eqb_eq (a ∷ xs) [] e = cc
text_eqb_eq (a ∷ xs) (b ∷ bs) e = elim (Bool-cases (a == b)) [
  | inl same ↦
      let rest : text_eqb xs bs ≡ true = rw same at e in
      rw ((==_iff a b).0 same, text_eqb_eq xs bs rest) refl
  | inr diff ↦ absurd (true≢false (sym (rw diff at e)))
]

pub text_eqb_self : (a : Text) → text_eqb a a ≡ true
text_eqb_self [] = refl
text_eqb_self (r ∷ rs) = rw ((==_iff r r).1 refl, text_eqb_self rs) refl

-- A text that is `i` is not `k`.
apart : (j k i : Text) → text_eqb j i ≡ true → text_eqb k i ≡ false → text_eqb j k ≡ false
apart j k i hit diff = elim (Bool-cases (text_eqb j k)) [
  | inl same ↦ absurd (
      true≢false (
        sym (text_eqb_self i)
        ∙ ap (λ t. text_eqb t i) (sym (text_eqb_eq j i hit) ∙ text_eqb_eq j k same)
        ∙ diff))
  | inr other ↦ other
]

if_same :
    {V : Type 0} (b : Bool) (x y z : V)
    → (if b then x else z) ≡ (if b then x else (if b then y else z))
if_same true x y z = refl
if_same false x y z = refl

module _ {V : Type 0} where
  pub find-put :
      (k j : Text) (v : V) (m : TextMap V)
      → find j (put k v m) ≡ (if text_eqb j k then some v else find j m)
  unfolding find put
  find-put k j v [] = refl
  find-put k j v ((i, w) ∷ m) = elim (Bool-cases (text_eqb k i)) [
    | inl same ↦
        rw same (rw (← text_eqb_eq k i same) (if_same (text_eqb j k) (some v) (some w) (find j m)))
    | inr diff ↦ rw diff (elim (Bool-cases (text_eqb j i)) [
      | inl hit ↦ rw hit (rw (apart j k i hit diff) refl)
      | inr miss ↦ rw miss (find-put k j v m)
    ])
  ]

accepted :
    (p q r : Bool) (w reg' : Registry)
    → (if p then none else if q || not r then none else some w) ≡ some reg'
    → (q ≡ false) × (r ≡ true) × (reg' ≡ w)
accepted true q r w reg' e = cc
accepted false true r w reg' e = cc
accepted false false false w reg' e = cc
accepted false false true w reg' e = let same : w ≡ reg' = cc in (refl, refl, sym same)

-- The text is a name of the registry, of a command or an alias.
abbrev Known : Text → Registry → Type 0
Known m reg = (has m reg.commands ≡ true) ⊎ (has m reg.aliases ≡ true)

all_free : (b c d : Bool) → (not b && not c && d) ≡ true → (b ≡ false) × (c ≡ false) × (d ≡ true)
all_free true c d e = cc
all_free false true d e = cc
all_free false false d e = (refl, refl, e)

Known-differs :
    (m alias : Text) (reg : Registry)
    → Known m reg
    → has alias reg.commands ≡ false
    → has alias reg.aliases ≡ false
    → text_eqb m alias ≡ false
Known-differs m alias reg k e f = elim (Bool-cases (text_eqb m alias)) [
  | inl same ↦
      let is_alias = text_eqb_eq m alias same in
      elim k [
        | inl h ↦ absurd (true≢false (sym h ∙ ap (λ t. has t reg.commands) is_alias ∙ e))
        | inr h ↦ absurd (true≢false (sym h ∙ ap (λ t. has t reg.aliases) is_alias ∙ f))
      ]
  | inr differs ↦ differs
]

-- A command stays when another name is put into the map.
find-put_kept :
    (name t : Text) (cmd : Command) {c : Command} (m : TextMap Command)
    → has name m ≡ false
    → find t m ≡ some c
    → find t (put name cmd m) ≡ some c
find-put_kept name t cmd m absent e = find-put name t cmd m ∙ elim (Bool-cases (text_eqb t name)) [
  | inl same ↦
      let found : has t m ≡ true = ap present e in
      absurd (true≢false (sym found ∙ ap (λ x. has x m) (text_eqb_eq t name same) ∙ absent))
  | inr differs ↦ rw differs e
]

module _ (to_lower trim_space : Text → Text) (sort_strings : List Text → List Text) where
  find-add_aliases :
      (more : List Text) (name m : Text) (reg : Registry) (taken : TextMap Text)
      → aliases_free to_lower trim_space sort_strings more reg ≡ true
      → Known m reg
      → find m (add_aliases to_lower trim_space sort_strings more name taken) ≡ find m taken
  unfolding aliases_free add_aliases
  find-add_aliases [] name m reg taken e k = refl
  find-add_aliases (a ∷ more) name m reg taken e k =
      let alias = normalise_name to_lower trim_space sort_strings a in
      elim (Bool-cases (is_blank alias)) [
        | inl blank ↦ rw blank (find-add_aliases more name m reg taken (rw blank at e) k)
        | inr named ↦
            let (fresh, untaken, rest) =
              all_free (has alias reg.commands) (has alias reg.aliases) _ (rw named at e) in
            rw named (
              find-add_aliases more name m reg (put alias name taken) rest k
              ∙ find-put alias m name taken
              ∙ rw (Known-differs m alias reg k fresh untaken) refl)
      ]

  pub register-accepts :
      (given : Command) (reg reg' : Registry)
      → register to_lower trim_space sort_strings given reg ≡ some reg'
      → let cmd = prepared to_lower trim_space sort_strings given in
        (has cmd.name reg.commands ≡ false)
        × (aliases_free to_lower trim_space sort_strings cmd.aliases reg ≡ true)
        × (reg' ≡ with_command to_lower trim_space sort_strings cmd reg)
  unfolding register
  register-accepts given reg reg' e = accepted _ _ _ _ reg' e

  -- A registration that succeeds takes no name away: a name or alias that `Lookup` found a
  -- command for before gives the same command after it, also if it is the name of the new
  -- command.
  pub lookup_command-register :
      (given : Command) (reg reg' : Registry) (name : Text) {c : Command}
      → register to_lower trim_space sort_strings given reg ≡ some reg'
      → lookup_command to_lower trim_space sort_strings name reg ≡ some c
      → lookup_command to_lower trim_space sort_strings name reg' ≡ some c
  unfolding lookup_command
  lookup_command-register given reg reg' name e f =
      let (fresh, free, result) = register-accepts given reg reg' e in
      let cmd = prepared to_lower trim_space sort_strings given in
      let m = normalise_name to_lower trim_space sort_strings name in
      rw result (elim (Option-cases (find m reg.aliases)) [
        | inl no_alias ↦
            let here : find m reg.commands ≡ some _ = rw no_alias at f in
            rw
              (
                find-add_aliases cmd.aliases cmd.name m reg reg.aliases free
                    (inl (ap present here)),
                no_alias,
              )
              (find-put_kept cmd.name m cmd reg.commands fresh here)
        | inr (target, alias) ↦
            let here : find target reg.commands ≡ some _ = rw alias at f in
            rw
              (
                find-add_aliases cmd.aliases cmd.name m reg reg.aliases free
                    (inr (ap present alias)),
                alias,
              )
              (find-put_kept cmd.name target cmd reg.commands fresh here)
      ])
