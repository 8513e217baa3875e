-- ===== src/Network/Pong.antt =====
-- How a client reads the answer to a ping (internal/network/raknet/motd.go).
use open_ai_mc_be_server.Network.Motd.{
  fields_of, PongInfo, terminated, trim_backslashes, escape_pong_field, pong_data, replace_all,
}
use open_ai_mc_be_server.Config.Decimals.{all_digits, all_digits-digits}
use open_ai_mc_be_server.Prelude.{
  ◌+◌, ==_iff, ℕ, ◌≡◌, refl, sym, ap, ◌∙◌, Bool, true, false, not, ◌&&◌, List, [], ◌∷◌, ◌++◌, map,
  ◌==◌, if◌then◌else◌, Bool-cases, inl, inr, arith,
}
use open_ai_mc_be_server.Prelude.Int.{ℤ, pos, negsuc}
use open_ai_mc_be_server.Prelude.Strings.{codes}
use open_ai_mc_be_server.Command.Args.{Text}
use open_ai_mc_be_server.Command.Registry.{is_blank}
use open_ai_mc_be_server.Config.Numbers.{itoa, digits}

-- A client's reading: a semicolon with a backslash before it is text, any other ends a field.
abbrev pub add_rune : ℕ → List Text → List Text
add_rune r [] = (r ∷ []) ∷ []
add_rune r (field ∷ fields) = (r ∷ field) ∷ fields

unfoldable pub split_fields : Bool → Text → List Text
split_fields escaped [] = []
split_fields escaped (r ∷ rs) =
    let rest = split_fields (r == b'\\') rs in
    if (r == b';') && not escaped then [] ∷ rest else add_rune r rest

unfoldable pub unescape : Text → Text
unescape [] = []
unescape (r ∷ []) = r ∷ []
unescape (r ∷ s ∷ rs) =
    let after = unescape (s ∷ rs) in if (r == b'\\') && (s == b';') then after else r ∷ after

-- Every semicolon has a backslash before it, and no backslash stands last.
abbrev pub sealed : Bool → Text → Bool
sealed escaped [] = not escaped
sealed escaped (r ∷ rs) = (if r == b';' then escaped else true) && sealed (r == b'\\') rs

abbrev guarded : Bool → Text → Bool
guarded escaped [] = true
guarded escaped (r ∷ rs) = (if r == b';' then escaped else true) && guarded (r == b'\\') rs

split_fields-sealed :
    (escaped : Bool) (field rest : Text)
    → sealed escaped field ≡ true
    → split_fields escaped (field ++ b';' ∷ rest) ≡ field ∷ split_fields false rest
unfolding split_fields
split_fields-sealed false [] rest h = refl
split_fields-sealed true [] rest h = cc
split_fields-sealed escaped (r ∷ field) rest h =
    ground (arith, split_fields-sealed (r == b'\\') field rest)

abbrev AllSealed : List Text → Type 0
AllSealed [] = Unit
AllSealed (field ∷ fields) = (sealed false field ≡ true) × AllSealed fields

split_fields-terminated :
    (fields : List Text) → AllSealed fields → split_fields false (terminated fields) ≡ fields
unfolding terminated split_fields
split_fields-terminated [] h = refl
split_fields-terminated (field ∷ fields) h =
    split_fields-sealed false field (terminated fields) h.0
    ∙ ap (λ (l : List Text). field ∷ l) (split_fields-terminated fields h.1)

guarded-replace_all : (escaped : Bool) (t : Text) → guarded escaped (replace_all t) ≡ true
unfolding replace_all
guarded-replace_all escaped [] = refl
guarded-replace_all escaped (r ∷ t) =
    ground (arith, guarded-replace_all false t, guarded-replace_all (r == b'\\') t)

sealed-trim_backslashes :
    (escaped : Bool) (t : Text)
    → guarded escaped t ≡ true
    → (escaped && is_blank (trim_backslashes t)) ≡ false
    → sealed escaped (trim_backslashes t) ≡ true
unfolding trim_backslashes
sealed-trim_backslashes true [] h k = cc
sealed-trim_backslashes false [] h k = refl
sealed-trim_backslashes escaped (r ∷ t) h k = ground (arith, sealed-trim_backslashes (r == b'\\') t)

sealed-escape_pong_field : (t : Text) → sealed false (escape_pong_field t) ≡ true
unfolding escape_pong_field
sealed-escape_pong_field t =
    sealed-trim_backslashes false (replace_all t) (guarded-replace_all false t) refl

unescape-cons : (r : ℕ) (t : Text) → unescape (r ∷ replace_all t) ≡ r ∷ unescape (replace_all t)
unfolding unescape replace_all
unescape-cons r [] = refl
unescape-cons r (x ∷ t) = elim (Bool-cases (x == b';')) [
  | inl e ↦ rw e (ground arith)
  | inr e ↦ rw e (ground (arith, e))
]

unescape-nil : unescape [] ≡ []
unfolding unescape
unescape-nil = refl

unescape-escaped : (l : Text) → unescape (b'\\' ∷ b';' ∷ l) ≡ unescape (b';' ∷ l)
unfolding unescape
unescape-escaped l = refl

unescape-pair :
    (t : Text) → unescape (b'\\' ∷ b';' ∷ replace_all t) ≡ b';' ∷ unescape (replace_all t)
unescape-pair t = unescape-escaped (replace_all t) ∙ unescape-cons b';' t

unescape-replace_all : (t : Text) → unescape (replace_all t) ≡ t
unfolding replace_all
unescape-replace_all [] = unescape-nil
unescape-replace_all (r ∷ t) = elim (Bool-cases (r == b';')) [
  | inl e ↦ rw e (
      unescape-pair t
      ∙ ap (λ (l : Text). b';' ∷ l) (unescape-replace_all t)
      ∙ ap (λ (k : ℕ). k ∷ t) (sym ((==_iff r b';').0 e)))
  | inr e ↦ rw e (unescape-cons r t ∙ ap (λ (l : Text). r ∷ l) (unescape-replace_all t))
]

is_blank-replace_all : (t : Text) → is_blank (replace_all t) ≡ is_blank t
unfolding replace_all
is_blank-replace_all [] = refl
is_blank-replace_all (r ∷ t) = ground arith

trim_backslashes-cons :
    (r : ℕ) (t : Text)
    → trim_backslashes (r ∷ t) ≡ r ∷ t
    → (trim_backslashes t ≡ t) × (((r == b'\\') && is_blank t) ≡ false)
unfolding trim_backslashes
trim_backslashes-cons r t h = elim (Bool-cases ((r == b'\\') && is_blank (trim_backslashes t))) [
  | inl cut ↦ (absurd (ground (arith, h, cut)), absurd (ground (arith, h, cut)))
  | inr kept ↦
      let same : trim_backslashes t ≡ t = ground (arith, h, kept) in
      (same, ap (λ (l : Text). (r == b'\\') && is_blank l) (sym same) ∙ kept)
]

trim_backslashes-keeps :
    (r : ℕ) (t : Text)
    → trim_backslashes t ≡ t
    → ((r == b'\\') && is_blank t) ≡ false
    → trim_backslashes (r ∷ t) ≡ r ∷ t
unfolding trim_backslashes
trim_backslashes-keeps r t h k = rw (h, k) refl

trim_backslashes-replace_all :
    (t : Text) → trim_backslashes t ≡ t → trim_backslashes (replace_all t) ≡ replace_all t
unfolding replace_all
trim_backslashes-replace_all [] h = h
trim_backslashes-replace_all (r ∷ t) h =
    let (same, kept) = trim_backslashes-cons r t h in
    let ih = trim_backslashes-replace_all t same in
    elim (Bool-cases (r == b';')) [
      | inl e ↦ rw e (
          trim_backslashes-keeps b'\\' (b';' ∷ replace_all t)
            (trim_backslashes-keeps b';' (replace_all t) ih refl) refl)
      | inr e ↦
          rw e (trim_backslashes-keeps r (replace_all t) ih (rw (is_blank-replace_all t) kept))
    ]

unescape-escape_pong_field :
    (t : Text) → trim_backslashes t ≡ t → unescape (escape_pong_field t) ≡ t
unfolding escape_pong_field
unescape-escape_pong_field t h =
    ap unescape (trim_backslashes-replace_all t h) ∙ unescape-replace_all t

-- A text with neither a semicolon nor a backslash.
abbrev pub is_plain : Text → Bool
is_plain [] = true
is_plain (r ∷ rs) = not (r == b';') && not (r == b'\\') && is_plain rs

sealed-plain : (t : Text) → is_plain t ≡ true → sealed false t ≡ true
sealed-plain [] h = refl
sealed-plain (r ∷ t) h = ground (arith, sealed-plain t)

unescape-plain : (t : Text) → is_plain t ≡ true → unescape t ≡ t
unfolding unescape
unescape-plain [] h = refl
unescape-plain (r ∷ []) h = refl
unescape-plain (r ∷ s ∷ t) h = ground (arith, unescape-plain (s ∷ t))

all_digits-plain : (t : Text) → all_digits t ≡ true → is_plain t ≡ true
all_digits-plain [] h = refl
all_digits-plain (r ∷ t) h = ground (arith, all_digits-plain t)

itoa-plain : (z : ℤ) → is_plain (itoa z) ≡ true
unfolding itoa
itoa-plain (pos n) = all_digits-plain (digits 19 n) (all_digits-digits 19 n)
itoa-plain (negsuc n) = all_digits-plain (digits 19 (n + 1)) (all_digits-digits 19 (n + 1))

-- Split at each semicolon that has no backslash before it, and with each escaped semicolon read
-- as one, the answer to a ping gives the edition and the eight values of the info in order, if
-- the message of the day, the server's name and the game mode do not end in a backslash and the
-- version has neither a semicolon nor a backslash.
pub pong_data-fields :
    (info : PongInfo)
    → trim_backslashes info.motd ≡ info.motd
    → trim_backslashes info.server_name ≡ info.server_name
    → trim_backslashes info.game_mode ≡ info.game_mode
    → is_plain info.minecraft_version ≡ true
    → map unescape (split_fields false (pong_data info))
      ≡ codes "MCPE"
        ∷ info.motd
        ∷ itoa info.protocol_version
        ∷ info.minecraft_version
        ∷ itoa info.online_players
        ∷ itoa info.max_players
        ∷ itoa info.server_id
        ∷ info.server_name
        ∷ info.game_mode
        ∷ []
unfolding pong_data
pong_data-fields info m n g v =
    let number = λ (z : ℤ). sealed-plain (itoa z) (itoa-plain z) in
    let same = λ (z : ℤ). unescape-plain (itoa z) (itoa-plain z) in
    ap (map unescape) (
      split_fields-terminated (fields_of info) (
        refl,
        (
          sealed-escape_pong_field info.motd,
          (
            number info.protocol_version,
            (
              sealed-plain info.minecraft_version v,
              (
                number info.online_players,
                (
                  number info.max_players,
                  (
                    number info.server_id,
                    (
                      sealed-escape_pong_field info.server_name,
                      (sealed-escape_pong_field info.game_mode, tt),
                    ),
                  ),
                ),
              ),
            ),
          ),
        ),
      ))
    ∙ rw
        (
          unescape-escape_pong_field info.motd m,
          unescape-escape_pong_field info.server_name n,
          unescape-escape_pong_field info.game_mode g,
          same info.protocol_version,
          unescape-plain info.minecraft_version v,
          same info.online_players,
          same info.max_players,
          same info.server_id,
          unescape-plain (codes "MCPE") refl,
        )
        refl
