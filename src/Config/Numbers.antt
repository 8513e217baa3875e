-- ===== src/Config/Numbers.antt =====
-- What internal/config/config.go uses of Go's strconv: `Atoi`, `ParseBool`, and the verbs %d and %t.
use open_ai_mc_be_server.Prelude.{
  ℕ, suc, zero, ◌+◌, ◌-◌, ◌*◌, ◌/◌, ◌%◌, ◌^◌, Bool, true, false, ◌&&◌, ◌||◌, List, [], ◌∷◌, ◌++◌,
  Option, none, some, ltb, leb, ◌==◌, if◌then◌else◌,
}
use open_ai_mc_be_server.Prelude.Int.{ℤ, pos, negsuc, sub_ℕ}
use open_ai_mc_be_server.Prelude.Strings.{codes}
use open_ai_mc_be_server.Command.Args.{Text}
use open_ai_mc_be_server.Command.Registry.{text_eqb}

-- The digits of a number of at most as many digits as there is fuel.
unfoldable pub digits : ℕ → ℕ → Text
digits zero n = []
digits (suc fuel) n =
    let rest = digits fuel (n / 10) in
    if ltb n 10 then (48 + n) ∷ [] else rest ++ (48 + n % 10) ∷ []

-- %d of an int64, which has at most 19 digits.
unfoldable pub itoa : ℤ → Text
itoa (pos n) = digits 19 n
itoa (negsuc n) = b'-' ∷ digits 19 (n + 1)

abbrev pub is_digit : ℕ → Bool
is_digit r = leb 48 r && leb r 57

unfoldable pub read_digits : Text → ℕ → Option ℕ
read_digits [] n = some n
read_digits (r ∷ rs) n =
    let rest = read_digits rs (n * 10 + (r - 48)) in if is_digit r then rest else none

-- A digit at least.
abbrev pub read_number : Text → Option ℕ
read_number [] = none
read_number (r ∷ rs) = read_digits (r ∷ rs) 0

abbrev pub positive : Option ℕ → Option ℤ
positive none = none
positive (some n) = if ltb n (2 ^ 63) then some (pos n) else none

abbrev pub negative : Option ℕ → Option ℤ
negative none = none
negative (some n) = if leb n (2 ^ 63) then some (sub_ℕ 0 n) else none

-- `none` is a syntax error, or a number out of the range of int64.
unfoldable pub atoi : Text → Option ℤ
atoi [] = none
atoi (r ∷ rs) =
    if r == b'-'
    then negative (read_number rs)
    else if r == b'+'
    then positive (read_number rs)
    else positive (read_number (r ∷ rs))

abbrev pub one_of : Text → List Text → Bool
one_of t [] = false
one_of t (u ∷ us) = text_eqb t u || one_of t us

unfoldable pub parse_bool : Text → Option Bool
parse_bool t =
    if one_of t
      (codes "1" ∷ codes "t" ∷ codes "T" ∷ codes "TRUE" ∷ codes "true" ∷ codes "True" ∷ [])
    then some true
    else if one_of t
        (codes "0" ∷ codes "f" ∷ codes "F" ∷ codes "FALSE" ∷ codes "false" ∷ codes "False" ∷ [])
    then some false
    else none

unfoldable pub format_bool : Bool → Text
format_bool true = codes "true"
format_bool false = codes "false"
