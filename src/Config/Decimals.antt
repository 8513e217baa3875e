-- ===== src/Config/Decimals.antt =====
-- Decimal numbers and truth values read back as they were printed (internal/config/config.go).
use open_ai_mc_be_server.Config.Lines.{one_line, IsPlain}
use open_ai_mc_be_server.Config.Strings.{is_space, utf8_length, trim_left, trim_right}
use open_ai_mc_be_server.Command.Registry.{is_blank}
use mathlib.Core.List.{append-nil, append_assoc}
use open_ai_mc_be_server.Prelude.{
  length-append, ltb→lt, sym, ap, ◌∙◌, lt→ltb, ℕ, suc, zero, ◌+◌, ◌-◌, ◌*◌, ◌/◌, ◌%◌, ◌^◌, ◌<◌, ◌≤◌,
  ◌≡◌, refl, Bool, true, false, ◌&&◌, [], ◌∷◌, ◌++◌, some, ltb, Bool-cases, inl, inr, arith, length,
}
use open_ai_mc_be_server.Prelude.Int.{pos}
use open_ai_mc_be_server.Command.Args.{Text}
use open_ai_mc_be_server.Config.Numbers.{
  digits, itoa, read_digits, positive, atoi, is_digit, parse_bool, format_bool,
}

abbrev pub all_digits : Text → Bool
all_digits [] = true
all_digits (r ∷ rs) = is_digit r && all_digits rs

abbrev tens : ℕ → ℕ
tens zero = 1
tens (suc fuel) = 10 * tens fuel

all_digits-snoc :
    (t : Text) (r : ℕ) → all_digits t ≡ true → is_digit r ≡ true → all_digits (t ++ r ∷ []) ≡ true
all_digits-snoc [] r h d = ground arith
all_digits-snoc (x ∷ t) r h d = ground (arith, all_digits-snoc t r)

pub all_digits-digits : (fuel n : ℕ) → all_digits (digits fuel n) ≡ true
unfolding digits
all_digits-digits zero n = refl
all_digits-digits (suc fuel) n = elim (Bool-cases (ltb n 10)) [
  | inl small ↦ rw small (ground arith)
  | inr big ↦ rw big (
      all_digits-snoc (digits fuel (n / 10)) (48 + n % 10) (all_digits-digits fuel (n / 10))
        (ground arith))
]

read_digits-digit :
    (r n m : ℕ) (rest : Text)
    → is_digit r ≡ true
    → n * 10 + (r - 48) ≡ m
    → read_digits (r ∷ rest) n ≡ read_digits rest m
unfolding read_digits
read_digits-digit r n m rest d e = rw (d, e) refl

read_digits-digits :
    (fuel n : ℕ) (rest : Text)
    → n < tens fuel
    → 0 < fuel
    → read_digits (digits fuel n ++ rest) 0 ≡ read_digits rest n
unfolding digits
read_digits-digits zero n rest h f = absurd (omega arith)
read_digits-digits (suc zero) n rest h f =
    rw (lt→ltb n 10 h) (read_digits-digit (48 + n) 0 n rest (ground arith) (omega arith))
read_digits-digits (suc (suc fuel)) n rest h f = elim (Bool-cases (ltb n 10)) [
  | inl small ↦ rw small (read_digits-digit (48 + n) 0 n rest (ground arith) (omega arith))
  | inr big ↦ rw big (
      ap (λ t. read_digits t 0)
        (append_assoc (digits (suc fuel) (n / 10)) ((48 + n % 10) ∷ []) rest)
      ∙ read_digits-digits (suc fuel) (n / 10) ((48 + n % 10) ∷ rest) (omega arith) (omega arith)
      ∙ read_digits-digit (48 + n % 10) (n / 10) n rest (ground arith) (omega arith))
]

is_blank-snoc : (t : Text) (r : ℕ) → is_blank (t ++ r ∷ []) ≡ false
is_blank-snoc [] r = refl
is_blank-snoc (x ∷ t) r = refl

is_blank-digits : (fuel n : ℕ) → is_blank (digits (suc fuel) n) ≡ false
unfolding digits
is_blank-digits fuel n = elim (Bool-cases (ltb n 10)) [
  | inl small ↦ rw small refl
  | inr big ↦ rw big (is_blank-snoc (digits fuel (n / 10)) (48 + n % 10))
]

atoi-all_digits :
    (t : Text) → all_digits t ≡ true → is_blank t ≡ false → atoi t ≡ positive (read_digits t 0)
unfolding atoi
atoi-all_digits [] d e = cc
atoi-all_digits (r ∷ rs) d e = ground arith

-- A natural number in the range of int64 is read back as it was printed.
pub atoi-itoa : (n : ℕ) → ltb n (2 ^ 63) ≡ true → atoi (itoa (pos n)) ≡ some (pos n)
unfolding itoa read_digits
atoi-itoa n h =
    atoi-all_digits (digits 19 n) (all_digits-digits 19 n) (is_blank-digits 18 n)
    ∙ ap positive (
        ap (λ t. read_digits t 0) (sym (append-nil (digits 19 n)))
        ∙ read_digits-digits 19 n [] (omega (arith, ltb→lt n (2 ^ 63))) (omega arith))
    ∙ rw h refl

pub parse_bool-format_bool : (b : Bool) → parse_bool (format_bool b) ≡ some b
unfolding parse_bool format_bool
parse_bool-format_bool true = refl
parse_bool-format_bool false = refl

all_digits-trim_left : (t : Text) → all_digits t ≡ true → trim_left t ≡ t
unfolding trim_left is_space
all_digits-trim_left [] h = refl
all_digits-trim_left (r ∷ t) h = ground arith

all_digits-trim_right : (t : Text) → all_digits t ≡ true → trim_right t ≡ t
unfolding trim_right is_space
all_digits-trim_right [] h = refl
all_digits-trim_right (r ∷ t) h = ground (arith, all_digits-trim_right t)

all_digits-one_line : (t : Text) → all_digits t ≡ true → one_line t ≡ true
all_digits-one_line [] h = refl
all_digits-one_line (r ∷ t) h = ground (arith, all_digits-one_line t)

all_digits-utf8_length : (t : Text) → all_digits t ≡ true → utf8_length t ≡ length t
all_digits-utf8_length [] h = refl
all_digits-utf8_length (r ∷ t) h = ground (arith, all_digits-utf8_length t)

length-digits : (fuel n : ℕ) → length (digits fuel n) ≤ fuel
unfolding digits
length-digits zero n = omega arith
length-digits (suc fuel) n = elim (Bool-cases (ltb n 10)) [
  | inl small ↦ rw small (omega arith)
  | inr big ↦ rw big (
      omega (
        arith,
        length-append (digits fuel (n / 10)) ((48 + n % 10) ∷ []),
        length-digits fuel (n / 10),
      ))
]

-- A number has a plain text.
pub IsPlain-itoa : (n : ℕ) → IsPlain (itoa (pos n))
unfolding itoa
IsPlain-itoa n =
    let d = all_digits-digits 19 n in
    record {
      front = all_digits-trim_left (digits 19 n) d;
      back = all_digits-trim_right (digits 19 n) d;
      single = all_digits-one_line (digits 19 n) d;
      short = omega (arith, all_digits-utf8_length (digits 19 n) d, length-digits 19 n);
    }

pub IsPlain-format_bool : (b : Bool) → IsPlain (format_bool b)
unfolding format_bool trim_left trim_right is_space
IsPlain-format_bool true = record { front = refl; back = refl; single = refl; short = omega arith }
IsPlain-format_bool false = record { front = refl; back = refl; single = refl; short = omega arith }
