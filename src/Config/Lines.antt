-- ===== src/Config/Lines.antt =====
-- A line `key=value` of the file comes back from the scanner as it was written (internal/config/config.go).
use mathlib.Core.List.{append_assoc}
use open_ai_mc_be_server.Config.Properties.{apply, Config, is_comment, cut_equals, apply_line}
use open_ai_mc_be_server.Prelude.{
  ◌∙◌, sym, lt→ltb, ap, ℕ, ◌+◌, ◌<◌, ◌≤◌, ◌≡◌, refl, Bool, true, false, not, ◌&&◌, [], ◌∷◌, ◌++◌,
  some, ◌==◌, Bool-cases, inl, inr, arith,
}
use open_ai_mc_be_server.Command.Args.{Text}
use open_ai_mc_be_server.Command.Registry.{is_blank}
use open_ai_mc_be_server.Config.Strings.{
  is_space, trim_left, trim_right, trim_space, split_lines, drop_cr, utf8_length, check_lines,
  scan_lines, line_then,
}

abbrev pub one_line : Text → Bool
one_line [] = true
one_line (r ∷ rs) = not (r == b'\n') && one_line rs

-- What a value must be to come back: no white space around it, no newline in it, and a line's length.
pub record IsPlain (t : Text) : Type 0 where
  pub front : trim_left t ≡ t
  pub back : trim_right t ≡ t
  pub single : one_line t ≡ true
  pub short : utf8_length t + 15 < 65536

IsPlain-trim_space : {t : Text} → IsPlain t → trim_space t ≡ t
unfolding trim_space
IsPlain-trim_space {t} v = ap trim_right v.front ∙ v.back

-- The characters of a key.
abbrev pub is_key : Text → Bool
is_key [] = true
is_key (r ∷ rs) =
    not (is_space r) && not (r == b'=') && not (r == b'#') && not (r == b'\n') && is_key rs

abbrev pub entry : Text → Text → Text
entry key value = key ++ b'=' ∷ value

split_lines-line :
    (line rest : Text)
    → one_line line ≡ true
    → split_lines (line ++ b'\n' ∷ rest) ≡ line ∷ split_lines rest
unfolding split_lines
split_lines-line [] rest h = refl
split_lines-line (r ∷ line) rest h = ground (arith, split_lines-line line rest)

trim_right-cons_inv :
    (r : ℕ) (rs : Text)
    → trim_right (r ∷ rs) ≡ r ∷ rs
    → (trim_right rs ≡ rs) × ((is_space r && is_blank (trim_right rs)) ≡ false)
unfolding trim_right
trim_right-cons_inv r rs h = elim (Bool-cases (is_space r && is_blank (trim_right rs))) [
  | inl cut ↦ (absurd (ground (arith, h, cut)), absurd (ground (arith, h, cut)))
  | inr kept ↦ (ground (arith, h, kept), kept)
]

drop_cr-trimmed : (t : Text) → trim_right t ≡ t → drop_cr t ≡ t
unfolding is_space
drop_cr-trimmed [] h = refl
drop_cr-trimmed (r ∷ rs) h =
    let (e, k) = trim_right-cons_inv r rs h in
    let k' : (is_space r && is_blank rs) ≡ false = rw e at k in
    let ih = drop_cr-trimmed rs e in ground arith

trim_right-cons :
    (r : ℕ) (t : Text) → is_blank t ≡ false → trim_right t ≡ t → trim_right (r ∷ t) ≡ r ∷ t
unfolding trim_right
trim_right-cons r t b h = rw h (rw b (ground arith))

is_blank-entry : (key value : Text) → is_blank (entry key value) ≡ false
is_blank-entry [] value = refl
is_blank-entry (r ∷ key) value = refl

trim_right-entry :
    (key value : Text) → trim_right value ≡ value → trim_right (entry key value) ≡ entry key value
unfolding trim_right is_space
trim_right-entry [] value h = rw h refl
trim_right-entry (r ∷ key) value h =
    trim_right-cons r (entry key value) (is_blank-entry key value) (trim_right-entry key value h)

one_line-append : (t u : Text) → one_line t ≡ true → one_line u ≡ true → one_line (t ++ u) ≡ true
one_line-append [] u h k = k
one_line-append (r ∷ t) u h k = ground (arith, one_line-append t u)

utf8_length-append : (t u : Text) → utf8_length (t ++ u) ≡ utf8_length t + utf8_length u
utf8_length-append [] u = omega arith
utf8_length-append (r ∷ t) u = omega (arith, utf8_length-append t u)

is_key-one_line : (key : Text) → is_key key ≡ true → one_line key ≡ true
is_key-one_line [] h = refl
is_key-one_line (r ∷ key) h = ground (arith, is_key-one_line key)

-- A line that fits the buffer and has no newline in it is the next one that the scanner gives.
pub scan_lines-line :
    (line rest : Text)
    → one_line line ≡ true
    → utf8_length line < 65536
    → trim_right line ≡ line
    → scan_lines (line ++ b'\n' ∷ rest) ≡ line_then true line (scan_lines rest)
unfolding scan_lines check_lines
scan_lines-line line rest one fits back =
    rw (split_lines-line line rest one)
      (rw (drop_cr-trimmed line back) (rw (lt→ltb (utf8_length line) 65536 fits) refl))

pub scan_lines-entry :
    (key value rest : Text)
    → is_key key ≡ true
    → utf8_length key ≤ 14
    → IsPlain value
    → scan_lines (key ++ b'=' ∷ (value ++ b'\n' ∷ rest))
      ≡ line_then true (entry key value) (scan_lines rest)
scan_lines-entry key value rest k n v =
    ap scan_lines (sym (append_assoc key (b'=' ∷ value) (b'\n' ∷ rest)))
    ∙ scan_lines-line (entry key value) rest
        (one_line-append key (b'=' ∷ value) (is_key-one_line key k) v.single)
        (omega (arith, utf8_length-append key (b'=' ∷ value), v.short))
        (trim_right-entry key value v.back)

is_key-trim_right : (key : Text) → is_key key ≡ true → trim_right key ≡ key
unfolding trim_right
is_key-trim_right [] h = refl
is_key-trim_right (r ∷ key) h = ground (arith, is_key-trim_right key)

is_key-trim_left : (key : Text) → is_key key ≡ true → trim_left key ≡ key
unfolding trim_left
is_key-trim_left [] h = refl
is_key-trim_left (r ∷ key) h = ground arith

pub is_key-trim_space : (key : Text) → is_key key ≡ true → trim_space key ≡ key
unfolding trim_space
is_key-trim_space key h = ap trim_right (is_key-trim_left key h) ∙ is_key-trim_right key h

trim_left-entry :
    (key value : Text) → is_key key ≡ true → trim_left (entry key value) ≡ entry key value
unfolding trim_left is_space
trim_left-entry [] value h = refl
trim_left-entry (r ∷ key) value h = ground arith

pub trim_space-entry :
    (key value : Text)
    → is_key key ≡ true
    → trim_right value ≡ value
    → trim_space (entry key value) ≡ entry key value
unfolding trim_space
trim_space-entry key value k h =
    ap trim_right (trim_left-entry key value k) ∙ trim_right-entry key value h

pub cut_equals-entry :
    (key value : Text) → is_key key ≡ true → cut_equals (entry key value) ≡ some (key, value)
unfolding cut_equals
cut_equals-entry [] value h = refl
cut_equals-entry (r ∷ key) value h = ground (arith, cut_equals-entry key value)

is_comment-entry : (key value : Text) → is_key key ≡ true → is_comment (entry key value) ≡ false
is_comment-entry [] value h = refl
is_comment-entry (r ∷ key) value h = ground arith

-- The line of a key and a plain value applies that value to that key.
pub apply_line-entry :
    (key value : Text) (cfg : Config)
    → is_key key ≡ true
    → IsPlain value
    → apply_line (entry key value) cfg ≡ apply key value cfg
unfolding apply_line
apply_line-entry key value cfg k v = rw (trim_space-entry key value k v.back) (
    rw (is_comment-entry key value k) (
      rw (cut_equals-entry key value k)
        (rw (is_key-trim_space key k) (rw (IsPlain-trim_space v) refl))))
