-- ===== src/Command/Args.antt =====
-- The arguments of a command line (internal/command/command.go, `splitArgs`). A text is the list of
-- its runes.
use open_ai_mc_be_server.Prelude.{
  ◌∙◌, ap, ℕ, ◌≡◌, Bool, true, false, ◌&&◌, ◌||◌, not, List, [], ◌∷◌, ◌++◌, Option, none, some,
  refl, arith, inl, inr, Bool-cases, ◌==◌, if◌then◌else◌,
}
use mathlib.Core.List.{append_assoc, append-nil}

abbrev pub Text : Type 0
Text = List ℕ

abbrev pub backslash : ℕ
backslash = 92

abbrev pub double_quote : ℕ
double_quote = 34

abbrev pub single_quote : ℕ
single_quote = 39

abbrev pub space : ℕ
space = 32

abbrev pub tab : ℕ
tab = 9

-- The variables of the loop. `in_quote` is 0 outside of quotes.
pub record Scan : Type 0 where
  pub args_read : List Text
  pub builder : Text
  pub in_quote : ℕ
  pub escaped : Bool
  pub token_open : Bool

abbrev pub scan_start : Scan
scan_start = record {
  args_read = [];
  builder = [];
  in_quote = 0;
  escaped = false;
  token_open = false;
}

abbrev pub write_rune : ℕ → Scan → Scan
write_rune r st = record st { builder = st.builder ++ r ∷ []; token_open = true }

abbrev pub close_token : Scan → Scan
close_token st =
    if st.token_open
    then record st { args_read = st.args_read ++ st.builder ∷ []; builder = []; token_open = false }
    else st

-- The body of the loop.
unfoldable pub scan_rune : ℕ → Scan → Scan
scan_rune r st =
    if st.escaped
    then record (write_rune r st) { escaped = false }
    else if r == backslash && not (st.in_quote == 0)
    then record st { escaped = true }
    else if not (st.in_quote == 0)
    then (if r == st.in_quote then record st { in_quote = 0 } else write_rune r st)
    else if r == single_quote || r == double_quote
    then record st { in_quote = r; token_open = true }
    else if r == space || r == tab
    then close_token st
    else write_rune r st

unfoldable pub scan_runes : Text → Scan → Scan
scan_runes [] st = st
scan_runes (r ∷ rs) st = scan_runes rs (scan_rune r st)

-- What follows the loop: `none` for an unterminated quote.
abbrev pub scan_end : Scan → Option (List Text)
scan_end st =
    let text = if st.escaped then st.builder ++ backslash ∷ [] else st.builder in
    if not (st.in_quote == 0)
    then none
    else if st.token_open
    then some (st.args_read ++ text ∷ [])
    else some st.args_read

unfoldable pub split_args : Text → Option (List Text)
split_args value = scan_end (scan_runes value scan_start)

-- An argument as a player can always write it: in double quotes, with a backslash before each
-- quote and backslash.
abbrev pub escape : Text → Text
escape [] = []
escape (r ∷ rs) =
    if r == double_quote || r == backslash then backslash ∷ r ∷ escape rs else r ∷ escape rs

abbrev pub quote_all : List Text → Text
quote_all [] = []
quote_all (arg ∷ args) = double_quote ∷ (escape arg ++ double_quote ∷ space ∷ quote_all args)

-- Inside of double quotes, after `text` of an argument.
abbrev inside : List Text → Text → Scan
inside args text = record {
  args_read = args;
  builder = text;
  in_quote = double_quote;
  escaped = false;
  token_open = true;
}

abbrev between : List Text → Scan
between args = record {
  args_read = args;
  builder = [];
  in_quote = 0;
  escaped = false;
  token_open = false;
}

-- A rune that needs no escape.
scan-plain :
    (args : List Text) (text : Text) (r : ℕ)
    → (r == double_quote || r == backslash) ≡ false
    → scan_rune r (inside args text) ≡ inside args (text ++ r ∷ [])
unfolding scan_rune
scan-plain args text r e = ground arith

if-append :
    (b : Bool) (r : ℕ) (xs ys : Text)
    → (if b then backslash ∷ r ∷ xs else r ∷ xs) ++ ys
      ≡ (if b then backslash ∷ r ∷ (xs ++ ys) else r ∷ (xs ++ ys))
if-append true r xs ys = refl
if-append false r xs ys = refl

-- One rune of an argument, escaped or not.
scan-rune :
    (args : List Text) (text : Text) (r : ℕ) (more : Text)
    → scan_runes
        (if r == double_quote || r == backslash then backslash ∷ r ∷ more else r ∷ more)
        (inside args text)
      ≡ scan_runes more (inside args (text ++ r ∷ []))
unfolding scan_runes scan_rune
scan-rune args text r more = elim (Bool-cases (r == double_quote || r == backslash)) [
  | inl e ↦ rw e refl
  | inr e ↦ rw e (ap (scan_runes more) (scan-plain args text r e))
]

scan-escape :
    (args : List Text) (text arg rest : Text)
    → scan_runes (escape arg ++ rest) (inside args text)
      ≡ scan_runes rest (inside args (text ++ arg))
scan-escape args text [] rest = rw (append-nil text) refl
scan-escape args text (r ∷ arg) rest =
    ap (λ line. scan_runes line (inside args text))
      (if-append (r == double_quote || r == backslash) r (escape arg) rest)
    ∙ scan-rune args text r (escape arg ++ rest)
    ∙ scan-escape args (text ++ r ∷ []) arg rest
    ∙ ap (λ whole. scan_runes rest (inside args whole)) (append_assoc text (r ∷ []) arg)

scan-quote_all :
    (past args : List Text)
    → scan_end (scan_runes (quote_all args) (between past)) ≡ some (past ++ args)
unfolding scan_runes scan_rune
scan-quote_all past [] = rw (append-nil past) refl
scan-quote_all past (arg ∷ args) =
    rw
      (
        scan-escape past [] arg (double_quote ∷ space ∷ quote_all args),
        ← append_assoc past (arg ∷ []) args,
      )
      (scan-quote_all (past ++ arg ∷ []) args)

-- `splitArgs` reads arguments of any runes back as they are, empty ones and those with spaces,
-- quotes and backslashes included, when each was put in double quotes, with a backslash before
-- each of its double quotes and backslashes, and a space after it.
pub split_args-quote_all : (args : List Text) → split_args (quote_all args) ≡ some args
unfolding split_args
split_args-quote_all args = scan-quote_all [] args
