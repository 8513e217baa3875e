-- ===== src/Config/Strings.antt =====
-- What internal/config/config.go uses of Go's strings and bufio. A text is the list of its runes.
use open_ai_mc_be_server.Prelude.{
  ℕ, ◌+◌, Bool, ◌&&◌, ◌||◌, List, [], ◌∷◌, Option, none, some, ltb, leb, ◌==◌, if◌then◌else◌,
}
use open_ai_mc_be_server.Command.Args.{Text}
use open_ai_mc_be_server.Command.Registry.{is_blank}

-- `unicode.IsSpace`
unfoldable pub is_space : ℕ → Bool
is_space r =
    (leb 9 r && leb r 13)
    || r == 32
    || r == 133
    || r == 160
    || r == 5760
    || (leb 8192 r && leb r 8202)
    || r == 8232
    || r == 8233
    || r == 8239
    || r == 8287
    || r == 12288

unfoldable pub trim_left : Text → Text
trim_left [] = []
trim_left (r ∷ rs) = let rest = trim_left rs in if is_space r then rest else r ∷ rs

unfoldable pub trim_right : Text → Text
trim_right [] = []
trim_right (r ∷ rs) =
    let rest = trim_right rs in if is_space r && is_blank rest then [] else r ∷ rest

unfoldable pub trim_space : Text → Text
trim_space t = trim_right (trim_left t)

abbrev pub add_rune : ℕ → List Text → List Text
add_rune r [] = (r ∷ []) ∷ []
add_rune r (line ∷ lines) = (r ∷ line) ∷ lines

-- The pieces between the newlines. What stands after the last one is a line unless it is empty.
unfoldable pub split_lines : Text → List Text
split_lines [] = []
split_lines (r ∷ rs) =
    let lines = split_lines rs in if r == b'\n' then [] ∷ lines else add_rune r lines

-- A carriage return at the end of a line is dropped.
abbrev pub drop_cr : Text → Text
drop_cr [] = []
drop_cr (r ∷ rs) = let rest = drop_cr rs in if r == b'\r' && is_blank rs then rest else r ∷ rest

abbrev pub utf8_length : Text → ℕ
utf8_length [] = 0
utf8_length (r ∷ rs) =
    (if ltb r 128 then 1 else if ltb r 2048 then 2 else if ltb r 65536 then 3 else 4)
    + utf8_length rs

-- The scanner's buffer holds a line and its newline in 65536 bytes.
abbrev pub fits_buffer : Text → Bool
fits_buffer line = ltb (utf8_length line) 65536

abbrev pub line_then : Bool → Text → Option (List Text) → Option (List Text)
line_then fits line none = none
line_then fits line (some lines) = if fits then some (line ∷ lines) else none

unfoldable pub check_lines : List Text → Option (List Text)
check_lines [] = some []
check_lines (line ∷ lines) = line_then (fits_buffer line) (drop_cr line) (check_lines lines)

-- `bufio.Scanner`: the lines of a file, or the error of a line that is too long.
unfoldable pub scan_lines : Text → Option (List Text)
scan_lines t = check_lines (split_lines t)
