-- ===== src/Command/Runes.antt =====
-- The runes of a string (Go's `range` over a string, on which internal/command/command.go stands). A
-- string is the list of its bytes.
use open_ai_mc_be_server.Prelude.{
  ℕ, zero, suc, ◌+◌, ◌*◌, ◌%◌, Bool, ◌&&◌, not, List, [], ◌∷◌, ltb, leb, if◌then◌else◌, get_or,
}
use open_ai_mc_be_server.Command.Args.{Text}

abbrev pub Bytes : Type 0
Bytes = List ℕ

-- A byte that is no part of an encoded rune stands as a number above all runes, so that the runes of
-- a string still tell its bytes.
abbrev pub invalid_byte : ℕ → ℕ
invalid_byte b = 1114112 + b

abbrev continues : ℕ → Bool
continues b = leb 128 b && ltb b 192

-- The rune at the front of `b ∷ bytes`, and how many bytes of it follow `b`. An encoding that is too
-- long, a surrogate, and a number above U+10FFFF are invalid.
unfoldable pub rune_at : ℕ → Bytes → ℕ × ℕ
rune_at b bytes =
    let c = get_or bytes 0 0 in
    let d = get_or bytes 1 0 in
    let e = get_or bytes 2 0 in
    let two = (b % 32) * 64 + c % 64 in
    let three = ((b % 16) * 64 + c % 64) * 64 + d % 64 in
    let four = (((b % 8) * 64 + c % 64) * 64 + d % 64) * 64 + e % 64 in
    if ltb b 128
    then (b, 0)
    else if leb 194 b && ltb b 224 && continues c
    then (two, 1)
    else if leb 224 b
        && ltb b 240
        && continues c
        && continues d
        && leb 2048 three
        && not (leb 55296 three && ltb three 57344)
    then (three, 2)
    else if leb 240 b
        && ltb b 245
        && continues c
        && continues d
        && continues e
        && leb 65536 four
        && ltb four 1114112
    then (four, 3)
    else (invalid_byte b, 0)

-- `skipped` bytes belong to the rune before.
unfoldable pub runes_after : (skipped : ℕ) → Bytes → Text
runes_after skipped [] = []
runes_after (suc skipped) (b ∷ bytes) = runes_after skipped bytes
runes_after zero (b ∷ bytes) = let (r, more) = rune_at b bytes in r ∷ runes_after more bytes

abbrev pub runes : Bytes → Text
runes bytes = runes_after 0 bytes

-- What a `range` over the string yields: U+FFFD for an invalid byte.
unfoldable pub ranged : Text → Text
ranged [] = []
ranged (r ∷ rs) = (if leb 1114112 r then 65533 else r) ∷ ranged rs
