-- ===== src/World/Dimension.antt =====
-- Build ranges and dimensions of internal/world/types.go. Heights are int16, sub chunk numbers
-- int32; the arithmetic stays in range, since every height is an int16.
use open_ai_mc_be_server.Prelude.{ℕ, ◌+◌, ◌*◌, ◌/◌, arith, if◌then◌else◌}
use open_ai_mc_be_server.Prelude.Int.{
  ℤ, pos, negsuc, sub_ℕ, pos_part, neg_part, ◌+ℤ◌, ◌-ℤ◌, ◌≤ℤ◌, ◌<ℤ◌, leb_ℤ,
}

pub record Dimension : Type 0 where
  pub id : ℤ
  pub min_y : ℤ
  pub max_y : ℤ

abbrev pub overworld : Dimension
overworld = record { id = pos 0; min_y = negsuc 63; max_y = pos 319 }

unfoldable pub with_defaults : Dimension → Dimension
with_defaults d = if leb_ℤ d.max_y d.min_y then overworld else d

-- `value >> 4`, and its negative twin.
unfoldable pub floor_div16 : ℤ → ℤ
floor_div16 (pos n) = pos (n / 16)
floor_div16 (negsuc n) = sub_ℕ 0 ((n + 1 + 15) / 16)

-- The accessors apply the defaults each time.
abbrev pub min_y_of : Dimension → ℤ
min_y_of d = (with_defaults d).min_y

abbrev pub max_y_of : Dimension → ℤ
max_y_of d = (with_defaults d).max_y

abbrev pub id_of : Dimension → ℤ
id_of d = (with_defaults d).id

unfoldable pub min_sub_y : Dimension → ℤ
min_sub_y d = floor_div16 (min_y_of d)

unfoldable pub max_sub_y : Dimension → ℤ
max_sub_y d = floor_div16 (max_y_of d)

unfoldable pub sub_chunk_count : Dimension → ℕ
sub_chunk_count d = pos_part (max_sub_y d -ℤ min_sub_y d +ℤ pos 1)

-- `z` times 16.
abbrev pub sixteen : ℤ → ℤ
sixteen z = sub_ℕ (16 * pos_part z) (16 * neg_part z)

-- 16 times `floorDiv16` of a height is at most the height, and 16 more is above it.
pub floor_div16_lem :
    (y : ℤ) → (sixteen (floor_div16 y) ≤ℤ y) × (y <ℤ sixteen (floor_div16 y) +ℤ pos 16)
unfolding floor_div16 ◌+ℤ◌
floor_div16_lem (pos n) = ground arith
floor_div16_lem (negsuc n) = ground arith

pub floor_div16-mono : (y z : ℤ) → y ≤ℤ z → floor_div16 y ≤ℤ floor_div16 z
unfolding floor_div16
floor_div16-mono y z h = ground arith

pub with_defaults-lt : (d : Dimension) → min_y_of d <ℤ max_y_of d
unfolding with_defaults
with_defaults-lt d = ground arith
