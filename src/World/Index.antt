-- ===== src/World/Index.antt =====
-- The index arithmetic of a chunk: positions in range have a sub chunk, and different positions
-- have different keys.
use open_ai_mc_be_server.Prelude.{ap, ℕ, ◌+◌, ◌*◌, ◌%◌, ◌<◌, ◌≡◌, arith, false, length}
use open_ai_mc_be_server.Prelude.Int.{
  ◌+ℤ◌, ◌-ℤ◌, eq_of_parts, ℤ, pos, negsuc, pos_part, neg_part, ◌≤ℤ◌, emod,
}
use open_ai_mc_be_server.World.Dimension.{
  floor_div16, min_y_of, max_y_of, min_sub_y, max_sub_y, sub_chunk_count, sixteen, floor_div16-mono,
}
use open_ai_mc_be_server.World.Chunk.{Chunk, block_offset, sub_index, out_of_range}

-- As many sub chunks as the dimension has.
pub record IsChunk (c : Chunk) : Type 0 where
  pub counted : length c.sub_chunks ≡ sub_chunk_count c.dimension

-- A position of a block in the chunk.
pub record InChunk (c : Chunk) (x : ℕ) (y : ℤ) (z : ℕ) : Type 0 where
  pub column_x : x < 16
  pub column_z : z < 16
  pub above : min_y_of c.dimension ≤ℤ y
  pub below : y ≤ℤ max_y_of c.dimension

pub in_range-InChunk :
    (c : Chunk) (x : ℕ) (y : ℤ) (z : ℕ) → out_of_range c x y z ≡ false → InChunk c x y z
unfolding out_of_range
in_range-InChunk c x y z h = ground arith

pub InChunk-in_range :
    (c : Chunk) (x : ℕ) (y : ℤ) (z : ℕ) → InChunk c x y z → out_of_range c x y z ≡ false
unfolding out_of_range
InChunk-in_range c x y z h = ground arith

index-lt :
    (lo y hi : ℤ)
    → lo ≤ℤ y
    → y ≤ℤ hi
    → (pos 0 ≤ℤ y -ℤ lo) × (pos_part (y -ℤ lo) < pos_part (hi -ℤ lo +ℤ pos 1))
unfolding ◌-ℤ◌ ◌+ℤ◌
index-lt lo y hi h k = ground arith

-- In a chunk that has the sub chunks of its dimension, the sub chunk index of a position of the
-- chunk is not negative and below their number.
pub sub_index_in_range :
    (c : Chunk) (x : ℕ) (y : ℤ) (z : ℕ)
    → IsChunk c
    → InChunk c x y z
    → (pos 0 ≤ℤ sub_index c y) × (pos_part (sub_index c y) < length c.sub_chunks)
unfolding sub_index sub_chunk_count min_sub_y max_sub_y
sub_index_in_range c x y z v h = rw v.counted (
    index-lt (floor_div16 (min_y_of c.dimension)) (floor_div16 y)
      (floor_div16 (max_y_of c.dimension)) (floor_div16-mono (min_y_of c.dimension) y h.above)
      (floor_div16-mono y (max_y_of c.dimension) h.below))

emod16-lt : (y : ℤ) → emod y 16 < 16
unfolding emod
emod16-lt (pos n) = omega arith
emod16-lt (negsuc n) = omega arith

-- A height is its sub chunk and its offset there.
emod16_lem :
    (y : ℤ)
    → pos_part y + neg_part (sixteen (floor_div16 y))
      ≡ neg_part y + pos_part (sixteen (floor_div16 y)) + emod y 16
unfolding emod floor_div16
emod16_lem (pos n) = ground arith
emod16_lem (negsuc n) = ground arith

pub offset-lt : (x : ℕ) (y : ℤ) (z : ℕ) → block_offset x y z < 4096
unfolding block_offset
offset-lt x y z = omega (arith, emod16-lt y)

-- The offset of a block tells its place in the sub chunk.
offset-injective :
    (x x' z z' e e' : ℕ)
    → x < 16
    → x' < 16
    → z < 16
    → z' < 16
    → e < 16
    → e' < 16
    → x % 16 * 256 + z % 16 * 16 + e ≡ x' % 16 * 256 + z' % 16 * 16 + e'
    → (x ≡ x') × (z ≡ z') × (e ≡ e')
offset-injective x x' z z' e e' hx hx' hz hz' he he' h = (omega arith, omega arith, omega arith)

same_floor :
    (lo f f' : ℤ)
    → pos 0 ≤ℤ f -ℤ lo
    → pos 0 ≤ℤ f' -ℤ lo
    → pos_part (f -ℤ lo) ≡ pos_part (f' -ℤ lo)
    → f ≡ f'
unfolding ◌-ℤ◌
same_floor lo f f' h h' e = ground arith

same_height : (y y' : ℤ) → floor_div16 y ≡ floor_div16 y' → emod y 16 ≡ emod y' 16 → y ≡ y'
same_height y y' f e = eq_of_parts y y' (
    omega (
      arith,
      emod16_lem y,
      emod16_lem y',
      ap (λ (t : ℤ). pos_part (sixteen t)) f,
      ap (λ (t : ℤ). neg_part (sixteen t)) f,
      e,
    ))

-- In a chunk that has the sub chunks of its dimension, two positions of the chunk with the same
-- sub chunk index and the same block offset are the same position.
pub key-injective :
    (c : Chunk) (x x' : ℕ) (y y' : ℤ) (z z' : ℕ)
    → IsChunk c
    → InChunk c x y z
    → InChunk c x' y' z'
    → pos_part (sub_index c y) ≡ pos_part (sub_index c y')
    → block_offset x y z ≡ block_offset x' y' z'
    → (x ≡ x') × (y ≡ y') × (z ≡ z')
unfolding block_offset sub_index
key-injective c x x' y y' z z' v h h' i o =
    let o' =
      offset-injective x x' z z' (emod y 16) (emod y' 16) h.column_x h'.column_x h.column_z
        h'.column_z (emod16-lt y) (emod16-lt y') o in
    let f =
      same_floor (min_sub_y c.dimension) (floor_div16 y) (floor_div16 y')
        (sub_index_in_range c x y z v h).0 (sub_index_in_range c x' y' z' v h').0 i in
    (o'.0, same_height y y' f o'.2, o'.1)
