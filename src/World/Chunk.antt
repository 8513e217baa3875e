-- ===== src/World/Chunk.antt =====
-- Chunks, `Chunk` of internal/world/types.go. `x`, `z` and a layer are uint8, `y` is an int16, runtime
-- and biome ids are uint32. A nil map is an empty one.
-- A slice is read and written at an index that World.Index shows to be in range.
use open_ai_mc_be_server.Prelude.{
  ◌-◌, ℕ, zero, suc, ◌+◌, ◌*◌, ◌%◌, Bool, true, false, ◌||◌, ◌&&◌, not, Option, none, some, List,
  [], ◌∷◌, ltb, leb, ◌==◌, if◌then◌else◌, length, get_or, set, replicate,
}
use open_ai_mc_be_server.Prelude.Int.{ℤ, pos, pos_part, ◌+ℤ◌, ◌-ℤ◌, ltb_ℤ, emod, wrap16}
use open_ai_mc_be_server.Prelude.Dict.{Dict, lookup, insert, erase}
use open_ai_mc_be_server.World.Dimension.{
  Dimension, with_defaults, floor_div16, min_y_of, max_y_of, min_sub_y, sub_chunk_count, sixteen,
}

pub record ChunkPos : Type 0 where
  pub x : ℤ
  pub z : ℤ

-- Blocks that are not air, by layer and by offset.
pub record SubChunk : Type 0 where
  pub layers : Dict (Dict ℕ)

pub record Chunk : Type 0 where
  pub position : ChunkPos
  pub dimension : Dimension
  pub sub_chunks : List SubChunk
  pub biome_overrides : Dict ℕ
  pub default_biome_id : ℕ
  pub air_runtime_id : ℕ

abbrev pub empty_sub : SubChunk
empty_sub = record { layers = [] }

-- `air` is the registry's id of air; a registry that has none makes `NewChunk` fail.
unfoldable pub new_chunk : ChunkPos → Dimension → Option ℕ → Option Chunk
new_chunk position dimension none = none
new_chunk position dimension (some air) = some (record {
  position = position;
  dimension = with_defaults dimension;
  sub_chunks = replicate (sub_chunk_count (with_defaults dimension)) empty_sub;
  biome_overrides = [];
  default_biome_id = 0;
  air_runtime_id = air;
})

-- `(x & 15) << 8 | (z & 15) << 4 | (y & 15)`; the three fields do not overlap.
unfoldable pub block_offset : ℕ → ℤ → ℕ → ℕ
block_offset x y z = x % 16 * 256 + z % 16 * 16 + emod y 16

unfoldable pub sub_index : Chunk → ℤ → ℤ
sub_index c y = floor_div16 y -ℤ min_sub_y c.dimension

unfoldable pub sub_y : Chunk → ℕ → ℤ
sub_y c index = wrap16 (sixteen (min_sub_y c.dimension +ℤ pos index))

-- `uint32(chunk.SubIndex(y)) << 12 | offset`
unfoldable pub biome_offset : Chunk → ℕ → ℤ → ℕ → ℕ
biome_offset c x y z = (pos_part (sub_index c y) * 4096 + block_offset x y z) % 4294967296

unfoldable pub out_of_range : Chunk → ℕ → ℤ → ℕ → Bool
out_of_range c x y z =
    ltb 15 x || ltb 15 z || ltb_ℤ y (min_y_of c.dimension) || ltb_ℤ (max_y_of c.dimension) y

abbrev pub blocks_of : SubChunk → ℕ → Dict ℕ
blocks_of sub layer = elim (lookup layer sub.layers) [ none ↦ [] | some blocks ↦ blocks ]

abbrev pub no_blocks : Dict ℕ → Bool
no_blocks [] = true
no_blocks (b ∷ bs) = false

abbrev pub sub_at : Chunk → ℤ → SubChunk
sub_at c index = get_or c.sub_chunks (pos_part index) empty_sub

abbrev pub put_sub : Chunk → ℤ → SubChunk → Chunk
put_sub c index sub = record c { sub_chunks = set c.sub_chunks (pos_part index) sub }

unfoldable pub delete_from : SubChunk → ℕ → ℕ → SubChunk
delete_from sub layer offset =
    let blocks = blocks_of sub layer in
    let left = erase offset blocks in
    if no_blocks blocks
    then sub
    else if no_blocks left
    then record { layers = erase layer sub.layers }
    else record { layers = insert layer left sub.layers }

unfoldable pub delete_runtime_id : Chunk → ℤ → ℕ → ℤ → ℕ → ℕ → Chunk
delete_runtime_id c index x y z layer =
    put_sub c index (delete_from (sub_at c index) layer (block_offset x y z))

unfoldable pub insert_into : SubChunk → ℕ → ℕ → ℕ → SubChunk
insert_into sub layer offset id = record {
  layers = insert layer (insert offset id (blocks_of sub layer)) sub.layers;
}

-- `SetRuntimeID` after the check of the position.
unfoldable pub store_runtime_id : Chunk → ℕ → ℤ → ℕ → ℕ → ℕ → Chunk
store_runtime_id c x y z layer id =
    let index = sub_index c y in
    if id == c.air_runtime_id
    then delete_runtime_id c index x y z layer
    else put_sub c index (insert_into (sub_at c index) layer (block_offset x y z) id)

-- `none` is the error of a position outside the chunk.
unfoldable pub set_runtime_id : Chunk → ℕ → ℤ → ℕ → ℕ → ℕ → Option Chunk
set_runtime_id c x y z layer id =
    if out_of_range c x y z then none else some (store_runtime_id c x y z layer id)

-- `none` stands for the registry's error as well.
unfoldable pub set_block : Chunk → ℕ → ℤ → ℕ → ℕ → Option ℕ → Option Chunk
set_block c x y z layer none = none
set_block c x y z layer (some id) = set_runtime_id c x y z layer id

abbrev pub or_default : Option ℕ → ℕ → ℕ
or_default none d = d
or_default (some v) d = v

unfoldable pub read_sub : SubChunk → ℕ → ℕ → ℕ → ℕ
read_sub sub layer offset air = or_default (lookup offset (blocks_of sub layer)) air

unfoldable pub runtime_id : Chunk → ℕ → ℤ → ℕ → ℕ → ℕ
runtime_id c x y z layer =
    if out_of_range c x y z
    then c.air_runtime_id
    else read_sub (sub_at c (sub_index c y)) layer (block_offset x y z) c.air_runtime_id

unfoldable pub fill_biome_id : Chunk → ℕ → Chunk
fill_biome_id c id = record c { default_biome_id = id; biome_overrides = [] }

abbrev pub biome_map : Chunk → ℕ → ℕ → Dict ℕ
biome_map c key id =
    if id == c.default_biome_id
    then erase key c.biome_overrides
    else insert key id c.biome_overrides

unfoldable pub set_biome_id : Chunk → ℕ → ℤ → ℕ → ℕ → Option Chunk
set_biome_id c x y z id =
    if out_of_range c x y z
    then none
    else some (record c { biome_overrides = biome_map c (biome_offset c x y z) id })

unfoldable pub biome_id : Chunk → ℕ → ℤ → ℕ → ℕ
biome_id c x y z =
    if out_of_range c x y z
    then c.default_biome_id
    else or_default (lookup (biome_offset c x y z) c.biome_overrides) c.default_biome_id

unfoldable pub all_empty : Dict (Dict ℕ) → Bool
all_empty [] = true
all_empty ((l, blocks) ∷ layers) = no_blocks blocks && all_empty layers

unfoldable pub sub_chunk_empty : Chunk → ℕ → Bool
sub_chunk_empty c index =
    leb (length c.sub_chunks) index || all_empty (get_or c.sub_chunks index empty_sub).layers

-- The loop over the layers, with `highest + 1` so far.
unfoldable pub layer_count : Dict (Dict ℕ) → ℕ → ℕ
layer_count [] count = count
layer_count ((l, blocks) ∷ layers) count =
    layer_count layers (if not (no_blocks blocks) && leb count l then l + 1 else count)

unfoldable pub sub_chunk_layer_count : Chunk → ℕ → ℕ
sub_chunk_layer_count c index =
    if leb (length c.sub_chunks) index
    then 0
    else layer_count (get_or c.sub_chunks index empty_sub).layers 0

-- The loop of `HighestFilledSubChunk` from `index` down to 1.
unfoldable pub filled_from : Chunk → ℕ → ℕ
filled_from c zero = 0
filled_from c (suc i) = if sub_chunk_empty c (suc i) then filled_from c i else suc i

unfoldable pub highest_filled_sub_chunk : Chunk → ℕ
highest_filled_sub_chunk c = filled_from c (length c.sub_chunks - 1)

-- The inner loop of `HighestBlockY`, `n` blocks above `base_y` left.
unfoldable pub highest_in : Chunk → ℕ → ℕ → ℕ → ℤ → ℕ → Option ℤ
highest_in c x z layer base_y zero = none
highest_in c x z layer base_y (suc n) =
    let y = wrap16 (base_y +ℤ pos n) in
    if runtime_id c x y z layer == c.air_runtime_id then highest_in c x z layer base_y n else some y

-- The outer loop, `n` sub chunks left.
unfoldable pub highest_below : Chunk → ℕ → ℕ → ℕ → ℕ → ℤ
highest_below c x z layer zero = min_y_of c.dimension
highest_below c x z layer (suc n) =
    let rest = highest_below c x z layer n in
    if sub_chunk_empty c n
    then rest
    else elim (highest_in c x z layer (sub_y c n) 16) [ some y ↦ y | none ↦ rest ]

unfoldable pub highest_block_y : Chunk → ℕ → ℕ → ℕ → ℤ
highest_block_y c x z layer = highest_below c x z layer (length c.sub_chunks)
