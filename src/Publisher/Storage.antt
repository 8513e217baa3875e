-- ===== src/Publisher/Storage.antt =====
-- Sub chunks and biomes as a client gets them (internal/server/chunk_publisher.go, `encodeSubChunk`,
-- `encodeBiomes` and `subChunkHeightMap`). `varint32` is gophertunnel's encoding of a number.
use open_ai_mc_be_server.Publisher.Packing.{write_packed_indices}
use open_ai_mc_be_server.Publisher.Palette.{palette_bits, palette_indices}
use open_ai_mc_be_server.Network.Codec.{Bytes}
use open_ai_mc_be_server.Prelude.Int.{
  ◌-ℤ◌, negsuc, ltb_ℤ, sub_ℕ, wrap32, ◌+ℤ◌, emod, pos, wrap16, ℤ,
}
use open_ai_mc_be_server.Prelude.{
  false, set, some, none, ◌∷◌, Option, true, length, ltb, ◌==◌, ◌++◌, if◌then◌else◌, Bool, [],
  replicate, List, ℕ, zero, suc, ◌+◌, ◌*◌, ◌/◌, ◌%◌,
}
use mathlib.Core.Option
use Prim.Native.Nat.{bit_or}
use open_ai_mc_be_server.World.Chunk.{
  Chunk, runtime_id, biome_id, sub_y, sub_index, highest_block_y, sub_chunk_layer_count,
}
use open_ai_mc_be_server.World.Dimension.{min_sub_y}

abbrev pub sub_chunk_version : ℕ
sub_chunk_version = 9

abbrev pub network_encoding : ℕ
network_encoding = 1

-- The values of a function from `i` on, `n` of them.
abbrev pub tabulate {ℓ} : {A : Type ℓ} → ℕ → ℕ → (ℕ → A) → List A
tabulate i zero f = []
tabulate i (suc n) f = f i ∷ tabulate (suc i) n f

-- The block of a sub chunk with number `i`: x, z and y.
abbrev pub block_x : ℕ → ℕ
block_x i = i / 256

abbrev pub block_z : ℕ → ℕ
block_z i = i / 16 % 16

abbrev pub block_y : ℤ → ℕ → ℤ
block_y base_y i = wrap16 (base_y +ℤ pos (i % 16))

abbrev pub value_bytes : (ℤ → Bytes) → List ℕ → Bytes
value_bytes varint32 [] = []
value_bytes varint32 (v ∷ values) = varint32 (wrap32 (pos v)) ++ value_bytes varint32 values

-- A storage of one value has no indices.
abbrev pub index_bytes : (ℤ → Bytes) → ℕ → List ℕ → List ℕ → Bytes
index_bytes varint32 bits palette indices =
    if bits == 0
    then []
    else write_packed_indices bits indices ++ varint32 (wrap32 (pos (length palette)))

unfoldable pub encode_paletted_storage : (ℤ → Bytes) → List ℕ → Bytes
encode_paletted_storage varint32 values =
    let (palette, indices) = palette_indices values in
    let bits = palette_bits (length palette) in
    bit_or ((bits * 2) % 256) network_encoding ∷ index_bytes varint32 bits palette indices
    ++ value_bytes varint32 palette

abbrev pub block_values : Chunk → ℕ → ℕ → List ℕ
block_values c index layer =
    tabulate 0 4096 (λ i. runtime_id c (block_x i) (block_y (sub_y c index) i) (block_z i) layer)

abbrev pub biome_values : Chunk → ℕ → List ℕ
biome_values c index =
    tabulate 0 4096 (λ i. biome_id c (block_x i) (block_y (sub_y c index) i) (block_z i))

unfoldable pub encode_block_storage : (ℤ → Bytes) → Chunk → ℕ → ℕ → Bytes
encode_block_storage varint32 c index layer =
    encode_paletted_storage varint32 (block_values c index layer)

-- `n` sub chunks from `index` on.
unfoldable pub encode_biomes_from : (ℤ → Bytes) → Chunk → ℕ → ℕ → Bytes
encode_biomes_from varint32 c index zero = []
encode_biomes_from varint32 c index (suc n) =
    encode_paletted_storage varint32 (biome_values c index)
    ++ encode_biomes_from varint32 c (suc index) n

unfoldable pub encode_biomes : (ℤ → Bytes) → Chunk → Bytes
encode_biomes varint32 c = encode_biomes_from varint32 c 0 (length c.sub_chunks)

-- The loop over the layers, whose variable is a uint8. `none`: the fuel ran out.
unfoldable pub layers_from : (ℕ → Bytes) → ℕ → ℕ → ℕ → Option Bytes
layers_from storage zero layer count = none
layers_from storage (suc fuel) layer count =
    let rest = layers_from storage fuel ((layer + 1) % 256) count in
    if ltb layer count then Option.map (λ bytes. storage layer ++ bytes) rest else some []

abbrev pub layer_bytes : (ℤ → Bytes) → Chunk → ℕ → ℕ → Bytes
layer_bytes varint32 c index layer = encode_block_storage varint32 c index layer

unfoldable pub encode_sub_chunk : (ℤ → Bytes) → ℕ → Chunk → ℕ → Option Bytes
encode_sub_chunk varint32 fuel c index =
    let count = sub_chunk_layer_count c index in
    Option.map
      (λ bytes.
        sub_chunk_version ∷ count % 256 ∷ emod (pos index +ℤ min_sub_y c.dimension) 256 ∷ bytes)
      (layers_from (layer_bytes varint32 c index) fuel 0 count)

-- The variables of the loops of `subChunkHeightMap`. The heights are int8 values.
pub record HeightScan : Type 0 where
  pub heights : List ℤ
  pub higher : Bool
  pub lower : Bool

pub data HeightMap : Type 0 where
  too_high : HeightMap
  too_low : HeightMap
  has_data : List ℤ → HeightMap

abbrev pub wrap8 : ℤ → ℤ
wrap8 z = let r = emod z 256 in if ltb r 128 then pos r else sub_ℕ r 256

abbrev pub scan_column : Chunk → ℕ → ℕ → ℕ → HeightScan → HeightScan
scan_column c index x z scan =
    let y = highest_block_y c x z 0 in
    let other = sub_index c y in
    let i = z * 16 + x in
    if ltb_ℤ (pos index) other
    then record scan { heights = set scan.heights i (pos 16); lower = false }
    else if ltb_ℤ other (pos index)
    then record scan { heights = set scan.heights i (negsuc 0); higher = false }
    else record {
      heights = set scan.heights i (wrap8 (y -ℤ sub_y c index));
      higher = false;
      lower = false;
    }

-- The two loops as one over x * 16 + z, `n` columns from `i` on.
unfoldable pub scan_from : Chunk → ℕ → ℕ → ℕ → HeightScan → HeightScan
scan_from c index i zero scan = scan
scan_from c index i (suc n) scan =
    scan_from c index (suc i) n (scan_column c index (i / 16) (i % 16) scan)

abbrev pub no_heights : HeightScan
no_heights = record { heights = replicate 256 (pos 0); higher = true; lower = true }

unfoldable pub sub_chunk_height_map : Chunk → ℕ → HeightMap
sub_chunk_height_map c index =
    let scan = scan_from c index 0 256 no_heights in
    if scan.higher then too_high else if scan.lower then too_low else has_data scan.heights
