-- ===== src/World/Biomes.antt =====
-- The biomes of a chunk: a default and a map of exceptions, read as one map over the positions.
use open_ai_mc_be_server.Prelude.{
  ==_iff, ℕ, ◌+◌, ◌*◌, ◌%◌, ◌<◌, ◌≡◌, arith, true, false, ◌==◌, if◌then◌else◌, Bool-cases, inl, inr,
  some,
}
use open_ai_mc_be_server.Prelude.Int.{ℤ, pos_part}
use open_ai_mc_be_server.Prelude.Dict.{lookup, lookup-insert, lookup-erase}
use open_ai_mc_be_server.World.Dimension.{sub_chunk_count}
use open_ai_mc_be_server.World.Chunk.{
  biome_map, or_default, block_offset, sub_index, Chunk, biome_offset, biome_id, set_biome_id,
  fill_biome_id, out_of_range,
}
use open_ai_mc_be_server.World.Index.{
  InChunk-in_range, IsChunk, InChunk, in_range-InChunk, offset-lt, sub_index_in_range,
  key-injective,
}
use open_ai_mc_be_server.World.Blocks.{same_block, same_block_lem, same_block_conv}

split_key :
    (i j o p : ℕ)
    → i < 1048576
    → j < 1048576
    → o < 4096
    → p < 4096
    → (i * 4096 + o) % 4294967296 ≡ (j * 4096 + p) % 4294967296
    → (i ≡ j) × (o ≡ p)
split_key i j o p a b c d h = (omega arith, omega arith)

-- The keys of two biome positions differ, in a chunk of fewer than 2 ^ 20 sub chunks.
biome_offset-injective :
    (c : Chunk) (x x' : ℕ) (y y' : ℤ) (z z' : ℕ)
    → IsChunk c
    → sub_chunk_count c.dimension < 1048576
    → InChunk c x y z
    → InChunk c x' y' z'
    → biome_offset c x y z ≡ biome_offset c x' y' z'
    → (x ≡ x') × (y ≡ y') × (z ≡ z')
unfolding biome_offset
biome_offset-injective c x x' y y' z z' v n h h' e =
    let i = sub_index_in_range c x y z v h in
    let j = sub_index_in_range c x' y' z' v h' in
    let k =
      split_key (pos_part (sub_index c y)) (pos_part (sub_index c y')) (block_offset x y z)
        (block_offset x' y' z') (omega (arith, v.counted, i.1)) (omega (arith, v.counted, j.1))
        (offset-lt x y z) (offset-lt x' y' z') e in
    key-injective c x x' y y' z z' v h h' k.0 k.1

eqb_self : (n : ℕ) → (n == n) ≡ true
eqb_self n = ground arith

apart_keys :
    (c : Chunk) (x x' : ℕ) (y y' : ℤ) (z z' : ℕ)
    → IsChunk c
    → sub_chunk_count c.dimension < 1048576
    → InChunk c x y z
    → InChunk c x' y' z'
    → same_block x y z 0 x' y' z' 0 ≡ false
    → (biome_offset c x y z == biome_offset c x' y' z') ≡ false
apart_keys c x x' y y' z z' v n h h' s =
    elim (Bool-cases (biome_offset c x y z == biome_offset c x' y' z')) [
      | inl k ↦
          let (a, b, d) = biome_offset-injective c x x' y y' z z' v n h h' ((==_iff _ _).0 k) in
          cc (same_block_conv x y z 0 x' y' z' 0 a b d)
      | inr k ↦ k
    ]

biome_map-read :
    (c : Chunk) (k id k' : ℕ)
    → or_default (lookup k' (biome_map c k id)) c.default_biome_id
      ≡ (if k == k' then id else or_default (lookup k' c.biome_overrides) c.default_biome_id)
biome_map-read c k id k' =
    ground (arith, lookup-insert k k' id c.biome_overrides, lookup-erase k k' c.biome_overrides)

read_updated :
    (c : Chunk) (x : ℕ) (y : ℤ) (z id x' : ℕ) (y' : ℤ) (z' : ℕ)
    → IsChunk c
    → sub_chunk_count c.dimension < 1048576
    → InChunk c x y z
    → biome_id (record c { biome_overrides = biome_map c (biome_offset c x y z) id }) x' y' z'
      ≡ (if same_block x y z 0 x' y' z' 0 then id else biome_id c x' y' z')
unfolding biome_id out_of_range biome_offset sub_index
read_updated c x y z id x' y' z' v n h = elim (Bool-cases (same_block x y z 0 x' y' z' 0)) [
  | inl s ↦
      let (a, b, d, _) = same_block_lem x y z 0 x' y' z' 0 s in
      rw (s, ← a, ← b, ← d, InChunk-in_range c x y z h, biome_map-read, eqb_self)
  | inr s ↦ elim (Bool-cases (out_of_range c x' y' z')) [
    | inl e ↦ rw (s, e)
    | inr e ↦
        let other : (biome_offset c x y z == biome_offset c x' y' z') ≡ false =
          apart_keys c x x' y y' z z' v n h (in_range-InChunk c x' y' z' e) s in
        rw (s, e, biome_map-read, other)
  ]
]

-- In a chunk that has the sub chunks of its dimension, fewer than 1048576, a biome that is set
-- with no error, the default one included, reads back as it was set, and every other position
-- reads as before.
pub biome_id-set_biome_id :
    (c : Chunk) (x : ℕ) (y : ℤ) (z id : ℕ) {c' : Chunk} (x' : ℕ) (y' : ℤ) (z' : ℕ)
    → IsChunk c
    → sub_chunk_count c.dimension < 1048576
    → set_biome_id c x y z id ≡ some c'
    → biome_id c' x' y' z' ≡ (if same_block x y z 0 x' y' z' 0 then id else biome_id c x' y' z')
unfolding set_biome_id
biome_id-set_biome_id c x y z id {c'} x' y' z' v n e = elim (Bool-cases (out_of_range c x y z)) [
  | inl o ↦ cc
  | inr o ↦
      let updated = record c { biome_overrides = biome_map c (biome_offset c x y z) id } in
      let same : updated ≡ c' = ground arith in
      rw (← same) (read_updated c x y z id x' y' z' v n (in_range-InChunk c x y z o))
]

-- After `FillBiomeID`, every position, in the chunk or not, has the biome that it was given.
pub biome_id-fill_biome_id :
    (c : Chunk) (id x : ℕ) (y : ℤ) (z : ℕ) → biome_id (fill_biome_id c id) x y z ≡ id
unfolding biome_id fill_biome_id lookup
biome_id-fill_biome_id c id x y z = ground arith
