-- ===== src/World/Generated.antt =====
-- What `FlatGenerator.Chunk` generates, and when it does (internal/world/flat.go).
use open_ai_mc_be_server.Prelude.Dict.{lookup}
use open_ai_mc_be_server.Prelude.{
  subst, get_or-replicate, length-replicate, replicate, ℕ, ◌≡◌, refl, sym, ap, ◌∙◌, Bool, false,
  ◌&&◌, List, [], some, ltb, ◌==◌, if◌then◌else◌, length, arith,
}
use open_ai_mc_be_server.Prelude.Int.{pos_part, ℤ, pos, ◌+ℤ◌, ◌≤ℤ◌, IsInt16}
use open_ai_mc_be_server.World.Dimension.{
  sub_chunk_count, Dimension, with_defaults, min_y_of, max_y_of,
}
use open_ai_mc_be_server.World.Chunk.{
  sub_index, empty_sub, read_sub, Chunk, ChunkPos, new_chunk, runtime_id, fill_biome_id, biome_id,
}
use open_ai_mc_be_server.World.Index.{IsChunk}
use open_ai_mc_be_server.World.Runtime.{Encoding, block_state_hash, runtime_id_of}
use open_ai_mc_be_server.World.Flat.{
  FlatGenerator, Floats, generate, flat_defaults, flat_dimension, runtime_ids, air_block, up_to,
  fill_rows,
}
use open_ai_mc_be_server.World.Layers.{layer_at, IsFilled, fill_rows-IsFilled}

with_defaults_twice : (d : Dimension) → with_defaults (with_defaults d) ≡ with_defaults d
unfolding with_defaults
with_defaults_twice d = ground arith

min_y_twice : (d : Dimension) → min_y_of d ≡ min_y_of (with_defaults d)
min_y_twice d = ap (λ (t : Dimension). t.min_y) (sym (with_defaults_twice d))

max_y_twice : (d : Dimension) → max_y_of d ≡ max_y_of (with_defaults d)
max_y_twice d = ap (λ (t : Dimension). t.max_y) (sym (with_defaults_twice d))

abbrev fresh : ChunkPos → Dimension → ℕ → Chunk
fresh position d air = record {
  position = position;
  dimension = with_defaults d;
  sub_chunks = replicate (sub_chunk_count (with_defaults d)) empty_sub;
  biome_overrides = [];
  default_biome_id = 0;
  air_runtime_id = air;
}

fresh-air :
    (position : ChunkPos) (d : Dimension) (air biome x : ℕ) (y : ℤ) (z l : ℕ)
    → runtime_id (fill_biome_id (fresh position d air) biome) x y z l ≡ air
unfolding runtime_id read_sub fill_biome_id lookup
fresh-air position d air biome x y z l =
    let i = pos_part (sub_index (fill_biome_id (fresh position d air) biome) y) in
    rw (get_or-replicate (sub_chunk_count (with_defaults d)) i empty_sub) (ground arith)

fresh-IsFilled :
    (base : ℤ) (ids : List ℕ) (position : ChunkPos) (d : Dimension) (air biome : ℕ)
    → IsFilled base ids air biome
        (with_defaults d)
        0
        0
        []
        (fill_biome_id (fresh position d air) biome)
unfolding fill_biome_id
fresh-IsFilled base ids position d air biome = record {
  chunk = record { counted = length-replicate (sub_chunk_count (with_defaults d)) empty_sub };
  in_dimension = refl;
  has_air = refl;
  plain = refl;
  one_biome = refl;
  reads = λ x y z l. fresh-air position d air biome x y z l ∙ ground arith;
}

-- A chunk without exceptions has one biome.
biome_id-plain :
    (c : Chunk) (x : ℕ) (y : ℤ) (z : ℕ)
    → c.biome_overrides ≡ []
    → biome_id c x y z ≡ c.default_biome_id
unfolding biome_id lookup
biome_id-plain c x y z e = rw e (ground arith)

module _ {V F : Type 0} (nbt : Encoding V) (floats : Floats F) (stops : ℕ → ℕ → Bool)
    (generator : FlatGenerator V F) (position : ChunkPos) where
  abbrev pub air_id : ℕ
  air_id = block_state_hash nbt (air_block nbt floats)

  abbrev pub biome : ℕ
  biome = (flat_defaults nbt floats generator).biome_data.id

  generate-fill :
      (ids : List ℕ)
      → runtime_ids nbt floats (flat_defaults nbt floats generator).layers ≡ some ids
      → generate nbt floats stops generator position
        ≡ fill_rows stops generator.base_y ids
            (fill_biome_id (fresh position (flat_dimension nbt floats generator) air_id) biome)
            (up_to 16 0)
            (up_to 16 0)
  unfolding generate new_chunk runtime_id_of flat_dimension flat_defaults
  generate-fill ids e = rw e refl

  -- If the context is never done, the layers have runtime ids, and they fit between the base
  -- and the top of the dimension, whose range is one of int16, then `Chunk` returns a chunk
  -- with the sub chunks of its dimension. In layer 0 of each of its columns it reads the ids
  -- of the layers from the base up and air below and above, in every other layer and outside
  -- the chunk air, and everywhere the generator's biome.
  pub generate-layers :
      (ids : List ℕ)
      → ((x z : ℕ) → stops x z ≡ false)
      → runtime_ids nbt floats (flat_defaults nbt floats generator).layers ≡ some ids
      → min_y_of (flat_dimension nbt floats generator) ≤ℤ generator.base_y
      → generator.base_y +ℤ pos (length ids)
        ≤ℤ max_y_of (flat_dimension nbt floats generator) +ℤ pos 1
      → IsInt16 (min_y_of (flat_dimension nbt floats generator))
      → IsInt16 (max_y_of (flat_dimension nbt floats generator))
      → (c : Chunk) × (generate nbt floats stops generator position ≡ some c)
        × IsChunk c
        × ((x : ℕ) (y : ℤ) (z l : ℕ)
            → runtime_id c x y z l ≡ (
                if ltb x 16 && ltb z 16 && l == 0
                then layer_at generator.base_y ids air_id y
                else air_id))
        × ((x : ℕ) (y : ℤ) (z : ℕ) → biome_id c x y z ≡ biome)
  generate-layers ids never e low high bottom top =
      let d = flat_dimension nbt floats generator in
      let (c, done, f) =
        fill_rows-IsFilled generator.base_y ids air_id biome (with_defaults d)
          (subst (λ t. t ≤ℤ generator.base_y) (min_y_twice d) low)
          (subst (λ t. generator.base_y +ℤ pos (length ids) ≤ℤ t +ℤ pos 1) (max_y_twice d) high)
          (subst IsInt16 (min_y_twice d) bottom) (subst IsInt16 (max_y_twice d) top) stops never 16
          (fill_biome_id (fresh position d air_id) biome) 0 (omega arith)
          (fresh-IsFilled generator.base_y ids position d air_id biome) in
      (
        c,
        generate-fill ids e ∙ done,
        f.chunk,
        λ x y z l. f.reads x y z l ∙ ground arith,
        λ x y z. biome_id-plain c x y z f.plain ∙ f.one_biome,
      )
