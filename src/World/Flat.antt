-- ===== src/World/Flat.antt =====
-- The flat generator (internal/world/flat.go). The registry has no fields, so it is always the
-- default one.
use open_ai_mc_be_server.Prelude.{
  ℕ, zero, suc, ◌+◌, Bool, ◌&&◌, List, [], ◌∷◌, Option, none, some, length, if◌then◌else◌,
}
use open_ai_mc_be_server.Prelude.Int.{ℤ, pos, ◌+ℤ◌, leb_ℤ, wrap16}
use open_ai_mc_be_server.Prelude.Strings.{codes}
use open_ai_mc_be_server.Command.Registry.{is_blank}
use mathlib.Core.Option
use open_ai_mc_be_server.World.Dimension.{Dimension, overworld, min_y_of, max_y_of}
use open_ai_mc_be_server.World.Chunk.{Chunk, ChunkPos, new_chunk, set_runtime_id, fill_biome_id}
use open_ai_mc_be_server.World.Runtime.{
  Encoding, BlockState, Biome, biome_by_name, runtime_id_of, plain_block,
}

-- float32: `is_zero` compares with 0, `of_int` converts an int16, and `floor32` is
-- `int32(math.Floor(float64(v)))`.
pub record Floats (F : Type 0) : Type 0 where
  pub is_zero : F → Bool
  pub half : F
  pub of_int : ℤ → F
  pub floor32 : F → ℤ

pub record Vec3 (F : Type 0) : Type 0 where
  pub x : F
  pub y : F
  pub z : F

pub record BlockPos : Type 0 where
  pub x : ℤ
  pub y : ℤ
  pub z : ℤ

pub record FlatGenerator (V F : Type 0) : Type 0 where
  pub dimension_data : Dimension
  pub base_y : ℤ
  pub layers : List (BlockState V)
  pub biome_data : Biome
  pub spawn_position : Vec3 F

abbrev pub and_then : {A B : Type 0} → Option A → (A → Option B) → Option B
and_then none f = none
and_then (some a) f = f a

-- The layers of one column from the given one on. `none` is the error of a height outside the chunk.
unfoldable pub fill_column : Chunk → ℕ → ℕ → ℤ → ℕ → List ℕ → Option Chunk
fill_column c x z base layer [] = some c
fill_column c x z base layer (id ∷ ids) =
    elim (set_runtime_id c x (wrap16 (base +ℤ pos layer)) z 0 id) [
      | none ↦ none
      | some c' ↦ fill_column c' x z base (suc layer) ids
    ]

-- `stops` says at which columns the context is found done.
module _ (stops : ℕ → ℕ → Bool) (base : ℤ) (ids : List ℕ) where
  unfoldable pub fill_row : Chunk → ℕ → List ℕ → Option Chunk
  fill_row c x [] = some c
  fill_row c x (z ∷ zs) = elim (if stops x z then none else fill_column c x z base 0 ids) [
    | none ↦ none
    | some c' ↦ fill_row c' x zs
  ]

  unfoldable pub fill_rows : Chunk → List ℕ → List ℕ → Option Chunk
  fill_rows c [] zs = some c
  fill_rows c (x ∷ xs) zs = elim (fill_row c x zs) [ none ↦ none | some c' ↦ fill_rows c' xs zs ]

-- 0 to 15.
abbrev pub up_to : ℕ → ℕ → List ℕ
up_to zero first = []
up_to (suc n) first = first ∷ up_to n (first + 1)

abbrev pub plains : Biome → Option Biome → Biome
plains given none = given
plains given (some biome) = biome

module _ {V F : Type 0} (nbt : Encoding V) (floats : Floats F) where
  open floats use {is_zero, half, of_int, floor32}

  abbrev pub air_block : BlockState V
  air_block = plain_block (codes "minecraft:air")

  unfoldable pub default_layers : List (BlockState V)
  default_layers =
      record {
        name = codes "minecraft:bedrock";
        properties = (codes "infiniburn_bit", nbt.of_byte 0) ∷ [];
      }
      ∷ plain_block (codes "minecraft:dirt")
      ∷ plain_block (codes "minecraft:dirt")
      ∷ plain_block (codes "minecraft:grass_block")
      ∷ []

  unfoldable pub new_flat_generator : Option (FlatGenerator V F)
  new_flat_generator = and_then (biome_by_name (codes "plains")) (λ biome. some (record {
    dimension_data = overworld;
    base_y = pos 60;
    layers = default_layers;
    biome_data = biome;
    spawn_position = record { x = half; y = of_int (pos 64); z = half };
  }))

  abbrev pub or_layers : List (BlockState V) → List (BlockState V)
  or_layers [] = default_layers
  or_layers (state ∷ states) = state ∷ states

  abbrev pub is_zero_vec : Vec3 F → Bool
  is_zero_vec v = is_zero v.x && is_zero v.y && is_zero v.z

  -- `Range` applies the dimension's own defaults first.
  unfoldable pub flat_defaults : FlatGenerator V F → FlatGenerator V F
  flat_defaults given =
      let layers = or_layers given.layers in
      record {
        dimension_data =
            if leb_ℤ (max_y_of given.dimension_data) (min_y_of given.dimension_data)
            then overworld
            else given.dimension_data;
        base_y = given.base_y;
        layers = layers;
        biome_data =
            if is_blank given.biome_data.name
            then plains given.biome_data (biome_by_name (codes "plains"))
            else given.biome_data;
        spawn_position =
            if is_zero_vec given.spawn_position
            then record {
              x = half;
              y = of_int (wrap16 (given.base_y +ℤ pos (length layers)));
              z = half;
            }
            else given.spawn_position;
      }

  unfoldable pub runtime_ids : List (BlockState V) → Option (List ℕ)
  runtime_ids [] = some []
  runtime_ids (state ∷ states) = elim (runtime_id_of nbt state) [
    | none ↦ none
    | some id ↦ Option.map (λ ids. id ∷ ids) (runtime_ids states)
  ]

  abbrev pub chunk_with : (ℕ → ℕ → Bool) → FlatGenerator V F → ChunkPos → Option Chunk
  chunk_with stops generator position =
      and_then (new_chunk position generator.dimension_data (runtime_id_of nbt air_block)) (λ c.
        and_then (runtime_ids generator.layers) (λ ids.
          fill_rows stops generator.base_y ids (fill_biome_id c generator.biome_data.id)
            (up_to 16 0) (up_to 16 0)))

  unfoldable pub generate : (ℕ → ℕ → Bool) → FlatGenerator V F → ChunkPos → Option Chunk
  generate stops generator position = chunk_with stops (flat_defaults generator) position

  unfoldable pub spawn : FlatGenerator V F → Vec3 F
  spawn generator = (flat_defaults generator).spawn_position

  unfoldable pub spawn_block : FlatGenerator V F → BlockPos
  spawn_block generator =
      let position = spawn generator in
      record { x = floor32 position.x; y = floor32 position.y; z = floor32 position.z }

  unfoldable pub flat_dimension : FlatGenerator V F → Dimension
  flat_dimension generator = (flat_defaults generator).dimension_data
