-- ===== src/Tests/Worlds.antt =====
-- A chunk of the flat generator (internal/world/flat.go).
use open_ai_mc_be_server.Prelude.{
  sym, subst, length, ◌++◌, ℕ, ◌≡◌, refl, false, ◌&&◌, List, [], ◌∷◌, some, ◌==◌, ltb,
  if◌then◌else◌, arith,
}
use open_ai_mc_be_server.Prelude.Int.{IsInt16, int_laws, ◌+ℤ◌, ◌≤ℤ◌, ℤ, pos, negsuc}
use open_ai_mc_be_server.Prelude.Strings.{codes}
use open_ai_mc_be_server.World.Dimension.{min_y_of, max_y_of, with_defaults, overworld}
use open_ai_mc_be_server.World.Chunk.{Chunk, ChunkPos, runtime_id, biome_id}
use open_ai_mc_be_server.World.Index.{IsChunk}
use open_ai_mc_be_server.World.Runtime.{runtime_id_of, Encoding, plain_block, block_state_hash}
use open_ai_mc_be_server.World.Flat.{
  FlatGenerator, Floats, generate, flat_defaults, flat_dimension, runtime_ids,
}
use open_ai_mc_be_server.World.Layers.{layer_at}
use open_ai_mc_be_server.World.Generated.{air_id, generate-layers}

-- An encoder that writes a key and a number, and floats that are integers.
abbrev plain_encoding : Encoding ℕ
plain_encoding = record {
  encode = λ key value. 1 ∷ 2 ∷ 3 ∷ (key ++ value ∷ 0 ∷ []);
  sort_strings = λ keys. keys;
  of_text = λ t. length t;
  of_byte = λ b. b;
}

abbrev whole_floats : Floats ℤ
whole_floats = record { is_zero = λ v. false; half = pos 0; of_int = λ v. v; floor32 = λ v. v }

-- Two layers at height 60 of the overworld.
abbrev meadow : FlatGenerator ℕ ℤ
meadow = record {
  dimension_data = overworld;
  base_y = pos 60;
  layers = plain_block (codes "minecraft:dirt") ∷ plain_block (codes "minecraft:grass_block") ∷ [];
  biome_data = record { name = codes "plains"; id = 1 };
  spawn_position = record { x = pos 1; y = pos 62; z = pos 1 };
}

abbrev meadow_ids : List ℕ
meadow_ids =
    block_state_hash plain_encoding (plain_block (codes "minecraft:dirt"))
    ∷ block_state_hash plain_encoding (plain_block (codes "minecraft:grass_block"))
    ∷ []

abbrev origin : ChunkPos
origin = record { x = pos 0; z = negsuc 0 }

meadow-resolved :
    runtime_ids plain_encoding whole_floats
      (flat_defaults plain_encoding whole_floats meadow).layers
    ≡ some meadow_ids
unfolding runtime_ids flat_defaults runtime_id_of
meadow-resolved = refl

meadow-bottom : min_y_of (flat_dimension plain_encoding whole_floats meadow) ≡ negsuc 63
unfolding flat_dimension flat_defaults with_defaults
meadow-bottom = refl

meadow-top : max_y_of (flat_dimension plain_encoding whole_floats meadow) ≡ pos 319
unfolding flat_dimension flat_defaults with_defaults
meadow-top = refl

generate-layers_example :
    (c : Chunk) × (generate plain_encoding whole_floats (λ x z. false) meadow origin ≡ some c)
    × IsChunk c
    × ((x : ℕ) (y : ℤ) (z l : ℕ)
        → runtime_id c x y z l ≡ (
            if ltb x 16 && ltb z 16 && l == 0
            then layer_at
                (pos 60)
                meadow_ids
                (air_id plain_encoding whole_floats (λ x z. false) meadow origin)
                y
            else air_id plain_encoding whole_floats (λ x z. false) meadow origin))
    × ((x : ℕ) (y : ℤ) (z : ℕ)
        → biome_id c x y z ≡ (flat_defaults plain_encoding whole_floats meadow).biome_data.id)
generate-layers_example =
    generate-layers plain_encoding whole_floats (λ x z. false) meadow origin meadow_ids
      (λ x z. refl) meadow-resolved (subst (λ t. t ≤ℤ pos 60) (sym meadow-bottom) (omega arith))
      (subst (λ t. pos 60 +ℤ pos 2 ≤ℤ t +ℤ pos 1) (sym meadow-top) (omega int_laws))
      (subst IsInt16 (sym meadow-bottom) (omega arith))
      (subst IsInt16 (sym meadow-top) (omega arith))
