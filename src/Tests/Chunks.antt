-- ===== src/Tests/Chunks.antt =====
-- A chunk of the overworld with some blocks and biomes (internal/world/types.go), and the values of a
-- storage (internal/server/chunk_publisher.go).
use open_ai_mc_be_server.Prelude.{
  replicate, ℕ, ◌<◌, ◌≡◌, ◌↔◌, some, List, [], ◌∷◌, if◌then◌else◌, refl, arith,
}
use open_ai_mc_be_server.Prelude.Int.{ℤ, pos, negsuc, ◌+ℤ◌}
use open_ai_mc_be_server.Prelude.{replicate}
use open_ai_mc_be_server.Prelude.Int.{emod, ◌-ℤ◌}
use open_ai_mc_be_server.World.Chunk.{biome_offset, out_of_range}
use open_ai_mc_be_server.World.Dimension.{
  min_sub_y, max_sub_y, overworld, with_defaults, sub_chunk_count, floor_div16,
}
use open_ai_mc_be_server.World.Chunk.{
  Chunk, empty_sub, runtime_id, set_runtime_id, store_runtime_id, set_biome_id, biome_id, sub_index,
  block_offset,
}
use open_ai_mc_be_server.World.Index.{IsChunk, InChunk}
use open_ai_mc_be_server.World.Blocks.{
  same_block, runtime_id-set_runtime_id, set_runtime_id-accepts,
}
use open_ai_mc_be_server.World.Biomes.{biome_id-set_biome_id}
use open_ai_mc_be_server.Prelude.Dict.{insert}

abbrev plain : Chunk
plain = record {
  position = record { x = pos 2; z = negsuc 0 };
  dimension = overworld;
  sub_chunks = replicate 24 empty_sub;
  biome_overrides = [];
  default_biome_id = 1;
  air_runtime_id = 12;
}

plain-IsChunk : IsChunk plain
unfolding sub_chunk_count max_sub_y min_sub_y floor_div16 with_defaults ◌+ℤ◌ ◌-ℤ◌
plain-IsChunk = record { counted = refl }

stone_set :
    set_runtime_id plain 3 (negsuc 40) 15 0 77 ≡ some (store_runtime_id plain 3 (negsuc 40) 15 0 77)
unfolding set_runtime_id out_of_range with_defaults
stone_set = refl

runtime_id-set_runtime_id_example :
    let after = store_runtime_id plain 3 (negsuc 40) 15 0 77 in
    IsChunk after
    × ((x' : ℕ) (y' : ℤ) (z' l' : ℕ)
        → runtime_id after x' y' z' l' ≡ (
            if same_block 3 (negsuc 40) 15 0 x' y' z' l' then 77 else runtime_id plain x' y' z' l'))
runtime_id-set_runtime_id_example =
    runtime_id-set_runtime_id plain 3 (negsuc 40) 15 0 77 plain-IsChunk stone_set

set_runtime_id-accepts_example :
    ((c' : Chunk) × (set_runtime_id plain 3 (negsuc 40) 15 0 77 ≡ some c'))
    ↔ InChunk plain 3 (negsuc 40) 15
set_runtime_id-accepts_example = set_runtime_id-accepts plain 3 (negsuc 40) 15 0 77

few_sub_chunks : sub_chunk_count overworld < 1048576
few_sub_chunks = rw (← plain-IsChunk.counted) (omega arith)

-- The chunk with biome 5 in one place.
abbrev swampy : Chunk
swampy = record plain { biome_overrides = (5111, 5) ∷ [] }

swamp_set : set_biome_id plain 3 (negsuc 40) 15 5 ≡ some swampy
unfolding set_biome_id out_of_range biome_offset block_offset sub_index with_defaults insert ◌-ℤ◌
    floor_div16 min_sub_y emod
swamp_set = refl

biome_id-set_biome_id_example :
    biome_id swampy 4 (pos 319) 0
    ≡ (if same_block 3 (negsuc 40) 15 0 4 (pos 319) 0 0 then 5 else biome_id plain 4 (pos 319) 0)
biome_id-set_biome_id_example =
    biome_id-set_biome_id plain 3 (negsuc 40) 15 5 4 (pos 319) 0 plain-IsChunk few_sub_chunks
      swamp_set

abbrev values : List ℕ
values = 12 ∷ 7 ∷ 12 ∷ 300 ∷ []
