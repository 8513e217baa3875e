-- ===== src/Tests/Sending.antt =====
-- What a publisher sends (internal/server/chunk_publisher.go).
use open_ai_mc_be_server.Prelude.Dict.{insert, lookup}
use open_ai_mc_be_server.Prelude.{
  ◌<◌, get_elem?, ltb, leb, length, ℕ, ◌≡◌, refl, List, [], ◌∷◌, some, none, arith, true, false,
  replicate, if◌then◌else◌,
}
use open_ai_mc_be_server.Prelude.Int.{emod, ◌+ℤ◌, wrap32, ℤ, pos, negsuc, pos_part, ◌-ℤ◌}
use open_ai_mc_be_server.World.Chunk.{all_empty, Chunk, empty_sub, sub_chunk_empty}
use open_ai_mc_be_server.World.Dimension.{
  overworld, min_sub_y, max_sub_y, floor_div16, with_defaults,
}
use open_ai_mc_be_server.Publisher.Palette.{palette_indices, palette_bits, index_values}
use open_ai_mc_be_server.Publisher.Packing.{packed_words, read_index}
use open_ai_mc_be_server.Publisher.ReadBack.{storage-values}
use open_ai_mc_be_server.Publisher.Positions.{
  capacity, Offset, occurrences, chunk_offsets, occurrences-chunk_offsets, distance_of,
}
use open_ai_mc_be_server.Publisher.Layers.{layers_from-ends, layers_from-256}
use open_ai_mc_be_server.Publisher.Storage.{layers_from, sub_chunk_height_map}
use open_ai_mc_be_server.Publisher.Entries.{
  entry_of, entries_from, index_out_of_bounds, sub_chunk_packet-AreFor, sub_chunk_packet, AreFor,
  SubChunkEntry, Pos3, ChunkProvider, SubChunkRequest, answer, success_all_air, sub_chunk_entry,
}
use open_ai_mc_be_server.Publisher.Initial.{
  ChunkPublisher, Surroundings, Progress, initial_packets, send_initial, send_initial-Progress,
}

-- An offset on the edge of radius 2, and one outside.
abbrev edge : Offset
edge = record { x = pos 2; z = negsuc 0 }

occurrences-chunk_offsets_example :
    (offsets : List Offset) × (chunk_offsets 2 ≡ some offsets)
    × (occurrences edge offsets ≡ (if leb (distance_of edge) 2 then 1 else 0))
occurrences-chunk_offsets_example = occurrences-chunk_offsets edge 2 (omega arith)

-- The configuration accepts this view distance.
too_far : chunk_offsets 23170 ≡ none
unfolding chunk_offsets capacity wrap32 emod
too_far = refl

-- Layer `l` is one byte.
abbrev one_byte : ℕ → List ℕ
one_byte l = l ∷ []

layers_from-ends_example : layers_from one_byte 3 0 2 ≡ some (0 ∷ 1 ∷ [])
layers_from-ends_example = layers_from-ends one_byte 0 2 3 (omega arith) (omega arith)

layers_from-256_example : layers_from one_byte 100000 0 256 ≡ none
layers_from-256_example = layers_from-256 one_byte 100000 0 (omega arith)

-- Three blocks of two kinds.
abbrev blocks : List ℕ
blocks = 70 ∷ 90 ∷ 70 ∷ []

two_kinds : 0 < palette_bits (length (palette_indices blocks).0)
unfolding palette_indices index_values palette_bits lookup insert
two_kinds = omega arith

storage-values_example :
    let (palette, indices) = palette_indices blocks in
    let bits = palette_bits (length palette) in
    get_elem? palette (read_index bits (packed_words bits indices) 1) ≡ get_elem? blocks 1
storage-values_example = storage-values blocks 1 (omega arith) two_kinds (omega arith)

abbrev empty_chunk : Chunk
empty_chunk = record {
  position = record { x = pos 0; z = pos 0 };
  dimension = overworld;
  sub_chunks = replicate 24 empty_sub;
  biome_overrides = [];
  default_biome_id = 1;
  air_runtime_id = 12;
}

abbrev pub source : ChunkProvider
source = record {
  dimension = overworld;
  spawn_block = record { x = pos 3; y = pos 64; z = negsuc 0 };
  chunk = λ p. some empty_chunk;
}

abbrev one_up : Pos3
one_up = record { x = pos 0; y = pos 1; z = pos 0 }

abbrev far_up : Pos3
far_up = record { x = pos 0; y = pos 100; z = pos 0 }

-- The second sub chunk from below, and one above the world.
abbrev request : SubChunkRequest
request = record {
  dimension = pos 0;
  position = record { x = pos 0; y = negsuc 3; z = pos 0 };
  offsets = one_up ∷ far_up ∷ [];
}

abbrev pub varint : ℤ → List ℕ
varint z = pos_part z ∷ []

abbrev entries : List SubChunkEntry
entries =
    record {
      offset = one_up;
      result = success_all_air;
      height_map = some (sub_chunk_height_map empty_chunk 1);
      raw_payload = [];
    }
    ∷ record { offset = far_up; result = index_out_of_bounds; height_map = none; raw_payload = [] }
    ∷ []

answered : sub_chunk_packet varint source (λ i. false) request ≡ answer entries
unfolding sub_chunk_packet entries_from sub_chunk_entry entry_of sub_chunk_empty min_sub_y max_sub_y
    all_empty floor_div16 with_defaults wrap32 ◌+ℤ◌ ◌-ℤ◌ emod
answered = refl

sub_chunk_packet-AreFor_example : AreFor varint source request (one_up ∷ far_up ∷ []) entries
sub_chunk_packet-AreFor_example =
    sub_chunk_packet-AreFor varint source request (λ i. false) answered

abbrev publisher : ChunkPublisher
publisher = record { source = source; radius = 1 }

-- Six packets can be written.
abbrev around : Surroundings
around = record {
  writes = λ written p. ltb (length written) 6;
  is_cancelled = λ p. false;
  flushes = λ written. true;
}

send_initial-Progress_example :
    Progress (initial_packets varint around publisher) (send_initial varint around publisher)
send_initial-Progress_example = send_initial-Progress varint around publisher
