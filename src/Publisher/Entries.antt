-- ===== src/Publisher/Entries.antt =====
-- The answers to requests for sub chunks (internal/server/chunk_publisher.go, `subChunkEntry` and
-- `subChunkPacket`). The provider of chunks is a parameter, as is gophertunnel's encoding of numbers.
use open_ai_mc_be_server.Network.Codec.{Bytes}
use open_ai_mc_be_server.Prelude.Int.{◌-ℤ◌, leb_ℤ, pos, eqb_ℤ, ltb_ℤ, pos_part, ◌+ℤ◌, ℤ, wrap32}
use open_ai_mc_be_server.Prelude.{
  false, true, length, ◌||◌, Bool, not, some, if◌then◌else◌, ℕ, ◌∷◌, [], Option, List, none, suc,
  refl, ◌≡◌, inl, inr, ◌⊎◌, subst, Bool-cases,
}
use open_ai_mc_be_server.World.Chunk.{Chunk, ChunkPos, sub_chunk_empty}
use open_ai_mc_be_server.World.Dimension.{Dimension, min_sub_y, max_sub_y, id_of}
use open_ai_mc_be_server.Publisher.Storage.{HeightMap, sub_chunk_height_map, encode_sub_chunk}

pub record Pos3 : Type 0 where
  pub x : ℤ
  pub y : ℤ
  pub z : ℤ

-- `ChunkProvider`. No chunk stands for an error.
pub record ChunkProvider : Type 0 where
  pub dimension : Dimension
  pub spawn_block : Pos3
  pub chunk : ChunkPos → Option Chunk

pub record SubChunkRequest : Type 0 where
  pub dimension : ℤ
  pub position : Pos3
  pub offsets : List Pos3

pub data EntryResult : Type 0 where
  success : EntryResult
  success_all_air : EntryResult
  invalid_dimension : EntryResult
  index_out_of_bounds : EntryResult

-- A height map is set twice, as the render height map as well.
pub record SubChunkEntry : Type 0 where
  pub offset : Pos3
  pub result : EntryResult
  pub height_map : Option HeightMap
  pub raw_payload : Bytes

-- What a request comes to: an entry, an error, or a loop that does not end.
pub data Answer {ℓ} (A : Type ℓ) : Type ℓ where
  answer : A → Answer A
  failed : Answer A
  endless : Answer A

abbrev pub refusal : Pos3 → EntryResult → SubChunkEntry
refusal offset result = record {
  offset = offset;
  result = result;
  height_map = none;
  raw_payload = [];
}

abbrev pub target_y : SubChunkRequest → Pos3 → ℤ
target_y request offset = wrap32 (request.position.y +ℤ offset.y)

abbrev pub target_chunk : SubChunkRequest → Pos3 → ChunkPos
target_chunk request offset = record {
  x = wrap32 (request.position.x +ℤ offset.x);
  z = wrap32 (request.position.z +ℤ offset.z);
}

abbrev pub with_payload : Pos3 → HeightMap → Option Bytes → Answer SubChunkEntry
with_payload offset heights none = endless
with_payload offset heights (some payload) =
    answer (record {
      offset = offset;
      result = success;
      height_map = some heights;
      raw_payload = payload;
    })

-- The entry of sub chunk number `index` of a chunk. 256 rounds are enough for the loop over the
-- layers, if it ends.
unfoldable pub entry_of : (ℤ → Bytes) → Pos3 → ℤ → Chunk → Answer SubChunkEntry
entry_of varint32 offset index c =
    let i = pos_part index in
    let heights = sub_chunk_height_map c i in
    if ltb_ℤ index (pos 0) || leb_ℤ (pos (length c.sub_chunks)) index
    then answer (refusal offset index_out_of_bounds)
    else if sub_chunk_empty c i
    then answer (record {
      offset = offset;
      result = success_all_air;
      height_map = some heights;
      raw_payload = [];
    })
    else with_payload offset heights (encode_sub_chunk varint32 256 c i)

abbrev pub entry_if_found : (ℤ → Bytes) → Pos3 → ℤ → Option Chunk → Answer SubChunkEntry
entry_if_found varint32 offset index none = failed
entry_if_found varint32 offset index (some c) = entry_of varint32 offset index c

unfoldable pub sub_chunk_entry :
    (ℤ → Bytes) → ChunkProvider → Dimension → SubChunkRequest → Pos3 → Answer SubChunkEntry
sub_chunk_entry varint32 source dimension request offset =
    let y = target_y request offset in
    if not (eqb_ℤ request.dimension (id_of dimension))
    then answer (refusal offset invalid_dimension)
    else if ltb_ℤ y (min_sub_y dimension) || ltb_ℤ (max_sub_y dimension) y
    then answer (refusal offset index_out_of_bounds)
    else entry_if_found varint32 offset (y -ℤ min_sub_y dimension)
        (source.chunk (target_chunk request offset))

abbrev pub entry_then :
    Answer SubChunkEntry → Answer (List SubChunkEntry) → Answer (List SubChunkEntry)
entry_then (answer e) (answer es) = answer (e ∷ es)
entry_then (answer e) failed = failed
entry_then (answer e) endless = endless
entry_then failed others = failed
entry_then endless others = endless

-- The loop over the offsets. `cancelled i`: the context is done before offset number `i`.
unfoldable pub entries_from :
    (ℤ → Bytes)
    → ChunkProvider
    → (ℕ → Bool)
    → SubChunkRequest
    → ℕ
    → List Pos3
    → Answer (List SubChunkEntry)
entries_from varint32 source cancelled request i [] = answer []
entries_from varint32 source cancelled request i (offset ∷ offsets) =
    let rest = entries_from varint32 source cancelled request (suc i) offsets in
    if cancelled i
    then failed
    else entry_then (sub_chunk_entry varint32 source source.dimension request offset) rest

unfoldable pub sub_chunk_packet :
    (ℤ → Bytes) → ChunkProvider → (ℕ → Bool) → SubChunkRequest → Answer (List SubChunkEntry)
sub_chunk_packet varint32 source cancelled request =
    entries_from varint32 source cancelled request 0 request.offsets

-- If there is an answer, it is like this.
record Answered {A : Type 0} (P : A → Type 0) (r : Answer A) : Type 0 where
  pub given : (a : A) → r ≡ answer a → P a

if-Answered :
    {A : Type 0} {P : A → Type 0} (b : Bool) {x y : Answer A}
    → Answered P x
    → Answered P y
    → Answered P (if b then x else y)
if-Answered true h k = h
if-Answered false h k = k

answer-Answered : {A : Type 0} {P : A → Type 0} (a : A) → P a → Answered P (answer a)
answer-Answered {P = P} a h = record { given = λ b e. let same : a ≡ b = cc in subst P same h }

abbrev is_invalid : EntryResult → Bool
is_invalid invalid_dimension = true
is_invalid success = false
is_invalid success_all_air = false
is_invalid index_out_of_bounds = false

-- An entry is for its offset, has blocks only if it succeeded, and says whether the dimension is wrong.
abbrev IsFor : (wrong : Bool) → Pos3 → SubChunkEntry → Type 0
IsFor wrong offset e =
    (e.offset ≡ offset)
    × ((e.raw_payload ≡ []) ⊎ (e.result ≡ success))
    × (is_invalid e.result ≡ wrong)

module _ (varint32 : ℤ → Bytes) (source : ChunkProvider) (request : SubChunkRequest) where
  with_payload-IsFor :
      (offset : Pos3) (heights : HeightMap) (payload : Option Bytes)
      → Answered (IsFor false offset) (with_payload offset heights payload)
  with_payload-IsFor offset heights none = record { given = λ e h. cc }
  with_payload-IsFor offset heights (some payload) = answer-Answered _ (refl, inr refl, refl)

  entry_if_found-IsFor :
      (offset : Pos3) (index : ℤ) (found : Option Chunk)
      → Answered (IsFor false offset) (entry_if_found varint32 offset index found)
  unfolding entry_of
  entry_if_found-IsFor offset index none = record { given = λ e h. cc }
  entry_if_found-IsFor offset index (some c) =
      let i = pos_part index in
      if-Answered (ltb_ℤ index (pos 0) || leb_ℤ (pos (length c.sub_chunks)) index)
        (answer-Answered _ (refl, inl refl, refl))
        (if-Answered (sub_chunk_empty c i) (answer-Answered _ (refl, inl refl, refl)) (
          with_payload-IsFor offset (sub_chunk_height_map c i) (encode_sub_chunk varint32 256 c i)))

  sub_chunk_entry-IsFor :
      (offset : Pos3)
      → Answered
          (IsFor (not (eqb_ℤ request.dimension (id_of source.dimension))) offset)
          (sub_chunk_entry varint32 source source.dimension request offset)
  unfolding sub_chunk_entry
  sub_chunk_entry-IsFor offset =
      let y = target_y request offset in
      elim (Bool-cases (not (eqb_ℤ request.dimension (id_of source.dimension)))) [
        | inl wrong ↦ rw wrong (answer-Answered _ (refl, inl refl, refl))
        | inr right ↦ rw right (
            if-Answered
              (ltb_ℤ y (min_sub_y source.dimension) || ltb_ℤ (max_sub_y source.dimension) y)
              (answer-Answered _ (refl, inl refl, refl))
              (entry_if_found-IsFor offset (y -ℤ min_sub_y source.dimension)
                (source.chunk (target_chunk request offset))))
      ]

  -- Each entry is for the offset in its place.
  abbrev pub AreFor : List Pos3 → List SubChunkEntry → Type 0
  AreFor offsets [] = offsets ≡ []
  AreFor offsets (e ∷ es) =
      (offset : Pos3) × (others : List Pos3) × (offsets ≡ offset ∷ others)
      × IsFor (not (eqb_ℤ request.dimension (id_of source.dimension))) offset e
      × AreFor others es

  entry_then-AreFor :
      (offset : Pos3) (offsets : List Pos3) (r : Answer SubChunkEntry)
      (rest : Answer (List SubChunkEntry))
      → Answered (IsFor (not (eqb_ℤ request.dimension (id_of source.dimension))) offset) r
      → Answered (AreFor offsets) rest
      → Answered (AreFor (offset ∷ offsets)) (entry_then r rest)
  entry_then-AreFor offset offsets (answer e) (answer es) h k =
      answer-Answered _ (offset, offsets, refl, h.given e refl, k.given es refl)
  entry_then-AreFor offset offsets (answer e) failed h k = record { given = λ es f. cc }
  entry_then-AreFor offset offsets (answer e) endless h k = record { given = λ es f. cc }
  entry_then-AreFor offset offsets failed rest h k = record { given = λ es f. cc }
  entry_then-AreFor offset offsets endless rest h k = record { given = λ es f. cc }

  entries_from-AreFor :
      (cancelled : ℕ → Bool) (i : ℕ) (offsets : List Pos3)
      → Answered (AreFor offsets) (entries_from varint32 source cancelled request i offsets)
  unfolding entries_from
  entries_from-AreFor cancelled i [] = answer-Answered [] refl
  entries_from-AreFor cancelled i (offset ∷ offsets) =
      if-Answered (cancelled i) (record { given = λ es f. cc })
        (entry_then-AreFor offset offsets
          (sub_chunk_entry varint32 source source.dimension request offset)
          (entries_from varint32 source cancelled request (suc i) offsets)
          (sub_chunk_entry-IsFor offset) (entries_from-AreFor cancelled (suc i) offsets))

  -- If a request for sub chunks is answered, the answer has one entry for each offset of the
  -- request, in order and with that offset. An entry has blocks only if its result is success,
  -- and says that the dimension is invalid exactly if the request names another dimension than
  -- the provider's.
  pub sub_chunk_packet-AreFor :
      (cancelled : ℕ → Bool) {entries : List SubChunkEntry}
      → sub_chunk_packet varint32 source cancelled request ≡ answer entries
      → AreFor request.offsets entries
  unfolding sub_chunk_packet
  sub_chunk_packet-AreFor cancelled {entries = entries} e =
      (entries_from-AreFor cancelled 0 request.offsets).given entries e
