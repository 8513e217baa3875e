-- ===== src/Publisher/Initial.antt =====
-- What a player gets when it joins (internal/server/chunk_publisher.go, `SendInitial`).
use open_ai_mc_be_server.Network.Codec.{Bytes}
use open_ai_mc_be_server.Prelude.Int.{pos_part, pos, ltb_ℤ, ℤ}
use open_ai_mc_be_server.Prelude.{
  Option-cases, inr, inl, subst, ◌∙◌, Bool-cases, ◌%◌, some, none, [], ◌≡◌, ◌∷◌, ◌++◌, Bool, Option,
  ◌*◌, if◌then◌else◌, ℕ, List, refl,
}
use mathlib.Core.List.{append_assoc}
use open_ai_mc_be_server.World.Chunk.{Chunk, ChunkPos, highest_filled_sub_chunk}
use open_ai_mc_be_server.World.Dimension.{floor_div16, id_of}
use open_ai_mc_be_server.Publisher.Storage.{encode_biomes}
use open_ai_mc_be_server.Publisher.Positions.{chunk_positions}
use open_ai_mc_be_server.Publisher.Entries.{Pos3, ChunkProvider}

pub record LevelChunk : Type 0 where
  pub position : ChunkPos
  pub dimension : ℤ
  pub highest_sub_chunk : ℕ
  pub raw_payload : Bytes

pub data InitialPacket : Type 0 where
  network_chunk_publisher_update : Pos3 → ℕ → InitialPacket
  set_time : ℤ → InitialPacket
  set_spawn_position : Pos3 → ℤ → InitialPacket
  level_chunk : LevelChunk → InitialPacket

pub data SendError : Type 0 where
  write_failed : SendError
  cancelled : SendError
  chunk_failed : SendError
  flush_failed : SendError
  panicked : SendError

-- What the surroundings do: `writes` of what was written before and of the next packet, `is_cancelled`
-- before the chunk at a position is made, `flushes` of all that was written.
pub record Surroundings : Type 0 where
  pub writes : List InitialPacket → InitialPacket → Bool
  pub is_cancelled : ChunkPos → Bool
  pub flushes : List InitialPacket → Bool

-- The packets that were written, and the error.
abbrev pub Sent : Type 0
Sent = List InitialPacket × Option SendError

pub record ChunkPublisher : Type 0 where
  pub source : ChunkProvider
  pub radius : ℕ

abbrev pub new_chunk_publisher : ChunkProvider → ℤ → ChunkPublisher
new_chunk_publisher source radius = record {
  source = source;
  radius = if ltb_ℤ radius (pos 1) then 1 else pos_part radius;
}

unfoldable pub level_chunk_packet : (ℤ → Bytes) → Chunk → InitialPacket
level_chunk_packet varint32 c = level_chunk (record {
  position = c.position;
  dimension = id_of c.dimension;
  highest_sub_chunk = highest_filled_sub_chunk c;
  raw_payload = encode_biomes varint32 c ++ 0 ∷ [];
})

unfoldable pub set_spawn_position_packet : ChunkProvider → InitialPacket
set_spawn_position_packet source = set_spawn_position source.spawn_block (id_of source.dimension)

-- `x >> 4` is `floor_div16`.
abbrev pub center_chunk : ChunkProvider → ChunkPos
center_chunk source = record {
  x = floor_div16 source.spawn_block.x;
  z = floor_div16 source.spawn_block.z;
}

abbrev pub first_packets : ChunkPublisher → List InitialPacket
first_packets publisher =
    network_chunk_publisher_update publisher.source.spawn_block
      ((publisher.radius * 16) % 4294967296)
    ∷ set_time (pos 0)
    ∷ set_spawn_position_packet publisher.source
    ∷ []

-- What was written is the first part of `all`; without an error it is all of it.
pub record Progress (all : List InitialPacket) (sent : Sent) : Type 0 where
  pub left : List InitialPacket
  pub joined : sent.0 ++ left ≡ all
  pub finished : sent.1 ≡ none → left ≡ []

module _ (varint32 : ℤ → Bytes) (around : Surroundings) where
  abbrev pub write_then : InitialPacket → List InitialPacket → (List InitialPacket → Sent) → Sent
  write_then p written next =
      let rest = next (written ++ p ∷ []) in
      if around.writes written p then rest else (written, some write_failed)

  abbrev pub chunk_then : Option Chunk → List InitialPacket → (List InitialPacket → Sent) → Sent
  chunk_then none written next = (written, some chunk_failed)
  chunk_then (some c) written next = write_then (level_chunk_packet varint32 c) written next

  unfoldable pub send_chunks : ChunkProvider → List ChunkPos → List InitialPacket → Sent
  send_chunks source [] written =
      (written, if around.flushes written then none else some flush_failed)
  send_chunks source (p ∷ positions) written =
      let made = chunk_then (source.chunk p) written (send_chunks source positions) in
      if around.is_cancelled p then (written, some cancelled) else made

  -- Making the list of the positions may panic.
  abbrev pub send_around : ChunkProvider → Option (List ChunkPos) → List InitialPacket → Sent
  send_around source none written = (written, some panicked)
  send_around source (some positions) written = send_chunks source positions written

  unfoldable pub send_first :
      List InitialPacket → List InitialPacket → (List InitialPacket → Sent) → Sent
  send_first [] written next = next written
  send_first (p ∷ packets) written next = write_then p written (λ w. send_first packets w next)

  unfoldable pub send_initial : ChunkPublisher → Sent
  send_initial publisher =
      let source = publisher.source in
      send_first (first_packets publisher) []
        (send_around source (chunk_positions (center_chunk source) publisher.radius))

  abbrev pub found_packets : Option Chunk → List InitialPacket → List InitialPacket
  found_packets none others = others
  found_packets (some c) others = level_chunk_packet varint32 c ∷ others

  -- The chunks that the source has, at these positions.
  abbrev pub chunk_packets : ChunkProvider → List ChunkPos → List InitialPacket
  chunk_packets source [] = []
  chunk_packets source (p ∷ positions) =
      found_packets (source.chunk p) (chunk_packets source positions)

  -- None, if there is no list of positions.
  abbrev pub around_packets : ChunkProvider → Option (List ChunkPos) → List InitialPacket
  around_packets source none = []
  around_packets source (some positions) = chunk_packets source positions

  write_then-Progress :
      (all more : List InitialPacket) (p : InitialPacket) (written : List InitialPacket)
      (next : List InitialPacket → Sent)
      → written ++ p ∷ more ≡ all
      → Progress all (next (written ++ p ∷ []))
      → Progress all (write_then p written next)
  write_then-Progress all more p written next e h = elim (Bool-cases (around.writes written p)) [
    | inl ok ↦ rw ok h
    | inr bad ↦ rw bad (record { left = p ∷ more; joined = e; finished = λ f. cc })
  ]

  send_chunks-Progress :
      (source : ChunkProvider) (positions : List ChunkPos) (written : List InitialPacket)
      → Progress (written ++ chunk_packets source positions) (send_chunks source positions written)
  unfolding send_chunks
  send_chunks-Progress source [] written = record { left = []; joined = refl; finished = λ f. refl }
  send_chunks-Progress source (p ∷ positions) written =
      let others = chunk_packets source positions in
      elim (Bool-cases (around.is_cancelled p)) [
        | inl stop ↦ rw stop (record {
          left = chunk_packets source (p ∷ positions);
          joined = refl;
          finished = λ f. cc;
        })
        | inr go ↦ elim (Option-cases (source.chunk p)) [
          | inl e ↦
              rw (go, chunk_packets, e)
                (record { left = others; joined = refl; finished = λ f. cc })
          | inr (c, e) ↦
              let pk = level_chunk_packet varint32 c in
              let rest = send_chunks-Progress source positions (written ++ pk ∷ []) in
              let same = append_assoc written (pk ∷ []) others in
              rw (go, chunk_packets, e)
                (write_then-Progress (written ++ pk ∷ others) others pk written
                  (send_chunks source positions) refl (rw same at rest))
        ]
      ]

  send_around-Progress :
      (source : ChunkProvider) (positions : Option (List ChunkPos)) (written : List InitialPacket)
      → Progress (written ++ around_packets source positions) (send_around source positions written)
  send_around-Progress source none written = record { left = []; joined = refl; finished = λ f. cc }
  send_around-Progress source (some positions) written =
      send_chunks-Progress source positions written

  send_first-Progress :
      (all packets written more : List InitialPacket) (next : List InitialPacket → Sent)
      → written ++ (packets ++ more) ≡ all
      → ((w : List InitialPacket) → w ++ more ≡ all → Progress all (next w))
      → Progress all (send_first packets written next)
  unfolding send_first
  send_first-Progress all [] written more next e h = h written e
  send_first-Progress all (p ∷ packets) written more next e h =
      write_then-Progress all (packets ++ more) p written (λ w. send_first packets w next) e
        (send_first-Progress all packets (written ++ p ∷ []) more next
          (append_assoc written (p ∷ []) (packets ++ more) ∙ e) h)

  -- All that a publisher has to send.
  abbrev pub initial_packets : ChunkPublisher → List InitialPacket
  initial_packets publisher =
      let source = publisher.source in
      first_packets publisher
      ++ around_packets source (chunk_positions (center_chunk source) publisher.radius)

  -- `SendInitial` writes, in order, a first part of its packets: the publisher update, the
  -- time, the spawn position, and the chunks around the spawn that the source has, or none of
  -- them where making the list of positions panics, which counts as an error. Without an error
  -- it has written all of them, whichever writes fail and whenever it is cancelled.
  pub send_initial-Progress :
      (publisher : ChunkPublisher) → Progress (initial_packets publisher) (send_initial publisher)
  unfolding send_initial
  send_initial-Progress publisher =
      let source = publisher.source in
      let positions = chunk_positions (center_chunk source) publisher.radius in
      let more = around_packets source positions in
      send_first-Progress (initial_packets publisher) (first_packets publisher) [] more
        (send_around source positions) refl
        (λ w e.
          subst (λ all. Progress all (send_around source positions w)) e
            (send_around-Progress source positions w))
