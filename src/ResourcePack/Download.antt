-- ===== src/ResourcePack/Download.antt =====
-- A client that takes every announced chunk, and what it gets
-- (internal/resourcepack/resourcepack.go, `Begin` and `HandleChunkRequest`).
use open_ai_mc_be_server.Network.Codec.{Bytes}
use open_ai_mc_be_server.Command.Args.{Text}
use open_ai_mc_be_server.ResourcePack.Pack.{Pack}
use open_ai_mc_be_server.ResourcePack.Queue.{
  pack_data_info, handle_chunk_request, pack_chunk_data, Queue, PackPacket,
}
use open_ai_mc_be_server.Prelude.{
  ◌/◌, ◌-◌, zero, suc, refl, ◌+◌, length, suc, ◌++◌, [], none, ◌<◌, some, ◌∷◌, get_elem?, Option, ℕ,
  List, ◌≡◌,
}

-- The data of the packs at these indices.
abbrev pub contents_at : List Pack → List ℕ → List Bytes
contents_at packs [] = []
contents_at packs (i ∷ is) =
    let rest = contents_at packs is in
    elim (get_elem? packs i) [ none ↦ rest | some pack ↦ pack.content ∷ rest ]

-- There is a pack, it has data, and its chunks are counted in 32 bits.
pub record IsServed (k : ℕ) (packs : List Pack) (i : ℕ) : Type 0 where
  pub pack : Pack
  pub found : get_elem? packs i ≡ some pack
  pub some_data : 0 < length pack.content
  pub counted : (length pack.content + k - 1) / k < 4294967296

abbrev pub AllServed : ℕ → List Pack → List ℕ → Type 0
AllServed k packs [] = Unit {0}
AllServed k packs (i ∷ is) = IsServed k packs i × AllServed k packs is

pub contents_at-cons :
    (packs : List Pack) (i : ℕ) (is : List ℕ) {pack : Pack}
    → get_elem? packs i ≡ some pack
    → contents_at packs (i ∷ is) ≡ pack.content ∷ contents_at packs is
contents_at-cons packs i is e = rw (contents_at, e) refl

-- The data of the chunk before what the client got from the next ones.
abbrev pub payload_then :
    PackPacket → Option (Bytes × List PackPacket × Queue) → Option (Bytes × List PackPacket × Queue)
payload_then (pack_chunk_data c) (some (bytes, announced, q)) =
    some (c.payload ++ bytes, announced, q)
payload_then p o = none

module _ (uuid_string : ℕ → Text) where
  -- The chunks `i`, ..., `i + n - 1`: their data, and what came after the last one.
  unfoldable pub fetch :
      ℕ → ℕ → Text → List PackPacket → Queue → Option (Bytes × List PackPacket × Queue)
  fetch zero i uuid announced q = some ([], announced, q)
  fetch (suc n) i uuid announced q =
      let (answered, q') = handle_chunk_request uuid_string uuid i q in
      elim answered [
        | none ↦ none
        | some packets ↦ elim packets [
          | [] ↦ none
          | p ∷ ps ↦ payload_then p (fetch n (i + 1) uuid ps q')
        ]
      ]

  abbrev pub content_then : Bytes → Option (List Bytes × Queue) → Option (List Bytes × Queue)
  content_then bytes none = none
  content_then bytes (some (others, q)) = some (bytes ∷ others, q)

  -- Takes up to `n` packs, each one after its data info came.
  unfoldable pub download : ℕ → List PackPacket → Queue → Option (List Bytes × Queue)
  download n [] q = some ([], q)
  download zero announced q = none
  download (suc n) (pack_chunk_data c ∷ ps) q = none
  download (suc n) (pack_data_info d ∷ ps) q =
      elim (fetch d.chunk_count 0 (uuid_string d.uuid) [] q) [
        | none ↦ none
        | some got ↦
            let (bytes, announced, q') = got in content_then bytes (download n announced q')
      ]

  -- The state of a download.
  abbrev pub at : List Pack → List ℕ → ℕ → ℕ → ℕ → Queue
  at packs selected k current i = record {
    packs = packs;
    selected = selected;
    current = current;
    current_chunk = i;
    chunk_size = k;
  }
