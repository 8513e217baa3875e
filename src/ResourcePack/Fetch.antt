-- ===== src/ResourcePack/Fetch.antt =====
-- One pack, chunk by chunk (internal/resourcepack/resourcepack.go, `HandleChunkRequest`).
use open_ai_mc_be_server.Command.Registry.{text_eqb}
use open_ai_mc_be_server.ResourcePack.Queue.{
  info_of_current, answer, Queue, current_pack, PackPacket, handle_chunk_request,
}
use open_ai_mc_be_server.ResourcePack.Download.{payload_then, at, fetch}
use open_ai_mc_be_server.ResourcePack.Pack.{chunk, ChunkData, Pack}
use open_ai_mc_be_server.Command.Args.{Text}
use open_ai_mc_be_server.Prelude.{
  zero, drop, length, none, suc, Option, ap, ◌∷◌, [], ◌%◌, ==_iff, false, true, arith, ◌≤◌, ◌*◌,
  ◌+◌, some, ◌≡◌, Bool, ◌<◌, List, ℕ, refl,
}
use open_ai_mc_be_server.Command.Lookup.{text_eqb_self}
use native.Mathlib.Nat.{suc-mul, mul-le-mul_right}
use mathlib.Core.List.{append-nil}
use open_ai_mc_be_server.ResourcePack.Chunks.{chunk-inner, chunk-last, take-drop}

module _ (uuid_string : ℕ → Text) where
  module _ (packs : List Pack) (selected : List ℕ) (k current : ℕ) (pos : 0 < k) where
    -- The queue's answer to the request for the chunk that it waits for.
    answered :
        (i : ℕ) (pack : Pack) (made : ChunkData) (last : Bool)
        → current_pack (at uuid_string packs selected k current i) ≡ some pack
        → chunk k i pack ≡ some (made, last)
        → handle_chunk_request uuid_string
            (uuid_string pack.uuid)
            i
            (at uuid_string packs selected k current i)
          ≡ answer uuid_string (some (made, last)) (at uuid_string packs selected k current i)
    unfolding handle_chunk_request
    answered i pack made last e f =
        let same_id : text_eqb (uuid_string pack.uuid) (uuid_string pack.uuid) ≡ true =
          text_eqb_self (uuid_string pack.uuid) in
        rw (e, same_id, (==_iff i i).1 refl, f) refl

    fetch-suc :
        (n i : ℕ) (uuid : Text) (announced : List PackPacket) (q : Queue) {q' : Queue}
        {p : PackPacket} {ps : List PackPacket}
        → handle_chunk_request uuid_string uuid i q ≡ (some (p ∷ ps), q')
        → fetch uuid_string (suc n) i uuid announced q
          ≡ payload_then p (fetch uuid_string n (i + 1) uuid ps q')
    unfolding fetch
    fetch-suc n i uuid announced q e =
        ap
          (λ (r : Option (List PackPacket) × Queue). elim r.0 [
            | none ↦ none
            | some packets ↦ elim packets [
              | [] ↦ none
              | p ∷ ps ↦ payload_then p (fetch uuid_string n (i + 1) uuid ps r.1)
            ]
          ])
          e

    pub fetch_lem :
        (n i last : ℕ) (pack : Pack) (announced : List PackPacket)
        → ((j : ℕ) → current_pack (at uuid_string packs selected k current j) ≡ some pack)
        → i + n ≡ last
        → last * k < length pack.content
        → length pack.content ≤ last * k + k
        → last < 4294967295
        → let next = at uuid_string packs selected k (current + 1) 0 in
          fetch uuid_string
            (suc n)
            i
            (uuid_string pack.uuid)
            announced
            (at uuid_string packs selected k current i)
          ≡ some (drop (i * k) pack.content, info_of_current next, next)
    unfolding fetch
    fetch_lem zero i last pack announced e here starts reaches few =
        let same : last ≡ i = omega (arith, here) in
        let starts' : i * k < length pack.content = rw same at starts in
        let reaches' : length pack.content ≤ i * k + k = rw same at reaches in
        let made =
          answered i pack _ true (e i)
            (chunk-last k pos i pack (omega (arith, starts')) reaches') in
        rw
          (
            fetch-suc zero i _ announced (at uuid_string packs selected k current i) made,
            append-nil (drop (i * k) pack.content),
          )
          refl
    fetch_lem (suc n) i last pack announced e here starts reaches few =
        let past = suc-mul i k in
        let before : (i + 1) * k ≤ last * k = mul-le-mul_right k (omega (arith, here)) in
        let made =
          answered i pack _ false (e i)
            (chunk-inner k pos i pack (omega (arith, past, before, starts))) in
        let index : (i + 1) % 4294967296 ≡ i + 1 = omega (arith, here, few) in
        let rest = fetch_lem n (i + 1) last pack [] e (omega (arith, here)) starts reaches few in
        let joined = take-drop pack.content (i * k) k in
        let next : i * k + k ≡ (i + 1) * k = omega (arith, past) in
        rw
          (
            fetch-suc (suc n) i _ announced (at uuid_string packs selected k current i) made,
            index,
            rest,
            ← next,
            joined,
          )
          refl
