-- ===== src/ResourcePack/Whole.antt =====
-- A download from one selected pack on
-- (internal/resourcepack/resourcepack.go, `HandleChunkRequest`).
use open_ai_mc_be_server.Network.Codec.{Bytes}
use open_ai_mc_be_server.ResourcePack.Queue.{
  pack_data_info, info_of_current, current_pack, Queue, PackPacket,
}
use open_ai_mc_be_server.ResourcePack.Pack.{size_or_default, data_info, DataInfo, Pack}
use open_ai_mc_be_server.ResourcePack.Download.{
  contents_at-cons, content_then, contents_at, fetch, at, AllServed, download,
}
use open_ai_mc_be_server.Command.Args.{Text}
use open_ai_mc_be_server.Prelude.{
  Option, false, ◌==◌, ap, ◌∙◌, [], ◌/◌, arith, ◌-◌, ◌+◌, none, some, get_elem?, ◌∷◌, ◌≤◌, ◌≡◌, ◌<◌,
  length, drop, List, ℕ, zero, suc, refl,
}
use native.Mathlib.Nat.{mod-eq_of_lt, suc-add, zero-mul}
use open_ai_mc_be_server.ResourcePack.Chunks.{size_or_default-pos, rounded_up}
use open_ai_mc_be_server.ResourcePack.Fetch.{fetch_lem}

module _ (uuid_string : ℕ → Text) where
  get_elem?-drop :
      (n : ℕ) (xs : List ℕ) {x : ℕ} {rest : List ℕ}
      → drop n xs ≡ x ∷ rest
      → (get_elem? xs n ≡ some x) × (drop (n + 1) xs ≡ rest)
  get_elem?-drop zero [] e = cc
  get_elem?-drop zero (x ∷ xs) e = (cc, cc)
  get_elem?-drop (suc n) [] e = cc
  get_elem?-drop (suc n) (x ∷ xs) e =
      let (found, later) = get_elem?-drop n xs e in (found, rw (suc-add n 1) later)

  get_elem?-end : (n : ℕ) (xs : List ℕ) → length xs ≤ n → get_elem? xs n ≡ none
  get_elem?-end n [] le = refl
  get_elem?-end zero (x ∷ xs) le = absurd (omega (arith, le))
  get_elem?-end (suc n) (x ∷ xs) le = get_elem?-end n xs (omega (arith, le))

  download-suc :
      (n : ℕ) (d : DataInfo) (ps : List PackPacket) (q : Queue) {bytes : Bytes}
      {announced : List PackPacket} {q' : Queue}
      → fetch uuid_string d.chunk_count 0 (uuid_string d.uuid) [] q ≡ some (bytes, announced, q')
      → download uuid_string (suc n) (pack_data_info d ∷ ps) q
        ≡ content_then uuid_string bytes (download uuid_string n announced q')
  unfolding download
  download-suc n d ps q e =
      ap
        (λ (o : Option (Bytes × List PackPacket × Queue)). elim o [
          | none ↦ none
          | some got ↦ content_then uuid_string got.0 (download uuid_string n got.1 got.2)
        ])
        e

  module _ (packs : List Pack) (selected : List ℕ) (k : ℕ) (pos : 0 < k) where
    pack_here :
        (current i j : ℕ) {pack : Pack}
        → get_elem? selected current ≡ some i
        → get_elem? packs i ≡ some pack
        → current_pack (at uuid_string packs selected k current j) ≡ some pack
    unfolding current_pack
    pack_here current i j e f = rw (e, f) refl

    -- The data info of a pack counts its chunks.
    count_lem :
        (pack : Pack)
        → 0 < length pack.content
        → (length pack.content + k - 1) / k < 4294967296
        → (data_info k pack).chunk_count ≡ (length pack.content + k - 1) / k
    unfolding data_info
    count_lem pack some_data few =
        let size = length pack.content in
        let given : size_or_default k ≡ k = size_or_default-pos k pos in
        let full : (size == 0) ≡ false = ground (arith, some_data) in
        rw (given, full) (mod-eq_of_lt few)

    pub download_lem :
        (rest : List ℕ) (current : ℕ)
        → drop current selected ≡ rest
        → current + length rest ≡ length selected
        → AllServed k packs rest
        → let q = at uuid_string packs selected k current 0 in
          download uuid_string (length rest) (info_of_current q) q
          ≡ some (contents_at packs rest, at uuid_string packs selected k (length selected) 0)
    unfolding download current_pack data_info
    download_lem [] current e counts served =
        let end = get_elem?-end current selected (omega (arith, counts)) in
        let here : current ≡ length selected = omega (arith, counts) in rw (end, here) refl
    download_lem (i ∷ rest) current e counts served =
        let ready = served.0 in
        let pack = ready.pack in
        let (index, later) = get_elem?-drop current selected e in
        let c = rounded_up k pos (length pack.content) ready.some_data in
        let few : c.before < 4294967295 = omega (arith, ready.counted, c.counted) in
        let count = count_lem pack ready.some_data ready.counted ∙ c.counted in
        let got =
          fetch_lem uuid_string packs selected k current pos c.before 0 c.before pack []
            (λ j. pack_here current i j index ready.found) (omega arith) c.starts c.reaches few in
        let got' : fetch uuid_string (data_info k pack).chunk_count 0 (uuid_string pack.uuid) []
              (at uuid_string packs selected k current 0)
            ≡ some (
              pack.content,
              info_of_current (at uuid_string packs selected k (current + 1) 0),
              at uuid_string packs selected k (current + 1) 0,
            ) =
          rw (count, got, zero-mul k) refl in
        let others = download_lem rest (current + 1) later (omega (arith, counts)) served.1 in
        let first = download-suc (length rest) (data_info k pack) [] _ got' in
        rw (index, ready.found, first, others, contents_at-cons packs i rest ready.found) refl
