-- ===== src/Tests/Packs.antt =====
-- Two resource packs and a client that takes them (internal/resourcepack/resourcepack.go).
use open_ai_mc_be_server.Prelude.{ℕ, ◌≡◌, refl, List, [], ◌∷◌, some, arith, false}
use open_ai_mc_be_server.Command.Args.{Text}
use open_ai_mc_be_server.ResourcePack.Pack.{Pack, data_info, default_version}
use open_ai_mc_be_server.ResourcePack.Queue.{
  Queue, pack_data_info, begin, select_all, find_pack, find_from, current_pack,
}
use open_ai_mc_be_server.ResourcePack.Download.{download}
use open_ai_mc_be_server.ResourcePack.Complete.{download-begin, Names, firsts}

abbrev pack_of : ℕ → List ℕ → Pack
pack_of uuid content = record {
  uuid = uuid;
  version = default_version;
  content = content;
  pack_type = 6;
  content_key = [];
  sub_pack_name = [];
  content_identity = [];
  addon_pack = false;
  has_scripts = false;
  premium = false;
  download_url = [];
}

abbrev pub one_letter : ℕ → Text
one_letter uuid = uuid ∷ []

-- Packs `a` and `b`, and chunks of two bytes.
abbrev pub two_packs : Queue
two_packs = record {
  packs = pack_of 97 (1 ∷ 2 ∷ 3 ∷ []) ∷ pack_of 98 (4 ∷ 5 ∷ []) ∷ [];
  selected = [];
  current = 0;
  current_chunk = 0;
  chunk_size = 2;
}

-- The client asks for `b_1.0.0`, then `a`, then `b` again.
abbrev pub requests : List Text
requests = (98 ∷ 95 ∷ default_version) ∷ (97 ∷ []) ∷ (98 ∷ []) ∷ []

abbrev ready : Queue
ready = record two_packs { selected = 1 ∷ 0 ∷ [] }

begun :
    begin one_letter requests two_packs
    ≡ (some (pack_data_info (data_info 2 (pack_of 98 (4 ∷ 5 ∷ []))) ∷ []), ready)
unfolding begin select_all find_pack find_from current_pack
begun = refl

download-begin_example :
    (found : List ℕ) × Names one_letter two_packs requests found
    × (ready.selected ≡ firsts found)
    × (download one_letter 2 (pack_data_info (data_info 2 (pack_of 98 (4 ∷ 5 ∷ []))) ∷ []) ready
        ≡ some ((4 ∷ 5 ∷ []) ∷ (1 ∷ 2 ∷ 3 ∷ []) ∷ [], record ready { current = 2 }))
download-begin_example =
    download-begin one_letter requests two_packs (omega arith)
      ((omega arith, omega arith, (omega arith, omega arith, tt))) begun
