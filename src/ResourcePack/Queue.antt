-- ===== src/ResourcePack/Queue.antt =====
-- The download of the packs that a client asks for (internal/resourcepack/resourcepack.go, `Queue`).
use open_ai_mc_be_server.Prelude.{
  ℕ, suc, ◌+◌, ◌%◌, Bool, true, false, ◌&&◌, ◌||◌, List, [], ◌∷◌, ◌++◌, Option, none, some, ◌==◌,
  if◌then◌else◌, get_elem?, map,
}
use open_ai_mc_be_server.Command.Args.{Text}
use open_ai_mc_be_server.Command.Registry.{text_eqb, is_blank}
use open_ai_mc_be_server.ResourcePack.Pack.{
  Pack, DataInfo, ChunkData, TexturePackInfo, PackTypes, default_chunk_size, data_info, chunk,
  texture_pack_info,
}

-- `selected` holds indices of `packs`.
pub record Queue : Type 0 where
  pub packs : List Pack
  pub selected : List ℕ
  pub current : ℕ
  pub current_chunk : ℕ
  pub chunk_size : ℕ

pub data PackPacket : Type 0 where
  pack_data_info : DataInfo → PackPacket
  pack_chunk_data : ChunkData → PackPacket

pub record PacksInfo : Type 0 where
  pub texture_pack_required : Bool
  pub has_addons : Bool
  pub has_scripts : Bool
  pub texture_packs : List TexturePackInfo

abbrev pub new_queue : List Pack → Queue
new_queue packs = record {
  packs = packs;
  selected = [];
  current = 0;
  current_chunk = 0;
  chunk_size = default_chunk_size;
}

abbrev pub underscore : ℕ
underscore = 95

-- `strings.Cut(request, "_")`: what stands before and after; nothing after, if there is none.
abbrev pub cut : Text → Text × Text
cut [] = ([], [])
cut (r ∷ rs) =
    let (before, after) = cut rs in if r == underscore then ([], rs) else (r ∷ before, after)

abbrev pub seen : ℕ → List ℕ → Bool
seen i [] = false
seen i (j ∷ js) = i == j || seen i js

abbrev pub pack_at : Option ℕ → List Pack → Option Pack
pack_at none packs = none
pack_at (some i) packs = get_elem? packs i

unfoldable pub current_pack : Queue → Option Pack
current_pack q = pack_at (get_elem? q.selected q.current) q.packs

abbrev pub info_of_current : Queue → List PackPacket
info_of_current q = elim (current_pack q) [
  | none ↦ []
  | some pack ↦ pack_data_info (data_info q.chunk_size pack) ∷ []
]

module _ (types : PackTypes) (uuid_string : ℕ → Text) where
  unfoldable pub info : Bool → Queue → PacksInfo
  info required q =
      let infos = map (texture_pack_info types uuid_string) q.packs in
      record {
        texture_pack_required = required;
        has_addons = any_addon infos;
        has_scripts = any_scripts infos;
        texture_packs = infos;
      }
    where
      any_addon : List TexturePackInfo → Bool
      any_addon [] = false
      any_addon (i ∷ is) = i.addon_pack || any_addon is

      any_scripts : List TexturePackInfo → Bool
      any_scripts [] = false
      any_scripts (i ∷ is) = i.has_scripts || any_scripts is

module _ (uuid_string : ℕ → Text) where
  -- A version is compared only if the request names one.
  abbrev pub fits_request : Text → Text → Pack → Bool
  fits_request id version pack =
      text_eqb (uuid_string pack.uuid) id && (is_blank version || text_eqb pack.version version)

  unfoldable pub find_from : ℕ → Text → Text → List Pack → Option ℕ
  find_from i id version [] = none
  find_from i id version (pack ∷ packs) =
      let later = find_from (suc i) id version packs in
      if fits_request id version pack then some i else later

  unfoldable pub find_pack : Text → Queue → Option ℕ
  find_pack request q = let (id, version) = cut request in find_from 0 id version q.packs

  abbrev pub select_index : ℕ → Queue → Queue
  select_index i q = if seen i q.selected then q else record q { selected = q.selected ++ i ∷ [] }

  -- The loop over the requests; an error leaves what was selected before it.
  unfoldable pub select_all : List Text → Queue → Bool × Queue
  select_all [] q = (true, q)
  select_all (request ∷ requests) q = elim (find_pack request q) [
    | none ↦ (false, q)
    | some i ↦ select_all requests (select_index i q)
  ]

  -- `none` is the error of a pack that is not there.
  unfoldable pub begin : List Text → Queue → Option (List PackPacket) × Queue
  begin requests q =
      let (found, q') =
        select_all requests (record q { selected = []; current = 0; current_chunk = 0 }) in
      if found then (some (info_of_current q'), q') else (none, q')

  -- After a chunk was made.
  abbrev pub next_chunk : Bool → Queue → Queue
  next_chunk true q = record q { current = q.current + 1; current_chunk = 0 }
  next_chunk false q = record q { current_chunk = (q.current_chunk + 1) % 4294967296 }

  abbrev pub answer : Option (ChunkData × Bool) → Queue → Option (List PackPacket) × Queue
  answer none q = (none, q)
  answer (some (made, last)) q =
      let q' = next_chunk last q in
      (some (pack_chunk_data made ∷ (if last then info_of_current q' else [])), q')

  abbrev pub chunk_of : Option Pack → Text → ℕ → Queue → Option (List PackPacket) × Queue
  chunk_of none uuid index q = (none, q)
  chunk_of (some pack) uuid index q =
      if text_eqb uuid (uuid_string pack.uuid) && index == q.current_chunk
      then answer (chunk q.chunk_size index pack) q
      else (none, q)

  unfoldable pub handle_chunk_request : Text → ℕ → Queue → Option (List PackPacket) × Queue
  handle_chunk_request uuid index q = chunk_of (current_pack q) uuid index q
