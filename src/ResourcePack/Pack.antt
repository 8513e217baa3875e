-- ===== src/ResourcePack/Pack.antt =====
-- A resource pack and its chunks (internal/resourcepack/resourcepack.go). A UUID is a number, 0 the
-- empty one, and `uuid_string` is its text. The hash of the data info is left out.
use open_ai_mc_be_server.Prelude.{
  ℕ, ◌+◌, ◌-◌, ◌*◌, ◌/◌, ◌%◌, Bool, ◌||◌, List, [], ◌∷◌, Option, none, some, ltb, leb, ◌==◌,
  if◌then◌else◌, length, take, drop,
}
use open_ai_mc_be_server.Command.Args.{Text}
use open_ai_mc_be_server.Command.Registry.{is_blank}
use open_ai_mc_be_server.Network.Codec.{Bytes}

pub record Pack : Type 0 where
  pub uuid : ℕ
  pub version : Text
  pub content : Bytes
  pub pack_type : ℕ
  pub content_key : Text
  pub sub_pack_name : Text
  pub content_identity : Text
  pub addon_pack : Bool
  pub has_scripts : Bool
  pub premium : Bool
  pub download_url : Text

pub record DataInfo : Type 0 where
  pub uuid : ℕ
  pub data_chunk_size : ℕ
  pub chunk_count : ℕ
  pub size : ℕ
  pub premium : Bool
  pub pack_type : ℕ

pub record ChunkData : Type 0 where
  pub uuid : ℕ
  pub chunk_index : ℕ
  pub data_offset : ℕ
  pub payload : Bytes

pub record TexturePackInfo : Type 0 where
  pub uuid : ℕ
  pub version : Text
  pub size : ℕ
  pub content_key : Text
  pub sub_pack_name : Text
  pub content_identity : Text
  pub has_scripts : Bool
  pub addon_pack : Bool
  pub download_url : Text

abbrev pub default_chunk_size : ℕ
default_chunk_size = 131072

-- `1.0.0`
abbrev pub default_version : Text
default_version = 49 ∷ 46 ∷ 48 ∷ 46 ∷ 48 ∷ []

abbrev pub or_text : Text → Text → Text
or_text given default = if is_blank given then default else given

-- gophertunnel's numbers for the types of packs.
pub record PackTypes : Type 0 where
  pub resources : ℕ
  pub addon : ℕ
  pub behaviour : ℕ

abbrev pub size_or_default : ℕ → ℕ
size_or_default chunk_size = if chunk_size == 0 then default_chunk_size else chunk_size

unfoldable pub data_info : ℕ → Pack → DataInfo
data_info chunk_size pack =
    let k = size_or_default chunk_size in
    let size = length pack.content in
    record {
      uuid = pack.uuid;
      data_chunk_size = k;
      chunk_count = if size == 0 then 0 else ((size + k - 1) / k) % 4294967296;
      size = size;
      premium = pack.premium;
      pack_type = pack.pack_type;
    }

-- The chunk, and whether it is the last one. `none` is the error of an index out of range.
unfoldable pub chunk : ℕ → ℕ → Pack → Option (ChunkData × Bool)
chunk chunk_size index pack =
    let k = size_or_default chunk_size in
    let offset = index * k in
    let size = length pack.content in
    let end = if ltb size (offset + k) then size else offset + k in
    if ltb size offset
    then none
    else some (
      record {
        uuid = pack.uuid;
        chunk_index = index;
        data_offset = offset;
        payload = take (end - offset) (drop offset pack.content);
      },
      leb size end,
    )

module _ (types : PackTypes) (uuid_string : ℕ → Text) where
  abbrev pub normalised : Pack → Pack
  normalised pack = record pack {
    version = or_text pack.version default_version;
    content_identity = or_text pack.content_identity (uuid_string pack.uuid);
    pack_type = if pack.pack_type == 0 then types.resources else pack.pack_type;
  }

  abbrev pub pack_then : Pack → Option (List Pack) → Option (List Pack)
  pack_then pack none = none
  pack_then pack (some packs) = some (pack ∷ packs)

  -- `none` is the error of an empty UUID.
  unfoldable pub normalize : List Pack → Option (List Pack)
  normalize [] = some []
  normalize (pack ∷ packs) =
      let others = normalize packs in
      if pack.uuid == 0 then none else pack_then (normalised pack) others

  unfoldable pub texture_pack_info : Pack → TexturePackInfo
  texture_pack_info pack = record {
    uuid = pack.uuid;
    version = pack.version;
    size = length pack.content;
    content_key = pack.content_key;
    sub_pack_name = pack.sub_pack_name;
    content_identity = or_text pack.content_identity (uuid_string pack.uuid);
    has_scripts = pack.has_scripts;
    addon_pack =
        pack.addon_pack || pack.pack_type == types.addon || pack.pack_type == types.behaviour;
    download_url = pack.download_url;
  }
