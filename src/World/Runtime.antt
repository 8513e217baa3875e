-- ===== src/World/Runtime.antt =====
-- Block states, their runtime ids, and biomes by name (internal/world/runtime.go). `V` is the type of
-- a property's value.
use open_ai_mc_be_server.Prelude.{
  ℕ, ◌-◌, ◌*◌, ◌%◌, ◌^◌, ◌||◌, List, [], ◌∷◌, ◌++◌, Option, none, some, map, length, take, drop,
  if◌then◌else◌,
}
use Prim.Native.Nat.{bit_xor}
use open_ai_mc_be_server.Prelude.Strings.{codes}
use open_ai_mc_be_server.Command.Args.{Text}
use open_ai_mc_be_server.Command.Registry.{is_blank, text_eqb, TextMap, find}

-- A nil map is an empty one.
pub record BlockState (V : Type 0) : Type 0 where
  pub name : Text
  pub properties : TextMap V

pub record Biome : Type 0 where
  pub name : Text
  pub id : ℕ

unfoldable pub biome_by_name : Text → Option Biome
biome_by_name name =
    if text_eqb name (codes "plains") || text_eqb name (codes "minecraft:plains")
    then some (record { name = codes "plains"; id = 1 })
    else none

-- FNV-1a over 32 bits, from a hash.
unfoldable pub fnv1a32 : ℕ → List ℕ → ℕ
fnv1a32 hash [] = hash
fnv1a32 hash (value ∷ values) = fnv1a32 (bit_xor hash value * 0x01000193 % 2 ^ 32) values

-- `buf.Bytes()[3 : buf.Len()-1]`
unfoldable pub inner_bytes : List ℕ → List ℕ
inner_bytes bytes = drop 3 (take (length bytes - 1) bytes)

-- `encode key value` is what the NBT library's little-endian encoder writes for the map of that one
-- key, `sort_strings` is `sort.Strings`, and a text and a byte are values of a property.
pub record Encoding (V : Type 0) : Type 0 where
  pub encode : Text → V → List ℕ
  pub sort_strings : List Text → List Text
  pub of_text : Text → V
  pub of_byte : ℕ → V

module _ {V : Type 0} (nbt : Encoding V) where
  open nbt use {encode, sort_strings, of_text}

  unfoldable pub marshal_nbt_field : Text → V → List ℕ
  marshal_nbt_field key value = inner_bytes (encode key value)

  abbrev pub marshal_found : Text → Option V → List ℕ
  marshal_found key none = []
  marshal_found key (some value) = marshal_nbt_field key value

  unfoldable pub marshal_states : List Text → TextMap V → List ℕ
  marshal_states [] states = []
  marshal_states (key ∷ keys) states =
      marshal_found key (find key states) ++ marshal_states keys states

  -- The bytes that are hashed.
  unfoldable pub state_bytes : BlockState V → List ℕ
  state_bytes state =
      (10 ∷ 0 ∷ 0 ∷ [])
      ++ (marshal_nbt_field (codes "name") (of_text state.name)
          ++ ((10 ∷ 6 ∷ 0 ∷ [])
              ++ (codes "states"
                  ++ (marshal_states (sort_strings (map (λ p. p.0) state.properties))
                        state.properties
                      ++ (0 ∷ 0 ∷ [])))))

  unfoldable pub block_state_hash : BlockState V → ℕ
  block_state_hash state =
      if text_eqb state.name (codes "minecraft:unknown") || text_eqb state.name (codes "unknown")
      then 4294967294
      else fnv1a32 0x811c9dc5 (state_bytes state)

  -- `none` is the error of an empty name.
  unfoldable pub runtime_id_of : BlockState V → Option ℕ
  runtime_id_of state = if is_blank state.name then none else some (block_state_hash state)

abbrev pub plain_block : {V : Type 0} → Text → BlockState V
plain_block name = record { name = name; properties = [] }
