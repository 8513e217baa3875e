-- ===== src/Movement/Metadata.antt =====
-- Entity metadata and its flags (internal/server/mcpe_player_sync.go). The numbers of keys, flags and
-- inputs are the protocol library's.
use open_ai_mc_be_server.Prelude.{
  not, ℕ, ◌+◌, ◌-◌, ◌/◌, ◌%◌, ◌^◌, Bool, true, false, ◌||◌, Option, none, some, leb, ◌==◌,
  if◌then◌else◌,
}
use open_ai_mc_be_server.Prelude.Dict.{Dict, lookup, insert}
use open_ai_mc_be_server.Command.Args.{Text}

-- An int64 is its bit pattern.
pub data Value (F : Type 0) : Type 0 where
  int64 : ℕ → Value F
  int16 : ℕ → Value F
  text : Text → Value F
  float : F → Value F

abbrev pub Metadata : Type 0 → Type 0
Metadata F = Dict (Value F)

pub record Keys : Type 0 where
  pub flags : ℕ
  pub flags_two : ℕ
  pub name : ℕ
  pub scale : ℕ
  pub width : ℕ
  pub height : ℕ
  pub air_supply : ℕ
  pub air_supply_max : ℕ

pub record FlagNumbers : Type 0 where
  pub show_name : ℕ
  pub always_show_name : ℕ
  pub has_collision : ℕ
  pub has_gravity : ℕ
  pub sneaking : ℕ
  pub sprinting : ℕ
  pub swimming : ℕ
  pub gliding : ℕ
  pub fly : ℕ
  pub crawling : ℕ

pub record Toggle : Type 0 where
  pub start : ℕ
  pub stop : ℕ

pub record InputNumbers : Type 0 where
  pub sneaking : ℕ
  pub jumping : ℕ
  pub perform_item_stack_request : ℕ
  pub sprinting : Toggle
  pub swimming : Toggle
  pub gliding : Toggle
  pub flying : Toggle
  pub crawling : Toggle

-- The library's `Bitset`.
pub record Bitset : Type 0 where
  pub len : ℕ
  pub load : ℕ → Bool

abbrev pub input_flag : Bitset → ℕ → Bool
input_flag input flag = if leb input.len flag then false else input.load flag

-- `current & (1 << index) != 0`, `current | 1 << index` and `current &^ (1 << index)`
abbrev pub bit : ℕ → ℕ → Bool
bit current index = current / 2 ^ index % 2 == 1

abbrev pub set_bit : ℕ → ℕ → ℕ
set_bit current index = if bit current index then current else current + 2 ^ index

abbrev pub clear_bit : ℕ → ℕ → ℕ
clear_bit current index = if bit current index then current - 2 ^ index else current

abbrev pub index_of : ℕ → ℕ
index_of flag = if leb 64 flag then flag - 64 else flag

abbrev pub flag_next : ℕ → ℕ → Bool → ℕ
flag_next current index true = set_bit current index
flag_next current index false = clear_bit current index

abbrev pub same_bool : Bool → Bool → Bool
same_bool true b = b
same_bool false b = not b

abbrev pub key_of : Keys → ℕ → ℕ
key_of keys flag = if leb 64 flag then keys.flags_two else keys.flags

-- `current, _ := metadata[key].(int64)`
abbrev pub word : {F : Type 0} → Option (Value F) → ℕ
word none = 0
word (some (int64 n)) = n
word (some (int16 n)) = 0
word (some (text t)) = 0
word (some (float x)) = 0

-- `changed = f(metadata) || changed`
infixl 5 ◌also◌
abbrev pub ◌also◌ :
    {F : Type 0} → Metadata F × Bool → (Metadata F → Metadata F × Bool) → Metadata F × Bool
◌also◌ (metadata, changed) f = let (metadata', now) = f metadata in (metadata', now || changed)

module _ {F : Type 0} (keys : Keys) where
  -- The metadata, and whether it changed.
  unfoldable pub set_generic_metadata_flag : Metadata F → ℕ → Bool → Metadata F × Bool
  set_generic_metadata_flag metadata flag value =
      let current = word (lookup (key_of keys flag) metadata) in
      let next = flag_next current (index_of flag) value in
      if next == current
      then (metadata, false)
      else (insert (key_of keys flag) (int64 next) metadata, true)

  unfoldable pub apply_input_toggle : Metadata F → ℕ → Bitset → Toggle → Metadata F × Bool
  apply_input_toggle metadata flag input toggle =
      let started = input_flag input toggle.start in
      let stopped = input_flag input toggle.stop in
      if same_bool started stopped
      then (metadata, false)
      else set_generic_metadata_flag metadata flag started

  module _ (flag : FlagNumbers) (in_ : InputNumbers) where
    unfoldable pub update_player_metadata_from_input : Bitset → Metadata F → Metadata F × Bool
    update_player_metadata_from_input input metadata =
        (metadata, false)
        also (λ m. set_generic_metadata_flag m flag.sneaking (input_flag input in_.sneaking))
        also (λ m. apply_input_toggle m flag.sprinting input in_.sprinting)
        also (λ m. apply_input_toggle m flag.swimming input in_.swimming)
        also (λ m. apply_input_toggle m flag.gliding input in_.gliding)
        also (λ m. apply_input_toggle m flag.fly input in_.flying)
        also (λ m. apply_input_toggle m flag.crawling input in_.crawling)

  -- `given` is the library's `NewEntityMetadata()`.
  unfoldable pub player_metadata :
      FlagNumbers → Metadata F → (one width height : F) → Text → Metadata F
  player_metadata flag given one width height name =
      let named = insert keys.name (text name) given in
      let scaled = insert keys.scale (float one) named in
      let wide = insert keys.width (float width) scaled in
      let high = insert keys.height (float height) wide in
      let air = insert keys.air_supply (int16 300) high in
      let most = insert keys.air_supply_max (int16 400) air in
      let shown = (set_generic_metadata_flag most flag.show_name true).0 in
      let always = (set_generic_metadata_flag shown flag.always_show_name true).0 in
      let collides = (set_generic_metadata_flag always flag.has_collision true).0 in
      (set_generic_metadata_flag collides flag.has_gravity true).0
