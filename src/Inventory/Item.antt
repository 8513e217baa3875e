-- ===== src/Inventory/Item.antt =====
-- Item stacks, their slots and the request errors of internal/server/mcpe_inventory.go.
-- A Go value is copied where the source clones it, so `cloneItemInstance` has no counterpart.
use open_ai_mc_be_server.Prelude.{ℕ, ◌+◌, ◌-◌, Bool, true, ◌&&◌, ◌||◌, ◌==◌, if◌then◌else◌}
use open_ai_mc_be_server.Prelude.Int.{ℤ, pos, eqb_ℤ}

-- The containers that the source names; the rest of the byte's values are `other`.
pub data Container : Type 0 where
  inventory combined_hot_bar_and_inventory hot_bar cursor offhand : Container
  other : ℕ → Container

-- What the code takes from gophertunnel: the fields of an `ItemStack` that it never reads itself
-- (metadata, block runtime id, NBT, placement lists), their zero value, `reflect.DeepEqual` on
-- them, and the bytes of the containers.
pub record Protocol (D : Type 0) : Type 0 where
  pub zero_details : D
  pub deep_equal : D → D → Bool
  pub container_id : Container → ℕ

-- `stack_network_id` and `network_id` are int32, `count` is uint16.
pub record ItemInstance (D : Type 0) : Type 0 where
  pub stack_network_id : ℤ
  pub network_id : ℤ
  pub count : ℕ
  pub details : D

pub record InventorySlot : Type 0 where
  pub container : Container
  pub slot : ℕ

-- The statuses of an ItemStackResponse that the code sends.
pub data Status : Type 0 where
  status_ok status_error : Status
  invalid_transfer_amount dst_equal_to_src cannot_place_item : Status
  cannot_drop_item cannot_destroy_item player_not_in_creative_mode : Status
  failed_to_validate_src_slot invalid_source_container invalid_item_net_id : Status
  action_request_not_allowed : Status

-- `stack_request` is an `itemStackRequestError`, also behind a wrapping error; `plain` is any other.
-- The messages are left out.
pub data RequestError : Type 0 where
  stack_request : Status → RequestError
  plain : RequestError

unfoldable pub stack_request_status : RequestError → Status
stack_request_status (stack_request s) = s
stack_request_status plain = status_error

abbrev pub container_code : Container → ℕ
container_code inventory = 0
container_code combined_hot_bar_and_inventory = 1
container_code hot_bar = 2
container_code cursor = 3
container_code offhand = 4
container_code (other n) = 5 + n

-- `==` on two slots.
abbrev pub slot_eqb : InventorySlot → InventorySlot → Bool
slot_eqb a b = container_code a.container == container_code b.container && a.slot == b.slot

abbrev pub main_slots : ℕ
main_slots = 36

abbrev pub hotbar_slots : ℕ
hotbar_slots = 9

abbrev pub max_stack_count : ℕ
max_stack_count = 64

module _ {D : Type 0} where
  unfoldable pub item_is_empty : ItemInstance D → Bool
  item_is_empty item = eqb_ℤ item.network_id (pos 0) || item.count == 0

  unfoldable pub item_stack_network_id : ItemInstance D → ℤ
  item_stack_network_id item = if item_is_empty item then pos 0 else item.stack_network_id

module _ {D : Type 0} ⦃q : Protocol D⦄ where
  -- `gtprotocol.ItemInstance{}`
  abbrev pub empty_item : ItemInstance D
  empty_item = record {
    stack_network_id = pos 0;
    network_id = pos 0;
    count = 0;
    details = q.zero_details;
  }

  unfoldable pub same_item_instance : ItemInstance D → ItemInstance D → Bool
  same_item_instance a b =
      if item_is_empty a && item_is_empty b
      then true
      else eqb_ℤ a.stack_network_id b.stack_network_id
        && eqb_ℤ a.network_id b.network_id
        && a.count == b.count
        && q.deep_equal a.details b.details

  unfoldable pub same_stack_type : ItemInstance D → ItemInstance D → Bool
  same_stack_type a b =
      if item_is_empty a || item_is_empty b
      then item_is_empty a && item_is_empty b
      else eqb_ℤ a.network_id b.network_id && q.deep_equal a.details b.details

  -- The rest of a stack after `n` items were taken: an emptied slot holds the zero value. The
  -- callers have tested that `n` items are there, so the subtraction does not wrap.
  unfoldable pub remaining : ItemInstance D → ℕ → ItemInstance D
  remaining item n =
      let left = item.count - n in if left == 0 then empty_item else record item { count = left }
