-- ===== src/Inventory/Actions.antt =====
-- The actions of an ItemStackRequest (internal/server/mcpe_inventory.go): take, place, swap, drop,
-- destroy and mine.
use open_ai_mc_be_server.Prelude.{ℕ, ◌+◌, ◌%◌, Bool, ◌||◌, not, ltb, ◌==◌, if◌then◌else◌}
use open_ai_mc_be_server.Prelude.Int.{ℤ, pos, pos_part, eqb_ℤ, leb_ℤ, ltb_ℤ}
use open_ai_mc_be_server.Inventory.Item.{
  Container, Protocol, ItemInstance, InventorySlot, invalid_transfer_amount, dst_equal_to_src,
  cannot_place_item, cannot_drop_item, cannot_destroy_item, player_not_in_creative_mode,
  failed_to_validate_src_slot, invalid_item_net_id, action_request_not_allowed, Status,
  RequestError, stack_request, slot_eqb, hotbar_slots, max_stack_count, item_is_empty,
  item_stack_network_id, empty_item, same_stack_type, remaining,
}
use open_ai_mc_be_server.Inventory.Item
use open_ai_mc_be_server.Inventory.Store.{
  Result, ok, err, Inventory, insert_slot, next_network_stack_id, resolve_slot, item, set_item,
  resolve_stack_network_id,
}
use open_ai_mc_be_server.Inventory.Exec.{Exec, fail, gets, fail_if, ◌>>=◌, ◌>>◌}

-- `gtprotocol.StackRequestSlotInfo`
pub record SlotInfo : Type 0 where
  pub container : Container
  pub slot : ℕ
  pub stack_network_id : ℤ

-- The action types that the switch names; a `count` is a byte, a `hotbar_slot` an int32.
pub data StackRequestAction : Type 0 where
  take place place_in_container take_out_container : SlotInfo → SlotInfo → ℕ → StackRequestAction
  swap : SlotInfo → SlotInfo → StackRequestAction
  drop destroy : SlotInfo → ℕ → StackRequestAction
  mine_block : (hotbar_slot stack_network_id : ℤ) → StackRequestAction
  unsupported : StackRequestAction

module _ {D : Type 0} ⦃q : Protocol D⦄ where
  -- The stack of a slot, if its id is the one that the client expects.
  abbrev pub expect_id :
      InventorySlot → ItemInstance D → Result ℤ → Result (InventorySlot × ItemInstance D)
  expect_id ref it (err e) = err e
  expect_id ref it (ok expected) =
      if eqb_ℤ (item_stack_network_id it) expected
      then ok (ref, it)
      else err (stack_request invalid_item_net_id)

  abbrev pub verify_item :
      Inventory D
      → ℤ
      → InventorySlot
      → Result (ItemInstance D)
      → Result (InventorySlot × ItemInstance D)
  verify_item inv id ref (err e) = err e
  verify_item inv id ref (ok it) = expect_id ref it (resolve_stack_network_id inv id ref)

  abbrev pub verify_ref :
      Inventory D → ℤ → Result InventorySlot → Result (InventorySlot × ItemInstance D)
  verify_ref inv id (err e) = err e
  verify_ref inv id (ok ref) = verify_item inv id ref (item inv ref)

  unfoldable pub verify_stack_request_slot :
      SlotInfo → Inventory D → Result (InventorySlot × ItemInstance D)
  verify_stack_request_slot s inv =
      verify_ref inv s.stack_network_id (resolve_slot s.container s.slot)

  -- The change that is recorded is the stack as it was stored; the errors are dropped.
  abbrev pub recorded : Result (ItemInstance D) → ItemInstance D
  recorded (ok it) = it
  recorded (err e) = empty_item

  unfoldable pub set_request_slot : InventorySlot → ItemInstance D → Exec D (Unit {0})
  set_request_slot ref it w =
      let inv = (set_item ref it w.inventory).1 in
      (
        ok tt,
        record { inventory = inv; changes = insert_slot ref (recorded (item inv ref)) w.changes },
      )

  -- `client.inventory.nextNetworkStackID()`, for a part of a stack.
  unfoldable pub moved_stack : ItemInstance D → ℕ → Exec D (ItemInstance D)
  moved_stack it count w =
      if count == it.count
      then (ok (record it { count = count }), w)
      else (let (id, inv) = next_network_stack_id w.inventory in
          (ok (record it { count = count; stack_network_id = id }), record w { inventory = inv }))

  unfoldable pub transfer_to_empty :
      InventorySlot → ItemInstance D → InventorySlot → ℕ → Exec D (Unit {0})
  transfer_to_empty source source_item destination count = do
    moved ← moved_stack source_item count
    set_request_slot source (remaining source_item count)
    set_request_slot destination moved

  unfoldable pub transfer_to_stack :
      InventorySlot → ItemInstance D → InventorySlot → ItemInstance D → ℕ → Exec D (Unit {0})
  transfer_to_stack source source_item destination destination_item count = do
    fail_if (not (same_stack_type source_item destination_item)) (stack_request cannot_place_item)
    let total = (destination_item.count + count) % 65536
    fail_if (ltb max_stack_count total) (stack_request cannot_place_item)
    set_request_slot source (remaining source_item count)
    set_request_slot destination (record destination_item { count = total })

  -- From the comparison of the two slots on.
  unfoldable pub transfer_between :
      InventorySlot × ItemInstance D → InventorySlot × ItemInstance D → ℕ → Exec D (Unit {0})
  transfer_between (source_ref, source_item) (destination_ref, destination_item) count = do
    fail_if (slot_eqb source_ref destination_ref) (stack_request dst_equal_to_src)
    fail_if (item_is_empty source_item || ltb source_item.count count)
        (stack_request invalid_transfer_amount)
    if item_is_empty destination_item
        then transfer_to_empty source_ref source_item destination_ref count
        else transfer_to_stack source_ref source_item destination_ref destination_item count

  unfoldable pub transfer_stack : SlotInfo → SlotInfo → ℕ → Exec D (Unit {0})
  transfer_stack source destination count = do
    fail_if (count == 0) (stack_request invalid_transfer_amount)
    verified_source ← gets (verify_stack_request_slot source)
    verified_destination ← gets (verify_stack_request_slot destination)
    transfer_between verified_source verified_destination count

  unfoldable pub swap_between :
      InventorySlot × ItemInstance D → InventorySlot × ItemInstance D → Exec D (Unit {0})
  swap_between (source_ref, source_item) (destination_ref, destination_item) = do
    fail_if (slot_eqb source_ref destination_ref) (stack_request dst_equal_to_src)
    set_request_slot source_ref destination_item
    set_request_slot destination_ref source_item

  unfoldable pub swap_stacks : SlotInfo → SlotInfo → Exec D (Unit {0})
  swap_stacks source destination = do
    verified_source ← gets (verify_stack_request_slot source)
    verified_destination ← gets (verify_stack_request_slot destination)
    swap_between verified_source verified_destination

  abbrev pub remove_verified : Status → InventorySlot × ItemInstance D → ℕ → Exec D (Unit {0})
  remove_verified status (ref, it) count = do
    fail_if (item_is_empty it || ltb it.count count) (stack_request status)
    set_request_slot ref (remaining it count)

  -- `dropStack` and `destroyStack` differ in the status that they report.
  unfoldable pub remove_stack : Status → SlotInfo → ℕ → Exec D (Unit {0})
  remove_stack status source count = do
    fail_if (count == 0) (stack_request invalid_transfer_amount)
    verified_source ← gets (verify_stack_request_slot source)
    remove_verified status verified_source count

  unfoldable pub drop_stack : SlotInfo → ℕ → Exec D (Unit {0})
  drop_stack = remove_stack cannot_drop_item

  unfoldable pub destroy_stack : SlotInfo → ℕ → Exec D (Unit {0})
  destroy_stack = remove_stack cannot_destroy_item

  abbrev pub record_change : InventorySlot → ItemInstance D → Exec D (Unit {0})
  record_change ref it w = (ok tt, record w { changes = insert_slot ref it w.changes })

  unfoldable pub ack_mine_block_stack : ℤ → ℤ → Exec D (Unit {0})
  ack_mine_block_stack hotbar_slot id = do
    fail_if (ltb_ℤ hotbar_slot (pos 0) || leb_ℤ (pos hotbar_slots) hotbar_slot)
        (stack_request failed_to_validate_src_slot)
    (ref, it) ← gets (
        verify_stack_request_slot (record {
          container = Item.inventory;
          slot = pos_part hotbar_slot;
          stack_network_id = id;
        }))
    record_change ref it

  -- `creative` is what `creativeInventoryAllowed` answers.
  unfoldable pub apply_stack_request_action : Bool → StackRequestAction → Exec D (Unit {0})
  apply_stack_request_action creative (take s d n) = transfer_stack s d n
  apply_stack_request_action creative (place s d n) = transfer_stack s d n
  apply_stack_request_action creative (place_in_container s d n) = transfer_stack s d n
  apply_stack_request_action creative (take_out_container s d n) = transfer_stack s d n
  apply_stack_request_action creative (swap s d) = swap_stacks s d
  apply_stack_request_action creative (drop s n) = drop_stack s n
  apply_stack_request_action creative (destroy s n) =
      if not creative then fail (stack_request player_not_in_creative_mode) else destroy_stack s n
  apply_stack_request_action creative (mine_block slot id) = ack_mine_block_stack slot id
  apply_stack_request_action creative unsupported = fail (stack_request action_request_not_allowed)
