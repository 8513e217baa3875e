-- ===== src/Inventory/Client.antt =====
-- The inventory handlers of a client (internal/server/mcpe_inventory.go) with the packets that they
-- send. A write may fail: `delivers` says which packets go out, and the handler stops at the first
-- that does not.
use open_ai_mc_be_server.Prelude.{
  ℕ, Bool, true, false, ◌||◌, ◌&&◌, not, List, [], ◌∷◌, ◌++◌, leb, ◌==◌, if◌then◌else◌,
}
use open_ai_mc_be_server.Inventory.Item.{
  Container, Protocol, ItemInstance, InventorySlot, hotbar_slots, same_item_instance,
}
use open_ai_mc_be_server.Inventory.Item
use open_ai_mc_be_server.Inventory.Store.{Result, ok, err, Inventory, item, held_item}
use open_ai_mc_be_server.Inventory.Actions.{recorded}
use open_ai_mc_be_server.Inventory.Response.{StackResponse}
use open_ai_mc_be_server.Inventory.Requests.{ItemStackRequest, apply_requests}

pub data Window : Type 0 where
  window_inventory window_off_hand window_ui : Window
  window_other : ℕ → Window

pub data Packet (D : Type 0) : Type 0 where
  item_stack_response : List StackResponse → Packet D
  inventory_content : Window → Container → List (ItemInstance D) → Packet D
  inventory_slot : Window → InventorySlot → ItemInstance D → Packet D
  mob_equipment : (runtime_id : ℕ) → ItemInstance D → (slot : ℕ) → Packet D

-- To the client itself, or to every other spawned player.
pub data Sent (D : Type 0) : Type 0 where
  to_client to_peers : Packet D → Sent D

-- `creative` is the answer of `creativeInventoryAllowed`, `sent` the packets so far, in order.
pub record Client (D : Type 0) : Type 0 where
  pub runtime_id : ℕ
  pub creative : Bool
  pub inventory : Inventory D
  pub sent : List (Sent D)

pub data Outcome : Type 0 where
  done failed : Outcome

abbrev pub Handler : Type 0 → Type 0
Handler D = Client D → Outcome × Client D

abbrev pub continue : {D : Type 0} → Outcome → Client D → Handler D → Outcome × Client D
continue done c k = k c
continue failed c k = (failed, c)

infixl 5 ◌>>◌
abbrev pub ◌>>◌ : {D : Type 0} → Handler D → Handler D → Handler D
◌>>◌ m k c = let (r, c') = m c in continue r c' k

abbrev pub return_ok : {D : Type 0} → Handler D
return_ok c = (done, c)

abbrev pub return_err : {D : Type 0} → Handler D
return_err c = (failed, c)

-- `pk` of type MobEquipment.
pub record EquipmentRequest (D : Type 0) : Type 0 where
  pub entity_runtime_id : ℕ
  pub window : Window
  pub inventory_slot : ℕ
  pub hot_bar_slot : ℕ
  pub new_item : ItemInstance D

abbrev pub window_for : Container → Window
window_for Item.offhand = window_off_hand
window_for Item.cursor = window_ui
window_for Item.inventory = window_inventory
window_for Item.combined_hot_bar_and_inventory = window_inventory
window_for Item.hot_bar = window_inventory
window_for (Item.other n) = window_inventory

module _ {D : Type 0} ⦃q : Protocol D⦄ (delivers : Sent D → Bool) where
  unfoldable pub write : Sent D → Handler D
  write p c = if delivers p then (done, record c { sent = c.sent ++ p ∷ [] }) else (failed, c)

  abbrev pub main_content : Inventory D → Packet D
  main_content inv = inventory_content window_inventory Item.inventory inv.main

  abbrev pub offhand_content : Inventory D → Packet D
  offhand_content inv = inventory_content window_off_hand Item.offhand (inv.offhand_item ∷ [])

  abbrev pub held_equipment : Client D → Packet D
  held_equipment c = mob_equipment c.runtime_id (held_item c.inventory) c.inventory.selected_hotbar

  unfoldable pub resend_held_slot : Handler D
  resend_held_slot c = write (to_client (held_equipment c)) c

  unfoldable pub broadcast_held_equipment : Handler D
  broadcast_held_equipment c = write (to_peers (held_equipment c)) c

  -- Also `sendInitialInventory`, which differs in its error messages.
  unfoldable pub resync_inventory : Handler D
  resync_inventory c =
      (write (to_client (main_content c.inventory))
          >> write (to_client (offhand_content c.inventory))
          >> resend_held_slot)
        c

  abbrev pub slot_packet : InventorySlot → Result (ItemInstance D) → Handler D
  slot_packet ref (err e) = return_err
  slot_packet ref (ok it) = write (to_client (inventory_slot (window_for ref.container) ref it))

  unfoldable pub send_inventory_slot : InventorySlot → Handler D
  send_inventory_slot ref c = slot_packet ref (item c.inventory ref) c

  abbrev pub select : ℕ → Handler D
  select slot c = (done, record c { inventory = record (c.inventory) { selected_hotbar = slot } })

  -- The selected slot is sent again if the client's idea of its item differs.
  abbrev pub resync_mismatch : EquipmentRequest D → Handler D
  resync_mismatch pk c =
      let ref : InventorySlot = record { container = Item.inventory; slot = pk.inventory_slot } in
      if same_item_instance (recorded (item c.inventory ref)) pk.new_item
      then (done, c)
      else send_inventory_slot ref c

  unfoldable pub equip : EquipmentRequest D → Handler D
  equip pk c =
      if not (pk.hot_bar_slot == pk.inventory_slot) || leb hotbar_slots pk.inventory_slot
      then resend_held_slot c
      else (resync_mismatch pk >> select pk.inventory_slot >> broadcast_held_equipment) c

  abbrev pub equip_window : Window → EquipmentRequest D → Handler D
  equip_window window_off_hand pk = return_ok
  equip_window window_inventory pk = equip pk
  equip_window window_ui pk = return_err
  equip_window (window_other n) pk = return_err

  unfoldable pub handle_mob_equipment : EquipmentRequest D → Handler D
  handle_mob_equipment pk c =
      if c.runtime_id == 0
        || (not (pk.entity_runtime_id == 0) && not (pk.entity_runtime_id == c.runtime_id))
      then (done, c)
      else equip_window pk.window pk c

  abbrev pub announce_held : ItemInstance D → Handler D
  announce_held before c =
      if same_item_instance before (held_item c.inventory)
      then (done, c)
      else broadcast_held_equipment c

  abbrev pub resync_if : Bool → Handler D
  resync_if true = resync_inventory
  resync_if false = return_ok

  unfoldable pub process_item_stack_requests : List ItemStackRequest → Handler D
  process_item_stack_requests [] c = (done, c)
  process_item_stack_requests (r ∷ rs) c =
      let (responses, rejected, inv) = apply_requests c.creative (r ∷ rs) c.inventory in
      (write (to_client (item_stack_response responses))
          >> announce_held (held_item c.inventory)
          >> resync_if rejected)
        (record c { inventory = inv })

  unfoldable pub handle_item_stack_request : List ItemStackRequest → Handler D
  handle_item_stack_request requests c =
      if c.runtime_id == 0 then (done, c) else process_item_stack_requests requests c
