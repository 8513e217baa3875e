-- ===== src/Inventory/Store.antt =====
-- The player's inventory (internal/server/mcpe_inventory.go): slots, stack ids and snapshots.
use open_ai_mc_be_server.Prelude.{
  ℕ, Bool, not, true, false, Option, none, some, List, [], ◌∷◌, leb, ltb, ◌==◌, if◌then◌else◌,
  get_or, set, replicate,
}
use open_ai_mc_be_server.Prelude.Int.{ℤ, pos, ◌+ℤ◌, eqb_ℤ, leb_ℤ, ltb_ℤ, int32_max, int32_min}
use open_ai_mc_be_server.Inventory.Item.{
  Container, inventory, combined_hot_bar_and_inventory, hot_bar, cursor, offhand, other, Protocol,
  ItemInstance, InventorySlot, failed_to_validate_src_slot, invalid_source_container,
  invalid_item_net_id, RequestError, stack_request, plain, slot_eqb, main_slots, hotbar_slots,
  item_is_empty, empty_item,
}

pub data Result (A : Type 0) : Type 0 where
  ok : A → Result A
  err : RequestError → Result A

-- The stack ids that one response told the client, by slot.
abbrev pub SlotIds : Type 0
SlotIds = List (InventorySlot × ℤ)

pub record Inventory (D : Type 0) : Type 0 where
  pub main : List (ItemInstance D)
  pub cursor_item : ItemInstance D
  pub offhand_item : ItemInstance D
  pub selected_hotbar : ℕ
  pub next_stack_id : ℤ
  pub response_stack_ids : List (ℤ × SlotIds)

pub record Snapshot (D : Type 0) : Type 0 where
  pub main : List (ItemInstance D)
  pub cursor_item : ItemInstance D
  pub offhand_item : ItemInstance D
  pub selected_hotbar : ℕ
  pub next_stack_id : ℤ

-- Of a map kept as an association list.
unfoldable pub lookup_slot {ℓ} : {V : Type ℓ} → InventorySlot → List (InventorySlot × V) → Option V
lookup_slot k [] = none
lookup_slot k ((j, v) ∷ m) = if slot_eqb k j then some v else lookup_slot k m

unfoldable pub insert_slot {ℓ} :
    {V : Type ℓ} → InventorySlot → V → List (InventorySlot × V) → List (InventorySlot × V)
insert_slot k v [] = (k, v) ∷ []
insert_slot k v ((j, w) ∷ m) = if slot_eqb k j then (k, v) ∷ m else (j, w) ∷ insert_slot k v m

unfoldable pub lookup_id : ℤ → List (ℤ × SlotIds) → Option SlotIds
lookup_id k [] = none
lookup_id k ((j, v) ∷ m) = if eqb_ℤ k j then some v else lookup_id k m

unfoldable pub insert_id : ℤ → SlotIds → List (ℤ × SlotIds) → List (ℤ × SlotIds)
insert_id k v [] = (k, v) ∷ []
insert_id k v ((j, w) ∷ m) = if eqb_ℤ k j then (k, v) ∷ m else (j, w) ∷ insert_id k v m

module _ {D : Type 0} ⦃q : Protocol D⦄ where
  unfoldable pub new_inventory : Inventory D
  new_inventory = record {
    main = replicate main_slots empty_item;
    cursor_item = empty_item;
    offhand_item = empty_item;
    selected_hotbar = 0;
    next_stack_id = pos 1;
    response_stack_ids = [];
  }

-- `id++` on an int32.
abbrev pub increment32 : ℤ → ℤ
increment32 id = if eqb_ℤ id int32_max then int32_min else id +ℤ pos 1

module _ {D : Type 0} where
  unfoldable pub snapshot : Inventory D → Snapshot D
  snapshot inv = record {
    main = inv.main;
    cursor_item = inv.cursor_item;
    offhand_item = inv.offhand_item;
    selected_hotbar = inv.selected_hotbar;
    next_stack_id = inv.next_stack_id;
  }

  unfoldable pub restore : Snapshot D → Inventory D → Inventory D
  restore s inv = record inv {
    main = s.main;
    cursor_item = s.cursor_item;
    offhand_item = s.offhand_item;
    selected_hotbar = s.selected_hotbar;
    next_stack_id = s.next_stack_id;
  }

  unfoldable pub next_network_stack_id : Inventory D → ℤ × Inventory D
  unfolding ◌+ℤ◌
  next_network_stack_id inv =
      let id = if ltb_ℤ inv.next_stack_id (pos 1) then pos 1 else inv.next_stack_id in
      (id, record inv { next_stack_id = increment32 id })

abbrev pub check_slot : InventorySlot → Bool → Result InventorySlot
check_slot ref true = err (stack_request failed_to_validate_src_slot)
check_slot ref false = ok ref

-- Which slots of which containers a request may name.
unfoldable pub resolve_slot : Container → ℕ → Result InventorySlot
resolve_slot inventory slot =
    check_slot (record { container = inventory; slot = slot }) (leb main_slots slot)
resolve_slot combined_hot_bar_and_inventory slot =
    check_slot (record { container = combined_hot_bar_and_inventory; slot = slot })
      (leb main_slots slot)
resolve_slot hot_bar slot =
    check_slot (record { container = hot_bar; slot = slot }) (leb hotbar_slots slot)
resolve_slot cursor slot = check_slot (record { container = cursor; slot = slot }) (not (slot == 0))
resolve_slot offhand slot =
    check_slot (record { container = offhand; slot = slot }) (not (slot == 0))
resolve_slot (other n) slot = err (stack_request invalid_source_container)

module _ {D : Type 0} ⦃q : Protocol D⦄ where
  unfoldable pub held_item : Inventory D → ItemInstance D
  held_item inv =
      if leb hotbar_slots inv.selected_hotbar
      then empty_item
      else get_or inv.main inv.selected_hotbar empty_item

  abbrev pub main_item : Inventory D → ℕ → Result (ItemInstance D)
  main_item inv slot =
      if leb main_slots slot then err plain else ok (get_or inv.main slot empty_item)

  abbrev pub item_in : Inventory D → Container → ℕ → Result (ItemInstance D)
  item_in inv inventory slot = main_item inv slot
  item_in inv combined_hot_bar_and_inventory slot = main_item inv slot
  item_in inv hot_bar slot = main_item inv slot
  item_in inv cursor slot = ok inv.cursor_item
  item_in inv offhand slot = ok inv.offhand_item
  item_in inv (other n) slot = err plain

  unfoldable pub item : Inventory D → InventorySlot → Result (ItemInstance D)
  item inv ref = item_in inv ref.container ref.slot

  -- A stack without an id gets a fresh one, and the counter stays above every id that is stored.
  unfoldable pub normalise_item : ItemInstance D → Inventory D → ItemInstance D × Inventory D
  unfolding item_is_empty next_network_stack_id ◌+ℤ◌
  normalise_item it inv =
      if item_is_empty it
      then (empty_item, inv)
      else if leb_ℤ it.stack_network_id (pos 0)
      then (let (id, inv') = next_network_stack_id inv in
          (record it { stack_network_id = id }, inv'))
      else if leb_ℤ inv.next_stack_id it.stack_network_id
      then (it, record inv { next_stack_id = increment32 it.stack_network_id })
      else (it, inv)

  abbrev pub set_main : ℕ → ItemInstance D → Inventory D → Result (Unit {0}) × Inventory D
  set_main slot it inv =
      if leb main_slots slot
      then (err plain, inv)
      else (ok tt, record inv { main = set inv.main slot it })

  abbrev pub set_in : Container → ℕ → ItemInstance D → Inventory D → Result (Unit {0}) × Inventory D
  set_in inventory slot it inv = set_main slot it inv
  set_in combined_hot_bar_and_inventory slot it inv = set_main slot it inv
  set_in hot_bar slot it inv = set_main slot it inv
  set_in cursor slot it inv = (ok tt, record inv { cursor_item = it })
  set_in offhand slot it inv = (ok tt, record inv { offhand_item = it })
  set_in (other n) slot it inv = (err plain, inv)

  unfoldable pub set_item :
      InventorySlot → ItemInstance D → Inventory D → Result (Unit {0}) × Inventory D
  set_item ref it inv =
      let (it', inv') = normalise_item it inv in set_in ref.container ref.slot it' inv'

-- The other names of a slot of the main inventory.
abbrev pub main_aliases : ℕ → List InventorySlot
main_aliases slot =
    record { container = inventory; slot = slot }
    ∷ record { container = combined_hot_bar_and_inventory; slot = slot }
    ∷ (if ltb slot hotbar_slots then record { container = hot_bar; slot = slot } ∷ [] else [])

abbrev pub aliases_in : Container → ℕ → List InventorySlot
aliases_in inventory slot = main_aliases slot
aliases_in combined_hot_bar_and_inventory slot = main_aliases slot
aliases_in hot_bar slot = main_aliases slot
aliases_in cursor slot = []
aliases_in offhand slot = []
aliases_in (other n) slot = []

unfoldable pub alias_inventory_slots : InventorySlot → List InventorySlot
alias_inventory_slots ref = aliases_in ref.container ref.slot

-- The first of the keys that the ids of a response name.
unfoldable pub find_slot_id : List InventorySlot → Option SlotIds → Option ℤ
find_slot_id keys none = none
find_slot_id [] (some slots) = none
find_slot_id (key ∷ keys) (some slots) = elim (lookup_slot key slots) [
  | some id ↦ some id
  | none ↦ find_slot_id keys (some slots)
]

module _ {D : Type 0} where
  -- A negative id is the client's prediction, and stands for what an earlier response assigned.
  unfoldable pub resolve_stack_network_id : Inventory D → ℤ → InventorySlot → Result ℤ
  unfolding alias_inventory_slots find_slot_id lookup_id
  resolve_stack_network_id inv id ref =
      if leb_ℤ (pos 0) id
      then ok id
      else elim (find_slot_id (ref ∷ alias_inventory_slots ref)
          (lookup_id id inv.response_stack_ids)) [
            | some resolved ↦ ok resolved
            | none ↦ err (stack_request invalid_item_net_id)
          ]
