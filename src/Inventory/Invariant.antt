-- ===== src/Inventory/Invariant.antt =====
-- The invariant of an inventory: 36 main slots, no stack of more than 64 items, and a selected slot
-- in the hotbar. Storing a stack within the limit keeps it.
use open_ai_mc_be_server.Prelude.{
  ℕ, zero, suc, ◌≤◌, ◌<◌, ◌≡◌, List, [], ◌∷◌, length, get_or, set, length-set, arith,
}
use open_ai_mc_be_server.Inventory.Item.{
  Container, inventory, combined_hot_bar_and_inventory, hot_bar, cursor, offhand, other, Protocol,
  ItemInstance, InventorySlot, empty_item,
}
use open_ai_mc_be_server.Inventory.Store.{
  Inventory, item, normalise_item, next_network_stack_id, set_item, set_in, new_inventory,
}
use open_ai_mc_be_server.Inventory.Storing.{item_at}

abbrev pub AllStacked : {D : Type 0} → List (ItemInstance D) → Type 0
AllStacked [] = Unit {0}
AllStacked (it ∷ its) = (it.count ≤ 64) × AllStacked its

pub record IsValid {D : Type 0} (inv : Inventory D) : Type 0 where
  pub slots : length inv.main ≡ 36
  pub stacked : AllStacked inv.main
  pub stacked_cursor : inv.cursor_item.count ≤ 64
  pub stacked_offhand : inv.offhand_item.count ≤ 64
  pub selected : inv.selected_hotbar < 9

AllStacked-set :
    {D : Type 0} (its : List (ItemInstance D)) (i : ℕ) (it : ItemInstance D)
    → AllStacked its
    → it.count ≤ 64
    → AllStacked (set its i it)
AllStacked-set [] i it h k = h
AllStacked-set (x ∷ its) zero it h k = (k, h.1)
AllStacked-set (x ∷ its) (suc i) it h k = (h.0, AllStacked-set its i it h.1 k)

AllStacked-get :
    {D : Type 0} (its : List (ItemInstance D)) (i : ℕ) (d : ItemInstance D)
    → AllStacked its
    → d.count ≤ 64
    → (get_or its i d).count ≤ 64
AllStacked-get [] i d h k = k
AllStacked-get (x ∷ its) zero d h k = h.0
AllStacked-get (x ∷ its) (suc i) d h k = AllStacked-get its i d h.1 k

module _ {D : Type 0} ⦃q : Protocol D⦄ where
  pub new_inventory-IsValid : IsValid {D = D} new_inventory
  unfolding new_inventory
  new_inventory-IsValid = ground arith

  pub item_at-stacked :
      (inv : Inventory D) (ref : InventorySlot) → IsValid inv → (item_at inv ref).count ≤ 64
  unfolding item
  item_at-stacked inv ref v = ground (arith, AllStacked-get inv.main ref.slot empty_item v.stacked)

  normalise_item-IsValid :
      (it : ItemInstance D) (inv : Inventory D)
      → IsValid inv
      → it.count ≤ 64
      → IsValid (normalise_item it inv).1 × ((normalise_item it inv).0.count ≤ 64)
  unfolding normalise_item
  normalise_item-IsValid it inv v h = ground arith

  set_in-IsValid :
      (c : Container) (slot : ℕ) (it : ItemInstance D) (inv : Inventory D)
      → IsValid inv
      → it.count ≤ 64
      → IsValid (set_in c slot it inv).1
  set_in-IsValid inventory slot it inv v h =
      ground (arith, AllStacked-set inv.main slot it v.stacked h, length-set inv.main slot it)
  set_in-IsValid combined_hot_bar_and_inventory slot it inv v h =
      ground (arith, AllStacked-set inv.main slot it v.stacked h, length-set inv.main slot it)
  set_in-IsValid hot_bar slot it inv v h =
      ground (arith, AllStacked-set inv.main slot it v.stacked h, length-set inv.main slot it)
  set_in-IsValid cursor slot it inv v h = ground arith
  set_in-IsValid offhand slot it inv v h = ground arith
  set_in-IsValid (other n) slot it inv v h = v

  pub set_item-IsValid :
      (ref : InventorySlot) (it : ItemInstance D) (inv : Inventory D)
      → IsValid inv
      → it.count ≤ 64
      → IsValid (set_item ref it inv).1
  unfolding set_item
  set_item-IsValid ref it inv v h =
      let n = normalise_item-IsValid it inv v h in
      set_in-IsValid ref.container ref.slot (normalise_item it inv).0 (normalise_item it inv).1 n.0
        n.1

  pub next_network_stack_id-IsValid :
      (inv : Inventory D) → IsValid inv → IsValid (next_network_stack_id inv).1
  unfolding next_network_stack_id
  next_network_stack_id-IsValid inv v = ground arith
