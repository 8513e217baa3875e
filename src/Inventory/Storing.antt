-- ===== src/Inventory/Storing.antt =====
-- Storing an item: what it does to the place that is named, to the other places, and to the totals.
use open_ai_mc_be_server.Prelude.{
  ℕ, ◌+◌, ◌≡◌, ◌≢◌, refl, length, length-set, arith, ◌⊎◌, inl, inr, get_or-set_self, get_or-set_ne,
}
use open_ai_mc_be_server.Prelude.Int.{ℤ}
use open_ai_mc_be_server.Inventory.Item.{
  Container, inventory, combined_hot_bar_and_inventory, hot_bar, cursor, offhand, other, Protocol,
  ItemInstance, InventorySlot, empty_item,
}
use open_ai_mc_be_server.Inventory.Store.{
  Result, ok, err, Inventory, resolve_slot, item, normalise_item, set_item, set_in,
}
use open_ai_mc_be_server.Inventory.Actions.{SlotInfo, recorded, verify_stack_request_slot}
use open_ai_mc_be_server.Inventory.Places.{
  place, IsPlacedIn, IsPlaced, weight, total, weights-set, normalise_item-weight,
  normalise_item-SamePlaces, resolve_slot-IsPlaced,
}

pub Result-cases : {A : Type 0} (r : Result A) → ((a : A) × (r ≡ ok a)) ⊎ ((e : _) × (r ≡ err e))
Result-cases (ok a) = inl (a, refl)
Result-cases (err e) = inr (e, refl)

module _ {D : Type 0} ⦃q : Protocol D⦄ where
  -- The item at a slot that exists.
  abbrev pub item_at : Inventory D → InventorySlot → ItemInstance D
  item_at inv ref = recorded (item inv ref)

  pub item_placed :
      (inv : Inventory D) (ref : InventorySlot) → IsPlaced ref → item inv ref ≡ ok (item_at inv ref)
  unfolding item
  item_placed inv ref h = ground arith

  set_in-total :
      (kind : ℤ) (c : Container) (slot : ℕ) (it : ItemInstance D) (inv : Inventory D)
      → IsPlacedIn c slot
      → length inv.main ≡ 36
      → total kind (set_in c slot it inv).1
          + weight kind (item_at inv (record { container = c; slot = slot }))
        ≡ total kind inv + weight kind it
  unfolding total item
  set_in-total kind inventory slot it inv h l =
      ground (arith, weights-set kind inv.main slot it empty_item)
  set_in-total kind combined_hot_bar_and_inventory slot it inv h l =
      ground (arith, weights-set kind inv.main slot it empty_item)
  set_in-total kind hot_bar slot it inv h l =
      ground (arith, weights-set kind inv.main slot it empty_item)
  set_in-total kind cursor slot it inv h l = ground arith
  set_in-total kind offhand slot it inv h l = ground arith
  set_in-total kind (other n) slot it inv h l = absurd h

  -- Storing replaces the items of the place by those that are stored.
  pub set_item-total :
      (kind : ℤ) (ref : InventorySlot) (it : ItemInstance D) (inv : Inventory D)
      → IsPlaced ref
      → length inv.main ≡ 36
      → total kind (set_item ref it inv).1 + weight kind (item_at inv ref)
        ≡ total kind inv + weight kind it
  unfolding set_item total item
  set_item-total kind ref it inv h l = ground (
    arith,
    set_in-total kind ref.container ref.slot (normalise_item it inv).0 (normalise_item it inv).1,
    normalise_item-weight kind it inv,
    normalise_item-SamePlaces it inv,
  )

  set_in-main :
      (c : Container) (slot : ℕ) (it : ItemInstance D) (inv : Inventory D)
      → length (set_in c slot it inv).1.main ≡ length inv.main
  set_in-main inventory slot it inv = ground (arith, length-set inv.main slot it)
  set_in-main combined_hot_bar_and_inventory slot it inv =
      ground (arith, length-set inv.main slot it)
  set_in-main hot_bar slot it inv = ground (arith, length-set inv.main slot it)
  set_in-main cursor slot it inv = refl
  set_in-main offhand slot it inv = refl
  set_in-main (other n) slot it inv = refl

  pub set_item-length :
      (ref : InventorySlot) (it : ItemInstance D) (inv : Inventory D)
      → length (set_item ref it inv).1.main ≡ length inv.main
  unfolding set_item
  set_item-length ref it inv = ground (
    arith,
    set_in-main ref.container ref.slot (normalise_item it inv).0 (normalise_item it inv).1,
    normalise_item-SamePlaces it inv,
  )

  -- The place that is named holds the item in normal form.
  pub item-set_item_self :
      (ref : InventorySlot) (it : ItemInstance D) (inv : Inventory D)
      → IsPlaced ref
      → length inv.main ≡ 36
      → item_at (set_item ref it inv).1 ref ≡ (normalise_item it inv).0
  unfolding set_item item
  item-set_item_self ref it inv h l = ground (
    arith,
    get_or-set_self inv.main ref.slot (normalise_item it inv).0 empty_item,
    normalise_item-SamePlaces it inv,
  )

  -- The other places keep theirs.
  pub item-set_item_ne :
      (ref other_ref : InventorySlot) (it : ItemInstance D) (inv : Inventory D)
      → place ref ≢ place other_ref
      → item_at (set_item ref it inv).1 other_ref ≡ item_at inv other_ref
  unfolding set_item item
  item-set_item_ne ref other_ref it inv h = ground (
    arith,
    get_or-set_ne inv.main ref.slot other_ref.slot (normalise_item it inv).0 empty_item,
    normalise_item-SamePlaces it inv,
  )

  -- A verified slot exists and holds the item that was verified.
  pub verified :
      (s : SlotInfo) (inv : Inventory D) {ref : InventorySlot} {it : ItemInstance D}
      → verify_stack_request_slot s inv ≡ ok (ref, it)
      → IsPlaced ref
        × (it ≡ item_at inv ref)
        × (ref ≡ record { container = s.container; slot = s.slot })
  unfolding verify_stack_request_slot
  verified s inv h = elim (Result-cases (resolve_slot s.container s.slot)) [
    | inl (r, e) ↦
        ground (arith, resolve_slot-IsPlaced s.container s.slot {ref = r} e, item_placed inv r)
    | inr (x, e) ↦ ground arith
  ]
