-- ===== src/Inventory/Places.antt =====
-- The places of an inventory: 36 main slots, the cursor and the off hand. Several slots of a request
-- name one place. What storing an item does to the places, and to the number of items of a kind.
use open_ai_mc_be_server.Prelude.{
  ℕ, zero, suc, ◌+◌, ◌<◌, ◌≡◌, List, [], ◌∷◌, if◌then◌else◌, length, get_or, set, arith,
}
use open_ai_mc_be_server.Prelude.Int.{ℤ, eqb_ℤ}
use open_ai_mc_be_server.Inventory.Item.{
  Container, inventory, combined_hot_bar_and_inventory, hot_bar, cursor, offhand, other, Protocol,
  ItemInstance, InventorySlot, item_is_empty,
}
use open_ai_mc_be_server.Inventory.Store.{ok, Inventory, resolve_slot, normalise_item}

-- The cursor is place 0, the off hand 1, nowhere 2, and main slot i is 3 + i.
abbrev pub place_in : Container → ℕ → ℕ
place_in inventory slot = 3 + slot
place_in combined_hot_bar_and_inventory slot = 3 + slot
place_in hot_bar slot = 3 + slot
place_in cursor slot = 0
place_in offhand slot = 1
place_in (other n) slot = 2

abbrev pub place : InventorySlot → ℕ
place ref = place_in ref.container ref.slot

abbrev pub IsPlacedIn : Container → ℕ → Type 0
IsPlacedIn inventory slot = slot < 36
IsPlacedIn combined_hot_bar_and_inventory slot = slot < 36
IsPlacedIn hot_bar slot = slot < 36
IsPlacedIn cursor slot = Unit {0}
IsPlacedIn offhand slot = Unit {0}
IsPlacedIn (other n) slot = ⊥

abbrev pub IsPlaced : InventorySlot → Type 0
IsPlaced ref = IsPlacedIn ref.container ref.slot

pub resolve_slot-IsPlaced :
    (c : Container) (slot : ℕ) {ref : InventorySlot}
    → resolve_slot c slot ≡ ok ref
    → IsPlaced ref × (ref ≡ record { container = c; slot = slot })
unfolding resolve_slot
resolve_slot-IsPlaced inventory slot h = ground arith
resolve_slot-IsPlaced combined_hot_bar_and_inventory slot h = ground arith
resolve_slot-IsPlaced hot_bar slot h = ground arith
resolve_slot-IsPlaced cursor slot h = ground arith
resolve_slot-IsPlaced offhand slot h = ground arith
resolve_slot-IsPlaced (other n) slot h = ground arith

module _ {D : Type 0} where
  -- The items of one kind in a stack.
  unfoldable pub weight : ℤ → ItemInstance D → ℕ
  unfolding item_is_empty
  weight kind it = if item_is_empty it then 0 else if eqb_ℤ it.network_id kind then it.count else 0

  unfoldable pub weights : ℤ → List (ItemInstance D) → ℕ
  weights kind [] = 0
  weights kind (it ∷ its) = weight kind it + weights kind its

  -- The items of one kind that the player has.
  unfoldable pub total : ℤ → Inventory D → ℕ
  total kind inv =
      weight kind inv.cursor_item + weight kind inv.offhand_item + weights kind inv.main

  pub weights-set :
      (kind : ℤ) (its : List (ItemInstance D)) (i : ℕ) (it d : ItemInstance D)
      → i < length its
      → weights kind (set its i it) + weight kind (get_or its i d)
        ≡ weights kind its + weight kind it
  unfolding weights
  weights-set kind [] i it d h = elim h [ ]
  weights-set kind (x ∷ its) zero it d h = omega arith
  weights-set kind (x ∷ its) (suc i) it d h =
      omega (arith, weights-set kind its i it d (omega arith))

module _ {D : Type 0} ⦃q : Protocol D⦄ where
  -- Normalising changes neither the kind nor the number of the items, and no place.
  pub normalise_item-weight :
      (kind : ℤ) (it : ItemInstance D) (inv : Inventory D)
      → weight kind (normalise_item it inv).0 ≡ weight kind it
  unfolding weight normalise_item
  normalise_item-weight kind it inv = ground arith

  pub record SamePlaces (a b : Inventory D) : Type 0 where
    pub same_main : a.main ≡ b.main
    pub same_cursor : a.cursor_item ≡ b.cursor_item
    pub same_offhand : a.offhand_item ≡ b.offhand_item

  pub normalise_item-SamePlaces :
      (it : ItemInstance D) (inv : Inventory D) → SamePlaces (normalise_item it inv).1 inv
  unfolding normalise_item
  normalise_item-SamePlaces it inv = ground arith
