-- ===== src/Inventory/Conserve.antt =====
-- Items are neither duplicated nor made up by a stack request whose slots do not name one place
-- under two names.
use open_ai_mc_be_server.Inventory.Exec.{Work}
use open_ai_mc_be_server.Inventory.Actions.{
  transfer_to_stack, set_request_slot, moved_stack, SlotInfo, transfer_to_empty,
}
use open_ai_mc_be_server.Prelude.{
  ◌<◌, not, ◌&&◌, ◌==◌, Bool, ap, ◌∙◌, ℕ, ◌+◌, ◌≤◌, ◌≡◌, ◌≢◌, length, arith, true, false,
}
use open_ai_mc_be_server.Prelude.Int.{ℤ}
use open_ai_mc_be_server.Inventory.Item.{
  slot_eqb, Protocol, ItemInstance, InventorySlot, item_is_empty, remaining, same_stack_type,
}
use open_ai_mc_be_server.Inventory.Store.{item, next_network_stack_id, Inventory, set_item}
use open_ai_mc_be_server.Inventory.Places.{place, IsPlaced, weight, total}
use open_ai_mc_be_server.Inventory.Storing.{
  item_at, set_item-total, set_item-length, item-set_item_ne,
}

-- Two slots of a request name one place, and are not the same slot.
abbrev pub aliased : SlotInfo → SlotInfo → Bool
aliased s d =
    let a : InventorySlot = record { container = s.container; slot = s.slot } in
    let b : InventorySlot = record { container = d.container; slot = d.slot } in
    place a == place b && not (slot_eqb a b)

module _ {D : Type 0} ⦃q : Protocol D⦄ where
  -- Two slots of different places, of which the items are exchanged or moved.
  pub store_two :
      (kind : ℤ) (a b : InventorySlot) (x y : ItemInstance D) (inv : Inventory D)
      → IsPlaced a
      → IsPlaced b
      → place a ≢ place b
      → length inv.main ≡ 36
      → total kind (set_item b y (set_item a x inv).1).1
          + weight kind (item_at inv a)
          + weight kind (item_at inv b)
        ≡ total kind inv + weight kind x + weight kind y
  store_two kind a b x y inv pa pb ne l = omega (
    arith,
    set_item-total kind a x inv pa l,
    set_item-total kind b y (set_item a x inv).1 pb (set_item-length a x inv ∙ l),
    ap (weight kind) (item-set_item_ne a b x inv ne),
  )

  pub remaining-weight :
      (kind : ℤ) (it : ItemInstance D) (n : ℕ)
      → item_is_empty it ≡ false
      → n ≤ it.count
      → weight kind (remaining it n) + weight kind (record it { count = n }) ≡ weight kind it
  unfolding weight remaining
  remaining-weight kind it n e h = ground arith

  pub merged-weight :
      (kind : ℤ) (s d : ItemInstance D) (n : ℕ)
      → item_is_empty s ≡ false
      → item_is_empty d ≡ false
      → same_stack_type s d ≡ true
      → weight kind (record d { count = d.count + n })
        ≡ weight kind d + weight kind (record s { count = n })
  unfolding weight same_stack_type
  merged-weight kind s d n es ed h = ground arith

  next-places :
      (inv : Inventory D) (ref : InventorySlot)
      → (item_at (next_network_stack_id inv).1 ref ≡ item_at inv ref)
        × ((next_network_stack_id inv).1.main ≡ inv.main)
  unfolding item next_network_stack_id
  next-places inv ref = ground arith

  empty-weight : (kind : ℤ) (it : ItemInstance D) → item_is_empty it ≡ true → weight kind it ≡ 0
  unfolding weight
  empty-weight kind it h = ground arith

  renamed-weight :
      (kind : ℤ) (it : ItemInstance D) (id : ℤ)
      → weight kind (record it { stack_network_id = id }) ≡ weight kind it
  unfolding weight
  renamed-weight kind it id = ground arith

  next-total :
      (kind : ℤ) (inv : Inventory D) → total kind (next_network_stack_id inv).1 ≡ total kind inv
  unfolding total next_network_stack_id
  next-total kind inv = ground arith

  pub transfer_to_empty-total :
      (kind : ℤ) (a b : InventorySlot) (s : ItemInstance D) (n : ℕ) (w : Work D)
      → IsPlaced a
      → IsPlaced b
      → place a ≢ place b
      → length w.inventory.main ≡ 36
      → item_at w.inventory a ≡ s
      → item_is_empty (item_at w.inventory b) ≡ true
      → item_is_empty s ≡ false
      → n ≤ s.count
      → total kind (transfer_to_empty a s b n w).1.inventory ≡ total kind w.inventory
  unfolding transfer_to_empty moved_stack set_request_slot
  transfer_to_empty-total kind a b s n w pa pb ne l es eb en h = ground (
    arith,
    store_two kind a b (remaining s n) (record s { count = n }) w.inventory pa pb ne l,
    store_two kind a b (remaining s n)
        (record s { count = n; stack_network_id = (next_network_stack_id w.inventory).0 })
        (next_network_stack_id w.inventory).1 pa pb ne,
    remaining-weight kind s n en h,
    next-places w.inventory a,
    next-places w.inventory b,
    empty-weight kind (item_at w.inventory b),
    renamed-weight kind (record s { count = n }) (next_network_stack_id w.inventory).0,
    next-total kind w.inventory,
  )

  pub transfer_to_stack-total :
      (kind : ℤ) (a b : InventorySlot) (s d : ItemInstance D) (n : ℕ) (w : Work D)
      → IsPlaced a
      → IsPlaced b
      → place a ≢ place b
      → length w.inventory.main ≡ 36
      → item_at w.inventory a ≡ s
      → item_at w.inventory b ≡ d
      → item_is_empty s ≡ false
      → item_is_empty d ≡ false
      → n ≤ s.count
      → d.count + n < 65536
      → total kind (transfer_to_stack a s b d n w).1.inventory ≡ total kind w.inventory
  unfolding transfer_to_stack set_request_slot
  transfer_to_stack-total kind a b s d n w pa pb ne l es eb en ed h small = ground (
    arith,
    store_two kind a b (remaining s n) (record d { count = d.count + n }) w.inventory pa pb ne l,
    remaining-weight kind s n en h,
    merged-weight kind s d n en ed,
  )
