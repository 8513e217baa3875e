-- ===== src/Inventory/Duplication.antt =====
-- The slots of a hotbar place have three names, and `transferStack` compares the names: a transfer
-- from a place to itself under another name makes items.
use open_ai_mc_be_server.Prelude.{
  ◌∙◌, ℕ, ◌+◌, ◌<◌, ◌≤◌, ◌≡◌, refl, arith, length, get_or, true, false,
}
use open_ai_mc_be_server.Prelude.Int.{ℤ, pos, ◌≤ℤ◌}
use open_ai_mc_be_server.Inventory.Item.{
  Protocol, ItemInstance, InventorySlot, item_is_empty, item_stack_network_id, empty_item,
  remaining, same_stack_type,
}
use open_ai_mc_be_server.Inventory.Item
use open_ai_mc_be_server.Inventory.Store.{
  ok, Inventory, resolve_slot, resolve_stack_network_id, item, set_item,
}
use open_ai_mc_be_server.Inventory.Exec.{Work}
use open_ai_mc_be_server.Inventory.Actions.{
  SlotInfo, verify_stack_request_slot, set_request_slot, transfer_to_stack, transfer_between,
  transfer_stack,
}
use open_ai_mc_be_server.Inventory.Places.{weight, total, normalise_item-weight}
use open_ai_mc_be_server.Inventory.Storing.{set_item-total, set_item-length, item-set_item_self}
use open_ai_mc_be_server.Inventory.Invariant.{IsValid}

-- Slot `i` of the main inventory, and the same place as a hotbar slot, as a request names them.
abbrev pub as_inventory : ℕ → ℤ → SlotInfo
as_inventory i id = record { container = Item.inventory; slot = i; stack_network_id = id }

abbrev pub as_hot_bar : ℕ → ℤ → SlotInfo
as_hot_bar i id = record { container = Item.hot_bar; slot = i; stack_network_id = id }

module _ {D : Type 0} ⦃q : Protocol D⦄ where
  verify_main :
      (i : ℕ) (inv : Inventory D)
      → i < 9
      → pos 0 ≤ℤ (get_or inv.main i empty_item).stack_network_id
      → item_is_empty (get_or inv.main i empty_item) ≡ false
      → let it = get_or inv.main i empty_item in
        (verify_stack_request_slot (as_inventory i it.stack_network_id) inv
          ≡ ok (record { container = Item.inventory; slot = i }, it))
        × (verify_stack_request_slot (as_hot_bar i it.stack_network_id) inv
            ≡ ok (record { container = Item.hot_bar; slot = i }, it))
  unfolding verify_stack_request_slot resolve_slot resolve_stack_network_id item
      item_stack_network_id
  verify_main i inv h p e = ground arith

  store_twice :
      (kind : ℤ) (i : ℕ) (x y : ItemInstance D) (inv : Inventory D)
      → i < 9
      → length inv.main ≡ 36
      → let a : InventorySlot = record { container = Item.inventory; slot = i } in
        let b : InventorySlot = record { container = Item.hot_bar; slot = i } in
        total kind (set_item b y (set_item a x inv).1).1
          + weight kind (get_or inv.main i empty_item)
        ≡ total kind inv + weight kind y
  unfolding item
  store_twice kind i x y inv h l =
      let a : InventorySlot = record { container = Item.inventory; slot = i } in
      let b : InventorySlot = record { container = Item.hot_bar; slot = i } in
      let inv' = (set_item a x inv).1 in
      ground (
        arith,
        set_item-total kind a x inv,
        set_item-total kind b y inv',
        set_item-length a x inv,
        item-set_item_self a x inv,
        normalise_item-weight kind x inv,
      )

  -- The items of a stack's own kind are its count.
  weight_full :
      (it : ItemInstance D) (n : ℕ)
      → item_is_empty it ≡ false
      → weight it.network_id (record it { count = it.count + n }) ≡ weight it.network_id it + n
  unfolding weight
  weight_full it n e = ground arith

  -- Two names of one place pass all tests.
  transfer_aliased :
      (i n : ℕ) (x : ItemInstance D) (w : Work D)
      → item_is_empty x ≡ false
      → q.deep_equal x.details x.details ≡ true
      → n ≤ x.count
      → x.count + n ≤ 64
      → let a : InventorySlot = record { container = Item.inventory; slot = i } in
        let b : InventorySlot = record { container = Item.hot_bar; slot = i } in
        transfer_between (a, x) (b, x) n w
        ≡ set_request_slot b
            (record x { count = x.count + n })
            (set_request_slot a (remaining x n) w).1
  unfolding transfer_between transfer_to_stack set_request_slot same_stack_type
  transfer_aliased i n x w e same le fits = ground arith

  verified_transfer :
      (s d : SlotInfo) (n : ℕ) (w : Work D) {v v' : InventorySlot × ItemInstance D}
      → 0 < n
      → verify_stack_request_slot s w.inventory ≡ ok v
      → verify_stack_request_slot d w.inventory ≡ ok v'
      → transfer_stack s d n w ≡ transfer_between v v' n w
  unfolding transfer_stack
  verified_transfer s d n w h e f = ground arith

  -- The stack in slot `i` of the main inventory.
  abbrev pub in_main : ℕ → Inventory D → ItemInstance D
  in_main i inv = get_or inv.main i empty_item

  -- In a valid inventory, if a hotbar slot holds a stack with a stack id of at least 0 and
  -- details that are equal to themselves, a transfer of a positive number of its items from
  -- the slot to itself under its hotbar name succeeds, if the stack has as many and does not
  -- grow beyond 64, and the inventory then holds that many more items of the kind.
  pub transfer_to_self_duplicates :
      (i n : ℕ) (w : Work D)
      → IsValid w.inventory
      → i < 9
      → pos 0 ≤ℤ (in_main i w.inventory).stack_network_id
      → item_is_empty (in_main i w.inventory) ≡ false
      → q.deep_equal (in_main i w.inventory).details (in_main i w.inventory).details ≡ true
      → 0 < n
      → n ≤ (in_main i w.inventory).count
      → (in_main i w.inventory).count + n ≤ 64
      → let it = in_main i w.inventory in
        let after =
          transfer_stack
            (as_inventory i it.stack_network_id)
            (as_hot_bar i it.stack_network_id)
            n
            w in
        (after.0 ≡ ok tt)
        × (total it.network_id after.1.inventory ≡ total it.network_id w.inventory + n)
  unfolding set_request_slot
  transfer_to_self_duplicates i n w v h p e same pos_n le fits =
      let it = get_or w.inventory.main i empty_item in
      let m = verify_main i w.inventory h p e in
      let runs =
        verified_transfer (as_inventory i it.stack_network_id) (as_hot_bar i it.stack_network_id) n
          w pos_n m.0 m.1
        ∙ transfer_aliased i n it w e same le fits in
      let two =
        store_twice it.network_id i (remaining it n) (record it { count = it.count + n })
          w.inventory h v.slots in
      rw runs (refl, omega (arith, two, weight_full it n e))
