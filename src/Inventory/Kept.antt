-- ===== src/Inventory/Kept.antt =====
-- The invariant and the frame of the actions of a stack request: they keep every stack within its
-- limit, and touch neither the selected slot nor the remembered ids.
use open_ai_mc_be_server.Prelude.Int.{ℤ}
use open_ai_mc_be_server.Prelude.{
  true, false, ◌%◌, ◌==◌, ◌+◌, Bool-cases, ℕ, ◌≤◌, ◌≡◌, refl, arith, inl, inr, Bool,
}
use open_ai_mc_be_server.Inventory.Item.{
  cannot_destroy_item, cannot_drop_item, Container, Protocol, ItemInstance, InventorySlot, Status,
  remaining,
}
use open_ai_mc_be_server.Inventory.Store.{
  ok, Inventory, normalise_item, next_network_stack_id, set_item,
}
use open_ai_mc_be_server.Inventory.Exec.{Work}
use open_ai_mc_be_server.Inventory.Actions.{
  StackRequestAction, take, place, place_in_container, take_out_container, swap, drop, destroy,
  mine_block, unsupported, destroy_stack, drop_stack, swap_between, transfer_between,
  ack_mine_block_stack, transfer_to_stack, transfer_stack, verify_stack_request_slot,
  apply_stack_request_action, swap_stacks, remove_stack, transfer_to_empty, set_request_slot,
  moved_stack, SlotInfo,
}
use open_ai_mc_be_server.Inventory.Storing.{verified, Result-cases}
use open_ai_mc_be_server.Inventory.Invariant.{
  IsValid, item_at-stacked, set_item-IsValid, next_network_stack_id-IsValid,
}

pub record Kept {D : Type 0} (w w' : Work D) : Type 0 where
  pub valid : IsValid w'.inventory
  pub same_selected : w'.inventory.selected_hotbar ≡ w.inventory.selected_hotbar
  pub same_responses : w'.inventory.response_stack_ids ≡ w.inventory.response_stack_ids

pub Kept-trans : {D : Type 0} {a b c : Work D} → Kept a b → Kept b c → Kept a c
Kept-trans h k = ground arith

module _ {D : Type 0} ⦃q : Protocol D⦄ where
  set_item-frame :
      (c : Container) (slot : ℕ) (it : ItemInstance D) (inv : Inventory D)
      → ((set_item (record { container = c; slot = slot }) it inv).1.selected_hotbar
          ≡ inv.selected_hotbar)
        × ((set_item (record { container = c; slot = slot }) it inv).1.response_stack_ids
            ≡ inv.response_stack_ids)
  unfolding set_item normalise_item
  set_item-frame c slot it inv = ground arith

  pub set_request_slot-Kept :
      (ref : InventorySlot) (it : ItemInstance D) (w : Work D)
      → IsValid w.inventory
      → it.count ≤ 64
      → Kept w (set_request_slot ref it w).1
  unfolding set_request_slot
  set_request_slot-Kept ref it w v h = ground (
    arith,
    set_item-IsValid ref it w.inventory v h,
    set_item-frame ref.container ref.slot it w.inventory,
  )

  remaining-stacked : (it : ItemInstance D) (n : ℕ) → it.count ≤ 64 → (remaining it n).count ≤ 64
  unfolding remaining
  remaining-stacked it n h = ground arith

  moved_stack-Kept :
      (it : ItemInstance D) (n : ℕ) (w : Work D)
      → IsValid w.inventory
      → Kept w (moved_stack it n w).1
  unfolding moved_stack next_network_stack_id
  moved_stack-Kept it n w v = ground (arith, next_network_stack_id-IsValid w.inventory v)

  two_sets-Kept :
      (a b : InventorySlot) (x y : ItemInstance D) (w : Work D)
      → IsValid w.inventory
      → x.count ≤ 64
      → y.count ≤ 64
      → Kept w (set_request_slot b y (set_request_slot a x w).1).1
  two_sets-Kept a b x y w v hx hy =
      let k = set_request_slot-Kept a x w v hx in
      Kept-trans k (set_request_slot-Kept b y (set_request_slot a x w).1 k.valid hy)

  moved_stack-ok :
      (it : ItemInstance D) (n : ℕ) (w : Work D)
      → (m : ItemInstance D) × ((moved_stack it n w).0 ≡ ok m) × (m.count ≡ n)
  unfolding moved_stack
  moved_stack-ok it n w = elim (Bool-cases (n == it.count)) [
    | inl e ↦ (record it { count = n }, rw e refl, refl)
    | inr e ↦ (
      record it { count = n; stack_network_id = (next_network_stack_id w.inventory).0 },
      rw e refl,
      refl,
    )
  ]

  transfer_to_empty-Kept :
      (a b : InventorySlot) (s : ItemInstance D) (n : ℕ) (w : Work D)
      → IsValid w.inventory
      → s.count ≤ 64
      → n ≤ s.count
      → Kept w (transfer_to_empty a s b n w).1
  unfolding transfer_to_empty set_request_slot
  transfer_to_empty-Kept a b s n w v h small =
      let (m, e, c) = moved_stack-ok s n w in
      let k = moved_stack-Kept s n w v in
      rw e (
        Kept-trans k (
          two_sets-Kept a b (remaining s n) m (moved_stack s n w).1 k.valid
            (remaining-stacked s n h) (omega arith)))

  transfer_to_stack-Kept :
      (a b : InventorySlot) (s d : ItemInstance D) (n : ℕ) (w : Work D)
      → IsValid w.inventory
      → s.count ≤ 64
      → Kept w (transfer_to_stack a s b d n w).1
  unfolding transfer_to_stack set_request_slot
  transfer_to_stack-Kept a b s d n w v h = ground (
    arith,
    two_sets-Kept a b (remaining s n) (record d { count = (d.count + n) % 65536 }) w v
        (remaining-stacked s n h),
  )

  transfer_between-Kept :
      (a b : InventorySlot) (x y : ItemInstance D) (n : ℕ) (w : Work D)
      → IsValid w.inventory
      → x.count ≤ 64
      → Kept w (transfer_between (a, x) (b, y) n w).1
  unfolding transfer_between
  transfer_between-Kept a b x y n w v h =
      ground (arith, transfer_to_empty-Kept a b x n w v h, transfer_to_stack-Kept a b x y n w v h)

  verified-stacked :
      (s : SlotInfo) (inv : Inventory D) {a : InventorySlot} {x : ItemInstance D}
      → IsValid inv
      → verify_stack_request_slot s inv ≡ ok (a, x)
      → x.count ≤ 64
  verified-stacked s inv {a = a} v e = let h = verified s inv e in rw h.1 (item_at-stacked inv a v)

  transfer_stack-Kept :
      (s d : SlotInfo) (n : ℕ) (w : Work D)
      → IsValid w.inventory
      → Kept w (transfer_stack s d n w).1
  unfolding transfer_stack
  transfer_stack-Kept s d n w v = elim (Result-cases (verify_stack_request_slot s w.inventory)) [
    | inr (x, e) ↦ ground arith
    | inl ((a, x), e) ↦ elim (Result-cases (verify_stack_request_slot d w.inventory)) [
      | inr (y, f) ↦ ground arith
      | inl ((b, y), f) ↦
          ground (arith, transfer_between-Kept a b x y n w v (verified-stacked s w.inventory v e))
    ]
  ]

  swap_stacks-Kept :
      (s d : SlotInfo) (w : Work D) → IsValid w.inventory → Kept w (swap_stacks s d w).1
  unfolding swap_stacks swap_between set_request_slot
  swap_stacks-Kept s d w v = elim (Result-cases (verify_stack_request_slot s w.inventory)) [
    | inr (x, e) ↦ ground arith
    | inl ((a, x), e) ↦ elim (Result-cases (verify_stack_request_slot d w.inventory)) [
      | inr (y, f) ↦ ground arith
      | inl ((b, y), f) ↦ ground (
        arith,
        two_sets-Kept a b y x w v (verified-stacked d w.inventory v f)
            (verified-stacked s w.inventory v e),
      )
    ]
  ]

  remove_stack-Kept :
      (reason : Status) (s : SlotInfo) (n : ℕ) (w : Work D)
      → IsValid w.inventory
      → Kept w (remove_stack reason s n w).1
  unfolding remove_stack
  remove_stack-Kept reason s n w v = elim (Result-cases (verify_stack_request_slot s w.inventory)) [
    | inr (x, e) ↦ ground arith
    | inl ((a, x), e) ↦ ground (
      arith,
      set_request_slot-Kept a (remaining x n) w v
          (remaining-stacked x n (verified-stacked s w.inventory v e)),
    )
  ]

  ack_mine_block_stack-Kept :
      (slot id : ℤ) (w : Work D) → IsValid w.inventory → Kept w (ack_mine_block_stack slot id w).1
  unfolding ack_mine_block_stack
  ack_mine_block_stack-Kept slot id w v = ground arith

  -- Each action keeps the invariant, whether it succeeds or fails.
  pub apply_stack_request_action-Kept :
      (creative : Bool) (action : StackRequestAction) (w : Work D)
      → IsValid w.inventory
      → Kept w (apply_stack_request_action creative action w).1
  unfolding apply_stack_request_action drop_stack destroy_stack
  apply_stack_request_action-Kept creative (take s d n) w v = transfer_stack-Kept s d n w v
  apply_stack_request_action-Kept creative (place s d n) w v = transfer_stack-Kept s d n w v
  apply_stack_request_action-Kept creative (place_in_container s d n) w v =
      transfer_stack-Kept s d n w v
  apply_stack_request_action-Kept creative (take_out_container s d n) w v =
      transfer_stack-Kept s d n w v
  apply_stack_request_action-Kept creative (swap s d) w v = swap_stacks-Kept s d w v
  apply_stack_request_action-Kept creative (drop s n) w v =
      remove_stack-Kept cannot_drop_item s n w v
  apply_stack_request_action-Kept true (destroy s n) w v =
      remove_stack-Kept cannot_destroy_item s n w v
  apply_stack_request_action-Kept false (destroy s n) w v = record {
    valid = v;
    same_selected = refl;
    same_responses = refl;
  }
  apply_stack_request_action-Kept creative (mine_block slot id) w v =
      ack_mine_block_stack-Kept slot id w v
  apply_stack_request_action-Kept creative unsupported w v = record {
    valid = v;
    same_selected = refl;
    same_responses = refl;
  }
