-- ===== src/Inventory/Amounts.antt =====
-- Which actions of a stack request keep the number of items of each kind, and which may lower it.
use open_ai_mc_be_server.Prelude.{ap, true, false, ◌≤◌, ◌<◌, ◌≡◌, refl, arith, Bool, List, [], ◌∷◌}
use open_ai_mc_be_server.Prelude.Int.{ℤ}
use open_ai_mc_be_server.Inventory.Item.{Protocol, cannot_drop_item, cannot_destroy_item}
use open_ai_mc_be_server.Inventory.Exec.{Work}
use open_ai_mc_be_server.Inventory.Actions.{
  StackRequestAction, take, place, place_in_container, take_out_container, swap, drop, destroy,
  mine_block, unsupported, ack_mine_block_stack, apply_stack_request_action, drop_stack,
  destroy_stack,
}
use open_ai_mc_be_server.Inventory.Requests.{ItemStackRequest}
use open_ai_mc_be_server.Inventory.Places.{total}
use open_ai_mc_be_server.Inventory.Conserve.{aliased}
use open_ai_mc_be_server.Inventory.Transfers.{
  transfer_stack-total, swap_stacks-total, remove_stack-total,
}
use open_ai_mc_be_server.Inventory.Invariant.{IsValid}

-- The counts are bytes, and no two slots of an action name one place under two names.
abbrev pub IsSound : StackRequestAction → Type 0
IsSound (take s d n) = (n < 256) × (aliased s d ≡ false)
IsSound (place s d n) = (n < 256) × (aliased s d ≡ false)
IsSound (place_in_container s d n) = (n < 256) × (aliased s d ≡ false)
IsSound (take_out_container s d n) = (n < 256) × (aliased s d ≡ false)
IsSound (swap s d) = aliased s d ≡ false
IsSound (drop s n) = Unit {0}
IsSound (destroy s n) = Unit {0}
IsSound (mine_block slot id) = Unit {0}
IsSound unsupported = Unit {0}

-- The action takes no items out of the inventory.
abbrev pub Retains : StackRequestAction → Type 0
Retains (drop s n) = ⊥
Retains (destroy s n) = ⊥
Retains (take s d n) = Unit {0}
Retains (place s d n) = Unit {0}
Retains (place_in_container s d n) = Unit {0}
Retains (take_out_container s d n) = Unit {0}
Retains (swap s d) = Unit {0}
Retains (mine_block slot id) = Unit {0}
Retains unsupported = Unit {0}

abbrev pub AllActions : (StackRequestAction → Type 0) → List StackRequestAction → Type 0
AllActions P [] = Unit {0}
AllActions P (a ∷ rest) = P a × AllActions P rest

abbrev pub AllRequests : (StackRequestAction → Type 0) → List ItemStackRequest → Type 0
AllRequests P [] = Unit {0}
AllRequests P (r ∷ rs) = AllActions P r.actions × AllRequests P rs

module _ {D : Type 0} ⦃q : Protocol D⦄ where
  mine-inventory :
      (slot id : ℤ) (w : Work D) → (ack_mine_block_stack slot id w).1.inventory ≡ w.inventory
  unfolding ack_mine_block_stack
  mine-inventory slot id w = ground arith

  pub action-Retains :
      (kind : ℤ) (creative : Bool) (a : StackRequestAction) (w : Work D)
      → IsValid w.inventory
      → IsSound a
      → Retains a
      → total kind (apply_stack_request_action creative a w).1.inventory ≡ total kind w.inventory
  unfolding apply_stack_request_action
  action-Retains kind creative (take s d n) w v h k = transfer_stack-total kind s d n w v h.0 h.1
  action-Retains kind creative (place s d n) w v h k = transfer_stack-total kind s d n w v h.0 h.1
  action-Retains kind creative (place_in_container s d n) w v h k =
      transfer_stack-total kind s d n w v h.0 h.1
  action-Retains kind creative (take_out_container s d n) w v h k =
      transfer_stack-total kind s d n w v h.0 h.1
  action-Retains kind creative (swap s d) w v h k = swap_stacks-total kind s d w v h
  action-Retains kind creative (drop s n) w v h k = absurd k
  action-Retains kind creative (destroy s n) w v h k = absurd k
  action-Retains kind creative (mine_block slot id) w v h k =
      ap (total kind) (mine-inventory slot id w)
  action-Retains kind creative unsupported w v h k = refl

  pub action-le :
      (kind : ℤ) (creative : Bool) (a : StackRequestAction) (w : Work D)
      → IsValid w.inventory
      → IsSound a
      → total kind (apply_stack_request_action creative a w).1.inventory ≤ total kind w.inventory
  unfolding apply_stack_request_action drop_stack destroy_stack
  action-le kind creative (drop s n) w v h = remove_stack-total kind cannot_drop_item s n w v
  action-le kind true (destroy s n) w v h = remove_stack-total kind cannot_destroy_item s n w v
  action-le kind false (destroy s n) w v h = omega arith
  action-le kind creative (take s d n) w v h =
      omega (arith, transfer_stack-total kind s d n w v h.0 h.1)
  action-le kind creative (place s d n) w v h =
      omega (arith, transfer_stack-total kind s d n w v h.0 h.1)
  action-le kind creative (place_in_container s d n) w v h =
      omega (arith, transfer_stack-total kind s d n w v h.0 h.1)
  action-le kind creative (take_out_container s d n) w v h =
      omega (arith, transfer_stack-total kind s d n w v h.0 h.1)
  action-le kind creative (swap s d) w v h = omega (arith, swap_stacks-total kind s d w v h)
  action-le kind creative (mine_block slot id) w v h =
      omega (arith, ap (total kind) (mine-inventory slot id w))
  action-le kind creative unsupported w v h = omega arith
