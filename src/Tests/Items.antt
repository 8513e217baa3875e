-- ===== src/Tests/Items.antt =====
-- An inventory with ten pieces of coal and three swords, and requests on it
-- (internal/server/mcpe_inventory.go).
use open_ai_mc_be_server.Prelude.{
  ℕ, ◌+◌, ◌≤◌, ◌≡◌, Bool, true, false, [], ◌∷◌, ◌++◌, map, ◌==◌, refl, arith,
}
use open_ai_mc_be_server.Prelude.Int.{ℤ, pos, negsuc}
use open_ai_mc_be_server.Inventory.Item.{
  Container, inventory, cursor, Protocol, ItemInstance, container_code, empty_item,
}
use open_ai_mc_be_server.Inventory.Store.{Inventory, ok, held_item}
use open_ai_mc_be_server.Inventory.Exec.{Work}
use open_ai_mc_be_server.Inventory.Actions.{SlotInfo, take, drop, swap, transfer_stack}
use open_ai_mc_be_server.Inventory.Requests.{
  ItemStackRequest, apply_item_stack_request, apply_requests,
}
use open_ai_mc_be_server.Inventory.Places.{total}
use open_ai_mc_be_server.Inventory.Invariant.{IsValid}
use open_ai_mc_be_server.Inventory.Batches.{
  apply_item_stack_request_rejected, apply_requests-IsValid, apply_requests-le,
  apply_requests-conserves,
}
use open_ai_mc_be_server.Inventory.Duplication.{
  as_inventory, as_hot_bar, transfer_to_self_duplicates,
}
use open_ai_mc_be_server.Inventory.Client.{Client, Sent, process_item_stack_requests}
use open_ai_mc_be_server.Inventory.Answers.{process_item_stack_requests-sent}
use open_ai_mc_be_server.Inventory.Item.{
  item_is_empty, item_stack_network_id, same_stack_type, remaining,
}
use open_ai_mc_be_server.Inventory.Store.{
  lookup_slot, lookup_id, next_network_stack_id, resolve_slot, item, normalise_item, set_item,
  resolve_stack_network_id,
}
use open_ai_mc_be_server.Inventory.Actions.{
  verify_stack_request_slot, set_request_slot, transfer_to_stack, transfer_between, transfer_stack,
  swap_between, swap_stacks, apply_stack_request_action,
}
use open_ai_mc_be_server.Inventory.Requests.{apply_actions, apply_item_stack_request}
use open_ai_mc_be_server.Inventory.Actions.{transfer_to_empty, moved_stack}
use open_ai_mc_be_server.Inventory.Client.{done, to_client, item_stack_response}
use open_ai_mc_be_server.Inventory.Answers.{announcement, resync_packets}

instance abbrev metadata_protocol : Protocol ℕ
metadata_protocol = record {
  zero_details = 0;
  deep_equal = λ a b. a == b;
  container_id = container_code;
}

abbrev coal : ItemInstance ℕ
coal = record { stack_network_id = pos 5; network_id = pos 7; count = 10; details = 0 }

abbrev sword : ItemInstance ℕ
sword = record { stack_network_id = pos 6; network_id = pos 9; count = 3; details = 1 }

abbrev stocked : Inventory ℕ
stocked = record {
  main =
      coal ∷ sword ∷ empty_item ∷ empty_item ∷ empty_item ∷ empty_item ∷ empty_item ∷ empty_item
      ∷ empty_item ∷ empty_item ∷ empty_item ∷ empty_item ∷ empty_item ∷ empty_item ∷ empty_item
      ∷ empty_item ∷ empty_item ∷ empty_item ∷ empty_item ∷ empty_item ∷ empty_item ∷ empty_item
      ∷ empty_item ∷ empty_item ∷ empty_item ∷ empty_item ∷ empty_item ∷ empty_item ∷ empty_item
      ∷ empty_item ∷ empty_item ∷ empty_item ∷ empty_item ∷ empty_item ∷ empty_item ∷ empty_item
      ∷ [];
  cursor_item = empty_item;
  offhand_item = empty_item;
  selected_hotbar = 0;
  next_stack_id = pos 7;
  response_stack_ids = [];
}

stocked-IsValid : IsValid stocked
stocked-IsValid = ground arith

abbrev at : Container → ℕ → ℤ → SlotInfo
at c slot id = record { container = c; slot = slot; stack_network_id = id }

-- Four pieces of coal go to the cursor.
abbrev pick_up : ItemStackRequest
pick_up = record {
  request_id = negsuc 0;
  actions = take (at inventory 0 (pos 5)) (at cursor 0 (pos 0)) 4 ∷ [];
}

-- After the coal was taken, the second action names an id that the sword does not have.
abbrev stale : ItemStackRequest
stale = record {
  request_id = negsuc 2;
  actions =
      take (at inventory 0 (pos 5)) (at inventory 3 (pos 0)) 4
      ∷ swap (at inventory 1 (pos 99)) (at inventory 5 (pos 0))
      ∷ [];
}

abbrev throw : ItemStackRequest
throw = record { request_id = negsuc 4; actions = drop (at inventory 1 (pos 6)) 2 ∷ [] }

apply_requests-conserves_example :
    total (pos 7) (apply_requests false (pick_up ∷ stale ∷ []) stocked).2 ≡ total (pos 7) stocked
apply_requests-conserves_example =
    apply_requests-conserves (pos 7) false (pick_up ∷ stale ∷ []) stocked stocked-IsValid
      (ground arith) (ground arith)

apply_requests-le_example :
    total (pos 9) (apply_requests true (stale ∷ throw ∷ []) stocked).2 ≤ total (pos 9) stocked
apply_requests-le_example =
    apply_requests-le (pos 9) true (stale ∷ throw ∷ []) stocked stocked-IsValid (ground arith)

stale_rejected : (apply_item_stack_request false stale stocked).1 ≡ false
unfolding item_is_empty item_stack_network_id same_stack_type remaining lookup_slot lookup_id
    next_network_stack_id resolve_slot item normalise_item set_item resolve_stack_network_id
    verify_stack_request_slot set_request_slot transfer_to_stack transfer_between transfer_stack
    swap_between swap_stacks apply_stack_request_action apply_actions apply_item_stack_request
    transfer_to_empty moved_stack
stale_rejected = refl

apply_item_stack_request_rejected_example :
    (apply_item_stack_request false stale stocked).2 ≡ stocked
apply_item_stack_request_rejected_example =
    apply_item_stack_request_rejected false stale stocked stocked-IsValid stale_rejected

apply_requests-IsValid_example :
    IsValid (apply_requests false (pick_up ∷ stale ∷ throw ∷ []) stocked).2
    × (map (λ r. r.request_id) (apply_requests false (pick_up ∷ stale ∷ throw ∷ []) stocked).0
        ≡ map (λ r. r.request_id) (pick_up ∷ stale ∷ throw ∷ []))
apply_requests-IsValid_example =
    apply_requests-IsValid false (pick_up ∷ stale ∷ throw ∷ []) stocked stocked-IsValid

abbrev started : Work ℕ
started = record { inventory = stocked; changes = [] }

coal_there : item_is_empty coal ≡ false
unfolding item_is_empty
coal_there = refl

transfer_to_self_duplicates_example :
    let after = transfer_stack (as_inventory 0 (pos 5)) (as_hot_bar 0 (pos 5)) 6 started in
    (after.0 ≡ ok tt) × (total (pos 7) after.1.inventory ≡ total (pos 7) stocked + 6)
transfer_to_self_duplicates_example =
    transfer_to_self_duplicates 0 6 started stocked-IsValid (omega arith) (ground arith) coal_there
      refl (omega arith) (omega arith) (omega arith)

abbrev deliver_all : Sent ℕ → Bool
deliver_all p = true

deliver_all_lem : (p : Sent ℕ) → deliver_all p ≡ true
deliver_all_lem p = refl

abbrev miner : Client ℕ
miner = record { runtime_id = 3; creative = false; inventory = stocked; sent = [] }

process_item_stack_requests-sent_example :
    let (responses, rejected, inv) = apply_requests false (pick_up ∷ stale ∷ []) stocked in
    let after : Client ℕ = record miner { inventory = inv } in
    process_item_stack_requests deliver_all (pick_up ∷ stale ∷ []) miner ≡ (
      done,
      record after {
        sent =
            []
            ++ (to_client (item_stack_response responses)
                ∷ (announcement deliver_all (held_item stocked) after
                    ++ resync_packets deliver_all rejected after));
      },
    )
process_item_stack_requests-sent_example =
    process_item_stack_requests-sent deliver_all deliver_all_lem pick_up (stale ∷ []) miner
