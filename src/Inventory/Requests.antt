-- ===== src/Inventory/Requests.antt =====
-- A stack request is applied as a whole or not at all; a batch of them is answered in one packet
-- (internal/server/mcpe_inventory.go).
use open_ai_mc_be_server.Prelude.{Bool, true, false, ◌||◌, not, List, [], ◌∷◌}
use open_ai_mc_be_server.Prelude.Int.{ℤ}
use open_ai_mc_be_server.Inventory.Item.{Protocol, status_ok, stack_request_status}
use open_ai_mc_be_server.Inventory.Store.{Result, ok, err, Inventory, Snapshot, snapshot, restore}
use open_ai_mc_be_server.Inventory.Exec.{Work, Exec, pure, ◌>>◌}
use open_ai_mc_be_server.Inventory.Actions.{StackRequestAction, apply_stack_request_action}
use open_ai_mc_be_server.Inventory.Response.{
  StackResponse, remember_response_stack_ids, stack_response_container_info,
}

pub record ItemStackRequest : Type 0 where
  pub request_id : ℤ
  pub actions : List StackRequestAction

module _ {D : Type 0} ⦃q : Protocol D⦄ where
  -- The loop over the actions stops at the first error.
  unfoldable pub apply_actions : Bool → List StackRequestAction → Exec D (Unit {0})
  apply_actions creative [] = pure tt
  apply_actions creative (a ∷ rest) =
      apply_stack_request_action creative a >> apply_actions creative rest

  abbrev pub conclude :
      ℤ → Snapshot D → Result (Unit {0}) × Work D → StackResponse × Bool × Inventory D
  conclude id before (err e, w) = (
    record { status = stack_request_status e; request_id = id; container_info = [] },
    false,
    restore before w.inventory,
  )
  conclude id before (ok _, w) = (
    record {
      status = status_ok;
      request_id = id;
      container_info = stack_response_container_info w.changes;
    },
    true,
    remember_response_stack_ids id w.changes w.inventory,
  )

  unfoldable pub apply_item_stack_request :
      Bool → ItemStackRequest → Inventory D → StackResponse × Bool × Inventory D
  apply_item_stack_request creative request inv =
      conclude request.request_id (snapshot inv)
        (apply_actions creative request.actions (record { inventory = inv; changes = [] }))

  -- The loop of `processItemStackRequests`: the responses in order, and whether one was rejected.
  unfoldable pub apply_requests :
      Bool → List ItemStackRequest → Inventory D → List StackResponse × Bool × Inventory D
  apply_requests creative [] inv = ([], false, inv)
  apply_requests creative (r ∷ rs) inv =
      let (response, accepted, inv') = apply_item_stack_request creative r inv in
      let (responses, rejected, inv'') = apply_requests creative rs inv' in
      (response ∷ responses, not accepted || rejected, inv'')
