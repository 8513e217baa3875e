-- ===== src/Inventory/Batches.antt =====
-- Whole requests and batches: a rejected request leaves no trace, no batch breaks the invariant, and
-- none makes up items.
use open_ai_mc_be_server.Prelude.{map, false, ◌≤◌, ◌≡◌, refl, arith, inl, inr, Bool, List, [], ◌∷◌}
use open_ai_mc_be_server.Prelude.Int.{ℤ}
use open_ai_mc_be_server.Inventory.Item.{Protocol}
use open_ai_mc_be_server.Inventory.Store.{Inventory, snapshot, restore}
use open_ai_mc_be_server.Inventory.Exec.{Changes, Work}
use open_ai_mc_be_server.Inventory.Actions.{StackRequestAction, apply_stack_request_action}
use open_ai_mc_be_server.Inventory.Requests.{
  ItemStackRequest, apply_actions, apply_item_stack_request, apply_requests,
}
use open_ai_mc_be_server.Inventory.Response.{remember_response_stack_ids}
use open_ai_mc_be_server.Inventory.Storing.{Result-cases}
use open_ai_mc_be_server.Inventory.Places.{total}
use open_ai_mc_be_server.Inventory.Invariant.{IsValid}
use open_ai_mc_be_server.Inventory.Kept.{Kept, Kept-trans, apply_stack_request_action-Kept}
use open_ai_mc_be_server.Inventory.Amounts.{
  IsSound, Retains, AllActions, AllRequests, action-Retains, action-le,
}

module _ {D : Type 0} ⦃q : Protocol D⦄ where
  apply_actions-Kept :
      (creative : Bool) (acts : List StackRequestAction) (w : Work D)
      → IsValid w.inventory
      → Kept w (apply_actions creative acts w).1
  unfolding apply_actions
  apply_actions-Kept creative [] w v = record {
    valid = v;
    same_selected = refl;
    same_responses = refl;
  }
  apply_actions-Kept creative (a ∷ rest) w v =
      let k = apply_stack_request_action-Kept creative a w v in
      let w' = (apply_stack_request_action creative a w).1 in
      elim (Result-cases (apply_stack_request_action creative a w).0) [
        | inl (_, e) ↦ rw e (Kept-trans k (apply_actions-Kept creative rest w' k.valid))
        | inr (_, e) ↦ rw e k
      ]

  apply_actions-le :
      (kind : ℤ) (creative : Bool) (acts : List StackRequestAction) (w : Work D)
      → IsValid w.inventory
      → AllActions IsSound acts
      → total kind (apply_actions creative acts w).1.inventory ≤ total kind w.inventory
  unfolding apply_actions
  apply_actions-le kind creative [] w v h = omega arith
  apply_actions-le kind creative (a ∷ rest) w v h =
      let k = apply_stack_request_action-Kept creative a w v in
      let w' = (apply_stack_request_action creative a w).1 in
      let first = action-le kind creative a w v h.0 in
      elim (Result-cases (apply_stack_request_action creative a w).0) [
        | inl (_, e) ↦ rw e (omega (arith, apply_actions-le kind creative rest w' k.valid h.1))
        | inr (_, e) ↦ rw e first
      ]

  apply_actions-Retains :
      (kind : ℤ) (creative : Bool) (acts : List StackRequestAction) (w : Work D)
      → IsValid w.inventory
      → AllActions IsSound acts
      → AllActions Retains acts
      → total kind (apply_actions creative acts w).1.inventory ≡ total kind w.inventory
  unfolding apply_actions
  apply_actions-Retains kind creative [] w v h r = refl
  apply_actions-Retains kind creative (a ∷ rest) w v h r =
      let k = apply_stack_request_action-Kept creative a w v in
      let w' = (apply_stack_request_action creative a w).1 in
      let first = action-Retains kind creative a w v h.0 r.0 in
      elim (Result-cases (apply_stack_request_action creative a w).0) [
        | inl (_, e) ↦
            rw e (omega (arith, apply_actions-Retains kind creative rest w' k.valid h.1 r.1))
        | inr (_, e) ↦ rw e first
      ]

  -- What remembering ids leaves alone.
  remember-total :
      (kind id : ℤ) (changes : Changes D) (inv : Inventory D)
      → total kind (remember_response_stack_ids id changes inv) ≡ total kind inv
  unfolding total remember_response_stack_ids
  remember-total kind id changes inv = ground arith

  remember-IsValid :
      (id : ℤ) (changes : Changes D) (inv : Inventory D)
      → IsValid inv
      → IsValid (remember_response_stack_ids id changes inv)
  unfolding remember_response_stack_ids
  remember-IsValid id changes inv v = ground arith

  restored :
      (inv inv' : Inventory D)
      → inv'.response_stack_ids ≡ inv.response_stack_ids
      → restore (snapshot inv) inv' ≡ inv
  unfolding restore snapshot
  restored inv inv' e = ground arith

  -- A request that is rejected leaves a valid inventory as it was, whatever its earlier
  -- actions did.
  pub apply_item_stack_request_rejected :
      (creative : Bool) (request : ItemStackRequest) (inv : Inventory D)
      → IsValid inv
      → (apply_item_stack_request creative request inv).1 ≡ false
      → (apply_item_stack_request creative request inv).2 ≡ inv
  unfolding apply_item_stack_request
  apply_item_stack_request_rejected creative request inv v h =
      let w : Work D = record { inventory = inv; changes = [] } in
      let k = apply_actions-Kept creative request.actions w v in
      elim (Result-cases (apply_actions creative request.actions w).0) [
        | inl (_, e) ↦ ground arith
        | inr (x, e) ↦
            rw e
              (restored inv (apply_actions creative request.actions w).1.inventory k.same_responses)
      ]

  apply_item_stack_request-id :
      (creative : Bool) (request : ItemStackRequest) (inv : Inventory D)
      → (apply_item_stack_request creative request inv).0.request_id ≡ request.request_id
  unfolding apply_item_stack_request
  apply_item_stack_request-id creative request inv =
      let w : Work D = record { inventory = inv; changes = [] } in
      elim (Result-cases (apply_actions creative request.actions w).0) [
        | inl (_, e) ↦ rw e
        | inr (x, e) ↦ rw e
      ]

  apply_item_stack_request-IsValid :
      (creative : Bool) (request : ItemStackRequest) (inv : Inventory D)
      → IsValid inv
      → IsValid (apply_item_stack_request creative request inv).2
  unfolding apply_item_stack_request
  apply_item_stack_request-IsValid creative request inv v =
      let w : Work D = record { inventory = inv; changes = [] } in
      let k = apply_actions-Kept creative request.actions w v in
      elim (Result-cases (apply_actions creative request.actions w).0) [
        | inl (_, e) ↦ rw e (remember-IsValid _ _ _ k.valid)
        | inr (x, e) ↦ rw e (
            rw
              (restored inv (apply_actions creative request.actions w).1.inventory k.same_responses)
              v)
      ]

  apply_item_stack_request-le :
      (kind : ℤ) (creative : Bool) (request : ItemStackRequest) (inv : Inventory D)
      → IsValid inv
      → AllActions IsSound request.actions
      → total kind (apply_item_stack_request creative request inv).2 ≤ total kind inv
  unfolding apply_item_stack_request
  apply_item_stack_request-le kind creative request inv v h =
      let w : Work D = record { inventory = inv; changes = [] } in
      let k = apply_actions-Kept creative request.actions w v in
      elim (Result-cases (apply_actions creative request.actions w).0) [
        | inl (_, e) ↦ rw (e, remember-total) (apply_actions-le kind creative request.actions w v h)
        | inr (x, e) ↦ rw e (
            rw
              (restored inv (apply_actions creative request.actions w).1.inventory k.same_responses)
              (omega arith))
      ]

  apply_item_stack_request-Retains :
      (kind : ℤ) (creative : Bool) (request : ItemStackRequest) (inv : Inventory D)
      → IsValid inv
      → AllActions IsSound request.actions
      → AllActions Retains request.actions
      → total kind (apply_item_stack_request creative request inv).2 ≡ total kind inv
  unfolding apply_item_stack_request
  apply_item_stack_request-Retains kind creative request inv v h r =
      let w : Work D = record { inventory = inv; changes = [] } in
      let k = apply_actions-Kept creative request.actions w v in
      elim (Result-cases (apply_actions creative request.actions w).0) [
        | inl (_, e) ↦
            rw (e, remember-total) (apply_actions-Retains kind creative request.actions w v h r)
        | inr (x, e) ↦ rw e (
            rw
              (restored inv (apply_actions creative request.actions w).1.inventory k.same_responses)
              refl)
      ]

  -- A batch of any requests keeps a valid inventory valid (36 slots, no stack of more than 64
  -- items, a selected slot in the hotbar), and the responses have the requests' ids, in order.
  pub apply_requests-IsValid :
      (creative : Bool) (requests : List ItemStackRequest) (inv : Inventory D)
      → IsValid inv
      → IsValid (apply_requests creative requests inv).2
        × (map (λ r. r.request_id) (apply_requests creative requests inv).0
            ≡ map (λ r. r.request_id) requests)
  unfolding apply_requests
  apply_requests-IsValid creative [] inv v = (v, refl)
  apply_requests-IsValid creative (r ∷ rs) inv v =
      let inv' = (apply_item_stack_request creative r inv).2 in
      let k =
        apply_requests-IsValid creative rs inv'
          (apply_item_stack_request-IsValid creative r inv v) in
      (k.0, cc (apply_item_stack_request-id creative r inv, k.1))

  -- On a valid inventory, a batch whose counts are bytes and whose actions name no place under
  -- two names leaves at most as many items of each kind as there were, whichever of its
  -- requests are rejected.
  pub apply_requests-le :
      (kind : ℤ) (creative : Bool) (requests : List ItemStackRequest) (inv : Inventory D)
      → IsValid inv
      → AllRequests IsSound requests
      → total kind (apply_requests creative requests inv).2 ≤ total kind inv
  unfolding apply_requests
  apply_requests-le kind creative [] inv v h = omega arith
  apply_requests-le kind creative (r ∷ rs) inv v h =
      let inv' = (apply_item_stack_request creative r inv).2 in
      omega (
        arith,
        apply_item_stack_request-le kind creative r inv v h.0,
        apply_requests-le kind creative rs inv' (apply_item_stack_request-IsValid creative r inv v)
            h.1,
      )

  -- On a valid inventory, a batch with no drop and no destroy action, whose counts are bytes
  -- and whose actions name no place under two names, keeps the number of items of each kind,
  -- whichever of its requests are rejected.
  pub apply_requests-conserves :
      (kind : ℤ) (creative : Bool) (requests : List ItemStackRequest) (inv : Inventory D)
      → IsValid inv
      → AllRequests IsSound requests
      → AllRequests Retains requests
      → total kind (apply_requests creative requests inv).2 ≡ total kind inv
  unfolding apply_requests
  apply_requests-conserves kind creative [] inv v h k = refl
  apply_requests-conserves kind creative (r ∷ rs) inv v h k =
      let inv' = (apply_item_stack_request creative r inv).2 in
      omega (
        arith,
        apply_item_stack_request-Retains kind creative r inv v h.0 k.0,
        apply_requests-conserves kind creative rs inv'
            (apply_item_stack_request-IsValid creative r inv v) h.1 k.1,
      )
