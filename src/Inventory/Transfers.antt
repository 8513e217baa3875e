-- ===== src/Inventory/Transfers.antt =====
-- What one action of a stack request does to the number of items of a kind.
use open_ai_mc_be_server.Prelude.{ℕ, ◌<◌, ◌≤◌, ◌≡◌, ◌≢◌, arith, inl, inr, false}
use open_ai_mc_be_server.Prelude.Int.{ℤ}
use open_ai_mc_be_server.Inventory.Item.{
  Protocol, ItemInstance, InventorySlot, slot_eqb, remaining, Status,
}
use open_ai_mc_be_server.Inventory.Store.{ok, Inventory}
use open_ai_mc_be_server.Inventory.Exec.{Work}
use open_ai_mc_be_server.Inventory.Actions.{
  swap_between, remove_verified, transfer_between, SlotInfo, verify_stack_request_slot,
  set_request_slot, transfer_stack, swap_stacks, remove_stack,
}
use open_ai_mc_be_server.Inventory.Places.{place, IsPlaced, total}
use open_ai_mc_be_server.Inventory.Storing.{item_at, set_item-total, verified, Result-cases}
use open_ai_mc_be_server.Inventory.Conserve.{
  aliased, store_two, remaining-weight, transfer_to_empty-total, transfer_to_stack-total,
}
use open_ai_mc_be_server.Inventory.Invariant.{IsValid, item_at-stacked}

-- A slot that a request names, and the item that was verified in it.
abbrev pub Holds :
    {D : Type 0} ⦃q : Protocol D⦄ → Inventory D → InventorySlot × ItemInstance D → Type 0
Holds inv (ref, it) = IsPlaced ref × (it ≡ item_at inv ref)

abbrev pub Apart : InventorySlot → InventorySlot → Type 0
Apart a b = slot_eqb a b ≡ false → place a ≢ place b

unaliased-Apart :
    (s d : SlotInfo)
    → aliased s d ≡ false
    → Apart
        (record { container = s.container; slot = s.slot })
        (record { container = d.container; slot = d.slot })
unaliased-Apart s d h = ground arith

module _ {D : Type 0} ⦃q : Protocol D⦄ where
  transfer_between-total :
      (kind : ℤ) (a b : InventorySlot) (x y : ItemInstance D) (n : ℕ) (w : Work D)
      → IsValid w.inventory
      → n < 256
      → Apart a b
      → Holds w.inventory (a, x)
      → Holds w.inventory (b, y)
      → total kind (transfer_between (a, x) (b, y) n w).1.inventory ≡ total kind w.inventory
  unfolding transfer_between
  transfer_between-total kind a b x y n w v small apart hx hy = ground (
    arith,
    item_at-stacked w.inventory b v,
    transfer_to_empty-total kind a b x n w hx.0 hy.0,
    transfer_to_stack-total kind a b x y n w hx.0 hy.0,
  )

  swap_between-total :
      (kind : ℤ) (a b : InventorySlot) (x y : ItemInstance D) (w : Work D)
      → IsValid w.inventory
      → Apart a b
      → Holds w.inventory (a, x)
      → Holds w.inventory (b, y)
      → total kind (swap_between (a, x) (b, y) w).1.inventory ≡ total kind w.inventory
  unfolding swap_between set_request_slot
  swap_between-total kind a b x y w v apart hx hy =
      ground (arith, store_two kind a b y x w.inventory hx.0 hy.0)

  -- The items that a drop or a destroy takes away.
  remove_verified-total :
      (kind : ℤ) (reason : Status) (a : InventorySlot) (x : ItemInstance D) (n : ℕ) (w : Work D)
      → IsValid w.inventory
      → Holds w.inventory (a, x)
      → total kind (remove_verified reason (a, x) n w).1.inventory ≤ total kind w.inventory
  unfolding set_request_slot
  remove_verified-total kind reason a x n w v hx = ground (
    arith,
    set_item-total kind a (remaining x n) w.inventory hx.0 v.slots,
    remaining-weight kind x n,
  )

  verified-Apart :
      (s d : SlotInfo) (inv : Inventory D) {a b : InventorySlot} {x y : ItemInstance D}
      → aliased s d ≡ false
      → verify_stack_request_slot s inv ≡ ok (a, x)
      → verify_stack_request_slot d inv ≡ ok (b, y)
      → Apart a b × Holds inv (a, x) × Holds inv (b, y)
  verified-Apart s d inv un e f =
      let h = verified s inv e in
      let k = verified d inv f in (rw (h.2, k.2) (unaliased-Apart s d un), (h.0, h.1), (k.0, k.1))

  -- A transfer moves items, whether it succeeds or fails.
  pub transfer_stack-total :
      (kind : ℤ) (s d : SlotInfo) (n : ℕ) (w : Work D)
      → IsValid w.inventory
      → n < 256
      → aliased s d ≡ false
      → total kind (transfer_stack s d n w).1.inventory ≡ total kind w.inventory
  unfolding transfer_stack
  transfer_stack-total kind s d n w v small un =
      elim (Result-cases (verify_stack_request_slot s w.inventory)) [
        | inr (x, e) ↦ ground arith
        | inl ((a, x), e) ↦ elim (Result-cases (verify_stack_request_slot d w.inventory)) [
          | inr (y, f) ↦ ground arith
          | inl ((b, y), f) ↦
              let h = verified-Apart s d w.inventory un e f in
              ground (arith, transfer_between-total kind a b x y n w v small h.0 h.1 h.2)
        ]
      ]

  pub swap_stacks-total :
      (kind : ℤ) (s d : SlotInfo) (w : Work D)
      → IsValid w.inventory
      → aliased s d ≡ false
      → total kind (swap_stacks s d w).1.inventory ≡ total kind w.inventory
  unfolding swap_stacks
  swap_stacks-total kind s d w v un =
      elim (Result-cases (verify_stack_request_slot s w.inventory)) [
        | inr (x, e) ↦ ground arith
        | inl ((a, x), e) ↦ elim (Result-cases (verify_stack_request_slot d w.inventory)) [
          | inr (y, f) ↦ ground arith
          | inl ((b, y), f) ↦
              let h = verified-Apart s d w.inventory un e f in
              ground (arith, swap_between-total kind a b x y w v h.0 h.1 h.2)
        ]
      ]

  pub remove_stack-total :
      (kind : ℤ) (reason : Status) (s : SlotInfo) (n : ℕ) (w : Work D)
      → IsValid w.inventory
      → total kind (remove_stack reason s n w).1.inventory ≤ total kind w.inventory
  unfolding remove_stack
  remove_stack-total kind reason s n w v =
      elim (Result-cases (verify_stack_request_slot s w.inventory)) [
        | inr (x, e) ↦ ground arith
        | inl ((a, x), e) ↦
            let h = verified s w.inventory e in
            ground (arith, remove_verified-total kind reason a x n w v (h.0, h.1))
      ]
