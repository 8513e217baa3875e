-- ===== src/Inventory/Answers.antt =====
-- What the inventory handlers tell the client and the other players, and what they change.
use open_ai_mc_be_server.Inventory.Actions.{recorded}
use open_ai_mc_be_server.Inventory.Item
use open_ai_mc_be_server.Inventory.Storing.{Result-cases}
use mathlib.Core.List.{append_assoc, append-nil}
use open_ai_mc_be_server.Prelude.{
  leb, ◌||◌, ◌==◌, ap, not, ◌∙◌, ℕ, Bool, true, false, List, [], ◌∷◌, ◌++◌, ◌<◌, ◌≡◌, ◌⊎◌, inl, inr,
  refl, arith, if◌then◌else◌, Bool-cases,
}
use open_ai_mc_be_server.Inventory.Item.{InventorySlot, Protocol, ItemInstance, same_item_instance}
use open_ai_mc_be_server.Inventory.Store.{item, Inventory, held_item}
use open_ai_mc_be_server.Inventory.Requests.{ItemStackRequest, apply_requests}
use open_ai_mc_be_server.Inventory.Client.{
  resync_mismatch, select, window_inventory, ◌>>◌, Handler, announce_held, resync_if, Sent,
  to_client, to_peers, item_stack_response, Client, Outcome, done, failed, EquipmentRequest,
  main_content, offhand_content, held_equipment, write, resend_held_slot, broadcast_held_equipment,
  resync_inventory, send_inventory_slot, equip, handle_mob_equipment, process_item_stack_requests,
}

Outcome-cases : (o : Outcome) → (o ≡ done) ⊎ (o ≡ failed)
Outcome-cases done = inl refl
Outcome-cases failed = inr refl

-- The handler sends packets and changes no item.
abbrev pub Untouched : {D : Type 0} → Handler D → Type 0
Untouched {D} m = (c : Client D) → (m c).1.inventory ≡ c.inventory

Untouched->> : {D : Type 0} (m k : Handler D) → Untouched m → Untouched k → Untouched (m >> k)
Untouched->> m k hm hk c = elim (Outcome-cases (m c).0) [
  | inl e ↦ rw e (hk (m c).1 ∙ hm c)
  | inr e ↦ rw e (hm c)
]

module _ {D : Type 0} ⦃q : Protocol D⦄ (delivers : Sent D → Bool) where
  write-Untouched : (p : Sent D) → Untouched (write delivers p)
  unfolding write
  write-Untouched p c = elim (Bool-cases (delivers p)) [ inl e ↦ rw e | inr e ↦ rw e ]

  resync-Untouched : Untouched (resync_inventory delivers)
  unfolding resync_inventory resend_held_slot
  resync-Untouched c =
      let first = write delivers (to_client (main_content delivers c.inventory)) in
      let second = write delivers (to_client (offhand_content delivers c.inventory)) in
      Untouched->> (first >> second) (resend_held_slot delivers)
        (Untouched->> first second (write-Untouched _) (write-Untouched _))
        (λ c'. write-Untouched _ c') c

  announce-Untouched : (before : ItemInstance D) → Untouched (announce_held delivers before)
  unfolding broadcast_held_equipment
  announce-Untouched before c =
      elim (Bool-cases (same_item_instance before (held_item c.inventory))) [
        | inl e ↦ rw e
        | inr e ↦ rw e (write-Untouched _ c)
      ]

  resync_if-Untouched : (rejected : Bool) → Untouched (resync_if delivers rejected)
  resync_if-Untouched true = resync-Untouched
  resync_if-Untouched false = λ c. refl

  -- Whichever packets go out, the inventory after `processItemStackRequests` is the one that
  -- the requests leave.
  pub process_item_stack_requests-inventory :
      (rs : List ItemStackRequest) (c : Client D)
      → (process_item_stack_requests delivers rs c).1.inventory
        ≡ (apply_requests c.creative rs c.inventory).2
  unfolding process_item_stack_requests
  process_item_stack_requests-inventory [] c = unfold apply_requests in refl
  process_item_stack_requests-inventory (r ∷ rs) c =
      let applied = apply_requests c.creative (r ∷ rs) c.inventory in
      let answer = write delivers (to_client (item_stack_response applied.0)) in
      let announce = announce_held delivers (held_item c.inventory) in
      Untouched->> (answer >> announce) (resync_if delivers applied.1)
        (Untouched->> answer announce (write-Untouched _)
          (announce-Untouched (held_item c.inventory)))
        (resync_if-Untouched applied.1) (record c { inventory = applied.2 })

  -- The held item is announced if it changed, and a rejected request makes the server send the
  -- whole inventory again.
  abbrev pub announcement : ItemInstance D → Client D → List (Sent D)
  announcement before c =
      if same_item_instance before (held_item c.inventory)
      then []
      else to_peers (held_equipment delivers c) ∷ []

  abbrev pub resync_packets : Bool → Client D → List (Sent D)
  resync_packets rejected c =
      if rejected
      then to_client (main_content delivers c.inventory)
        ∷ to_client (offhand_content delivers c.inventory)
        ∷ to_client (held_equipment delivers c)
        ∷ []
      else []

  slot-Untouched : (ref : InventorySlot) → Untouched (send_inventory_slot delivers ref)
  unfolding send_inventory_slot
  slot-Untouched ref c = elim (Result-cases (item c.inventory ref)) [
    | inl (it, e) ↦ rw e (write-Untouched _ c)
    | inr (x, e) ↦ rw e
  ]

  abbrev Selects : ℕ → Client D → Outcome × Client D → Type 0
  Selects slot c r =
      (r.1.inventory ≡ c.inventory)
      ⊎ (r.1.inventory ≡ record (c.inventory) { selected_hotbar = slot })

  selected_then-Selects :
      (m : Handler D) (slot : ℕ) (c : Client D)
      → Untouched m
      → Selects slot c ((m >> select delivers slot >> broadcast_held_equipment delivers) c)
  unfolding broadcast_held_equipment
  selected_then-Selects m slot c h = elim (Outcome-cases (m c).0) [
    | inl e ↦ rw e (
        inr (
          write-Untouched _ _
          ∙ ap (λ (v : Inventory D). record v { selected_hotbar = slot }) (h c)))
    | inr e ↦ rw e (inl (h c))
  ]

  mismatch-Untouched : (pk : EquipmentRequest D) → Untouched (resync_mismatch delivers pk)
  mismatch-Untouched pk c =
      let ref : InventorySlot = record { container = Item.inventory; slot = pk.inventory_slot } in
      elim (Bool-cases (same_item_instance (recorded (item c.inventory ref)) pk.new_item)) [
        | inl e ↦ rw e
        | inr e ↦ rw e (slot-Untouched ref c)
      ]

  equip-inventory :
      (pk : EquipmentRequest D) (c : Client D)
      → let after = (equip delivers pk c).1.inventory in
        (after ≡ c.inventory)
        ⊎ ((pk.inventory_slot < 9)
            × (pk.hot_bar_slot ≡ pk.inventory_slot)
            × (after ≡ record (c.inventory) { selected_hotbar = pk.inventory_slot }))
  unfolding equip resend_held_slot
  equip-inventory pk c =
      elim (Bool-cases (not (pk.hot_bar_slot == pk.inventory_slot) || leb 9 pk.inventory_slot)) [
        | inl e ↦ rw e (inl (write-Untouched _ c))
        | inr e ↦ rw e (
            weaken
              ((resync_mismatch delivers pk
                  >> select delivers pk.inventory_slot
                  >> broadcast_held_equipment delivers)
                c)
              (selected_then-Selects (resync_mismatch delivers pk) pk.inventory_slot c
                (mismatch-Untouched pk))
              (checked e).0 (checked e).1)
      ]
    where
      checked :
          (not (pk.hot_bar_slot == pk.inventory_slot) || leb 9 pk.inventory_slot) ≡ false
          → (pk.inventory_slot < 9) × (pk.hot_bar_slot ≡ pk.inventory_slot)
      checked e = ground arith

      weaken :
          (r : Outcome × Client D)
          → Selects pk.inventory_slot c r
          → pk.inventory_slot < 9
          → pk.hot_bar_slot ≡ pk.inventory_slot
          → (r.1.inventory ≡ c.inventory)
            ⊎ ((pk.inventory_slot < 9)
                × (pk.hot_bar_slot ≡ pk.inventory_slot)
                × (r.1.inventory ≡ record (c.inventory) { selected_hotbar = pk.inventory_slot }))
      weaken r (inl e) h k = inl e
      weaken r (inr e) h k = inr (h, k, e)

  -- Whichever packets go out, a MobEquipment packet leaves the inventory as it is, or it
  -- selects the slot that it names: then this is the hotbar slot that it names, one of the
  -- nine, and the window is the inventory's. Nothing else of the inventory changes.
  pub handle_mob_equipment-inventory :
      (pk : EquipmentRequest D) (c : Client D)
      → let after = (handle_mob_equipment delivers pk c).1.inventory in
        (after ≡ c.inventory)
        ⊎ ((pk.inventory_slot < 9)
            × (pk.hot_bar_slot ≡ pk.inventory_slot)
            × (pk.window ≡ window_inventory)
            × (after ≡ record (c.inventory) { selected_hotbar = pk.inventory_slot }))
  unfolding handle_mob_equipment
  handle_mob_equipment-inventory pk c = ground (arith, equip-inventory pk c)

module _ {D : Type 0} ⦃q : Protocol D⦄ (delivers : Sent D → Bool)
    (all : (p : Sent D) → delivers p ≡ true) where
  write_delivered :
      (p : Sent D) (c : Client D)
      → write delivers p c ≡ (done, record c { sent = c.sent ++ p ∷ [] })
  unfolding write
  write_delivered p c = rw (all p)

  announce_delivered :
      (before : ItemInstance D) (c : Client D)
      → announce_held delivers before c
        ≡ (done, record c { sent = c.sent ++ announcement delivers before c })
  unfolding broadcast_held_equipment
  announce_delivered before c =
      elim (Bool-cases (same_item_instance before (held_item c.inventory))) [
        | inl e ↦ rw (e, append-nil)
        | inr e ↦ rw (e, write_delivered)
      ]

  resync_if_delivered :
      (rejected : Bool) (c : Client D)
      → resync_if delivers rejected c
        ≡ (done, record c { sent = c.sent ++ resync_packets delivers rejected c })
  unfolding resync_inventory resend_held_slot
  resync_if_delivered true c =
      rw (write_delivered, write_delivered, write_delivered) (simp append_assoc)
  resync_if_delivered false c = rw append-nil

  -- If every write succeeds, a batch of at least one request succeeds and sends, after what
  -- was sent before and in this order: one packet with the responses of all requests in order,
  -- what announces the held item to the others if it changed, and the packets that bring the
  -- whole inventory if a request was rejected.
  pub process_item_stack_requests-sent :
      (r : ItemStackRequest) (rs : List ItemStackRequest) (c : Client D)
      → let (responses, rejected, inv) = apply_requests c.creative (r ∷ rs) c.inventory in
        let c' = record c { inventory = inv } in
        process_item_stack_requests delivers (r ∷ rs) c ≡ (
          done,
          record c' {
            sent =
                c.sent
                ++ (to_client (item_stack_response responses)
                    ∷ (announcement delivers (held_item c.inventory) c'
                        ++ resync_packets delivers rejected c'));
          },
        )
  unfolding process_item_stack_requests
  process_item_stack_requests-sent r rs c =
      rw (write_delivered, announce_delivered, resync_if_delivered) (simp append_assoc)
