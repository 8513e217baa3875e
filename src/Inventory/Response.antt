-- ===== src/Inventory/Response.antt =====
-- The answer to a stack request, and the memory of the ids that it told the client
-- (internal/server/mcpe_inventory.go).
use open_ai_mc_be_server.Prelude.{
  Bool, true, false, ℕ, ◌%◌, List, [], ◌∷◌, ◌++◌, map, ltb, ◌==◌, if◌then◌else◌, length,
}
use open_ai_mc_be_server.Prelude.Int.{ℤ, pos, ◌-ℤ◌, eqb_ℤ, int32_min}
use open_ai_mc_be_server.Prelude.Sort.{sort_by}
use open_ai_mc_be_server.Inventory.Item.{
  Container, Protocol, ItemInstance, InventorySlot, Status, container_code, item_is_empty,
  item_stack_network_id,
}
use open_ai_mc_be_server.Inventory.Store.{
  Inventory, SlotIds, insert_slot, insert_id, alias_inventory_slots,
}
use open_ai_mc_be_server.Inventory.Exec.{Changes}

pub record ResponseSlotInfo : Type 0 where
  pub slot : ℕ
  pub hotbar_slot : ℕ
  pub count : ℕ
  pub stack_network_id : ℤ

pub record ContainerInfo : Type 0 where
  pub container : Container
  pub slot_info : List ResponseSlotInfo

pub record StackResponse : Type 0 where
  pub status : Status
  pub request_id : ℤ
  pub container_info : List ContainerInfo

-- `-id` on an int32.
abbrev pub negate32 : ℤ → ℤ
negate32 id = if eqb_ℤ id int32_min then int32_min else pos 0 -ℤ id

-- `slots[alias] = id` for each name of a slot.
unfoldable pub insert_aliases : List InventorySlot → ℤ → SlotIds → SlotIds
insert_aliases [] id slots = slots
insert_aliases (ref ∷ refs) id slots = insert_aliases refs id (insert_slot ref id slots)

module _ {D : Type 0} where
  -- The ids of the changed slots, under all their names. Go walks the map in any order: the list
  -- `changes` stands for one.
  unfoldable pub changed_ids : Changes D → SlotIds → SlotIds
  changed_ids [] slots = slots
  changed_ids ((ref, it) ∷ changes) slots =
      changed_ids changes
        (insert_aliases (ref ∷ alias_inventory_slots ref) (item_stack_network_id it) slots)

  abbrev pub no_changes : Changes D → Bool
  no_changes [] = true
  no_changes (c ∷ cs) = false

  unfoldable pub remember_response_stack_ids : ℤ → Changes D → Inventory D → Inventory D
  remember_response_stack_ids request_id changes inv =
      if no_changes changes
      then inv
      else (let kept =
            if ltb 256 (length inv.response_stack_ids) then [] else inv.response_stack_ids in
          let slots = changed_ids changes [] in
          let named = insert_id request_id slots kept in
          record inv {
            response_stack_ids =
                if eqb_ℤ request_id (pos 0)
                then named
                else insert_id (negate32 request_id) slots named;
          })

  unfoldable pub stack_response_slot_info : InventorySlot → ItemInstance D → ResponseSlotInfo
  stack_response_slot_info ref it = record {
    slot = ref.slot;
    hotbar_slot = ref.slot;
    count = if item_is_empty it then 0 else it.count % 256;
    stack_network_id = item_stack_network_id it;
  }

-- `containers[id] = append(containers[id], info)`
unfoldable pub append_slot_info :
    Container → ResponseSlotInfo → List ContainerInfo → List ContainerInfo
append_slot_info c info [] = record { container = c; slot_info = info ∷ [] } ∷ []
append_slot_info c info (i ∷ is) =
    if container_code c == container_code i.container
    then record i { slot_info = i.slot_info ++ info ∷ [] } ∷ is
    else i ∷ append_slot_info c info is

module _ {D : Type 0} where
  unfoldable pub group_by_container : Changes D → List ContainerInfo → List ContainerInfo
  group_by_container [] groups = groups
  group_by_container ((ref, it) ∷ changes) groups =
      group_by_container changes
        (append_slot_info ref.container (stack_response_slot_info ref it) groups)

abbrev pub sort_slots : ContainerInfo → ContainerInfo
sort_slots i = record i { slot_info = sort_by (λ s. s.slot) i.slot_info }

module _ {D : Type 0} ⦃q : Protocol D⦄ where
  unfoldable pub stack_response_container_info : Changes D → List ContainerInfo
  stack_response_container_info changes =
      map sort_slots (sort_by (λ i. q.container_id i.container) (group_by_container changes []))
