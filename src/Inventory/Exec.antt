-- ===== src/Inventory/Exec.antt =====
-- The steps of one stack request work on the inventory and on the map of changed slots, and may
-- fail; what was written before a failure stays written until the caller restores it.
use open_ai_mc_be_server.Prelude.{Bool, List, if◌then◌else◌}
use open_ai_mc_be_server.Inventory.Item.{ItemInstance, InventorySlot, RequestError}
use open_ai_mc_be_server.Inventory.Store.{Result, ok, err, Inventory}

abbrev pub Changes : Type 0 → Type 0
Changes D = List (InventorySlot × ItemInstance D)

pub record Work (D : Type 0) : Type 0 where
  pub inventory : Inventory D
  pub changes : Changes D

abbrev pub Exec : Type 0 → Type 0 → Type 0
Exec D A = Work D → Result A × Work D

module _ {D A : Type 0} where
  abbrev pub pure : A → Exec D A
  pure a w = (ok a, w)

  abbrev pub fail : RequestError → Exec D A
  fail e w = (err e, w)

  -- What is read off the inventory.
  abbrev pub gets : (Inventory D → Result A) → Exec D A
  gets f w = (f w.inventory, w)

abbrev pub fail_if : {D : Type 0} → Bool → RequestError → Exec D (Unit {0})
fail_if b e w = (if b then err e else ok tt, w)

module _ {D A B : Type 0} where
  abbrev pub continue : Result A → (A → Exec D B) → Exec D B
  continue (ok a) f w = f a w
  continue (err e) f w = (err e, w)

  infixl 5 ◌>>=◌ ◌>>◌
  abbrev pub ◌>>=◌ : Exec D A → (A → Exec D B) → Exec D B
  ◌>>=◌ m f w = let (r, w') = m w in continue r f w'

  abbrev pub ◌>>◌ : Exec D A → Exec D B → Exec D B
  m >> k = m >>= λ _. k
