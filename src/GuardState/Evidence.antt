-- ===== src/GuardState/Evidence.antt =====
-- Evidence that `_state` of aftersales/guard_state.py builds, read back by the checks of
-- aftersales/derived.py.
use knowledge_agent.Prelude.{
  String, false, [], ok, string_eq, nat_eq, eqb_refl, ltb, le→leb, all, is_blank, ◌≡◌, refl, arith,
}
use knowledge_agent.Prelude.Dict.{Dict, lookup}
use knowledge_agent.Policy.{Instant}
use knowledge_agent.Derived.{
  Value, read_field, order_relation, derive_inventory_available, available_quantity, locator_of,
}
use knowledge_agent.GuardState.{InventoryRow, evidence_of, inventory_evidence, in_order}

-- Evidence of a record with a proper id passes the checks of `_read_field` at its own instant.
pub read_field-evidence_of :
    (entity id field : String) (v : Value) (at : Instant) (rel : Dict String)
    → is_blank id ≡ false
    → read_field (evidence_of entity id field v at rel) entity field at
      ≡ ok (evidence_of entity id field v at rel)
unfolding read_field evidence_of
read_field-evidence_of entity id field v at rel nb = rw (
  eqb_refl entity,
  eqb_refl field,
  nb,
  eqb_refl (locator_of entity id field),
  le→leb at at (omega arith),
)

order_relation-in_order :
    (entity id field : String) (v : Value) (at : Instant) (order_id : String)
    → is_blank order_id ≡ false
    → order_relation (evidence_of entity id field v at (in_order order_id)) ≡ ok order_id
unfolding order_relation evidence_of all lookup is_blank
order_relation-in_order entity id field v at order_id nb = rw (nb)

-- The available quantity of a captured inventory row.
pub inventory-derived :
    (at : Instant) (row : InventoryRow)
    → is_blank row.sku ≡ false
    → derive_inventory_available (inventory_evidence at row) at ≡ ok (ltb 0 row.available_qty)
unfolding derive_inventory_available available_quantity evidence_of
inventory-derived at row nb =
    rw (read_field-evidence_of "inventory" row.sku "available_qty" _ at [] nb) refl
