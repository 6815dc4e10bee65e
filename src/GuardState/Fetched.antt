-- ===== src/GuardState/Fetched.antt =====
-- What each read of a capture returns (aftersales/guard_state.py, GuardStateReader._read).
use knowledge_agent.Prelude.{
  String, true, ◌&&◌, Option, none, some, List, [], ◌∷◌, ◌≡◌, All, map, string_eq, ◌==◌, eqb→eq,
  arith, ◌||◌, all-true,
}
use knowledge_agent.GuardState.{
  PackageRow, CaseRow, InventoryRow, VariantRow, TicketRow, PendingRow,
}
use knowledge_agent.GuardState.Cells.{
  reads, state_malformed, ReadName, PackageCells, InventoryCells, timestamp_cell,
}
use knowledge_agent.GuardState.Templates.{
  select_logistics, select_cases, select_pendings, select_inventory, select_variants,
  select_tickets,
}
use knowledge_agent.GuardState.Reader.{
  Source, read_package, read_packages, read_cases, read_pendings, read_inventory, read_variants,
  read_tickets, check_inventory_row, all_distinct, null_package, null_case, null_pending,
  null_inventory, null_variant, null_ticket,
}
use knowledge_agent.GuardState.Returns.{
  Returns, Mapped, One, ok-Returns, bind-Returns, weaken-Returns, after-Returns, require-Returns,
  fetch-Returns, each-Returns, single-Returns, Fetched-Mapped, Fetched-One,
}
use knowledge_agent.GuardState.Decoders.{
  OfPackage, OfCase, OfPending, OfInventory, OfVariant, OfTicket, null_not_text,
  decode_package-OfPackage, decode_case-OfCase, decode_pending-OfPending,
  decode_inventory-OfInventory, decode_variant-OfVariant, decode_ticket-OfTicket,
}

-- The template was answered, and its rows are the captured ones, one by one.
abbrev pub PackagesOf : Source → String → List PackageRow → Type 0
PackagesOf src order_id ps =
    (src.answer ReadName.logistics ≡ reads)
    × Mapped (λ c p. OfPackage c p × (p.order_id ≡ order_id))
        (select_logistics src.database src.customer_id order_id) ps
    × (all_distinct (map (λ (p : PackageRow). p.tracking_no) ps) ≡ true)

abbrev pub CasesOf : Source → String → List CaseRow → Type 0
CasesOf src item_id cs =
    (src.answer ReadName.item_cases ≡ reads)
    × Mapped OfCase (select_cases src.database item_id) cs
    × All (λ (c : CaseRow). (c.order_item_id == item_id) ≡ true) cs

abbrev pub PendingsOf : Source → String → List PendingRow → Type 0
PendingsOf src item_id ps =
    (src.answer ReadName.pendings ≡ reads)
    × Mapped OfPending (select_pendings src.database item_id src.exclude) ps

abbrev pub InventoryOf : Source → String → Option InventoryRow → Type 0
InventoryOf src target none =
    (src.answer ReadName.inventory ≡ reads) × (select_inventory src.database target ≡ [])
InventoryOf src target (some row) =
    (src.answer ReadName.inventory ≡ reads)
    × ((cells : InventoryCells) × (select_inventory src.database target ≡ cells ∷ [])
        × OfInventory cells row)
    × (row.sku ≡ target)

abbrev pub VariantsOf : Source → String → String → List VariantRow → Type 0
VariantsOf src sku target vs =
    (src.answer ReadName.variants ≡ reads)
    × Mapped OfVariant (select_variants src.database sku target) vs
    × (all_distinct (map (λ (v : VariantRow). v.sku) vs) ≡ true)
    × All (λ (v : VariantRow). (v.sku == sku || v.sku == target) ≡ true) vs

abbrev pub TicketsOf : Source → String → String → List TicketRow → Type 0
TicketsOf src item_id trigger ts =
    (src.answer ReadName.tickets ≡ reads)
    × Mapped OfTicket (select_tickets src.database item_id trigger) ts
    × All (λ (t : TicketRow). (t.order_item_id == item_id && t.handoff_trigger == trigger) ≡ true)
        ts

read_package-OfPackage :
    (src : Source) (order_id : String) (c : PackageCells)
    → Returns (λ p. OfPackage c p × (p.order_id ≡ order_id)) (read_package src order_id c)
unfolding read_package
read_package-OfPackage src order_id c =
    bind-Returns (decode_package-OfPackage src.fromisoformat c) (λ p h.
      require-Returns (p.order_id == order_id) state_malformed (λ e.
        after-Returns (timestamp_cell src.fromisoformat c.updated_at)
          (λ u. ok-Returns (h, eqb→eq p.order_id order_id e))))

pub read_packages-PackagesOf :
    (src : Source) (order_id : String)
    → Returns (PackagesOf src order_id) (read_packages src order_id)
unfolding read_packages
read_packages-PackagesOf src order_id = bind-Returns (fetch-Returns _ _ _) (λ found f.
    bind-Returns (each-Returns (read_package-OfPackage src order_id) found) (λ ps h.
      require-Returns _ state_malformed (λ e.
        let (a, m) =
          Fetched-Mapped (λ c p. OfPackage c p × (p.order_id ≡ order_id))
            (src.answer ReadName.logistics) null_package
            (select_logistics src.database src.customer_id order_id) found ps
            (λ b q. null_not_text b.tracking_no q.0.0) f h in
        ok-Returns (a, m, e))))

pub read_cases-CasesOf :
    (src : Source) (item_id : String) → Returns (CasesOf src item_id) (read_cases src item_id)
unfolding read_cases
read_cases-CasesOf src item_id = bind-Returns (fetch-Returns _ _ _) (λ found f.
    bind-Returns (each-Returns (decode_case-OfCase src.fromisoformat) found) (λ cs h.
      require-Returns _ state_malformed (λ e.
        let (a, m) =
          Fetched-Mapped OfCase (src.answer ReadName.item_cases) null_case
            (select_cases src.database item_id) found cs (λ b q. null_not_text b.case_id q.0) f h in
        ok-Returns (a, m, all-true _ cs e))))

pub read_pendings-PendingsOf :
    (src : Source) (item_id : String) → Returns (PendingsOf src item_id) (read_pendings src item_id)
unfolding read_pendings
read_pendings-PendingsOf src item_id = bind-Returns (fetch-Returns _ _ _) (λ found f.
    weaken-Returns (each-Returns decode_pending-OfPending found) (λ ps h.
      Fetched-Mapped OfPending (src.answer ReadName.pendings) null_pending
        (select_pendings src.database item_id src.exclude) found ps
        (λ b q. null_not_text b.pending_action_id q.0) f h))

check_inventory_row-InventoryOf :
    (src : Source) (target : String) (o : Option (InventoryCells × InventoryRow))
    → src.answer ReadName.inventory ≡ reads
    → One OfInventory (select_inventory src.database target) o
    → Returns (InventoryOf src target) (check_inventory_row src target o)
unfolding check_inventory_row
check_inventory_row-InventoryOf src target none a h = ok-Returns (a, h)
check_inventory_row-InventoryOf src target (some (cells, row)) a h =
    require-Returns (row.sku == target) state_malformed (λ e.
      after-Returns (timestamp_cell src.fromisoformat cells.updated_at)
        (λ u. ok-Returns (a, (cells, h.0, h.1), eqb→eq row.sku target e)))

pub read_inventory-InventoryOf :
    (src : Source) (target : String) → Returns (InventoryOf src target) (read_inventory src target)
unfolding read_inventory
read_inventory-InventoryOf src target = bind-Returns (fetch-Returns _ _ _) (λ found f.
    bind-Returns (single-Returns decode_inventory-OfInventory found) (λ o h.
      let (a, m) =
        Fetched-One OfInventory (src.answer ReadName.inventory) null_inventory
          (select_inventory src.database target) found o (λ b q. null_not_text b.sku q.0) f h in
      check_inventory_row-InventoryOf src target o a m))

pub read_variants-VariantsOf :
    (src : Source) (sku target : String)
    → Returns (VariantsOf src sku target) (read_variants src sku target)
unfolding read_variants
read_variants-VariantsOf src sku target = bind-Returns (fetch-Returns _ _ _) (λ found f.
    bind-Returns (each-Returns (decode_variant-OfVariant src.fromisoformat) found) (λ vs h.
      require-Returns _ state_malformed (λ e.
        let (a, m) =
          Fetched-Mapped OfVariant (src.answer ReadName.variants) null_variant
            (select_variants src.database sku target) found vs (λ b q. null_not_text b.sku q.0) f
            h in
        ok-Returns (a, m, ground (arith, e), all-true _ vs (ground (arith, e))))))

pub read_tickets-TicketsOf :
    (src : Source) (item_id trigger : String)
    → Returns (TicketsOf src item_id trigger) (read_tickets src item_id trigger)
unfolding read_tickets
read_tickets-TicketsOf src item_id trigger = bind-Returns (fetch-Returns _ _ _) (λ found f.
    bind-Returns (each-Returns (decode_ticket-OfTicket src.fromisoformat) found) (λ ts h.
      require-Returns _ state_malformed (λ e.
        let (a, m) =
          Fetched-Mapped OfTicket (src.answer ReadName.tickets) null_ticket
            (select_tickets src.database item_id trigger) found ts
            (λ b q. null_not_text b.ticket_id q.0) f h in
        ok-Returns (a, m, all-true _ ts e))))
