-- ===== src/GuardState/Selected.antt =====
-- Which rows the query templates select (aftersales/guard_state.py): those of the trusted customer's
-- order and of the action's item, and every such row.
use mathlib.Core.Path.{subst}
use knowledge_agent.Prelude.{
  String, true, false, Option, List, [], ◌∷◌, ◌≡◌, ◌⊎◌, inl, inr, refl, In, In-filter, filter-In,
  any, string_eq, eqb→eq, eqb_refl, Bool-cases, arith,
}
use knowledge_agent.Prelude.Sort.{In-sorted}
use knowledge_agent.GuardState.Cells.{
  Cell, null, boolean, integer, string, other, OrderCells, CaseCells, PendingCells,
}
use knowledge_agent.GuardState.Templates.{
  Database, cell_is, owned, joins, joined, select_order, select_cases, select_pendings,
  selects_pending,
}

pub cell_is-eq : (c : Cell) (s : String) → cell_is c s ≡ true → c ≡ string s
cell_is-eq (string t) s h = let q : t ≡ s = eqb→eq t s h in cc
cell_is-eq null s h = absurd (go h)
  where
    go : false ≡ true → ⊥
    go h = cc
cell_is-eq (boolean b) s h = absurd (go h)
  where
    go : false ≡ true → ⊥
    go h = cc
cell_is-eq (integer z) s h = absurd (go h)
  where
    go : false ≡ true → ⊥
    go h = cc
cell_is-eq other s h = absurd (go h)
  where
    go : false ≡ true → ⊥
    go h = cc

pub cell_is-string : (c : Cell) (s : String) → c ≡ string s → cell_is c s ≡ true
cell_is-string c s h = rw h (eqb_refl s)

-- the order of a customer, as a row
abbrev pub Owned : Database → String → String → Type 0
Owned db customer order_id =
    (c : OrderCells) × In c db.orders
    × (c.customer_id ≡ string customer)
    × (c.order_id ≡ string order_id)

one_In : {A : Type 0} (a : A) (xs : List A) → xs ≡ a ∷ [] → In a xs
one_In a xs h = rw h (inl refl)

pub order-Owned :
    (db : Database) (customer order_id : String) (c : OrderCells)
    → select_order db customer order_id ≡ c ∷ []
    → Owned db customer order_id
unfolding select_order
order-Owned db customer order_id c h =
    let (m, e) = In-filter (owned customer order_id) db.orders c (one_In c _ h) in
    (
      c,
      m,
      cell_is-eq c.customer_id customer (ground (arith, e)),
      cell_is-eq c.order_id order_id (ground (arith, e)),
    )

pub joined-In :
    {A : Type 0} (link : A → Cell) (customer : String) (orders : List OrderCells) (xs : List A)
    (a : A)
    → In a (joined link customer orders xs)
    → In a xs
unfolding joined
joined-In link customer orders [] a m = elim m [ ]
joined-In link customer orders (x ∷ xs) a m =
    elim (Bool-cases (any (joins customer (link x)) orders)) [
      | inl e ↦ kept (joined-In link customer orders xs a) (rw e at m)
      | inr e ↦ inr (joined-In link customer orders xs a (rw e at m))
    ]
  where
    kept :
        (In a (joined link customer orders xs) → In a xs)
        → (a ≡ x) ⊎ In a (joined link customer orders xs)
        → (a ≡ x) ⊎ In a xs
    kept f (inl q) = inl q
    kept f (inr n) = inr (f n)

-- A row whose order is one of the customer's is among the joined rows.
In-joined :
    {A : Type 0} (link : A → Cell) (customer : String) (orders : List OrderCells) (xs : List A)
    (a : A)
    → In a xs
    → any (joins customer (link a)) orders ≡ true
    → In a (joined link customer orders xs)
unfolding joined
In-joined link customer orders [] a m h = elim m [ ]
In-joined link customer orders (x ∷ xs) a (inl q) h =
    rw (subst (λ y. any (joins customer (link y)) orders ≡ true) q h) (inl q)
In-joined link customer orders (x ∷ xs) a (inr m) h =
    elim (Bool-cases (any (joins customer (link x)) orders)) [
      | inl e ↦ rw e (inr (In-joined link customer orders xs a m h))
      | inr e ↦ rw e (In-joined link customer orders xs a m h)
    ]

-- The rows of an item that the templates have to find.
abbrev pub CaseOf : Database → String → CaseCells → Type 0
CaseOf db item_id c = In c db.after_sales_cases × (c.order_item_id ≡ string item_id)

pub case-selected :
    (db : Database) (item_id : String) (c : CaseCells)
    → CaseOf db item_id c
    → In c (select_cases db item_id)
unfolding select_cases
case-selected db item_id c h = (In-sorted _ _ c).1 (
    filter-In (λ (c : CaseCells). cell_is c.order_item_id item_id) db.after_sales_cases c h.0
      (cell_is-string c.order_item_id item_id h.1))

pub pending-selected :
    (db : Database) (item_id : String) (exclude : Option String) (p : PendingCells)
    → In p db.pending_actions
    → selects_pending item_id exclude p ≡ true
    → In p (select_pendings db item_id exclude)
unfolding select_pendings
pending-selected db item_id exclude p m h =
    (In-sorted _ _ p).1 (filter-In (selects_pending item_id exclude) db.pending_actions p m h)
