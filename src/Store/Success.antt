-- ===== src/Store/Success.antt =====
-- When a guarded update of aftersales/action_store.py succeeds: the constraints of the table hold
-- after it, and it hits exactly one row.
use knowledge_agent.Prelude.{
  suc, String, Bool, true, false, not, ◌&&◌, none, some, List, [], ◌∷◌, if◌then◌else◌, all, member,
  ◌==◌, nat_eq, string_eq, eqb→eq, eqb_refl, Bool-cases, ◌≡◌, refl, ap, ◌∙◌, arith, inl, inr,
}
use knowledge_agent.Schema.{is_open_pending}
use knowledge_agent.Store.{
  PendingRecord, row_fits, distinct, ids, idempotency_keys, receipt_ids, open_items, constraints,
  update, count, with_id,
}

first : (a b : Bool) → (a && b) ≡ true → a ≡ true
first a b h = ground arith

second : (a b : Bool) → (a && b) ≡ true → b ≡ true
second a b h = ground arith

both_true : (a b : Bool) → a ≡ true → b ≡ true → (a && b) ≡ true
both_true a b h k = ground arith

five :
    (a x b c d e y : Bool)
    → (a && b && c && d && e) ≡ true
    → (a ≡ true → x ≡ true)
    → (e ≡ true → y ≡ true)
    → (x && b && c && d && y) ≡ true
five a x b c d e y h k l = ground (arith, k, l)

member-kept :
    (x i : String) (b c : Bool) (r s : List String)
    → (c ≡ true → b ≡ true)
    → (member x r ≡ false → member x s ≡ false)
    → member x (if b then i ∷ r else r) ≡ false
    → member x (if c then i ∷ s else s) ≡ false
unfolding member
member-kept x i true true r s k l h = ground (arith, l)
member-kept x i true false r s k l h = l (ground arith)
member-kept x i false true r s k l h = absurd (no (k refl))
  where
    no : false ≡ true → ⊥
    no h = cc
member-kept x i false false r s k l h = l h

distinct-kept :
    (i : String) (b c : Bool) (r s : List String)
    → (c ≡ true → b ≡ true)
    → (member i r ≡ false → member i s ≡ false)
    → (distinct r ≡ true → distinct s ≡ true)
    → distinct (if b then i ∷ r else r) ≡ true
    → distinct (if c then i ∷ s else s) ≡ true
unfolding distinct
distinct-kept i true true r s k l m h = ground (arith, l, m)
distinct-kept i true false r s k l m h = m (ground arith)
distinct-kept i false true r s k l m h = absurd (no (k refl))
  where
    no : false ≡ true → ⊥
    no h = cc
distinct-kept i false false r s k l m h = m h

-- An update that keeps what identifies a row, keeps its CHECKs, and reopens none.
pub record Keeps (test : PendingRecord → Bool) (f : PendingRecord → PendingRecord) : Type 0 where
  pub same_id : (p : PendingRecord) → (f p).pending_action_id ≡ p.pending_action_id
  pub same_key : (p : PendingRecord) → (f p).idempotency_key ≡ p.idempotency_key
  pub same_receipt : (p : PendingRecord) → (f p).receipt_id ≡ p.receipt_id
  pub same_item : (p : PendingRecord) → (f p).target_order_item_id ≡ p.target_order_item_id
  pub fits : (p : PendingRecord) → test p ≡ true → row_fits p ≡ true → row_fits (f p) ≡ true
  pub was_open : (p : PendingRecord) → test p ≡ true → is_open_pending p.status ≡ true

module _ (test : PendingRecord → Bool) (f : PendingRecord → PendingRecord)
    (keeps : Keeps test f) where
  abbrev moved : PendingRecord → PendingRecord
  moved p = if test p then f p else p

  ids-update : (ps : List PendingRecord) → ids (update test f ps) ≡ ids ps
  unfolding ids update
  ids-update [] = refl
  ids-update (p ∷ ps) = elim (Bool-cases (test p)) [
    | inl e ↦ rw (e, keeps.same_id p, ids-update ps) refl
    | inr e ↦ rw (e, ids-update ps) refl
  ]

  keys-update :
      (ps : List PendingRecord) → idempotency_keys (update test f ps) ≡ idempotency_keys ps
  unfolding idempotency_keys update
  keys-update [] = refl
  keys-update (p ∷ ps) = elim (Bool-cases (test p)) [
    | inl e ↦ rw (e, keeps.same_key p, keys-update ps) refl
    | inr e ↦ rw (e, keys-update ps) refl
  ]

  receipts-update : (ps : List PendingRecord) → receipt_ids (update test f ps) ≡ receipt_ids ps
  unfolding receipt_ids update
  receipts-update [] = refl
  receipts-update (p ∷ ps) = elim (Bool-cases (test p)) [
    | inl e ↦ rw (e, keeps.same_receipt p, receipts-update ps) refl
    | inr e ↦ rw (e, receipts-update ps) refl
  ]

  fits-update :
      (ps : List PendingRecord) → all row_fits ps ≡ true → all row_fits (update test f ps) ≡ true
  unfolding all update
  fits-update [] h = refl
  fits-update (p ∷ ps) h = elim (Bool-cases (test p)) [
    | inl e ↦ rw e (
        both_true _ _ (keeps.fits p e (first (row_fits p) (all row_fits ps) h))
          (fits-update ps (second (row_fits p) (all row_fits ps) h)))
    | inr e ↦ rw e (
        both_true _ _ (first (row_fits p) (all row_fits ps) h)
          (fits-update ps (second (row_fits p) (all row_fits ps) h)))
  ]

  item_moved : (p : PendingRecord) → (moved p).target_order_item_id ≡ p.target_order_item_id
  item_moved p = elim (Bool-cases (test p)) [ inl e ↦ rw e (keeps.same_item p) | inr e ↦ rw e refl ]

  open_moved :
      (p : PendingRecord)
      → is_open_pending (moved p).status ≡ true
      → is_open_pending p.status ≡ true
  open_moved p h = elim (Bool-cases (test p)) [ inl e ↦ keeps.was_open p e | inr e ↦ rw e at h ]

  absent-update :
      (x : String) (ps : List PendingRecord)
      → member x (open_items ps) ≡ false
      → member x (open_items (update test f ps)) ≡ false
  unfolding open_items update
  absent-update x [] h = h
  absent-update x (p ∷ ps) h = rw (item_moved p) (
      member-kept x p.target_order_item_id (is_open_pending p.status)
        (is_open_pending (moved p).status) (open_items ps) (open_items (update test f ps))
        (open_moved p) (absent-update x ps) h)

  open-update :
      (ps : List PendingRecord)
      → distinct (open_items ps) ≡ true
      → distinct (open_items (update test f ps)) ≡ true
  unfolding open_items update
  open-update [] h = h
  open-update (p ∷ ps) h = rw (item_moved p) (
      distinct-kept p.target_order_item_id (is_open_pending p.status)
        (is_open_pending (moved p).status) (open_items ps) (open_items (update test f ps))
        (open_moved p) (absent-update p.target_order_item_id ps) (open-update ps) h)

  pub constraints-update :
      (ps : List PendingRecord) → constraints ps ≡ true → constraints (update test f ps) ≡ true
  unfolding constraints
  constraints-update ps h =
      rw (ids-update ps, keys-update ps, receipts-update ps)
        (five _ _ _ _ _ _ _ h (fits-update ps) (open-update ps))

pub apart_sym : (x y : String) → (x == y) ≡ false → (y == x) ≡ false
apart_sym x y h = elim (Bool-cases (y == x)) [
  | inl e ↦ absurd (clash (rw (eqb→eq y x e) at h) (eqb_refl x))
  | inr e ↦ e
]
  where
    clash : (x == x) ≡ false → (x == x) ≡ true → ⊥
    clash h e = cc

count-none :
    (id : String) (test : PendingRecord → Bool) (ps : List PendingRecord)
    → member id (ids ps) ≡ false
    → count (λ q. q.pending_action_id == id && test q) ps ≡ 0
unfolding ids member count
count-none id test [] h = refl
count-none id test (q ∷ ps) h =
    rw (apart_sym id q.pending_action_id (ground arith)) (count-none id test ps (ground arith))

-- The row that a lookup by id finds is the only one with the id, where ids are distinct.
pub count-one :
    (id : String) (test : PendingRecord → Bool) (ps : List PendingRecord) (p : PendingRecord)
    → distinct (ids ps) ≡ true
    → with_id id ps ≡ some p
    → test p ≡ true
    → count (λ q. q.pending_action_id == id && test q) ps ≡ 1
unfolding distinct ids with_id count
count-one id test [] p u h t = absurd (no h)
  where
    no : none ≡ some p → ⊥
    no h = cc
count-one id test (q ∷ ps) p u h t = elim (Bool-cases (q.pending_action_id == id)) [
  | inl e ↦
      let x : some q ≡ some p = rw e at h in
      let y : q ≡ p = cc in
      let z : q.pending_action_id ≡ id = eqb→eq q.pending_action_id id e in
      rw e (
        rw (ap test y ∙ t) (ap suc (count-none id test ps (rw z at (fresh q.pending_action_id u)))))
  | inr e ↦ rw e (count-one id test ps p (ground arith) (rw e at h) t)
]
  where
    fresh :
        (x : String)
        → (not (member x (ids ps)) && distinct (ids ps)) ≡ true
        → member x (ids ps) ≡ false
    fresh x h = ground arith
