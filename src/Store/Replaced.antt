-- ===== src/Store/Replaced.antt =====
-- What a guarded update of aftersales/action_store.py does to the table: one row is replaced.
use knowledge_agent.Prelude.{
  String, Bool, true, false, not, ◌&&◌, some, none, List, [], ◌∷◌, ◌++◌, member, ◌==◌, string_eq,
  eqb→eq, Bool-cases, ◌≡◌, refl, arith, inl, inr,
}
use knowledge_agent.Store.Success.{apart_sym}
use knowledge_agent.Store.{PendingRecord, distinct, ids, update, with_id}

-- The rows are the same, in their order, but for one that stands in the place of another.
abbrev pub IsReplaced :
    PendingRecord → PendingRecord → List PendingRecord → List PendingRecord → Type 0
IsReplaced p q ps qs =
    (before : List PendingRecord) × (after : List PendingRecord) × (ps ≡ before ++ p ∷ after)
    × (qs ≡ before ++ q ∷ after)

module _ (id : String) (test : PendingRecord → Bool) (f : PendingRecord → PendingRecord)
    (named : (q : PendingRecord) → test q ≡ true → (q.pending_action_id == id) ≡ true) where
  unhit : (q : PendingRecord) → (q.pending_action_id == id) ≡ false → test q ≡ false
  unhit q h = elim (Bool-cases (test q)) [ inl e ↦ let x = named q e in cc | inr e ↦ e ]

  update-none : (ps : List PendingRecord) → member id (ids ps) ≡ false → update test f ps ≡ ps
  unfolding update ids member
  update-none [] h = refl
  update-none (q ∷ ps) h =
      rw (unhit q (apart_sym id q.pending_action_id (ground arith)), update-none ps (ground arith))
        refl

  pub update-IsReplaced :
      (ps : List PendingRecord) (p : PendingRecord)
      → distinct (ids ps) ≡ true
      → with_id id ps ≡ some p
      → test p ≡ true
      → IsReplaced p (f p) ps (update test f ps)
  unfolding distinct ids with_id update
  update-IsReplaced [] p u h t = absurd (no h)
    where
      no : none ≡ some p → ⊥
      no h = cc
  update-IsReplaced (q ∷ ps) p u h t = elim (Bool-cases (q.pending_action_id == id)) [
    | inl e ↦
        let x : some q ≡ some p = rw e at h in
        let y : q ≡ p = cc in
        let z : q.pending_action_id ≡ id = eqb→eq q.pending_action_id id e in
        let n : update test f ps ≡ ps = update-none ps (rw z at (fresh q.pending_action_id u)) in
        ([], ps, rw y refl, rw (y, t, n) refl)
    | inr e ↦
        let (before, after, l, r) = update-IsReplaced ps p (ground arith) (rw e at h) t in
        (q ∷ before, after, rw l refl, rw (unhit q e, r) refl)
  ]
    where
      fresh :
          (x : String)
          → (not (member x (ids ps)) && distinct (ids ps)) ≡ true
          → member x (ids ps) ≡ false
      fresh x h = ground arith
