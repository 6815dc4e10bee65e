-- ===== src/Snapshot/Rows.antt =====
-- The rows of a persisted Guard snapshot (aftersales/guard_snapshot.py): what is written of them is
-- read back.
use mathlib.Core.Path.{subst}
use mathlib.Core.List.{append-nil, append_assoc}
use knowledge_agent.Prelude.{
  ℕ, String, true, false, ◌∷◌, List, [], ◌++◌, some, ok, leb, is_blank, ◌≡◌, inl, inr, refl, sym,
  ap, ◌⊎◌, ◌∙◌, In, eq_iff, ◌==◌, string_eq, Bool-cases, eqb→eq, arith, text_leb_total,
}
use knowledge_agent.Prelude.Dict.{Dict, lookup, keys, put}
use knowledge_agent.Prelude.Maps.{put_all, dict_of, Distinct}
use knowledge_agent.Prelude.Sort.{sorted, insert, sorted_idem}
use knowledge_agent.GuardState.{version_leb, Versions}
use knowledge_agent.Snapshot.Json.{Json, dict_value, entries_of, to_entries, entries_of-to_entries}
use knowledge_agent.Snapshot.Document.{rows_value}
use knowledge_agent.Snapshot.Parser.{parse_rows, parse_tables, nonblank_text}

-- Rows with distinct keys that are not blank, with versions from 1, in sorted order.
pub record IsVersioned (rows : List (String × ℕ)) : Type 0 where
  pub filled : (k : String) (v : ℕ) → In (k, v) rows → (is_blank k ≡ false) × (leb 1 v ≡ true)
  pub distinct : Distinct rows
  pub in_order : sorted version_leb rows ≡ rows

put-new : (k : String) (v : ℕ) (d : Dict ℕ) → ¬ (In k (keys d)) → put k v d ≡ d ++ (k, v) ∷ []
unfolding put keys
put-new k v [] n = refl
put-new k v ((j, w) ∷ d) n = elim (Bool-cases (j == k)) [
  | inl e ↦ absurd (n (inl (sym (eqb→eq j k e))))
  | inr e ↦ rw e (rw (put-new k v d (λ m. n (inr m))) refl)
]

parse_rows-rows_value :
    (rows : List (String × ℕ))
    → ((k : String) (v : ℕ) → In (k, v) rows → (is_blank k ≡ false) × (leb 1 v ≡ true))
    → parse_rows (rows_value rows) ≡ ok rows
unfolding parse_rows rows_value nonblank_text
parse_rows-rows_value [] h = refl
parse_rows-rows_value ((k, v) ∷ rows) h =
    let (b, p) = h k v (inl refl) in
    let rest = parse_rows-rows_value rows (λ j w m. h j w (inr m)) in rw (b, p, rest) refl

version_leb_total : (a b : String × ℕ) → version_leb a b ≡ false → version_leb b a ≡ true
version_leb_total (j, v) (k, w) h = ground (arith, eq_iff j k, eq_iff k j, text_leb_total j k)

-- Sorted rows with filled and distinct keys are versioned.
pub sorted-IsVersioned :
    (rows : List (String × ℕ))
    → ((k : String) (v : ℕ)
        → In (k, v) (sorted version_leb rows)
        → (is_blank k ≡ false) × (leb 1 v ≡ true))
    → Distinct (sorted version_leb rows)
    → IsVersioned (sorted version_leb rows)
sorted-IsVersioned rows f u = record {
  filled = f;
  distinct = u;
  in_order = sorted_idem version_leb version_leb_total rows;
}

pub one-IsVersioned :
    (k : String) (v : ℕ) → is_blank k ≡ false → leb 1 v ≡ true → IsVersioned ((k, v) ∷ [])
unfolding sorted insert keys
one-IsVersioned k v b h = record {
  filled = λ j w m. elim m [
    | inl q ↦ (rw (ap (λ (x : String × ℕ). x.0) q) b, rw (ap (λ (x : String × ℕ). x.1) q) h)
    | inr n ↦ elim n [ ]
  ];
  distinct = (λ m. elim m [ ], tt);
  in_order = refl;
}

pub none-IsVersioned : IsVersioned []
unfolding sorted
none-IsVersioned = record { filled = λ k v m. elim m [ ]; distinct = tt; in_order = refl }

keys-snoc :
    (j k : String) (v : ℕ) (d : Dict ℕ) → In j (keys (d ++ (k, v) ∷ [])) → In j (keys d) ⊎ (j ≡ k)
unfolding keys
keys-snoc j k v [] (inl q) = inr q
keys-snoc j k v [] (inr m) = elim m [ ]
keys-snoc j k v ((i, w) ∷ d) (inl q) = inl (inl q)
keys-snoc j k v ((i, w) ∷ d) (inr m) = elim (keys-snoc j k v d m) [
  | inl n ↦ inl (inr n)
  | inr q ↦ inr q
]

put_all-new :
    (d rows : Dict ℕ)
    → Distinct rows
    → ((k : String) → In k (keys rows) → ¬ (In k (keys d)))
    → put_all d rows ≡ d ++ rows
unfolding put_all keys
put_all-new d [] u n = sym (append-nil d)
put_all-new d ((k, v) ∷ rows) u n =
    rw (put-new k v d (n k (inl refl)))
      (put_all-new (d ++ (k, v) ∷ []) rows u.1 apart ∙ append_assoc d ((k, v) ∷ []) rows)
  where
    apart : (j : String) → In j (keys rows) → ¬ (In j (keys (d ++ (k, v) ∷ [])))
    apart j m i = elim (keys-snoc j k v d i) [
      | inl i ↦ n j (inr m) i
      | inr q ↦ u.0 (subst (λ x. In x (keys rows)) q m)
    ]

dict_of-Distinct : (rows : Dict ℕ) → Distinct rows → dict_of rows ≡ rows
unfolding keys
dict_of-Distinct rows u = put_all-new [] rows u (λ k m i. elim i [ ])

-- A table of rows that are written is read back, before the tables that follow it.
pub parse_tables-next :
    (table : String) (tables : List String) (d : Dict Json) (rows : List (String × ℕ))
    (more : Versions)
    → lookup table d ≡ some (dict_value (rows_value (dict_of rows)))
    → IsVersioned rows
    → parse_tables tables d ≡ ok more
    → parse_tables (table ∷ tables) d ≡ ok ((table, rows) ∷ more)
unfolding parse_tables
parse_tables-next table tables d rows more found r rest =
    let written : entries_of (to_entries (rows_value (dict_of rows))) ≡ rows_value rows =
      entries_of-to_entries (rows_value (dict_of rows))
      ∙ ap rows_value (dict_of-Distinct rows r.distinct) in
    rw (found, written, parse_rows-rows_value rows r.filled, r.in_order, rest) refl
