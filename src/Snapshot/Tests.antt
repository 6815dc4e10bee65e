-- ===== src/Snapshot/Tests.antt =====
-- A snapshot compared with a later one, and a document that is written and read back
-- (aftersales/guard_snapshot.py, aftersales/guard.py).
use knowledge_agent.Prelude.{true, some, err, refl, is_blank, all, none, [], ◌∷◌, ok, ◌≡◌, ◌↔◌}
use knowledge_agent.Actions.{ActionName}
use knowledge_agent.GuardState.{versions_of, state_of}
use knowledge_agent.Guard.Types.{GuardDecisionKind, s6_risk_policy, policy_refs, is_policy_ref}
use knowledge_agent.Guard.Tests.{now, approved, captured_state, catalog, delivered_rows}
use knowledge_agent.Prelude.Sort.{sorted, insert}
use knowledge_agent.Snapshot.{GuardSnapshot, candidate_snapshot, stale_reason, type_error}
use knowledge_agent.Snapshot.Json.{dict_value, list_value}
use knowledge_agent.Snapshot.Document.{Codec, document_value, snapshot_document}
use knowledge_agent.Snapshot.Parser.{member_reason, parse_snapshot_document}
use knowledge_agent.Snapshot.Rows.{one-IsVersioned, none-IsVersioned}
use knowledge_agent.Snapshot.Records.{AllVersioned}
use knowledge_agent.Snapshot.RoundTrip.{stored_of, parse-snapshot_document}
use knowledge_agent.Snapshot.Stale.{SameTables, Unchanged, stale_reason-none}

abbrev taken : GuardSnapshot
taken = record {
  action_name = ActionName.create_return;
  evaluated_at = 5;
  records = ("orders", ("O1", 3) ∷ []) ∷ ("order_items", ("I1", 1) ∷ []) ∷ [];
  policy_build_id = "b1";
  action_spec_version = "s6-actions/1";
  risk_policy_version = "s6-risk/1";
}

abbrev later : GuardSnapshot
later = record taken { evaluated_at = 9 }

stale_reason-none_example :
    (stale_reason taken later ≡ ok none)
    ↔ ((taken.action_name ≡ later.action_name) × SameTables taken later × Unchanged taken later)
stale_reason-none_example = stale_reason-none taken later

abbrev writer : Codec
writer = record {
  sha256 = λ s. "digest";
  canonical = λ value. "{}";
  loads = λ s. none;
  isoformat = λ t. "2026-01-04T00:00:00+08:00";
  fromisoformat = λ s. some (record { aware = true; instant = now });
}

abbrev captured_snapshot : GuardSnapshot
captured_snapshot =
    candidate_snapshot ActionName.create_return captured_state catalog s6_risk_policy now

abbrev pub codec : Codec
codec = record writer {
  loads = λ s. some (dict_value (document_value writer captured_snapshot approved));
}

pub delivered-AllVersioned : AllVersioned ActionName.create_return delivered_rows
unfolding versions_of sorted insert is_blank
delivered-AllVersioned = (
  none-IsVersioned,
  (
    one-IsVersioned _ _ refl refl,
    (one-IsVersioned _ _ refl refl, (one-IsVersioned _ _ refl refl, tt)),
  ),
)

-- A reason code that is a list has no hash: the parser raises a TypeError.
unhashable : member_reason GuardDecisionKind.deny (list_value []) ≡ err type_error
unfolding member_reason
unhashable = refl

parse-snapshot_document_example :
    parse_snapshot_document codec
      (snapshot_document codec captured_snapshot approved)
      "digest"
      ActionName.create_return
    ≡ ok (stored_of captured_snapshot approved)
unfolding candidate_snapshot state_of is_blank policy_refs is_policy_ref all
parse-snapshot_document_example =
    parse-snapshot_document codec captured_snapshot approved delivered_rows refl
      delivered-AllVersioned refl refl refl refl refl refl refl refl
