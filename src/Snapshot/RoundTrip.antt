-- ===== src/Snapshot/RoundTrip.antt =====
-- aftersales/guard_snapshot.py and aftersales/guard.py: what snapshot_document writes,
-- parse_snapshot_document reads back.
use mathlib.Core.Path.{subst}
use knowledge_agent.Prelude.{
  true, false, some, ok, is_blank, ◌≡◌, refl, sym, all, member, eqb_refl, string_eq,
}
use knowledge_agent.Prelude.Dict.{lookup, keys, same_set, subset}
use knowledge_agent.Actions.{name_text}
use knowledge_agent.GuardState.{Rows, versions_of}
use knowledge_agent.Guard.Types.{GuardDecision, decision_of, policy_refs, is_policy_ref}
use knowledge_agent.Snapshot.{GuardSnapshot}
use knowledge_agent.Snapshot.Json.{dict_value, entries_of, to_entries, string}
use knowledge_agent.Snapshot.Words.{
  reason_text, kind_text, reason_of-reason_text, kind_of-kind_text,
}
use knowledge_agent.Snapshot.Document.{
  Codec, records_value, decision_value, document_value, snapshot_document,
}
use knowledge_agent.Snapshot.Parser.{
  StoredSnapshot, parse_records, member_reason, parse_decision, parse_time, nonblank_text,
  parse_snapshot_document,
}
use knowledge_agent.Snapshot.Records.{AllVersioned, parse_records-records_value}
use knowledge_agent.Snapshot.Facts.{parse_facts-facts_value}

member_reason-reason_text :
    (d : GuardDecision)
    → decision_of d.reason_code ≡ d.decision
    → member_reason d.decision (string (reason_text d.reason_code)) ≡ ok d.reason_code
unfolding member_reason
member_reason-reason_text d h =
    rw (reason_of-reason_text d.reason_code, h, eqb_refl (kind_text d.decision)) refl

parse_decision-decision_value :
    (d : GuardDecision)
    → decision_of d.reason_code ≡ d.decision
    → all is_policy_ref (policy_refs d.facts.selected) ≡ true
    → parse_decision (dict_value (decision_value d))
      ≡ ok (record { kind = d.decision; reason_code = d.reason_code; facts = d.facts })
unfolding parse_decision to_entries entries_of keys same_set subset all member lookup
parse_decision-decision_value d c h =
    rw
      (
        kind_of-kind_text d.decision,
        member_reason-reason_text d c,
        parse_facts-facts_value d.facts h,
      )
      refl

-- What is stored of a snapshot and its decision.
abbrev pub stored_of : GuardSnapshot → GuardDecision → StoredSnapshot
stored_of s d = record {
  snapshot = s;
  decision = d.decision;
  reason_code = d.reason_code;
  facts = d.facts;
}

-- The persisted document of a captured snapshot and a decision reads back, with its digest, as that
-- snapshot, decision and facts: where the rows of every table have distinct keys that are not blank
-- and versions from 1, in order; the build id and the versions are not blank; the decision and its
-- facts pass their construction checks; and the JSON and timestamp libraries read back what they
-- wrote.
pub parse-snapshot_document :
    (codec : Codec) (s : GuardSnapshot) (d : GuardDecision) (r : Rows)
    → s.records ≡ versions_of s.action_name r
    → AllVersioned s.action_name r
    → is_blank s.policy_build_id ≡ false
    → is_blank s.action_spec_version ≡ false
    → is_blank s.risk_policy_version ≡ false
    → decision_of d.reason_code ≡ d.decision
    → all is_policy_ref (policy_refs d.facts.selected) ≡ true
    → is_blank (codec.isoformat s.evaluated_at) ≡ false
    → codec.fromisoformat (codec.isoformat s.evaluated_at)
      ≡ some (record { aware = true; instant = s.evaluated_at })
    → codec.loads (snapshot_document codec s d) ≡ some (dict_value (document_value codec s d))
    → parse_snapshot_document codec
        (snapshot_document codec s d)
        (codec.sha256 (snapshot_document codec s d))
        s.action_name
      ≡ ok (stored_of s d)
unfolding parse_snapshot_document snapshot_document parse_time nonblank_text to_entries entries_of
    keys same_set subset all member lookup
parse-snapshot_document codec s d r records versioned build spec risk coded refs dated read loaded =
    let parsed : parse_records s.action_name (dict_value (records_value s.records)) ≡ ok s.records =
      subst (λ v. parse_records s.action_name (dict_value (records_value v)) ≡ ok v) (sym records)
        (parse_records-records_value s.action_name r versioned) in
    rw
      (
        eqb_refl (codec.sha256 (snapshot_document codec s d)),
        loaded,
        eqb_refl (snapshot_document codec s d),
        eqb_refl (name_text s.action_name),
        dated,
        read,
        parsed,
        parse_decision-decision_value d coded refs,
        build,
        spec,
        risk,
      )
      refl
