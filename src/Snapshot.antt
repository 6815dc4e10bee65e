-- ===== src/Snapshot.antt =====
-- aftersales/guard_snapshot.py: the comparable part of a Guard snapshot and its stale comparison;
-- aftersales/guard.py: the snapshot of a capture.
pub mod Json
pub mod Words
pub mod Document
pub mod Parser
pub mod Rows
pub mod Records
pub mod Facts
pub mod RoundTrip
pub mod Stale
pub mod Tests
use knowledge_agent.Prelude.{
  ℕ, String, Bool, true, false, not, ◌&&◌, ◌||◌, Option, none, some, List, [], ◌∷◌, Result, ok, err,
  Eq, ◌==◌, ◌!=◌, string_eq, nat_eq, if◌then◌else◌, any, text_leb,
}
use knowledge_agent.Prelude.Dict.{Dict, lookup, keys, same_set}
use knowledge_agent.Prelude.Sort.{sorted}
use knowledge_agent.Prelude.Maps.{dict_of, first_parts, dict_eqb}
use knowledge_agent.Actions.{ActionName, name_eq}
use knowledge_agent.Policy.{Instant}
use knowledge_agent.GuardState.{Versions, GuardState}
use knowledge_agent.Guard.Types.{CatalogSnapshot, ActionRiskPolicy}

pub record GuardSnapshot : Type 0 where
  pub action_name : ActionName
  pub evaluated_at : Instant
  pub records : Versions
  pub policy_build_id : String
  pub action_spec_version : String
  pub risk_policy_version : String

pub data StaleReason : Type 0 where
  record_set_changed record_version_changed policy_changed : StaleReason
  action_policy_changed guard_decision_changed : StaleReason

-- SnapshotIntegrityError, and the TypeError of a membership test on a value without a hash
pub data SnapshotError : Type 0 where
  snapshot_integrity type_error : SnapshotError

-- ACTION_SPEC_VERSION of aftersales/actions.py
abbrev pub action_spec_version : String
action_spec_version = "s6-actions/1"

-- The candidate snapshot of `Guard.capture`, for the state and the publication that it read.
unfoldable pub candidate_snapshot :
    ActionName → GuardState → CatalogSnapshot → ActionRiskPolicy → Instant → GuardSnapshot
candidate_snapshot name state policy risk now = record {
  action_name = name;
  evaluated_at = now;
  records = state.versions;
  policy_build_id = policy.build_id;
  action_spec_version = action_spec_version;
  risk_policy_version = risk.version;
}

abbrev pub Tables : Type 0
Tables = Dict (List (String × ℕ))

-- `tables[table]`; every table asked for is there
unfoldable pub rows_of : String → Tables → List (String × ℕ)
rows_of table tables = elim (lookup table tables) [ none ↦ [] | some rows ↦ rows ]

unfoldable pub set_changed : Tables → Tables → String → Bool
set_changed stored candidate table =
    not (same_set (first_parts (rows_of table stored)) (first_parts (rows_of table candidate)))

unfoldable pub version_changed : Tables → Tables → String → Bool
version_changed stored candidate table =
    not (dict_eqb (dict_of (rows_of table stored)) (dict_of (rows_of table candidate)))

-- The comparisons of `stale_reason`, over the tables in sorted order.
unfoldable pub compare_snapshots :
    GuardSnapshot → GuardSnapshot → Tables → Tables → Option StaleReason
compare_snapshots stored candidate s c =
    if any (set_changed s c) (sorted text_leb (keys s))
    then some StaleReason.record_set_changed
    else if any (version_changed s c) (sorted text_leb (keys s))
    then some StaleReason.record_version_changed
    else if stored.policy_build_id != candidate.policy_build_id
    then some StaleReason.policy_changed
    else if stored.action_spec_version != candidate.action_spec_version
        || stored.risk_policy_version != candidate.risk_policy_version
    then some StaleReason.action_policy_changed
    else none

-- `stale_reason`
unfoldable pub stale_reason :
    GuardSnapshot → GuardSnapshot → Result SnapshotError (Option StaleReason)
stale_reason stored candidate =
    if not (stored.action_name == candidate.action_name)
    then err snapshot_integrity
    else if not (same_set (keys (dict_of stored.records)) (keys (dict_of candidate.records)))
    then err snapshot_integrity
    else ok
        (compare_snapshots stored candidate (dict_of stored.records) (dict_of candidate.records))
