-- ===== src/Storage/Board.antt =====
-- The discoveries, the proposals and the audit rows of crates/exocortex-storage/src/in_memory.rs. The
-- JSON of an audit row stands as the event with its LSN.
use Prim.Native.String.{compare}
use Prim.Native.Nat.{Ordering}
use exocortex.Common.{
  ℕ, String, Bool, true, false, not, ◌&&◌, ◌||◌, Option, none, some, List, Result, ok, err,
  if◌then◌else◌, ◌==◌, ltb, any, filter, min, map, str_eq, string_key, lookup, insert, remove,
  sort_by, take,
}
use exocortex.Kernel.Visibility.{discriminant}
use exocortex.Storage.Rows.{StorageError, proposal_not_found, proposal_mismatch}
use exocortex.Storage.Discovery.{
  DiscoveryRecord, DiscoveryProposal, AuditEvent, same_region, same_proposal,
}

pub record StoredProposal : Type 0 where
  pub proposal : DiscoveryProposal
  pub consumed : Bool

pub record AuditRow : Type 0 where
  pub audit : AuditEvent
  pub lsn : ℕ

pub record Board : Type 0 where
  pub proposals : List (String × StoredProposal)
  pub discoveries : List (String × DiscoveryRecord)
  pub audits : List AuditRow

-- `contains_key`
abbrev pub is_there {ℓ} : {A : Type ℓ} → Option A → Bool
is_there none = false
is_there (some a) = true

-- What a caller may not propose.
abbrev pub out_of_scope : DiscoveryProposal → Bool
out_of_scope p =
    not (str_eq p.region.org p.caller_scope.org_id)
    || (ltb (discriminant p.caller_scope.max_visibility) (discriminant p.proposed_visibility)
        || (not (str_eq p.region.project "")
            && (not (str_eq p.region.project "*")
                && not (any (str_eq p.region.project) p.caller_scope.project_ids))))

abbrev pub propose_found :
    Board → DiscoveryProposal → Option DiscoveryRecord → Board × Result StorageError (Unit {0})
propose_found b p none = (b, err proposal_not_found)
propose_found b p (some found) =
    if not (same_region found.region p.region)
      || (not (found.from == p.from) || not (found.to == p.to))
    then (b, err proposal_mismatch)
    else (
      record b {
        proposals = insert p.discovery_id (record { proposal = p; consumed = false }) b.proposals;
        discoveries = remove p.discovery_id b.discoveries;
      },
      ok tt,
    )

abbrev pub propose_stored :
    Board → DiscoveryProposal → Option StoredProposal → Board × Result StorageError (Unit {0})
propose_stored b p none = propose_found b p (lookup p.discovery_id b.discoveries)
propose_stored b p (some stored) =
    if same_proposal stored.proposal p
    then (b, if stored.consumed then err proposal_not_found else ok tt)
    else (b, err proposal_mismatch)

unfoldable pub create_discovery_proposal :
    Board → DiscoveryProposal → Board × Result StorageError (Unit {0})
create_discovery_proposal b p =
    if out_of_scope p
    then (b, err proposal_mismatch)
    else propose_stored b p (lookup p.discovery_id b.proposals)

abbrev pub unconsumed : Option StoredProposal → Option DiscoveryProposal
unconsumed none = none
unconsumed (some stored) = if stored.consumed then none else some stored.proposal

unfoldable pub get_discovery_proposal : Board → String → Option DiscoveryProposal
get_discovery_proposal b id = unconsumed (lookup id b.proposals)

unfoldable pub get_discovery : Board → String → Option DiscoveryRecord
get_discovery b id = lookup id b.discoveries

-- The newest first, then by id.
abbrev pub discovery_after : DiscoveryRecord → DiscoveryRecord → Bool
discovery_after a b =
    ltb a.discovered_at b.discovered_at
    || (a.discovered_at == b.discovered_at
        && elim (compare a.discovery_id b.discovery_id) [ Ordering.gt ↦ true | _ ↦ false ])

unfoldable pub list_discoveries : Board → String → ℕ → List DiscoveryRecord
list_discoveries b org_id limit = take (min limit 100) (
    sort_by discovery_after (
      filter (λ (d : DiscoveryRecord). str_eq d.region.org org_id)
        (map (λ (e : String × DiscoveryRecord). e.1) b.discoveries)))

unfoldable pub audit_range : Board → String → ℕ → ℕ → List AuditRow
audit_range b org_id since_lsn limit =
    take limit
      (filter (λ (r : AuditRow). str_eq r.audit.org_id org_id && ltb since_lsn r.lsn) b.audits)
