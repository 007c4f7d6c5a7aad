-- ===== src/Storage/Discovery.antt =====
-- Discoveries, their proposals and the scopes of crates/exocortex-storage/src/types.rs, with the
-- equalities that the source derives. An `f32` and a time stand as numbers.
use exocortex.Common.{
  ℕ, String, Bool, ◌&&◌, Option, List, ◌==◌, Bytes, str_eq, same_list, nat_key, string_key,
}
use exocortex.Kernel.Visibility.{Visibility, discriminant}
use exocortex.Kernel.Kinds.{RelKindId}
use exocortex.Kernel.Draft.{MemoryId}
use exocortex.Kernel.Relationship.{Relationship}

pub record RegionKey : Type 0 where
  pub org : String
  pub project : String
  pub memory_type : ℕ

pub record VisibilityContext : Type 0 where
  pub user_id : String
  pub org_id : String
  pub project_ids : List String
  pub team_ids : List String
  pub max_visibility : Visibility

pub record DiscoveryRecord : Type 0 where
  pub discovery_id : String
  pub region : RegionKey
  pub from : MemoryId
  pub to : MemoryId
  pub discovery_type : String
  pub quality : ℕ
  pub via_types : List ℕ
  pub discovery_cycle_id : String
  pub discovered_at : ℕ

pub record DiscoveryProposal : Type 0 where
  pub discovery_id : String
  pub region : RegionKey
  pub from : MemoryId
  pub to : MemoryId
  pub kind : RelKindId
  pub proposed_visibility : Visibility
  pub caller_scope : VisibilityContext
  pub issued_at : ℕ

pub record AuditEvent : Type 0 where
  pub action : String
  pub actor : String
  pub org_id : String
  pub input_digest : Bytes
  pub output_ids : List String
  pub fingerprint : Bytes
  pub lease_epoch : Option ℕ
  pub recorded_at : ℕ

pub record DiscoveryAcceptance : Type 0 where
  pub discovery_id : String
  pub region : RegionKey
  pub caller_scope : VisibilityContext
  pub relationship : Relationship
  pub audit : AuditEvent

abbrev pub same_region : RegionKey → RegionKey → Bool
same_region a b =
    str_eq a.org b.org && (str_eq a.project b.project && a.memory_type == b.memory_type)

abbrev pub same_visibility : Visibility → Visibility → Bool
same_visibility a b = discriminant a == discriminant b

abbrev pub same_scope : VisibilityContext → VisibilityContext → Bool
same_scope a b =
    str_eq a.user_id b.user_id
    && (str_eq a.org_id b.org_id
        && (same_list a.project_ids b.project_ids
            && (same_list a.team_ids b.team_ids
                && same_visibility a.max_visibility b.max_visibility)))

abbrev pub same_discovery : DiscoveryRecord → DiscoveryRecord → Bool
same_discovery a b =
    str_eq a.discovery_id b.discovery_id
    && (same_region a.region b.region
        && (a.from == b.from
            && (a.to == b.to
                && (str_eq a.discovery_type b.discovery_type
                    && (a.quality == b.quality
                        && (same_list a.via_types b.via_types
                            && (str_eq a.discovery_cycle_id b.discovery_cycle_id
                                && a.discovered_at == b.discovered_at)))))))

abbrev pub same_proposal : DiscoveryProposal → DiscoveryProposal → Bool
same_proposal a b =
    str_eq a.discovery_id b.discovery_id
    && (same_region a.region b.region
        && (a.from == b.from
            && (a.to == b.to
                && (a.kind == b.kind
                    && (same_visibility a.proposed_visibility b.proposed_visibility
                        && (same_scope a.caller_scope b.caller_scope
                            && a.issued_at == b.issued_at))))))
