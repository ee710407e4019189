-- ===== src/Query/Dto/Resources.antt =====
-- crates/next-infra-query/src/dto/mod.rs: resources, relations, connections and counts.
use next_infra.Base.{ℕ, Bool, List, Option, Text}
use next_infra.Query.Dto.Common.{
  Lifecycle, ResourceHealth, Freshness, ConnectorHealth, EvidenceType,
}

pub record ResourceDto : Type 0 where
  pub resource_id : Text
  pub connection_id : Text
  pub kind : Text
  pub display_name : Text
  pub scope : Text
  pub lifecycle : Lifecycle
  pub health : ResourceHealth
  pub freshness : Freshness
  pub observed_at : Text

pub data RelationEvidenceDto : Type 0 where
  provider : Text → Text → Text → Text → RelationEvidenceDto
  configured : Text → Text → RelationEvidenceDto
  inferred : Text → List Text → List Text → ℕ → RelationEvidenceDto

pub record RelationDto : Type 0 where
  pub relation_id : Text
  pub source_resource_id : Text
  pub target_resource_id : Text
  pub kind : Text
  pub lifecycle : Lifecycle
  pub evidence_type : EvidenceType
  pub evidence : RelationEvidenceDto
  pub last_seen_at : Text

pub record ConnectionDto : Type 0 where
  pub connection_id : Text
  pub connector_type : Text
  pub display_name : Text
  pub enabled : Bool
  pub health : ConnectorHealth
  pub last_success_at : Option Text
  pub last_attempt_at : Option Text

pub data ConnectorCoverageLevelDto : Type 0 where
  supported : ConnectorCoverageLevelDto
  partial : ConnectorCoverageLevelDto
  unsupported : ConnectorCoverageLevelDto

pub record ConnectorCoverageDto : Type 0 where
  pub connector_type : Text
  pub connector_version : Text
  pub module_name : Text
  pub level : ConnectorCoverageLevelDto
  pub reason : Option Text

pub data FrontierDirectionDto : Type 0 where
  incoming : FrontierDirectionDto
  outgoing : FrontierDirectionDto

pub record TopologyFrontierDto : Type 0 where
  pub resource_id : Text
  pub direction : FrontierDirectionDto

pub record ResourceHealthCountsDto : Type 0 where
  pub healthy : ℕ
  pub degraded : ℕ
  pub unhealthy : ℕ
  pub unknown : ℕ

pub record FreshnessCountsDto : Type 0 where
  pub fresh : ℕ
  pub stale : ℕ
  pub expired : ℕ

pub record ConnectorHealthCountsDto : Type 0 where
  pub healthy : ℕ
  pub degraded : ℕ
  pub auth_failed : ℕ
  pub rate_limited : ℕ
  pub unreachable : ℕ
  pub disabled : ℕ
