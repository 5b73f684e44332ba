-- ===== src/Db/Tables.antt =====
-- The tables, by the names of their columns, and the exceptions of the methods.
use proactive_mcp.Prelude.{ℕ, String, Option, none, List, []}
use proactive_mcp.Model.Situation.{Situation, SituationType, SituationPriority, SituationState}
use proactive_mcp.Model.Fallback.{FallbackRecord}
use proactive_mcp.Guards.LazySync.{LazySyncLease}
use proactive_mcp.Model.Daemon.{DaemonHeartbeat}
use proactive_mcp.Model.Memory.{MemoryRow, Entity, EntityAlias}
use proactive_mcp.Model.Source.{
  SourceGeneration, SourceGenerationState, SourceSyncState, SourceReadDiagnostics,
  SourceCredentialState,
}

-- situation_deliveries
pub record Delivery : Type 0 where
  pub situation_id : ℕ
  pub delivered_at : ℕ
  pub priority : SituationPriority

-- situation_delivery_claims
pub record DeliveryLease : Type 0 where
  pub receipt_digest : String
  pub situation_id : ℕ
  pub claimed_at : ℕ
  pub expires_at : ℕ

-- confirmed_delivery_receipts
pub record ConfirmedReceipt : Type 0 where
  pub receipt_digest : String
  pub delivered_count : ℕ
  pub confirmed_at : ℕ

-- A row of `source_detection_generations` or `source_sync_state` is there or not, for each of the
-- two sources; the tables `daemon_status`,
-- `source_operational_state` and `lazy_sync_lease` have one row at most.
pub record Db : Type 0 where
  pub situations : List Situation
  pub type_mutes : List (SituationType × ℕ)
  pub deliveries : List Delivery
  pub leases : List DeliveryLease
  pub receipts : List ConfirmedReceipt
  pub fallbacks : List FallbackRecord
  pub gmail_generation : Option SourceGenerationState
  pub calendar_generation : Option SourceGenerationState
  pub gmail_sync : Option SourceSyncState
  pub calendar_sync : Option SourceSyncState
  pub diagnostics : Option SourceReadDiagnostics
  pub daemon_status : Option DaemonHeartbeat
  pub credential : Option (SourceCredentialState × ℕ)
  pub lazy_lease : Option LazySyncLease
  pub memory_items : List MemoryRow
  pub entities : List Entity
  pub entity_aliases : List EntityAlias

pub data StoreError : Type 0 where
  situation_not_found : ℕ → StoreError
  invalid_transition : ℕ → SituationState → String → StoreError
  validation_error : String → StoreError
  receipt_error : StoreError
  fallback_not_claimed : ℕ → StoreError
  source_mismatch : SituationType → SituationType → StoreError
  delayed_generation : SourceGeneration → ℕ → StoreError
  unreserved_generation : SourceGeneration → StoreError
  invalid_diagnostics : StoreError
  daemon_not_started : StoreError
  invalid_poll_interval : StoreError
  invalid_run_outcome : StoreError
  invalid_lease_duration : StoreError
  memory_not_found : ℕ → StoreError
  memory_error : String → StoreError
  alias_conflict : String → StoreError
  integrity_error : StoreError
  overflow_error : StoreError

abbrev pub empty_db : Db
empty_db = record {
  situations = [];
  type_mutes = [];
  deliveries = [];
  leases = [];
  receipts = [];
  fallbacks = [];
  gmail_generation = none;
  calendar_generation = none;
  gmail_sync = none;
  calendar_sync = none;
  diagnostics = none;
  daemon_status = none;
  credential = none;
  lazy_lease = none;
  memory_items = [];
  entities = [];
  entity_aliases = [];
}
