-- ===== src/Models/States.antt =====
-- app/collection/states.py: each vocabulary of a status column is an enumeration, since a check
-- constraint of the table refuses every other text.
pub data ConnectionStatus : Type 0 where
  pending active revoked : ConnectionStatus

pub data SourceStatus : Type 0 where
  pending active paused revoked : SourceStatus

pub data EventState : Type 0 where
  received normalized control rejected dead_letter analyzing analyzed failed : EventState

pub data TestStatus : Type 0 where
  pending awaiting verified failed expired : TestStatus

pub data OutboxStatus : Type 0 where
  pending sending delivered failed dead_letter : OutboxStatus
