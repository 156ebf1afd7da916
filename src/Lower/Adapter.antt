-- ===== src/Lower/Adapter.antt =====
-- adapter.rs: what a guest kernel gives. The trait is a record of operations on the guest's own
-- state `A`, which each method that takes `&mut self` passes on. A `&str` is its bytes.
use project_bifrost.Base.{ℕ, Bool, Bytes}
use project_bifrost.Lower.Error.{Result, LowerError, RejectReason}
use project_bifrost.Lower.Agg.{AggKind}
use project_bifrost.Lower.Action.{ActionDescriptor}

pub record ProbeTarget : Type 0 where
  pub provider : Bytes
  pub module_name : Bytes
  pub function : Bytes
  pub name : Bytes

pub data EcbStatus : Type 0 where
  -- attached_id
  accepted : ℕ → EcbStatus
  rejected : RejectReason → EcbStatus
  no_match : EcbStatus

pub data SessionEvent : Type 0 where
  begin : SessionEvent
  end : SessionEvent

pub record KernelAdapter (A : Type 0) : Type 0 where
  pub provider_supports : Bytes → A → Bool
  pub attach_probe : ProbeTarget → A → Result RejectReason ℕ × A
  pub bind_predicate : ℕ → Bytes → A → Result RejectReason (Unit {0}) × A
  pub record_action : ℕ → ActionDescriptor → Bytes → A → Result RejectReason (Unit {0}) × A
  pub declare_aggregation : ℕ → AggKind → ℕ → A → Result RejectReason (Unit {0}) × A
  pub detach_probe : ℕ → A → A
  pub on_session_event : SessionEvent → A → Result LowerError (Unit {0}) × A
