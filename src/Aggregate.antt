-- ===== src/Aggregate.antt =====
-- The three aggregates, and the interface through which internal/replay/engine.go uses them.
pub mod User
pub mod Product
pub mod Order
pub mod Snapshots
use api_time_machine.Prelude.{String}
use api_time_machine.Prelude.Int.{ℤ}
use api_time_machine.Json.{Json}
use api_time_machine.Domain.{StoredEvent}
use api_time_machine.Result.{Result}

-- The operations of `Aggregate` (`fresh` is `New`, and so `reset`), with `MarshalSnapshot`.
pub record Aggregate (A : Type 0) : Type 0 where
  pub fresh : String → A
  pub apply : A → StoredEvent → Result A
  pub unmarshal_snapshot : A → Json → Result A
  pub marshal_snapshot : A → Json
  pub current_version : A → ℤ
