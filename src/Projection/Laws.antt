-- ===== src/Projection/Laws.antt =====
-- Each projector writes only its own table, as the command path relies on.
use api_time_machine.Prelude.{arith}
use api_time_machine.Projection.{apply_user, apply_product, apply_order}
use api_time_machine.Commands.Laws.{IsProjector}

pub apply_user-IsProjector : IsProjector apply_user
unfolding apply_user
apply_user-IsProjector = record {
  events = λ e w. ground arith;
  outbox = λ e w. ground arith;
  snapshots = λ e w. ground arith;
  event_seq = λ e w. ground arith;
}

pub apply_product-IsProjector : IsProjector apply_product
unfolding apply_product
apply_product-IsProjector = record {
  events = λ e w. ground arith;
  outbox = λ e w. ground arith;
  snapshots = λ e w. ground arith;
  event_seq = λ e w. ground arith;
}

pub apply_order-IsProjector : IsProjector apply_order
unfolding apply_order
apply_order-IsProjector = record {
  events = λ e w. ground arith;
  outbox = λ e w. ground arith;
  snapshots = λ e w. ground arith;
  event_seq = λ e w. ground arith;
}
