-- ===== src/Grpc/Messages.antt =====
-- internal/grpc/server.go: what the messages keep of the aggregates, and of a request.
use api_time_machine.Prelude.{
  ◌≡◌, ◌↔◌, refl, ap, ap₂, subst, arith, true, none, List, [], ◌∷◌, map, All, ◌^◌, ◌<◌, ◌≤◌,
  if◌then◌else◌,
}
use api_time_machine.Prelude.Int.{ℤ, pos, negsuc, Int64, pos_part, neg_part, ◌<ℤ◌, ltb_ℤ}
use api_time_machine.Text.{codes, show}
use api_time_machine.Aggregate.User.{marshal_snapshot}
use api_time_machine.Aggregate.Order
use api_time_machine.Domain.{is_temporal}
use api_time_machine.Projection.{current_user}
use api_time_machine.Query.{at_version}
use api_time_machine.World.{World}
use api_time_machine.Api
use api_time_machine.Api.{Server, answer}
use api_time_machine.Api.Users
use api_time_machine.Api.Temporal.{get_user-version}
use api_time_machine.Grpc.{
  OrderItem, to_int32, to_proto_item, to_proto_user, to_proto_order, elements, entity_query,
  get_entity, get_user, fmap,
}

abbrev pub Int32 : ℤ → Type 0
Int32 n = (pos_part n < 2 ^ 31) × (neg_part n ≤ 2 ^ 31)

to_int32_id : (n : ℤ) → Int32 n → to_int32 n ≡ n
unfolding to_int32
to_int32_id (pos n) h = ground arith
to_int32_id (negsuc n) h = ground arith

to_int32-Int32 : (n : ℤ) → Int32 (to_int32 n)
unfolding to_int32
to_int32-Int32 n = ground arith

-- An item as it was before it became a message.
abbrev pub of_message : OrderItem → Order.Item
of_message i = record {
  product_id = i.product_id;
  quantity = i.quantity;
  price_cents = i.price_cents;
}

kept :
    (is : List Order.Item)
    → All (λ i. Int32 i.quantity) is
    → map of_message (map to_proto_item is) ≡ is
unfolding to_proto_item
kept [] h = refl
kept (i ∷ is) h =
    ap₂ (λ q js. record i { quantity = q } ∷ js) (to_int32_id i.quantity h.0) (kept is h.1)

fits :
    (is : List Order.Item)
    → map of_message (map to_proto_item is) ≡ is
    → All (λ i. Int32 i.quantity) is
unfolding to_proto_item
fits [] e = tt
fits (i ∷ is) e =
    let same : to_int32 i.quantity ≡ i.quantity = cc (e) in
    (subst Int32 same (to_int32-Int32 i.quantity), fits is (cc (e)))

items_kept :
    (is : List Order.Item)
    → All (λ i. Int32 i.quantity) is ↔ (map of_message (map to_proto_item is) ≡ is)
items_kept is = (kept is, fits is)

-- The items of an order, in their order, can be read back from its message exactly if every
-- quantity fits into an int32.
pub to_proto_order-items :
    (o : Order.Order)
    → All (λ i. Int32 i.quantity) (elements o.items)
      ↔ (map of_message (to_proto_order o).items ≡ elements o.items)
unfolding to_proto_order
to_proto_order-items o = items_kept (elements o.items)

entity_query-version : (n : ℤ) → pos 0 <ℤ n → entity_query none n ≡ at_version n
unfolding entity_query
entity_query-version n h = let e : ltb_ℤ (pos 0) n ≡ true = ground (arith, h) in rw e refl

-- Asked for a user at a positive int64 version and at no instant, the HTTP handler answers with the
-- replay at that version, and the gRPC handler with the message of the same replay.
pub get_user-same :
    (s : Server) (r : Api.Request) (n : ℤ) (w : World)
    → Int64 n
    → pos 0 <ℤ n
    → r.param "at" ≡ ""
    → codes (r.param "version") ≡ show n
    → (Api.Users.get_user s r w ≡ answer marshal_snapshot (s.replay_user r.id (at_version n)) w)
      × (get_user s.replay_user (record { id = r.id; at = none; version = n }) w
          ≡ fmap to_proto_user (s.replay_user r.id (at_version n)) w)
unfolding get_user get_entity is_temporal
get_user-same s r n w h positive at_empty e = (
  get_user-version s r n w h at_empty e,
  ap (λ q. fmap to_proto_user (if is_temporal q then s.replay_user r.id q else current_user r.id) w)
      (entity_query-version n positive),
)
