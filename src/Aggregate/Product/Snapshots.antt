-- ===== src/Aggregate/Product/Snapshots.antt =====
-- The documents of internal/product/aggregate.go: snapshots and payloads survive their encoding.
use api_time_machine.Prelude.{String, ◌≡◌, arith}
use api_time_machine.Result.{ok}
use api_time_machine.Aggregate.Product.{
  Product, CreatedPayload, UpdatedPayload, fresh, marshal_snapshot, unmarshal_snapshot,
  encode_created, decode_created, encode_updated, decode_updated,
}

-- A product's snapshot, read into a new product of any id, is the product.
pub unmarshal-marshal_product :
    (id : String) (p : Product) → unmarshal_snapshot (fresh id) (marshal_snapshot p) ≡ ok p
unfolding unmarshal_snapshot fresh marshal_snapshot
unmarshal-marshal_product id p = ground arith

pub decode-encode_created : (p : CreatedPayload) → decode_created (encode_created p) ≡ ok p
unfolding decode_created encode_created
decode-encode_created p = ground arith

pub decode-encode_updated : (p : UpdatedPayload) → decode_updated (encode_updated p) ≡ ok p
unfolding decode_updated encode_updated
decode-encode_updated p = ground arith
