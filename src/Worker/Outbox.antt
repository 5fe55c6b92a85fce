-- ===== src/Worker/Outbox.antt =====
-- `OutboxPublisher.publishBatch` of internal/worker/outbox.go. The broker (NATS) is a parameter:
-- `publish` takes a payload and its own state, and tells whether it accepted the payload. The loop also
-- collects the ids of the rows that the broker accepted. A row's columns always scan.
pub mod Delivery
pub mod Drain
pub mod Finish
use api_time_machine.Prelude.{
  ℕ, Bool, true, false, not, List, [], ◌∷◌, ◌++◌, map, take, filter, if◌then◌else◌,
}
use api_time_machine.Prelude.Int.{ℤ, leb_ℤ, eqb_ℤ}
use api_time_machine.Prelude.Sort.{order_by}
use api_time_machine.Json.{Json}
use api_time_machine.World.{World, Db, OutboxRow, M, ◌>>=◌, ◌>>◌, modify_db, call}
use api_time_machine.Result.{ok, err}

abbrev pub id_le : OutboxRow → OutboxRow → Bool
id_le a b = leb_ℤ a.id b.id

-- WHERE published = FALSE ORDER BY id LIMIT 100
unfoldable pub unpublished : List OutboxRow → List OutboxRow
unfolding order_by
unpublished rows = take 100 (order_by id_le (filter (λ r. not r.published) rows))

abbrev pub mark_row : ℤ → OutboxRow → OutboxRow
mark_row id r = if eqb_ℤ r.id id then record r { published = true } else r

-- UPDATE outbox SET published = TRUE WHERE id = $1
unfoldable pub mark : ℤ → M (Unit {0})
unfolding call
mark id = do call; modify_db (λ db. record db { outbox = map (mark_row id) db.outbox })

pub record Batch (B : Type 0) : Type 0 where
  pub world : World
  pub broker : B
  pub accepted : List ℤ

module _ {B : Type 0} (publish : Json → B → Bool × B) where
  -- The loop: it stops at the first payload that the broker refuses; an UPDATE that fails is
  -- ignored.
  unfoldable pub publish_rows : List OutboxRow → Batch B → Batch B
  unfolding mark
  publish_rows [] s = s
  publish_rows (r ∷ rows) s =
      let (taken, broker) = publish r.payload s.broker in
      elim taken [
        | true ↦ publish_rows rows (record {
          world = (mark r.id s.world).1;
          broker = broker;
          accepted = s.accepted ++ r.id ∷ [];
        })
        | false ↦ record s { broker = broker }
      ]

  -- `connected` is `w.nc != nil`.
  unfoldable pub publish_batch : Bool → World → B → Batch B
  unfolding publish_rows unpublished call
  publish_batch false w b = record { world = w; broker = b; accepted = [] }
  publish_batch true w b =
      let (r, w') = call w in
      elim r [
        | ok _ ↦
            publish_rows (unpublished w'.db.outbox)
              (record { world = w'; broker = b; accepted = [] })
        | err _ ↦ record { world = w'; broker = b; accepted = [] }
      ]
