-- ===== src/Commands/History.antt =====
-- The log is append-only, and the outbox follows it.
use mathlib.Core.List.{append-nil, append_assoc, map-append}
use api_time_machine.Prelude.{
  ◌≡◌, refl, suc, All, All-drop, sym, ap, subst, ◌∙◌, inl, inr, List, [], ◌∷◌, ◌++◌, map,
}
use api_time_machine.Prelude.Int.{pos}
use api_time_machine.Domain.{StoredEvent}
use api_time_machine.EventStore.{outbox_row}
use api_time_machine.World.{Db, OutboxRow, transaction, transaction_err, transaction_ok}
use api_time_machine.Commands.{write}
use api_time_machine.Commands.Laws.{write_lem}
use api_time_machine.Commands.Interleaving.{
  System, Step, start, refuse, finish, surroundings, Reach, here, next, Inv, Reach-Inv, read_db,
}
use api_time_machine.Commands.Commit.{Pending, IsRead}
use api_time_machine.Result.{Result-cases}

-- Events and outbox rows were added at the end, one row for each event, in the same order.
pub record Grown (db db' : Db) : Type 0 where
  pub more : List StoredEvent
  pub rows : List OutboxRow
  pub events : db'.events ≡ db.events ++ more
  pub outbox : db'.outbox ≡ db.outbox ++ rows
  pub mirror : map (λ r. r.event_id) rows ≡ map (λ e. e.id) more

Grown-same : (db db' : Db) → db' ≡ db → Grown db db'
Grown-same db db' same = record {
  more = [];
  rows = [];
  events = ap (λ (d : Db). d.events) same ∙ sym (append-nil db.events);
  outbox = ap (λ (d : Db). d.outbox) same ∙ sym (append-nil db.outbox);
  mirror = refl;
}

Grown-trans : {a b c : Db} → Grown a b → Grown b c → Grown a c
Grown-trans {a} {b} {c} g h = record {
  more = g.more ++ h.more;
  rows = g.rows ++ h.rows;
  events = cc (g.events, h.events, append_assoc a.events g.more h.more);
  outbox = cc (g.outbox, h.outbox, append_assoc a.outbox g.rows h.rows);
  mirror = cc (
    g.mirror,
    h.mirror,
    map-append (λ (r : OutboxRow). r.event_id) g.rows h.rows,
    map-append (λ (e : StoredEvent). e.id) g.more h.more,
  );
}

finish-Grown :
    (sys : System) (before after : List Pending) (p : Pending)
    → sys.pending ≡ before ++ p ∷ after
    → Inv sys
    → Grown sys.world.db (transaction (write p.service p.request p.current) sys.world).1.db
finish-Grown sys before after p e inv =
    let w = sys.world in
    let m = write p.service p.request p.current in
    let (r, _) =
      All-drop (IsRead w.db.events) before after p (subst (All (IsRead w.db.events)) e inv.reads) in
    elim (Result-cases (transaction m w).0) [
      | inl (stored, h) ↦
          let wr =
            write_lem p.service r.projector p.request p.current stored w (transaction m w).1
              (transaction_ok m (cc)) in
          record {
            more = stored ∷ [];
            rows = outbox_row (pos (suc w.outbox_seq)) stored ∷ [];
            events = wr.events;
            outbox = wr.outbox;
            mirror = unfold outbox_row in refl;
          }
      | inr (x, h) ↦ Grown-same w.db (transaction m w).1.db (transaction_err m w x h)
    ]

pub Step-Grown : {t u : System} → Step t u → Inv t → Grown t.world.db u.world.db
Step-Grown (start s req sys current w p h) inv =
    Grown-same sys.world.db w.db (cc (h, (read_db s req sys.world).0))
Step-Grown (refuse s req sys) inv = Grown-same sys.world.db _ (read_db s req sys.world).0
Step-Grown (finish sys before after p e) inv = finish-Grown sys before after p e inv
Step-Grown (surroundings sys now faults) inv = Grown-same sys.world.db sys.world.db refl

-- From a state that satisfies the invariant of the interleavings on, commands only add at the ends
-- of the tables of events and of outbox rows, and the rows added name the events added, in their
-- order.
pub Reach-Grown : {s t : System} → Inv s → Reach s t → Grown s.world.db t.world.db
Reach-Grown {s} inv here = Grown-same s.world.db s.world.db refl
Reach-Grown inv (next r step) = Grown-trans (Reach-Grown inv r) (Step-Grown step (Reach-Inv inv r))

-- Commands of products and orders write no snapshot.
finish-snapshots :
    (sys : System) (before after : List Pending) (p : Pending)
    → sys.pending ≡ before ++ p ∷ after
    → Inv sys
    → (transaction (write p.service p.request p.current) sys.world).1.db.snapshots
      ≡ sys.world.db.snapshots
finish-snapshots sys before after p e inv =
    let w = sys.world in
    let m = write p.service p.request p.current in
    let (r, _) =
      All-drop (IsRead w.db.events) before after p (subst (All (IsRead w.db.events)) e inv.reads) in
    elim (Result-cases (transaction m w).0) [
      | inl (stored, h) ↦
          (write_lem p.service r.projector p.request p.current stored w (transaction m w).1
            (transaction_ok m (cc))).snapshots
      | inr (x, h) ↦ ap (λ (db : Db). db.snapshots) (transaction_err m w x h)
    ]

pub Step-snapshots : {t u : System} → Step t u → Inv t → u.world.db.snapshots ≡ t.world.db.snapshots
Step-snapshots (start s req sys current w p h) inv =
    let db : w.db ≡ sys.world.db = cc ((read_db s req sys.world).0, h) in
    ap (λ (db : Db). db.snapshots) db
Step-snapshots (refuse s req sys) inv = ap (λ (db : Db). db.snapshots) (read_db s req sys.world).0
Step-snapshots (finish sys before after p e) inv = finish-snapshots sys before after p e inv
Step-snapshots (surroundings sys now faults) inv = refl

pub Reach-snapshots :
    {s t : System} → Inv s → Reach s t → t.world.db.snapshots ≡ s.world.db.snapshots
Reach-snapshots inv here = refl
Reach-snapshots inv (next r step) = Step-snapshots step (Reach-Inv inv r) ∙ Reach-snapshots inv r
