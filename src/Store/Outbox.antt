-- ===== src/Store/Outbox.antt =====
-- The statements of store.rs over the table `webhook_outbox`.
use rln_companion.Base.{
  ℕ, String, Option, Bool, List, none, some, ok, is_none, length, update_rows, map, where_rows,
  take, ◌+◌, ◌&&◌, [], ◌∷◌, ◌++◌, err, any, ltb, leb, if◌then◌else◌, ◌==◌, Eq_String,
}
use rln_companion.Base.Int.{ℤ}
use rln_companion.Store.Transaction.{Query}
use rln_companion.Store.Rows.{OutboxRow}
use rln_companion.Store.Types.{OutboxEvent, db}

-- The argument `Option<(&str, &str, &str)>` of a transition, when there is an event.
pub record Event : Type 0 where
  pub event_id : String
  pub event_type : String
  pub payload : String

abbrev pub has_event_id : String → OutboxRow → Bool
has_event_id id r = r.event.id == id

-- The row that `INSERT INTO webhook_outbox` adds, with the defaults of the table.
abbrev pub queued_row : Event → ℤ → OutboxRow
queued_row e now = record {
  event = record {
    id = e.event_id;
    event_type = e.event_type;
    payload = e.payload;
    attempts = 0;
    next_attempt_at = now;
  };
  delivered_at = none;
}

unfoldable pub enqueue : Option Event → ℤ → Query Unit
enqueue none now d = (ok tt, d)
enqueue (some e) now d =
    if any (has_event_id e.event_id) d.outbox
    then (err db, d)
    else (ok tt, record d { outbox = d.outbox ++ queued_row e now ∷ [] })

-- `delivered_at IS NULL AND attempts < ?`
abbrev pub is_due : ℕ → OutboxRow → Bool
is_due max_attempts r = is_none r.delivered_at && ltb r.event.attempts max_attempts

unfoldable pub undelivered_events : ℕ → Query (List OutboxEvent)
undelivered_events max_attempts d =
    (ok (map (λ r. r.event) (take 100 (where_rows (is_due max_attempts) d.outbox))), d)

-- `delivered_at IS NULL AND attempts >= ?`
abbrev pub is_parked : ℕ → OutboxRow → Bool
is_parked max_attempts r = is_none r.delivered_at && leb max_attempts r.event.attempts

unfoldable pub parked_events_count : ℕ → Query ℕ
parked_events_count max_attempts d = (ok (length (where_rows (is_parked max_attempts) d.outbox)), d)

abbrev pub attempted_row : ℤ → OutboxRow → OutboxRow
attempted_row next r = record r {
  event = record r.event { attempts = r.event.attempts + 1; next_attempt_at = next };
}

unfoldable pub record_attempt : String → ℤ → Query Unit
record_attempt id next d =
    (ok tt, record d { outbox = update_rows (has_event_id id) (attempted_row next) d.outbox })

abbrev pub delivered_row : ℤ → OutboxRow → OutboxRow
delivered_row now r = record r { delivered_at = some now }

unfoldable pub mark_delivered : String → ℤ → Query Unit
mark_delivered id now d =
    (ok tt, record d { outbox = update_rows (has_event_id id) (delivered_row now) d.outbox })
