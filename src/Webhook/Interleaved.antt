-- ===== src/Webhook/Interleaved.antt =====
-- The statements that the tasks of the companion run on the database, in any interleaving. Each runs
-- alone: SQLite has one writer, and what must not be torn apart is a transaction.
use rln_companion.Base.{◌+◌, String, List, [], ◌∷◌}
use rln_companion.Base.Int.{ℤ, ltb_ℤ}
use rln_companion.Base.Respects.{Preorder, Respects, Respects-pure, Respects-bind, Respects-if}
use rln_companion.Store.Outbox.{undelivered_events, record_attempt, mark_delivered}
use rln_companion.Store.Rows.{Db}
use rln_companion.Store.Transaction.{Query}
use rln_companion.Store.Types.{OutboxEvent}
use rln_companion.Sync.Statements.{
  Statement, Statements, Statement-Progress, no_statement, then_statement,
}
use rln_companion.Webhook.Backoff.{WebhookConfig, next_attempt_delay, retry_at}
use rln_companion.Webhook.Dispatch.{
  post, HookClient, Outgoing, DispatchReport, on_pool, dispatch_each, dispatch_due,
}
use rln_companion.Webhook.Keeps.{
  Lasts, Lasts-order, Progress-Lasts, record_attempt-Lasts, mark_delivered-Lasts,
}

-- One statement of any task.
pub data Write : Db → Db → Type 0 where
  of_part : {d e : Db} → Statement d e → Write d e
  of_record_attempt : (id : String) (next : ℤ) (d : Db) → Write d (record_attempt id next d).1
  of_mark_delivered : (id : String) (now : ℤ) (d : Db) → Write d (mark_delivered id now d).1

pub data Schedule : Db → Db → Type 0 where
  no_write : (d : Db) → Schedule d d
  then_write : {d e f : Db} → Schedule d e → Write e f → Schedule d f

joined : {d e f : Db} → Schedule d e → Schedule e f → Schedule d f
joined run (no_write d) = run
joined run (then_write more last) = then_write (joined run more) last

pub Schedule-order : Preorder Schedule
Schedule-order = record { here = no_write; onwards = λ s t u f g. joined f g }

pub Statements-Schedule : {d e : Db} → Statements d e → Schedule d e
Statements-Schedule (no_statement d) = no_write d
Statements-Schedule (then_statement run last) = then_write (Statements-Schedule run) (of_part last)

Write-Lasts : {d e : Db} → Write d e → Lasts d e
Write-Lasts (of_part {d} {e} s) = Progress-Lasts d e (Statement-Progress s)
Write-Lasts (of_record_attempt id next d) = (record_attempt-Lasts id next).at d
Write-Lasts (of_mark_delivered id now d) = (mark_delivered-Lasts id now).at d

-- Over any sequence of statements of the syncs, the engine, the hooks and the dispatcher, however their
-- tasks interleave: no transfer is lost, each keeps its status or has moved on from one that is not
-- terminal, a payment that succeeded stays so, no event leaves the queue or its place in it, and a valid
-- database stays valid.
pub Schedule-Lasts : {d e : Db} → Schedule d e → Lasts d e
Schedule-Lasts (no_write d) = Lasts-order.here d
Schedule-Lasts (then_write {d} {e} {f} run last) =
    Lasts-order.onwards d e f (Schedule-Lasts run) (Write-Lasts last)

record_attempt-Schedule : (id : String) (next : ℤ) → Respects Schedule (record_attempt id next)
record_attempt-Schedule id next = record {
  at = λ d. then_write (no_write d) (of_record_attempt id next d);
}

mark_delivered-Schedule : (id : String) (now : ℤ) → Respects Schedule (mark_delivered id now)
mark_delivered-Schedule id now = record {
  at = λ d. then_write (no_write d) (of_mark_delivered id now d);
}

abbrev ScheduleOut : {H : Type 0} → Outgoing H → Outgoing H → Type 0
ScheduleOut w w' = Schedule w.db w'.db

ScheduleOut-order : {H : Type 0} → Preorder (ScheduleOut {H = H})
ScheduleOut-order = record { here = λ w. no_write w.db; onwards = λ s t u f g. joined f g }

module _ {H : Type 0} (client : HookClient H) (cfg : WebhookConfig) where
  on_pool-Schedule :
      {A : Type 0} (q : Query A) → Respects Schedule q → Respects ScheduleOut (on_pool client cfg q)
  unfolding on_pool
  on_pool-Schedule q h = record { at = λ w. h.at w.db }

  post-Schedule : (ev : OutboxEvent) → Respects ScheduleOut (post client cfg ev)
  unfolding post
  post-Schedule ev = record { at = λ w. no_write w.db }

  pub dispatch_each-Schedule :
      (evs : List OutboxEvent) (report : DispatchReport) (now : ℤ)
      → Respects ScheduleOut (dispatch_each client cfg evs report now)
  unfolding dispatch_each
  dispatch_each-Schedule [] report now = Respects-pure ScheduleOut-order report
  dispatch_each-Schedule (ev ∷ evs) report now =
      Respects-if ScheduleOut-order (ltb_ℤ now ev.next_attempt_at) _ _
        (Respects-pure ScheduleOut-order report)
        (Respects-bind ScheduleOut-order _ _ (post-Schedule ev) (λ posted.
          Respects-if ScheduleOut-order posted _ _
            (Respects-bind ScheduleOut-order _ _
              (on_pool-Schedule _ (mark_delivered-Schedule ev.id now))
              (λ _.
                dispatch_each-Schedule evs (record report { delivered = report.delivered + 1 })
                  now))
            (Respects-bind ScheduleOut-order _ _
              (on_pool-Schedule _ (
                record_attempt-Schedule ev.id
                  (retry_at now (next_attempt_delay (ev.attempts + 1) cfg))))
              (λ _.
                Respects-pure ScheduleOut-order (record report { failed = report.failed + 1 })))))

  pub dispatch_due-Schedule : (now : ℤ) → Respects ScheduleOut (dispatch_due client cfg now)
  unfolding dispatch_due undelivered_events
  dispatch_due-Schedule now =
      Respects-bind ScheduleOut-order _ _
        (on_pool-Schedule (undelivered_events cfg.max_attempts) (record { at = λ d. no_write d }))
        (λ evs. dispatch_each-Schedule evs (record { delivered = 0; failed = 0 }) now)
