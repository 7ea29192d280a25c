-- ===== src/Webhook/Delivery.antt =====
-- A round of the loop of webhook.rs at a receiver that takes what it is sent.
use rln_companion.Base.{
  ℕ, ◌≤◌, ◌<◌, ◌≡◌, refl, sym, ◌∙◌, ◌≢◌, ◌⊎◌, inl, inr, true, false, Option, none, some, List, [],
  ◌∷◌, map, arith, eq_iff, All, where_rows, any, update_rows, Bool-cases, ◌==◌, Eq_String, ap, Bool,
  ◌++◌, length, take, take-append-drop, drop-all,
}
use rln_companion.Base.Int.{ℤ, ltb_ℤ}
use rln_companion.Store.Outbox.{has_event_id, is_due, delivered_row, undelivered_events}
use rln_companion.Store.Rows.{OutboxRow}
use rln_companion.Store.Types.{OutboxEvent}
use rln_companion.Webhook.Backoff.{WebhookConfig}
use rln_companion.Webhook.Dispatch.{
  HookClient, Outgoing, DispatchReport, dispatch_each, dispatch_due,
}
use rln_companion.Webhook.Order.{deliver_all, envelope, Declines, Stopped, dispatch_each-Ran}
use rln_companion.Webhook.Loop.{HookRound, run}
use mathlib.Core.Option.{some-injective}
use mathlib.Core.List.{append-nil}
use mathlib.Core.Path.{subst}

-- A row that the dispatcher has nothing to do with any more: it is delivered, or has been attempted as
-- often as is allowed.
abbrev pub Settled : ℕ → OutboxRow → Type 0
Settled max_attempts r = (r.delivered_at ≢ none) ⊎ (max_attempts ≤ r.event.attempts)

-- A row is out of the reach of the dispatcher, or among the events.
Covered : ℕ → List OutboxEvent → OutboxRow → Type 0
Covered max_attempts evs r =
    (is_due max_attempts r ≡ false) ⊎ (any (λ e. r.event.id == e.id) evs ≡ true)

not_due-Settled :
    (max_attempts : ℕ) (r : OutboxRow) → is_due max_attempts r ≡ false → Settled max_attempts r
not_due-Settled max_attempts r h = go r.delivered_at refl
  where
    go : (o : Option ℤ) → r.delivered_at ≡ o → Settled max_attempts r
    go none e = inr (let k = rw e at h in ground arith)
    go (some at_time) e = inl (λ absent. cc (sym e ∙ absent))

-- A delivery takes its event off the list, for the rows of that event and for the others.
delivered_row-Covered :
    (max_attempts : ℕ) (ev : OutboxEvent) (evs : List OutboxEvent) (now : ℤ) (rows : List OutboxRow)
    → All (Covered max_attempts (ev ∷ evs)) rows
    → All (Covered max_attempts evs) (update_rows (has_event_id ev.id) (delivered_row now) rows)
unfolding Covered
delivered_row-Covered max_attempts ev evs now [] h = tt
delivered_row-Covered max_attempts ev evs now (r ∷ rows) (h, hs) =
    let rest = delivered_row-Covered max_attempts ev evs now rows hs in
    elim (Bool-cases (r.event.id == ev.id)) [
      | inl same ↦ rw same (inl refl, rest)
      | inr differ ↦ rw differ (rw differ at h, rest)
    ]

deliver_all-Settled :
    (max_attempts : ℕ) (evs : List OutboxEvent) (now : ℤ) (rows : List OutboxRow)
    → All (Covered max_attempts evs) rows
    → All (Settled max_attempts) (deliver_all now evs rows)
unfolding Covered
deliver_all-Settled max_attempts [] now [] h = tt
deliver_all-Settled max_attempts [] now (r ∷ rows) (inl h, hs) =
    (not_due-Settled max_attempts r h, deliver_all-Settled max_attempts [] now rows hs)
deliver_all-Settled max_attempts [] now (r ∷ rows) (inr h, hs) = cc
deliver_all-Settled max_attempts (ev ∷ evs) now rows h =
    deliver_all-Settled max_attempts evs now
      (update_rows (has_event_id ev.id) (delivered_row now) rows)
      (delivered_row-Covered max_attempts ev evs now rows h)

weaker :
    (max_attempts : ℕ) (ev : OutboxEvent) (evs : List OutboxEvent) (rows : List OutboxRow)
    → All (Covered max_attempts evs) rows
    → All (Covered max_attempts (ev ∷ evs)) rows
unfolding Covered
weaker max_attempts ev evs [] h = tt
weaker max_attempts ev evs (r ∷ rows) (inl h, hs) = (inl h, weaker max_attempts ev evs rows hs)
weaker max_attempts ev evs (r ∷ rows) (inr h, hs) =
    (inr (ground arith), weaker max_attempts ev evs rows hs)

-- All that is due is among what is selected.
selected :
    (max_attempts : ℕ) (rows : List OutboxRow)
    → All (Covered max_attempts (map (λ r. r.event) (where_rows (is_due max_attempts) rows))) rows
unfolding Covered
selected max_attempts [] = tt
selected max_attempts (r ∷ rows) =
    let later = selected max_attempts rows in
    let listed = where_rows (is_due max_attempts) rows in
    let whole =
      λ (l : List OutboxRow). All (Covered max_attempts (map (λ x. x.event) l)) (r ∷ rows) in
    elim (Bool-cases (is_due max_attempts r)) [
      | inl reached ↦
          let e : where_rows (is_due max_attempts) (r ∷ rows) ≡ r ∷ listed = rw reached refl in
          let self : (r.event.id == r.event.id) ≡ true = (eq_iff r.event.id r.event.id).1 refl in
          subst whole (sym e)
            (inr (rw self refl), weaker max_attempts r.event (map (λ x. x.event) listed) rows later)
      | inr other ↦
          let e : where_rows (is_due max_attempts) (r ∷ rows) ≡ listed = rw other refl in
          subst whole (sym e) (inl other, later)
    ]

take_all : {A : Type 0} (n : ℕ) (xs : List A) → length xs ≤ n → take n xs ≡ xs
take_all n xs h =
    let e = drop-all n xs h in sym (append-nil (take n xs)) ∙ rw e at (take-append-drop n xs)

module _ {H : Type 0} (client : HookClient H) (cfg : WebhookConfig) where
  -- The receiver answers whatever event it is sent with a status of the two hundreds.
  abbrev pub Welcoming : Type 0
  Welcoming =
      (ev : OutboxEvent) (h : H)
      → (status : ℕ) × ((client.send (envelope client cfg ev) h).0 ≡ some status)
        × (200 ≤ status)
        × (status < 300)

  -- All that is on the list is due.
  AllDue : ℤ → List OutboxEvent → Type 0
  AllDue now evs = All (λ e. ltb_ℤ now e.next_attempt_at ≡ false) evs

  due_events :
      (now : ℤ) (q : OutboxRow → Bool) (rows : List OutboxRow)
      → All (λ r. ltb_ℤ now r.event.next_attempt_at ≡ false) rows
      → AllDue now (map (λ r. r.event) (where_rows q rows))
  unfolding AllDue
  due_events now q [] h = tt
  due_events now q (r ∷ rows) (h, hs) = elim (Bool-cases (q r)) [
    | inl on_list ↦ rw on_list (h, due_events now q rows hs)
    | inr off_list ↦ rw off_list (due_events now q rows hs)
  ]

  AllDue-append :
      (now : ℤ) (evs more : List OutboxEvent) → AllDue now (evs ++ more) → AllDue now more
  unfolding AllDue
  AllDue-append now [] more h = h
  AllDue-append now (e ∷ evs) more (h, hs) = AllDue-append now evs more hs

  -- Such a receiver declines nothing.
  not_declined : (ev : OutboxEvent) (h : H) → Welcoming → Declines client cfg ev h → ⊥
  not_declined ev h welcome (inl silent) =
      let (status, said, low, high) = welcome ev h in cc (sym said ∙ silent)
  not_declined ev h welcome (inr (other, said_other, outside)) =
      let (status, said, low, high) = welcome ev h in
      let same : status ≡ other = some-injective status other (sym said ∙ said_other) in
      elim outside [ inl less ↦ absurd (omega arith) | inr more ↦ absurd (omega arith) ]

  -- A run at such a receiver goes through the whole list.
  all_delivered :
      (evs : List OutboxEvent) (report : DispatchReport) (now : ℤ) (v : Outgoing H)
      → Welcoming
      → AllDue now evs
      → (dispatch_each client cfg evs report now v).1.db.outbox ≡ deliver_all now evs v.db.outbox
  unfolding AllDue
  all_delivered evs report now v welcome h =
      let ran = dispatch_each-Ran client cfg evs report now v in
      go ran.sent ran.left ran.hook_then ran.failed ran.split ran.stopped
    where
      go :
          (sent left : List OutboxEvent) (hook_then : H) (failed : ℕ)
          → evs ≡ sent ++ left
          → Stopped client cfg left now failed hook_then
              (dispatch_each client cfg evs report now v).1.hook
              (deliver_all now sent v.db.outbox)
              (dispatch_each client cfg evs report now v).1.db.outbox
          → (dispatch_each client cfg evs report now v).1.db.outbox
            ≡ deliver_all now evs v.db.outbox
      go sent [] hook_then failed split (none_failed, same_hook, rows) =
          rows ∙ ap (λ l. deliver_all now l v.db.outbox) (sym (split ∙ append-nil sent))
      go sent (ev ∷ left) hook_then failed split (inl (early, none_failed, same_hook, same_rows)) =
          let on_time = AllDue-append now sent (ev ∷ left) (subst (AllDue now) split h) in
          cc (sym early ∙ on_time.0)
      go sent (ev ∷ left) hook_then failed split
            (inr (on_time, declines, one_failed, next_hook, next_rows)) =
          absurd (not_declined ev hook_then welcome declines)

  -- A round of the loop at a receiver that answers whatever event it is sent with a status of the two
  -- hundreds, when no more than 100 events wait, and none of those in the queue waits for a later time:
  -- after the round each event in the queue is delivered, or has been attempted as often as is allowed.
  pub run-Settled :
      (r : HookRound H) (w : Outgoing H)
      → Welcoming
      → All (λ row. ltb_ℤ r.now row.event.next_attempt_at ≡ false) (r.slept w).db.outbox
      → length (where_rows (is_due cfg.max_attempts) (r.slept w).db.outbox) ≤ 100
      → All (Settled cfg.max_attempts) (run client cfg (r ∷ []) w).1.db.outbox
  unfolding run dispatch_due undelivered_events
  run-Settled r w welcome ready few =
      let v = r.slept w in
      let rows = v.db.outbox in
      let waiting_rows = where_rows (is_due cfg.max_attempts) rows in
      let whole : take 100 waiting_rows ≡ waiting_rows = take_all 100 waiting_rows few in
      let evs = map (λ x. x.event) waiting_rows in
      let sent =
        all_delivered evs (record { delivered = 0; failed = 0 }) r.now v welcome
          (due_events r.now (is_due cfg.max_attempts) rows ready) in
      rw (whole, sent)
        (deliver_all-Settled cfg.max_attempts evs r.now rows (selected cfg.max_attempts rows))
