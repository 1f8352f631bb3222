-- ===== src/Gateway/History.antt =====
-- The states that a gateway reaches (internal/gateway/gateway.go): the ledger queues receipts, `Poll`
-- moves them to the log, other messages are logged, deliveries are noted, and the process ends and is
-- opened again.
use aim_data_gateway.Prelude.{
  ℕ, suc, ◌≤◌, ◌≡◌, refl, sym, ap, subst, ◌∙◌, ◌⊎◌, Bool, true, false, none, some, List, [], ◌∷◌,
  arith, if◌then◌else◌, inl, inr,
}
use aim_data_gateway.Prelude.Result.{ok}
use aim_data_gateway.Ledger.State.{Db, OutboxRow, Outcome}
use aim_data_gateway.Ledger.Receipt.{
  max_audited, mark_receipt_delivered, reconcile_receipts, queue_receipt, max_seq, unsent,
  acknowledged,
}
use aim_data_gateway.Gateway.{Gateway, other, Round}
use aim_data_gateway.Gateway.Poll.{poll, mark_logged, open_gateway, delivered, reconcile}
use aim_data_gateway.Gateway.Runs.{
  down, row_numbers, logged_receipts, max_seq-down, row_numbers-map, row_numbers-update_where,
}
use aim_data_gateway.Gateway.Delivery.{Linked, InOrder, poll-InOrder, open_gateway-InOrder}

abbrev pub with_ledger : Db → Gateway → Gateway
with_ledger db g = record g { ledger = db }

pub data Reaches : Gateway → Type 0 where
  starts : (db : Db) → db.outbox ≡ [] → db.audited ≡ [] → Reaches (open_gateway [] db)
  polls : (rounds : List Round) {g : Gateway} → Reaches g → Reaches (poll rounds g)
  -- A receipt is queued.
  queues :
      (key_ok : Bool) (stamp oid fid : ℕ) (outcome : Outcome) {db : Db} {g : Gateway}
      → queue_receipt key_ok stamp oid fid outcome g.ledger ≡ ok db
      → Reaches g
      → Reaches (with_ledger db g)
  -- Any other change of the ledger.
  changes :
      {db : Db} {g : Gateway}
      → db.outbox ≡ g.ledger.outbox
      → db.audited ≡ g.ledger.audited
      → Reaches g
      → Reaches (with_ledger db g)
  logs :
      {g : Gateway} → g.log_failed ≡ false → Reaches g → Reaches (record g { log = other ∷ g.log })
  fails : {g : Gateway} → Reaches g → Reaches (record g { log_failed = true })
  delivers : (seq stamp : ℕ) {g : Gateway} → Reaches g → Reaches (delivered seq stamp g)
  reconciles : (seq stamp : ℕ) {g : Gateway} → Reaches g → Reaches (reconcile seq stamp g)
  reopens : {g : Gateway} → Reaches g → Reaches (open_gateway g.log g.ledger)

queue_receipt-outbox :
    (key_ok : Bool) (stamp oid fid : ℕ) (outcome : Outcome) (db db' : Db)
    → queue_receipt key_ok stamp oid fid outcome db ≡ ok db'
    → (row_numbers db'.outbox ≡ suc (max_seq db.outbox) ∷ row_numbers db.outbox)
      × (db'.audited ≡ db.audited)
unfolding queue_receipt row_numbers
queue_receipt-outbox key_ok stamp oid fid outcome db db' h = ground arith

queue_receipt-down :
    (key_ok : Bool) (stamp oid fid : ℕ) (outcome : Outcome) (db db' : Db) (n : ℕ)
    → queue_receipt key_ok stamp oid fid outcome db ≡ ok db'
    → row_numbers db.outbox ≡ down n
    → row_numbers db'.outbox ≡ down (suc n)
unfolding down
queue_receipt-down key_ok stamp oid fid outcome db db' n h rows =
    (queue_receipt-outbox key_ok stamp oid fid outcome db db' h).0
    ∙ ap (λ m. suc m ∷ row_numbers db.outbox) (max_seq-down n db.outbox rows)
    ∙ ap (λ s. suc n ∷ s) rows

fails-Linked : (k : ℕ) (g : Gateway) → Linked k g → Linked k (record g { log_failed = true })
fails-Linked k g (inl done) = inl done
fails-Linked k g (inr (behind, inl same)) = inr (behind, inl same)
fails-Linked k g (inr (behind, inr failing)) = inr (behind, inr (failing.0, refl))

-- A ledger with the same numbers.
with_ledger-InOrder :
    (n m k : ℕ) (db : Db) (g : Gateway)
    → InOrder n k g
    → n ≤ m
    → row_numbers db.outbox ≡ down m
    → db.audited ≡ g.ledger.audited
    → InOrder m k (with_ledger db g)
with_ledger-InOrder n m k db g h le rows audited = record {
  numbered = rows;
  logged = h.logged;
  bounded = omega (arith, le, h.bounded);
  linked =
      subst
        (λ a.
          ((max_audited a ≡ k) × (g.unmarked_receipt ≡ 0))
          ⊎ ((suc (max_audited a) ≡ k)
              × ((g.unmarked_receipt ≡ k) ⊎ ((g.unmarked_receipt ≡ 0) × (g.log_failed ≡ true)))))
        (sym audited) h.linked;
}

delivered-InOrder :
    (seq stamp n k : ℕ) (g : Gateway) → InOrder n k g → InOrder n k (delivered seq stamp g)
unfolding delivered mark_receipt_delivered
delivered-InOrder seq stamp n k g h =
    with_ledger-InOrder n n k (mark_receipt_delivered g.ledger seq stamp) g h (omega arith)
      (row_numbers-update_where (unsent seq) (λ r. record r { sent_at = some stamp })
          g.ledger.outbox (λ r. refl)
        ∙ h.numbered)
      refl

reconcile-InOrder :
    (seq stamp n k : ℕ) (g : Gateway) → InOrder n k g → InOrder n k (reconcile seq stamp g)
unfolding reconcile reconcile_receipts
reconcile-InOrder seq stamp n k g h =
    with_ledger-InOrder n n k (reconcile_receipts g.ledger seq stamp) g h (omega arith)
      (row_numbers-map
          (λ (r : OutboxRow). record r {
            sent_at = if acknowledged g.ledger.audited seq r then some stamp else none;
          })
          g.ledger.outbox (λ r. refl)
        ∙ h.numbered)
      refl

-- In every state that is reached, the outbox has the receipts n, …, 1, and the log the receipts
-- k, …, 1, each once and in order, of which the ledger has all as audited, or all but the last.
pub Reaches-InOrder : (g : Gateway) → Reaches g → (n k : ℕ) × InOrder n k g
unfolding row_numbers down logged_receipts open_gateway mark_logged max_audited
Reaches-InOrder _ (starts db empty fresh) = (
  0,
  0,
  record {
    numbered = ap row_numbers empty;
    logged = refl;
    bounded = omega arith;
    linked = inl (ap max_audited fresh, refl);
  },
)
Reaches-InOrder _ (polls rounds {g} before) =
    let (n, k, h) = Reaches-InOrder g before in
    let polled = poll-InOrder n k g h rounds in (n, polled.0, polled.1)
Reaches-InOrder _ (queues key_ok stamp oid fid outcome {db} {g} queued before) =
    let (n, k, h) = Reaches-InOrder g before in
    (
      suc n,
      k,
      with_ledger-InOrder n (suc n) k db g h (omega arith)
          (queue_receipt-down key_ok stamp oid fid outcome g.ledger db n queued h.numbered)
          (queue_receipt-outbox key_ok stamp oid fid outcome g.ledger db queued).1,
    )
Reaches-InOrder _ (changes {db} {g} outbox audited before) =
    let (n, k, h) = Reaches-InOrder g before in
    (
      n,
      k,
      with_ledger-InOrder n n k db g h (omega arith) (ap row_numbers outbox ∙ h.numbered) audited,
    )
Reaches-InOrder _ (logs {g} ready before) =
    let (n, k, h) = Reaches-InOrder g before in
    (
      n,
      k,
      record { numbered = h.numbered; logged = h.logged; bounded = h.bounded; linked = h.linked },
    )
Reaches-InOrder _ (fails {g} before) =
    let (n, k, h) = Reaches-InOrder g before in
    (
      n,
      k,
      record {
        numbered = h.numbered;
        logged = h.logged;
        bounded = h.bounded;
        linked = fails-Linked k g h.linked;
      },
    )
Reaches-InOrder _ (delivers seq stamp {g} before) =
    let (n, k, h) = Reaches-InOrder g before in (n, k, delivered-InOrder seq stamp n k g h)
Reaches-InOrder _ (reconciles seq stamp {g} before) =
    let (n, k, h) = Reaches-InOrder g before in (n, k, reconcile-InOrder seq stamp n k g h)
Reaches-InOrder _ (reopens {g} before) =
    let (n, k, h) = Reaches-InOrder g before in (n, k, open_gateway-InOrder n k g h)
