-- ===== src/Gateway/Progress.antt =====
-- `Poll` of internal/gateway/gateway.go, when every call in it succeeds.
use mathlib.Core.List.{cons-eq-cons}
use aim_data_gateway.Prelude.{
  ℕ, zero, suc, ◌+◌, ◌-◌, ◌≤◌, ◌≡◌, refl, sym, ap, ◌∙◌, Bool, true, false, not, List, [], ◌∷◌,
  length, All, arith, ltb, leb, ◌==◌,
}
use aim_data_gateway.Prelude.Query.{select}
use aim_data_gateway.Ledger.State.{OutboxRow}
use aim_data_gateway.Ledger.Receipt.{
  pending_receipts, mark_receipt_audited, insert_queued, sort_queued,
}
use aim_data_gateway.Gateway.{Gateway, kept, Round}
use aim_data_gateway.Gateway.Poll.{mark, poll_receipt, poll_on, poll_queued, poll}
use aim_data_gateway.Gateway.Runs.{
  down, up, row_numbers, logged_receipts, pending-up, max_audited-put_audited,
}
use aim_data_gateway.Gateway.Delivery.{
  last_audited, last_audited-le, InOrder, poll-InOrder, if_split,
}
use aim_data_gateway.Json.Reads.{if_both}

-- Rounds whose calls all succeed.
unfoldable pub good_rounds : ℕ → List Round
good_rounds zero = []
good_rounds (suc n) = record { appending = kept; marked = true } ∷ good_rounds n

-- The number in the body of a queued receipt is that of its row.
abbrev pub IsOwn : OutboxRow → Type 0
IsOwn r = (r.body.seq == r.seq) ≡ true

select-All :
    (test : OutboxRow → Bool) (rows : List OutboxRow)
    → All IsOwn rows
    → All IsOwn (select test rows)
unfolding select
select-All test [] h = tt
select-All test (r ∷ rows) h =
    if_both (All IsOwn) (test r) (h.0, select-All test rows h.1) (select-All test rows h.1)

insert_queued-All :
    (r : OutboxRow) (q : List OutboxRow) → IsOwn r → All IsOwn q → All IsOwn (insert_queued r q)
unfolding insert_queued
insert_queued-All r [] o h = (o, tt)
insert_queued-All r (x ∷ q) o h =
    if_both (All IsOwn) (leb r.seq x.seq) (o, h) (h.0, insert_queued-All r q o h.1)

sort_queued-All : (q : List OutboxRow) → All IsOwn q → All IsOwn (sort_queued q)
unfolding sort_queued
sort_queued-All [] h = tt
sort_queued-All (r ∷ q) h = insert_queued-All r (sort_queued q) h.0 (sort_queued-All q h.1)

-- The loop goes on, one receipt further.
abbrev Advances : ℕ → Bool × Gateway → Type 0
Advances a (on, g) = (on ≡ true) × ((last_audited g ≡ suc a) × (g.log_failed ≡ false))

mark_advances :
    (seq audit_seq : ℕ) (g : Gateway)
    → seq ≡ suc (last_audited g)
    → last_audited (mark seq audit_seq g) ≡ suc (last_audited g)
unfolding mark_receipt_audited
mark_advances seq audit_seq g next =
    let put = max_audited-put_audited seq audit_seq g.ledger.audited in omega (arith, next, put)

poll_receipt-Advances :
    (r : OutboxRow) (g : Gateway)
    → IsOwn r
    → r.seq ≡ suc (last_audited g)
    → g.log_failed ≡ false
    → Advances (last_audited g) (poll_receipt (record { appending = kept; marked = true }) r g)
unfolding poll_receipt
poll_receipt-Advances r g own next ready =
    if_split (Advances (last_audited g)) (g.unmarked_receipt == r.seq)
      (λ e. (refl, (mark_advances r.seq g.unmarked_audit g next, ready)))
      (λ e.
        if_split (Advances (last_audited g)) (not (r.body.seq == r.seq))
          (λ wrong. absurd (ground (arith, own, wrong)))
          (λ right.
            if_split (Advances (last_audited g)) g.log_failed
              (λ failed. absurd (ground (arith, ready, failed)))
              (λ works. (refl, (mark_advances r.seq (suc (length g.log)) g next, ready)))))

poll_on-audits :
    (rest : Gateway → Gateway) (a d : ℕ) (p : Bool × Gateway)
    → Advances a p
    → ((g : Gateway)
        → last_audited g ≡ suc a
        → g.log_failed ≡ false
        → last_audited (rest g) ≡ last_audited g + d)
    → last_audited (poll_on rest p) ≡ a + suc d
poll_on-audits rest a d (true, g) (on, (at, ready)) further =
    let then_on = further g at ready in omega (arith, then_on, at)
poll_on-audits rest a d (false, g) (on, still) further = cc

poll_queued-audits :
    (m d : ℕ) (queued : List OutboxRow) (g : Gateway)
    → All IsOwn queued
    → row_numbers queued ≡ up (last_audited g) d
    → d ≤ m
    → g.log_failed ≡ false
    → last_audited (poll_queued (good_rounds m) queued g) ≡ last_audited g + d
unfolding poll_queued good_rounds row_numbers up
poll_queued-audits zero zero queued g own q le ready = omega arith
poll_queued-audits zero (suc d) queued g own q le ready = absurd (omega (arith, le))
poll_queued-audits (suc m) zero [] g own q le ready = omega arith
poll_queued-audits (suc m) (suc d) [] g own q le ready = cc
poll_queued-audits (suc m) zero (r ∷ queued) g own q le ready = cc
poll_queued-audits (suc m) (suc d) (r ∷ queued) g own q le ready =
    let parts = cons-eq-cons.0 q in
    poll_on-audits (poll_queued (good_rounds m) queued) (last_audited g) d
      (poll_receipt (record { appending = kept; marked = true }) r g)
      (poll_receipt-Advances r g own.0 parts.0 ready)
      (λ g' at works.
        poll_queued-audits m d queued g' own.1 (parts.1 ∙ ap (λ a. up a d) (sym at))
          (omega (arith, le)) works)

poll-audits :
    (n k m : ℕ) (g : Gateway)
    → InOrder n k g
    → All IsOwn g.ledger.outbox
    → g.log_failed ≡ false
    → n ≤ last_audited g + m
    → last_audited (poll (good_rounds m) g) ≡ n
unfolding poll pending_receipts
poll-audits n k m g h own ready enough =
    poll_queued-audits m (n - last_audited g) (pending_receipts g.ledger) g
      (sort_queued-All (select (λ (r : OutboxRow). ltb (last_audited g) r.seq) g.ledger.outbox)
        (select-All (λ (r : OutboxRow). ltb (last_audited g) r.seq) g.ledger.outbox own))
      (pending-up (last_audited g) n g.ledger.outbox h.numbered) (omega (arith, enough)) ready
    ∙ omega (arith, last_audited-le n k g h, h.bounded)

-- If the last receipt is audited, all are logged.
all_logged : (n k : ℕ) (g : Gateway) → InOrder n k g → last_audited g ≡ n → k ≡ n
all_logged n k g h at = let le = last_audited-le n k g h in omega (arith, le, at, h.bounded)

-- A poll on a log that has not failed, with as many rounds of successful calls as receipts are pending,
-- ends with every receipt of the outbox in the log, and audited.
pub poll-delivers :
    (n k m : ℕ) (g : Gateway)
    → InOrder n k g
    → All IsOwn g.ledger.outbox
    → g.log_failed ≡ false
    → n ≤ last_audited g + m
    → (last_audited (poll (good_rounds m) g) ≡ n)
      × (logged_receipts (poll (good_rounds m) g).log ≡ down n)
poll-delivers n k m g h own ready enough =
    let after = poll-InOrder n k g h (good_rounds m) in
    let audited = poll-audits n k m g h own ready enough in
    (
      audited,
      after.1.logged ∙ ap down (all_logged n after.0 (poll (good_rounds m) g) after.1 audited),
    )
