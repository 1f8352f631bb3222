-- ===== src/Gateway/Delivery.antt =====
-- Receipts between the ledger and the audit log: `Poll` and `Open` of internal/gateway/gateway.go, over
-- all rounds and restarts.
use mathlib.Core.List.{cons-eq-cons}
use aim_data_gateway.Prelude.{
  ℕ, zero, suc, ◌+◌, ◌-◌, ◌≤◌, ◌≡◌, refl, sym, ap, ◌∙◌, ◌⊎◌, Bool, true, false, not, List, [], ◌∷◌,
  length, arith, ◌==◌, if◌then◌else◌, inl, inr, ==_iff,
}
use aim_data_gateway.Ledger.State.{OutboxRow}
use aim_data_gateway.Ledger.Receipt.{max_audited, pending_receipts, mark_receipt_audited}
use aim_data_gateway.Gateway.{Gateway, receipt, Appending, kept, refused, lost, found, Round}
use aim_data_gateway.Gateway.Poll.{
  mark, append_receipt, mark_unmarked, poll_receipt, poll_on, poll_queued, poll, open_gateway,
}
use aim_data_gateway.Gateway.Runs.{
  down, up, row_numbers, logged_receipts, pending-up, max_audited-put_audited,
  max_audited-mark_logged, outbox-mark_logged,
}

-- The last receipt that the ledger has as audited.
abbrev pub last_audited : Gateway → ℕ
last_audited g = max_audited g.ledger.audited

-- The ledger has the logged receipts as audited, up to k; or all but the last, which is remembered as
-- unmarked, or which a failed log has in its files.
abbrev pub Linked : ℕ → Gateway → Type 0
Linked k g =
    ((last_audited g ≡ k) × (g.unmarked_receipt ≡ 0))
    ⊎ ((suc (last_audited g) ≡ k)
        × ((g.unmarked_receipt ≡ k) ⊎ ((g.unmarked_receipt ≡ 0) × (g.log_failed ≡ true))))

-- The outbox numbers receipts to n, and the log holds the first k of them, each once and in order.
pub record InOrder (n k : ℕ) (g : Gateway) : Type 0 where
  pub numbered : row_numbers g.ledger.outbox ≡ down n
  pub logged : logged_receipts g.log ≡ down k
  pub bounded : k ≤ n
  pub linked : Linked k g

-- After a round of `Poll` at the receipt behind `a`.
abbrev Went : Bool → ℕ → Gateway → Type 0
Went true a g = last_audited g ≡ suc a
Went false a g = Unit

abbrev Polled : ℕ → ℕ → Bool × Gateway → Type 0
Polled n a (on, g) = (k : ℕ) × InOrder n k g × Went on a g

stopped : (n k a : ℕ) (g : Gateway) → InOrder n k g → Polled n a (false, g)
stopped n k a g h = (k, h, tt)

module _ (n k : ℕ) (g : Gateway) (h : InOrder n k g) (seq : ℕ)
    (next : seq ≡ suc (last_audited g)) where
  last_audited-mark : (audit_seq : ℕ) → last_audited (mark seq audit_seq g) ≡ seq
  unfolding mark_receipt_audited
  last_audited-mark audit_seq =
      let put = max_audited-put_audited seq audit_seq g.ledger.audited in omega (arith, next, put)

  -- The receipt that is remembered is the next one.
  remembered : (g.unmarked_receipt == seq) ≡ true → k ≡ seq
  remembered e = elim h.linked [
    | inl done ↦
        let at = (==_iff g.unmarked_receipt seq).0 e in absurd (omega (arith, at, next, done.1))
    | inr behind ↦ sym behind.0 ∙ sym next
  ]

  mark_unmarked-Polled :
      (marked : Bool)
      → (g.unmarked_receipt == seq) ≡ true
      → Polled n (last_audited g) (mark_unmarked marked seq g)
  unfolding mark_receipt_audited
  mark_unmarked-Polled true e = (
    k,
    record {
      numbered = h.numbered;
      logged = h.logged;
      bounded = h.bounded;
      linked = inl (last_audited-mark g.unmarked_audit ∙ sym (remembered e), refl);
    },
    last_audited-mark g.unmarked_audit ∙ next,
  )
  mark_unmarked-Polled false e = stopped n k (last_audited g) g h

  -- Otherwise nothing is remembered, if the log has not failed.
  nothing_remembered :
      (g.unmarked_receipt == seq) ≡ false
      → g.log_failed ≡ false
      → (last_audited g ≡ k) × (g.unmarked_receipt ≡ 0)
  nothing_remembered e f = elim h.linked [
    | inl done ↦ done
    | inr behind ↦ elim behind.1 [
      | inl same ↦ absurd (let differs = e in ground (arith, differs, same, behind.0, next))
      | inr failing ↦ absurd (let bad = failing.1 in ground (arith, bad, f))
    ]
  ]

  logged_next :
      (last_audited g ≡ k) × (g.unmarked_receipt ≡ 0)
      → logged_receipts (receipt seq ∷ g.log) ≡ down (suc k)
  unfolding logged_receipts down
  logged_next done =
      ap (λ s. seq ∷ s) h.logged
      ∙ ap (λ i. i ∷ down k) (let at : seq ≡ suc k = omega (arith, next, done.0) in at)

  append_receipt-Polled :
      (appending : Appending) (marked : Bool)
      → seq ≤ n
      → (last_audited g ≡ k) × (g.unmarked_receipt ≡ 0)
      → Polled n (last_audited g) (append_receipt appending marked seq g)
  unfolding mark_receipt_audited
  append_receipt-Polled kept true le done =
      let marked = last_audited-mark (suc (length g.log)) in
      (
        suc k,
        record {
          numbered = h.numbered;
          logged = logged_next done;
          bounded = omega (arith, le, next, done.0);
          linked = inl (omega (arith, marked, next, done.0), refl);
        },
        marked ∙ next,
      )
  append_receipt-Polled kept false le done = (
    suc k,
    record {
      numbered = h.numbered;
      logged = logged_next done;
      bounded = omega (arith, le, next, done.0);
      linked = inr (omega (arith, done.0), inl (omega (arith, next, done.0)));
    },
    tt,
  )
  append_receipt-Polled refused marked le done = stopped n k (last_audited g) g h
  append_receipt-Polled lost marked le done = (
    k,
    record { numbered = h.numbered; logged = h.logged; bounded = h.bounded; linked = inl done },
    tt,
  )
  append_receipt-Polled found marked le done = (
    suc k,
    record {
      numbered = h.numbered;
      logged = logged_next done;
      bounded = omega (arith, le, next, done.0);
      linked = inr (omega (arith, done.0), inr (done.1, refl));
    },
    tt,
  )

-- What holds of each branch under its test holds of the conditional.
pub if_split {ℓ κ} :
    {A : Type ℓ} (P : A → Type κ) (test : Bool) {x y : A}
    → (test ≡ true → P x)
    → (test ≡ false → P y)
    → P (if test then x else y)
if_split P true p q = p refl
if_split P false p q = q refl

poll_receipt-Polled :
    (n k : ℕ) (g : Gateway) (round : Round) (r : OutboxRow)
    → InOrder n k g
    → r.seq ≡ suc (last_audited g)
    → r.seq ≤ n
    → Polled n (last_audited g) (poll_receipt round r g)
unfolding poll_receipt
poll_receipt-Polled n k g round r h next le =
    let stop = stopped n k (last_audited g) g h in
    if_split (Polled n (last_audited g)) (g.unmarked_receipt == r.seq)
      (mark_unmarked-Polled n k g h r.seq next round.marked)
      (λ e.
        if_split (Polled n (last_audited g)) (not (r.body.seq == r.seq)) (λ own. stop)
          (λ own.
            if_split (Polled n (last_audited g)) g.log_failed (λ f. stop)
              (λ f.
                append_receipt-Polled n k g h r.seq next round.appending round.marked le
                  (nothing_remembered n k g h r.seq next e f))))

poll_on-InOrder :
    (n a : ℕ) (rest : Gateway → Gateway) (p : Bool × Gateway)
    → Polled n a p
    → ((j : ℕ) (g : Gateway)
        → InOrder n j g
        → last_audited g ≡ suc a
        → (k : ℕ) × InOrder n k (rest g))
    → (k : ℕ) × InOrder n k (poll_on rest p)
poll_on-InOrder n a rest (true, g) (k, h, went) next = next k g h went
poll_on-InOrder n a rest (false, g) (k, h, went) next = (k, h)

-- The loop of `Poll`, at the receipts behind the last audited one.
poll_queued-InOrder :
    (rounds : List Round) (queued : List OutboxRow) (n k d : ℕ) (g : Gateway)
    → InOrder n k g
    → row_numbers queued ≡ up (last_audited g) d
    → last_audited g + d ≤ n
    → (j : ℕ) × InOrder n j (poll_queued rounds queued g)
unfolding poll_queued row_numbers up
poll_queued-InOrder [] queued n k d g h q le = (k, h)
poll_queued-InOrder (round ∷ rounds) [] n k d g h q le = (k, h)
poll_queued-InOrder (round ∷ rounds) (r ∷ queued) n k zero g h q le = cc
poll_queued-InOrder (round ∷ rounds) (r ∷ queued) n k (suc d) g h q le =
    let parts = cons-eq-cons.0 q in
    poll_on-InOrder n (last_audited g) (poll_queued rounds queued) (poll_receipt round r g)
      (poll_receipt-Polled n k g round r h parts.0 (omega (arith, parts.0, le)))
      (λ j g' order went.
        poll_queued-InOrder rounds queued n j d g' order (parts.1 ∙ ap (λ a. up a d) (sym went))
          (omega (arith, went, le)))

module _ (n k : ℕ) (g : Gateway) (h : InOrder n k g) where
  pub last_audited-le : last_audited g ≤ k
  last_audited-le = elim h.linked [
    | inl done ↦ omega (arith, done.0)
    | inr behind ↦ omega (arith, behind.0)
  ]

  pub poll-InOrder : (rounds : List Round) → (j : ℕ) × InOrder n j (poll rounds g)
  unfolding poll pending_receipts
  poll-InOrder rounds =
      poll_queued-InOrder rounds (pending_receipts g.ledger) n k (n - last_audited g) g h
        (pending-up (last_audited g) n g.ledger.outbox h.numbered)
        (omega (arith, last_audited-le, h.bounded))

  -- Whenever the gateway is opened again, the ledger catches up with the log.
  pub open_gateway-InOrder : InOrder n k (open_gateway g.log g.ledger)
  unfolding open_gateway
  open_gateway-InOrder = record {
    numbered = ap row_numbers (outbox-mark_logged g.log g.ledger) ∙ h.numbered;
    logged = h.logged;
    bounded = h.bounded;
    linked = inl (
      let walked = max_audited-mark_logged g.log k g.ledger h.logged in
          omega (arith, walked, last_audited-le),
      refl,
    );
  }
