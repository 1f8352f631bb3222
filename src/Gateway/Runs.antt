-- ===== src/Gateway/Runs.antt =====
-- Numbers of receipts in a row, in the outbox and in the log (`PendingReceipts` and
-- `MarkReceiptAudited` of internal/ledger/ledger.go).
use mathlib.Core.List.{cons-eq-cons}
use aim_data_gateway.Prelude.{
  ℕ, zero, suc, ◌+◌, ◌-◌, ◌≤◌, ◌<◌, max, ◌≡◌, refl, ap, ◌∙◌, Bool, false, List, [], ◌∷◌, length,
  map, arith, ltb, ltb→lt, leb, inl, inr, Bool-cases,
}
use aim_data_gateway.Prelude.Query.{select, update_where}
use aim_data_gateway.Ledger.State.{Db, OutboxRow}
use aim_data_gateway.Ledger.Receipt.{
  max_seq, max_audited, insert_queued, sort_queued, put_audited, mark_receipt_audited,
}
use aim_data_gateway.Gateway.{Logged, receipt, other}
use aim_data_gateway.Gateway.Poll.{mark_logged}

-- n, …, 2, 1
unfoldable pub down : ℕ → List ℕ
down zero = []
down (suc n) = suc n ∷ down n

-- The d numbers above a.
unfoldable pub up : ℕ → ℕ → List ℕ
up a zero = []
up a (suc d) = suc a ∷ up (suc a) d

unfoldable pub row_numbers : List OutboxRow → List ℕ
row_numbers [] = []
row_numbers (r ∷ rows) = r.seq ∷ row_numbers rows

-- The receipts of the log, the newest first.
unfoldable pub logged_receipts : List Logged → List ℕ
logged_receipts [] = []
logged_receipts (receipt seq ∷ older) = seq ∷ logged_receipts older
logged_receipts (other ∷ older) = logged_receipts older

leb_later : (m n : ℕ) → n < m → leb m n ≡ false
leb_later m n h = ground (arith, h)

ltb_not : (m n : ℕ) → n ≤ m → ltb m n ≡ false
ltb_not m n h = ground (arith, h)

not_ltb : (m n : ℕ) → ltb m n ≡ false → n ≤ m
not_ltb m n h = ground (arith, h)

insert_queued-up :
    (r : OutboxRow) (q : List OutboxRow) (a d : ℕ)
    → row_numbers q ≡ up a d
    → r.seq ≡ suc (a + d)
    → row_numbers (insert_queued r q) ≡ up a (suc d)
unfolding insert_queued row_numbers up
insert_queued-up r [] a zero h e = ap (λ n. n ∷ []) (e ∙ omega arith)
insert_queued-up r [] a (suc d) h e = cc
insert_queued-up r (x ∷ q) a zero h e = cc
insert_queued-up r (x ∷ q) a (suc d) h e =
    let parts = cons-eq-cons.0 h in
    rw (leb_later r.seq x.seq (omega (arith, parts.0, e))) (
      ap (λ n. n ∷ row_numbers (insert_queued r q)) parts.0
      ∙ ap (λ s. suc a ∷ s) (insert_queued-up r q (suc a) d parts.1 (e ∙ omega arith)))

select_none :
    (a n : ℕ) (rows : List OutboxRow)
    → row_numbers rows ≡ down n
    → n ≤ a
    → select (λ (r : OutboxRow). ltb a r.seq) rows ≡ []
unfolding select row_numbers down
select_none a zero [] h le = refl
select_none a (suc n) [] h le = refl
select_none a zero (r ∷ rows) h le = cc
select_none a (suc n) (r ∷ rows) h le =
    let parts = cons-eq-cons.0 h in
    rw (ltb_not a r.seq (omega (arith, parts.0, le)))
      (select_none a n rows parts.1 (omega (arith, le)))

-- What is pending above `a`, of an outbox with the numbers n, …, 1.
pub pending-up :
    (a n : ℕ) (rows : List OutboxRow)
    → row_numbers rows ≡ down n
    → row_numbers (sort_queued (select (λ (r : OutboxRow). ltb a r.seq) rows)) ≡ up a (n - a)
unfolding select sort_queued row_numbers down up
pending-up a zero [] h = ap (up a) (let none_left : 0 ≡ 0 - a = omega arith in none_left)
pending-up a (suc n) [] h = cc
pending-up a zero (r ∷ rows) h = cc
pending-up a (suc n) (r ∷ rows) h =
    let parts = cons-eq-cons.0 h in
    elim (Bool-cases (ltb a r.seq)) [
      | inl above ↦
          let le = ltb→lt a r.seq above in
          rw above (
            insert_queued-up r (sort_queued (select (λ (r : OutboxRow). ltb a r.seq) rows)) a
              (n - a) (pending-up a n rows parts.1) (parts.0 ∙ omega (arith, le, parts.0))
            ∙ ap (up a) (let step : suc (n - a) ≡ suc n - a = omega (arith, le, parts.0) in step))
      | inr below ↦
          let le = not_ltb a r.seq below in
          rw (below, select_none a n rows parts.1 (omega (arith, le, parts.0)))
            (ap (up a) (let gone : 0 ≡ suc n - a = omega (arith, le, parts.0) in gone))
    ]

pub max_seq-down : (n : ℕ) (rows : List OutboxRow) → row_numbers rows ≡ down n → max_seq rows ≡ n
unfolding max_seq row_numbers down
max_seq-down zero [] h = refl
max_seq-down (suc n) [] h = cc
max_seq-down zero (r ∷ rows) h = cc
max_seq-down (suc n) (r ∷ rows) h =
    let parts = cons-eq-cons.0 h in
    let rest = max_seq-down n rows parts.1 in omega (arith, parts.0, rest)

pub max_audited-put_audited :
    (seq audit_seq : ℕ) (rows : List (ℕ × ℕ))
    → max_audited (put_audited seq audit_seq rows) ≡ max seq (max_audited rows)
unfolding max_audited put_audited
max_audited-put_audited seq audit_seq [] = omega arith
max_audited-put_audited seq audit_seq ((s, a) ∷ rows) =
    let rest = max_audited-put_audited seq audit_seq rows in ground (arith, rest)

-- Walking a log with the receipts k, …, 1 marks them all.
pub max_audited-mark_logged :
    (log : List Logged) (k : ℕ) (db : Db)
    → logged_receipts log ≡ down k
    → max_audited (mark_logged log db).audited ≡ max k (max_audited db.audited)
unfolding logged_receipts down mark_logged mark_receipt_audited
max_audited-mark_logged [] zero db h = omega arith
max_audited-mark_logged [] (suc k) db h = cc
max_audited-mark_logged (other ∷ older) k db h = max_audited-mark_logged older k db h
max_audited-mark_logged (receipt seq ∷ older) zero db h = cc
max_audited-mark_logged (receipt seq ∷ older) (suc k) db h =
    let parts = cons-eq-cons.0 h in
    let rest = max_audited-mark_logged older k db parts.1 in
    let here = max_audited-put_audited seq (suc (length older)) (mark_logged older db).audited in
    omega (arith, parts.0, rest, here)

pub outbox-mark_logged : (log : List Logged) (db : Db) → (mark_logged log db).outbox ≡ db.outbox
unfolding mark_logged mark_receipt_audited
outbox-mark_logged [] db = refl
outbox-mark_logged (other ∷ older) db = outbox-mark_logged older db
outbox-mark_logged (receipt seq ∷ older) db = outbox-mark_logged older db

-- Deliveries do not number anew.
pub row_numbers-map :
    (f : OutboxRow → OutboxRow) (rows : List OutboxRow)
    → ((r : OutboxRow) → (f r).seq ≡ r.seq)
    → row_numbers (map f rows) ≡ row_numbers rows
unfolding row_numbers
row_numbers-map f [] h = refl
row_numbers-map f (r ∷ rows) h =
    ap (λ n. n ∷ row_numbers (map f rows)) (h r) ∙ ap (λ s. r.seq ∷ s) (row_numbers-map f rows h)

pub row_numbers-update_where :
    (test : OutboxRow → Bool) (f : OutboxRow → OutboxRow) (rows : List OutboxRow)
    → ((r : OutboxRow) → (f r).seq ≡ r.seq)
    → row_numbers (update_where test f rows) ≡ row_numbers rows
unfolding row_numbers update_where
row_numbers-update_where test f [] h = refl
row_numbers-update_where test f (r ∷ rows) h = elim (Bool-cases (test r)) [
  | inl hit ↦ rw hit (
      ap (λ n. n ∷ row_numbers (update_where test f rows)) (h r)
      ∙ ap (λ s. r.seq ∷ s) (row_numbers-update_where test f rows h))
  | inr miss ↦ rw miss (ap (λ s. r.seq ∷ s) (row_numbers-update_where test f rows h))
]
