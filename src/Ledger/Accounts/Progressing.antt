-- ===== src/Ledger/Accounts/Progressing.antt =====
-- The books over `Progress` (internal/ledger/ledger.go).
use aim_data_gateway.Prelude.{
  ℕ, ◌+◌, ◌-◌, ◌≤◌, ◌<◌, ◌≡◌, refl, sym, subst, ◌∙◌, Bool, true, false, not, ◌||◌, Option, none,
  some, arith, ltb, ltb→lt, inl, inr, Bool-cases,
}
use aim_data_gateway.Prelude.Query.{find, update_where}
use aim_data_gateway.Prelude.Result.{
  Result, ok, err, >>=-eq-ok, ◌>>=◌, tx_inv, done, refuse_if, invalid_progress, no_rows, or_err,
}
use aim_data_gateway.Segment.{mark}
use aim_data_gateway.Segment.Normalize.{mark-IsRuns, mark-AllOnes}
use aim_data_gateway.Ledger.State.{
  PermissionRow, RequestRow, Outcome, Db, find_request, owner, segments, put_table,
}
use aim_data_gateway.Ledger.Receipt.{queue_tx}
use aim_data_gateway.Ledger.Settle.{
  with_id, set_next, progress_mark, progress_apply, progress_tx, progress,
}
use aim_data_gateway.Ledger.Tables.{rewrite_transmitted-IsRuns}
use aim_data_gateway.Ledger.Accounts.{IsBalanced}
use aim_data_gateway.Ledger.Accounts.Tally.{find-id}
use aim_data_gateway.Ledger.Accounts.Writing.{Balanced-stay, Balanced-write}
use aim_data_gateway.Ledger.Accounts.Steps.{SameBooks, SameBooks-IsBalanced, queue_tx-SameBooks}

-- A request that is found, with its permission.
pub record Found (db : Db) (id : ℕ) (r : RequestRow) (p : PermissionRow) : Type 0 where
  pub request : find_request db id ≡ some r
  pub permission : owner db r ≡ some p

pub Found-by_own_id :
    (db : Db) (id : ℕ) (r : RequestRow) (p : PermissionRow)
    → Found db id r p
    → find (with_id r.id) db.requests ≡ some r
Found-by_own_id db id r p h =
    subst (λ k. find (with_id k) db.requests ≡ some r) (sym (find-id id db.requests r h.request))
      h.request

pub or_err-eq-ok {ℓ} : {A : Type ℓ} (o : Option A) (a : A) → or_err o no_rows ≡ ok a → o ≡ some a
or_err-eq-ok none a h = cc
or_err-eq-ok (some b) a h = cc

pub done-injective : {a b : Db} → done a ≡ done b → a ≡ b
done-injective e = ground arith

progress_checks :
    (r : RequestRow) (n : ℕ)
    → refuse_if (not r.is_open || ltb n r.next || ltb (r.end + 1) n) invalid_progress ≡ ok tt
    → (r.is_open ≡ true) × (r.next ≤ n) × (n ≤ r.end + 1)
progress_checks r n h = ground arith

-- What is queued and committed last keeps the books of the state that it is queued in.
pub committed-IsBalanced :
    (m : Result Db) (db db' : Db)
    → ((db'' : Db) → m ≡ ok db'' → SameBooks db db'')
    → IsBalanced db
    → (m >>= done) ≡ done db'
    → IsBalanced db'
committed-IsBalanced (ok d) db db' same books h =
    subst IsBalanced (done-injective h) (SameBooks-IsBalanced db d (same d refl) books)
committed-IsBalanced (err e) db db' same books h = absurd (ground arith)

module _ (db : Db) (key_ok : Bool) (stamp id : ℕ) (r : RequestRow) (p : PermissionRow) (n : ℕ)
    (db' : Db) (books : IsBalanced db) (found : Found db id r p) (opened : r.is_open ≡ true) where
  -- The state in which `Progress` queues its receipt.
  abbrev marked_db : Db
  marked_db = record db {
    transmitted =
        put_table db.transmitted p.oid p.fid (mark (db.transmitted p.oid p.fid) r.next (n - 1));
    requests = update_where (with_id r.id) (set_next n) db.requests;
  }

  progress_mark_lem :
      progress_mark db key_ok stamp r p n
      ≡ (queue_tx key_ok stamp p.oid p.fid Outcome.in_progress false marked_db >>= done)
  unfolding progress_mark segments
  progress_mark_lem =
      let runs = books.transmitted_runs p.oid p.fid in
      rw (
        rewrite_transmitted-IsRuns db.transmitted p.oid p.fid _ (mark-IsRuns _ r.next (n - 1) runs)
          (mark-AllOnes _ r.next (n - 1) runs))

  progress_mark-IsBalanced :
      r.next < n → n ≤ r.end + 1 → progress_mark db key_ok stamp r p n ≡ done db' → IsBalanced db'
  progress_mark-IsBalanced less inside h =
      committed-IsBalanced _ marked_db db'
        (queue_tx-SameBooks key_ok stamp p.oid p.fid Outcome.in_progress false marked_db)
        (Balanced-write db.permissions db.serves db.transmitted db.requests books r p n
          (Found-by_own_id db id r p found) found.permission opened (omega arith) inside less)
        (sym progress_mark_lem ∙ h)

  progress_apply-IsBalanced :
      r.next ≤ n → n ≤ r.end + 1 → progress_apply db key_ok stamp r p n ≡ done db' → IsBalanced db'
  unfolding progress_apply
  progress_apply-IsBalanced forward inside h = elim (Bool-cases (ltb r.next n)) [
    | inl e ↦ progress_mark-IsBalanced (ltb→lt r.next n e) inside (rw e at h)
    | inr e ↦ subst IsBalanced (done-injective (rw e at h)) (
        Balanced-stay db.permissions db.serves db.transmitted db.requests books r p n
          (Found-by_own_id db id r p found) found.permission opened forward inside (ground arith))
  ]

progress_tx-IsBalanced :
    (db : Db) (key_ok : Bool) (stamp id n : ℕ) (db' : Db)
    → IsBalanced db
    → progress_tx db key_ok stamp id n ≡ done db'
    → IsBalanced db'
unfolding progress_tx
progress_tx-IsBalanced db key_ok stamp id n db' books h =
    let (r, got, rest) = >>=-eq-ok (or_err (find_request db id) no_rows) _ h in
    let (p, owned, rest') = >>=-eq-ok (or_err (owner db r) no_rows) _ rest in
    let (u, passed, applied) = >>=-eq-ok (refuse_if _ invalid_progress) _ rest' in
    let found : Found db id r p = record {
      request = or_err-eq-ok _ r got;
      permission = or_err-eq-ok _ p owned;
    } in
    let checked = progress_checks r n passed in
    progress_apply-IsBalanced db key_ok stamp id r p n db' books found checked.0 checked.1 checked.2
      applied

-- Whatever `Progress` answers, the books balance after it.
pub progress-IsBalanced :
    (db : Db) (key_ok : Bool) (stamp id n : ℕ)
    → IsBalanced db
    → IsBalanced (progress db key_ok stamp id n).1
unfolding progress
progress-IsBalanced db key_ok stamp id n books =
    tx_inv IsBalanced db (progress_tx db key_ok stamp id n) books
      (λ u db' h. progress_tx-IsBalanced db key_ok stamp id n db' books h)
