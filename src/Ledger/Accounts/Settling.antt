-- ===== src/Ledger/Accounts/Settling.antt =====
-- The books over `settle` and `Recover` (internal/ledger/ledger.go).
use aim_data_gateway.Prelude.{
  ℕ, max, ◌+◌, ◌-◌, ◌≤◌, ◌≡◌, refl, subst, Bool, true, false, not, ◌&&◌, ◌||◌, List, [], ◌∷◌, arith,
  ◌==◌, if◌then◌else◌, inl, inr, Bool-cases,
}
use aim_data_gateway.Prelude.Int.{negsuc}
use aim_data_gateway.Prelude.Query.{update_where}
use aim_data_gateway.Prelude.Result.{ok, >>=-eq-ok, tx_inv, done, no_rows, or_err}
use aim_data_gateway.Segment.{covered}
use aim_data_gateway.Ledger.State.{
  PermissionRow, RequestRow, Outcome, Db, find_file, find_request, owner, segments,
}
use aim_data_gateway.Ledger.Receipt.{queue_tx}
use aim_data_gateway.Ledger.Settle.{
  close_permissions, with_id, set_closed, kept, outcome_is_set, open_ids, settle_finish,
  settle_open, settle_tx, settle_outcome, recover_request, recover_ids, recover,
}
use aim_data_gateway.Ledger.Tables.{shift, rewrite-transform}
use aim_data_gateway.Ledger.Accounts.{IsBalanced, IsWithin}
use aim_data_gateway.Ledger.Accounts.Rows.{
  Keeps, Keeps-refl, Keeps-update_where, Balanced-Keeps, All-find,
}
use aim_data_gateway.Ledger.Accounts.Closing.{Balanced-close}
use aim_data_gateway.Ledger.Accounts.Steps.{SameBooks, queue_tx-SameBooks}
use aim_data_gateway.Ledger.Accounts.Progressing.{
  Found, Found-by_own_id, or_err-eq-ok, done-injective, committed-IsBalanced,
}

pub Keeps-close_permissions :
    (stamp oid fid : ℕ) (ps : List PermissionRow) → Keeps ps (close_permissions stamp oid fid ps)
unfolding close_permissions
Keeps-close_permissions stamp oid fid ps = Keeps-update_where _ _ (λ p. (refl, refl, refl)) ps

-- The permissions of a completed transfer are closed, or all stay.
Keeps-if_complete :
    (complete : Bool) (stamp oid fid : ℕ) (ps : List PermissionRow)
    → Keeps ps (if complete then close_permissions stamp oid fid ps else ps)
Keeps-if_complete true stamp oid fid ps = Keeps-close_permissions stamp oid fid ps
Keeps-if_complete false stamp oid fid ps = Keeps-refl ps

queued_if-SameBooks :
    (b : Bool) (key_ok : Bool) (stamp oid fid : ℕ) (o : Outcome) (complete : Bool) (db db' : Db)
    → (if b then queue_tx key_ok stamp oid fid o complete db else ok db) ≡ ok db'
    → SameBooks db db'
queued_if-SameBooks true key_ok stamp oid fid o complete db db' h =
    queue_tx-SameBooks key_ok stamp oid fid o complete db db' h
queued_if-SameBooks false key_ok stamp oid fid o complete db db' h = ground arith

settle_finish-IsBalanced :
    (db : Db) (key_ok : Bool) (stamp : ℕ) (p : PermissionRow) (crash : Bool) (o : Outcome)
    (db' : Db)
    → IsBalanced db
    → settle_finish db key_ok stamp p crash o ≡ done db'
    → IsBalanced db'
unfolding settle_finish
settle_finish-IsBalanced db key_ok stamp p crash o db' books h =
    let (f, got, rest) = >>=-eq-ok (or_err (find_file db p.fid) no_rows) _ h in
    let complete = f.size == 0 || covered (segments db.transmitted p.oid p.fid) 0 (f.size - 1) in
    let closed_db : Db = record db {
      permissions =
          if complete then close_permissions stamp p.oid p.fid db.permissions else db.permissions;
    } in
    committed-IsBalanced _ closed_db db'
      (queued_if-SameBooks (complete || (not crash && outcome_is_set o)) key_ok stamp p.oid p.fid o
        complete closed_db)
      (Balanced-Keeps db.permissions _ db.serves db.transmitted db.requests
        (Keeps-if_complete complete stamp p.oid p.fid db.permissions) books)
      rest

kept-ge : (crash : Bool) (r : RequestRow) → r.next ≤ r.end + 1 → r.next ≤ kept crash r
kept-ge true r h = omega arith
kept-ge false r h = omega arith

settle_open-IsBalanced :
    (db : Db) (key_ok : Bool) (stamp id : ℕ) (r : RequestRow) (p : PermissionRow) (crash : Bool)
    (o : Outcome) (db' : Db)
    → IsBalanced db
    → Found db id r p
    → r.is_open ≡ true
    → settle_open db key_ok stamp r p crash o ≡ done db'
    → IsBalanced db'
unfolding settle_open segments
settle_open-IsBalanced db key_ok stamp id r p crash o db' books found opened h =
    let lo = max r.start (kept crash r) in
    let mine = Found-by_own_id db id r p found in
    let w = All-find IsWithin (with_id r.id) db.requests r mine books.within in
    settle_finish-IsBalanced
      (record db {
        serves = shift db.serves p.oid p.fid lo r.end (negsuc 0);
        requests = update_where (with_id r.id) set_closed db.requests;
      })
      key_ok stamp p crash o db'
      (Balanced-close db.permissions db.permissions db.serves db.transmitted db.requests books
        (Keeps-refl db.permissions) r p lo mine found.permission opened (omega arith)
        (omega (arith, kept-ge crash r w.1)))
      (rw
        (rewrite-transform db.serves p.oid p.fid lo r.end (negsuc 0)
          (books.serves_runs p.oid p.fid))
        at h)

pub settle_tx-IsBalanced :
    (db : Db) (key_ok : Bool) (stamp id : ℕ) (crash : Bool) (o : Outcome) (db' : Db)
    → IsBalanced db
    → settle_tx db key_ok stamp id crash o ≡ done db'
    → IsBalanced db'
unfolding settle_tx
settle_tx-IsBalanced db key_ok stamp id crash o db' books h =
    let (r, got, rest) = >>=-eq-ok (or_err (find_request db id) no_rows) _ h in
    let (p, owned, rest') = >>=-eq-ok (or_err (owner db r) no_rows) _ rest in
    let found : Found db id r p = record {
      request = or_err-eq-ok _ r got;
      permission = or_err-eq-ok _ p owned;
    } in
    elim (Bool-cases r.is_open) [
      | inl e ↦
          settle_open-IsBalanced db key_ok stamp id r p crash o db' books found e (rw e at rest')
      | inr e ↦ subst IsBalanced (done-injective (rw e at rest')) books
    ]

recover_ids-IsBalanced :
    (ids : List ℕ) (db : Db) (key_ok : Bool) (stamp : ℕ) (db' : Db)
    → IsBalanced db
    → recover_ids db key_ok stamp ids ≡ done db'
    → IsBalanced db'
unfolding recover_ids
recover_ids-IsBalanced [] db key_ok stamp db' books h = subst IsBalanced (done-injective h) books
recover_ids-IsBalanced (id ∷ ids) db key_ok stamp db' books h =
    let ((u, db1), first, rest) = >>=-eq-ok (settle_tx db key_ok stamp id true Outcome.unset) _ h in
    recover_ids-IsBalanced ids db1 key_ok stamp db'
      (settle_tx-IsBalanced db key_ok stamp id true Outcome.unset db1 books first) rest

-- Whatever `SettleOutcome` answers, the books balance after it.
pub settle_outcome-IsBalanced :
    (db : Db) (key_ok : Bool) (stamp id : ℕ) (o : Outcome)
    → IsBalanced db
    → IsBalanced (settle_outcome db key_ok stamp id o).1
unfolding settle_outcome
settle_outcome-IsBalanced db key_ok stamp id o books =
    tx_inv IsBalanced db _ books
      (λ u db' h. settle_tx-IsBalanced db key_ok stamp id false o db' books h)

-- Whatever `RecoverRequest` answers, the books balance after it.
pub recover_request-IsBalanced :
    (db : Db) (key_ok : Bool) (stamp id : ℕ)
    → IsBalanced db
    → IsBalanced (recover_request db key_ok stamp id).1
unfolding recover_request
recover_request-IsBalanced db key_ok stamp id books =
    tx_inv IsBalanced db _ books
      (λ u db' h. settle_tx-IsBalanced db key_ok stamp id true Outcome.unset db' books h)

-- Whatever `Recover` answers, the books balance after it.
pub recover-IsBalanced :
    (db : Db) (key_ok : Bool) (stamp : ℕ) → IsBalanced db → IsBalanced (recover db key_ok stamp).1
unfolding recover
recover-IsBalanced db key_ok stamp books =
    tx_inv IsBalanced db _ books
      (λ u db' h. recover_ids-IsBalanced (open_ids db) db key_ok stamp db' books h)
