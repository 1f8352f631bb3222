-- ===== src/Ledger/Accounts/Emptying.antt =====
-- The books over `FinishEmpty` and the control operations (internal/ledger/ledger.go).
use aim_data_gateway.Prelude.{
  ℕ, ◌≡◌, refl, subst, ◌∙◌, Bool, true, false, Option, none, some, List, arith, inl, inr,
  Option-cases,
}
use aim_data_gateway.Prelude.Result.{ok, >>=-eq-ok, tx_inv, done, Error, refuse_if, constraint}
use aim_data_gateway.Ledger.State.{Permission, PermissionRow, Outcome, Db, find_permission}
use aim_data_gateway.Ledger.Reserve.{bind_permission}
use aim_data_gateway.Ledger.Reserve.Effect.{Keeps-bind_permission}
use aim_data_gateway.Ledger.Settle.{
  close_permissions, find_exact, insert_missing, jti_conflict, finish_empty_guard, finish_empty_db,
  finish_empty_apply, finish_empty_tx, finish_empty,
}
use aim_data_gateway.Ledger.Control.{revoke_tx, revoke_instruction, answer_of}
use aim_data_gateway.Ledger.Accounts.{IsBalanced}
use aim_data_gateway.Ledger.Accounts.Rows.{Keeps, Keeps-refl, Keeps-update_where, Balanced-Keeps}
use aim_data_gateway.Ledger.Accounts.Steps.{queue_tx-SameBooks}
use aim_data_gateway.Ledger.Accounts.Settling.{Keeps-close_permissions}
use aim_data_gateway.Ledger.Accounts.Progressing.{committed-IsBalanced}

-- Without a conflict the insertion of a missing permission keeps all rows.
Keeps-insert_missing :
    (db : Db) (p : Permission) (stamp : ℕ) (row : Option PermissionRow)
    → jti_conflict row (find_permission db p.jti) ≡ false
    → Keeps db.permissions (insert_missing db.permissions row p stamp)
Keeps-insert_missing db p stamp (some q) h = Keeps-refl db.permissions
Keeps-insert_missing db p stamp none h = elim (Option-cases (find_permission db p.jti)) [
  | inl absent ↦
      subst (λ o. Keeps db.permissions (bind_permission db.permissions o p stamp)) absent
        (Keeps-bind_permission db.permissions p stamp)
  | inr (q, found) ↦ absurd (ground arith)
]

refuse_if-passed : (b : Bool) (e : Error) → refuse_if b e ≡ ok tt → b ≡ false
refuse_if-passed true e h = cc
refuse_if-passed false e h = refl

Keeps-trans : (ps qs rs : List PermissionRow) → Keeps ps qs → Keeps qs rs → Keeps ps rs
Keeps-trans ps qs rs h k j p found =
    let (q, fq, eo, ef) = h j p found in
    let (r, fr, eo', ef') = k j q fq in (r, fr, eo' ∙ eo, ef' ∙ ef)

finish_empty_apply-IsBalanced :
    (db : Db) (p : Permission) (key_ok : Bool) (stamp : ℕ) (db' : Db)
    → IsBalanced db
    → jti_conflict (find_exact db p) (find_permission db p.jti) ≡ false
    → finish_empty_apply db p key_ok stamp ≡ done db'
    → IsBalanced db'
unfolding finish_empty_apply
finish_empty_apply-IsBalanced db p key_ok stamp db' books no_conflict h =
    let row = find_exact db p in
    let ps = insert_missing db.permissions row p stamp in
    let qs = close_permissions stamp p.order_id p.file_id ps in
    committed-IsBalanced _ (finish_empty_db db p stamp) db'
      (queue_tx-SameBooks key_ok stamp p.order_id p.file_id Outcome.complete true
        (finish_empty_db db p stamp))
      (Balanced-Keeps db.permissions qs db.serves db.transmitted db.requests
        (Keeps-trans db.permissions ps qs (Keeps-insert_missing db p stamp row no_conflict)
          (Keeps-close_permissions stamp p.order_id p.file_id ps))
        books)
      h

finish_empty_tx-IsBalanced :
    (db : Db) (p : Permission) (key_ok : Bool) (now stamp : ℕ) (db' : Db)
    → IsBalanced db
    → finish_empty_tx db p key_ok now stamp ≡ done db'
    → IsBalanced db'
unfolding finish_empty_tx
finish_empty_tx-IsBalanced db p key_ok now stamp db' books h =
    let conflict = jti_conflict (find_exact db p) (find_permission db p.jti) in
    let (u, h0, r) = >>=-eq-ok (finish_empty_guard db p now) _ h in
    let (v, h1, r') = >>=-eq-ok (refuse_if conflict constraint) _ r in
    finish_empty_apply-IsBalanced db p key_ok stamp db' books
      (refuse_if-passed conflict constraint h1) r'

-- Whatever `FinishEmpty` answers, the books balance after it.
pub finish_empty-IsBalanced :
    (db : Db) (p : Permission) (key_ok : Bool) (now stamp : ℕ)
    → IsBalanced db
    → IsBalanced (finish_empty db p key_ok now stamp).1
unfolding finish_empty
finish_empty-IsBalanced db p key_ok now stamp books =
    tx_inv IsBalanced db _ books
      (λ u db' h. finish_empty_tx-IsBalanced db p key_ok now stamp db' books h)

pub revoke_tx-IsBalanced :
    (db : Db) (jti now : ℕ) → IsBalanced db → IsBalanced (revoke_tx db jti now).1
unfolding revoke_tx
revoke_tx-IsBalanced db jti now books =
    Balanced-Keeps db.permissions _ db.serves db.transmitted db.requests
      (Keeps-update_where _ _ (λ p. (refl, refl, refl)) db.permissions) books

pub revoke_instruction-IsBalanced :
    (db : Db) (iid jti now : ℕ) → IsBalanced db → IsBalanced (revoke_instruction db iid jti now).1
unfolding revoke_instruction
revoke_instruction-IsBalanced db iid jti now books = elim (Option-cases (answer_of db iid)) [
  | inl new ↦ rw (new, revoke_instruction) (revoke_tx-IsBalanced db jti now books)
  | inr (a, old) ↦ rw (old, revoke_instruction) books
]
