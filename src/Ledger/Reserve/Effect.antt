-- ===== src/Ledger/Reserve/Effect.antt =====
-- What `Reserve` has checked and written when it succeeds.
use aim_data_gateway.Prelude.{
  ℕ, suc, ◌≤◌, ◌≡◌, refl, Bool, true, false, Option, none, some, List, [], ◌∷◌, arith, ◌==◌,
  if◌then◌else◌, inl, inr, Bool-cases, Option-cases,
}
use aim_data_gateway.Prelude.Int.{ℤ, pos, pos_part}
use aim_data_gateway.Prelude.Query.{find, update_where}
use aim_data_gateway.Prelude.Result.{ok, >>=-eq-ok}
use aim_data_gateway.Segment.Runs.{IsRuns}
use aim_data_gateway.Ledger.State.{
  Permission, PermissionState, is_bound, is_live, PermissionRow, RequestRow, Db, find_permission,
  max_id, segments,
}
use aim_data_gateway.Ledger.Tables.{shift, rewrite-transform}
use aim_data_gateway.Ledger.Accounts.Rows.{Keeps, Keeps-refl, Keeps-cons, Keeps-update_where}
use aim_data_gateway.Ledger.Reserve.{
  Request, Plan, clip, reserve_guard, reserve_range, reserve_offer, bind_permission, reserve_apply,
  reserve_tx,
}

-- The checks all passed, and the rows of the plan were written.
pub record Reserved (db : Db) (p : Permission) (start end : ℤ) (now stamp : ℕ) (req : Request)
    (db' : Db) : Type 0 where
  pub plan : Plan
  pub guarded : reserve_guard db p now ≡ ok tt
  pub ranged : reserve_range db p start end ≡ ok plan
  pub offered : reserve_offer db p ≡ ok tt
  pub applied : reserve_apply db p stamp plan ≡ ok (req, db')

pub reserve_tx-Reserved :
    (db : Db) (p : Permission) (start end : ℤ) (now stamp : ℕ) (req : Request) (db' : Db)
    → reserve_tx db p start end now stamp ≡ ok (req, db')
    → Reserved db p start end now stamp req db'
unfolding reserve_tx
reserve_tx-Reserved db p start end now stamp req db' h =
    let (u, guarded, rest) = >>=-eq-ok (reserve_guard db p now) _ h in
    let (plan, ranged, rest') = >>=-eq-ok (reserve_range db p start end) _ rest in
    let (v, offered, applied) = >>=-eq-ok (reserve_offer db p) _ rest' in
    record { plan = plan; guarded = guarded; ranged = ranged; offered = offered; applied = applied }

-- The range of the plan: it starts where it was asked to, and is cut from its end.
pub reserve_range-bounds :
    (db : Db) (p : Permission) (start end : ℤ) (plan : Plan)
    → reserve_range db p start end ≡ ok plan
    → (pos plan.start ≡ start)
      × (plan.start ≤ pos_part end)
      × (clip (segments db.serves p.order_id p.file_id) plan.start (pos_part end) ≡ ok plan.end)
unfolding reserve_range
reserve_range-bounds db p start end plan h = ground arith

-- The row of the request that opens.
abbrev pub opened_row : Db → Permission → Plan → RequestRow
opened_row db p plan = record {
  id = suc (max_id db.requests);
  jti = p.jti;
  start = plan.start;
  end = plan.end;
  next = plan.start;
  is_open = true;
  isolated = plan.isolate;
}

-- The state that `Reserve` commits.
abbrev pub reserved_db : Db → Permission → ℕ → Plan → Db
reserved_db db p stamp plan = record db {
  permissions = bind_permission db.permissions (find_permission db p.jti) p stamp;
  serves = shift db.serves p.order_id p.file_id plan.start plan.end (pos 1);
  requests = opened_row db p plan ∷ db.requests;
}

pub reserve_apply-lem :
    (db : Db) (p : Permission) (stamp : ℕ) (plan : Plan)
    → IsRuns (db.serves p.order_id p.file_id)
    → reserve_apply db p stamp plan
      ≡ ok (
        record { id = suc (max_id db.requests); start = plan.start; end = plan.end },
        reserved_db db p stamp plan,
      )
unfolding reserve_apply segments
reserve_apply-lem db p stamp plan r =
    rw (rewrite-transform db.serves p.order_id p.file_id plan.start plan.end (pos 1) r)

pub reserved_eq :
    (db : Db) (p : Permission) (stamp : ℕ) (plan : Plan) (req : Request) (db' : Db)
    → IsRuns (db.serves p.order_id p.file_id)
    → reserve_apply db p stamp plan ≡ ok (req, db')
    → db' ≡ reserved_db db p stamp plan
reserved_eq db p stamp plan req db' r h = cc (reserve_apply-lem db p stamp plan r)

abbrev owner_of : List PermissionRow → ℕ → Option PermissionRow
owner_of ps jti = find (λ (q : PermissionRow). q.jti == jti) ps

-- The row that the first use of an unknown permission inserts.
abbrev inserted_row : Permission → ℕ → PermissionRow
inserted_row p stamp = record {
  jti = p.jti;
  oid = p.order_id;
  fid = p.file_id;
  sha = p.sha256;
  sd = p.start_deadline;
  td = p.transfer_deadline;
  ro = p.resume_offset;
  state = PermissionState.bound;
  bound_at = some stamp;
  closed_at = none;
}

-- A stored permission that passes the checks is the one that was presented, and is live.
pub reserve_guard-match :
    (db : Db) (p : Permission) (now : ℕ) (row : PermissionRow)
    → reserve_guard db p now ≡ ok tt
    → find_permission db p.jti ≡ some row
    → (row.oid ≡ p.order_id) × (row.fid ≡ p.file_id) × (is_live row.state ≡ true)
unfolding reserve_guard
reserve_guard-match db p now row h found = ground arith

find-update_where_jti :
    (j : ℕ) (change : PermissionRow → PermissionRow) (ps : List PermissionRow) (row : PermissionRow)
    → ((q : PermissionRow) → (change q).jti ≡ q.jti)
    → owner_of ps j ≡ some row
    → owner_of (update_where (λ (q : PermissionRow). q.jti == j) change ps) j ≡ some (change row)
unfolding find update_where
find-update_where_jti j change [] row keep h = cc
find-update_where_jti j change (q ∷ ps) row keep h =
    ground (arith, keep q, find-update_where_jti j change ps row keep)

abbrev set_bound : ℕ → PermissionRow → PermissionRow
set_bound stamp q = record q { state = PermissionState.bound; bound_at = some stamp }

bound_owner :
    (ps : List PermissionRow) (p : Permission) (stamp : ℕ) (row : PermissionRow)
    → owner_of ps p.jti ≡ some row
    → row.oid ≡ p.order_id
    → row.fid ≡ p.file_id
    → (r : PermissionRow) × (owner_of (bind_permission ps (some row) p stamp) p.jti ≡ some r)
      × (r.oid ≡ p.order_id)
      × (r.fid ≡ p.file_id)
      × (is_bound r.state ≡ true)
unfolding bind_permission
bound_owner ps p stamp row found eo ef = elim (Bool-cases (is_bound row.state)) [
  | inl e ↦ rw e (row, found, eo, ef, e)
  | inr e ↦ rw e (
    set_bound stamp row,
    find-update_where_jti p.jti (set_bound stamp) ps row (λ q. refl) found,
    eo,
    ef,
    refl,
  )
]

Keeps-bound :
    (ps : List PermissionRow) (p : Permission) (stamp : ℕ) (b : Bool)
    → Keeps ps (
        if b then ps else update_where (λ (q : PermissionRow). q.jti == p.jti) (set_bound stamp) ps)
Keeps-bound ps p stamp true = Keeps-refl ps
Keeps-bound ps p stamp false =
    Keeps-update_where (λ q. q.jti == p.jti) (set_bound stamp) (λ q. (refl, refl, refl)) ps

-- After the permission is bound its row is that of the order and file that were asked for.
pub bind_permission-owner :
    (db : Db) (p : Permission) (stamp now : ℕ)
    → reserve_guard db p now ≡ ok tt
    → (row : PermissionRow) × (owner_of
          (bind_permission db.permissions (find_permission db p.jti) p stamp)
          p.jti
        ≡ some row)
      × (row.oid ≡ p.order_id)
      × (row.fid ≡ p.file_id)
      × (is_bound row.state ≡ true)
unfolding bind_permission
bind_permission-owner db p stamp now h = elim (Option-cases (find_permission db p.jti)) [
  | inl absent ↦ (inserted_row p stamp, rw absent (unfold find in ground arith), refl, refl, refl)
  | inr (row, found) ↦
      let same = reserve_guard-match db p now row h found in
      rw found (bound_owner db.permissions p stamp row found same.0 same.1)
]

pub Keeps-bind_permission :
    (ps : List PermissionRow) (p : Permission) (stamp : ℕ)
    → Keeps ps (bind_permission ps (owner_of ps p.jti) p stamp)
unfolding bind_permission
Keeps-bind_permission ps p stamp = elim (Option-cases (owner_of ps p.jti)) [
  | inl absent ↦ rw absent (Keeps-cons (inserted_row p stamp) ps absent)
  | inr (row, found) ↦ rw found (Keeps-bound ps p stamp (is_bound row.state))
]
