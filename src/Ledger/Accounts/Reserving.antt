-- ===== src/Ledger/Accounts/Reserving.antt =====
-- What a successful `Reserve` does to the counts of serves (internal/ledger/ledger.go).
use aim_data_gateway.Prelude.{
  ℕ, suc, ◌+◌, ◌≤◌, ◌<◌, ◌≡◌, ◌≢◌, sym, ◌∙◌, subst, Bool, true, false, ◌&&◌, List, arith, leb, ◌==◌,
  ==_iff, if◌then◌else◌, inl, inr, Bool-cases,
}
use aim_data_gateway.Prelude.Int.{ℤ, pos, pos_part, ◌+ℤ◌}
use aim_data_gateway.Prelude.Query.{exists}
use aim_data_gateway.Prelude.Result.{ok, tx-eq-ok}
use aim_data_gateway.Segment.{count_at}
use aim_data_gateway.Segment.Transform.{count_at-transform}
use aim_data_gateway.Ledger.State.{Permission, Db, max_id, segments, is_revoked}
use aim_data_gateway.Ledger.Reserve.{Request, Plan, reserve_guard, reserve_tx, reserve}
use aim_data_gateway.Ledger.Reserve.Clip.{clip_bounds, clip-stops}
use aim_data_gateway.Ledger.Reserve.Effect.{
  reserve_tx-Reserved, reserve_range-bounds, reserved_db, reserved_eq, reserve_apply-lem,
}
use aim_data_gateway.Ledger.Tables.{shift_self}
use aim_data_gateway.Ledger.Control.{revoke, revoke_tx, add_revocation}
use aim_data_gateway.Ledger.Accounts.{IsBalanced}

-- The request that a reservation of start..end returns, with the serves of its order and file before
-- and after it.
pub record IsServed (db db' : Db) (p : Permission) (start end : ℤ) (req : Request) : Type 0 where
  pub at_start : pos req.start ≡ start
  pub ordered : req.start ≤ req.end
  pub clipped : req.end ≤ pos_part end
  pub counted :
      (x : ℕ)
      → count_at (db'.serves p.order_id p.file_id) x
        ≡ count_at (db.serves p.order_id p.file_id) x
          + (if leb req.start x && leb x req.end then 1 else 0)
  pub cut_at_two :
      req.end < pos_part end → count_at (db.serves p.order_id p.file_id) (req.end + 1) ≡ 2

shift-count :
    (n : ℕ) (b : Bool) → (if b then pos_part (pos n +ℤ pos 1) else n) ≡ n + (if b then 1 else 0)
unfolding ◌+ℤ◌
shift-count n true = ground arith
shift-count n false = omega arith

reserved-IsServed :
    (db : Db) (p : Permission) (start end : ℤ) (stamp : ℕ) (plan : Plan)
    → IsBalanced db
    → pos plan.start ≡ start
    → plan.start ≤ plan.end
    → plan.end ≤ pos_part end
    → (plan.end < pos_part end → count_at (db.serves p.order_id p.file_id) (plan.end + 1) ≡ 2)
    → IsServed db
        (reserved_db db p stamp plan)
        p
        start
        end
        (record { id = suc (max_id db.requests); start = plan.start; end = plan.end })
reserved-IsServed db p start end stamp plan books at_start ordered clipped cut = record {
  at_start = at_start;
  ordered = ordered;
  clipped = clipped;
  counted = λ x. rw (shift_self db.serves p.order_id p.file_id plan.start plan.end (pos 1)) (
      count_at-transform (db.serves p.order_id p.file_id) plan.start plan.end (pos 1) x
      ∙ shift-count (count_at (db.serves p.order_id p.file_id) x)
          (leb plan.start x && leb x plan.end));
  cut_at_two = cut;
}

-- On balanced books, a reservation that succeeds returns a request that starts at the byte asked for,
-- ends in the range asked for, and is cut only before a byte at two serves; the serves of exactly the
-- bytes of the request have grown by one.
pub reserve-IsServed :
    (db : Db) (p : Permission) (start end : ℤ) (now stamp : ℕ) (req : Request) (db' : Db)
    → IsBalanced db
    → reserve db p start end now stamp ≡ (ok req, db')
    → IsServed db db' p start end req
unfolding reserve segments
reserve-IsServed db p start end now stamp req db' books h =
    let committed = tx-eq-ok db (reserve_tx db p start end now stamp) h in
    let done = reserve_tx-Reserved db p start end now stamp req db' committed in
    let plan = done.plan in
    let (at_start, ordered, clipped) = reserve_range-bounds db p start end plan done.ranged in
    let runs = books.serves_runs p.order_id p.file_id in
    let (low, high) = clip_bounds _ plan.start (pos_part end) plan.end ordered clipped in
    let cut = clip-stops _ plan.start (pos_part end) plan.end runs ordered clipped in
    let state : reserved_db db p stamp plan ≡ db' =
      sym (reserved_eq db p stamp plan req db' runs done.applied) in
    let asked : record { id = suc (max_id db.requests); start = plan.start; end = plan.end } ≡ req =
      cc (reserve_apply-lem db p stamp plan runs, done.applied) in
    subst (λ (r : Request). IsServed db db' p start end r) asked
      (subst
        (λ d.
          IsServed db d p start end
            (record { id = suc (max_id db.requests); start = plan.start; end = plan.end }))
        state (reserved-IsServed db p start end stamp plan books at_start low high cut))

revoked-is_revoked :
    (jti : ℕ) (js : List ℕ) → exists (λ (j : ℕ). j == jti) (add_revocation jti js) ≡ true
revoked-is_revoked jti js = elim (Bool-cases (exists (λ (j : ℕ). j == jti) js)) [
  | inl e ↦ rw (e, add_revocation) e
  | inr e ↦ rw (e, add_revocation) (unfold exists in ground (arith, ==_iff jti jti))
]

guard-revoked :
    (db : Db) (p : Permission) (now : ℕ)
    → is_revoked db p.jti ≡ true
    → reserve_guard db p now ≢ ok tt
unfolding reserve_guard
guard-revoked db p now r h = ground (arith, r)

-- In any state, after a revocation of a permission no reservation with it succeeds, whatever its range,
-- the clock, and the other tables.
pub revoke-reserve :
    (db : Db) (p : Permission) (start end : ℤ) (revoked_at now stamp : ℕ) (req : Request) (db' : Db)
    → reserve (revoke db p.jti revoked_at).1 p start end now stamp ≢ (ok req, db')
unfolding reserve
revoke-reserve db p start end revoked_at now stamp req db' h =
    let after = (revoke db p.jti revoked_at).1 in
    let committed = tx-eq-ok after (reserve_tx after p start end now stamp) h in
    let done = reserve_tx-Reserved after p start end now stamp req db' committed in
    guard-revoked after p now (unfold revoke revoke_tx in revoked-is_revoked p.jti db.revocations)
      done.guarded
