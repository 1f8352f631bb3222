-- ===== src/Prelude/Result.antt =====
-- Errors as values, and database transactions: a transaction that fails leaves the state alone.
use mathlib.Core.Path.{◌≡◌, refl}
use mathlib.Core.Logic.{◌⊎◌, inl, inr}
use mathlib.Core.Bool.{Bool, true, false}
use mathlib.Core.Option.{Option, none, some}

-- The errors of internal/ledger. `no_rows` is sql.ErrNoRows, and `constraint` a violated PRIMARY
-- KEY, UNIQUE or CHECK of the schema; `write_failed` is an error of the network write.
pub data Error : Type 0 where
  fragmented exhausted closed deadline progress : Error
  invalid_range invalid_progress invalid_chunk invalid_write : Error
  incomplete_receipt no_key not_pending no_rows constraint consent write_failed : Error

-- The answer of a call: a value, or one of these errors.
pub data Result {κ} (R : Type κ) : Type κ where
  err : Error → Result R
  ok : R → Result R

module _ {κ μ} {R : Type κ} {S : Type μ} where
  infixl 5 ◌>>=◌
  abbrev pub ◌>>=◌ : Result R → (R → Result S) → Result S
  err fault >>= rest = err fault
  ok value >>= rest = rest value

  -- A chain that succeeds has a first step that succeeds.
  pub >>=-eq-ok :
      (step : Result R) (rest : R → Result S) {out : S}
      → (step >>= rest) ≡ ok out
      → (value : R) × (step ≡ ok value) × (rest value ≡ ok out)
  >>=-eq-ok (err fault) rest h = cc
  >>=-eq-ok (ok value) rest h = (value, refl, h)

  -- A chain that fails fails at its first step, or behind it.
  pub >>=-eq-err :
      (step : Result R) (rest : R → Result S) {e : Error}
      → (step >>= rest) ≡ err e
      → (step ≡ err e) ⊎ ((value : R) × (step ≡ ok value) × (rest value ≡ err e))
  >>=-eq-err (err fault) rest h = inl (cc)
  >>=-eq-err (ok value) rest h = inr (value, refl, h)

infixl 5 ◌>>◌
abbrev pub ◌>>◌ {μ} : {S : Type μ} → Result (Unit {0}) → Result S → Result S
check >> rest = check >>= λ passed. rest

-- `if test { return …, e }`
abbrev pub refuse_if : Bool → Error → Result (Unit {0})
refuse_if true e = err e
refuse_if false e = ok tt

-- A single row query, with sql.ErrNoRows as the error given.
abbrev pub or_err {ℓ} : {A : Type ℓ} → Option A → Error → Result A
or_err none e = err e
or_err (some a) e = ok a

-- A step that returns no value.
abbrev pub done {ℓ} : {S : Type ℓ} → S → Result (Unit {0} × S)
done s = ok (tt, s)

-- `tx`: commit the new state, or roll back to the old one.
unfoldable pub tx {ℓ κ} : {S : Type ℓ} {A : Type κ} → S → Result (A × S) → Result A × S
tx s (ok (a, s')) = (ok a, s')
tx s (err e) = (err e, s)

-- A transaction reports the error of its body.
pub tx-err {ℓ κ} :
    {S : Type ℓ} {A : Type κ} (s : S) (m : Result (A × S)) {e : Error}
    → (tx s m).0 ≡ err e
    → m ≡ err e
unfolding tx
tx-err s (ok (a, s')) h = cc
tx-err s (err e) h = cc

pub err-tx {ℓ κ} :
    {S : Type ℓ} {A : Type κ} (s : S) (m : Result (A × S)) {e : Error}
    → m ≡ err e
    → (tx s m).0 ≡ err e
unfolding tx
err-tx s m h = rw h refl

-- What holds of every committed result and of the old state holds after the transaction.
pub tx_inv {ℓ κ μ} :
    {S : Type ℓ} {A : Type κ} (P : S → Type μ) (s : S) (m : Result (A × S))
    → P s
    → ((a : A) (s' : S) → m ≡ ok (a, s') → P s')
    → P (tx s m).1
unfolding tx
tx_inv P s (ok (a, s')) p h = h a s' refl
tx_inv P s (err e) p h = p

-- A transaction that reports success has committed the state that it returns.
pub tx-eq-ok {ℓ κ} :
    {S : Type ℓ} {A : Type κ} (s : S) (m : Result (A × S)) {a : A} {s' : S}
    → tx s m ≡ (ok a, s')
    → m ≡ ok (a, s')
unfolding tx
tx-eq-ok s (ok (b, t)) h = cc
tx-eq-ok s (err e) h = cc
