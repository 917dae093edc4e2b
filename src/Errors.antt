-- ===== src/Errors.antt =====
-- Go's `error`, and results that carry one: `(value, error)` returned with `err != nil` is `err`.
use terracost.Prelude.{ℕ, String, ◌≡◌, refl, subst, ◌⊎◌, inl, inr, List}

pub data Error : Type 0 where
  -- `terraform.ErrNoQueries`, `ErrNoKnownProvider`, `ErrNoProviders`
  no_queries no_known_provider no_providers : Error
  -- `cost.ErrProductNotFound`, `ErrPriceNotFound`
  product_not_found price_not_found : Error
  -- `price.ErrMismatchingUnit`, `ErrMismatchingCurrency`
  mismatching_unit mismatching_currency : Error
  -- `fmt.Errorf` with a format and its arguments
  errorf : String → List String → Error
  -- the same with a number before them
  errorf_at : String → ℕ → List String → Error
  -- the same around another error, `%w`
  wrapf : String → List String → Error → Error
  -- an error that code outside the repository returned
  foreign : String → Error

pub data Result {ℓ} (A : Type ℓ) : Type ℓ where
  ok : A → Result A
  err : Error → Result A

infixl 5 ◌>>=◌
abbrev pub ◌>>=◌ {ℓ κ} : {A : Type ℓ} {B : Type κ} → Result A → (A → Result B) → Result B
ok a >>= f = f a
err e >>= f = err e

-- `if err != nil { return …, fmt.Errorf(format, args, err) }`
abbrev pub wrap {ℓ} : {A : Type ℓ} → String → List String → Result A → Result A
wrap format args (ok a) = ok a
wrap format args (err e) = err (wrapf format args e)

pub Result-cases {ℓ} :
    {A : Type ℓ} (r : Result A) → ((a : A) × (r ≡ ok a)) ⊎ ((e : Error) × (r ≡ err e))
Result-cases (ok a) = inl (a, refl)
Result-cases (err e) = inr (e, refl)

-- What a call comes to in Go: a value, an error that it returns, or a run-time panic.
pub data Run {ℓ} (A : Type ℓ) : Type ℓ where
  done : A → Run A
  failed : Error → Run A
  panic : String → Run A

-- a call, and what follows it where it returns without an error
infixl 5 ◌>>>◌
abbrev pub ◌>>>◌ {ℓ κ} : {A : Type ℓ} {B : Type κ} → Run A → (A → Run B) → Run B
done a >>> f = f a
failed e >>> f = failed e
panic why >>> f = panic why

abbrev pub wrap_run {ℓ} : {A : Type ℓ} → String → List String → Run A → Run A
wrap_run format args (done a) = done a
wrap_run format args (failed e) = failed (wrapf format args e)
wrap_run format args (panic why) = panic why

-- a result, as a call that does not panic
abbrev pub run_of {ℓ} : {A : Type ℓ} → Result A → Run A
run_of (ok a) = done a
run_of (err e) = failed e

pub wrap_run-eq-done {ℓ} :
    {A : Type ℓ} (format : String) (args : List String) (r : Run A) {a : A}
    → wrap_run format args r ≡ done a
    → r ≡ done a
wrap_run-eq-done format args (done b) h = h
wrap_run-eq-done format args (failed e) h = cc
wrap_run-eq-done format args (panic why) h = cc

module _ {ℓ κ} {A : Type ℓ} {B : Type κ} where
  pub >>>-eq-done :
      (r : Run A) (f : A → Run B) {b : B}
      → (r >>> f) ≡ done b
      → (a : A) × (r ≡ done a) × (f a ≡ done b)
  >>>-eq-done (done a) f h = (a, refl, h)
  >>>-eq-done (failed e) f h = cc
  >>>-eq-done (panic why) f h = cc

  -- Inversion of a bind that returned.
  pub >>=-eq-ok :
      (r : Result A) (f : A → Result B) {b : B}
      → (r >>= f) ≡ ok b
      → (a : A) × (r ≡ ok a) × (f a ≡ ok b)
  >>=-eq-ok (ok a) f h = (a, refl, h)
  >>=-eq-ok (err e) f h = cc

-- What holds of a value that is returned holds of the value it is read as.
pub along_done {ℓ κ} : {A : Type ℓ} (P : A → Type κ) {x y : A} → Run.done x ≡ done y → P x → P y
along_done P e p = subst P (cc e) p
