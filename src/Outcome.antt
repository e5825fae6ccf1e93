-- ===== src/Outcome.antt =====
-- Go results: `(value, error)` pairs, and calls that may panic.
use ssh_roundrobin.Prelude.{◌≡◌, refl, ◌⊎◌, inl, inr, Option, none, some}
use ssh_roundrobin.Text.{Error}

-- `(value, nil)` or `(_, err)`.
pub data Result {ℓ} (A : Type ℓ) : Type ℓ where
  ok : A → Result A
  err : Error → Result A

-- A call that returns, or a run-time panic (a nil dereference, an index out of range).
pub data Outcome {ℓ} (A : Type ℓ) : Type ℓ where
  returns : A → Outcome A
  panics : Outcome A

-- The three ways in which a call that returns an `error` can end.
pub Outcome-cases :
    (o : Outcome (Option Error))
    → (o ≡ panics) ⊎ (o ≡ returns none) ⊎ ((e : Error) × (o ≡ returns (some e)))
Outcome-cases panics = inl refl
Outcome-cases (returns none) = inr (inl refl)
Outcome-cases (returns (some e)) = inr (inr (e, refl))

-- The three ways in which a call that returns a value or an `error` can end.
pub Result-cases {ℓ} :
    {A : Type ℓ} (o : Outcome (Result A))
    → (o ≡ panics) ⊎ ((e : Error) × (o ≡ returns (err e))) ⊎ ((a : A) × (o ≡ returns (ok a)))
Result-cases panics = inl refl
Result-cases (returns (err e)) = inr (inl (e, refl))
Result-cases (returns (ok a)) = inr (inr (a, refl))

pub error_or_ok {ℓ} :
    {A : Type ℓ} (r : Result A) → ((e : Error) × (r ≡ err e)) ⊎ ((a : A) × (r ≡ ok a))
error_or_ok (err e) = inl (e, refl)
error_or_ok (ok a) = inr (a, refl)

pub returned_or_not {ℓ} : {A : Type ℓ} (o : Outcome A) → (o ≡ panics) ⊎ ((a : A) × (o ≡ returns a))
returned_or_not panics = inl refl
returned_or_not (returns a) = inr (a, refl)
