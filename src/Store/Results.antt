-- ===== src/Store/Results.antt =====
-- Results: their two forms, and what an equation between them says.
use kvfs.Base.{◌≡◌, ◌⊎◌, inl, inr, refl}
use kvfs.Store.{Error, Result, done, fail}

pub fail-done : {A : Type 0} (e : Error) (a : A) → fail e ≡ done a → ⊥
fail-done e a h = cc

pub done-injective : {A : Type 0} (a b : A) → done a ≡ done b → a ≡ b
done-injective a b h = cc

pub Result-cases :
    {A : Type 0} (r : Result A) → ((x : Error) × (r ≡ fail x)) ⊎ ((a : A) × (r ≡ done a))
Result-cases (fail x) = inl (x, refl)
Result-cases (done a) = inr (a, refl)
