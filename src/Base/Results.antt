-- ===== src/Base/Results.antt =====
-- Postconditions of code that may end in none: of its result if there is one, or with a result.
use mathlib.Core.Path.{◌≡◌, refl, subst}
use mathlib.Core.Option.{Option, none, some}
use u_threads.Base.Tests.{◌>>=◌}

abbrev pub Ensures : {A : Type 0} → (A → Type 0) → Option A → Type 0
Ensures P none = Unit {0}
Ensures P (some a) = P a

abbrev pub Succeeds : {A : Type 0} → (A → Type 0) → Option A → Type 0
Succeeds P none = ⊥
Succeeds P (some a) = P a

module _ {A B : Type 0} (Q : B → Type 0) where
  pub bind-Ensures :
      (P : A → Type 0) (o : Option A) (f : A → Option B)
      → Ensures P o
      → ((a : A) → P a → Ensures Q (f a))
      → Ensures Q (o >>= f)
  bind-Ensures P none f p q = tt
  bind-Ensures P (some a) f p q = q a p

  pub bind-Ensures_map :
      (P : A → Type 0) (o : Option A) (f : A → B)
      → Ensures P o
      → ((a : A) → P a → Q (f a))
      → Ensures Q (o >>= (λ a. some (f a)))
  bind-Ensures_map P none f p q = tt
  bind-Ensures_map P (some a) f p q = q a p

  pub bind-Ensures_any :
      (o : Option A) (f : A → Option B) → ((a : A) → Ensures Q (f a)) → Ensures Q (o >>= f)
  bind-Ensures_any none f q = tt
  bind-Ensures_any (some a) f q = q a

  pub bind-Succeeds :
      (P : A → Type 0) (o : Option A) (f : A → Option B)
      → Succeeds P o
      → ((a : A) → P a → Succeeds Q (f a))
      → Succeeds Q (o >>= f)
  bind-Succeeds P none f p q = absurd p
  bind-Succeeds P (some a) f p q = q a p

pub Ensures-imp :
    {A : Type 0} (P Q : A → Type 0) (o : Option A)
    → Ensures P o
    → ((a : A) → P a → Q a)
    → Ensures Q o
Ensures-imp P Q none p f = tt
Ensures-imp P Q (some a) p f = f a p

module _ {A : Type 0} (P : A → Type 0) where
  pub Ensures-some : (o : Option A) (a : A) → Ensures P o → o ≡ some a → P a
  Ensures-some o a p e = subst (Ensures P) e p

  pub Succeeds-some : (o : Option A) (a : A) → Succeeds P o → o ≡ some a → P a
  Succeeds-some o a p e = subst (Succeeds P) e p

  pub Succeeds-result : (o : Option A) → Succeeds P o → (a : A) × (o ≡ some a) × P a
  Succeeds-result none p = absurd p
  Succeeds-result (some a) p = (a, refl, p)
