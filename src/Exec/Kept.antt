-- ===== src/Exec/Kept.antt =====
-- What holds of the state through every step, whatever the step returns.
use clusterbook_operator.Prelude.{Bool, true, false, if◌then◌else◌}
use clusterbook_operator.Exec.{Result, ok, err, Exec, continue, ◌>>=◌}

module _ {S : Type 0} (P : S → Type 0) where
  -- The step leaves `P` true, its errors included.
  abbrev pub Keeps {ℓ} : {A : Type ℓ} → Exec S A → Type 0
  Keeps m = (s : S) → P s → P (m s).1

  module _ {ℓ κ} {A : Type ℓ} {B : Type κ} where
    continue-Keeps :
        (r : Result A) (f : A → Exec S B) (s : S)
        → ((a : A) → Keeps (f a))
        → P s
        → P (continue r f s).1
    continue-Keeps (ok a) f s after p = after a s p
    continue-Keeps (err e) f s after p = p

    pub >>=-Keeps :
        (m : Exec S A) (f : A → Exec S B) → Keeps m → ((a : A) → Keeps (f a)) → Keeps (m >>= f)
    >>=-Keeps m f first after s p = continue-Keeps (m s).0 f (m s).1 after (first s p)

  pub if-Keeps {ℓ} :
      {A : Type ℓ} (b : Bool) (m n : Exec S A) → Keeps m → Keeps n → Keeps (if b then m else n)
  if-Keeps true m n first second = first
  if-Keeps false m n first second = second
