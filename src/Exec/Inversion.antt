-- ===== src/Exec/Inversion.antt =====
-- What a step that returned tells of its parts.
use clusterbook_operator.Prelude.{String, Bool, true, ◌≡◌, refl, ap, arith}
use clusterbook_operator.Exec.{
  Error, is_already_exists, Result, ok, err, Exec, continue, and_then, context, wrapped, ◌>>=◌,
  ◌>>◌,
}

-- The value of a result, `d` if there is none.
abbrev pub result_or {ℓ} : {A : Type ℓ} → A → Result A → A
result_or d (ok a) = a
result_or d (err e) = d

-- The object is written, or somebody else wrote it first.
abbrev pub is_written {ℓ} : {A : Type ℓ} → Result A → Bool
is_written (ok o) = true
is_written (err e) = is_already_exists e

module _ {ℓ κ ι} {S : Type ℓ} {A : Type κ} {B : Type ι} where
  pub continue-eq-ok :
      (r : Result A) (f : A → Exec S B) (s : S) {b : B} {t : S}
      → continue r f s ≡ (ok b, t)
      → (a : A) × (r ≡ ok a) × (f a s ≡ (ok b, t))
  continue-eq-ok (ok a) f s h = (a, refl, h)
  continue-eq-ok (err e) f s h = cc

  -- A sequence that returned ran both of its steps.
  pub >>=-eq-ok :
      (m : Exec S A) (f : A → Exec S B) (s : S) {b : B} {t : S}
      → (m >>= f) s ≡ (ok b, t)
      → (a : A) × (u : S) × (m s ≡ (ok a, u)) × (f a u ≡ (ok b, t))
  >>=-eq-ok m f s h =
      let c = continue-eq-ok (m s).0 f (m s).1 h in (c.0, (m s).1, λ i. (c.1 i, (m s).1), c.2)

module _ {κ} {A : Type κ} where
  pub wrapped-eq-ok : (c : String) (r : Result A) {a : A} → wrapped c r ≡ ok a → r ≡ ok a
  wrapped-eq-ok c (ok x) h = h
  wrapped-eq-ok c (err e) h = cc

module _ {ℓ κ} {S : Type ℓ} {A B C : Type κ} where
  continue->>-err :
      (r : Result A) (n : Exec S B) (k : Exec S C) (s : S) (e : Error) (t : S)
      → continue r (λ _. n) s ≡ (err e, t)
      → continue r (λ _. n >> k) s ≡ (err e, t)
  continue->>-err (ok a) n k s e t h = rw h
  continue->>-err (err x) n k s e t h = ground arith

  -- An error in the first two of three steps is the result of the three.
  pub >>-err :
      (m : Exec S A) (n : Exec S B) (k : Exec S C) (s : S) (e : Error) (t : S)
      → (m >> n) s ≡ (err e, t)
      → (m >> (n >> k)) s ≡ (err e, t)
  >>-err m n k s e t h = continue->>-err (m s).0 n k (m s).1 e t h

pub and_then-eq-ok {ℓ κ} :
    {A : Type ℓ} {B : Type κ} (r : Result A) (f : A → Result B) {b : B}
    → and_then r f ≡ ok b
    → (a : A) × (r ≡ ok a) × (f a ≡ ok b)
and_then-eq-ok (ok a) f h = (a, refl, h)
and_then-eq-ok (err e) f h = cc

-- A step in a context that returned has returned.
pub context-eq-ok {ℓ κ} :
    {S : Type ℓ} {A : Type κ} (c : String) (m : Exec S A) (s : S) {a : A} {t : S}
    → context c m s ≡ (ok a, t)
    → m s ≡ (ok a, t)
context-eq-ok {S} {A} c m s h =
    let r = wrapped-eq-ok c (m s).0 (ap (λ (p : Result A × S). p.0) h) in
    let u = ap (λ (p : Result A × S). p.1) h in λ i. (r i, u i)
