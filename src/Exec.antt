-- ===== src/Exec.antt =====
-- Go's `error` values, and code that may fail and that changes the state of its surroundings.
-- What was written before an error stays written, so the state comes back beside the error too.
pub mod Inversion
pub mod Kept
use clusterbook_operator.Prelude.{String, ◌<>◌, Bool, true, false}

-- The reasons that `apierrors` tells apart.
pub data Reason : Type 0 where
  not_found already_exists conflict other_reason : Reason

-- `wrap s e` is `fmt.Errorf("s: %w", e)`; `nil_dereference` is the panic that controller-runtime
-- recovers as a failed reconcile.
pub data Error : Type 0 where
  api_error : Reason → String → Error
  message : String → Error
  wrap : String → Error → Error
  nil_dereference : Error

-- `apierrors.IsNotFound`
unfoldable pub is_not_found : Error → Bool
is_not_found (api_error not_found s) = true
is_not_found (api_error already_exists s) = false
is_not_found (api_error conflict s) = false
is_not_found (api_error other_reason s) = false
is_not_found (message s) = false
is_not_found (wrap s e) = is_not_found e
is_not_found nil_dereference = false

-- `apierrors.IsAlreadyExists`
unfoldable pub is_already_exists : Error → Bool
is_already_exists (api_error not_found s) = false
is_already_exists (api_error already_exists s) = true
is_already_exists (api_error conflict s) = false
is_already_exists (api_error other_reason s) = false
is_already_exists (message s) = false
is_already_exists (wrap s e) = is_already_exists e
is_already_exists nil_dereference = false

-- `err.Error()`
unfoldable pub error_text : Error → String
error_text (api_error r s) = s
error_text (message s) = s
error_text (wrap s e) = s <> (": " <> error_text e)
error_text nil_dereference = "runtime error: invalid memory address or nil pointer dereference"

pub data Result {ℓ} (A : Type ℓ) : Type ℓ where
  ok : A → Result A
  err : Error → Result A

-- `return fmt.Errorf("s: %w", err)` where `err != nil`
abbrev pub wrapped {ℓ} : {A : Type ℓ} → String → Result A → Result A
wrapped s (ok a) = ok a
wrapped s (err e) = err (wrap s e)

-- The value of a pure step that may fail, `a, err := f()`.
abbrev pub and_then {ℓ κ} : {A : Type ℓ} {B : Type κ} → Result A → (A → Result B) → Result B
and_then (ok a) f = f a
and_then (err e) f = err e

abbrev pub Exec {ℓ κ} : Type ℓ → Type κ → Type (ℓ ⊔ κ)
Exec S A = S → Result A × S

module _ {ℓ κ} {S : Type ℓ} {A : Type κ} where
  abbrev pub pure : A → Exec S A
  pure a s = (ok a, s)

  abbrev pub fail : Error → Exec S A
  fail e s = (err e, s)

  -- A pure step.
  abbrev pub lift : Result A → Exec S A
  lift r s = (r, s)

  -- A step that only reads.
  abbrev pub reads : (S → Result A) → Exec S A
  reads f s = (f s, s)

  -- A step whose error the caller looks at.
  abbrev pub attempt : Exec S A → Exec S (Result A)
  attempt m s = let (r, s') = m s in (ok r, s')

  -- A step whose error is wrapped.
  abbrev pub context : String → Exec S A → Exec S A
  context c m s = let (r, s') = m s in (wrapped c r, s')

module _ {ℓ κ ι} {S : Type ℓ} {A : Type κ} {B : Type ι} where
  abbrev pub continue : Result A → (A → Exec S B) → Exec S B
  continue (ok a) f s = f a s
  continue (err e) f s = (err e, s)

  infixl 5 ◌>>=◌ ◌>>◌
  abbrev pub ◌>>=◌ : Exec S A → (A → Exec S B) → Exec S B
  ◌>>=◌ m f s = let (r, s') = m s in continue r f s'

  abbrev pub ◌>>◌ : Exec S A → Exec S B → Exec S B
  ◌>>◌ m n s = let (r, s') = m s in continue r (λ _. n) s'
