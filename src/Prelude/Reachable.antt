-- ===== src/Prelude/Reachable.antt =====
-- Sequences of steps.
pub data Reach {ℓ} {A : Type ℓ} (Step : A → A → Type ℓ) (P : A → Type ℓ) (a : A) : A → Type ℓ where
  here : Reach Step P a a
  later : (b c : A) → Reach Step P a b → P b → Step b c → Reach Step P a c

-- What each step from an element with `P` keeps holds at the end, if it holds at the start.
pub Reach-invariant {ℓ} :
    {A : Type ℓ} {Step : A → A → Type ℓ} {P : A → Type ℓ} {a : A} (Q : A → Type ℓ)
    → ((b c : A) → Q b → P b → Step b c → Q c)
    → (c : A) → Reach Step P a c
    → Q a
    → Q c
Reach-invariant Q keep c here q = q
Reach-invariant Q keep c (later b e before p step) q =
    keep b e (Reach-invariant Q keep b before q) p step
