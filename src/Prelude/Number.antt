-- ===== src/Prelude/Number.antt =====
-- Go's 64-bit `int` and its decimal notation.
use Prim.Native.Nat.{ℕ, zero, suc, ◌-◌, ◌/◌, ◌%◌, ◌^◌, ◌<◌}
use Prim.Native.String.{String, ◌++◌}
use mathlib.Core.Bool.{Bool, false}
use mathlib.Core.Logic.{dite}
use mathlib.Core.WellFounded.{Acc, WellFounded}
use native.Mathlib.Omega.{arith}
use native.Mathlib.Decide.{dec_lt}
use clusterbook_operator.Prelude.Tests.{if◌then◌else◌, ltb, eqb}

-- `negsuc n` is -(n + 1).
pub data ℤ : Type 0 where
  pos : ℕ → ℤ
  negsuc : ℕ → ℤ

-- A natural number reduced to a signed 64-bit word.
unfoldable pub wrap_int : ℕ → ℤ
wrap_int n = let r = n % 2 ^ 64 in if ltb r (2 ^ 63) then pos r else negsuc (2 ^ 64 - 1 - r)

abbrev pub is_zero : ℤ → Bool
is_zero (pos n) = eqb n 0
is_zero (negsuc n) = false

Acc-below : (k n : ℕ) → n < k → Acc ◌<◌ n
Acc-below zero n h = elim h [ ]
Acc-below (suc k) n h = Acc.intro n (λ m hm. Acc-below k m (omega arith))

lt_wf : WellFounded ◌<◌
unfolding Acc-below
lt_wf = record { apply = λ n. Acc-below (suc n) n (omega arith) }

digit : ℕ → String
digit d =
    if eqb d 0
    then "0"
    else if eqb d 1
    then "1"
    else if eqb d 2
    then "2"
    else if eqb d 3
    then "3"
    else if eqb d 4
    then "4"
    else if eqb d 5
    then "5"
    else if eqb d 6
    then "6"
    else if eqb d 7
    then "7"
    else if eqb d 8
    then "8"
    else "9"

-- The digits of `n`, in front of those that are done.
show_acc : (n : ℕ) → Acc ◌<◌ n → String → String
show_acc n (Acc.intro _ smaller) done =
    dite (dec_lt 9 n)
      (λ h. show_acc (n / 10) (smaller (n / 10) (omega arith)) (digit (n % 10) ++ done))
      (λ _. digit n ++ done)

-- `%d`
unfoldable pub show : ℤ → String
unfolding show_acc digit lt_wf dec_lt
show (pos n) = show_acc n (lt_wf.apply n) ""
show (negsuc n) = "-" ++ show_acc (suc n) (lt_wf.apply (suc n)) ""
