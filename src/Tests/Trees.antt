-- ===== src/Tests/Trees.antt =====
-- Trees whose values are set at a path for real.
use clusterbook_operator.Prelude.{
  String, true, false, List, [], ◌∷◌, Option, none, some, ◌≡◌, refl, sym, ap, ◌∙◌, arith, ◌==◌,
  eq_iff, eq_refl, Bool-cases, inl, inr, if◌then◌else◌,
}
use clusterbook_operator.Exec.{Result, ok, err, message, and_then}
use clusterbook_operator.Exec.Inversion.{and_then-eq-ok}
use clusterbook_operator.World.{Machinery}
use clusterbook_operator.World.Data.{
  Value, Fields, text, truth, array, object, end, field, get_field, nested, diverges,
}
use clusterbook_operator.World.Laws.{texts, SetsFields}
use clusterbook_operator.Vcluster.Application.{put_field}
use clusterbook_operator.Tests.Server.{world}

-- The map under a key, a new one if there is none.
abbrev child_of : Option Value → Result Fields
child_of none = ok end
child_of (some (object f)) = ok f
child_of (some (text t)) = err (message "not a map")
child_of (some (truth b)) = err (message "not a map")
child_of (some (array items)) = err (message "not a map")

unfoldable pub set_at : List String → Value → Fields → Result Fields
set_at [] v m = err (message "no path")
set_at (k ∷ []) v m = ok (put_field k v m)
set_at (k ∷ j ∷ p) v m =
    and_then (child_of (get_field k m))
      λ f. and_then (set_at (j ∷ p) v f) λ g. ok (put_field k (object g) m)

get_field-put_field :
    (j k : String) (v : Value) (m : Fields)
    → get_field j (put_field k v m) ≡ (if k == j then some v else get_field j m)
unfolding get_field put_field
get_field-put_field j k v end = refl
get_field-put_field j k v (field i w m) =
    ground (arith, eq_iff k j, eq_iff i k, eq_iff i j, get_field-put_field j k v m)

abbrev pub fields_of : Result Fields → Fields
fields_of (ok f) = f
fields_of (err e) = end

ok-inj : (f g : Fields) → ok f ≡ ok g → f ≡ g
ok-inj f g h = ap fields_of h

-- The value at the rest of a path.
abbrev under : List String → Option Value → Option Value
under [] o = o
under (j ∷ q) none = none
under (j ∷ q) (some (object f)) = nested (j ∷ q) f
under (j ∷ q) (some (text t)) = none
under (j ∷ q) (some (truth b)) = none
under (j ∷ q) (some (array items)) = none

nested-under :
    (k : String) (q : List String) (m : Fields) → nested (k ∷ q) m ≡ under q (get_field k m)
unfolding nested
nested-under k [] m = refl
nested-under k (j ∷ q) m = elim (get_field k m) [
  | none ↦ refl
  | some v ↦ elim v [ object f ↦ refl | text t ↦ refl | truth b ↦ refl | array items ↦ refl ]
]

nested-put_field :
    (i k : String) (q : List String) (v : Value) (m : Fields)
    → nested (i ∷ q) (put_field k v m) ≡ (if k == i then under q (some v) else nested (i ∷ q) m)
nested-put_field i k q v m = rw (nested-under, nested-under, get_field-put_field) (ground arith)

under-child_of :
    (j : String) (q : List String) (o : Option Value) (f : Fields)
    → child_of o ≡ ok f
    → under (j ∷ q) o ≡ nested (j ∷ q) f
unfolding nested get_field
under-child_of j [] none f h = rw (sym (ok-inj end f h)) refl
under-child_of j (i ∷ q) none f h = rw (sym (ok-inj end f h)) refl
under-child_of j q (some (object g)) f h = ap (nested (j ∷ q)) (ok-inj g f h)
under-child_of j q (some (text t)) f h = cc
under-child_of j q (some (truth b)) f h = cc
under-child_of j q (some (array items)) f h = cc

module _ (k j : String) (p : List String) (v : Value) (m m' : Fields) where
  set_at-inv :
      set_at (k ∷ j ∷ p) v m ≡ ok m'
      → (f g : Fields) × (child_of (get_field k m) ≡ ok f)
        × (set_at (j ∷ p) v f ≡ ok g)
        × (put_field k (object g) m ≡ m')
  unfolding set_at
  set_at-inv h =
      let (f, there, h1) =
        and_then-eq-ok (child_of (get_field k m))
          (λ f. and_then (set_at (j ∷ p) v f) λ g. ok (put_field k (object g) m)) h in
      let (g, set, h2) =
        and_then-eq-ok (set_at (j ∷ p) v f) (λ g. ok (put_field k (object g) m)) h1 in
      (f, g, there, set, ground arith)

nested-set_at :
    (m m' : Fields) (v : Value) (p : List String) → set_at p v m ≡ ok m' → nested p m' ≡ some v
unfolding set_at
nested-set_at m m' v [] h = cc
nested-set_at m m' v (k ∷ []) h =
    let e : put_field k v m ≡ m' = ground arith in rw (sym e, nested-put_field, eq_refl) refl
nested-set_at m m' v (k ∷ j ∷ p) h =
    let (f, g, _, set, e) = set_at-inv k j p v m m' h in
    rw (sym e, nested-put_field, eq_refl) (nested-set_at f g v (j ∷ p) set)

-- Of two paths of which one has one key, the first keys differ.
apart :
    (i k : String) (q p : List String)
    → diverges (i ∷ q) (k ∷ p) ≡ true
    → diverges q p ≡ false
    → (k == i) ≡ false
unfolding diverges
apart i k q p d e = ground (arith, eq_iff k i, eq_iff i k)

diverges-nil : (q : List String) → diverges q [] ≡ false
unfolding diverges
diverges-nil [] = refl
diverges-nil (i ∷ q) = refl

nested-set_at_other :
    (m m' : Fields) (v : Value) (p q : List String)
    → set_at p v m ≡ ok m'
    → diverges q p ≡ true
    → nested q m' ≡ nested q m
unfolding set_at diverges
nested-set_at_other m m' v p [] h d = cc
nested-set_at_other m m' v [] (i ∷ q) h d = cc
nested-set_at_other m m' v (k ∷ []) (i ∷ q) h d =
    rw (sym (ok-inj (put_field k v m) m' h), nested-put_field, apart i k q [] d (diverges-nil q))
      refl
nested-set_at_other m m' v (k ∷ j ∷ p) (i ∷ []) h d =
    let (f, g, _, _, e) = set_at-inv k j p v m m' h in
    rw (sym e, nested-put_field, apart i k [] (j ∷ p) d refl) refl
nested-set_at_other m m' v (k ∷ j ∷ p) (i ∷ l ∷ q) h d =
    let (f, g, there, set, e) = set_at-inv k j p v m m' h in
    elim (Bool-cases (k == i)) [
      | inr n ↦ rw (sym e, nested-put_field, n) refl
      | inl same ↦
          let d' : diverges (l ∷ q) (j ∷ p) ≡ true = ground (arith, eq_iff k i, eq_iff i k) in
          rw (sym e, nested-put_field, same)
            (nested-set_at_other f g v (j ∷ p) (l ∷ q) set d'
              ∙ sym (under-child_of l q (get_field k m) f there)
              ∙ rw ((eq_iff k i).0 same) (sym (nested-under i (l ∷ q) m)))
    ]

abbrev pub machinery : Machinery
machinery = record (world true).machinery {
  set_nested_field = λ m v p. set_at p v m;
  set_nested_string_slice = λ m vs p. set_at p (array (texts vs)) m;
}

pub machinery-SetsFields : SetsFields machinery
machinery-SetsFields = record {
  nested-set_nested_field = nested-set_at;
  nested-set_nested_field_other = nested-set_at_other;
  nested-set_nested_string_slice = λ m m' vs p. nested-set_at m m' (array (texts vs)) p;
  nested-set_nested_string_slice_other =
      λ m m' vs p q. nested-set_at_other m m' (array (texts vs)) p q;
}
