-- ===== src/Owned/Record.antt =====
-- The record of owned keys, written and read (controller/owned_metadata.go).
use Prim.Native.Char.{code}
use Prim.Native.String.{compare}
use text.Mathlib.Text.{is_le}
use text.Mathlib.TextLemmas.{nil-append, cons-append, cons-ne-nil}
use clusterbook_operator.Prelude.{
  String, ◌<>◌, ◌≡◌, ◌≢◌, refl, List, [], ◌∷◌, Bool, true, false, not, ◌&&◌, ◌||◌, arith, ◌==◌,
  eq_iff, eqb, elem, is_some, Bool-cases, inl, inr,
}
use clusterbook_operator.Prelude.Text.{split, join, sort, extend, insert_sorted}
use clusterbook_operator.Prelude.Map.{Map, keys, lookup, elem-keys}
use clusterbook_operator.Owned.{owned_record, parse_owned_record}

-- A text with no comma.
abbrev pub NoComma : String → Type 0
NoComma String.[] = Unit
NoComma (String.◌∷◌ c s) = (eqb (code c) b',' ≡ false) × NoComma s

-- A key that the record can carry: not empty and with no comma.
abbrev pub IsKey : String → Type 0
IsKey s = NoComma s × (s ≢ "")

abbrev pub AllKeys : List String → Type 0
AllKeys [] = Unit
AllKeys (k ∷ ks) = IsKey k × AllKeys ks

split-NoComma : (w : String) → NoComma w → split w ≡ w ∷ []
unfolding split extend
split-NoComma String.[] h = refl
split-NoComma (String.◌∷◌ c s) h = ground (arith, split-NoComma s h.1)

split-append : (w rest : String) → NoComma w → split (w <> ("," <> rest)) ≡ w ∷ split rest
unfolding split extend
split-append String.[] rest h = rw (nil-append, cons-append, nil-append) refl
split-append (String.◌∷◌ c s) rest h = rw cons-append (ground (arith, split-append s rest h.1))

-- Splitting what was joined gives the words back.
pub split-join : (k : String) (ks : List String) → AllKeys (k ∷ ks) → split (join (k ∷ ks)) ≡ k ∷ ks
unfolding join
split-join k [] h = split-NoComma k h.0.0
split-join k (j ∷ ks) h = rw (split-append k (join (j ∷ ks)) h.0.0, split-join j ks h.1) refl

join-ne-nil : (k : String) (ks : List String) → AllKeys (k ∷ ks) → join (k ∷ ks) ≢ ""
unfolding join
join-ne-nil k [] h e = h.0.1 e
join-ne-nil String.[] (j ∷ ks) h e = absurd (h.0.1 refl)
join-ne-nil (String.◌∷◌ c s) (j ∷ ks) h e =
    cons-ne-nil c (s <> ("," <> join (j ∷ ks))) (rw cons-append at e)

pub parse-join : (ks : List String) → AllKeys ks → parse_owned_record (join ks) ≡ ks
unfolding parse_owned_record
parse-join [] h = unfold join in refl
parse-join (k ∷ ks) h =
    ground (arith, eq_iff (join (k ∷ ks)) "", join-ne-nil k ks h, split-join k ks h)

insert_sorted-AllKeys :
    (k : String) (ks : List String) → IsKey k → AllKeys ks → AllKeys (insert_sorted k ks)
unfolding insert_sorted
insert_sorted-AllKeys k [] h hs = (h, hs)
insert_sorted-AllKeys k (j ∷ ks) h hs = elim (Bool-cases (is_le (compare k j))) [
  | inl e ↦ rw e (h, hs)
  | inr e ↦ rw e (hs.0, insert_sorted-AllKeys k ks h hs.1)
]

sort-AllKeys : (ks : List String) → AllKeys ks → AllKeys (sort ks)
unfolding sort
sort-AllKeys [] h = h
sort-AllKeys (k ∷ ks) h = insert_sorted-AllKeys k (sort ks) h.0 (sort-AllKeys ks h.1)

elem-insert_sorted :
    (j k : String) (ks : List String) → elem j (insert_sorted k ks) ≡ (k == j || elem j ks)
unfolding elem insert_sorted
elem-insert_sorted j k [] = refl
elem-insert_sorted j k (i ∷ ks) = ground (arith, elem-insert_sorted j k ks)

pub elem-sort : (j : String) (ks : List String) → elem j (sort ks) ≡ elem j ks
unfolding elem sort
elem-sort j [] = refl
elem-sort j (k ∷ ks) = ground (arith, elem-insert_sorted j k (sort ks), elem-sort j ks)

-- A record of keys that are not empty and hold no comma reads back as the keys, sorted.
pub parse_owned_record-owned_record :
    (m : Map String) → AllKeys (keys m) → parse_owned_record (owned_record m) ≡ sort (keys m)
unfolding owned_record
parse_owned_record-owned_record m h = parse-join (sort (keys m)) (sort-AllKeys (keys m) h)

-- For a map whose keys are not empty and hold no comma, a key is among those read back from the
-- map's ownership record exactly when the map has it.
pub elem-owned_record :
    (j : String) (m : Map String)
    → AllKeys (keys m)
    → elem j (parse_owned_record (owned_record m)) ≡ is_some (lookup j m)
elem-owned_record j m h =
    rw (parse_owned_record-owned_record m h, elem-sort j (keys m)) (elem-keys j m)

-- The test of `AllKeys`.
abbrev has_no_comma : String → Bool
has_no_comma String.[] = true
has_no_comma (String.◌∷◌ c s) = not (eqb (code c) b',') && has_no_comma s

abbrev pub are_keys : List String → Bool
are_keys [] = true
are_keys (k ∷ ks) = (has_no_comma k && not (k == "")) && are_keys ks

has_no_comma-NoComma : (s : String) → has_no_comma s ≡ true → NoComma s
has_no_comma-NoComma String.[] h = tt
has_no_comma-NoComma (String.◌∷◌ c s) h = (ground arith, has_no_comma-NoComma s (ground arith))

pub are_keys-AllKeys : (ks : List String) → are_keys ks ≡ true → AllKeys ks
are_keys-AllKeys [] h = tt
are_keys-AllKeys (k ∷ ks) h = (
  (has_no_comma-NoComma k (ground arith), λ e. ground (arith, eq_iff k "", e)),
  are_keys-AllKeys ks (ground arith),
)
