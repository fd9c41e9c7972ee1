-- ===== src/Owned/Apply.antt =====
-- What `applyOwned` leaves at each key.
use clusterbook_operator.Prelude.{
  String, ◌≡◌, refl, List, [], ◌∷◌, ◌&&◌, not, none, arith, eq_iff, elem, is_some, if◌then◌else◌,
}
use clusterbook_operator.Prelude.Map.{Map, lookup, erase, or_else, lookup-erase, lookup-merge}
use clusterbook_operator.Owned.{drop_stale, apply_owned, parse_owned_record}

lookup-drop_stale :
    (j : String) (ks : List String) (desired current : Map String)
    → lookup j (drop_stale ks desired current)
      ≡ (if elem j ks && not (is_some (lookup j desired)) then none else lookup j current)
unfolding drop_stale elem
lookup-drop_stale j [] desired current = refl
lookup-drop_stale j (k ∷ ks) desired current = ground (
  arith,
  eq_iff k j,
  lookup-erase j k current,
  lookup-drop_stale j ks desired current,
  lookup-drop_stale j ks desired (erase k current),
)

-- After applyOwned a desired key holds its desired value; any other key is gone if the previous
-- record names it, and keeps its old value if not.
pub lookup-apply_owned :
    (j : String) (current : Map String) (prev_record : String) (desired : Map String)
    → lookup j (apply_owned current prev_record desired)
      ≡ or_else
          (lookup j desired)
          (if elem j (parse_owned_record prev_record) then none else lookup j current)
unfolding apply_owned
lookup-apply_owned j current prev_record desired = ground (
  arith,
  lookup-merge j (drop_stale (parse_owned_record prev_record) desired current) desired,
  lookup-drop_stale j (parse_owned_record prev_record) desired current,
)
