-- ===== src/Prelude/Text.antt =====
-- What the operator uses of Go's `strings` and `sort` packages, over the native texts.
use Prim.Native.Nat.{compare as compare_ℕ}
use Prim.Native.Char.{Char, code}
use Prim.Native.String.{String, len, slice, find, compare, ◌++◌}
use mathlib.Core.Bool.{Bool, ◌&&◌, ◌||◌}
use mathlib.Core.List.{List, [], ◌∷◌}
use text.Mathlib.Text.{◌==◌, starts_with, is_le}
use clusterbook_operator.Prelude.Tests.{if◌then◌else◌, eqb, leb}

-- `strings.Contains`
unfoldable pub contains : String → String → Bool
contains s t = is_le (compare_ℕ (find s t) (len s))

-- `strings.TrimPrefix`
unfoldable pub trim_prefix : String → String → String
trim_prefix s t = if starts_with s t then slice s (len t) (len s) else s

-- `strings.TrimRight(s, "/")`: every slash at the end goes.
unfoldable pub trim_slashes : String → String
trim_slashes String.[] = ""
trim_slashes (String.◌∷◌ c s) =
    let rest = trim_slashes s in if rest == "" && eqb (code c) b'/' then "" else String.◌∷◌ c rest

-- `strings.TrimSuffix(s, "/")`: one slash at the end goes.
unfoldable pub trim_slash : String → String
trim_slash String.[] = ""
trim_slash (String.◌∷◌ c s) =
    let rest = trim_slash s in if s == "" && eqb (code c) b'/' then "" else String.◌∷◌ c rest

-- `strings.Join(l, ",")`
unfoldable pub join : List String → String
join [] = ""
join (w ∷ []) = w
join (w ∷ v ∷ ws) = w ++ ("," ++ join (v ∷ ws))

-- A character goes in front of the first word.
unfoldable pub extend : Char → List String → List String
extend c [] = String.◌∷◌ c "" ∷ []
extend c (w ∷ ws) = String.◌∷◌ c w ∷ ws

-- `strings.Split(s, ",")`
unfoldable pub split : String → List String
split String.[] = "" ∷ []
split (String.◌∷◌ c s) =
    let rest = split s in if eqb (code c) b',' then "" ∷ rest else extend c rest

unfoldable pub insert_sorted : String → List String → List String
insert_sorted k [] = k ∷ []
insert_sorted k (j ∷ js) = if is_le (compare k j) then k ∷ j ∷ js else j ∷ insert_sorted k js

-- `sort.Strings`
unfoldable pub sort : List String → List String
sort [] = []
sort (k ∷ ks) = insert_sorted k (sort ks)

-- `unicode.IsSpace`
abbrev is_space : Char → Bool
is_space c =
    let n = code c in
    (leb 9 n && leb n 13)
    || eqb n 32
    || eqb n 133
    || eqb n 160
    || eqb n 5760
    || (leb 8192 n && leb n 8202)
    || eqb n 8232
    || eqb n 8233
    || eqb n 8239
    || eqb n 8287
    || eqb n 12288

unfoldable pub trim_space_left : String → String
trim_space_left String.[] = ""
trim_space_left (String.◌∷◌ c s) =
    let rest = trim_space_left s in if is_space c then rest else String.◌∷◌ c s

unfoldable pub trim_space_right : String → String
trim_space_right String.[] = ""
trim_space_right (String.◌∷◌ c s) =
    let rest = trim_space_right s in if rest == "" && is_space c then "" else String.◌∷◌ c rest

-- `strings.TrimSpace`
unfoldable pub trim_space : String → String
trim_space s = trim_space_right (trim_space_left s)
