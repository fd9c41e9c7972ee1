-- ===== src/Allocation/Sinks/Coexist.antt =====
-- Two allocations that write to one Secret (controller/allocation_reconciler.go).
use text.Mathlib.TextLemmas.{
  append_cancel_left, append_cancel_right, append_assoc, append-nil, append_inj, length-append,
  cons-ne-nil,
}
use Prim.Native.String.{count}
use clusterbook_operator.Prelude.{
  String, ◌<>◌, ◌≡◌, ◌≢◌, refl, sym, ap, ◌∙◌, true, false, Option, none, some, ◌+◌, arith, ◌==◌,
  eq_iff, eq_refl, ==-ne,
}
use clusterbook_operator.Prelude.Map.{Map, lookup, lookup-insert}
use clusterbook_operator.Api.Meta.{Secret}
use clusterbook_operator.Api.Allocation.{Allocation}
use clusterbook_operator.World.Data.{ClusterInfo}
use clusterbook_operator.Owned.{clusterbook_prefix}
use clusterbook_operator.Cluster.Metadata.Lookups.{lookup-insert_nonempty}
use clusterbook_operator.Allocation.Sinks.{key_prefix, zone_labels, enrich_secret}
use clusterbook_operator.Allocation.Sinks.Keys.{enrich_secret-other_label}

-- What an allocation's labels say.
pub data Fact : Type 0 where
  presence ip zone : Fact

abbrev suffix : Fact → String
suffix presence = ""
suffix ip = "-ip"
suffix zone = "-zone"

abbrev pub label_key : Allocation → Fact → String
label_key cr presence = key_prefix cr
label_key cr ip = key_prefix cr <> "-ip"
label_key cr zone = key_prefix cr <> "-zone"

-- Neither name is the other, nor the other with a suffix that the keys have.
pub record Apart (m n : String) : Type 0 where
  pub ne : m ≢ n
  pub ne_ip : m ≢ n <> "-ip"
  pub ne_zone : m ≢ n <> "-zone"
  pub ip_ne : m <> "-ip" ≢ n
  pub zone_ne : m <> "-zone" ≢ n

key_prefix-append :
    (cr : Allocation) (x : String)
    → key_prefix cr <> x ≡ clusterbook_prefix <> ("allocation-" <> (cr.spec.name <> x))
unfolding key_prefix
key_prefix-append cr x =
    append_assoc clusterbook_prefix ("allocation-" <> cr.spec.name) x
    ∙ ap (λ y. clusterbook_prefix <> y) (append_assoc "allocation-" cr.spec.name x)

label_key-suffix :
    (cr : Allocation) (f : Fact)
    → label_key cr f ≡ clusterbook_prefix <> ("allocation-" <> (cr.spec.name <> suffix f))
label_key-suffix cr presence = sym (append-nil (key_prefix cr)) ∙ key_prefix-append cr ""
label_key-suffix cr ip = key_prefix-append cr "-ip"
label_key-suffix cr zone = key_prefix-append cr "-zone"

-- A text does not end both in p and in e.
ip-ne-zone : (m n : String) → m <> "-ip" ≢ n <> "-zone"
ip-ne-zone m n h =
    let e : (m <> "-i") <> "p" ≡ (n <> "-zon") <> "e" =
      append_assoc m "-i" "p" ∙ h ∙ sym (append_assoc n "-zon" "e") in
    let counts : count (m <> "-i") + 1 ≡ count (n <> "-zon") + 1 =
      sym (length-append (m <> "-i") "p") ∙ ap count e ∙ length-append (n <> "-zon") "e" in
    let same : count (m <> "-i") ≡ count (n <> "-zon") = omega arith in
    let ends : false ≡ true = (eq_iff "p" "e").1 (append_inj e same).1 in cc

names-ne : (m n : String) → Apart m n → (f g : Fact) → m <> suffix f ≢ n <> suffix g
names-ne m n a presence presence h = a.ne (sym (append-nil m) ∙ h ∙ append-nil n)
names-ne m n a presence ip h = a.ne_ip (sym (append-nil m) ∙ h)
names-ne m n a presence zone h = a.ne_zone (sym (append-nil m) ∙ h)
names-ne m n a ip presence h = a.ip_ne (h ∙ append-nil n)
names-ne m n a ip ip h = a.ne (append_cancel_right m n "-ip" h)
names-ne m n a ip zone h = ip-ne-zone m n h
names-ne m n a zone presence h = a.zone_ne (h ∙ append-nil n)
names-ne m n a zone ip h = ip-ne-zone n m (sym h)
names-ne m n a zone zone h = a.ne (append_cancel_right m n "-zone" h)

label_key-ne :
    (a b : Allocation)
    → Apart a.spec.name b.spec.name
    → (f g : Fact) → (label_key b g == label_key a f) ≡ false
label_key-ne a b apart f g = ==-ne (label_key b g) (label_key a f) λ h.
    names-ne a.spec.name b.spec.name apart f g (
      append_cancel_left "allocation-" _ _ (
        append_cancel_left clusterbook_prefix _ _
          (sym (label_key-suffix a f) ∙ sym h ∙ label_key-suffix b g)))

module _ (a b : Allocation) (address : String) (info : Option ClusterInfo) (s : Secret) where
  -- Two allocations whose names are apart, which means that neither name is the other, alone or
  -- followed by -ip or -zone, do not touch one another's labels on a shared Secret: one that
  -- enriches it leaves the presence, IP and zone labels of the other as they are.
  pub enrich_secret-coexists :
      (f : Fact)
      → Apart a.spec.name b.spec.name
      → lookup (label_key a f) (enrich_secret b address info s).meta.labels
        ≡ lookup (label_key a f) s.meta.labels
  enrich_secret-coexists f apart = enrich_secret-other_label b address info s (label_key a f) (
      rw
        (
          label_key-ne a b apart f presence,
          label_key-ne a b apart f ip,
          label_key-ne a b apart f zone,
        )
        refl)

suffix-ne : (m x : String) → x ≢ "" → (m <> x == m) ≡ false
suffix-ne m x n = ==-ne (m <> x) m λ h. n (append_cancel_left m x "" (h ∙ sym (append-nil m)))

lookup-zone_labels :
    (j prefix : String) (info : Option ClusterInfo) (m : Map String)
    → (prefix <> "-zone" == j) ≡ false
    → lookup j (zone_labels prefix info m) ≡ lookup j m
unfolding zone_labels
lookup-zone_labels j prefix none m h = refl
lookup-zone_labels j prefix (some i) m h =
    ground (arith, lookup-insert_nonempty j (prefix <> "-zone") i.zone m)

module _ (a b : Allocation) (address : String) (info : Option ClusterInfo) (s : Secret) where
  enrich_secret-presence :
      lookup (key_prefix b) (enrich_secret b address info s).meta.labels ≡ some "true"
  unfolding enrich_secret
  enrich_secret-presence =
      let p = key_prefix b in
      rw
        (
          lookup-zone_labels p p info _ (suffix-ne p "-zone" (cons-ne-nil "-" "zone")),
          lookup-insert,
          suffix-ne p "-ip" (cons-ne-nil "-" "ip"),
          lookup-insert,
          eq_refl,
        )
        refl

  -- If one allocation's name is another's followed by -ip, then whatever the Secret held, the
  -- other's IP label is the text true once the first has enriched the Secret.
  pub enrich_secret-collides :
      b.spec.name ≡ a.spec.name <> "-ip"
      → lookup (label_key a ip) (enrich_secret b address info s).meta.labels ≡ some "true"
  enrich_secret-collides h =
      let same : label_key a ip ≡ key_prefix b =
        label_key-suffix a ip
        ∙ ap (λ n. clusterbook_prefix <> ("allocation-" <> n))
            (sym h ∙ sym (append-nil b.spec.name))
        ∙ sym (label_key-suffix b presence) in
      rw same enrich_secret-presence
