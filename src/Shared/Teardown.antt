-- ===== src/Shared/Teardown.antt =====
-- The end of every `finalize`: what was published is withdrawn, the IP released, and the CR written
-- without its finalizer (controller/*_reconciler.go, controller/reconciler.go).
use clusterbook_operator.Prelude.{
  String, ◌≡◌, ◌≢◌, ap, Bool, true, not, ◌&&◌, ◌==◌, ==-ne, if◌then◌else◌,
}
use clusterbook_operator.Exec.{Result, ok, Exec, pure, context, ◌>>◌}
use clusterbook_operator.Exec.Inversion.{>>=-eq-ok, context-eq-ok}

module _ {S : Type 0} {A B : Type 0} where
  -- Three steps and a fixed result: each of them returned.
  pub teardown-eq-ok :
      (withdraw release : Exec S (Unit {0})) (write : Exec S A) (b : B) (s u : S) {b' : B}
      → (withdraw >> (release >> (write >> pure b))) s ≡ (ok b', u)
      → (t v : S) × (o : A) × (withdraw s ≡ (ok tt, t))
        × (release t ≡ (ok tt, v))
        × (write v ≡ (ok o, u))
  teardown-eq-ok withdraw release write b s u h =
      let (_, t, first, rest) =
        >>=-eq-ok withdraw (λ (_ : Unit {0}). release >> (write >> pure b)) s h in
      let (_, v, second, rest') = >>=-eq-ok release (λ (_ : Unit {0}). write >> pure b) t rest in
      let (o, w, third, end) = >>=-eq-ok write (λ (_ : A). pure b) v rest' in
      (t, v, o, first, second, rw (ap (λ (p : Result B × S). p.1) end) at third)

-- The release of an IP that is held, where it is wanted, is the request.
pub release-eq-ok :
    {S : Type 0} (wanted : Bool) (ip : String) (send : Exec S (Unit {0})) (s t : S)
    → wanted ≡ true
    → ip ≢ ""
    → (if wanted && not (ip == "") then context "release IP" send else pure tt) s ≡ (ok tt, t)
    → send s ≡ (ok tt, t)
release-eq-ok wanted ip send s t w held h =
    context-eq-ok "release IP" send s (rw (w, ==-ne ip "" held) at h)
