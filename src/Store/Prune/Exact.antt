-- ===== src/Store/Prune/Exact.antt =====
-- What `SqliteStore.prune` deletes and when it is refused.
use infer_stack.Base.{
  ℕ, ◌-◌, ◌≡◌, refl, sym, ap, ◌∙◌, Bool, false, not, ◌&&◌, List, [], ◌∷◌, filter, any, length,
  arith, ◌==◌, eq_iff, any-filter, any_congr, any_guard, any_swap, any-false, filter_congr,
}
use infer_stack.Models.{LeaseState, DeploymentState, Deployment}
use infer_stack.Result.{Result, ok, ◌>>=◌}
use infer_stack.Store.{Store, LeaseRow, Claim}
use infer_stack.Store.Prune.{
  prune, delete_claims_of_leases, delete_claims_of_deployments, delete_leases, delete_deployments,
}

filter-filter {ℓ} :
    {A : Type ℓ} (p q : A → Bool) (xs : List A)
    → filter p (filter q xs) ≡ filter (λ x. q x && p x) xs
unfolding filter
filter-filter p q [] = refl
filter-filter p q (x ∷ xs) = ground (arith, filter-filter p q xs)

-- The claim's lease goes, or its deployment does.
abbrev pub loses_lease : (LeaseState → Bool) → Store → Claim → Bool
loses_lease gone s c = any (λ l. l.id == c.lease_id && gone l.state) s.leases

abbrev pub loses_deployment : (DeploymentState → Bool) → Store → Claim → Bool
loses_deployment gone s c = any (λ g. g.id == c.deployment_id && gone g.state) s.deployments

module _ (lease_gone : LeaseState → Bool) (deployment_gone : DeploymentState → Bool)
    (s : Store) where
  abbrev pub survives : Claim → Bool
  survives c = not (loses_lease lease_gone s c) && not (loses_deployment deployment_gone s c)

  claims_left :
      filter
        (λ c. not (loses_lease lease_gone s c))
        (filter
          (λ c. not (loses_deployment deployment_gone s c))
          (filter (λ c. not (loses_lease lease_gone s c)) s.claims))
      ≡ filter survives s.claims
  claims_left =
      filter-filter (λ c. not (loses_lease lease_gone s c))
        (λ c. not (loses_deployment deployment_gone s c)) _
      ∙ filter-filter
          (λ c. not (loses_deployment deployment_gone s c) && not (loses_lease lease_gone s c))
          (λ c. not (loses_lease lease_gone s c)) s.claims
      ∙ filter_congr
          (λ c.
            not (loses_lease lease_gone s c)
            && (not (loses_deployment deployment_gone s c) && not (loses_lease lease_gone s c)))
          survives s.claims (λ c. ground arith)

  -- No claim that is left refers to a deployment that goes.
  none_dangling :
      any
        (λ g.
          deployment_gone g.state && any (λ c. c.deployment_id == g.id) (filter survives s.claims))
        s.deployments
      ≡ false
  none_dangling =
      any_congr
        (λ g.
          deployment_gone g.state && any (λ c. c.deployment_id == g.id) (filter survives s.claims))
        (λ g.
          any (λ (c : Claim). survives c && (deployment_gone g.state && (c.deployment_id == g.id)))
            s.claims)
        s.deployments
        (λ g.
          any_guard (deployment_gone g.state) (λ (c : Claim). c.deployment_id == g.id)
            (filter survives s.claims)
          ∙ any-filter (λ (c : Claim). deployment_gone g.state && (c.deployment_id == g.id))
              survives s.claims)
      ∙ any_swap
          (λ (g : Deployment) (c : Claim).
            survives c && (deployment_gone g.state && (c.deployment_id == g.id)))
          s.deployments s.claims
      ∙ any_congr
          (λ (c : Claim).
            any
              (λ (g : Deployment).
                survives c && (deployment_gone g.state && (c.deployment_id == g.id)))
              s.deployments)
          (λ c. false) s.claims
          (λ c.
            sym (
              any_guard (survives c)
                (λ (g : Deployment). deployment_gone g.state && (c.deployment_id == g.id))
                s.deployments)
            ∙ ap (λ b. survives c && b)
                (any_congr
                  (λ (g : Deployment). deployment_gone g.state && (c.deployment_id == g.id))
                  (λ g. g.id == c.deployment_id && deployment_gone g.state) s.deployments
                  (λ g. ground (arith, eq_iff c.deployment_id g.id, eq_iff g.id c.deployment_id)))
            ∙ ground arith)
      ∙ any-false s.claims

  abbrev pub pruned : Store
  pruned = record s {
    leases = filter (λ l. not (lease_gone l.state)) s.leases;
    deployments = filter (λ g. not (deployment_gone g.state)) s.deployments;
    claims = filter survives s.claims;
  }

delete_deployments-ok :
    (gone : DeploymentState → Bool) (u : Store)
    → any (λ g. gone g.state && any (λ c. c.deployment_id == g.id) u.claims) u.deployments ≡ false
    → delete_deployments gone u
      ≡ ok (record u { deployments = filter (λ g. not (gone g.state)) u.deployments })
unfolding delete_deployments
delete_deployments-ok gone u e = rw (delete_deployments, e) refl

-- A prune is never refused by a foreign key. It deletes exactly the leases and the deployments of the
-- states that are given, and of the claims those whose lease or deployment goes; it keeps the order
-- of the rest, the addresses and the counters, and reports how many leases and deployments went.
pub prune_ok :
    (lease_gone : LeaseState → Bool) (deployment_gone : DeploymentState → Bool) (s : Store)
    → prune lease_gone deployment_gone s
      ≡ ok (
        pruned lease_gone deployment_gone s,
        length s.leases - length (filter (λ l. not (lease_gone l.state)) s.leases),
        length s.deployments - length (filter (λ g. not (deployment_gone g.state)) s.deployments),
      )
unfolding prune delete_claims_of_leases delete_claims_of_deployments delete_leases
    delete_deployments
prune_ok lease_gone deployment_gone s =
    ap (λ cs. delete_deployments deployment_gone (with_claims cs) >>= counted)
      (claims_left lease_gone deployment_gone s)
    ∙ ap (λ r. r >>= counted)
        (delete_deployments-ok deployment_gone (with_claims _)
          (none_dangling lease_gone deployment_gone s))
  where
    with_claims : List Claim → Store
    with_claims cs = record s {
      leases = filter (λ l. not (lease_gone l.state)) s.leases;
      claims = cs;
    }

    counted : Store → Result (Store × ℕ × ℕ)
    counted v = ok (
      v,
      length s.leases - length (filter (λ (l : LeaseRow). not (lease_gone l.state)) s.leases),
      length s.deployments - length v.deployments,
    )
