-- ===== src/Controller/Sound/Upkeep.antt =====
-- The releases, evictions, collections and renewals of `Controller` as steps of the ledger's life.
use infer_stack.Base.{
  ℕ, String, Bool, true, false, not, Option, none, some, List, [], ◌∷◌, filter, dedup, is_empty,
  is_in, Bool-cases, Option-cases, inl, inr,
}
use infer_stack.Store.{Store}
use infer_stack.Ledger.{Ids}
use infer_stack.Ledger.Upkeep.{release, sweep}
use infer_stack.System.{Reachable, after}
use infer_stack.Controller.{Policy}
use infer_stack.Controller.Publish.{mark_pending}
use infer_stack.Controller.Render.{Round}
use infer_stack.Controller.Calls.{
  evict_call, evict_if, release_each, evict_batch, release_batch, release_leases, is_missing,
}
use infer_stack.Controller.Sound.{
  mark_pending-Reachable, sweep-Reachable, evict_idle-Reachable, release-Reachable,
  publish-Reachable,
}
use infer_stack.Base.{◌==◌, Dict}
use infer_stack.Models.{Deployment, is_active}
use infer_stack.Store.{get_lease}
use infer_stack.Ledger.Upkeep.{
  renew, renew_if_live, FastRenewal, not_renewable, needs_admission, renewed,
}
use infer_stack.System.{marks, renews, renews_fast}
use infer_stack.Controller.{victim}
use infer_stack.Controller.Admit.{Preview, admit}
use infer_stack.Controller.Calls.{
  with_approval, renew_admitted, renewal_overlay, renew_revived, renew_slowly, after_fast,
  renew_call, make_room,
}
use infer_stack.Controller.Calls.{reconcile_call}
use infer_stack.Controller.Render.{then_stage}
use infer_stack.Controller.Render.{Rendering, rendered, unread, not_approved, not_rendered, render}
use infer_stack.Controller.Sound.{render-Reachable}

module _ (ids : Ids) (c : Policy) where
  module _ (e : Round) (fresh : Option String) (now : ℕ) where
    release_each-Reachable :
        (gone : List String) (s : Store)
        → Reachable ids s
        → Reachable ids (release_each c e fresh now gone s).0
    unfolding release_each
    release_each-Reachable [] s h = h
    release_each-Reachable (x ∷ xs) s h =
        release_each-Reachable xs (release x now s).0 (release-Reachable ids x now s h)

    pub evict_if-Reachable :
        (b : Bool) (s : Store) → Reachable ids s → Reachable ids (evict_if c e fresh now b s).0
    evict_if-Reachable false s h = h
    evict_if-Reachable true s h = evict_idle-Reachable ids none now s h

    evict_batch-Reachable :
        (evict every : Bool) (idled : List String) (s : Store)
        → Reachable ids s
        → Reachable ids (evict_batch c e fresh now evict every idled s).0
    evict_batch-Reachable false every idled s h = h
    evict_batch-Reachable true true idled s h = evict_idle-Reachable ids none now s h
    evict_batch-Reachable true false [] s h = h
    evict_batch-Reachable true false (x ∷ xs) s h = evict_idle-Reachable ids (some (x ∷ xs)) now s h

    release_batch-Reachable :
        (evict every : Bool) (gone missing : List String) (s : Store)
        → Reachable ids s
        → Reachable ids (release_batch c e fresh now evict every gone missing s).0
    unfolding release_batch
    release_batch-Reachable evict every gone missing s h =
        let (t, released, idled) = release_each c e fresh now gone s in
        publish-Reachable ids c e (evict_batch c e fresh now evict every (dedup idled) t).0
          (evict_batch-Reachable evict every (dedup idled) t (release_each-Reachable gone s h))

    pub release_leases-Reachable :
        (wanted : Option (List String)) (evict : Bool) (s : Store)
        → Reachable ids s
        → Reachable ids (release_leases c e fresh now wanted evict s).0
    unfolding release_leases
    release_leases-Reachable none evict s h =
        let a = mark_pending true fresh s in
        release_batch-Reachable evict true _ [] (sweep now a).0
          (sweep-Reachable ids now a (mark_pending-Reachable ids true fresh s h))
    release_leases-Reachable (some lease_ids) evict s h =
        let missing = filter (is_missing c e fresh now s) (dedup lease_ids) in
        elim (Bool-cases (is_empty (filter (λ id. not (is_in id missing)) (dedup lease_ids)))) [
          | inl f ↦ rw f h
          | inr f ↦ rw f (
              release_batch-Reachable evict false _ missing (mark_pending true fresh s)
                (mark_pending-Reachable ids true fresh s h))
        ]

    with_approval-Reachable :
        (preview : Preview) (approve : Option (Option String)) (ttl : Option ℕ)
        (digest : Option String) (s : Store)
        → Reachable ids s
        → Reachable ids (with_approval c e fresh now preview approve ttl digest s)
    with_approval-Reachable preview approve ttl none s h = h
    with_approval-Reachable preview approve ttl (some digest) s h =
        elim (Bool-cases (digest == "")) [
          | inl f ↦ rw f h
          | inr f ↦ rw f (after s _ h (marks true false none (some digest) none s))
        ]

    renew_admitted-Reachable :
        (preview : Preview) (approve asked : Option (Option String)) (ttl : Option ℕ)
        (lease_id : String) (revived : List String) (allocations : Dict (List ℕ)) (s : Store)
        → Reachable ids s
        → Reachable ids
            (renew_admitted c e fresh now preview asked ttl approve lease_id revived allocations
              s).0
    unfolding renew_admitted
    renew_admitted-Reachable preview none asked ttl lease_id revived allocations s h = h
    renew_admitted-Reachable preview (some digest) asked ttl lease_id revived allocations s h =
        let t = with_approval c e fresh now preview asked ttl digest (mark_pending true fresh s) in
        let marked =
          with_approval-Reachable preview asked ttl digest (mark_pending true fresh s)
            (mark_pending-Reachable ids true fresh s h) in
        publish-Reachable ids c e (renew lease_id ttl allocations now t).0
          (after t _ marked (renews lease_id ttl allocations now t))

    module _ (preview : Preview) (approve : Option (Option String)) (ttl : Option ℕ) where
      renew_revived-Reachable :
          (lease_id : String) (gs : List Deployment) (s : Store)
          → Reachable ids s
          → Reachable ids (renew_revived c e fresh now preview approve ttl lease_id gs s).0
      unfolding renew_revived
      renew_revived-Reachable lease_id [] s h = after s _ h (renews lease_id ttl [] now s)
      renew_revived-Reachable lease_id (g ∷ gs) s h =
          let o = renewal_overlay c e fresh now (g ∷ gs) s in
          let d = admit c preview o e.residency now s in
          elim (Bool-cases (is_empty d.reasons)) [
            | inl f ↦ rw f (
                renew_admitted-Reachable preview approve approve ttl lease_id o.revived
                  d.allocations s h)
            | inr f ↦ rw f h
          ]

      renew_slowly-Reachable :
          (lease_id : String) (s : Store)
          → Reachable ids s
          → Reachable ids (renew_slowly c e fresh now preview approve ttl lease_id s).0
      unfolding renew_slowly
      renew_slowly-Reachable lease_id s h = elim (Option-cases (get_lease s lease_id)) [
        | inl f ↦ rw (f, renew_slowly) h
        | inr (l, f) ↦ elim (Bool-cases (is_active l.state)) [
          | inl a ↦ rw (f, a, renew_slowly) (renew_revived-Reachable lease_id _ s h)
          | inr a ↦ rw (f, a, renew_slowly) h
        ]
      ]

      pub renew_call-Reachable :
          (lease_id : String) (s : Store)
          → Reachable ids s
          → Reachable ids (renew_call c e fresh now preview approve ttl lease_id s).0
      unfolding renew_call
      renew_call-Reachable lease_id s h =
          let (t, fast) = renew_if_live lease_id ttl now s in
          next t fast (after s t h (renews_fast lease_id ttl now s))
        where
          next :
              (t : Store) (fast : FastRenewal)
              → Reachable ids t
              → Reachable ids (after_fast c e fresh now preview approve ttl lease_id t fast).0
          next t not_renewable k = k
          next t (renewed lease) k = k
          next t needs_admission k = renew_slowly-Reachable lease_id t k

    pub evict_call-Reachable :
        (wanted : Option (List String)) (s : Store)
        → Reachable ids s
        → Reachable ids (evict_call c e fresh now wanted s).0
    unfolding evict_call
    evict_call-Reachable wanted s h =
        let a = mark_pending true fresh s in
        publish-Reachable ids c e _ (
          evict_idle-Reachable ids wanted now (sweep now a).0
            (sweep-Reachable ids now a (mark_pending-Reachable ids true fresh s h)))

    pub make_room-Reachable :
        (reclaim_candidates : Deployment → List Deployment → List String)
        (blocked : List Deployment) (s : Store)
        → Reachable ids s
        → Reachable ids (make_room c e fresh now reclaim_candidates blocked s).0
    unfolding make_room
    make_room-Reachable reclaim_candidates blocked s h =
        elim (Option-cases (victim reclaim_candidates blocked now s)) [
          | inl f ↦ rw (f, make_room) h
          | inr (g, f) ↦ rw (f, make_room) (evict_call-Reachable (some (g.id ∷ [])) s h)
        ]

    pub reconcile_call-Reachable :
        (apply : Bool) (s : Store)
        → Reachable ids s
        → Reachable ids (reconcile_call c e fresh now apply s).0
    unfolding reconcile_call
    reconcile_call-Reachable true s h =
        publish-Reachable ids c e (mark_pending true fresh s)
          (mark_pending-Reachable ids true fresh s h)
    reconcile_call-Reachable false s h =
        let a = mark_pending false fresh s in
        let (t, r) = render c e a in
        then_staged t r (render-Reachable ids c e a (mark_pending-Reachable ids false fresh s h))
      where
        then_staged :
            (t : Store) (r : Rendering) → Reachable ids t → Reachable ids (then_stage t r).0
        then_staged t (rendered w) k = k
        then_staged t unread k = k
        then_staged t not_approved k = k
        then_staged t not_rendered k = k
