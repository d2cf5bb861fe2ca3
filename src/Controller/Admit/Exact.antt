-- ===== src/Controller/Admit/Exact.antt =====
-- When an admission has no objection.
use infer_stack.Base.{
  ℕ, String, ◌≡◌, refl, ◌∙◌, Bool, false, not, ◌&&◌, inl, inr, some, List, [], ◌∷◌, ◌++◌, any, all,
  filter, is_in, is_empty, is_empty-map, arith, Bool-cases,
}
use infer_stack.Models.{Deployment}
use infer_stack.Store.{Store}
use infer_stack.Residency.{Residency}
use infer_stack.Placement.Plan.{GpuPlan, PlacementError, is_known}
use infer_stack.Ledger.{AcquireOverlay}
use infer_stack.Controller.{Policy, unresolved_allocations}
use infer_stack.Controller.Admit.{
  Rendered, Preview, Reason, admit, decide, needs, preview_of, check_one, check_all, why_unrendered,
  why_unplaced, with_holders, gpu_holders, contains, reported, ids_of,
}

-- A claimed deployment that nothing speaks against.
abbrev pub is_accepted : List String → GpuPlan → Rendered → Deployment → Bool
is_accepted unresolved plan rendered g =
    not (is_in g.id unresolved)
    && not (is_in g.id plan.degraded)
    && is_known g.id plan.assignments
    && not (is_in g.id rendered.unrenderable)

is_empty-append : (xs ys : List Reason) → is_empty (xs ++ ys) ≡ (is_empty xs && is_empty ys)
is_empty-append [] ys = refl
is_empty-append (x ∷ xs) ys = refl

some_why : (id : String) (es : List PlacementError) → is_empty (why_unplaced id es) ≡ false
some_why id [] = refl
some_why id (e ∷ es) = refl

some_unrendered : (id : String) (es : List String) → is_empty (why_unrendered id es) ≡ false
unfolding why_unrendered
some_unrendered id es = ground (
  arith,
  is_empty-map (λ e. Reason.unrenderable id e) (filter (λ e. contains id e) es),
  is_empty-map (λ e. Reason.unrenderable id e) es,
)

module _ (c : Policy) (unresolved : List String) (plan : GpuPlan) (rendered : Rendered) where
  check_one-is_empty :
      (g : Deployment) (r : List Reason × Bool)
      → is_empty (check_one c unresolved plan rendered g.id r).0
        ≡ (is_empty r.0 && is_accepted unresolved plan rendered g)
  unfolding check_one
  check_one-is_empty g (reasons, capacity) = ground (
    arith,
    is_empty-append reasons (Reason.unresolved g.id ∷ []),
    is_empty-append reasons (Reason.lost g.id ∷ []),
    is_empty-append reasons (why_unplaced g.id (reported g.id plan.errors)),
    is_empty-append reasons (why_unrendered g.id rendered.errors),
    some_why g.id (reported g.id plan.errors),
    some_unrendered g.id rendered.errors,
  )

  check_all-is_empty :
      (gs : List Deployment) (r : List Reason × Bool)
      → is_empty (check_all c unresolved plan rendered gs r).0
        ≡ (is_empty r.0 && all (is_accepted unresolved plan rendered) gs)
  unfolding check_all all
  check_all-is_empty [] r = ground arith
  check_all-is_empty (g ∷ gs) r = ground (
    arith,
    check_one-is_empty g r,
    check_all-is_empty gs (check_one c unresolved plan rendered g.id r),
  )

with_holders-is_empty :
    (hs : List (String × List ℕ × List String)) (reasons : List Reason)
    → is_empty (with_holders hs reasons) ≡ is_empty reasons
with_holders-is_empty [] reasons = refl
with_holders-is_empty (h ∷ hs) [] = refl
with_holders-is_empty (h ∷ hs) (why ∷ reasons) = refl

module _ (c : Policy) (preview : Preview) (o : AcquireOverlay) (r : Residency) (now : ℕ)
    (s : Store) where
  abbrev pub previewed_plan : GpuPlan
  previewed_plan = (preview_of c preview o r now s).0

  abbrev pub previewed_render : Rendered
  previewed_render = (preview_of c preview o r now s).1

  -- Where the runtime can be read, an admission has no objection exactly when every deployment that
  -- the candidate claims is resolved, keeps its GPUs, is placed and can be rendered, and no fresh
  -- deployment needs new GPUs while another LIVE one has none committed.
  pub admit-is_empty : is_empty (admit c preview o (some r) now s).reasons ≡ (
      not (
        any (needs c (some r) o) o.deployments
        && not (is_empty (unresolved_allocations c (ids_of o.deployments) now s)))
      && all
          (is_accepted (unresolved_allocations c [] now s) previewed_plan previewed_render)
          o.deployments)
  unfolding admit decide
  admit-is_empty =
      elim (Bool-cases (
        any (needs c (some r) o) o.deployments
        && not (is_empty (unresolved_allocations c (ids_of o.deployments) now s)))) [
          | inl e ↦ rw e refl
          | inr e ↦ rw e (
              with_holders-is_empty (gpu_holders previewed_plan now s)
                (check_all c (unresolved_allocations c [] now s) previewed_plan previewed_render
                  o.deployments ([], false)).0
              ∙ check_all-is_empty c (unresolved_allocations c [] now s) previewed_plan
                  previewed_render o.deployments ([], false))
        ]
