-- ===== src/Controller/Acquire/Clean.antt =====
-- Which leases are ACTIVE after an attempt of `Controller._acquire_by_admission`.
use infer_stack.Base.{
  ℕ, String, ◌≡◌, refl, ap, ◌∙◌, Bool, false, Option, none, some, ◌==◌, eq_iff, Bool-cases, inl,
  inr, is_empty,
}
use infer_stack.Result.{
  Result, ok, err, integrity, admission_conflict, profile_mismatch, address_taken, vanished,
}
use infer_stack.Store.{Store}
use infer_stack.Ledger.{Ids, AcquireResult}
use infer_stack.Base.{subst, sym}
use infer_stack.Controller.Acquire.{refused, declined, conflict, not_stored, failed, disagreed}
use infer_stack.Controller.{Policy}
use infer_stack.Controller.Publish.{mark_pending, apply_pending}
use infer_stack.Controller.Publish.Apply.{apply_pending_cases}
use infer_stack.Controller.Render.{
  Written, Rendering, unread, not_approved, not_rendered, rendered, Publication, render,
}
use infer_stack.Controller.Render.Frame.{active_at, render-Keeps, still_inactive}
use infer_stack.Controller.Acquire.{
  Ask, World, Attempt, granted, is_raised, stops, maintain, lease_of, undone, apply_admitted,
  unplaced_of, after_render, after_commit, admitted, decided, decision, attempt, after_upkeep,
  candidate, stored_digest,
}
use infer_stack.Controller.Acquire.Rollback.{
  NoneAdded, AddedOnly, same_leases, mark_pending-leases, maintain-NoneAdded, rollback_acquire-ends,
  acquire-AddedOnly, acquire-lease,
}

-- What an attempt may have added: the lease that it grants.
abbrev pub IsClean : Store → Store × Attempt → Type 0
IsClean s (t, granted answer) = AddedOnly answer.lease.id s t
IsClean s (t, refused reasons) = NoneAdded s t
IsClean s (t, declined) = NoneAdded s t
IsClean s (t, conflict) = NoneAdded s t
IsClean s (t, not_stored e) = NoneAdded s t
IsClean s (t, failed p) = NoneAdded s t
IsClean s (t, disagreed ids) = NoneAdded s t

-- A maintenance sweep before it adds none.
pub IsClean-trans : (s t : Store) (r : Store × Attempt) → NoneAdded s t → IsClean t r → IsClean s r
IsClean-trans s t (u, granted answer) m h = λ id ne k. h id ne (m id k)
IsClean-trans s t (u, refused reasons) m h = λ id k. h id (m id k)
IsClean-trans s t (u, declined) m h = λ id k. h id (m id k)
IsClean-trans s t (u, conflict) m h = λ id k. h id (m id k)
IsClean-trans s t (u, not_stored e) m h = λ id k. h id (m id k)
IsClean-trans s t (u, failed p) m h = λ id k. h id (m id k)
IsClean-trans s t (u, disagreed ids) m h = λ id k. h id (m id k)

module _ (c : Policy) (fresh : Option String) (w : World) (ask : Ask) (now : ℕ) (lease : String)
    (s : Store) where
  undone-NoneAdded :
      (apply : Bool) (u : Store)
      → AddedOnly lease s u
      → NoneAdded s (undone c fresh w ask now lease apply u)
  undone-NoneAdded apply u only id h =
      let (kept, ends) = rollback_acquire-ends c fresh w.undo now apply lease u in
      elim (Bool-cases (id == lease)) [
        | inr ne ↦ kept id (only id ne h)
        | inl same ↦
            ap (active_at (undone c fresh w ask now lease apply u)) ((eq_iff id lease).0 same)
            ∙ ends
      ]

  apply_admitted-IsClean :
      (answer : AcquireResult) (x : Written) (u : Store)
      → answer.lease.id ≡ lease
      → AddedOnly lease s u
      → IsClean s (apply_admitted c fresh w ask now lease answer x u)
  unfolding apply_admitted
  apply_admitted-IsClean answer x u same only = elim (Bool-cases ask.apply) [
    | inr e ↦ rw e (subst (λ j. AddedOnly j s u) (sym same) only)
    | inl e ↦
        let p = apply_pending_cases w.main.explicit x.digest w.main.verdict w.main.applied u in
        let (t, ending) = apply_pending w.main.explicit x.digest w.main.verdict w.main.applied u in
        elim (Bool-cases (is_raised ending)) [
          | inr f ↦
              rw (e, f)
                (subst (λ j. AddedOnly j s t) (sym same)
                  (λ id ne h. same_leases u t p.3.0 id (only id ne h)))
          | inl f ↦
              rw (e, f)
                (undone-NoneAdded false t (λ id ne h. same_leases u t p.3.0 id (only id ne h)))
        ]
  ]

  after_render-IsClean :
      (answer : AcquireResult) (u : Store) (r : Rendering)
      → answer.lease.id ≡ lease
      → AddedOnly lease s u
      → IsClean s (after_render c fresh w ask now lease answer u r)
  unfolding after_render
  after_render-IsClean answer u not_approved same only = undone-NoneAdded ask.apply u only
  after_render-IsClean answer u unread same only = undone-NoneAdded false u only
  after_render-IsClean answer u not_rendered same only = undone-NoneAdded false u only
  after_render-IsClean answer u (rendered x) same only =
      elim (Bool-cases (is_empty (unplaced_of c fresh w ask now lease answer x))) [
        | inl e ↦ rw e (apply_admitted-IsClean answer x u same only)
        | inr e ↦ rw e (undone-NoneAdded ask.apply u only)
      ]

  after_commit-IsClean :
      (u : Store) (x : Result (Store × AcquireResult))
      → NoneAdded s u
      → ((t : Store) (answer : AcquireResult)
          → x ≡ ok (t, answer)
          → (answer.lease.id ≡ lease) × AddedOnly lease s t)
      → IsClean s (after_commit c fresh w ask now lease u x)
  unfolding after_commit
  after_commit-IsClean u (ok (t, answer)) none_added only =
      let (v, r) = render c w.main t in
      after_render-IsClean answer v r (only t answer refl).0 (λ id ne h.
        still_inactive t v id (render-Keeps c w.main t) ((only t answer refl).1 id ne h))
  after_commit-IsClean u (err admission_conflict) none_added only = none_added
  after_commit-IsClean u (err integrity) none_added only = none_added
  after_commit-IsClean u (err profile_mismatch) none_added only = none_added
  after_commit-IsClean u (err address_taken) none_added only = none_added
  after_commit-IsClean u (err vanished) none_added only = none_added

module _ (c : Policy) (fresh : Option String) (ids : Ids) (w : World) (ask : Ask)
    (now next_id : ℕ) where
  admitted-IsClean :
      (approve : Option (Option String)) (s : Store)
      → IsClean s (admitted c fresh ids w ask now next_id approve s)
  unfolding admitted
  admitted-IsClean none s = λ id h. h
  admitted-IsClean (some digest) s =
      let t = mark_pending ask.apply fresh s in
      let o = candidate c fresh ids w ask now next_id s in
      let d = decision c fresh ids w ask now next_id s in
      let marked = same_leases s t (mark_pending-leases ask.apply fresh s) in
      after_commit-IsClean c fresh w ask now (lease_of c fresh ids w ask now next_id s) s t _ marked
        (λ u answer e. (
          acquire-lease ids ask.owner ask.requests ask.ttl_seconds (some o) d.allocations
              (stored_digest ask.apply digest) ask.profile now o.next_id t u answer e,
          λ id ne h.
              acquire-AddedOnly ids ask.owner ask.requests ask.ttl_seconds o d.allocations
                (stored_digest ask.apply digest) ask.profile now o.next_id t u answer e id ne
                (marked id h),
        ))

  decided-IsClean : (s : Store) → IsClean s (decided c fresh ids w ask now next_id s)
  unfolding decided
  decided-IsClean s =
      elim (Bool-cases (is_empty (decision c fresh ids w ask now next_id s).reasons)) [
        | inl e ↦ rw e (admitted-IsClean w.approve s)
        | inr e ↦ rw e (λ id h. h)
      ]

  -- An attempt leaves no lease ACTIVE that was not ACTIVE before it, but the one that it grants: none
  -- where it is refused, declined, in conflict or fails anywhere after its commit, whatever the backend
  -- answers then.
  pub attempt-IsClean : (s : Store) → IsClean s (attempt c fresh ids w ask now next_id s)
  unfolding attempt
  attempt-IsClean s =
      let (t, p) = maintain c fresh w.upkeep now s in
      IsClean-trans s t (after_upkeep c fresh ids w ask now next_id t p)
        (maintain-NoneAdded c fresh w.upkeep now s) (after t p)
    where
      after :
          (t : Store) (p : Option Publication)
          → IsClean t (after_upkeep c fresh ids w ask now next_id t p)
      after t none = decided-IsClean t
      after t (some p) = elim (Bool-cases (stops p)) [
        | inl e ↦ rw e (λ id h. h)
        | inr e ↦ rw e (decided-IsClean t)
      ]
