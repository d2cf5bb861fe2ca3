-- ===== src/Controller/Publish/Apply.antt =====
-- The endings of `Controller._apply_pending`.
use infer_stack.Base.{
  String, ◌≡◌, refl, Bool, true, false, not, ◌&&◌, ◌||◌, Option, none, some, arith, Option-cases,
  Bool-cases, inl, inr, subst, eqb, holds,
}
use infer_stack.Store.{Store, Marker}
use infer_stack.Store.Publication.{
  pending, mark_publication_pending, set_approved_digest, clear_approved_digest, same_digest,
  clear_publication_pending,
}
use infer_stack.Store.Publication.Marks.{flag}
use infer_stack.Controller.Publish.{
  Applied, returns, refused, cut_off, unobserved, Ending, completed, raised, Verdict, is_settled,
  is_given, complete, of, reapprove, approval, finish, attempt, apply_pending,
}

abbrev pub requested : Store → Bool
requested s = flag (λ m. m.apply_requested) (pending s)

abbrev pub interrupted : Store → Bool
interrupted s = flag (λ m. m.interrupted) (pending s)

-- No render is approved, or this is the one.
abbrev pub approves : Option String → Marker → Bool
approves rendered m =
    not (is_given m.approved_digest && not (same_digest rendered m.approved_digest))

abbrev pub is_completed : Ending → Bool
is_completed completed = true
is_completed _ = false

abbrev pub is_cut_off : Ending → Bool
is_cut_off (raised cut_off) = true
is_cut_off _ = false

abbrev pub is_complete : Applied → Bool
is_complete (returns value) = complete (of value)
is_complete _ = false

-- The leases, deployments and claims are untouched.
abbrev pub SameTables : Store → Store → Type 0
SameTables s t = (t.leases ≡ s.leases) × (t.deployments ≡ s.deployments) × (t.claims ≡ s.claims)

-- What the later stages need of the state that an apply goes ahead with.
abbrev Ready : Marker → Store → Store → Type 0
Ready m s t =
    (holds (λ n. eqb n.version m.version) (pending t) ≡ true)
    × (requested t ≡ true)
    × (interrupted t ≡ m.interrupted)
    × SameTables s t

set_approved_digest-Ready :
    (m : Marker) (digest : Option String) (s t : Store)
    → Ready m s t
    → Ready m s (set_approved_digest digest t)
unfolding set_approved_digest
set_approved_digest-Ready m digest s t h = elim (Option-cases (pending t)) [
  | inl e ↦ ground (arith, e)
  | inr (n, e) ↦ ground (arith, e)
]

reapprove-Ready :
    (rendered : Option String) (m : Marker) (s : Store)
    → Ready m s s
    → Ready m s (reapprove rendered s)
reapprove-Ready none m s h = h
reapprove-Ready (some digest) m s h = set_approved_digest-Ready m (some digest) s s h

approval-Ready :
    (explicit : Bool) (rendered : Option String) (m : Marker) (s : Store)
    → pending s ≡ some m
    → m.apply_requested ≡ true
    → (t : Store) (approved : Option String) → approval explicit rendered m s ≡ some (t, approved)
    → Ready m s t × ((explicit || approves rendered m) ≡ true)
unfolding approval
approval-Ready explicit rendered m s e f t approved k =
    let start : Ready m s s =
      (ground (arith, e), ground (arith, e), ground (arith, e), (refl, refl, refl)) in
    elim (Bool-cases (approves rendered m)) [
      | inl a ↦ (subst (Ready m s) {x = s} {y = t} (ground (arith, a)) start, ground (arith, a))
      | inr a ↦ elim (Bool-cases explicit) [
        | inr b ↦ ground (arith, a, b)
        | inl b ↦ (
          subst (Ready m s) {x = reapprove rendered s} {y = t} (ground (arith, a, b))
              (reapprove-Ready rendered m s start),
          ground (arith, b),
        )
      ]
    ]

approval-none :
    (explicit : Bool) (rendered : Option String) (m : Marker) (s : Store)
    → approval explicit rendered m s ≡ none
    → (explicit || approves rendered m) ≡ false
unfolding approval
approval-none explicit rendered m s k = ground (arith, k)

attempt-Ends :
    (m : Marker) (approved : Option String) (applied : Applied) (s t : Store)
    → Ready m s t
    → (is_completed (attempt m approved applied t).1 ≡ is_complete applied)
      × (is_complete applied ≡ true → pending (attempt m approved applied t).0 ≡ none)
      × (is_complete applied ≡ false
          → (requested (attempt m approved applied t).0 ≡ true)
            × (interrupted (attempt m approved applied t).0
                ≡ (m.interrupted || is_cut_off (attempt m approved applied t).1)))
      × SameTables s (attempt m approved applied t).0
unfolding attempt finish clear_approved_digest clear_publication_pending mark_publication_pending
attempt-Ends m approved (returns value) s t h = elim (Bool-cases (complete (of value))) [
  | inr e ↦ rw e (refl, λ x. ground arith, λ x. ground arith, h.3)
  | inl e ↦
      let u = set_approved_digest-Ready m none s t h in
      elim (Bool-cases (is_given approved)) [
        | inl f ↦
            rw (e, f)
              (
                refl,
                λ x. cleared (set_approved_digest none t) u,
                λ x. ground arith,
                tables (set_approved_digest none t) u,
              )
        | inr f ↦ rw (e, f) (refl, λ x. cleared t h, λ x. ground arith, tables t h)
      ]
]
  where
    cleared : (u : Store) → Ready m s u → pending (clear_publication_pending m.version u).0 ≡ none
    cleared u k = elim (Option-cases (pending u)) [
      | inl f ↦ ground (arith, f)
      | inr (n, f) ↦ ground (arith, f)
    ]

    tables : (u : Store) → Ready m s u → SameTables s (clear_publication_pending m.version u).0
    tables u k = elim (Option-cases (pending u)) [
      | inl f ↦ ground (arith, f)
      | inr (n, f) ↦ ground (arith, f)
    ]
attempt-Ends m approved refused s t h = elim (Option-cases (pending t)) [
  | inl e ↦ ground (arith, e)
  | inr (n, e) ↦ (refl, λ x. cc, λ x. ground (arith, e), ground (arith, e))
]
attempt-Ends m approved cut_off s t h = elim (Option-cases (pending t)) [
  | inl e ↦ ground (arith, e)
  | inr (n, e) ↦ (refl, λ x. cc, λ x. ground (arith, e), ground (arith, e))
]
attempt-Ends m approved unobserved s t h = (refl, λ x. cc, λ x. ground (arith, h), h.3)

module _ (explicit : Bool) (rendered : Option String) (verdict : Verdict) (applied : Applied)
    (s : Store) where
  -- The endings, one by one.
  pub apply_pending_cases :
      (is_completed (apply_pending explicit rendered verdict applied s).1 ≡ (
        requested s
        && (explicit || flag (approves rendered) (pending s))
        && (not (interrupted s) || is_settled verdict)
        && is_complete applied))
      × (is_completed (apply_pending explicit rendered verdict applied s).1 ≡ true
          → pending (apply_pending explicit rendered verdict applied s).0 ≡ none)
      × (is_completed (apply_pending explicit rendered verdict applied s).1 ≡ false
          → (requested (apply_pending explicit rendered verdict applied s).0 ≡ requested s)
            × (interrupted (apply_pending explicit rendered verdict applied s).0 ≡ (
                interrupted s || is_cut_off (apply_pending explicit rendered verdict applied s).1)))
      × SameTables s (apply_pending explicit rendered verdict applied s).0
  unfolding apply_pending
  apply_pending_cases = elim (Option-cases (pending s)) [
    | inl e ↦
        rw (e, apply_pending)
          (ground (arith, e), λ x. cc, λ x. ground (arith, e), (refl, refl, refl))
    | inr (m, e) ↦ elim (Bool-cases m.apply_requested) [
      | inr f ↦
          rw (e, f, apply_pending)
            (ground (arith, e, f), λ x. cc, λ x. ground (arith, e, f), (refl, refl, refl))
      | inl f ↦ elim (Option-cases (approval explicit rendered m s)) [
        | inl k ↦
            let no = approval-none explicit rendered m s k in
            rw (e, f, k, apply_pending)
              (ground (arith, e, f, no), λ x. cc, λ x. ground (arith, e, f), (refl, refl, refl))
        | inr ((t, approved), k) ↦
            let (ready, agreed) = approval-Ready explicit rendered m s e f t approved k in
            elim (Bool-cases (m.interrupted && not (is_settled verdict))) [
              | inl w ↦
                  rw (e, f, k, w, apply_pending)
                    (ground (arith, e, f, w), λ x. cc, λ x. ground (arith, e, f, w, ready), ready.3)
              | inr w ↦
                  let ends = attempt-Ends m approved applied s t ready in
                  rw (e, f, k, w, apply_pending)
                    (
                      ground (arith, e, f, w, ends, agreed),
                      λ x. ground (arith, ends),
                      λ x. ground (arith, e, f, ends),
                      ends.3,
                    )
            ]
      ]
    ]
  ]
