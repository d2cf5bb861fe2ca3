-- ===== src/Controller/Publish/Exact.antt =====
-- The state that `Controller._apply_pending` leaves, and how it ends.
use infer_stack.Base.{
  ◌+◌, String, ◌≡◌, refl, sym, Bool, true, false, not, ◌&&◌, ◌||◌, Option, none, some, arith,
  Option-cases, Bool-cases, inl, inr, eq_iff, if◌then◌else◌,
}
use infer_stack.Store.{Store, Marker}
use infer_stack.Store.Publication.{
  pending, mark_publication_pending, set_approved_digest, clear_approved_digest, same_digest,
  clear_publication_pending,
}
use infer_stack.Store.Publication.Marks.{flag}
use infer_stack.Controller.Publish.{
  Applied, returns, refused, cut_off, unobserved, Ending, raised, Verdict, is_settled, approval,
  finish, attempt, apply_pending,
}
use infer_stack.Controller.Publish.Apply.{
  requested, interrupted, approves, is_completed, is_cut_off, is_complete, apply_pending_cases,
}

abbrev pub is_there : Option String → Bool
is_there none = false
is_there (some digest) = true

-- The operator's own apply approves the render that was not the approved one.
abbrev pub takes_over : Bool → Option String → Marker → Bool
takes_over explicit rendered m =
    m.apply_requested && explicit && not (approves rendered m) && is_there rendered

-- The apply was refused or cut off, and is marked again.
abbrev pub is_remarked : Ending → Bool
is_remarked (raised refused) = true
is_remarked (raised cut_off) = true
is_remarked _ = false

-- The marker that is left.
abbrev pub left : Bool → Option String → Ending → Option Marker → Option Marker
left explicit rendered ending none = none
left explicit rendered ending (some m) =
    if is_completed ending
    then none
    else some (record {
      version = if is_remarked ending then m.version + 1 else m.version;
      apply_requested = m.apply_requested;
      interrupted = m.interrupted || is_cut_off ending;
      placement_context = m.placement_context;
      approved_digest = if takes_over explicit rendered m then rendered else m.approved_digest;
    })

-- The state with this marker, and nothing else changed.
abbrev pub with_marker : Option Marker → Store → Store
with_marker o s = record s { meta = record s.meta { publication_pending = o } }

abbrev reapproved : Bool → Option String → Marker → Marker
reapproved explicit rendered m = record m {
  approved_digest = if takes_over explicit rendered m then rendered else m.approved_digest;
}

same_digest_sym : (a b : Option String) → same_digest a b ≡ same_digest b a
same_digest_sym none none = refl
same_digest_sym none (some b) = refl
same_digest_sym (some a) none = refl
same_digest_sym (some a) (some b) = ground (arith, eq_iff a b, eq_iff b a)

approval-with_marker :
    (explicit : Bool) (rendered : Option String) (m : Marker) (s : Store)
    → pending s ≡ some m
    → m.apply_requested ≡ true
    → (t : Store) (approved : Option String) → approval explicit rendered m s ≡ some (t, approved)
    → t ≡ with_marker (some (reapproved explicit rendered m)) s
unfolding approval set_approved_digest
approval-with_marker explicit none m s e f t approved k = ground (arith, e, f, k)
approval-with_marker explicit (some d) m s e f t approved k =
    elim (Bool-cases (approves (some d) m)) [
      | inl a ↦ ground (arith, e, f, a, k)
      | inr a ↦ elim (Bool-cases explicit) [
        | inr x ↦ ground (arith, e, f, a, x, k)
        | inl x ↦
            over (ground (arith, f, a, x, k))
              (ground (arith, a, same_digest_sym m.approved_digest (some d)))
              (ground (arith, f, a, x))
      ]
    ]
  where
    over :
        set_approved_digest (some d) s ≡ t
        → same_digest m.approved_digest (some d) ≡ false
        → takes_over explicit (some d) m ≡ true
        → t ≡ with_marker (some (reapproved explicit (some d) m)) s
    over g h o = ground (arith, sym g, e, h, o)

attempt-with_marker :
    (m n : Marker) (approved : Option String) (applied : Applied) (s : Store)
    → n.version ≡ m.version
    → n.apply_requested ≡ true
    → (attempt m approved applied (with_marker (some n) s)).0
      ≡ with_marker
          (left false none (attempt m approved applied (with_marker (some n) s)).1 (some n))
          s
unfolding attempt finish mark_publication_pending clear_publication_pending clear_approved_digest
attempt-with_marker m n approved (returns value) s e f = ground (arith, e, f)
attempt-with_marker m n approved refused s e f = ground (arith, e, f)
attempt-with_marker m n approved cut_off s e f = ground (arith, e, f)
attempt-with_marker m n approved unobserved s e f = ground (arith, e, f)

module _ (explicit : Bool) (rendered : Option String) (verdict : Verdict) (applied : Applied)
    (s : Store) where
  apply_pending-with_marker :
      (apply_pending explicit rendered verdict applied s).0
      ≡ with_marker
          (left explicit rendered (apply_pending explicit rendered verdict applied s).1 (pending s))
          s
  unfolding apply_pending
  apply_pending-with_marker = elim (Option-cases (pending s)) [
    | inl e ↦ rw (e, apply_pending) (ground (arith, e))
    | inr (m, e) ↦ elim (Bool-cases m.apply_requested) [
      | inr f ↦ rw (e, f, apply_pending) (ground (arith, e, f))
      | inl f ↦ elim (Option-cases (approval explicit rendered m s)) [
        | inl k ↦ rw (e, f, k, apply_pending) (ground (arith, e, f, k))
        | inr ((t, approved), k) ↦
            let n = reapproved explicit rendered m in
            let same = approval-with_marker explicit rendered m s e f t approved k in
            elim (Bool-cases (m.interrupted && not (is_settled verdict))) [
              | inl w ↦ rw (e, f, k, w, apply_pending) (ground (arith, same, f))
              | inr w ↦
                  let left_by = attempt-with_marker m n approved applied s refl f in
                  rw (e, f, k, w, apply_pending, same) (ground (arith, left_by, f))
            ]
      ]
    ]
  ]

  -- A publication completes exactly when an apply is requested, the render is the approved one (or none
  -- is approved, or the operator applies explicitly), an interrupted runtime has settled, and the
  -- backend's apply returns a complete result. Its state differs in the marker alone. A completed
  -- publication leaves none. Otherwise the marker that was there stays as it was, but for three fields:
  -- an apply that was refused or cut off makes it one version newer, one that was cut off marks it as
  -- interrupted, and an explicit apply of another render than the approved one approves that render.
  pub apply_pending_lem :
      (is_completed (apply_pending explicit rendered verdict applied s).1 ≡ (
        requested s
        && (explicit || flag (approves rendered) (pending s))
        && (not (interrupted s) || is_settled verdict)
        && is_complete applied))
      × ((apply_pending explicit rendered verdict applied s).0
          ≡ with_marker
              (left explicit rendered
                (apply_pending explicit rendered verdict applied s).1
                (pending s))
              s)
  apply_pending_lem =
      ((apply_pending_cases explicit rendered verdict applied s).0, apply_pending-with_marker)
