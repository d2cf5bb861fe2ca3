-- ===== src/Residency/Inspect/Snapshot.antt =====
-- Which containers a snapshot from `docker inspect` has.
use infer_stack.Base.{
  String, ◌≡◌, refl, ◌∙◌, subst, Bool, false, ◌&&◌, ◌||◌, Option, none, some, List, [], ◌∷◌, ◌++◌,
  any, any-append, any-sort, sort, arith, eq_iff, ◌==◌, Dict, insert, lookup, lookup-insert,
}
use infer_stack.Residency.{Container, Residency, groups, all_containers, units}
use infer_stack.Residency.Inspect.{
  Entry, non_object, object, to_container, group_of, add_unit, collect, no_residency, by_id,
  sort_groups, sorted_snapshot, residency_from_inspect,
}

-- An entry of the project whose container passes the test.
abbrev pub passes : (String → String) → String → (Container → Bool) → Entry → Bool
passes lower project p non_object = false
passes lower project p (object i) = i.project == project && p (to_container lower i)

any-groups-insert :
    (p : Container → Bool) (id : String) (c : Container) (d : Dict (List Container))
    → any p (groups (insert id (group_of id d ++ c ∷ []) d)) ≡ (any p (groups d) || p c)
unfolding any insert lookup
any-groups-insert p id c [] = ground arith
any-groups-insert p id c ((j, cs) ∷ d) = ground (
  arith,
  any-append p cs (groups d),
  any-append p (cs ++ c ∷ []) (groups d),
  any-append p cs (c ∷ []),
  any-append p cs (groups (insert id (group_of id d ++ c ∷ []) d)),
  any-groups-insert p id c d,
)

pub any-add_unit :
    (p : Container → Bool) (c : Container) (r : Residency)
    → any p (all_containers (add_unit c r)) ≡ (any p (all_containers r) || p c)
unfolding all_containers any
any-add_unit p c r = ground (
  arith,
  any-append p (groups r.by_deployment) r.others,
  any-append p (groups r.by_deployment) (r.others ++ c ∷ []),
  any-append p r.others (c ∷ []),
  any-append p
      (groups (
        insert c.deployment_id (group_of c.deployment_id r.by_deployment ++ c ∷ [])
          r.by_deployment))
      r.others,
  any-groups-insert p c.deployment_id c r.by_deployment,
)

pub any-units :
    (p : Container → Bool) (c : Container) (r : Residency) (id : String)
    → (id == "") ≡ false
    → any p (units (add_unit c r) id) ≡ (any p (units r id) || (c.deployment_id == id && p c))
unfolding units any
any-units p c r id e = ground (
  arith,
  eq_iff c.deployment_id id,
  eq_iff c.deployment_id "",
  eq_iff id "",
  lookup-insert c.deployment_id id (group_of c.deployment_id r.by_deployment ++ c ∷ [])
      r.by_deployment,
  any-append p (group_of c.deployment_id r.by_deployment) (c ∷ []),
)

snapshot_of :
    (o : Option Residency) (t : Residency)
    → (elim o [ none ↦ none | some r ↦ some (sorted_snapshot r) ]) ≡ some t
    → (r : Residency) × (o ≡ some r) × (sorted_snapshot r ≡ t)
snapshot_of none t h = cc
snapshot_of (some r) t h = (r, refl, ground arith)

module _ (lower : String → String) (project : String) (p : Container → Bool) where
  any-collect :
      (es : List Entry) (r t : Residency)
      → collect lower project es r ≡ some t
      → any p (all_containers t) ≡ (any p (all_containers r) || any (passes lower project p) es)
  unfolding collect any
  any-collect [] r t e = ground arith
  any-collect (non_object ∷ es) r t e = cc
  any-collect (object i ∷ es) r t e = ground (
    arith,
    any-add_unit p (to_container lower i) r,
    any-collect es r t,
    any-collect es (add_unit (to_container lower i) r) t,
  )

  any-collect-units :
      (id : String)
      → (id == "") ≡ false
      → (es : List Entry) (r t : Residency) → collect lower project es r ≡ some t
      → any p (units t id)
        ≡ (any p (units r id) || any (passes lower project (λ c. c.deployment_id == id && p c)) es)
  unfolding collect any
  any-collect-units id e [] r t h = ground arith
  any-collect-units id e (non_object ∷ es) r t h = cc
  any-collect-units id e (object i ∷ es) r t h = ground (
    arith,
    any-units p (to_container lower i) r id e,
    any-collect-units id e es r t,
    any-collect-units id e es (add_unit (to_container lower i) r) t,
  )

  any-sort_groups : (d : Dict (List Container)) → any p (groups (sort_groups d)) ≡ any p (groups d)
  unfolding any
  any-sort_groups [] = refl
  any-sort_groups ((id, cs) ∷ d) = ground (
    arith,
    any-append p cs (groups d),
    any-append p (sort by_id cs) (groups (sort_groups d)),
    any-sort by_id p cs,
    any-sort_groups d,
  )

  any-sorted :
      (r : Residency) → any p (all_containers (sorted_snapshot r)) ≡ any p (all_containers r)
  unfolding all_containers
  any-sorted r = ground (
    arith,
    any-append p (groups r.by_deployment) r.others,
    any-append p (groups (sort_groups r.by_deployment)) (sort by_id r.others),
    any-sort by_id p r.others,
    any-sort_groups r.by_deployment,
  )

  any-sorted-units :
      (d : Dict (List Container)) (id : String)
      → any p (group_of id (sort_groups d)) ≡ any p (group_of id d)
  unfolding lookup
  any-sorted-units [] id = refl
  any-sorted-units ((j, cs) ∷ d) id = ground (arith, any-sort by_id p cs, any-sorted-units d id)

  any-units-sorted :
      (r : Residency) (id : String) → any p (units (sorted_snapshot r) id) ≡ any p (units r id)
  unfolding units
  any-units-sorted r id = any-sorted-units r.by_deployment id

  from_none :
      (es : List Entry) (q : Container → Bool)
      → (any p (all_containers (no_residency false)) || any (passes lower project q) es)
        ≡ any (passes lower project q) es
  unfolding any all_containers
  from_none es q = refl

  from_no_units :
      (es : List Entry) (id : String)
      → (any p (units (no_residency false) id)
          || any (passes lower project (λ c. c.deployment_id == id && p c)) es)
        ≡ any (passes lower project (λ c. c.deployment_id == id && p c)) es
  unfolding any units lookup
  from_no_units es id = refl

  -- A snapshot that is established loses no container and makes none up: some container of it passes
  -- a test exactly when some entry of the project does, as a container; and the same of the units of a
  -- deployment, which are the project's entries with its label.
  pub residency_from_inspect-any :
      (es : List Entry) (t : Residency) (id : String)
      → residency_from_inspect lower project (some es) ≡ some t
      → (id == "") ≡ false
      → (any p (all_containers t) ≡ any (passes lower project p) es)
        × (any p (units t id) ≡ any (passes lower project (λ c. c.deployment_id == id && p c)) es)
  unfolding residency_from_inspect
  residency_from_inspect-any es t id h e =
      let (r, f, same) = snapshot_of (collect lower project es (no_residency false)) t h in
      subst
        (λ u.
          (any p (all_containers u) ≡ any (passes lower project p) es)
          × (any p (units u id)
              ≡ any (passes lower project (λ c. c.deployment_id == id && p c)) es))
        same
        (
          any-sorted r ∙ any-collect es (no_residency false) r f ∙ from_none es p,
          any-units-sorted r id
              ∙ any-collect-units id e es (no_residency false) r f
              ∙ from_no_units es id,
        )
