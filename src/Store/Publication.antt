-- ===== src/Store/Publication.antt =====
-- The publication marker of store.py: written before a change, cleared by the apply that covers it.
pub mod Marks
use infer_stack.Base.{
  ℕ, ◌+◌, String, Bool, true, false, ◌||◌, Option, none, some, ltb, ◌==◌, if◌then◌else◌, [], Dict,
}
use infer_stack.Store.{Store, Meta, Marker}

abbrev pub pending : Store → Option Marker
pending s = s.meta.publication_pending

abbrev set_pending : Store → Option Marker → Store
set_pending s m = record s { meta = record s.meta { publication_pending = m } }

unfoldable pub write_profile : String → Store → Store
write_profile profile s = record s { meta = record s.meta { profile = some profile } }

abbrev keep {ℓ} : {A : Type ℓ} → Option A → Option A → Option A
keep none old = old
keep (some new) old = some new

abbrev next_marker : Option Marker → Bool → Bool → Option String → Option String → Marker
next_marker none apply_requested interrupted context digest = record {
  version = 0 + 1;
  apply_requested = apply_requested;
  interrupted = interrupted;
  placement_context = context;
  approved_digest = digest;
}
next_marker (some m) apply_requested interrupted context digest = record {
  version = m.version + 1;
  apply_requested = apply_requested || m.apply_requested;
  interrupted = interrupted || m.interrupted;
  placement_context = keep context m.placement_context;
  approved_digest = keep digest m.approved_digest;
}

-- `_write_marker`: the flags only turn on, and what is not given is kept.
unfoldable pub write_marker : Bool → Bool → Option String → Option String → Store → Store
write_marker apply_requested interrupted context digest s =
    set_pending s (some (next_marker (pending s) apply_requested interrupted context digest))

abbrev write_given : Option String → Store → Store
write_given none s = s
write_given (some profile) s = write_profile profile s

unfoldable pub mark_publication_pending :
    Bool → Bool → Option String → Option String → Option String → Store → Store
unfolding write_marker write_profile
mark_publication_pending apply_requested interrupted context digest profile s =
    write_marker apply_requested interrupted context digest (write_given profile s)

abbrev pub same_digest : Option String → Option String → Bool
same_digest none none = true
same_digest (some a) (some b) = a == b
same_digest _ _ = false

unfoldable pub set_approved_digest : Option String → Store → Store
set_approved_digest digest s = elim (pending s) [
  | none ↦ s
  | some m ↦
      if same_digest m.approved_digest digest
      then s
      else set_pending s (some (record m { approved_digest = digest }))
]

unfoldable pub clear_approved_digest : Store → Store
unfolding set_approved_digest
clear_approved_digest = set_approved_digest none

unfoldable pub publish_profile : String → Option String → Store → Store
unfolding write_marker write_profile
publish_profile profile digest s = write_marker true false none digest (write_profile profile s)

-- The subnet, the reset of the addresses and the marker in one transaction.
unfoldable pub migrate_network : String → Bool → Option String → Option String → Store → Store
unfolding write_marker write_profile
migrate_network subnet reset_addresses digest profile s =
    let t = write_given profile s in
    let u = record t { meta = record t.meta { network_config = some subnet } } in
    write_marker true false none digest
      (if reset_addresses then record u { service_addresses = [] } else u)

-- The answer says whether the marker was cleared: a newer one stays.
unfoldable pub clear_publication_pending : ℕ → Store → Store × Bool
clear_publication_pending version s = elim (pending s) [
  | none ↦ (s, false)
  | some m ↦ if ltb version m.version then (s, false) else (set_pending s none, true)
]

unfoldable pub clear_placement_context : Store → Store
clear_placement_context s = elim (pending s) [
  | none ↦ s
  | some m ↦ elim m.placement_context [
    | none ↦ s
    | some _ ↦ set_pending s (some (record m { placement_context = none }))
  ]
]
