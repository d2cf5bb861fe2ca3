-- ===== src/Store/Publication/Marks.antt =====
-- The versions of the publication marker of store.py.
use infer_stack.Base.{
  ℕ, ◌≤◌, ◌<◌, refl, List, [], ◌∷◌, any, not, ◌&&◌, Option-cases, Bool-cases, inl, inr,
  if◌then◌else◌, ◌+◌, ◌≡◌, String, Bool, true, false, ◌||◌, Option, none, some, arith,
}
use infer_stack.Store.{Store, Marker}
use infer_stack.Store.Publication.{
  pending, write_marker, mark_publication_pending, clear_publication_pending, keep, publish_profile,
  migrate_network, set_approved_digest, clear_placement_context, write_profile,
}

abbrev pub version_of : Option Marker → ℕ
version_of none = 0
version_of (some m) = m.version

abbrev pub flag : (Marker → Bool) → Option Marker → Bool
flag f none = false
flag f (some m) = f m

abbrev pub text_of : (Marker → Option String) → Option Marker → Option String
text_of f none = none
text_of f (some m) = f m

-- The marker after a mark: one version newer, each flag the disjunction of both, and each text the
-- new one where it is given and the old one otherwise. The profile is replaced where one is given.
pub mark_publication_pending_lem :
    (apply_requested interrupted : Bool) (context digest profile : Option String) (s : Store)
    → pending (mark_publication_pending apply_requested interrupted context digest profile s)
        ≡ some (record {
          version = version_of (pending s) + 1;
          apply_requested = apply_requested || flag (λ m. m.apply_requested) (pending s);
          interrupted = interrupted || flag (λ m. m.interrupted) (pending s);
          placement_context = keep context (text_of (λ m. m.placement_context) (pending s));
          approved_digest = keep digest (text_of (λ m. m.approved_digest) (pending s));
        })
      × ((mark_publication_pending apply_requested interrupted context digest profile
            s).meta.profile
          ≡ keep profile s.meta.profile)
unfolding mark_publication_pending write_marker
mark_publication_pending_lem a i c d p s = ground arith

-- What may happen to the store while an apply runs, short of a clear of the marker or a new epoch: it is
-- marked (by a mark, a publication of a profile or a migration of the network), its approval or its
-- placement scope is changed, or the store is changed elsewhere.
pub data Write : Type 0 where
  marks : Bool → Bool → Option String → Option String → Option String → Write
  publishes : String → Option String → Write
  migrates : String → Bool → Option String → Option String → Write
  approves : Option String → Write
  forgets_context : Write
  elsewhere : Store → Write

abbrev pub is_mark : Write → Bool
is_mark (marks a i context digest profile) = true
is_mark (publishes profile digest) = true
is_mark (migrates subnet reset digest profile) = true
is_mark (approves digest) = false
is_mark forgets_context = false
is_mark (elsewhere t) = false

abbrev pub with_pending : Option Marker → Store → Store
with_pending m s = record s { meta = record s.meta { publication_pending = m } }

unfoldable pub write : Write → Store → Store
write (marks a i context digest profile) s = mark_publication_pending a i context digest profile s
write (publishes profile digest) s = publish_profile profile digest s
write (migrates subnet reset digest profile) s = migrate_network subnet reset digest profile s
write (approves digest) s = set_approved_digest digest s
write forgets_context s = clear_placement_context s
write (elsewhere t) s = with_pending (pending s) t

unfoldable pub write_all : List Write → Store → Store
write_all [] s = s
write_all (w ∷ ws) s = write_all ws (write w s)

abbrev pub is_pending : Store → Bool
is_pending s = flag (λ m. true) (pending s)

-- A mark is a version newer, and leaves a marker; another write keeps both.
write-version :
    (w : Write) (s : Store)
    → (version_of (pending (write w s))
        ≡ (if is_mark w then version_of (pending s) + 1 else version_of (pending s)))
      × (is_pending (write w s) ≡ (is_mark w || is_pending s))
unfolding write mark_publication_pending publish_profile migrate_network write_marker write_profile
    set_approved_digest clear_placement_context
write-version (marks a i context digest profile) s =
    (ground (arith, Option-cases (pending s)), ground arith)
write-version (publishes profile digest) s =
    (ground (arith, Option-cases (pending s)), ground arith)
write-version (migrates subnet reset digest profile) s =
    (ground (arith, Option-cases (pending s)), ground arith)
write-version (approves digest) s = elim (Option-cases (pending s)) [
  | inl e ↦ (ground (arith, e), ground (arith, e))
  | inr (m, e) ↦ (ground (arith, e), ground (arith, e))
]
write-version forgets_context s = elim (Option-cases (pending s)) [
  | inl e ↦ (ground (arith, e), ground (arith, e))
  | inr (m, e) ↦ elim (Option-cases m.placement_context) [
    | inl f ↦ (ground (arith, e, f), ground (arith, e, f))
    | inr (x, f) ↦ (ground (arith, e, f), ground (arith, e, f))
  ]
]
write-version (elsewhere t) s = (refl, refl)

write_all-version :
    (ws : List Write) (s : Store)
    → (version_of (pending s) ≤ version_of (pending (write_all ws s)))
      × (any is_mark ws ≡ true → version_of (pending s) < version_of (pending (write_all ws s)))
      × (any is_mark ws ≡ false → version_of (pending (write_all ws s)) ≡ version_of (pending s))
      × (is_pending (write_all ws s) ≡ (any is_mark ws || is_pending s))
unfolding write_all any
write_all-version [] s = (omega arith, λ e. cc, λ e. refl, refl)
write_all-version (w ∷ ws) s =
    let (version, there) = write-version w s in
    let (grows, newer, same, left) = write_all-version ws (write w s) in
    (
      ground (arith, version, grows),
      λ e. ground (arith, version, grows, newer),
      λ e. ground (arith, version, same),
      ground (arith, there, left),
    )

clear-is_newer :
    (version : ℕ) (s : Store)
    → version < version_of (pending s)
    → clear_publication_pending version s ≡ (s, false)
unfolding clear_publication_pending
clear-is_newer version s h = ground (arith, Option-cases (pending s))

clear-covered :
    (version : ℕ) (s : Store)
    → version_of (pending s) ≡ version
    → clear_publication_pending version s
      ≡ (if is_pending s then with_pending none s else s, is_pending s)
unfolding clear_publication_pending
clear-covered version s h = elim (Option-cases (pending s)) [
  | inl e ↦ ground (arith, e)
  | inr (m, e) ↦ ground (arith, e)
]

-- From when an apply reads the marker, through any further writes in which the marker is not cleared
-- and no epoch begins: the clear of the version that it read is refused and changes nothing where one of
-- the writes was a mark, and otherwise it takes the marker away, if there is one, and nothing else.
pub clear-write_all :
    (ws : List Write) (s : Store)
    → clear_publication_pending (version_of (pending s)) (write_all ws s) ≡ (
        if not (any is_mark ws) && is_pending s
        then (with_pending none (write_all ws s), true)
        else (write_all ws s, false))
clear-write_all ws s =
    let (grows, newer, same, left) = write_all-version ws s in
    elim (Bool-cases (any is_mark ws)) [
      | inl e ↦
          ground (arith, e, clear-is_newer (version_of (pending s)) (write_all ws s) (newer e))
      | inr e ↦
          ground (arith, e, left, clear-covered (version_of (pending s)) (write_all ws s) (same e))
    ]
