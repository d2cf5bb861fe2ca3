-- ===== src/Controller/Publish/Settle.antt =====
-- The loop of `Controller._wait_for_settled_runtime`.
use infer_stack.Base.{
  ℕ, zero, suc, ◌+◌, ◌*◌, ◌≤◌, ◌<◌, String, ◌≡◌, refl, true, false, not, ◌&&◌, ◌⊎◌, inl, inr,
  Option, none, some, List, [], ◌∷◌, arith, ltb, Bool-cases, eq_iff, ap, ◌∙◌,
}
use infer_stack.Controller.Publish.{
  Sample, containers, unreadable, nothing_local, Verdict, settled, unsettled, settle,
  wait_for_settled_runtime, is_same, is_busy, same_pairs,
}

-- Why a wait may say that the runtime has settled after the sample of round k.
abbrev pub IsQuiet : (ℕ → Sample) → ℕ → Type 0
IsQuiet sample k =
    (sample k ≡ nothing_local)
    ⊎ ((cs : List (String × String)) × (sample k ≡ containers cs)
        × (is_busy cs ≡ false)
        × ((j : ℕ) × (suc j ≡ k) × (sample j ≡ containers cs)))

abbrev pub Outcome : (ℕ → Sample) → Option Verdict → Type 0
Outcome sample none = ⊥
Outcome sample (some settled) = (k : ℕ) × IsQuiet sample k
Outcome sample (some unsettled) = Unit

same_pairs_eq : (xs ys : List (String × String)) → same_pairs xs ys ≡ true → ys ≡ xs
same_pairs_eq [] [] h = refl
same_pairs_eq [] (y ∷ ys) h = cc
same_pairs_eq (x ∷ xs) [] h = cc
same_pairs_eq ((i, x) ∷ xs) ((j, y) ∷ ys) h =
    ground (arith, eq_iff i j, eq_iff x y, same_pairs_eq xs ys)

-- What the loop remembers of the round before.
abbrev Seen : (ℕ → Sample) → ℕ → Option (List (String × String)) → Type 0
Seen sample k none = Unit
Seen sample k (some cs) = (j : ℕ) × (suc j ≡ k) × (sample j ≡ containers cs)

quiet :
    (sample : ℕ → Sample) (k : ℕ) (previous : Option (List (String × String)))
    (cs : List (String × String))
    → Seen sample k previous
    → sample k ≡ containers cs
    → (is_same previous cs && not (is_busy cs)) ≡ true
    → IsQuiet sample k
quiet sample k none cs seen e h = cc
quiet sample k (some old) cs (j, p, q) e h =
    inr (cs, e, ground arith, (j, p, q ∙ ap containers (same_pairs_eq cs old (ground arith))))

Sample-cases :
    (x : Sample)
    → (x ≡ unreadable)
      ⊎ ((x ≡ nothing_local) ⊎ ((cs : List (String × String)) × (x ≡ containers cs)))
Sample-cases unreadable = inl refl
Sample-cases nothing_local = inr (inl refl)
Sample-cases (containers cs) = inr (inr (cs, refl))

module _ (second deadline : ℕ) (sample : ℕ → Sample) (clock : ℕ → ℕ)
    (sleeps : (k : ℕ) → clock k + 2 * second ≤ clock (k + 1)) where
  settle-Outcome :
      (fuel k : ℕ) (previous : Option (List (String × String)))
      → deadline < clock k + 2 * second * (fuel + 1)
      → Seen sample k previous
      → Outcome sample (settle (suc fuel) second deadline sample clock k previous)
  unfolding settle
  settle-Outcome zero k previous room seen = elim (Sample-cases (sample k)) [
    | inl e ↦ rw (e, settle) tt
    | inr (inl e) ↦ rw (e, settle) (k, inl e)
    | inr (inr (cs, e)) ↦
        rw (e, settle)
          (elim (Bool-cases (is_same previous cs && not (is_busy cs))) [
            | inl b ↦ rw b (k, quiet sample k previous cs seen e b)
            | inr b ↦ rw b (elim (Bool-cases (ltb deadline (clock k + 2 * second))) [
              | inl late ↦ rw late tt
              | inr early ↦ absurd (ground (arith, early))
            ])
          ])
  ]
  settle-Outcome (suc fuel) k previous room seen = elim (Sample-cases (sample k)) [
    | inl e ↦ rw (e, settle) tt
    | inr (inl e) ↦ rw (e, settle) (k, inl e)
    | inr (inr (cs, e)) ↦
        rw (e, settle)
          (elim (Bool-cases (is_same previous cs && not (is_busy cs))) [
            | inl b ↦ rw b (k, quiet sample k previous cs seen e b)
            | inr b ↦ rw b (elim (Bool-cases (ltb deadline (clock k + 2 * second))) [
              | inl late ↦ rw late tt
              | inr early ↦ rw early (
                  settle-Outcome fuel (k + 1) (some cs) (grind (arith, sleeps k))
                    (k, omega arith, e))
            ])
          ])
  ]

-- When the clock has ticks, does not run backwards from the start of the wait to the first sample, and
-- moves on by at least the interval from one sample to the next: the wait ends within 31 samples, and
-- where it says that the runtime has settled, a sample found nothing local or two samples in a row are
-- equal and show no container that is being removed.
pub wait_for_settled_runtime-Outcome :
    (second started : ℕ) (sample : ℕ → Sample) (clock : ℕ → ℕ)
    → 0 < second
    → started ≤ clock 0
    → ((k : ℕ) → clock k + 2 * second ≤ clock (k + 1))
    → Outcome sample (wait_for_settled_runtime second started sample clock)
unfolding wait_for_settled_runtime
wait_for_settled_runtime-Outcome second started sample clock ticks later sleeps =
    settle-Outcome second (started + 60 * second) sample clock sleeps 30 0 none (omega arith) tt
