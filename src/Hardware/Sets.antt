-- ===== src/Hardware/Sets.antt =====
-- Lists of GPU indices as sets: `i in xs`, `xs & ys`, and what filtering, sorting and taking do.
use infer_stack.Base.{
  ℕ, zero, suc, ◌≡◌, refl, ◌∙◌, Bool, true, false, not, ◌&&◌, ◌||◌, List, [], ◌∷◌, filter, any, all,
  any_swap, any_congr, take, eqb, arith, ap,
}
use infer_stack.Hardware.{has, overlaps, add_index, sorted_set}

pub eqb_sym : (i j : ℕ) → eqb i j ≡ eqb j i
eqb_sym i j = ground arith

eqb→eq : (i j : ℕ) → eqb i j ≡ true → i ≡ j
eqb→eq i j h = ground arith

pub has-filter : (p : ℕ → Bool) (xs : List ℕ) (i : ℕ) → has (filter p xs) i ≡ (has xs i && p i)
unfolding any filter
has-filter p [] i = refl
has-filter p (x ∷ xs) i = ground (arith, has-filter p xs i, same)
  where
    same : eqb x i ≡ true → p x ≡ p i
    same e = ap p (eqb→eq x i e)

pub all_mono :
    (p q : ℕ → Bool) (xs : List ℕ)
    → ((i : ℕ) → p i ≡ true → q i ≡ true)
    → all p xs ≡ true
    → all q xs ≡ true
unfolding all
all_mono p q [] imp h = refl
all_mono p q (x ∷ xs) imp h = ground (arith, imp x, all_mono p q xs imp)

pub all-take : (p : ℕ → Bool) (n : ℕ) (xs : List ℕ) → all p xs ≡ true → all p (take n xs) ≡ true
unfolding all
all-take p zero xs h = refl
all-take p (suc n) [] h = refl
all-take p (suc n) (x ∷ xs) h = ground (arith, all-take p n xs)

pub overlaps_sym : (xs ys : List ℕ) → overlaps xs ys ≡ overlaps ys xs
overlaps_sym xs ys =
    any_swap (λ x y. eqb y x) xs ys
    ∙ any_congr (λ y. any (λ x. eqb y x) xs) (λ y. any (λ x. eqb x y) xs) ys
        (λ y. any_congr (λ x. eqb y x) (λ x. eqb x y) xs (λ x. eqb_sym y x))

has-overlaps : (x : ℕ) (us ys : List ℕ) → has us x ≡ true → has ys x ≡ true → overlaps us ys ≡ true
unfolding any
has-overlaps x [] ys h k = cc
has-overlaps x (u ∷ us) ys h k = ground (arith, has-overlaps x us ys, there)
  where
    there : eqb u x ≡ true → has ys u ≡ true
    there e = ap (has ys) (eqb→eq u x e) ∙ k

-- What lies among GPUs that are apart from others is apart from those too.
pub overlaps_sub :
    (xs us ys : List ℕ) → all (has us) xs ≡ true → overlaps us ys ≡ false → overlaps xs ys ≡ false
unfolding any all
overlaps_sub [] us ys h o = refl
overlaps_sub (x ∷ xs) us ys h o = ground (arith, overlaps_sub xs us ys, apart)
  where
    apart : has us x ≡ true → has ys x ≡ false
    apart k = ground (arith, has-overlaps x us ys, k, o)

-- No free GPU is used.
pub overlaps-unused :
    (us xs : List ℕ) → all (λ i. not (has us i)) xs ≡ true → overlaps xs us ≡ false
unfolding any all
overlaps-unused us [] h = refl
overlaps-unused us (x ∷ xs) h = ground (arith, overlaps-unused us xs)

has-add_index : (i : ℕ) (js : List ℕ) (k : ℕ) → has (add_index i js) k ≡ (eqb i k || has js k)
unfolding any add_index
has-add_index i [] k = refl
has-add_index i (j ∷ js) k = ground (arith, has-add_index i js k)

pub has-sorted_set : (is : List ℕ) (k : ℕ) → has (sorted_set is) k ≡ has is k
unfolding any sorted_set
has-sorted_set [] k = refl
has-sorted_set (i ∷ is) k = ground (arith, has-add_index i (sorted_set is) k, has-sorted_set is k)
