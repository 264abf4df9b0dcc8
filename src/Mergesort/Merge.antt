-- ===== src/Mergesort/Merge.antt =====
-- std::inplace_merge of two sorted ranges of images, and the check at the end of `main`.
use mathlib.Core.List.{perm_middle}
use mathlib.Core.List.Perm
use boost_threadpool.Common.{
  ℕ, zero, suc, ◌+◌, ◌≤◌, ◌≡◌, refl, Bool, true, false, not, ◌&&◌, List, [], ◌∷◌, ◌++◌, Perm, arith,
  length, All, All-map, All-append, ltb, append-nil, Bool-cases, inl, inr,
}

-- An image is its content.
abbrev pub less : ℕ → ℕ → Bool
less a b = ltb a b

-- Equal images keep their order, those of the first range before those of the second. The fuel is the number
-- of images.
unfoldable pub merge : ℕ → List ℕ → List ℕ → List ℕ
merge zero xs ys = xs ++ ys
merge (suc fuel) [] ys = ys
merge (suc fuel) (x ∷ xs) [] = x ∷ xs
merge (suc fuel) (x ∷ xs) (y ∷ ys) = elim (less y x) [
  | true ↦ y ∷ merge fuel (x ∷ xs) ys
  | false ↦ x ∷ merge fuel xs (y ∷ ys)
]

unfoldable pub inplace_merge : List ℕ → List ℕ → List ℕ
unfolding merge
inplace_merge xs ys = merge (length xs + length ys) xs ys

-- No image is less than the one before it.
unfoldable pub ascending : List ℕ → Bool
ascending [] = true
ascending (x ∷ []) = true
ascending (x ∷ y ∷ rest) = not (less y x) && ascending (y ∷ rest)

abbrev pub Sorted : List ℕ → Type 0
Sorted [] = Unit
Sorted (x ∷ xs) = All (λ y. x ≤ y) xs × Sorted xs

pub Sorted-ascending : (xs : List ℕ) → Sorted xs → ascending xs ≡ true
unfolding ascending
Sorted-ascending [] h = refl
Sorted-ascending (x ∷ []) h = refl
Sorted-ascending (x ∷ y ∷ rest) h = ground (arith, Sorted-ascending (y ∷ rest) h.1, h.0.0)

-- What holds of either choice holds of the merge.
merge_cases {κ} :
    (P : List ℕ → Type κ) (n x : ℕ) (xs : List ℕ) (y : ℕ) (ys : List ℕ)
    → (less y x ≡ true → P (y ∷ merge n (x ∷ xs) ys))
    → (less y x ≡ false → P (x ∷ merge n xs (y ∷ ys)))
    → P (merge (suc n) (x ∷ xs) (y ∷ ys))
unfolding merge
merge_cases P n x xs y ys f g = elim (Bool-cases (less y x)) [
  | inl e ↦ rw (merge, e) (f e)
  | inr e ↦ rw (merge, e) (g e)
]

merge-All : (P : ℕ → Type 0) (n : ℕ) (xs ys : List ℕ) → All P xs → All P ys → All P (merge n xs ys)
unfolding merge
merge-All P zero xs ys h k = All-append P xs ys h k
merge-All P (suc n) [] ys h k = k
merge-All P (suc n) (x ∷ xs) [] h k = h
merge-All P (suc n) (x ∷ xs) (y ∷ ys) h k =
    merge_cases (All P) n x xs y ys (λ _. (k.0, merge-All P n (x ∷ xs) ys h k.1))
      (λ _. (h.0, merge-All P n xs (y ∷ ys) h.1 k))

merge-Sorted :
    (n : ℕ) (xs ys : List ℕ)
    → length xs + length ys ≤ n
    → Sorted xs
    → Sorted ys
    → Sorted (merge n xs ys)
unfolding merge
merge-Sorted zero [] ys b h k = k
merge-Sorted zero (x ∷ xs) ys b h k = absurd (omega arith)
merge-Sorted (suc n) [] ys b h k = k
merge-Sorted (suc n) (x ∷ xs) [] b h k = h
merge-Sorted (suc n) (x ∷ xs) (y ∷ ys) b h k =
    merge_cases Sorted n x xs y ys
      (λ e.
        let le : y ≤ x = ground arith in
        (
          merge-All (λ z. y ≤ z) n (x ∷ xs) ys
              (le, All-map _ _ (λ z l. omega (arith, l, le)) xs h.0) k.0,
          merge-Sorted n (x ∷ xs) ys (omega arith) h k.1,
        ))
      (λ e.
        let le : x ≤ y = ground arith in
        (
          merge-All (λ z. x ≤ z) n xs (y ∷ ys) h.0
              (le, All-map _ _ (λ z l. omega (arith, l, le)) ys k.0),
          merge-Sorted n xs (y ∷ ys) (omega arith) h.1 k,
        ))

merge-perm : (n : ℕ) (xs ys : List ℕ) → Perm (xs ++ ys) (merge n xs ys)
unfolding merge
merge-perm zero xs ys = Perm.rfl
merge-perm (suc n) [] ys = Perm.rfl
merge-perm (suc n) (x ∷ xs) [] = rw (append-nil xs) Perm.rfl
merge-perm (suc n) (x ∷ xs) (y ∷ ys) =
    merge_cases (Perm (x ∷ xs ++ y ∷ ys)) n x xs y ys
      (λ _. Perm.trans (perm_middle (x ∷ xs) ys) (Perm.cons y (merge-perm n (x ∷ xs) ys)))
      (λ _. Perm.cons x (merge-perm n xs (y ∷ ys)))

pub inplace_merge-perm : (xs ys : List ℕ) → Perm (xs ++ ys) (inplace_merge xs ys)
unfolding inplace_merge
inplace_merge-perm xs ys = merge-perm (length xs + length ys) xs ys

-- Two sorted ranges give a sorted range with the same images.
pub inplace_merge_lem :
    (xs ys : List ℕ)
    → Sorted xs
    → Sorted ys
    → Sorted (inplace_merge xs ys) × Perm (xs ++ ys) (inplace_merge xs ys)
unfolding inplace_merge
inplace_merge_lem xs ys h k =
    (merge-Sorted (length xs + length ys) xs ys (omega arith) h k, merge-perm _ xs ys)
