-- ===== src/Common/Lists.antt =====
-- Lists measured and indexed by native numbers, and weighted sums over a list.
use Prim.Native.Nat.{ℕ, zero, suc, ◌+◌, ◌≤◌}
use mathlib.Core.Path.{◌≡◌, refl, ap, subst, ◌∙◌}
use mathlib.Core.Logic.{∥∥₁_elim, ◌⊎◌, inl, inr}
use mathlib.Core.List.{List, [], ◌∷◌, ◌++◌, map, Perm, Permᴰ}
use native.Mathlib.Nat.{ℕ_set}
use mathlib.Core.Option.{Option, none, some}
use native.Mathlib.Omega.{arith}

module _ {ℓ} {A : Type ℓ} where
  abbrev pub length : List A → ℕ
  length [] = 0
  length (x ∷ xs) = suc (length xs)

  abbrev pub get_elem? : List A → ℕ → Option A
  get_elem? [] i = none
  get_elem? (x ∷ xs) zero = some x
  get_elem? (x ∷ xs) (suc i) = get_elem? xs i

  -- A write out of bounds changes nothing.
  abbrev pub set : List A → ℕ → A → List A
  set [] i v = []
  set (x ∷ xs) zero v = v ∷ xs
  set (x ∷ xs) (suc i) v = x ∷ set xs i v

  pub length-append : (xs ys : List A) → length (xs ++ ys) ≡ length xs + length ys
  length-append [] ys = omega arith
  length-append (x ∷ xs) ys = omega (arith, length-append xs ys)

module _ {ℓ} {A : Type ℓ} where
  pub get_elem?-set_self :
      (xs : List A) (i : ℕ) (v a : A) → get_elem? xs i ≡ some a → get_elem? (set xs i v) i ≡ some v
  get_elem?-set_self [] i v a h = cc
  get_elem?-set_self (x ∷ xs) zero v a h = refl
  get_elem?-set_self (x ∷ xs) (suc i) v a h = get_elem?-set_self xs i v a h

  pub get_elem?-append : (xs : List A) (a : A) → get_elem? (xs ++ a ∷ []) (length xs) ≡ some a
  get_elem?-append [] a = refl
  get_elem?-append (x ∷ xs) a = get_elem?-append xs a

  pub get_elem?-grow :
      (xs ys : List A) (i : ℕ) (a : A) → get_elem? xs i ≡ some a → get_elem? (xs ++ ys) i ≡ some a
  get_elem?-grow [] ys i a h = cc
  get_elem?-grow (x ∷ xs) ys zero a h = h
  get_elem?-grow (x ∷ xs) ys (suc i) a h = get_elem?-grow xs ys i a h

  -- An element of a longer list is an old one or the new one.
  pub append_cases :
      (xs : List A) (a b : A) (i : ℕ)
      → get_elem? (xs ++ a ∷ []) i ≡ some b
      → (get_elem? xs i ≡ some b) ⊎ (a ≡ b)
  append_cases [] a b zero h = inr (cc)
  append_cases [] a b (suc i) h = cc
  append_cases (x ∷ xs) a b zero h = inl h
  append_cases (x ∷ xs) a b (suc i) h = append_cases xs a b i h

  -- After a write, an element is an old one or the one that was written.
  pub set_cases :
      (xs : List A) (i j : ℕ) (v b : A)
      → get_elem? (set xs i v) j ≡ some b
      → (get_elem? xs j ≡ some b) ⊎ ((j ≡ i) × (v ≡ b))
  set_cases [] i j v b h = inl h
  set_cases (x ∷ xs) zero zero v b h = inr (refl, cc)
  set_cases (x ∷ xs) zero (suc j) v b h = inl h
  set_cases (x ∷ xs) (suc i) zero v b h = inl h
  set_cases (x ∷ xs) (suc i) (suc j) v b h = elim (set_cases xs i j v b h) [
    | inl k ↦ inl k
    | inr (e, k) ↦ inr (ap suc e, k)
  ]

  -- A write leaves an element or replaces it.
  pub after_set :
      (xs : List A) (i j : ℕ) (v b : A)
      → get_elem? xs j ≡ some b
      → (get_elem? (set xs i v) j ≡ some b) ⊎ ((j ≡ i) × (get_elem? (set xs i v) j ≡ some v))
  after_set [] i j v b h = inl h
  after_set (x ∷ xs) zero zero v b h = inr (refl, refl)
  after_set (x ∷ xs) zero (suc j) v b h = inl h
  after_set (x ∷ xs) (suc i) zero v b h = inl h
  after_set (x ∷ xs) (suc i) (suc j) v b h = elim (after_set xs i j v b h) [
    | inl k ↦ inl k
    | inr (e, k) ↦ inr (ap suc e, k)
  ]

  -- The sum of a weight over a list.
  abbrev pub total : (A → ℕ) → List A → ℕ
  total w [] = 0
  total w (x ∷ xs) = w x + total w xs

  pub total-append : (w : A → ℕ) (xs ys : List A) → total w (xs ++ ys) ≡ total w xs + total w ys
  total-append w [] ys = omega arith
  total-append w (x ∷ xs) ys = omega (arith, total-append w xs ys)

  -- Replacing one element changes the sum by the difference of the weights.
  pub total-set :
      (w : A → ℕ) (xs : List A) (i : ℕ) (v a : A)
      → get_elem? xs i ≡ some a
      → total w (set xs i v) + w a ≡ total w xs + w v
  total-set w [] i v a h = cc
  total-set w (x ∷ xs) zero v a h = let e : w x ≡ w a = ap w (cc) in omega arith
  total-set w (x ∷ xs) (suc i) v a h = omega (arith, total-set w xs i v a h)

  pub le-total :
      (w : A → ℕ) (xs : List A) (i : ℕ) (a : A) → get_elem? xs i ≡ some a → w a ≤ total w xs
  le-total w [] i a h = cc
  le-total w (x ∷ xs) zero a h = let e : w x ≡ w a = ap w (cc) in omega arith
  le-total w (x ∷ xs) (suc i) a h = omega (arith, le-total w xs i a h)

  pub total_mono : (v w : A → ℕ) → ((a : A) → v a ≤ w a) → (xs : List A) → total v xs ≤ total w xs
  total_mono v w h [] = omega arith
  total_mono v w h (x ∷ xs) = omega (arith, h x, total_mono v w h xs)

  -- A map that keeps a weight keeps the sum.
  pub total-map :
      (w : A → ℕ) (f : A → A)
      → ((a : A) → w (f a) ≡ w a)
      → (xs : List A) → total w (map f xs) ≡ total w xs
  total-map w f h [] = refl
  total-map w f h (x ∷ xs) = omega (arith, h x, total-map w f h xs)

pub length-map {ℓ κ} :
    {A : Type ℓ} {B : Type κ} (f : A → B) (xs : List A) → length (map f xs) ≡ length xs
length-map f [] = refl
length-map f (x ∷ xs) = ap suc (length-map f xs)

abbrev pub All {ℓ κ} : {A : Type ℓ} → (A → Type κ) → List A → Type κ
All P [] = Unit
All P (x ∷ xs) = P x × All P xs

pub All-map {ℓ κ} :
    {A : Type ℓ} (P Q : A → Type κ) → ((a : A) → P a → Q a) → (xs : List A) → All P xs → All Q xs
All-map P Q f [] h = tt
All-map P Q f (x ∷ xs) h = (f x h.0, All-map P Q f xs h.1)

Permᴰ-length {ℓ} : {A : Type ℓ} {xs ys : List A} → Permᴰ xs ys → length xs ≡ length ys
Permᴰ-length Permᴰ.nil = refl
Permᴰ-length (Permᴰ.cons e p) = ap suc (Permᴰ-length p)
Permᴰ-length (Permᴰ.swap e f) = refl
Permᴰ-length (Permᴰ.trans p q) = Permᴰ-length p ∙ Permᴰ-length q

pub perm-length {ℓ} : {A : Type ℓ} {xs ys : List A} → Perm xs ys → length xs ≡ length ys
perm-length {xs} {ys} p = ∥∥₁_elim p (ℕ_set (length xs) (length ys)) Permᴰ-length

pub nil_of_length {ℓ} : {A : Type ℓ} (xs : List A) → length xs ≡ 0 → xs ≡ []
nil_of_length [] h = refl
nil_of_length (x ∷ xs) h = absurd (omega arith)

pub All-append {ℓ κ} :
    {A : Type ℓ} (P : A → Type κ) (xs ys : List A) → All P xs → All P ys → All P (xs ++ ys)
All-append P [] ys h k = k
All-append P (x ∷ xs) ys h k = (h.0, All-append P xs ys h.1 k)

pub All-set {ℓ κ} :
    {A : Type ℓ} (P : A → Type κ) (xs : List A) (i : ℕ) (a : A)
    → All P xs
    → P a
    → All P (set xs i a)
All-set P [] i a h k = tt
All-set P (x ∷ xs) zero a h k = (k, h.1)
All-set P (x ∷ xs) (suc i) a h k = (h.0, All-set P xs i a h.1 k)

pub All-get {ℓ κ} :
    {A : Type ℓ} (P : A → Type κ) (xs : List A) (i : ℕ) (a : A)
    → All P xs
    → get_elem? xs i ≡ some a
    → P a
All-get P [] i a h e = absurd (cc)
All-get P (x ∷ xs) zero a h e = let k : x ≡ a = cc in subst P k h.0
All-get P (x ∷ xs) (suc i) a h e = All-get P xs i a h.1 e

module _ {ℓ} {A : Type ℓ} where
  abbrev pub replicate : ℕ → A → List A
  replicate zero a = []
  replicate (suc n) a = a ∷ replicate n a

  -- One more element at the end of the first part.
  pub replicate-shift :
      (n : ℕ) (a : A) (xs : List A) → replicate n a ++ (a ∷ xs) ≡ a ∷ (replicate n a ++ xs)
  replicate-shift zero a xs = refl
  replicate-shift (suc n) a xs = ap (◌∷◌ a) (replicate-shift n a xs)

  pub get_elem?-replicate :
      (n : ℕ) (a b : A) (xs : List A) → get_elem? (replicate n a ++ (b ∷ xs)) n ≡ some b
  get_elem?-replicate zero a b xs = refl
  get_elem?-replicate (suc n) a b xs = get_elem?-replicate n a b xs

  pub set-replicate :
      (n : ℕ) (a b c : A) (xs : List A)
      → set (replicate n a ++ (b ∷ xs)) n c ≡ replicate n a ++ (c ∷ xs)
  set-replicate zero a b c xs = refl
  set-replicate (suc n) a b c xs = ap (◌∷◌ a) (set-replicate n a b c xs)
