-- ===== src/Common/Perms.antt =====
-- What holds of every element of a list holds of every element of its permutations.
use mathlib.Core.Path.{subst}
use mathlib.Core.Logic.{∥∥₁_elim}
use mathlib.Core.HLevel.{×_prop, Unit-prop}
use mathlib.Core.List.{List, [], ◌∷◌, ◌++◌, Perm, Permᴰ, perm_append_comm}
use mathlib.Core.List.Perm
use boost_threadpool.Common.Lists.{All}

All-prop :
    {A : Type 0} (P : A → Type 0) → ((a : A) → IsProp (P a)) → (xs : List A) → IsProp (All P xs)
All-prop P prop [] = Unit-prop
All-prop P prop (x ∷ xs) = ×_prop (prop x) (All-prop P prop xs)

All-permᴰ : {A : Type 0} (P : A → Type 0) {xs ys : List A} → Permᴰ xs ys → All P xs → All P ys
All-permᴰ P Permᴰ.nil h = tt
All-permᴰ P (Permᴰ.cons e p) h = (subst P e h.0, All-permᴰ P p h.1)
All-permᴰ P (Permᴰ.swap e f) h = (subst P f h.1.0, (subst P e h.0, h.1.1))
All-permᴰ P (Permᴰ.trans p q) h = All-permᴰ P q (All-permᴰ P p h)

pub All-Perm :
    {A : Type 0} {P : A → Type 0} {xs ys : List A}
    → ((a : A) → IsProp (P a))
    → Perm xs ys
    → All P xs
    → All P ys
All-Perm {P} {xs} {ys} prop p h = ∥∥₁_elim p (All-prop P prop ys) (λ q. All-permᴰ P q h)

-- A common part may be left out.
pub perm_cancel :
    {A : Type 0} (xs : List A) {ys zs : List A} → Perm (xs ++ ys) (xs ++ zs) → Perm ys zs
perm_cancel [] p = p
perm_cancel (x ∷ xs) p = perm_cancel xs (Perm.cons_inv p)

pub perm_cancel_right :
    {A : Type 0} {ys zs : List A} (xs : List A) → Perm (ys ++ xs) (zs ++ xs) → Perm ys zs
perm_cancel_right {ys} {zs} xs p =
    perm_cancel xs (Perm.trans (perm_append_comm xs ys) (Perm.trans p (perm_append_comm zs xs)))
