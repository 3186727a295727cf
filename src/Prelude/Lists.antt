-- ===== src/Prelude/Lists.antt =====
-- Lists measured and indexed by native numbers, under the library's names.
use Prim.Native.Nat.{ℕ, zero, suc, ◌+◌, ◌<◌}
use mathlib.Core.Bool.{true}
use mathlib.Core.Logic.{◌⊎◌, inl, inr}
use mathlib.Core.List.{List, [], ◌∷◌, ◌++◌}
use mathlib.Core.Option.{Option, none, some}
use mathlib.Core.Path.{◌≡◌, refl, subst}
use native.Mathlib.Omega.{arith}
use gubernator.Prelude.Tests.{◌==◌}

module _ {ℓ} {A : Type ℓ} where
  abbrev pub length : List A → ℕ
  length [] = 0
  length (x ∷ xs) = suc (length xs)

  abbrev pub get_elem? : List A → ℕ → Option A
  get_elem? [] i = none
  get_elem? (x ∷ xs) zero = some x
  get_elem? (x ∷ xs) (suc i) = get_elem? xs i

  pub length-append : (xs ys : List A) → length (xs ++ ys) ≡ length xs + length ys
  length-append [] ys = omega arith
  length-append (x ∷ xs) ys = omega (arith, length-append xs ys)

  pub get_elem?-some : (xs : List A) (i : ℕ) → i < length xs → (a : A) × (get_elem? xs i ≡ some a)
  get_elem?-some [] i h = elim h [ ]
  get_elem?-some (x ∷ xs) zero h = (x, refl)
  get_elem?-some (x ∷ xs) (suc i) h = get_elem?-some xs i (omega arith)

module _ {ℓ} {A : Type ℓ} where
  -- Every element satisfies the predicate.
  abbrev pub All {κ} : (A → Type κ) → List A → Type κ
  All P [] = Unit
  All P (x ∷ xs) = P x × All P xs

  pub All-append {κ} : (P : A → Type κ) (xs ys : List A) → All P xs → All P ys → All P (xs ++ ys)
  All-append P [] ys h k = k
  All-append P (x ∷ xs) ys h k = (h.0, All-append P xs ys h.1 k)

  pub All-implies {κ μ} :
      {P : A → Type κ} {Q : A → Type μ} (xs : List A) → ((x : A) → P x → Q x) → All P xs → All Q xs
  All-implies [] f h = tt
  All-implies (x ∷ xs) f h = (f x h.0, All-implies xs f h.1)

module _ {A : Type 0} where
  -- An element of the list.
  abbrev pub Listed : A → List A → Type 0
  Listed a [] = ⊥
  Listed a (x ∷ xs) = (x ≡ a) ⊎ Listed a xs

  pub Listed-left : (a : A) (xs ys : List A) → Listed a xs → Listed a (xs ++ ys)
  Listed-left a [] ys l = absurd l
  Listed-left a (x ∷ xs) ys (inl e) = inl e
  Listed-left a (x ∷ xs) ys (inr l) = inr (Listed-left a xs ys l)

  pub Listed-right : (a : A) (xs ys : List A) → Listed a ys → Listed a (xs ++ ys)
  Listed-right a [] ys l = l
  Listed-right a (x ∷ xs) ys l = inr (Listed-right a xs ys l)

  pub empty_of_length : (xs : List A) → (length xs == 0) ≡ true → xs ≡ []
  empty_of_length [] h = refl
  empty_of_length (x ∷ xs) h = ground (arith, h)

  pub List-cases : (xs : List A) → (xs ≡ []) ⊎ ((x : A) × (ys : List A) × (xs ≡ x ∷ ys))
  List-cases [] = inl refl
  List-cases (x ∷ xs) = inr (x, xs, refl)

module _ {A : Type 0} where
  pub Listed-split : (a : A) (xs ys : List A) → Listed a (xs ++ ys) → Listed a xs ⊎ Listed a ys
  Listed-split a [] ys l = inr l
  Listed-split a (x ∷ xs) ys (inl e) = inl (inl e)
  Listed-split a (x ∷ xs) ys (inr l) = elim (Listed-split a xs ys l) [
    | inl k ↦ inl (inr k)
    | inr k ↦ inr k
  ]

  pub All-Listed : (P : A → Type 0) (a : A) (xs : List A) → All P xs → Listed a xs → P a
  All-Listed P a [] h l = absurd l
  All-Listed P a (x ∷ xs) h (inl e) = subst P e h.0
  All-Listed P a (x ∷ xs) h (inr l) = All-Listed P a xs h.1 l
