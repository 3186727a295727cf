-- ===== src/Prelude/Keys.antt =====
-- Go's maps have one entry for each key: the association lists that `insert` and `delete` make.
use mathlib.Core.Logic.{inl, inr}
use Prim.Native.String.{String}
use mathlib.Core.Bool.{false}
use mathlib.Core.List.{[], ◌∷◌}
use mathlib.Core.Option.{none, some}
use mathlib.Core.Path.{◌≡◌, refl}
use native.Mathlib.Omega.{arith}
use text.Mathlib.Text.{◌==◌}
use text.Mathlib.TextEquality.{eq_iff}
use gubernator.Prelude.GoMap.{GoMap, lookup, insert, delete, lookup-insert, lookup-delete}
use gubernator.Prelude.Lists.{All}
use gubernator.Prelude.Tests.{Bool-cases}

module _ {ℓ} {V : Type ℓ} where
  abbrev pub Unique : GoMap V → Type ℓ
  Unique [] = Unit
  Unique ((k, v) ∷ m) = (lookup k m ≡ none) × Unique m

  lookup-insert_other :
      (k j : String) (v : V) (m : GoMap V)
      → (k == j) ≡ false
      → lookup j m ≡ none
      → lookup j (insert k v m) ≡ none
  lookup-insert_other k j v m e h = ground (arith, lookup-insert k j v m, e, h)

  pub insert-Unique : (k : String) (v : V) (m : GoMap V) → Unique m → Unique (insert k v m)
  unfolding insert lookup
  insert-Unique k v [] u = (refl, tt)
  insert-Unique k v ((j, w) ∷ m) u = elim (Bool-cases (j == k)) [
    | inl same ↦ rw same (ground (arith, u, eq_iff j k, same), u.1)
    | inr other ↦ rw other (
      lookup-insert_other k j v m (ground (arith, other, eq_iff j k, eq_iff k j)) u.0,
      insert-Unique k v m u.1,
    )
  ]

  pub delete-Unique : (k : String) (m : GoMap V) → Unique m → Unique (delete k m)
  unfolding delete
  delete-Unique k [] u = tt
  delete-Unique k ((j, w) ∷ m) u = elim (Bool-cases (j == k)) [
    | inl same ↦ rw same (delete-Unique k m u.1)
    | inr other ↦ rw other (ground (arith, lookup-delete k j m, u), delete-Unique k m u.1)
  ]

  -- The other keys of a map differ from one that it does not have.
  pub Unique-others :
      (k : String) (m : GoMap V) → lookup k m ≡ none → All (λ e. (k == e.0) ≡ false) m
  unfolding lookup
  Unique-others k [] h = tt
  Unique-others k ((j, w) ∷ m) h = elim (Bool-cases (j == k)) [
    | inl same ↦ absurd (ground (arith, h, same))
    | inr other ↦ (
      ground (arith, other, eq_iff j k, eq_iff k j),
      Unique-others k m (ground (arith, h, other)),
    )
  ]

  -- In a map with one entry for each key, every entry is the one that a lookup finds.
  pub Unique-entries : (m : GoMap V) → Unique m → All (λ e. lookup e.0 m ≡ some e.1) m
  unfolding lookup
  Unique-entries [] u = tt
  Unique-entries ((k, v) ∷ m) u =
      (ground (arith, eq_iff k k), both m (Unique-others k m u.0) (Unique-entries m u.1))
    where
      both :
          (n : GoMap V)
          → All (λ e. (k == e.0) ≡ false) n
          → All (λ e. lookup e.0 m ≡ some e.1) n
          → All (λ e. lookup e.0 ((k, v) ∷ m) ≡ some e.1) n
      both [] h g = tt
      both ((j, w) ∷ n) h g = (rw (h.0) g.0, both n h.1 g.1)
