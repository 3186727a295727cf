-- ===== src/Prelude/GoMap.antt =====
-- Go's `map[string]V`: an association list read through `lookup`, at most one live entry a key.
use Prim.Native.Nat.{suc}
use Prim.Native.String.{String}
use mathlib.Core.List.{List, [], ◌∷◌}
use mathlib.Core.Option.{Option, none, some}
use mathlib.Core.Path.{◌≡◌, refl}
use native.Mathlib.Omega.{arith}
use text.Mathlib.Text.{◌==◌}
use text.Mathlib.TextEquality.{eq_iff}
use gubernator.Prelude.Lists.{length}
use gubernator.Prelude.Tests.{if◌then◌else◌}

abbrev pub GoMap {ℓ} : Type ℓ → Type ℓ
GoMap V = List (String × V)

module _ {ℓ} {V : Type ℓ} where
  -- `v, ok := m[k]`
  unfoldable pub lookup : String → GoMap V → Option V
  lookup key [] = none
  lookup key ((held, value) ∷ rest) = if held == key then some value else lookup key rest

  -- `m[k] = v`
  unfoldable pub insert : String → V → GoMap V → GoMap V
  insert key value [] = (key, value) ∷ []
  insert key value ((held, old) ∷ rest) =
      if held == key then (key, value) ∷ rest else (held, old) ∷ insert key value rest

  -- `delete(m, k)`
  unfoldable pub delete : String → GoMap V → GoMap V
  delete k [] = []
  delete k ((j, w) ∷ m) = let rest = delete k m in if j == k then rest else (j, w) ∷ rest

  pub lookup-insert :
      (at key : String) (value : V) (rest : GoMap V)
      → lookup key (insert at value rest) ≡ (if at == key then some value else lookup key rest)
  unfolding lookup insert
  lookup-insert at key value [] = refl
  lookup-insert at key value ((held, old) ∷ rest) =
      let next = lookup-insert at key value rest in
      ground (arith, next, eq_iff at key, eq_iff held at, eq_iff held key)

  pub lookup-delete :
      (k j : String) (m : GoMap V) → lookup j (delete k m) ≡ (if k == j then none else lookup j m)
  unfolding lookup delete
  lookup-delete k j [] = ground arith
  lookup-delete k j ((i, w) ∷ m) =
      let rest = lookup-delete k j m in ground (arith, rest, eq_iff i j, eq_iff i k, eq_iff k j)

  -- A write to a new key adds one entry, and to an old one none.
  pub length-insert :
      (k : String) (v : V) (m : GoMap V)
      → length (insert k v m) ≡ elim (lookup k m) [ none ↦ suc (length m) | some _ ↦ length m ]
  unfolding lookup insert
  length-insert k v [] = refl
  length-insert k v ((i, w) ∷ m) = ground (arith, length-insert k v m)
