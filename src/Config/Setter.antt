-- ===== src/Config/Setter.antt =====
-- setter.SetDefault of the holster package, which config.go calls throughout, is a parameter.
use gubernator.Prelude.{ℤ, pos, String, List, [], ◌∷◌, Bool, false, ◌≡◌, ◌≢◌}

-- What SetDefault documents: a value that is not the zero of its type stays, and a zero is replaced
-- by the first of the others that is not zero.
pub record SetsDefault {A : Type 0} (zero_value : A) (set_default : A → List A → A) : Type 0 where
  pub kept : (a : A) (ds : List A) → a ≢ zero_value → set_default a ds ≡ a
  pub nothing : set_default zero_value [] ≡ zero_value
  pub next : (d : A) (ds : List A) → set_default zero_value (d ∷ ds) ≡ set_default d ds

-- SetDefault at the types that the configuration uses.
pub record Setter : Type 0 where
  pub int : ℤ → List ℤ → ℤ
  pub string : String → List String → String
  pub bool : Bool → List Bool → Bool

pub record SetterLaws (s : Setter) : Type 0 where
  pub ints : SetsDefault (pos 0) s.int
  pub strings : SetsDefault "" s.string
  pub bools : SetsDefault false s.bool
