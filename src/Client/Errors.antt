-- ===== src/Client/Errors.antt =====
-- setLastErr and GetLastErr of peer_client.go. The cache of the collections package, which forgets
-- an entry when its time is over, is a parameter.
use Prim.Native.String.{◌++◌ as join}
use gubernator.Prelude.{
  Listed, ℤ, pos, String, List, [], ◌∷◌, Option, none, some, ◌≡◌, inl, inr, refl, ap, ◌∙◌,
  Option-cases,
}

-- errors.Wrap
abbrev pub wrapped : String → String → String
wrapped e msg = join msg (join ": " e)

-- The messages of a cache of errors by key.
pub record ErrorCache (E T : Type 0) : Type 0 where
  pub new_cache : E
  pub add_with_ttl : T → String → String → ℤ → E → E
  pub keys : E → List String
  pub get : T → String → E → E × Option String

-- clock.Minute * 5, in nanoseconds
abbrev five_minutes : ℤ
five_minutes = pos 300_000_000_000

-- What the package documents, as far as the proofs need it: a new cache has no keys; an entry is
-- listed and found when it is added; and reading one entry does not take another away.
pub record ErrorCacheLaws {E T : Type 0} (ec : ErrorCache E T) : Type 0 where
  pub none_at_first : ec.keys ec.new_cache ≡ []
  pub listed :
      (now : T) (key msg : String) (ttl : ℤ) (errs : E)
      → Listed key (ec.keys (ec.add_with_ttl now key msg ttl errs))
  pub found :
      (now : T) (key msg : String) (ttl : ℤ) (errs : E)
      → (ec.get now key (ec.add_with_ttl now key msg ttl errs)).1 ≡ some msg
  pub kept :
      (now : T) (key other msg : String) (errs : E)
      → (ec.get now key errs).1 ≡ some msg
      → (ec.get now key (ec.get now other errs).0).1 ≡ some msg

module _ {E T : Type 0} (ec : ErrorCache E T) where
  unfoldable pub set_last_err : T → String → Option String → E → E
  set_last_err now address none errs = errs
  set_last_err now address (some e) errs =
      ec.add_with_ttl now e (wrapped e (join "from host " address)) five_minutes errs

  unfoldable pub errors_of : T → List String → E → E × List String
  errors_of now [] errs = (errs, [])
  errors_of now (k ∷ ks) errs =
      let (errs', found) = ec.get now k errs in
      let (errs'', rest) = errors_of now ks errs' in
      (errs'', elim found [ none ↦ rest | some e ↦ e ∷ rest ])

  unfoldable pub get_last_err : T → E → E × List String
  get_last_err now errs = errors_of now (ec.keys errs) errs

  module _ (laws : ErrorCacheLaws ec) where
    errors_of-Listed :
        (now : T) (key msg : String) (ks : List String) (errs : E)
        → Listed key ks
        → (ec.get now key errs).1 ≡ some msg
        → Listed msg (errors_of now ks errs).1
    unfolding errors_of
    errors_of-Listed now key msg [] errs l h = absurd l
    errors_of-Listed now key msg (k ∷ ks) errs (inl same) h =
        let here : (ec.get now k errs).1 ≡ some msg =
          ap (λ (j : String). (ec.get now j errs).1) same ∙ h in
        rw (here, errors_of) (inl refl)
    errors_of-Listed now key msg (k ∷ ks) errs (inr later) h =
        let rest =
          errors_of-Listed now key msg ks (ec.get now k errs).0 later
            (laws.kept now key k msg errs h) in
        elim (Option-cases (ec.get now k errs).1) [
          | inl e ↦ rw (e, errors_of) rest
          | inr (other, e) ↦ rw (e, errors_of) (inr rest)
        ]

    -- An error that was recorded now is reported with the host's address.
    pub get_last_err-set_last_err :
        (now : T) (address e : String) (errs : E)
        → Listed
            (wrapped e (join "from host " address))
            (get_last_err now (set_last_err now address (some e) errs)).1
    unfolding get_last_err set_last_err
    get_last_err-set_last_err now address e errs =
        errors_of-Listed now e (wrapped e (join "from host " address)) _ _
          (laws.listed now e (wrapped e (join "from host " address)) five_minutes errs)
          (laws.found now e (wrapped e (join "from host " address)) five_minutes errs)

    pub get_last_err-new : (now : T) → (get_last_err now ec.new_cache).1 ≡ []
    unfolding get_last_err errors_of
    get_last_err-new now = rw (laws.none_at_first, get_last_err) refl
