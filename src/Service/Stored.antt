-- ===== src/Service/Stored.antt =====
-- The items that UpdatePeerGlobals of gubernator.go leaves in the workers' caches.
use gubernator.Interval.{epoch_millis}
use gubernator.Leaky.Capped.{CapLaws}
use gubernator.Prelude.{
  Option, ℕ, suc, ◌^◌, ◌<◌, ℤ, String, List, [], ◌∷◌, some, ◌≡◌, refl, ap, All, length,
}
use gubernator.Service.Handlers.{
  Pool, seen_by, after, UpdatePeerGlobal, add_cache_item, global_item, update_peer_globals,
}
use gubernator.Sound.{Sound}
use gubernator.Workers.Ring.{worker_index, compute_hash63, get_worker, get_worker_total}
use gubernator.World.{Runtime, add_item}
use gubernator.World.Keeps.{add_item-Keeps}
use gubernator.Service.Sound.{length-set_at, IsServing, after-IsServing, seen}
use gubernator.Cache.Invariant.{IsValid, items}
use gubernator.Cache.Lru.{LruCache}
use gubernator.Cache.Refinement.{get_item-refines}
use gubernator.Cache.Spec.{find_item, get_spec_hit}
use gubernator.Prelude.{subst, zero, false, ◌≢◌, sym, ◌∙◌, get_elem?}
use gubernator.Service.Exchange.{IsHonest, global_item-Sound}
use gubernator.Service.Handlers.{set_at}
use gubernator.Service.Restart.{found_at, item_found, item_found_lem}
use gubernator.Types.{CacheItem, is_expired}
use gubernator.World.Miss.{add_item-Holding}
use gubernator.Workers.Commands.{handle_get_cache_item}

pub get-set_at {ℓ} :
    {A : Type ℓ} (i : ℕ) (y x : A) (xs : List A)
    → get_elem? xs i ≡ some x
    → get_elem? (set_at i y xs) i ≡ some y
unfolding set_at
get-set_at i y x [] e = absurd (cc)
get-set_at zero y x (z ∷ xs) e = refl
get-set_at (suc i) y x (z ∷ xs) e = get-set_at i y x xs e

pub get-set_at_other {ℓ} :
    {A : Type ℓ} (i j : ℕ) (y : A) (xs : List A)
    → i ≢ j
    → get_elem? (set_at i y xs) j ≡ get_elem? xs j
unfolding set_at
get-set_at_other i j y [] n = refl
get-set_at_other zero zero y (x ∷ xs) n = absurd (n refl)
get-set_at_other zero (suc j) y (x ∷ xs) n = refl
get-set_at_other (suc i) zero y (x ∷ xs) n = refl
get-set_at_other (suc i) (suc j) y (x ∷ xs) n = get-set_at_other i j y xs (λ e. n (ap suc e))

module _ {F S T : Type 0} (rt : Runtime F S T) (sum : String → ℕ) (ceiling : ℤ) where
  -- The worker of a broadcast, out of `n`.
  abbrev pub worker_for : ℕ → UpdatePeerGlobal → ℕ
  worker_for n g = worker_index n (compute_hash63 sum g.key)

  abbrev Elsewhere : ℕ → ℕ → List UpdatePeerGlobal → Type 0
  Elsewhere n i gs = All (λ g. worker_for n g ≢ i) gs

  -- Each broadcast that is live and that none for the same worker follows is found by GetCacheItem.
  abbrev pub AreFound : T → T → Pool F S → List UpdatePeerGlobal → Type 0
  AreFound now later p [] = Unit
  AreFound now later p (g ∷ gs) =
      (Elsewhere (length p.caches) (worker_for (length p.caches) g) gs
        → is_expired (epoch_millis rt.cal later)
            (global_item rt sum ceiling (epoch_millis rt.cal now) g)
          ≡ false
        → item_found rt sum later g.key p
          ≡ some (some (global_item rt sum ceiling (epoch_millis rt.cal now) g)))
      × AreFound now later p gs

  -- A live item of a cache in order is found.
  item_of_cache :
      (later : T) (key : String) (item : CacheItem F) (p : Pool F S) (c : LruCache F)
      → get_elem? p.caches (worker_index (length p.caches) (compute_hash63 sum key)) ≡ some c
      → IsValid c
      → find_item key (items c) ≡ some item
      → is_expired (epoch_millis rt.cal later) item ≡ false
      → item_found rt sum later key p ≡ some (some item)
  unfolding handle_get_cache_item
  item_of_cache later key item p c e v found live =
      let now = epoch_millis rt.cal later in
      let (_, same) = get_item-refines now key c v in
      let hit = get_spec_hit now key (items c) item found live in
      item_found_lem rt sum later key p
      ∙ rw (e, found_at)
          (ap (λ (r : List (CacheItem F) × Option (CacheItem F)). some (r.1)) (same ∙ hit))

  module _ (laws : CapLaws rt.fl) where
    -- A pool after the broadcasts: it serves as before, the caches of other workers are as they were,
    -- and the broadcasts are found.
    record Stored (now later : T) (gs : List UpdatePeerGlobal) (p p' : Pool F S) : Type 0 where
      serving : IsServing rt sum ceiling laws p'
      same_size : length p'.caches ≡ length p.caches
      others :
          (i : ℕ) → Elsewhere (length p.caches) i gs → get_elem? p'.caches i ≡ get_elem? p.caches i
      found : AreFound now later p' gs

    store_one :
        (now later : T) (g : UpdatePeerGlobal) (gs : List UpdatePeerGlobal) (p : Pool F S)
        → ((key : String) → sum key < 2 ^ 64)
        → All IsHonest (g ∷ gs)
        → IsServing rt sum ceiling laws p
        → ((p₁ : Pool F S)
            → IsServing rt sum ceiling laws p₁
            → (p' : Pool F S) × (update_peer_globals rt sum ceiling now gs p₁ ≡ some p')
              × Stored now later gs p₁ p')
        → (p' : Pool F S) × (update_peer_globals rt sum ceiling now (g ∷ gs) p ≡ some p')
          × Stored now later (g ∷ gs) p p'
    unfolding update_peer_globals add_cache_item get_worker add_item global_item
    store_one now later g gs p bound h v rest =
        let at = epoch_millis rt.cal now in
        let item = global_item rt sum ceiling at g in
        let i = worker_for (length p.caches) g in
        let (c, e) = get_worker_total sum p.caches g.key (bound g.key) v.size v.even in
        let w = add_item rt at item (seen_by c p) in
        let before = seen rt sum ceiling laws i c p e v in
        let kept =
          add_item-Keeps rt (Sound rt.fl) at item (seen_by c p)
            (global_item-Sound rt sum ceiling laws at g h.0) before in
        let held = add_item-Holding rt at item (seen_by c p) before.valid in
        let p₁ = after i w p in
        let (p', e', s) = rest p₁ (after-IsServing rt sum ceiling laws i w p kept v) in
        let size₁ : length p₁.caches ≡ length p.caches = length-set_at i w.cache p.caches in
        let size : length p'.caches ≡ length p.caches = s.same_size ∙ size₁ in
        let at_first : (j : ℕ)
            → Elsewhere (length p.caches) j gs
            → get_elem? p'.caches j ≡ get_elem? p₁.caches j =
          λ j a. s.others j (subst (λ (n : ℕ). Elsewhere n j gs) (sym size₁) a) in
        (
          p',
          rw (e, update_peer_globals) e',
          record {
            serving = s.serving;
            same_size = size;
            others = λ j a. at_first j a.1 ∙ get-set_at_other i j w.cache p.caches a.0;
            found = (
              λ a live.
                  let mine = subst (λ (n : ℕ). Elsewhere n (worker_for n g) gs) size a in
                  let there = at_first i mine ∙ get-set_at i w.cache c p.caches e in
                  item_of_cache later g.key item p' w.cache
                    (ap (λ (n : ℕ). get_elem? p'.caches (worker_for n g)) size ∙ there) held.valid
                    held.found live,
              s.found,
            );
          },
        )

    store_them :
        (now later : T) (gs : List UpdatePeerGlobal) (p : Pool F S)
        → ((key : String) → sum key < 2 ^ 64)
        → All IsHonest gs
        → IsServing rt sum ceiling laws p
        → (p' : Pool F S) × (update_peer_globals rt sum ceiling now gs p ≡ some p')
          × Stored now later gs p p'
    unfolding update_peer_globals
    store_them now later [] p bound h v =
        (p, refl, record { serving = v; same_size = refl; others = λ i a. refl; found = tt })
    store_them now later (g ∷ gs) p bound h v =
        store_one now later g gs p bound h v (λ p₁ v₁. store_them now later gs p₁ bound h.1 v₁)

  -- Take a pool whose caches are in order and sound, with between 1 and 2 ^ 63 workers, a number
  -- that divides 2 ^ 63; a checksum of 64 bits; float64 that keeps the cap laws; and broadcasts
  -- whose responses have a remaining count between 0 and an int64 limit. Then UpdatePeerGlobals,
  -- without a panic, leaves again such a pool, and GetCacheItem, at any time, finds the item of
  -- each broadcast that has not expired by then and that no later broadcast of the batch for a key
  -- of the same worker follows.
  pub update_peer_globals_lem :
      (laws : CapLaws rt.fl) (now later : T) (gs : List UpdatePeerGlobal) (p : Pool F S)
      → ((key : String) → sum key < 2 ^ 64)
      → All IsHonest gs
      → IsServing rt sum ceiling laws p
      → (p' : Pool F S) × (update_peer_globals rt sum ceiling now gs p ≡ some p')
        × IsServing rt sum ceiling laws p'
        × AreFound now later p' gs
  update_peer_globals_lem laws now later gs p bound h v =
      let (p', e, s) = store_them laws now later gs p bound h v in (p', e, s.serving, s.found)
