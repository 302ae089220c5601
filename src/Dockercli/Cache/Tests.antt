-- ===== src/Dockercli/Cache/Tests.antt =====
-- A cache of size two that is full, and the theorems at it.
use dockform.Base.{ℕ, ◌≡◌, refl, [], ◌∷◌, nat_eq, arith}
use dockform.Base.Dict.{lookup}
use dockform.Dockercli.Cache.{LruCache, new_lru_cache, get, set, evict}
use dockform.Dockercli.Cache.Recency.{view}
use dockform.Dockercli.Cache.Refine.{IsValid, put, set_lem}
use dockform.Dockercli.Cache.Valid.{set-IsValid}

abbrev empty : LruCache ℕ ℕ
empty = new_lru_cache 2

abbrev full : LruCache ℕ ℕ
full = set 8 80 (set 7 70 empty)

empty-IsValid : IsValid empty
unfolding new_lru_cache
empty-IsValid = record {
  named = λ k. refl;
  ids_apart = tt;
  keys_apart = tt;
  below = λ i h. cc;
  bounded = omega arith;
  positive = omega arith;
}

full-IsValid : IsValid full
full-IsValid = set-IsValid 8 80 (set 7 70 empty) (set-IsValid 7 70 empty empty-IsValid)

evict_run : view (set 9 90 (get 7 full).1).order ≡ (9, 90) ∷ (7, 70) ∷ []
unfolding set get evict new_lru_cache
evict_run = refl

set_lem_example :
    view (set 9 90 full).order
    ≡ put full.max_size (lookup 9 (view full.order)) 9 90 (view full.order)
set_lem_example = set_lem 9 90 full full-IsValid

set-IsValid_example : IsValid (set 9 90 full)
set-IsValid_example = set-IsValid 9 90 full full-IsValid
