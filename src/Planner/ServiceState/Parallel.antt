-- ===== src/Planner/ServiceState/Parallel.antt =====
-- Detection of all services at once, against the detection one by one.
use dockform.Base.{
  ℕ, zero, suc, ◌<◌, ◌≡◌, ◌≢◌, ◌⊎◌, inl, inr, refl, ap, ◌∙◌, true, Option, none, some, List, [],
  ◌∷◌, map, arith, length, is_empty, ◌++◌, contains, nat_eq, nat_beq, nat_beq_iff, Bool-cases,
}
use dockform.Base.Text.{Text, codes, text_eq}
use dockform.Base.Result.{ok, >>=-eq-ok}
use dockform.Manifest.Types.{Stack, SopsConfig}
use dockform.Planner.Client.{Daemon}
use dockform.Planner.ServiceState.{ServiceInfo, Host, build_inline_env, get_planned_services}
use dockform.Planner.ServiceState.Detect.{
  Facts, wrap_err, detect_planned, gather_facts, detect_all_services_state,
  detect_service_state_fast, detect_all_sequential, fill, service_at, collect_arrivals,
  empty_places, detect_all_parallel, place_values,
}

abbrev place_at : ℕ → List (Option ServiceInfo) → Option ServiceInfo
place_at i [] = none
place_at zero (r ∷ rs) = r
place_at (suc i) (r ∷ rs) = place_at i rs

length-fill :
    (i : ℕ) (x : ServiceInfo) (rs : List (Option ServiceInfo)) → length (fill i x rs) ≡ length rs
unfolding fill
length-fill i x [] = refl
length-fill zero x (r ∷ rs) = refl
length-fill (suc i) x (r ∷ rs) = ap suc (length-fill i x rs)

place_at-fill_self :
    (i : ℕ) (x : ServiceInfo) (rs : List (Option ServiceInfo))
    → i < length rs
    → place_at i (fill i x rs) ≡ some x
unfolding fill
place_at-fill_self i x [] h = elim h [ ]
place_at-fill_self zero x (r ∷ rs) h = refl
place_at-fill_self (suc i) x (r ∷ rs) h = place_at-fill_self i x rs (omega arith)

place_at-fill_ne :
    (i j : ℕ) (x : ServiceInfo) (rs : List (Option ServiceInfo))
    → i ≢ j
    → place_at i (fill j x rs) ≡ place_at i rs
unfolding fill
place_at-fill_ne i j x [] h = refl
place_at-fill_ne zero zero x (r ∷ rs) h = absurd (h refl)
place_at-fill_ne zero (suc j) x (r ∷ rs) h = refl
place_at-fill_ne (suc i) zero x (r ∷ rs) h = refl
place_at-fill_ne (suc i) (suc j) x (r ∷ rs) h = place_at-fill_ne i j x rs (λ e. h (ap suc e))

place_values_lem :
    (g : Text → ServiceInfo) (services : List Text) (rs : List (Option ServiceInfo))
    → length rs ≡ length services
    → ((i : ℕ) → i < length services → place_at i rs ≡ some (g (service_at i services)))
    → place_values rs ≡ map g services
unfolding place_values service_at
place_values_lem g [] [] same full = refl
place_values_lem g [] (r ∷ rs) same full = absurd (omega arith)
place_values_lem g (x ∷ xs) [] same full = absurd (omega arith)
place_values_lem g (x ∷ xs) (r ∷ rs) same full =
    let first : r ≡ some (g x) = full 0 (omega arith) in
    let rest = place_values_lem g xs rs (omega arith) (λ i h. full (suc i) (omega arith)) in
    rw first (ap (λ l. g x ∷ l) rest)

length-empty_places : (services : List Text) → length (empty_places services) ≡ length services
unfolding empty_places
length-empty_places [] = refl
length-empty_places (x ∷ xs) = ap suc (length-empty_places xs)

same_emptiness :
    (rs : List (Option ServiceInfo)) (services : List Text)
    → length rs ≡ length services
    → is_empty (place_values rs) ≡ is_empty services
unfolding place_values
same_emptiness [] [] same = refl
same_emptiness [] (x ∷ services) same = absurd (omega arith)
same_emptiness (r ∷ rs) [] same = absurd (omega arith)
same_emptiness (none ∷ rs) (x ∷ services) same = refl
same_emptiness (some r ∷ rs) (x ∷ services) same = refl

module _ (D : Daemon) (f : Facts) (services : List Text) (s : D.State) where
  abbrev info_at : ℕ → ServiceInfo
  info_at i = detect_service_state_fast D f (service_at i services) s

  abbrev filled : List ℕ → List (Option ServiceInfo) → List (Option ServiceInfo)
  filled arrivals rs = collect_arrivals D f services arrivals s rs

  length-filled :
      (arrivals : List ℕ) (rs : List (Option ServiceInfo)) → length (filled arrivals rs) ≡ length rs
  unfolding collect_arrivals
  length-filled [] rs = refl
  length-filled (i ∷ arrivals) rs =
      length-filled arrivals (fill i (info_at i) rs) ∙ length-fill i (info_at i) rs

  -- What stands at a place that is written, or will be.
  place_at-filled :
      (i : ℕ) (arrivals : List ℕ) (rs : List (Option ServiceInfo))
      → i < length rs
      → (contains arrivals i ≡ true) ⊎ (place_at i rs ≡ some (info_at i))
      → place_at i (filled arrivals rs) ≡ some (info_at i)
  unfolding collect_arrivals
  place_at-filled i [] rs h (inl e) = cc
  place_at-filled i [] rs h (inr e) = e
  place_at-filled i (j ∷ arrivals) rs h d =
      place_at-filled i arrivals (fill j (info_at j) rs) (rw length-fill h)
        (elim (Bool-cases (nat_beq j i)) [
          | inl same ↦ inr (rw ((nat_beq_iff j i).0 same) (place_at-fill_self i (info_at i) rs h))
          | inr other ↦ elim d [
            | inl later ↦ inl (ground arith)
            | inr old ↦ inr (place_at-fill_ne i j (info_at j) rs (λ e. ground (arith, e)) ∙ old)
          ]
        ])

  detect_all_sequential_lem :
      (xs : List Text)
      → detect_all_sequential D f xs s ≡ map (λ x. detect_service_state_fast D f x s) xs
  unfolding detect_all_sequential
  detect_all_sequential_lem [] = refl
  detect_all_sequential_lem (x ∷ xs) =
      ap (λ l. detect_service_state_fast D f x s ∷ l) (detect_all_sequential_lem xs)

  -- In whatever order the goroutines finish, each at least once, the results are those of the
  -- sequential detection, in its order.
  pub detect_all_parallel-sequential :
      (arrivals : List ℕ)
      → ((i : ℕ) → i < length services → contains arrivals i ≡ true)
      → place_values (detect_all_parallel D f services arrivals s)
        ≡ detect_all_sequential D f services s
  unfolding detect_all_parallel
  detect_all_parallel-sequential arrivals all = rw detect_all_sequential_lem (
      place_values_lem (λ x. detect_service_state_fast D f x s) services
        (filled arrivals (empty_places services))
        (length-filled arrivals (empty_places services) ∙ length-empty_places services)
        (λ i h.
          place_at-filled i arrivals (empty_places services) (rw length-empty_places h)
            (inl (all i h))))

  -- No detection of a service leaves nothing.
  is_empty-detect_all_parallel :
      (arrivals : List ℕ)
      → is_empty (place_values (detect_all_parallel D f services arrivals s)) ≡ is_empty services
  unfolding detect_all_parallel
  is_empty-detect_all_parallel arrivals =
      same_emptiness (filled arrivals (empty_places services)) services
        (length-filled arrivals (empty_places services) ∙ length-empty_places services)

detect_planned-none :
    (D : Daemon) (order order' : List ℕ) (name : Text) (stack : Stack) (identifier : Text)
    (inline planned : List Text) (s : D.State)
    → is_empty (detect_planned D (some order) name stack identifier inline planned s) ≡ true
    → detect_planned D (some order') name stack identifier inline planned s ≡ []
detect_planned-none D order order' name stack identifier inline [] s h = refl
detect_planned-none D order order' name stack identifier inline (x ∷ xs) s h =
    let f = gather_facts D name stack identifier inline (x ∷ xs) s in
    let e = is_empty-detect_all_parallel D f (x ∷ xs) s order in absurd (ground (arith, e, h))

-- A stack in which one detection finds no service has none in any order.
pub detect_all_services_state-none :
    (D : Daemon) (H : Host) (order order' : List ℕ) (name : Text) (stack : Stack)
    (identifier : Text) (sops : Option SopsConfig) (s : D.State) (services : List ServiceInfo)
    → detect_all_services_state D H (some order) name stack identifier sops s ≡ ok services
    → is_empty services ≡ true
    → detect_all_services_state D H (some order') name stack identifier sops s ≡ ok []
unfolding detect_all_services_state
detect_all_services_state-none D H order order' name stack identifier sops s services e bare =
    let (inline, i, rest) = >>=-eq-ok (build_inline_env H stack sops) _ e in
    let (planned, p, last) =
      >>=-eq-ok
        (wrap_err (codes "failed to get planned services for stack " ++ name)
          (get_planned_services D stack inline s))
        _ rest in
    let same : detect_planned D (some order) name stack identifier inline planned s ≡ services =
      cc in
    let none' =
      detect_planned-none D order order' name stack identifier inline planned s
        (ap is_empty same ∙ bare) in
    rw (i, p, none') refl
