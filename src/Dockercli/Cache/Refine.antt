-- ===== src/Dockercli/Cache/Refine.antt =====
-- The operations of the cache against those of a list of keys and values.
use dockform.Base.{
  ℕ, zero, suc, ◌≤◌, ◌<◌, ◌≡◌, ◌≢◌, refl, ap, ◌∙◌, true, false, Option, none, some, List, [], ◌∷◌,
  if◌then◌else◌, Eq, nat_eq, nat_beq_iff, leb, length, contains, Distinct, arith, Bool-cases,
  Option-cases, inl, inr,
}
use dockform.Base.Dict.{Dict, keys, lookup, erase}
use dockform.Dockercli.Cache.{
  Entry, LruCache, without, move_to_front, set_value, back, get_found, get, drop_oldest, evict,
  set_found, set,
}
use dockform.Dockercli.Cache.Recency.{
  view, ids, drop_last, id_of, contains-without, set_value-absent, lookup-id_of, without-absent,
  view-without, found,
}

-- The abstract operations: a used entry comes to the front, and a full list drops its last one.
abbrev pub touch : {K V : Type 0} → ⦃e : Eq K⦄ → Option V → K → Dict K V → Dict K V
touch none k d = d
touch (some v) k d = (k, v) ∷ erase k d

abbrev room : {A : Type 0} → ℕ → List A → List A
room max xs = if leb max (length xs) then drop_last xs else xs

abbrev pub put : {K V : Type 0} → ⦃e : Eq K⦄ → ℕ → Option V → K → V → Dict K V → Dict K V
put max (some old) k v d = (k, v) ∷ erase k d
put max none k v d = (k, v) ∷ room max d

length-view : {K V : Type 0} (ns : List (Entry K V)) → length (view ns) ≡ length ns
length-view [] = refl
length-view (n ∷ ns) = ap suc (length-view ns)

module _ {K V : Type 0} ⦃e : Eq K⦄ where
  -- The map names the elements of the list, each key and each element stands once, and there is
  -- room for at least one.
  pub record IsValid (c : LruCache K V) : Type 0 where
    pub named : (k : K) → lookup k c.items ≡ id_of k c.order
    pub ids_apart : Distinct (ids c.order)
    pub keys_apart : Distinct (keys (view c.order))
    pub below : (i : ℕ) → contains (ids c.order) i ≡ true → i < c.fresh
    pub bounded : length c.order ≤ c.max_size
    pub positive : 1 ≤ c.max_size

  get_found_lem :
      (k : K) (c : LruCache K V) (o : Option ℕ)
      → IsValid c
      → id_of k c.order ≡ o
      → ((get_found o c).0 ≡ lookup k (view c.order))
        × (view (get_found o c).1.order ≡ touch (lookup k (view c.order)) k (view c.order))
  get_found_lem k c none w h = rw (lookup-id_of k c.order h) (refl, refl)
  get_found_lem k c (some i) w h =
      let f = found k i c.order w.ids_apart h in
      rw (f.there, f.same_value)
        (
          refl,
          ap (λ d. (f.entry.key, f.entry.value) ∷ d)
                (view-without k i c.order w.ids_apart w.keys_apart h)
              ∙ ap (λ j. (j, f.entry.value) ∷ erase k (view c.order)) f.same_key,
        )

  -- A read of a valid cache gives the value of the key, and brings its entry to the front.
  pub get_lem :
      (k : K) (c : LruCache K V)
      → IsValid c
      → ((get k c).0 ≡ lookup k (view c.order))
        × (view (get k c).1.order ≡ touch (lookup k (view c.order)) k (view c.order))
  unfolding get
  get_lem k c w = rw (w.named k) (get_found_lem k c (id_of k c.order) w refl)

  view-set_value :
      (k : K) (i : ℕ) (v : V) (c : LruCache K V)
      → IsValid c
      → id_of k c.order ≡ some i
      → view (set_value i v (move_to_front i c.order)) ≡ (k, v) ∷ erase k (view c.order)
  view-set_value k i v c w h =
      let f = found k i c.order w.ids_apart h in
      rw
        (
          f.there,
          (nat_beq_iff f.entry.id i).1 f.same_id,
          set_value-absent i v (without i c.order) (contains-without i c.order),
        )
        (ap (λ d. (f.entry.key, v) ∷ d) (view-without k i c.order w.ids_apart w.keys_apart h)
          ∙ ap (λ j. (j, v) ∷ erase k (view c.order)) f.same_key)

  pub back-ids :
      (ns : List (Entry K V)) (n : Entry K V) → back ns ≡ some n → contains (ids ns) n.id ≡ true
  back-ids [] n h = cc
  back-ids (m ∷ []) n h = ground (arith, nat_beq_iff m.id n.id)
  back-ids (m ∷ p ∷ ns) n h = ground (arith, back-ids (p ∷ ns) n)

  view-back :
      (ns : List (Entry K V)) (n : Entry K V)
      → Distinct (ids ns)
      → back ns ≡ some n
      → (view (without n.id ns) ≡ drop_last (view ns))
        × (suc (length (without n.id ns)) ≡ length ns)
  view-back [] n u h = absurd cc
  view-back (m ∷ []) n u h = ground (arith, nat_beq_iff m.id n.id)
  view-back (m ∷ p ∷ ns) n u h = ground (
    arith,
    view-back (p ∷ ns) n u.1,
    back-ids (p ∷ ns) n,
    nat_beq_iff m.id n.id,
    without-absent n.id (p ∷ ns),
  )

  -- No turn is taken where there is room.
  pub evict-room :
      (fuel : ℕ) (c : LruCache K V) → leb c.max_size (length c.order) ≡ false → evict fuel c ≡ c
  unfolding evict
  evict-room zero c h = refl
  evict-room (suc fuel) c h = elim (Option-cases (back c.order)) [
    | inl nothing ↦ rw (nothing, evict)
    | inr (n, last) ↦ rw (last, h, evict)
  ]

  back-cons : (n : Entry K V) (ns : List (Entry K V)) → back (n ∷ ns) ≢ none
  back-cons n [] h = cc
  back-cons n (m ∷ ns) h = back-cons m ns h

  pub some_last : (ns : List (Entry K V)) → back ns ≡ none → length ns ≡ 0
  some_last [] h = refl
  some_last (n ∷ ns) h = absurd (back-cons n ns h)

  -- One turn makes room in a valid cache.
  view-evict :
      (fuel : ℕ) (c : LruCache K V)
      → IsValid c
      → view (evict (suc fuel) c).order ≡ room c.max_size (view c.order)
  unfolding evict
  view-evict fuel c w = elim (Bool-cases (leb c.max_size (length c.order))) [
    | inr free ↦ rw (evict-room (suc fuel) c free, length-view, free)
    | inl full ↦ elim (Option-cases (back c.order)) [
      | inl nothing ↦ ground (arith, some_last c.order, w.positive)
      | inr (n, last) ↦
          let (seen, shorter) = view-back c.order n w.ids_apart last in
          rw (last, full, evict, length-view, full)
            (ap (λ (d : LruCache K V). view d.order)
                (evict-room fuel (drop_oldest n c) (ground (arith, w.bounded, shorter)))
              ∙ seen)
    ]
  ]

  set_found_lem :
      (k : K) (v : V) (c : LruCache K V) (o : Option ℕ)
      → IsValid c
      → id_of k c.order ≡ o
      → view (set_found o k v c).order ≡ put c.max_size (lookup k (view c.order)) k v (view c.order)
  set_found_lem k v c none w h =
      rw (lookup-id_of k c.order h) (ap (λ d. (k, v) ∷ d) (view-evict (length c.order) c w))
  set_found_lem k v c (some i) w h =
      let f = found k i c.order w.ids_apart h in rw f.same_value (view-set_value k i v c w h)

  -- A write to a valid cache puts the entry at the front; if the key is new and the cache is full,
  -- the least recent entry, and no other, is dropped.
  pub set_lem :
      (k : K) (v : V) (c : LruCache K V)
      → IsValid c
      → view (set k v c).order ≡ put c.max_size (lookup k (view c.order)) k v (view c.order)
  unfolding set
  set_lem k v c w = rw (w.named k) (set_found_lem k v c (id_of k c.order) w refl)
