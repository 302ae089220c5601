-- ===== src/Dockercli/Cache/Valid.antt =====
-- The operations keep the cache valid.
use dockform.Base.{
  ℕ, suc, ◌<◌, ◌≡◌, refl, true, false, not, ◌&&◌, Option, none, some, List, [], ◌∷◌, ◌==◌,
  if◌then◌else◌, Eq, nat_eq, nat_beq, nat_beq_iff, leb, length, contains, Distinct, arith,
  Bool-cases, Option-cases, inl, inr,
}
use dockform.Base.Dict.{keys, lookup-erase, lookup-insert, contains-erase, erase-Distinct}
use dockform.Dockercli.Cache.{
  Entry, LruCache, without, back, get_found, get, drop_oldest, evict, push, set_found, set,
}
use dockform.Dockercli.Cache.Recency.{
  view, ids, id_of, contains-id_of, contains-without, set_value-absent, without-absent,
  view-without, found,
}
use dockform.Dockercli.Cache.Refine.{IsValid, evict-room, back-ids, some_last}

module _ {K V : Type 0} ⦃e : Eq K⦄ where
  contains-ids-without :
      (i j : ℕ) (ns : List (Entry K V))
      → contains (ids (without i ns)) j ≡ (contains (ids ns) j && not (nat_beq i j))
  contains-ids-without i j [] = refl
  contains-ids-without i j (n ∷ ns) =
      ground (
        arith,
        contains-ids-without i j ns,
        nat_beq_iff n.id i,
        nat_beq_iff n.id j,
        nat_beq_iff i j,
      )

  without-Distinct :
      (i : ℕ) (ns : List (Entry K V)) → Distinct (ids ns) → Distinct (ids (without i ns))
  without-Distinct i [] u = tt
  without-Distinct i (n ∷ ns) u =
      ground (arith, without-Distinct i ns u.1, contains-ids-without i n.id ns)

  length-without :
      (i : ℕ) (ns : List (Entry K V))
      → Distinct (ids ns)
      → contains (ids ns) i ≡ true
      → suc (length (without i ns)) ≡ length ns
  length-without i [] u h = absurd cc
  length-without i (n ∷ ns) u h =
      ground (arith, length-without i ns u.1, without-absent i ns, nat_beq_iff n.id i)

  contains-keys :
      (k : K) (ns : List (Entry K V)) → contains (keys (view ns)) k ≡ false → id_of k ns ≡ none
  contains-keys k [] h = refl
  contains-keys k (n ∷ ns) h = ground (arith, contains-keys k ns)

  contains-view :
      (k : K) (ns : List (Entry K V)) → id_of k ns ≡ none → contains (keys (view ns)) k ≡ false
  contains-view k [] h = refl
  contains-view k (n ∷ ns) h = ground (arith, contains-view k ns)

  id_of-without :
      (k j : K) (i : ℕ) (ns : List (Entry K V))
      → Distinct (ids ns)
      → Distinct (keys (view ns))
      → id_of k ns ≡ some i
      → id_of j (without i ns) ≡ (if k == j then none else id_of j ns)
  id_of-without k j i [] u d h = absurd cc
  id_of-without k j i (n ∷ ns) u d h = ground (
    arith,
    id_of-without k j i ns u.1 d.1,
    contains-id_of k i ns,
    without-absent i ns,
    contains-keys k ns,
    nat_beq_iff n.id i,
    e.same_iff n.key k,
    e.same_iff n.key j,
    e.same_iff k j,
  )

  -- The element that is used comes to the front.
  moved-IsValid :
      (k : K) (i : ℕ) (m : Entry K V) (c : LruCache K V)
      → IsValid c
      → id_of k c.order ≡ some i
      → m.key ≡ k
      → m.id ≡ i
      → IsValid (record c { order = m ∷ without i c.order })
  moved-IsValid k i m c w h same_key same_id = record {
    named = λ j.
        ground (
          arith,
          w.named j,
          id_of-without k j i c.order w.ids_apart w.keys_apart h,
          e.same_iff k j,
        );
    ids_apart = (rw same_id (contains-without i c.order), without-Distinct i c.order w.ids_apart);
    keys_apart = rw (view-without k i c.order w.ids_apart w.keys_apart h) (
      ground (arith, contains-erase k m.key (view c.order), e.same_iff k m.key),
      erase-Distinct k (view c.order) w.keys_apart,
    );
    below = λ j held. ground (
      arith,
      w.below j,
      contains-ids-without i j c.order,
      contains-id_of k i c.order,
      nat_beq_iff m.id j,
    );
    bounded =
        omega
          (arith, w.bounded, length-without i c.order w.ids_apart (contains-id_of k i c.order h));
    positive = w.positive;
  }

  id_of-back :
      (ns : List (Entry K V)) (n : Entry K V)
      → Distinct (keys (view ns))
      → back ns ≡ some n
      → id_of n.key ns ≡ some n.id
  id_of-back [] n d h = absurd cc
  id_of-back (m ∷ []) n d h = ground (arith, e.same_iff m.key n.key)
  id_of-back (m ∷ p ∷ ns) n d h = ground (
    arith,
    id_of-back (p ∷ ns) n d.1,
    contains-view n.key (p ∷ ns),
    e.same_iff m.key n.key,
    contains-last (p ∷ ns) n,
  )
    where
      contains-last :
          (ns : List (Entry K V)) (n : Entry K V)
          → back ns ≡ some n
          → contains (keys (view ns)) n.key ≡ true
      contains-last [] n h = cc
      contains-last (m ∷ []) n h = ground (arith, e.same_iff m.key n.key)
      contains-last (m ∷ p ∷ ns) n h = ground (arith, contains-last (p ∷ ns) n)

  drop_oldest-IsValid :
      (n : Entry K V) (c : LruCache K V)
      → IsValid c
      → back c.order ≡ some n
      → IsValid (drop_oldest n c)
  drop_oldest-IsValid n c w last =
      let there = id_of-back c.order n w.keys_apart last in
      record {
        named = λ j. ground (
          arith,
          w.named j,
          lookup-erase n.key j c.items,
          id_of-without n.key j n.id c.order w.ids_apart w.keys_apart there,
        );
        ids_apart = without-Distinct n.id c.order w.ids_apart;
        keys_apart =
            rw (view-without n.key n.id c.order w.ids_apart w.keys_apart there)
              (erase-Distinct n.key (view c.order) w.keys_apart);
        below = λ j held. ground (arith, w.below j, contains-ids-without n.id j c.order);
        bounded =
            omega
              (arith, w.bounded, length-without n.id c.order w.ids_apart (back-ids c.order n last));
        positive = w.positive;
      }

  push-IsValid :
      (k : K) (v : V) (c : LruCache K V)
      → IsValid c
      → id_of k c.order ≡ none
      → length c.order < c.max_size
      → IsValid (push k v c)
  push-IsValid k v c w new free = record {
    named = λ j. ground (arith, w.named j, lookup-insert k j c.fresh c.items);
    ids_apart = (ground (arith, w.below c.fresh), w.ids_apart);
    keys_apart = (contains-view k c.order new, w.keys_apart);
    below = λ j held. ground (arith, w.below j, nat_beq_iff c.fresh j);
    bounded = omega arith;
    positive = w.positive;
  }

  get_found-IsValid :
      (k : K) (c : LruCache K V) (o : Option ℕ)
      → IsValid c
      → id_of k c.order ≡ o
      → IsValid (get_found o c).1
  get_found-IsValid k c none w h = w
  get_found-IsValid k c (some i) w h =
      let f = found k i c.order w.ids_apart h in
      rw f.there (moved-IsValid k i f.entry c w h f.same_key f.same_id)

  -- A read keeps a cache valid.
  pub get-IsValid : (k : K) (c : LruCache K V) → IsValid c → IsValid (get k c).1
  unfolding get
  get-IsValid k c w = rw (w.named k) (get_found-IsValid k c (id_of k c.order) w refl)

  -- An evicted cache, ready for a new key.
  record Ready (k : K) (c : LruCache K V) : Type 0 where
    valid : IsValid c
    new : id_of k c.order ≡ none
    free : length c.order < c.max_size

  evict-Ready :
      (k : K) (fuel : ℕ) (c : LruCache K V)
      → IsValid c
      → id_of k c.order ≡ none
      → Ready k (evict (suc fuel) c)
  unfolding evict
  evict-Ready k fuel c w new = elim (Bool-cases (leb c.max_size (length c.order))) [
    | inr free ↦
        rw (evict-room (suc fuel) c free) (record { valid = w; new = new; free = ground arith })
    | inl full ↦ elim (Option-cases (back c.order)) [
      | inl nothing ↦ absurd (ground (arith, some_last c.order, w.positive))
      | inr (n, last) ↦
          let shorter = length-without n.id c.order w.ids_apart (back-ids c.order n last) in
          rw (last, full, evict)
            (rw (evict-room fuel (drop_oldest n c) (ground (arith, w.bounded, shorter))) (record {
              valid = drop_oldest-IsValid n c w last;
              new = ground (
                arith,
                id_of-without n.key k n.id c.order w.ids_apart w.keys_apart,
                id_of-back c.order n w.keys_apart last,
              );
              free = omega (arith, w.bounded, shorter);
            }))
    ]
  ]

  set_found-IsValid :
      (k : K) (v : V) (c : LruCache K V) (o : Option ℕ)
      → IsValid c
      → id_of k c.order ≡ o
      → IsValid (set_found o k v c)
  set_found-IsValid k v c none w h =
      let r = evict-Ready k (length c.order) c w h in
      push-IsValid k v (evict (suc (length c.order)) c) r.valid r.new r.free
  set_found-IsValid k v c (some i) w h =
      let f = found k i c.order w.ids_apart h in
      rw
        (
          f.there,
          (nat_beq_iff f.entry.id i).1 f.same_id,
          set_value-absent i v (without i c.order) (contains-without i c.order),
        )
        (moved-IsValid k i (record f.entry { value = v }) c w h f.same_key f.same_id)

  -- A write keeps a cache valid: in particular it never holds more entries than its size.
  pub set-IsValid : (k : K) (v : V) (c : LruCache K V) → IsValid c → IsValid (set k v c)
  unfolding set
  set-IsValid k v c w = rw (w.named k) (set_found-IsValid k v c (id_of k c.order) w refl)
