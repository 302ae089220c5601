-- ===== src/Dockercli/Cache/Recency.antt =====
-- The cache as a list of keys and values, the most recent first.
use dockform.Base.{
  ℕ, ◌≡◌, refl, true, false, Option, none, some, List, [], ◌∷◌, ◌==◌, if◌then◌else◌, Eq, nat_eq,
  nat_beq_iff, contains, Distinct, arith, Bool-cases, inl, inr,
}
use dockform.Base.Dict.{Dict, keys, lookup, erase}
use dockform.Dockercli.Cache.{Entry, entry_at, without, set_value}

abbrev pub view : {K V : Type 0} → List (Entry K V) → Dict K V
view [] = []
view (n ∷ ns) = (n.key, n.value) ∷ view ns

abbrev pub ids : {K V : Type 0} → List (Entry K V) → List ℕ
ids [] = []
ids (n ∷ ns) = n.id ∷ ids ns

abbrev pub drop_last : {A : Type 0} → List A → List A
drop_last [] = []
drop_last (x ∷ []) = []
drop_last (x ∷ y ∷ xs) = x ∷ drop_last (y ∷ xs)

module _ {K V : Type 0} ⦃e : Eq K⦄ where
  abbrev pub id_of : K → List (Entry K V) → Option ℕ
  id_of k [] = none
  id_of k (n ∷ ns) = if n.key == k then some n.id else id_of k ns

  pub contains-id_of :
      (k : K) (i : ℕ) (ns : List (Entry K V)) → id_of k ns ≡ some i → contains (ids ns) i ≡ true
  contains-id_of k i [] h = cc
  contains-id_of k i (n ∷ ns) h = ground (arith, contains-id_of k i ns, nat_beq_iff n.id i)

  pub without-absent :
      (i : ℕ) (ns : List (Entry K V)) → contains (ids ns) i ≡ false → without i ns ≡ ns
  without-absent i [] h = refl
  without-absent i (n ∷ ns) h = ground (arith, without-absent i ns)

  erase-absent : (k : K) (d : Dict K V) → contains (keys d) k ≡ false → erase k d ≡ d
  erase-absent k [] h = refl
  erase-absent k ((j, v) ∷ d) h = ground (arith, erase-absent k d)

  pub contains-without : (i : ℕ) (ns : List (Entry K V)) → contains (ids (without i ns)) i ≡ false
  contains-without i [] = refl
  contains-without i (n ∷ ns) = ground (arith, contains-without i ns)

  pub set_value-absent :
      (i : ℕ) (v : V) (ns : List (Entry K V)) → contains (ids ns) i ≡ false → set_value i v ns ≡ ns
  set_value-absent i v [] h = refl
  set_value-absent i v (n ∷ ns) h = ground (arith, set_value-absent i v ns)

  pub lookup-id_of : (k : K) (ns : List (Entry K V)) → id_of k ns ≡ none → lookup k (view ns) ≡ none
  lookup-id_of k [] h = refl
  lookup-id_of k (n ∷ ns) h = ground (arith, lookup-id_of k ns)

  pub view-without :
      (k : K) (i : ℕ) (ns : List (Entry K V))
      → Distinct (ids ns)
      → Distinct (keys (view ns))
      → id_of k ns ≡ some i
      → view (without i ns) ≡ erase k (view ns)
  view-without k i [] u d h = cc
  view-without k i (n ∷ ns) u d h = ground (
    arith,
    view-without k i ns u.1 d.1,
    contains-id_of k i ns,
    without-absent i ns,
    erase-absent k (view ns),
    nat_beq_iff n.id i,
    e.same_iff n.key k,
  )

  -- The element that the map names.
  pub record Found (k : K) (i : ℕ) (ns : List (Entry K V)) : Type 0 where
    pub entry : Entry K V
    pub there : entry_at i ns ≡ some entry
    pub same_key : entry.key ≡ k
    pub same_id : entry.id ≡ i
    pub same_value : lookup k (view ns) ≡ some entry.value

  pub found :
      (k : K) (i : ℕ) (ns : List (Entry K V))
      → Distinct (ids ns)
      → id_of k ns ≡ some i
      → Found k i ns
  found k i [] u h = absurd cc
  found k i (n ∷ ns) u h = elim (Bool-cases (n.key == k)) [
    | inl here ↦ record {
      entry = n;
      there = ground (arith, nat_beq_iff n.id i);
      same_key = (e.same_iff n.key k).0 here;
      same_id = ground arith;
      same_value = ground arith;
    }
    | inr later ↦
        let f = found k i ns u.1 (ground arith) in
        record {
          entry = f.entry;
          there = ground (arith, nat_beq_iff n.id i, contains-id_of k i ns, f.there);
          same_key = f.same_key;
          same_id = f.same_id;
          same_value = ground (arith, f.same_value);
        }
  ]
