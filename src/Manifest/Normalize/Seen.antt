-- ===== src/Manifest/Normalize/Seen.antt =====
-- What the rest of the program sees of the stacks of an accepted configuration.
use dockform.Base.{
  ◌≡◌, refl, sym, ap, ◌∙◌, inl, inr, false, Option, none, some, [], ◌∷◌, Distinct, arith,
  Bool-cases, is_some,
}
use mathlib.Core.Path.{subst}
use dockform.Base.Text.{Text, text_eq, text_beq_iff}
use dockform.Base.Dict.{Dict, keys, has, lookup, lookup-insert, insert-Distinct}
use dockform.Base.Result.{Result, ok, err, >>=-eq-ok}
use dockform.Manifest.Machine.{Machine}
use dockform.Manifest.Key.{KeyError, parse_stack_key}
use dockform.Manifest.Types.{Stack, ContextConfig, Config}
use dockform.Manifest.Merge.{get_all_stacks, augment}
use dockform.Manifest.Merge.Laws.{merged, lookup-get_all_stacks}
use dockform.Manifest.Normalize.Checks.{check_stack, check_stacks}
use dockform.Manifest.Normalize.Stacks.{
  Maps, normalize_stack, put_stack, normalize_one, normalize_stacks,
}
use dockform.Manifest.Normalize.Settled.{
  Settled, AllSettled, first_of, normalize_stacks-other, normalize_stacks-Settled,
}
use dockform.Manifest.Normalize.Valid.{steps}
use dockform.Manifest.Normalize.{normalize_and_validate}

abbrev Once : Maps → Type 0
Once maps = Distinct (keys maps.0) × Distinct (keys maps.1)

check_stacks-keys :
    (H : Machine) (contexts : Dict Text ContextConfig) (d d' : Dict Text Stack)
    → check_stacks H contexts d ≡ ok d'
    → keys d' ≡ keys d
unfolding check_stacks
check_stacks-keys H contexts [] d' h = let e : [] ≡ d' = cc in ap keys (sym e)
check_stacks-keys H contexts ((key, stack) ∷ d) d' h =
    let (s, first, h₁) = >>=-eq-ok (check_stack H contexts key stack (parse_stack_key key)) _ h in
    let (d₁, rest, h₂) = >>=-eq-ok (check_stacks H contexts d) (λ x. ok ((key, s) ∷ x)) h₁ in
    let e : (key, s) ∷ d₁ ≡ d' = cc in
    ap keys (sym e) ∙ ap (λ ks. key ∷ ks) (check_stacks-keys H contexts d d₁ rest)

module _ (H : Machine) (base_dir : Text) where
  put_stack-Once :
      (key : Text) (s : Stack) (maps : Maps) → Once maps → Once (put_stack H base_dir key s maps)
  put_stack-Once key s (explicit, discovered) once = elim (Bool-cases (has key discovered)) [
    | inl found ↦ rw found (once.0, insert-Distinct key s discovered once.1)
    | inr absent ↦ rw absent (insert-Distinct key s explicit once.0, once.1)
  ]

  normalize_one-Once :
      (k : Text) (stack : Stack) (r : Result KeyError (Text × Text)) (maps maps' : Maps)
      → Once maps
      → normalize_one H base_dir k stack r maps ≡ ok maps'
      → Once maps'
  normalize_one-Once k stack (err e) maps maps' once h =
      let same : maps ≡ maps' = cc in subst Once same once
  normalize_one-Once k stack (ok (context, name)) maps maps' once h =
      let (s, normal, h₁) = >>=-eq-ok (normalize_stack H base_dir k context stack) _ h in
      let same : put_stack H base_dir k s maps ≡ maps' = cc in
      subst Once same (put_stack-Once k s maps once)

  normalize_stacks-Once :
      (d : Dict Text Stack) (maps maps' : Maps)
      → Once maps
      → normalize_stacks H base_dir d maps ≡ ok maps'
      → Once maps'
  unfolding normalize_stacks
  normalize_stacks-Once [] maps maps' once h = let same : maps ≡ maps' = cc in subst Once same once
  normalize_stacks-Once ((k, stack) ∷ d) maps maps' once h =
      let (maps₁, first, rest) =
        >>=-eq-ok (normalize_one H base_dir k stack (parse_stack_key k) maps)
          (λ m. normalize_stacks H base_dir d m) h in
      normalize_stacks-Once d maps₁ maps'
        (normalize_one-Once k stack (parse_stack_key k) maps maps₁ once first) rest

-- The discovered stacks keep their keys.
module _ (H : Machine) (base_dir key : Text) where
  put_stack-has :
      (k : Text) (s : Stack) (maps : Maps)
      → has key (put_stack H base_dir k s maps).1 ≡ has key maps.1
  put_stack-has k s (explicit, discovered) = elim (Bool-cases (has k discovered)) [
    | inl found ↦ ground (arith, found, lookup-insert k key s discovered, text_beq_iff k key)
    | inr absent ↦ rw absent refl
  ]

  normalize_one-has :
      (k : Text) (stack : Stack) (r : Result KeyError (Text × Text)) (maps maps' : Maps)
      → normalize_one H base_dir k stack r maps ≡ ok maps'
      → has key maps'.1 ≡ has key maps.1
  normalize_one-has k stack (err e) maps maps' h =
      let same : maps ≡ maps' = cc in ap (λ (m : Maps). has key m.1) (sym same)
  normalize_one-has k stack (ok (context, name)) maps maps' h =
      let (s, normal, h₁) = >>=-eq-ok (normalize_stack H base_dir k context stack) _ h in
      let same : put_stack H base_dir k s maps ≡ maps' = cc in
      ap (λ (m : Maps). has key m.1) (sym same) ∙ put_stack-has k s maps

  pub normalize_stacks-has :
      (d : Dict Text Stack) (maps maps' : Maps)
      → normalize_stacks H base_dir d maps ≡ ok maps'
      → has key maps'.1 ≡ has key maps.1
  unfolding normalize_stacks
  normalize_stacks-has [] maps maps' h =
      let same : maps ≡ maps' = cc in ap (λ (m : Maps). has key m.1) (sym same)
  normalize_stacks-has ((k, stack) ∷ d) maps maps' h =
      let (maps₁, first, rest) =
        >>=-eq-ok (normalize_one H base_dir k stack (parse_stack_key k) maps)
          (λ m. normalize_stacks H base_dir d m) h in
      normalize_stacks-has d maps₁ maps' rest
      ∙ normalize_one-has k stack (parse_stack_key k) maps maps₁ first

-- What is merged of the two maps is as settled as what they have.
merged-Settled :
    (H : Machine) (explicit discovered : Option Stack) (s : Stack)
    → ((t : Stack) → first_of discovered explicit ≡ some t → Settled H t)
    → merged explicit discovered ≡ some s
    → Settled H s
unfolding augment
merged-Settled H none (some t) s settled e = settled s e
merged-Settled H none none s settled e = settled s e
merged-Settled H (some v) none s settled e = settled s e
merged-Settled H (some v) (some t) s settled e =
    let same : augment t v ≡ s = cc in subst (Settled H) same (settled t refl)

merged-view :
    (explicit discovered : Option Stack)
    → is_some (merged explicit discovered) ≡ false
    → first_of discovered explicit ≡ none
merged-view none none h = refl
merged-view none (some t) h = ground (arith, h)
merged-view (some v) none h = ground (arith, h)
merged-view (some v) (some t) h = ground (arith, h)

-- After an accepted run, of maps that have each key once, every stack that the queries give for a
-- key with two parts has its root computed, only secrets in files `.env`, and no bind mount in the
-- compose files that can be read.
pub normalize_and_validate-Settled :
    (H : Machine) (base_dir : Text) (c c' : Config) (key context name : Text) (s : Stack)
    → Distinct (keys c.stacks)
    → Distinct (keys c.discovered_stacks)
    → parse_stack_key key ≡ ok (context, name)
    → normalize_and_validate H base_dir c ≡ ok c'
    → lookup key (get_all_stacks c') ≡ some s
    → Settled H s
normalize_and_validate-Settled H base_dir c c' key context name s u v parsed h found =
    let st = steps H base_dir c c' h in
    let c₁ : Config = record c { stacks = st.explicit } in
    let u₁ : Distinct (keys st.explicit) =
      subst Distinct (sym (check_stacks-keys H c.contexts c.stacks st.explicit st.stacks_checked))
        u in
    let (u', v') =
      normalize_stacks-Once H base_dir (get_all_stacks c₁) (st.explicit, c.discovered_stacks)
        st.maps (u₁, v) st.stacks_normalized in
    let all : AllSettled H base_dir key st.maps = elim (Bool-cases (has key (get_all_stacks c₁))) [
      | inl known ↦
          normalize_stacks-Settled H base_dir key context name (get_all_stacks c₁)
            (st.explicit, c.discovered_stacks) st.maps parsed st.stacks_normalized (inl known)
      | inr absent ↦
          let same =
            normalize_stacks-other H base_dir key (get_all_stacks c₁)
              (st.explicit, c.discovered_stacks) st.maps st.stacks_normalized absent in
          let none_there =
            merged-view (lookup key st.explicit) (lookup key c.discovered_stacks)
              (ap is_some (sym (lookup-get_all_stacks c₁ key u₁ v)) ∙ absent) in
          (λ t there. cc (same, none_there, there))
    ] in
    let at_end =
      lookup-get_all_stacks c' key (subst (λ d. Distinct (keys d)) (sym st.result_stacks) u')
        (subst (λ d. Distinct (keys d)) (sym st.result_discovered) v') in
    merged-Settled H (lookup key st.maps.0) (lookup key st.maps.1) s all (
      ap (λ d. merged (lookup key d) (lookup key st.maps.1)) (sym st.result_stacks)
      ∙ ap (λ d. merged (lookup key c'.stacks) (lookup key d)) (sym st.result_discovered)
      ∙ sym at_end
      ∙ found)
