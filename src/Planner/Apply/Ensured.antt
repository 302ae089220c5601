-- ===== src/Planner/Apply/Ensured.antt =====
-- internal/planner/apply_resources.go: the volumes that a context needs exist afterwards.
use dockform.Base.{
  ◌≡◌, refl, ap, ◌∙◌, not, ◌&&◌, ◌||◌, Option, none, some, List, [], ◌∷◌, ◌++◌, map, arith,
  if◌then◌else◌, contains, contains-append, set_of, Distinct, contains-set_of, sym, Bool-cases, inl,
  inr,
}
use mathlib.Core.List.{append_assoc, append-nil}
use dockform.Base.Text.{Text, text_eq, text_beq_iff}
use dockform.Base.Dict.{Dict}
use dockform.Base.Result.{Result, ok, err}
use dockform.Apperr.{Err}
use dockform.Manifest.Types.{Config}
use dockform.Planner.Client.{Call, create_volume, Daemon, World, do_call}
use dockform.Planner.Prune.{desired_volumes}
use dockform.Planner.Run.{◌>>=◌, call, called, wrapping, next, or_fail, return, ask}
use dockform.Planner.Apply.Resources.{create_volumes, ensure_volumes}

-- The names that are missing, each once.
unfoldable absent : List Text → List Text → List Text
absent [] existing = []
absent (n ∷ names) existing =
    let rest = absent names (existing ++ (n ∷ [])) in
    if contains existing n then absent names existing else n ∷ rest

contains-absent :
    (names existing : List Text) (a : Text)
    → contains (absent names existing) a ≡ (contains names a && not (contains existing a))
unfolding absent
contains-absent [] existing a = refl
contains-absent (n ∷ names) existing a = ground (
  arith,
  contains-absent names existing a,
  contains-absent names (existing ++ (n ∷ [])) a,
  contains-append existing (n ∷ []) a,
  text_beq_iff n a,
)

absent-Distinct : (names existing : List Text) → Distinct (absent names existing)
unfolding absent
absent-Distinct [] existing = tt
absent-Distinct (n ∷ names) existing = elim (Bool-cases (contains existing n)) [
  | inl there ↦ rw there (absent-Distinct names existing)
  | inr missing ↦ rw missing (
    ground (
      arith,
      contains-absent names (existing ++ (n ∷ [])) n,
      contains-append existing (n ∷ []) n,
      text_beq_iff n n,
    ),
    absent-Distinct names (existing ++ (n ∷ [])),
  )
]

-- The daemon refuses to create a volume.
abbrev Refused : Daemon → Dict Text Text → Type 0
Refused D labels =
    (n : Text) × (st : D.State) × (e : Err) × ((D.act (create_volume n labels) st).0 ≡ some e)

module _ {D : Daemon} (labels : Dict Text Text) where
  -- What a run that succeeds has done: the calls, and the set that it returns. It fails only if the
  -- daemon refuses.
  abbrev Ensures : List Text → List Text → List Call → Result Err (List Text) × World D → Type 0
  Ensures existing fresh calls (err e, w) = Refused D labels
  Ensures existing fresh calls (ok vs, w) =
      (vs ≡ existing ++ fresh) × (w.calls ≡ calls ++ map (λ n. create_volume n labels) fresh)

  Ensures-cons :
      (n : Text) (existing fresh : List Text) (calls calls' : List Call)
      (r : Result Err (List Text) × World D)
      → calls' ≡ calls ++ (create_volume n labels ∷ [])
      → Ensures (existing ++ (n ∷ [])) fresh calls' r
      → Ensures existing (n ∷ fresh) calls r
  Ensures-cons n existing fresh calls calls' (err e, w) e' h = h
  Ensures-cons n existing fresh calls calls' (ok vs, w) e h = (
    h.0 ∙ append_assoc existing (n ∷ []) fresh,
    h.1
        ∙ ap (λ c. c ++ map (λ v. create_volume v labels) fresh) e
        ∙ append_assoc calls (create_volume n labels ∷ [])
            (map (λ v. create_volume v labels) fresh),
  )

  created :
      (f : Err → Err) (n : Text) (names existing fresh : List Text) (calls : List Call)
      (r : Option Err × World D)
      → r.1.calls ≡ calls ++ (create_volume n labels ∷ [])
      → ((e : Err) → r.0 ≡ some e → Refused D labels)
      → Ensures
          (existing ++ (n ∷ []))
          fresh
          r.1.calls
          (create_volumes labels names (existing ++ (n ∷ [])) r.1)
      → Ensures existing (n ∷ fresh) calls (
          next
            (create_volumes labels names)
            (next (λ _ w'. (ok (existing ++ (n ∷ [])), w')) (or_fail f (called r))))
  created f n names existing fresh calls (some e, w) h q k = q e refl
  created f n names existing fresh calls (none, w) h q k =
      Ensures-cons n existing fresh calls w.calls
        (create_volumes labels names (existing ++ (n ∷ [])) w) h k

  create_volumes_lem :
      (names existing : List Text) (w : World D)
      → Ensures existing (absent names existing) w.calls (create_volumes labels names existing w)
  unfolding create_volumes absent return ◌>>=◌ wrapping call do_call
  create_volumes_lem [] existing w = (sym (append-nil existing), sym (append-nil w.calls))
  create_volumes_lem (n ∷ names) existing w = elim (Bool-cases (contains existing n)) [
    | inl there ↦ rw there (create_volumes_lem names existing w)
    | inr missing ↦ rw missing (
        created _ n names existing _ w.calls (do_call (create_volume n labels) w) refl
          (λ e q. (n, w.state, e, q)) (create_volumes_lem names (existing ++ (n ∷ [])) _))
  ]

  -- What a success of `ensure_volumes` means, where the daemon lists the volumes `vols`: the volumes
  -- that it has created, in their order, and the set that it returns.
  abbrev pub Ensured :
      Config → Text → List Text → List Call → Result Err (List Text) × World D → Type 0
  Ensured cfg context vols calls (err e, w) = Refused D labels
  Ensured cfg context vols calls (ok vs, w) =
      (fresh : List Text) × (w.calls ≡ calls ++ map (λ n. create_volume n labels) fresh)
      × Distinct fresh
      × ((n : Text)
          → contains fresh n ≡ (contains (desired_volumes cfg context) n && not (contains vols n)))
      × ((n : Text) → contains vs n ≡ (contains vols n || contains (desired_volumes cfg context) n))

  Ensures-Ensured :
      (cfg : Config) (context : Text) (vols : List Text) (calls : List Call)
      (r : Result Err (List Text) × World D)
      → Ensures
          (set_of vols [])
          (absent (set_of (desired_volumes cfg context) []) (set_of vols []))
          calls
          r
      → Ensured cfg context vols calls r
  Ensures-Ensured cfg context vols calls (err e, w) h = h
  Ensures-Ensured cfg context vols calls (ok vs, w) h =
      let want = desired_volumes cfg context in
      let fresh = absent (set_of want []) (set_of vols []) in
      (
        fresh,
        h.1,
        absent-Distinct (set_of want []) (set_of vols []),
        λ n. ground (
          arith,
          contains-absent (set_of want []) (set_of vols []) n,
          contains-set_of want [] n,
          contains-set_of vols [] n,
        ),
        λ n.
            ap (λ l. contains l n) h.0
            ∙ ground (
              arith,
              contains-append (set_of vols []) fresh n,
              contains-absent (set_of want []) (set_of vols []) n,
              contains-set_of want [] n,
              contains-set_of vols [] n,
            ),
      )

  -- If the daemon lists its volumes, then `ensure_volumes` fails only if the daemon refuses to create
  -- a volume. Its success has created each volume that the context wants and the daemon does not
  -- list, once, no other, and made no other call; the set that it returns holds the volumes that
  -- were there and those that are wanted.
  pub ensure_volumes-Ensured :
      (cfg : Config) (context : Text) (vols : List Text) (w : World D)
      → D.list_volumes w.state ≡ ok vols
      → Ensured cfg context vols w.calls (ensure_volumes labels cfg context w)
  unfolding ensure_volumes ◌>>=◌ wrapping ask
  ensure_volumes-Ensured cfg context vols w h =
      rw h (Ensures-Ensured cfg context vols w.calls _ (create_volumes_lem _ _ w))
