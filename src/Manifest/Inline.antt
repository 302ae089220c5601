-- ===== src/Manifest/Inline.antt =====
-- internal/manifest/validation.go: inline environment variables, of which the last one of each name
-- stays.
use dockform.Base.{
  ◌≡◌, refl, sym, ap, ◌∙◌, inl, inr, Bool, true, not, ◌&&◌, ◌||◌, Option, none, some, List, [], ◌∷◌,
  ◌++◌, ◌==◌, if◌then◌else◌, contains, any_of, ltb, length, arith, Bool-cases,
}
use dockform.Base.Text.{Text, text_eq, text_beq, text_beq_iff}
use dockform.Base.Cut.{cut}

abbrev before_cut : Text → Option (Text × Text) → Text
before_cut kv none = kv
before_cut kv (some (before, after)) = before

-- `strings.SplitN(kv, "=", 2)[0]`
unfoldable pub inline_key : Text → Text
unfolding cut
inline_key kv = before_cut kv (cut b'=' kv)

-- The list from its end, where `done` has been read.
unfoldable pub reversed : List Text → List Text → List Text
reversed [] done = done
reversed (x ∷ xs) done = reversed xs (x ∷ done)

-- The loop from the last entry to the first, with the names seen and the entries kept.
unfoldable pub dedup_reversed : List Text → List Text → List Text → List Text
unfolding inline_key
dedup_reversed [] seen kept = kept
dedup_reversed (kv ∷ kvs) seen kept =
    let skipped = dedup_reversed kvs seen kept in
    let added = dedup_reversed kvs (inline_key kv ∷ seen) (kept ++ (kv ∷ [])) in
    if kv == [] || (inline_key kv == [] || contains seen (inline_key kv)) then skipped else added

unfoldable pub dedup_inline : List Text → List Text
unfolding reversed dedup_reversed
dedup_inline merged =
    if ltb 1 (length merged)
    then reversed (dedup_reversed (reversed merged []) [] []) []
    else merged

-- The entries with a name that no later entry has, in their order.
abbrev pub last_of_each : List Text → List Text
last_of_each [] = []
last_of_each (kv ∷ kvs) =
    let rest = last_of_each kvs in
    if inline_key kv == [] || any_of (λ later. inline_key later == inline_key kv) kvs
    then rest
    else kv ∷ rest

abbrev passes : Text → List Text → Bool
passes kv seen = kv == [] || (inline_key kv == [] || contains seen (inline_key kv))

-- The names seen, and the entries kept, when the loop has read a list from its end.
abbrev seen_of : List Text → List Text
seen_of [] = []
seen_of (kv ∷ kvs) = let seen = seen_of kvs in if passes kv seen then seen else inline_key kv ∷ seen

abbrev kept_of : List Text → List Text
kept_of [] = []
kept_of (kv ∷ kvs) =
    let kept = kept_of kvs in if passes kv (seen_of kvs) then kept else kept ++ (kv ∷ [])

dedup_reversed-reversed :
    (kvs rest : List Text)
    → dedup_reversed (reversed kvs rest) [] [] ≡ dedup_reversed rest (seen_of kvs) (kept_of kvs)
unfolding reversed dedup_reversed
dedup_reversed-reversed [] rest = refl
dedup_reversed-reversed (kv ∷ kvs) rest =
    dedup_reversed-reversed kvs (kv ∷ rest)
    ∙ elim (Bool-cases (passes kv (seen_of kvs))) [ inl e ↦ rw e refl | inr e ↦ rw e refl ]

inline_key-nil : (kv : Text) → (kv == []) ≡ true → (inline_key kv == []) ≡ true
unfolding inline_key cut text_beq
inline_key-nil [] h = refl
inline_key-nil (c ∷ kv) h = absurd (ground (arith, h, text_beq_iff (c ∷ kv) []))

contains-seen_of :
    (kvs : List Text) (k : Text)
    → contains (seen_of kvs) k ≡ (not (k == []) && any_of (λ kv. inline_key kv == k) kvs)
contains-seen_of [] k = ground arith
contains-seen_of (kv ∷ kvs) k = ground (
  arith,
  contains-seen_of kvs k,
  contains-seen_of kvs (inline_key kv),
  inline_key-nil kv,
  text_beq_iff (inline_key kv) k,
  text_beq_iff (inline_key kv) [],
  text_beq_iff k [],
)

reversed-snoc :
    (xs done : List Text) (x : Text) → reversed (xs ++ (x ∷ [])) done ≡ x ∷ reversed xs done
unfolding reversed
reversed-snoc [] done x = refl
reversed-snoc (y ∷ xs) done x = reversed-snoc xs (y ∷ done) x

reversed-kept_of : (kvs : List Text) → reversed (kept_of kvs) [] ≡ last_of_each kvs
unfolding reversed
reversed-kept_of [] = refl
reversed-kept_of (kv ∷ kvs) =
    let same : passes kv (seen_of kvs)
        ≡ (inline_key kv == [] || any_of (λ later. inline_key later == inline_key kv) kvs) =
      ground (arith, contains-seen_of kvs (inline_key kv), inline_key-nil kv) in
    elim (Bool-cases (passes kv (seen_of kvs))) [
      | inl e ↦ rw (e, sym same ∙ e) (reversed-kept_of kvs)
      | inr e ↦
          rw (e, sym same ∙ e)
            (reversed-snoc (kept_of kvs) [] kv ∙ ap (λ t. kv ∷ t) (reversed-kept_of kvs))
    ]

-- Of two or more inline variables, those stay that have a name which no later one has, in their
-- order; one alone stays as it is.
pub dedup_inline-last_of_each :
    (kvs : List Text) → dedup_inline kvs ≡ (if ltb 1 (length kvs) then last_of_each kvs else kvs)
unfolding dedup_inline dedup_reversed
dedup_inline-last_of_each kvs =
    ap (λ t. if ltb 1 (length kvs) then t else kvs)
      (ap (λ t. reversed t []) (dedup_reversed-reversed kvs []) ∙ reversed-kept_of kvs)
