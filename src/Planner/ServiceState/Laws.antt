-- ===== src/Planner/ServiceState/Laws.antt =====
-- When a service counts as up to date.
use dockform.Base.{
  ◌≡◌, ◌≢◌, ◌↔◌, inl, inr, refl, true, false, not, ◌||◌, Option, none, some, [], ◌==◌, arith,
  nat_eq, Option-cases,
}
use dockform.Base.Text.{Text, text_eq, text_beq_iff}
use dockform.Base.Dict.{Dict, lookup}
use dockform.Base.Result.{Result, ok, err}
use dockform.Apperr.{Err}
use dockform.Planner.Client.{ComposePsItem, Daemon}
use dockform.Planner.ServiceState.{running, ServiceInfo, hash_key, identifier_key}
use dockform.Planner.ServiceState.Detect.{
  Facts, text_or, lookup_is, judge, desired_hash_of, labels_of, judge_labels, detect_found,
  fresh_info, detect_service_state_fast,
}

-- The labels of a container that need no action: they name the identifier, if there is one, and
-- carry the desired hash, if one is known.
pub record LabelsMatch (identifier desired : Text) (labels : Dict Text Text) : Type 0 where
  pub identified : identifier ≢ [] → lookup identifier_key labels ≡ some identifier
  pub same_hash : desired ≢ [] → lookup hash_key labels ≡ some desired

identified_iff :
    (key value : Text) (labels : Dict Text Text)
    → (lookup_is key value labels ≡ true) ↔ (lookup key labels ≡ some value)
identified_iff key value labels = elim (Option-cases (lookup key labels)) [
  | inl absent ↦ rw absent (λ h. cc, λ h. cc)
  | inr (v, found) ↦ rw found (ground (arith, text_beq_iff v value))
]

hash_iff :
    (desired : Text) (labels : Dict Text Text)
    → desired ≢ []
    → ((text_or (lookup hash_key labels) == [] || not (text_or (lookup hash_key labels) == desired))
        ≡ false)
      ↔ (lookup hash_key labels ≡ some desired)
hash_iff desired labels some_hash = elim (Option-cases (lookup hash_key labels)) [
  | inl absent ↦ rw absent (λ h. ground (arith, text_beq_iff [] []), λ h. cc)
  | inr (v, found) ↦ rw found (ground (arith, text_beq_iff v desired, text_beq_iff v []))
]

module _ (identifier desired : Text) (labels : Dict Text Text) (info : ServiceInfo) where
  judge-LabelsMatch :
      (judge identifier desired labels info).state ≡ running → LabelsMatch identifier desired labels
  unfolding judge
  judge-LabelsMatch h = record {
    identified = λ e.
        ground (arith, identified_iff identifier_key identifier labels, text_beq_iff identifier []);
    same_hash = λ e. ground (arith, hash_iff desired labels e, text_beq_iff desired []);
  }

  LabelsMatch-judge :
      info.state ≡ running
      → LabelsMatch identifier desired labels
      → (judge identifier desired labels info).state ≡ running
  unfolding judge
  LabelsMatch-judge up m = ground (
    arith,
    identified_iff identifier_key identifier labels,
    text_beq_iff identifier [],
    text_beq_iff desired [],
    m.identified,
    m.same_hash,
    hash_iff desired labels,
  )

module _ (D : Daemon) (f : Facts) (service : Text) (s : D.State) where
  -- A container runs for the service, its labels can be read, and they match.
  pub record UpToDate : Type 0 where
    pub container : ComposePsItem
    pub runs : lookup service f.running ≡ some container
    pub labels : Dict Text Text
    pub readable : labels_of D f container s ≡ ok labels
    pub matching : LabelsMatch f.identifier (desired_hash_of D f service s) labels

  judge_labels-UpToDate :
      (c : ComposePsItem) (r : Result Err (Dict Text Text)) (info : ServiceInfo)
      → lookup service f.running ≡ some c
      → labels_of D f c s ≡ r
      → (judge_labels D f r (desired_hash_of D f service s) info).state ≡ running
      → UpToDate
  judge_labels-UpToDate c (err e) info there p q = ground arith
  judge_labels-UpToDate c (ok labels) info there p q = record {
    container = c;
    runs = there;
    labels = labels;
    readable = p;
    matching = judge-LabelsMatch f.identifier (desired_hash_of D f service s) labels info q;
  }

  detect_found-UpToDate :
      (o : Option ComposePsItem)
      → lookup service f.running ≡ o
      → (detect_found D f o service s).state ≡ running
      → UpToDate
  detect_found-UpToDate none p q = ground arith
  detect_found-UpToDate (some c) p q =
      judge_labels-UpToDate c (labels_of D f c s)
        (fresh_info D f service (desired_hash_of D f service s) running (some c)) p refl q

  UpToDate-running : UpToDate → (detect_service_state_fast D f service s).state ≡ running
  unfolding detect_service_state_fast
  UpToDate-running u =
      rw (u.runs, u.readable)
        (LabelsMatch-judge f.identifier (desired_hash_of D f service s) u.labels _ refl u.matching)

  -- A service is reported as running exactly when it is up to date.
  pub detect_service_state_fast-UpToDate :
      ((detect_service_state_fast D f service s).state ≡ running) ↔ UpToDate
  unfolding detect_service_state_fast
  detect_service_state_fast-UpToDate =
      (λ h. detect_found-UpToDate (lookup service f.running) refl h, UpToDate-running)
