-- ===== src/Planner/Apply/Cold.antt =====
-- internal/planner/apply_filesets.go: the containers that a cold fileset stops are started again.
use dockform.Base.{
  ◌≡◌, refl, ◌∙◌, Bool, true, false, ◌&&◌, if◌then◌else◌, Option, none, some, List, ◌∷◌,
}
use dockform.Base.Text.{Text}
use dockform.Base.Result.{Result, ok, err}
use dockform.Apperr.{Err}
use dockform.Manifest.Types.{FilesetSpec}
use dockform.Filesets.Local.{Disk}
use dockform.Planner.Client.{start_containers, Daemon, World, do_call}
use dockform.Planner.Run.{◌>>=◌, call, called, wrapping, next, or_fail, return}
use dockform.Planner.Apply.Restart.{resolve_target_services}
use dockform.Planner.Apply.Sync.{
  recover, on_failure, after_restart, restart_cold_on_failure, start_stopped, start_error,
  sync_stopped, sync_changed, stop_targets, queue_services, is_cold,
}
use dockform.Planner.Apply.Volume.{Compared, write_volume}

abbrev pub succeeded : {A : Type 0} → Result Err A → Bool
succeeded (ok a) = true
succeeded (err e) = false

module _ {D : Daemon} (disk : Disk) (name : Text) (x : Text) (xs : List Text) where
  abbrev starting : World D → Option Err × World D
  starting w = do_call (start_containers (x ∷ xs)) w

  -- What follows the write of the volume, with its result.
  abbrev finish : Result Err (Unit {0}) × World D → Result Err (Unit {0}) × World D
  finish r =
      next (λ _. start_stopped disk name (x ∷ xs))
        (recover disk (restart_cold_on_failure disk name (x ∷ xs)) r)

  started :
      (r : Option Err × World D)
      → ((or_fail {D = D} (start_error name) (called r)).1 ≡ r.1)
        × (succeeded (or_fail {D = D} (start_error name) (called r)).0 ≡ succeeded (called r).0)
  started (none, w) = (refl, refl)
  started (some e, w) = (refl, refl)

  restarted :
      (base : Err) (r : Option Err × World D)
      → ((next {D = D}
            (λ _. start_stopped disk name (x ∷ xs))
            (after_restart disk name base (called r))).1
          ≡ r.1)
        × (succeeded
              (next {D = D}
                (λ _. start_stopped disk name (x ∷ xs))
                (after_restart disk name base (called r))).0
            ≡ false)
  restarted base (none, w) = (refl, refl)
  restarted base (some e, w) = (refl, refl)

  finish_lem :
      (r : Result Err (Unit {0}) × World D)
      → ((finish r).1 ≡ (starting r.1).1)
        × (succeeded (finish r).0 ≡ (succeeded r.0 && succeeded (called (starting r.1)).0))
  unfolding restart_cold_on_failure start_stopped call wrapping
  finish_lem (ok a, w) = started (starting w)
  finish_lem (err e, w) = restarted e (starting w)

  returned :
      (ps : List Text) (r : Result Err (Unit {0}) × World D)
      → ((next {D = D} (λ _ w. (ok ps, w)) r).1 ≡ r.1)
        × (succeeded (next {D = D} (λ _ w. (ok ps, w)) r).0 ≡ succeeded r.0)
  returned ps (ok a, w) = (refl, refl)
  returned ps (err e, w) = (refl, refl)

  -- If a synchronisation has stopped containers, then it starts the same containers again as its last
  -- call, whether its work on the volume succeeds or fails; and it succeeds only if that work and the
  -- start of the containers both do.
  pub sync_changed-start_containers :
      (fs : FilesetSpec) (c : Compared) (pending services : List Text) (w w₁ w₂ : World D)
      → resolve_target_services fs w ≡ (ok services, w₁)
      → stop_targets disk name fs services w₁ ≡ (ok (x ∷ xs), w₂)
      → ((sync_changed disk name fs c pending w).1
          ≡ (do_call (start_containers (x ∷ xs)) (write_volume disk name fs c w₂).1).1)
        × (succeeded (sync_changed disk name fs c pending w).0 ≡ (
            succeeded (write_volume disk name fs c w₂).0
            && succeeded
                (called
                  (do_call (start_containers (x ∷ xs)) (write_volume disk name fs c w₂).1)).0))
  unfolding sync_stopped on_failure ◌>>=◌ wrapping return
  sync_changed-start_containers fs c pending services w w₁ w₂ h k =
      let done = finish_lem (write_volume disk name fs c w₂) in
      let last =
        returned (if is_cold fs then pending else queue_services services pending)
          (finish (write_volume disk name fs c w₂)) in
      rw (h, k) (last.0 ∙ done.0, last.1 ∙ done.1)
