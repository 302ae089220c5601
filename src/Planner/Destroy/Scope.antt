-- ===== src/Planner/Destroy/Scope.antt =====
-- What a targeted destroy may touch.
use dockform.Base.{
  ◌≡◌, refl, ap, fun_ext, Bool, true, false, not, ◌&&◌, ◌||◌, List, [], ◌∷◌, ◌++◌, ◌==◌, select,
  map, nat_eq, All, arith, Bool-cases, inl, inr,
}
use dockform.Base.Text.{Text, text_eq}
use dockform.Base.Dict.{Dict, insert, has, lookup-insert}
use dockform.Base.Result.{Result, ok, err}
use dockform.Apperr.{Err}
use dockform.Manifest.Key.{KeyError, parse_stack_key}
use dockform.Manifest.Types.{Stack, FilesetSpec, Config}
use dockform.Manifest.Merge.{get_all_filesets}
use dockform.Planner.Client.{PsBrief, Call, remove_container, remove_volume, Daemon, World}
use dockform.Planner.Prune.{Progress}
use dockform.Planner.Prune.Safe.{sweep_calls, sweep-All}
use dockform.Planner.Destroy.{
  DestroyScope, allows_stack, named_project, volume_to_fileset, Services, remove_names, Sorting,
  sort_out, first_pass, remove_services, remove_groups, destroy_listed, destroy_containers,
  destroy_networks, volumes_listed, destroy_volumes, destroy_context,
}

-- Whether a stack of the configuration lies in a context and runs as a compose project.
abbrev runs_as : Text → Text → Stack → Result KeyError (Text × Text) → Bool
runs_as context project stack (err e) = false
runs_as context project stack (ok (c, name)) =
    c == context && named_project stack.project name == project

abbrev pub some_stack : Text → Text → Dict Text Stack → Bool
some_stack context project [] = false
some_stack context project ((key, stack) ∷ d) =
    runs_as context project stack (parse_stack_key key) || some_stack context project d

-- Whether a volume is the target of some fileset, of whatever context.
abbrev pub is_target : Dict Text FilesetSpec → Text → Bool
is_target [] v = false
is_target ((name, fs) ∷ d) v = fs.target_volume == v || is_target d v

has-volume_to_fileset :
    (d : Dict Text FilesetSpec) (m : Dict Text Text) (v : Text)
    → has v (volume_to_fileset d m) ≡ (is_target d v || has v m)
unfolding volume_to_fileset
has-volume_to_fileset [] m v = refl
has-volume_to_fileset ((name, fs) ∷ d) m v = ground (
  arith,
  has-volume_to_fileset d (insert fs.target_volume name m) v,
  lookup-insert fs.target_volume v name m,
)

module _ (D : Daemon) (context : Text) (cfg : Config) (scope : DestroyScope)
    (narrow : scope.targeted ≡ true) where
  abbrev pub volumes : Dict Text Text
  volumes = volume_to_fileset (get_all_filesets cfg) []

  -- A targeted destroy that can list the volumes removes, on every context, those that are the
  -- target of a fileset of the configuration, of whatever context that fileset is.
  pub destroy_volumes_calls :
      (vols : List Text) (p : Progress D)
      → D.list_volumes p.world.state ≡ ok vols
      → (destroy_volumes D context volumes scope p).world.calls
        ≡ p.world.calls ++ map remove_volume (select (is_target (get_all_filesets cfg)) vols)
  unfolding destroy_volumes
  destroy_volumes_calls vols p listed =
      rw (listed, sweep_calls)
        (ap (λ want. p.world.calls ++ map remove_volume (select want vols))
          (fun_ext (λ v. ground (arith, has-volume_to_fileset (get_all_filesets cfg) [] v))))

  -- The calls of a targeted destroy: containers, and volumes that are the target of a fileset.
  abbrev pub Scoped : Call → Type 0
  Scoped (remove_container name force) = Unit
  Scoped (remove_volume v) = is_target (get_all_filesets cfg) v ≡ true
  Scoped _ = ⊥

  remove_names-Scoped :
      (names : List Text) (p : Progress D)
      → All Scoped p.world.calls
      → All Scoped (remove_names D context volumes scope names p).world.calls
  remove_names-Scoped names p h =
      sweep-All Scoped (λ _. false) (λ n. remove_container n true) _ names p (λ n there out. tt) h

  sort_out-Scoped :
      (it : PsBrief) (t : Sorting D context volumes scope)
      → All Scoped t.progress.world.calls
      → All Scoped (sort_out D context volumes scope it t).progress.world.calls
  sort_out-Scoped it t h = elim (Bool-cases (allows_stack scope context it.project)) [
    | inr out ↦ rw out h
    | inl allowed ↦ elim (Bool-cases (it.project == [])) [
      | inl orphan ↦ rw (allowed, orphan) (remove_names-Scoped (it.name ∷ []) t.progress h)
      | inr owned ↦ rw (allowed, owned) h
    ]
  ]

  first_pass-Scoped :
      (items : List PsBrief) (t : Sorting D context volumes scope)
      → All Scoped t.progress.world.calls
      → All Scoped (first_pass D context volumes scope items t).progress.world.calls
  unfolding first_pass
  first_pass-Scoped [] t h = h
  first_pass-Scoped (it ∷ items) t h =
      first_pass-Scoped items (sort_out D context volumes scope it t) (sort_out-Scoped it t h)

  remove_services-Scoped :
      (d : Services) (p : Progress D)
      → All Scoped p.world.calls
      → All Scoped (remove_services D context volumes scope d p).world.calls
  unfolding remove_services
  remove_services-Scoped [] p h = h
  remove_services-Scoped ((s, names) ∷ d) p h =
      remove_services-Scoped d (remove_names D context volumes scope names p)
        (remove_names-Scoped names p h)

  remove_groups-Scoped :
      (g : Dict Text Services) (p : Progress D)
      → All Scoped p.world.calls
      → All Scoped (remove_groups D context volumes scope g p).world.calls
  unfolding remove_groups
  remove_groups-Scoped [] p h = h
  remove_groups-Scoped ((project, d) ∷ g) p h =
      remove_groups-Scoped g (remove_services D context volumes scope d p)
        (remove_services-Scoped d p h)

  destroy_listed-Scoped :
      (r : Result Err (List PsBrief)) (p : Progress D)
      → All Scoped p.world.calls
      → All Scoped (destroy_listed D context volumes scope r p).world.calls
  destroy_listed-Scoped (err e) p h = h
  destroy_listed-Scoped (ok items) p h =
      remove_groups-Scoped _ _ (first_pass-Scoped items (record { progress = p; groups = [] }) h)

  volumes_listed-Scoped :
      (r : Result Err (List Text)) (p : Progress D)
      → All Scoped p.world.calls
      → All Scoped (volumes_listed D context volumes scope r p).world.calls
  volumes_listed-Scoped (err e) p h = h
  volumes_listed-Scoped (ok vols) p h =
      sweep-All Scoped (λ v. scope.targeted && not (has v volumes)) remove_volume _ vols p
        (λ v there kept. ground (arith, narrow, has-volume_to_fileset (get_all_filesets cfg) [] v))
        h

  destroy_networks_none : (p : Progress D) → destroy_networks D context volumes scope p ≡ p
  unfolding destroy_networks
  destroy_networks_none p = ground (arith, narrow)

  -- Whatever the daemon answers, a targeted destroy removes no network, and no volume that is not
  -- the target of a fileset of the configuration, if the calls before it are of this kind.
  pub destroy_context-Scoped :
      (w : World D)
      → All Scoped w.calls
      → All Scoped (destroy_context D context volumes scope w).1.calls
  unfolding destroy_context destroy_containers destroy_volumes
  destroy_context-Scoped w h =
      let p = destroy_containers D context volumes scope (record { world = w; errs = [] }) in
      rw (destroy_networks_none p) (
        volumes_listed-Scoped (D.list_volumes p.world.state) p (
          destroy_listed-Scoped (D.list_compose_containers_all w.state)
            (record { world = w; errs = [] }) h))
