-- ===== src/Planner/Apply/Quiet.antt =====
-- internal/planner/apply.go: an apply of a context in which nothing is to do.
use dockform.Base.{
  ℕ, ◌≡◌, refl, true, false, not, ◌||◌, Option, List, [], ◌∷◌, ◌==◌, arith, contains,
  contains-set_of, set_of, is_empty, All,
}
use dockform.Base.Text.{Text, text_eq, text_beq_iff}
use dockform.Base.Dict.{Dict}
use dockform.Base.Result.{ok}
use dockform.Base.Sort.{sort_by-All}
use dockform.Manifest.Types.{Config, FilesetSpec, Stack}
use dockform.Manifest.Merge.{get_filesets_for_context, get_stacks_for_context}
use dockform.Filesets.Local.{Disk}
use dockform.Planner.Client.{Daemon, World}
use dockform.Planner.ServiceState.{Host}
use dockform.Planner.Prune.{
  desired_volumes, desired_networks, ContextExecutionContext, StackExecutionData,
}
use dockform.Planner.Run.{◌>>=◌, wrapping, return, ask}
use dockform.Planner.Apply.Resources.{
  ensure_volumes, create_volumes, create_networks, ensure_networks,
}
use dockform.Planner.Apply.Restart.{restart_pending_services}
use dockform.Planner.Apply.Sync.{compare, cached_fileset, sync_fileset, sync_each, sync_filesets}
use dockform.Planner.Apply.Volume.{Compared}
use dockform.Planner.Apply.Stacks.{
  stack_data, cached_stack, apply_stack, apply_each, apply_stack_changes,
}
use dockform.Planner.Apply.{labels_for, existing_networks, apply_context}

module _ {D : Daemon} (labels : Dict Text Text) (w : World D) where
  create_volumes-Settled :
      (names existing : List Text)
      → ((n : Text) → contains names n ≡ true → contains existing n ≡ true)
      → create_volumes labels names existing w ≡ (ok existing, w)
  unfolding create_volumes return ◌>>=◌
  create_volumes-Settled [] existing h = refl
  create_volumes-Settled (n ∷ names) existing h =
      rw (h n (ground (arith, text_beq_iff n n)))
        (create_volumes-Settled names existing (λ m k. h m (ground (arith, k))))

  create_networks-Settled :
      (existing names : List Text)
      → ((n : Text) → contains names n ≡ true → contains existing n ≡ true)
      → create_networks labels existing names w ≡ (ok tt, w)
  unfolding create_networks return ◌>>=◌
  create_networks-Settled existing [] h = refl
  create_networks-Settled existing (n ∷ names) h =
      rw (h n (ground (arith, text_beq_iff n n)))
        (create_networks-Settled existing names (λ m k. h m (ground (arith, k))))

module _ {D : Daemon} (H : Host) (disk : Disk) (order : Text → List ℕ) (cfg : Config)
    (context : Text) (exec : Option ContextExecutionContext) (w : World D) where
  -- The volume of the fileset has the tree of its source.
  abbrev pub SettledFileset : List Text → Text × FilesetSpec → Type 0
  SettledFileset vols (name, fs) =
      (c : Compared) × (compare {D = D} disk (cached_fileset exec name) name fs vols w ≡ (ok c, w))
      × ((fs.source_abs == []) ≡ false)
      × ((c.local.tree_hash == c.remote.tree_hash) ≡ true)

  -- The services of the stack are as they are wanted.
  abbrev pub SettledStack : Text × Stack → Type 0
  SettledStack (name, s) =
      (d : StackExecutionData) × (stack_data {D = D} H cfg.sops cfg.identifier context order
          (cached_stack exec name) name s w
        ≡ (ok d, w))
      × ((is_empty d.services || not d.needs_apply) ≡ true)

  sync_each-Settled :
      (vols : List Text) (d : Dict Text FilesetSpec) (pending : List Text)
      → All (SettledFileset vols) d
      → sync_each disk exec vols d pending w ≡ (ok pending, w)
  unfolding sync_each sync_fileset return ◌>>=◌
  sync_each-Settled vols [] pending h = refl
  sync_each-Settled vols ((name, fs) ∷ d) pending ((c, compared, set, same), h) =
      rw (set, compared, same) (sync_each-Settled vols d pending h)

  apply_each-Settled :
      (d : Dict Text Stack)
      → All SettledStack d
      → apply_each H cfg.sops cfg.identifier context order exec d w ≡ (ok tt, w)
  unfolding apply_each apply_stack return ◌>>=◌
  apply_each-Settled [] h = refl
  apply_each-Settled ((name, s) ∷ d) ((x, found, idle), h) =
      rw (found, idle) (apply_each-Settled d h)

  ensure_volumes-Settled :
      (vols : List Text)
      → D.list_volumes w.state ≡ ok vols
      → ((n : Text) → contains (desired_volumes cfg context) n ≡ true → contains vols n ≡ true)
      → ensure_volumes {D = D} (labels_for cfg.identifier) cfg context w ≡ (ok (set_of vols []), w)
  unfolding ensure_volumes ◌>>=◌ wrapping ask
  ensure_volumes-Settled vols listed h = rw listed (
      create_volumes-Settled _ w _ _ (λ n k. ground (
        arith,
        k,
        h n,
        contains-set_of vols [] n,
        contains-set_of (desired_volumes cfg context) [] n,
      )))

  -- Let the daemon list every volume that the context wants, and the networks, from the plan or
  -- from the daemon, hold every network that it wants. Let each of its filesets have a source and,
  -- as the plan or a comparison says, equal trees, and each of its stacks no service that wants an
  -- apply. Then an apply of the context succeeds and makes no call.
  pub apply_context-Settled :
      (vols nets : List Text)
      → D.list_volumes w.state ≡ ok vols
      → ((n : Text) → contains (desired_volumes cfg context) n ≡ true → contains vols n ≡ true)
      → existing_networks {D = D} H disk order exec context w ≡ (ok nets, w)
      → ((n : Text) → contains (desired_networks cfg context) n ≡ true → contains nets n ≡ true)
      → All (SettledFileset (set_of vols [])) (get_filesets_for_context cfg context)
      → All SettledStack (get_stacks_for_context cfg context)
      → apply_context H disk order cfg context exec w ≡ (ok tt, w)
  unfolding apply_context ensure_networks sync_filesets apply_stack_changes restart_pending_services
      ◌>>=◌ return
  apply_context-Settled vols nets listed has_volumes networks has_networks filesets stacks =
      rw
        (
          ensure_volumes-Settled vols listed has_volumes,
          networks,
          create_networks-Settled (labels_for cfg.identifier) w nets (desired_networks cfg context)
              has_networks,
          sync_each-Settled (set_of vols []) _ []
              (sort_by-All (λ e. e.0) (SettledFileset (set_of vols [])) _ filesets),
          apply_each-Settled _ (sort_by-All (λ e. e.0) SettledStack _ stacks),
        )
        refl
