-- ===== src/Planner/Apply/Constructive.antt =====
-- The calls that an apply may make.
use dockform.Base.{
  ℕ, ◌≡◌, refl, true, Option, none, some, List, [], ◌∷◌, contains, contains-set_of, All, All_of_mem,
  Mem, arith, nat_eq,
}
use dockform.Base.Text.{Text, text_eq, text_beq_iff}
use dockform.Base.Dict.{Dict}
use dockform.Base.Sort.{sort_by-All}
use dockform.Manifest.Types.{Stack, FilesetSpec, Config}
use dockform.Manifest.Merge.{get_filesets_for_context, get_stacks_for_context}
use dockform.Filesets.Local.{Disk}
use dockform.Planner.Client.{
  Call, create_volume, create_network, remove_volume, remove_network, remove_container,
  restart_container, stop_containers, start_containers, extract_tar, remove_paths, write_file,
  run_script, update_labels, compose_up, Daemon, World,
}
use dockform.Planner.ServiceState.{Host, identifier_key, project_name}
use dockform.Planner.Prune.{ContextExecutionContext, desired_volumes, desired_networks}
use dockform.Planner.Run.{Keeps, keeping, >>=-Keeps}
use dockform.Planner.Apply.Resources.{ensure_volumes, ensure_networks}
use dockform.Planner.Apply.Sync.{cached_fileset, sync_each, sync_filesets}
use dockform.Planner.Apply.Volume.{index_file_name}
use dockform.Planner.Apply.Stacks.{cached_stack, apply_each, apply_stack_changes}
use dockform.Planner.Apply.{labels_for, existing_networks, apply_context}
use dockform.Planner.Apply.Keeps.{
  create_volumes-Keeps, create_networks-Keeps, restart_pending_services-Keeps,
}
use dockform.Planner.Apply.Keeps.Sync.{sync_fileset-Keeps}
use dockform.Planner.Apply.Keeps.Stacks.{apply_stack-Keeps}

module _ (cfg : Config) (context : Text) where
  -- A fileset of the context.
  abbrev pub Target : (FilesetSpec → Type 0) → Type 0
  Target Q =
      (name : Text) × (fs : FilesetSpec) × Mem (name, fs) (get_filesets_for_context cfg context)
      × Q fs

  abbrev Wanted : (Stack → Type 0) → Type 0
  Wanted Q = (name : Text) × (s : Stack) × Mem (name, s) (get_stacks_for_context cfg context) × Q s

  -- What an apply of the context may call: it creates what the context wants, with the labels of the
  -- identifier, writes below the target path of a fileset of the context, brings a stack of the
  -- context up, and restarts, stops, starts and labels containers. It removes no volume, no network and
  -- no container.
  abbrev pub Constructive : Call → Type 0
  Constructive (create_volume v labels) =
      (contains (desired_volumes cfg context) v ≡ true) × (labels ≡ labels_for cfg.identifier)
  Constructive (create_network n labels) =
      (contains (desired_networks cfg context) n ≡ true) × (labels ≡ labels_for cfg.identifier)
  Constructive (remove_volume v) = ⊥
  Constructive (remove_network n) = ⊥
  Constructive (remove_container n force) = ⊥
  Constructive (restart_container n) = Unit
  Constructive (stop_containers ns) = Unit
  Constructive (start_containers ns) = Unit
  Constructive (extract_tar v path source ps) =
      Target (λ fs. (fs.target_volume ≡ v) × (fs.target_path ≡ path) × (fs.source_abs ≡ source))
  Constructive (remove_paths v path ps) =
      Target (λ fs. (fs.target_volume ≡ v) × (fs.target_path ≡ path))
  Constructive (write_file v path name text) =
      Target (λ fs. (fs.target_volume ≡ v) × (fs.target_path ≡ path) × (name ≡ index_file_name))
  Constructive (run_script v path script) =
      Target (λ fs. (fs.target_volume ≡ v) × (fs.target_path ≡ path))
  Constructive (update_labels n labels) = labels ≡ (identifier_key, cfg.identifier) ∷ []
  Constructive (compose_up s project env) = Wanted (λ s'. (s' ≡ s) × (project ≡ project_name s))

  contains-All :
      (Q : Text → Type 0) (xs : List Text) → ((x : Text) → contains xs x ≡ true → Q x) → All Q xs
  contains-All Q [] f = tt
  contains-All Q (x ∷ xs) f =
      (f x (ground (arith, text_beq_iff x x)), contains-All Q xs (λ y h. f y (ground (arith, h))))

  module _ {D : Daemon} (H : Host) (disk : Disk) (order : Text → List ℕ) where
    sync_each-Constructive :
        (exec : Option ContextExecutionContext) (existing : List Text) (d : Dict Text FilesetSpec)
        (pending : List Text)
        → All (λ e. Mem e (get_filesets_for_context cfg context)) d
        → Keeps Constructive (sync_each {D = D} disk exec existing d pending)
    unfolding sync_each
    sync_each-Constructive exec existing [] pending h = search keeping
    sync_each-Constructive exec existing ((name, fs) ∷ d) pending (m, h) =
        >>=-Keeps
          (sync_fileset-Keeps disk (λ _. tt) (λ _. tt) (λ _. tt) fs
            (λ ps. (name, fs, m, (refl, refl, refl))) (λ ps. (name, fs, m, (refl, refl)))
            (λ t. (name, fs, m, (refl, refl, refl))) (λ t. (name, fs, m, (refl, refl)))
            (cached_fileset exec name) existing name pending)
          (λ pending'. sync_each-Constructive exec existing d pending' h)

    apply_each-Constructive :
        (exec : Option ContextExecutionContext) (d : Dict Text Stack)
        → All (λ e. Mem e (get_stacks_for_context cfg context)) d
        → Keeps Constructive (apply_each {D = D} H cfg.sops cfg.identifier context order exec d)
    unfolding apply_each
    apply_each-Constructive exec [] h = search keeping
    apply_each-Constructive exec ((name, s) ∷ d) (m, h) =
        >>=-Keeps
          (apply_stack-Keeps Constructive cfg.identifier (λ n. refl) H cfg.sops context order
            (cached_stack exec name) name s (λ env. (name, s, m, (refl, refl))))
          (λ _. apply_each-Constructive exec d h)

    sync_filesets-Constructive :
        (exec : Option ContextExecutionContext) (existing : List Text)
        → Keeps Constructive (sync_filesets {D = D} disk cfg context existing exec)
    unfolding sync_filesets
    sync_filesets-Constructive exec existing = sync_each-Constructive exec existing _ [] (
        sort_by-All (λ e. e.0) (λ e. Mem e (get_filesets_for_context cfg context)) _
          (All_of_mem _ _ (λ e m. m)))

    apply_stack_changes-Constructive :
        (exec : Option ContextExecutionContext)
        → Keeps Constructive (
            apply_stack_changes {D = D} H cfg.sops cfg.identifier context order exec
              (get_stacks_for_context cfg context))
    unfolding apply_stack_changes
    apply_stack_changes-Constructive exec = apply_each-Constructive exec _ (
        sort_by-All (λ e. e.0) (λ e. Mem e (get_stacks_for_context cfg context)) _
          (All_of_mem _ _ (λ e m. m)))

    ensure_volumes-Constructive :
        Keeps Constructive (ensure_volumes {D = D} (labels_for cfg.identifier) cfg context)
    unfolding ensure_volumes
    ensure_volumes-Constructive = >>=-Keeps (search keeping) (λ vols. create_volumes-Keeps _ _ _ (
        contains-All _ _
          (λ v h. (ground (arith, h, contains-set_of (desired_volumes cfg context) [] v), refl))))

    ensure_networks-Constructive :
        (existing : List Text)
        → Keeps Constructive
            (ensure_networks {D = D} (labels_for cfg.identifier) cfg context existing)
    unfolding ensure_networks
    ensure_networks-Constructive existing =
        create_networks-Keeps _ _ _ (contains-All _ _ (λ n h. (h, refl)))

    existing_networks-Constructive :
        (exec : Option ContextExecutionContext)
        → Keeps Constructive (existing_networks {D = D} H disk order exec context)
    existing_networks-Constructive none = search keeping
    existing_networks-Constructive (some x) = search keeping

    apply_context-Keeps :
        (exec : Option ContextExecutionContext)
        → Keeps Constructive (apply_context {D = D} H disk order cfg context exec)
    unfolding apply_context
    apply_context-Keeps exec = >>=-Keeps ensure_volumes-Constructive (λ volumes.
        >>=-Keeps (existing_networks-Constructive exec) (λ networks.
          >>=-Keeps (ensure_networks-Constructive networks) (λ _.
            >>=-Keeps (sync_filesets-Constructive exec volumes) (λ pending.
              >>=-Keeps (apply_stack_changes-Constructive exec)
                (λ _. restart_pending_services-Keeps (λ _. tt) pending)))))

    -- Whatever the daemon, the disk and a plan say, and wherever an error ends the apply of a context,
    -- each of its calls is one of these: the creation of a volume or a network that the context wants,
    -- with the label of the identifier; a write into the target path of a fileset of the context, from
    -- its source where files are sent; the start of a stack of the context as its project; a restart,
    -- a stop or a start of containers, or the setting of the identifier's label, if the calls before it
    -- are of this kind. It never removes a volume, a network or a container.
    pub apply_context-Constructive :
        (exec : Option ContextExecutionContext) (w : World D)
        → All Constructive w.calls
        → All Constructive (apply_context H disk order cfg context exec w).1.calls
    apply_context-Constructive exec w h = (apply_context-Keeps exec).kept w h
