-- ===== src/Lib.antt =====
-- A model of dockform, which brings the volumes, networks, stacks and filesets of Docker contexts
-- to the state that a manifest declares. The code is under internal/.
--
-- Base: lists, texts as lists of bytes in UTF-8, association lists for Go's maps, results for the
--   pairs of a value and an error, and the insertion sort that stands for the package sort.
-- Apperr: apperr/apperr.go, chained errors with their kinds, marks and messages. The loop of
--   DeepestMessage runs on fuel, one more than the size of the error, which is enough.
-- Manifest: manifest/types.go. Key has ParseStackKey and MakeStackKey, Types the records, Merge the
--   queries GetAllStacks, GetStacksForContext, GetFilesetsForContext and GetAllSopsSecrets. Loader is
--   manifest/loader.go: Interpolate replaces the placeholders, Discover finds stacks and filesets in
--   the directories (Discover/Spec says which they are). Normalize is normalizeAndValidate of
--   manifest/validation.go, with Inline, its inline variables, and Validate, the checks of filesets,
--   ownership and sops; BindMounts is manifest/bind_mount_validator.go. The file system, paths and
--   the quoting of a text are the record Machine; the environment and the YAML decoder are
--   parameters.
-- Cli: cli/common/targets.go, ResolveTargets, which narrows a configuration to the flags.
-- Dockercli: dockercli/lru_cache.go, the cache of the client, against a list of keys and values. The
--   eviction loop runs on fuel, one more than the number of entries; a turn removes one.
-- Filesets: filesets/index.go. DiffIndexes is in Diff, what a difference does to a volume in
--   Diff/Sync, and BuildLocalIndex over a file tree with the JSON functions in Local. The file system,
--   SHA-256, JSON and the package doublestar are the record Disk.
-- Images: images/check.go, types.go and, in Upgrade, upgrade.go. The registry and the digests of the
--   daemon are the record Images, semantic versions and regular expressions the record Versions, and
--   the file system the record FileSystem.
-- Registry: registry/registry.go, references of images.
-- Util: util/strings.go, ShellEscape, with the words that a POSIX shell reads; and Go's package path,
--   which the ownership script uses.
-- Planner: the package planner. Client is the interface DockerClient: the daemon is a parameter
--   with a state, queries on it, and calls that change it and may fail; a World is that state with
--   the calls made so far. ServiceState is service_state.go, Resource is resource.go, Prune is
--   prune.go, Destroy is destroy.go, Orchestrate is orchestrate.go. Apply is applyContext of apply.go,
--   a Run, which reads the daemon, makes calls and ends at the first error: Apply/Resources is
--   apply_resources.go, Apply/Volume and Apply/Sync are apply_filesets.go, Apply/Ownership is
--   apply_ownership.go, Apply/Restart is targets.go and apply_restarts.go, Apply/Stacks is
--   applyStackChangesForContext. Build is BuildPlan of build_plan.go with the types of types.go:
--   Build/Context is buildContextPlan, Build/Stacks build_plan_stacks.go, Build/Filesets
--   build_plan_filesets.go; the Schedule is how the goroutines of a plan run. Contexts is
--   ExecuteAcrossContexts with what runs in it, ApplyWithPlan, PruneWithPlanOptions and
--   DestroyWithOptions, where each context has a daemon of its own. What an operation does when the
--   run context is cancelled in the middle of it, as the failure of a sibling does under FailFast, is
--   a parameter.
--
-- The planner reads a Config of Manifest, narrowed by Cli, asks the client for the state of the
-- daemon, and returns errors of Apperr. Goroutines are modelled by the order in which they finish,
-- a parameter of the definitions. The machine that dockform runs on (its paths and the decryption
-- of secrets) is the record Host. A nil map and an empty one are the same list, and the order of a
-- list that stands for a map is the order in which Go would visit it.
--
-- Not modelled: the commands and their printing, the terminal and dashboard code, the log, the HTTP
-- client of the registry, the processes of docker, sops and ssh, which are input and output; the
-- decoding of YAML, which is a library's; and BuildDestroyPlan, which only lists what a destroy would
-- remove.
pub mod Apperr
pub mod Base
pub mod Cli
pub mod Dockercli
pub mod Filesets
pub mod Images
pub mod Manifest
pub mod Planner
pub mod Registry
pub mod Util
