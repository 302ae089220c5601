-- ===== src/Planner/Build/Filesets.antt =====
-- internal/planner/build_plan_filesets.go: the files of a context's plan, with a client that is not
-- nil. The local indexes come in the order of `arrivals`, the entries of the filesets in the order
-- in which the channel has them; the remote indexes are read in one batch.
use dockform.Base.{
  ◌&&◌, Option, none, some, List, [], ◌∷◌, ◌++◌, ◌==◌, if◌then◌else◌, contains, set_of, map,
}
use dockform.Base.Text.{Text, codes, text_eq}
use dockform.Base.Dict.{Dict, lookup, insert, has}
use dockform.Base.Sort.{sort_by}
use dockform.Base.Result.{Result, ok, err}
use dockform.Apperr.{Err, Kind, external, internal, wrap, aggregate}
use dockform.Manifest.Types.{FilesetSpec}
use dockform.Filesets.Index.{FileEntry, Index}
use dockform.Filesets.Diff.{Diff, diff_indexes}
use dockform.Filesets.Local.{Disk, build_local_index, parse_index_json}
use dockform.Planner.Client.{Daemon}
use dockform.Planner.Resource.{Action, create, update, delete, noop, Resource, file, new_resource}
use dockform.Planner.Prune.{FilesetExecutionData}
use dockform.Planner.Apply.Volume.{index_file_name}
use dockform.Planner.Build.Stacks.{Building}

abbrev pub filesets_op : Text
filesets_op = codes "planner.buildFilesetResourcesForContext"

abbrev pub files_error : Kind → Text → Err → Option Err
files_error kind msg e = some (wrap filesets_op kind e msg)

abbrev pub status : Action → Text → List Resource
status action details = new_resource file [] action details ∷ []

abbrev pub entry_resource : Action → FileEntry → Resource
entry_resource action f = new_resource file f.path action []

abbrev pub diff_resources : Diff → List Resource
diff_resources d =
    map (entry_resource create) d.to_create
    ++ (map (entry_resource update) d.to_update
        ++ map (λ p. new_resource file p delete []) d.to_delete)

-- Trees with different hashes and no difference of files have a status of their own.
abbrev pub or_unknown : List Resource → List Resource
or_unknown [] = status update (codes "changes detected (details unavailable)")
or_unknown (r ∷ rs) = r ∷ rs

unfoldable pub file_resources : FilesetExecutionData → List Resource
file_resources d =
    if d.local_index.tree_hash == d.remote_index.tree_hash
    then status noop (codes "no file changes")
    else or_unknown (diff_resources d.diff)

abbrev pub show_fileset : Text → List Resource → Building → Building
show_fileset name rs b = record b {
  plan = record b.plan { filesets = insert name rs b.plan.filesets };
}

abbrev pub keep_fileset : Text → FilesetExecutionData → Building → Building
keep_fileset name d b = record b {
  exec = record b.exec { filesets = insert name d b.exec.filesets };
}

-- The plan as it is built, with the errors so far.
pub record Noted : Type 0 where
  pub built : Building
  pub errs : List (Option Err)

abbrev pub mark : Text → Text → Option Err → Noted → Noted
mark name details e n = record {
  built = show_fileset name (status update details) n.built;
  errs = n.errs ++ (e ∷ []);
}

-- The first phase: the indexes, and what could not be indexed.
pub record Indexed : Type 0 where
  pub noted : Noted
  pub locals : Dict Text Index

abbrev pub add_local : Text → Result Err Index → Indexed → Indexed
add_local name (ok index) x = record x { locals = insert name index x.locals }
add_local name (err e) x = record x {
  noted =
      mark name (codes "unable to index local files")
        (files_error internal (codes "build local fileset index for " ++ name) e) x.noted;
}

-- The volumes to read: those that exist, of the filesets that have an index.
unfoldable pub volumes_to_read :
    Dict Text Index → List Text → Dict Text FilesetSpec → List Text → List Text
volumes_to_read locals existing [] vols = vols
volumes_to_read locals existing ((name, fs) ∷ d) vols = volumes_to_read locals existing d (
    if has name locals && contains existing fs.target_volume
    then vols ++ (fs.target_volume ∷ [])
    else vols)

-- After a failed batch.
unfoldable pub mark_unread :
    Dict Text Index → List Text → Dict Text FilesetSpec → Building → Building
mark_unread locals existing [] b = b
mark_unread locals existing ((name, fs) ∷ d) b = mark_unread locals existing d (
    if has name locals && contains existing fs.target_volume
    then show_fileset name (status update (codes "unable to read remote index")) b
    else b)

abbrev text_at : Option Text → Text
text_at (some t) = t
text_at none = []

abbrev pub raw_index : Dict Text Text → List Text → FilesetSpec → Text
raw_index remotes existing fs =
    if contains existing fs.target_volume then text_at (lookup fs.target_volume remotes) else []

abbrev pub fileset_data : Index → Index → FilesetExecutionData
fileset_data local remote = record {
  local_index = local;
  remote_index = remote;
  diff = diff_indexes local remote;
}

abbrev pub add_compared : Text → Index → Result Err Index → Noted → Noted
add_compared name local (err e) n =
    mark name (codes "unable to parse remote index")
      (files_error external (codes "parse remote index for " ++ name) e) n
add_compared name local (ok remote) n =
    let d = fileset_data local remote in
    record n { built = show_fileset name (file_resources d) (keep_fileset name d n.built) }

abbrev pub finish_filesets : Noted → Result Err Building
finish_filesets n =
    elim (aggregate filesets_op external (codes "one or more fileset analyses failed") n.errs) [
      | none ↦ ok n.built
      | some e ↦ err e
    ]

module _ (disk : Disk) where
  unfoldable pub index_locals : Dict Text FilesetSpec → Indexed → Indexed
  index_locals [] x = x
  index_locals ((name, fs) ∷ d) x =
      index_locals d
        (add_local name (build_local_index disk fs.source_abs fs.target_path fs.exclude) x)

  -- The third phase, on the filesets that have an index.
  unfoldable pub compare_each :
      Dict Text Index → Dict Text Text → List Text → Dict Text FilesetSpec → Noted → Noted
  unfolding file_resources
  compare_each locals remotes existing [] n = n
  compare_each locals remotes existing ((name, fs) ∷ d) n =
      compare_each locals remotes existing d (elim (lookup name locals) [
        | none ↦ n
        | some local ↦
            add_compared name local (parse_index_json disk (raw_index remotes existing fs)) n
      ])

module _ (D : Daemon) where
  unfoldable pub read_remotes : List Text → D.State → Result Err (Dict Text Text)
  read_remotes [] s = ok []
  read_remotes (v ∷ vs) s =
      D.read_index_files_from_volumes (sort_by (λ x. x) (set_of (v ∷ vs) [])) index_file_name s

module _ (D : Daemon) (disk : Disk) where
  abbrev pub compare_read :
      Indexed → List Text → Dict Text FilesetSpec → Result Err (Dict Text Text) → Noted
  compare_read x existing specs (err e) = record {
    built = mark_unread x.locals existing specs x.noted.built;
    errs = x.noted.errs ++ (files_error external (codes "read remote indexes (batched)") e ∷ []);
  }
  compare_read x existing specs (ok remotes) =
      compare_each disk x.locals remotes existing specs x.noted

  unfoldable pub build_filesets :
      Dict Text FilesetSpec
      → Dict Text FilesetSpec
      → List Text
      → D.State
      → Building
      → Result Err Building
  unfolding index_locals volumes_to_read mark_unread compare_each read_remotes
  build_filesets arrivals specs existing s b =
      let x =
        index_locals disk arrivals
          (record { noted = record { built = b; errs = [] }; locals = [] }) in
      let sorted = sort_by (λ e. e.0) specs in
      finish_filesets (
        compare_read x existing sorted
          (read_remotes D (volumes_to_read x.locals existing sorted []) s))
