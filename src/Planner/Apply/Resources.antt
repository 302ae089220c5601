-- ===== src/Planner/Apply/Resources.antt =====
-- internal/planner/apply_resources.go: the volumes and networks that a context needs.
use dockform.Base.{List, [], ◌∷◌, ◌++◌, if◌then◌else◌, contains, set_of}
use dockform.Base.Text.{Text, codes, text_eq}
use dockform.Base.Dict.{Dict}
use dockform.Apperr.{external, wrap}
use dockform.Manifest.Types.{Config}
use dockform.Planner.Client.{create_volume, create_network, Daemon}
use dockform.Planner.Prune.{desired_volumes, desired_networks}
use dockform.Planner.Run.{Run, return, ◌>>=◌, ◌>>◌, ask, call, wrapping}

abbrev volumes_op : Text
volumes_op = codes "resourcemanager.EnsureVolumesExistForContext"

abbrev networks_op : Text
networks_op = codes "resourcemanager.EnsureNetworksExistForContext"

module _ {D : Daemon} (labels : Dict Text Text) where
  abbrev pub create_missing : Text → List Text → Run D (List Text)
  create_missing name existing = do
    wrapping (λ e. wrap volumes_op external e (codes "create volume " ++ name))
        (call (create_volume name labels))
    return (existing ++ (name ∷ []))

  abbrev pub ensure_volume : Text → List Text → Run D (List Text)
  ensure_volume name existing =
      if contains existing name then return existing else create_missing name existing

  unfoldable pub create_volumes : List Text → List Text → Run D (List Text)
  create_volumes [] existing = return existing
  create_volumes (name ∷ names) existing = do
    existing' ← ensure_volume name existing
    create_volumes names existing'

  -- The set of volumes that exist afterwards, or an error.
  unfoldable pub ensure_volumes : Config → Text → Run D (List Text)
  unfolding create_volumes
  ensure_volumes cfg context = do
    vols ← wrapping (λ e. wrap volumes_op external e (codes "list volumes")) (ask D.list_volumes)
    create_volumes (set_of (desired_volumes cfg context) []) (set_of vols [])

  abbrev pub ensure_network : List Text → Text → Run D (Unit {0})
  ensure_network existing name =
      if contains existing name
      then return tt
      else wrapping (λ e. wrap networks_op external e (codes "create network " ++ name))
          (call (create_network name labels))

  unfoldable pub create_networks : List Text → List Text → Run D (Unit {0})
  create_networks existing [] = return tt
  create_networks existing (name ∷ names) = do
    ensure_network existing name
    create_networks existing names

  -- A context that the configuration does not have wants no network.
  unfoldable pub ensure_networks : Config → Text → List Text → Run D (Unit {0})
  unfolding create_networks
  ensure_networks cfg context existing = create_networks existing (desired_networks cfg context)
