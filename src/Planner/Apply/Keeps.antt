-- ===== src/Planner/Apply/Keeps.antt =====
-- The parts of an apply make calls of one kind only, whatever the daemon answers: resources and restarts.
pub mod Sync
pub mod Stacks
use dockform.Base.{Option, none, some, List, [], ◌∷◌, All}
use dockform.Base.Text.{Text}
use dockform.Base.Dict.{Dict}
use dockform.Manifest.Types.{FilesetSpec}
use dockform.Planner.Client.{
  PsBrief, Call, create_volume, create_network, restart_container, Daemon,
}
use dockform.Planner.Run.{◌>>=◌, ◌>>◌, Keeps, keeping, >>=-Keeps}
use dockform.Planner.Apply.Resources.{create_volumes, create_networks}
use dockform.Planner.Apply.Restart.{
  attached_targets, resolve_target_services, restart_found, first_container, restart_each,
  restart_pending_services,
}

module _ {D : Daemon} {P : Call → Type 0} where
  -- The containers may be restarted, stopped and started, and their labels set.
  module _ (restarts : (n : Text) → P (restart_container n)) where
    restart_each-Keeps :
        (items : List PsBrief) (ss : List Text) → Keeps P (restart_each {D = D} items ss)
    unfolding restart_each
    restart_each-Keeps items [] = search keeping
    restart_each-Keeps items (s ∷ ss) =
        >>=-Keeps (found (first_container items s)) (λ _. restart_each-Keeps items ss)
      where
        found : (o : Option Text) → Keeps P (restart_found {D = D} s o)
        found none = search keeping
        found (some n) = search (keeping, restarts)

    pub restart_pending_services-Keeps :
        (ss : List Text) → Keeps P (restart_pending_services {D = D} ss)
    unfolding restart_pending_services
    restart_pending_services-Keeps [] = search keeping
    restart_pending_services-Keeps (s ∷ ss) = search (keeping, restart_each-Keeps)

  attached_targets-Keeps :
      (v : Text) (names : List Text) → Keeps P (attached_targets {D = D} v names)
  attached_targets-Keeps v [] = search keeping
  attached_targets-Keeps v (n ∷ names) = search keeping

  pub resolve_target_services-Keeps :
      (fs : FilesetSpec) → Keeps P (resolve_target_services {D = D} fs)
  unfolding resolve_target_services
  resolve_target_services-Keeps fs = search (keeping, attached_targets-Keeps)

  module _ (labels : Dict Text Text) where
    pub create_volumes-Keeps :
        (names existing : List Text)
        → All (λ n. P (create_volume n labels)) names
        → Keeps P (create_volumes {D = D} labels names existing)
    unfolding create_volumes
    create_volumes-Keeps [] existing h = search keeping
    create_volumes-Keeps (n ∷ names) existing h =
        >>=-Keeps (search (keeping, h.0)) (λ existing'. create_volumes-Keeps names existing' h.1)

  module _ (labels : Dict Text Text) where
    pub create_networks-Keeps :
        (existing names : List Text)
        → All (λ n. P (create_network n labels)) names
        → Keeps P (create_networks {D = D} labels existing names)
    unfolding create_networks
    create_networks-Keeps existing [] h = search keeping
    create_networks-Keeps existing (n ∷ names) h =
        >>=-Keeps (search (keeping, h.0)) (λ _. create_networks-Keeps existing names h.1)
