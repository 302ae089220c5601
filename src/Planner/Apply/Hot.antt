-- ===== src/Planner/Apply/Hot.antt =====
-- internal/planner/apply_restarts.go and apply_filesets.go: what a hot fileset restarts and what a cold
-- one stops are the same containers.
use dockform.Base.{
  ◌≡◌, refl, ap, sym, ◌∙◌, false, Option, none, some, List, [], ◌∷◌, ◌++◌, ◌==◌, map, arith,
  contains,
}
use mathlib.Core.Path.{subst}
use mathlib.Core.List.{append_assoc, append-nil}
use dockform.Base.Text.{Text, text_eq}
use dockform.Base.Result.{Result, ok, err}
use dockform.Apperr.{Err}
use dockform.Planner.Client.{PsBrief, Call, restart_container, Daemon, World, do_call}
use dockform.Planner.Run.{Run, ◌>>=◌, call, called, wrapping, next, or_fail, return, ask}
use dockform.Planner.Apply.Restart.{
  first_container, or_none, restart_each, restart_pending_services,
}
use dockform.Planner.Apply.Sync.{container_to_stop, containers_to_stop}

-- What a run has done: it fails only if the daemon refuses to restart one of the containers.
abbrev pub Restarts :
    (D : Daemon) → List Text → List Call → Result Err (Unit {0}) × World D → Type 0
Restarts D names calls (ok a, w) = w.calls ≡ calls ++ map restart_container names
Restarts D names calls (err e, w) =
    (n : Text) × (s : D.State) × (e' : Err) × ((D.act (restart_container n) s).0 ≡ some e')

-- The two loops over the listed containers find the same one.
container_to_stop-first_container :
    (items : List PsBrief) (s : Text) → container_to_stop items s ≡ first_container items s
unfolding container_to_stop
container_to_stop-first_container [] s = refl
container_to_stop-first_container (it ∷ items) s =
    rw (container_to_stop-first_container items s) refl

containers_to_stop-none :
    (items : List PsBrief) (s : Text) (ss : List Text)
    → first_container items s ≡ none
    → containers_to_stop items (s ∷ ss) ≡ containers_to_stop items ss
unfolding containers_to_stop
containers_to_stop-none items s ss e =
    let e' = container_to_stop-first_container items s ∙ e in rw (e', containers_to_stop) refl

containers_to_stop-some :
    (items : List PsBrief) (s n : Text) (ss : List Text)
    → first_container items s ≡ some n
    → (s == []) ≡ false
    → containers_to_stop items (s ∷ ss) ≡ n ∷ containers_to_stop items ss
unfolding containers_to_stop
containers_to_stop-some items s n ss e set =
    let e' = container_to_stop-first_container items s ∙ e in rw (e', set, containers_to_stop) refl

module _ {D : Daemon} where
  Restarts-cons :
      (n : Text) (names : List Text) (calls calls' : List Call)
      (r : Result Err (Unit {0}) × World D)
      → calls' ≡ calls ++ (restart_container n ∷ [])
      → Restarts D names calls' r
      → Restarts D (n ∷ names) calls r
  Restarts-cons n names calls calls' (err e, w) h k = k
  Restarts-cons n names calls calls' (ok a, w) h k =
      k
      ∙ ap (λ c. c ++ map restart_container names) h
      ∙ append_assoc calls (restart_container n ∷ []) (map restart_container names)

  restarted :
      (f : Err → Err) (n : Text) (names : List Text) (calls : List Call) (m : Run D (Unit {0}))
      (r : Option Err × World D)
      → r.1.calls ≡ calls ++ (restart_container n ∷ [])
      → ((e : Err) → r.0 ≡ some e → Restarts D names calls (err e, r.1))
      → Restarts D names r.1.calls (m r.1)
      → Restarts D (n ∷ names) calls (next (λ _. m) (or_fail f (called r)))
  restarted f n names calls m (some e, w) h q k = q e refl
  restarted f n names calls m (none, w) h q k = Restarts-cons n names calls w.calls (m w) h k

  restart_step :
      (items : List PsBrief) (s : Text) (ss : List Text) (w : World D) (o : Option Text)
      → first_container items s ≡ o
      → (s == []) ≡ false
      → ((w' : World D)
          → Restarts D (containers_to_stop items ss) w'.calls (restart_each items ss w'))
      → Restarts D (containers_to_stop items (s ∷ ss)) w.calls (restart_each items (s ∷ ss) w)
  unfolding restart_each ◌>>=◌ return wrapping call do_call
  restart_step items s ss w none e set k = rw (containers_to_stop-none items s ss e, e) (k w)
  restart_step items s ss w (some n) e set k =
      rw (containers_to_stop-some items s n ss e set, e)
        (restarted _ n (containers_to_stop items ss) w.calls (restart_each items ss)
          (do_call (restart_container n) w) refl (λ e' q. (n, w.state, e', q)) (k _))

  restart_each_lem :
      (items : List PsBrief) (ss : List Text) (w : World D)
      → contains ss [] ≡ false
      → Restarts D (containers_to_stop items ss) w.calls (restart_each items ss w)
  unfolding restart_each containers_to_stop return
  restart_each_lem items [] w h = sym (append-nil w.calls)
  restart_each_lem items (s ∷ ss) w h =
      let tail : contains ss [] ≡ false = ground (arith, h) in
      restart_step items s ss w (first_container items s) refl (ground (arith, h))
        (λ w'. restart_each_lem items ss w' tail)

  -- Where the daemon lists its containers and no pending service has an empty name, a restart of the
  -- pending services restarts, in their order and by one call each, the containers that a cold
  -- fileset with these services would stop: the first of the list for each service, of whatever
  -- project. It fails only if the daemon refuses to restart a container.
  pub restart_pending_services-containers_to_stop :
      (items : List PsBrief) (services : List Text) (w : World D)
      → D.list_compose_containers_all w.state ≡ ok items
      → contains services [] ≡ false
      → Restarts D (containers_to_stop items services) w.calls (restart_pending_services services w)
  unfolding restart_pending_services containers_to_stop return ◌>>=◌ ask
  restart_pending_services-containers_to_stop items [] w h k = sym (append-nil w.calls)
  restart_pending_services-containers_to_stop items (s ∷ ss) w h k =
      subst
        (λ its.
          Restarts D (containers_to_stop items (s ∷ ss)) w.calls (restart_each its (s ∷ ss) w))
        (sym (ap or_none h)) (restart_each_lem items (s ∷ ss) w k)
