-- ===== src/Planner/Run.antt =====
-- A run of the planner on a daemon: what reads its state, and makes calls that change it, until an
-- error ends it. A query does not change the daemon.
use dockform.Base.{Bool, true, false, if◌then◌else◌, Option, none, some, [], ◌∷◌, All, All-append}
use dockform.Base.Result.{Result, ok, err}
use dockform.Apperr.{Err}
use dockform.Planner.Client.{Call, Daemon, World, do_call}

abbrev pub Run : Daemon → Type 0 → Type 0
Run D A = World D → Result Err A × World D

abbrev pub outcome : Option Err → Result Err (Unit {0})
outcome none = ok tt
outcome (some e) = err e

module _ {D : Daemon} where
  unfoldable pub return : {A : Type 0} → A → Run D A
  return a w = (ok a, w)

  unfoldable pub fail : {A : Type 0} → Err → Run D A
  fail e w = (err e, w)

  abbrev pub next : {A B : Type 0} → (A → Run D B) → Result Err A × World D → Result Err B × World D
  next f (ok a, w) = f a w
  next f (err e, w) = (err e, w)

  infixl 5 ◌>>=◌ ◌>>◌
  unfoldable pub ◌>>=◌ : {A B : Type 0} → Run D A → (A → Run D B) → Run D B
  ◌>>=◌ m f w = next f (m w)

  abbrev pub ◌>>◌ : {B : Type 0} → Run D (Unit {0}) → Run D B → Run D B
  m >> k = m >>= λ _. k

  -- A query of the daemon.
  unfoldable pub ask : {A : Type 0} → (D.State → Result Err A) → Run D A
  ask query w = (query w.state, w)

  abbrev pub called : Option Err × World D → Result Err (Unit {0}) × World D
  called (e, w) = (outcome e, w)

  unfoldable pub call : Call → Run D (Unit {0})
  call c w = called (do_call c w)

  abbrev pub or_fail : {A : Type 0} → (Err → Err) → Result Err A × World D → Result Err A × World D
  or_fail f (ok a, w) = (ok a, w)
  or_fail f (err e, w) = (err (f e), w)

  -- An error is wrapped on its way out.
  unfoldable pub wrapping : {A : Type 0} → (Err → Err) → Run D A → Run D A
  wrapping f m w = or_fail f (m w)

  -- The calls of a run keep a property, whatever the daemon answers.
  pub record Keeps {A : Type 0} (P : Call → Type 0) (m : Run D A) : Type 0 where
    pub kept : (w : World D) → All P w.calls → All P (m w).1.calls

  next-Keeps :
      {A B : Type 0} (P : Call → Type 0) (f : A → Run D B) (r : Result Err A × World D)
      → ((a : A) → Keeps P (f a))
      → All P r.1.calls
      → All P (next f r).1.calls
  next-Keeps P f (ok a, w) k h = (k a).kept w h
  next-Keeps P f (err e, w) k h = h

  or_fail-Keeps :
      {A : Type 0} (P : Call → Type 0) (f : Err → Err) (r : Result Err A × World D)
      → All P r.1.calls
      → All P (or_fail f r).1.calls
  or_fail-Keeps P f (ok a, w) h = h
  or_fail-Keeps P f (err e, w) h = h

  -- A pure result within a run.
  unfoldable pub given : {A : Type 0} → Result Err A → Run D A
  given r w = (r, w)

  module _ {P : Call → Type 0} where
    pub >>=-Keeps :
        {A B : Type 0} {m : Run D A} {f : A → Run D B}
        → Keeps P m
        → ((a : A) → Keeps P (f a))
        → Keeps P (m >>= f)
    unfolding ◌>>=◌
    >>=-Keeps {m = m} {f = f} h k = record { kept = λ w a. next-Keeps P f (m w) k (h.kept w a) }

    pub wrapping-Keeps :
        {A : Type 0} (f : Err → Err) (m : Run D A) → Keeps P m → Keeps P (wrapping f m)
    unfolding wrapping
    wrapping-Keeps f m h = record { kept = λ w a. or_fail-Keeps P f (m w) (h.kept w a) }

    pub call-Keeps : (c : Call) → P c → Keeps P (call c)
    unfolding call do_call
    call-Keeps c p = record { kept = λ w a. All-append P w.calls (c ∷ []) a (p, tt) }

    pub return-Keeps : {A : Type 0} (a : A) → Keeps P (return a)
    unfolding return
    return-Keeps a = record { kept = λ w h. h }

    pub fail-Keeps : (A : Type 0) (e : Err) → Keeps P (fail {A = A} e)
    unfolding fail
    fail-Keeps A e = record { kept = λ w h. h }

    pub ask-Keeps : {A : Type 0} (query : D.State → Result Err A) → Keeps P (ask query)
    unfolding ask
    ask-Keeps query = record { kept = λ w h. h }

    pub given-Keeps : {A : Type 0} (r : Result Err A) → Keeps P (given r)
    unfolding given
    given-Keeps r = record { kept = λ w h. h }

    pub if-Keeps :
        {A : Type 0} (b : Bool) (m n : Run D A)
        → Keeps P m
        → Keeps P n
        → Keeps P (if b then m else n)
    if-Keeps true m n h k = h
    if-Keeps false m n h k = k

pub ruleset keeping = (
  >>=-Keeps, wrapping-Keeps, call-Keeps, return-Keeps, fail-Keeps, ask-Keeps, given-Keeps, if-Keeps,
)
