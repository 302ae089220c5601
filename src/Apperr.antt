-- ===== src/Apperr.antt =====
-- internal/apperr/apperr.go: chained errors, their kinds and messages.
pub mod Chain
mod Tests
use dockform.Base.{
  ℕ, zero, suc, ◌+◌, Bool, true, false, not, ◌&&◌, ◌||◌, Option, none, some, List, [], ◌∷◌, ◌++◌,
  ◌==◌, if◌then◌else◌,
}
use dockform.Base.Text.{Text, codes, text_eq}

pub data Kind : Type 0 where
  invalid_input not_found conflict unauthorized forbidden precondition : Kind
  timeout unavailable external internal : Kind

-- Go's `error` values: the types of this package, and `plain` for those of other packages, of
-- which only the message is known. A nil error is `no_cause`, and outside this type `none`.
mutual
  pub data Err : Type 0 where
    plain : Text → Err
    app : Text → Kind → Cause → Text → Err
    context_error : Text → Cause → Err
    aborted_error : Text → Cause → Err
    multi_error : Errs → Err

  pub data Cause : Type 0 where
    no_cause : Cause
    cause : Err → Cause

  pub data Errs : Type 0 where
    no_errs : Errs
    more_errs : Err → Errs → Errs

-- `Wrap` for an error that is not nil.
abbrev pub wrap : Text → Kind → Err → Text → Err
wrap op kind e msg = app op kind (cause e) msg

-- `New`
abbrev pub new : Text → Kind → Text → Err
new op kind msg = app op kind no_cause msg

abbrev prefixed : Text → Text → Text
prefixed op base =
    if not (op == []) && not (base == [])
    then op ++ (codes ": " ++ base)
    else if not (op == [])
    then op
    else base

abbrev aborted_text : Text
aborted_text = codes "aborted: another context failed"

abbrev join_more : Text → Errs → Text → Text
join_more first no_errs rest = first
join_more first (more_errs _ _) rest = first ++ (codes "; " ++ rest)

-- The methods `Error`.
unfoldable mutual
  pub message : Err → Text
  message (plain m) = m
  message (app op kind c m) = prefixed op (if m == [] then message_cause c else m)
  message (context_error name no_cause) = codes "context " ++ name
  message (context_error name (cause e)) = codes "context " ++ (name ++ (codes ": " ++ message e))
  message (aborted_error name c) =
      if name == []
      then aborted_text
      else codes "context " ++ (name ++ (codes ": " ++ aborted_text))
  message (multi_error es) = message_errs es

  pub message_cause : Cause → Text
  message_cause no_cause = []
  message_cause (cause e) = message e

  -- `strings.Join(lines, "; ")`
  pub message_errs : Errs → Text
  message_errs no_errs = []
  message_errs (more_errs e es) = join_more (message e) es (message_errs es)

-- The fields of an `*E`.
pub record App : Type 0 where
  pub op : Text
  pub kind : Kind
  pub err : Cause
  pub msg : Text

abbrev first_found : Option App → Option App → Option App
first_found (some a) rest = some a
first_found none rest = rest

-- `errors.As(err, &e)`: the first `*E`, the error before what it wraps.
unfoldable mutual
  pub as_app : Err → Option App
  as_app (plain m) = none
  as_app (app op kind c m) = some (record { op = op; kind = kind; err = c; msg = m })
  as_app (context_error name c) = as_app_cause c
  as_app (aborted_error name c) = as_app_cause c
  as_app (multi_error es) = as_app_errs es

  pub as_app_cause : Cause → Option App
  as_app_cause no_cause = none
  as_app_cause (cause e) = as_app e

  pub as_app_errs : Errs → Option App
  as_app_errs no_errs = none
  as_app_errs (more_errs e es) = first_found (as_app e) (as_app_errs es)

Kind-discrete : Discrete Kind
Kind-discrete = hlevel

unfoldable kind_eq : Kind → Kind → Bool
unfolding Kind-discrete
kind_eq a b = elim (Kind-discrete a b) [ yes h ↦ true | no h ↦ false ]

unfoldable is_kind : Err → Kind → Bool
unfolding as_app kind_eq
is_kind e k = elim (as_app e) [ some a ↦ kind_eq a.kind k | none ↦ false ]

-- `IsAborted`: whether an `*AbortedError` is in the chain.
unfoldable mutual
  pub is_aborted : Err → Bool
  is_aborted (plain m) = false
  is_aborted (app op kind c m) = is_aborted_cause c
  is_aborted (context_error name c) = is_aborted_cause c
  is_aborted (aborted_error name c) = true
  is_aborted (multi_error es) = is_aborted_errs es

  pub is_aborted_cause : Cause → Bool
  is_aborted_cause no_cause = false
  is_aborted_cause (cause e) = is_aborted e

  pub is_aborted_errs : Errs → Bool
  is_aborted_errs no_errs = false
  is_aborted_errs (more_errs e es) = is_aborted e || is_aborted_errs es

-- The loop of `DeepestMessage`, on fuel: without fuel it has no result.
unfoldable pub deepest_loop : ℕ → Cause → Text → Option Text
unfolding as_app
deepest_loop zero cur last = none
deepest_loop (suc fuel) cur last = elim (as_app_cause cur) [
  | none ↦ some last
  | some a ↦ deepest_loop fuel a.err (if a.msg == [] then last else a.msg)
]

-- How many errors an error is made of: the fuel of the loop.
unfoldable mutual
  pub size : Err → ℕ
  size (plain m) = 1
  size (app op kind c m) = suc (size_cause c)
  size (context_error name c) = suc (size_cause c)
  size (aborted_error name c) = suc (size_cause c)
  size (multi_error es) = suc (size_errs es)

  pub size_cause : Cause → ℕ
  size_cause no_cause = 0
  size_cause (cause e) = size e

  pub size_errs : Errs → ℕ
  size_errs no_errs = 0
  size_errs (more_errs e es) = size e + size_errs es

-- The end of `DeepestMessage`: the last message seen, or else the error's own text.
abbrev pub last_or : Text → Err → Text
last_or last e = if last == [] then message e else last

abbrev pub last_or_message : Option Text → Err → Text
last_or_message (some last) e = last_or last e
last_or_message none e = message e

unfoldable pub deepest_message : Err → Text
unfolding deepest_loop size
deepest_message e = last_or_message (deepest_loop (suc (size e)) (cause e) []) e

abbrev pub errs_of : List Err → Errs
errs_of [] = no_errs
errs_of (e ∷ es) = more_errs e (errs_of es)

abbrev pub non_nil : List (Option Err) → List Err
non_nil [] = []
non_nil (none ∷ es) = non_nil es
non_nil (some e ∷ es) = e ∷ non_nil es

abbrev pub aggregate_some : Text → Kind → Text → List Err → Option Err
aggregate_some op kind msg [] = none
aggregate_some op kind msg (e ∷ []) = some (app op kind (cause e) msg)
aggregate_some op kind msg es = some (app op kind (cause (multi_error (errs_of es))) msg)

unfoldable pub aggregate : Text → Kind → Text → List (Option Err) → Option Err
aggregate op kind msg errs = aggregate_some op kind msg (non_nil errs)
