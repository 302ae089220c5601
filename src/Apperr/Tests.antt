-- ===== src/Apperr/Tests.antt =====
-- Concrete chains of errors, and the theorems at them.
use dockform.Base.{ℕ, ◌<◌, ◌≡◌, refl, Option, none, some, List, [], ◌∷◌}
use dockform.Base.Text.{Text, codes, text_eq, text_beq}
use dockform.Apperr.{
  not_found, external, Err, plain, aborted_error, no_cause, cause, message, as_app, deepest_loop,
  size, size_cause, deepest_message,
}
use dockform.Apperr.Chain.{Wrapper, wrap_all, deepest_loop_fuel}

abbrev wrappers : List Wrapper
wrappers =
    (codes "outer", external, codes "apply failed")
    ∷ (codes "inner", not_found, codes "no volume")
    ∷ []

abbrev chained : Err
chained = wrap_all wrappers (plain (codes "exit status 1"))

message_run : message chained ≡ codes "outer: apply failed"
unfolding message text_beq
message_run = refl

deepest_run : deepest_message chained ≡ codes "no volume"
unfolding deepest_message deepest_loop size as_app text_beq
deepest_run = refl

deepest_loop_fuel_example :
    (t : Text) × ((fuel : ℕ)
      → size_cause (cause chained) < fuel
      → deepest_loop fuel (cause chained) [] ≡ some t)
deepest_loop_fuel_example = deepest_loop_fuel (cause chained) []

abbrev outcomes : List (Option Err)
outcomes = none ∷ some chained ∷ some (aborted_error (codes "b") no_cause) ∷ []
