-- ===== src/Manifest/Key.antt =====
-- internal/manifest/types.go: `ParseStackKey` and `MakeStackKey`.
use dockform.Base.{ℕ, ◌≡◌, ◌≢◌, false, ◌&&◌, Option, none, some, [], ◌∷◌, ◌++◌, arith}
use dockform.Base.{◌==◌, contains, nat_eq, if◌then◌else◌, Option-cases, inl, inr}
use dockform.Base.Text.{Text, text_eq, text_beq, text_beq_iff}
use dockform.Base.Cut.{cut, cut-append, append-cut}
use dockform.Base.Result.{Result, ok, err}

-- The three refusals, each with the key that its message names.
pub data KeyError : Type 0 where
  not_two_parts empty_context empty_stack : Text → KeyError

abbrev pub slash : ℕ
slash = b'/'

abbrev check_parts : Text → Option (Text × Text) → Result KeyError (Text × Text)
check_parts key none = err (not_two_parts key)
check_parts key (some (context, stack)) =
    if context == []
    then err (empty_context key)
    else if stack == []
    then err (empty_stack key)
    else ok (context, stack)

unfoldable pub parse_stack_key : Text → Result KeyError (Text × Text)
unfolding cut text_beq
parse_stack_key key = check_parts key (cut slash key)

abbrev pub make_stack_key : Text → Text → Text
make_stack_key context stack = context ++ (slash ∷ stack)

-- A key made of a context without a slash and a stack, neither empty, is parsed into the two.
pub parse_stack_key-make_stack_key :
    (context stack : Text)
    → contains context slash ≡ false
    → context ≢ []
    → stack ≢ []
    → parse_stack_key (make_stack_key context stack) ≡ ok (context, stack)
unfolding parse_stack_key
parse_stack_key-make_stack_key context stack plain c s =
    rw (cut-append slash context stack plain, check_parts)
      (ground (arith, text_beq_iff context [], text_beq_iff stack []))

-- A key that is accepted is made of its two parts, which are not empty, and the context has no
-- slash.
pub make_stack_key-parse_stack_key :
    (key context stack : Text)
    → parse_stack_key key ≡ ok (context, stack)
    → (make_stack_key context stack ≡ key)
      × (contains context slash ≡ false)
      × (context ≢ [])
      × (stack ≢ [])
unfolding parse_stack_key
make_stack_key-parse_stack_key key context stack h = elim (Option-cases (cut slash key)) [
  | inl absent ↦ ground arith
  | inr ((b, a), found) ↦
      ground (arith, append-cut slash key b a found, text_beq_iff b [], text_beq_iff a [])
]

-- Keys of contexts without a slash agree only part by part.
pub make_stack_key-eq :
    (c n c' n' : Text)
    → contains c slash ≡ false
    → contains c' slash ≡ false
    → (make_stack_key c n == make_stack_key c' n') ≡ (c == c' && n == n')
make_stack_key-eq c n c' n' plain plain' = ground (
  arith,
  text_beq_iff (make_stack_key c n) (make_stack_key c' n'),
  text_beq_iff c c',
  text_beq_iff n n',
  cut-append slash c n plain,
  cut-append slash c' n' plain',
)
