-- ===== src/Util/Path.antt =====
-- The functions of Go's package path that the planner uses, on slash-separated paths. A path is
-- cleaned into its elements, the last one first.
mod Tests
use dockform.Base.{
  ℕ, Bool, true, false, not, ◌&&◌, List, [], ◌∷◌, ◌++◌, ◌==◌, if◌then◌else◌, nat_beq, nat_eq,
}
use dockform.Base.Text.{Text, codes, text_eq}

abbrev pub slash : ℕ
slash = b'/'

-- The elements between slashes, the current one last.
unfoldable split_slash : Text → Text → List Text
split_slash [] current = current ∷ []
split_slash (c ∷ s) current =
    let break = current ∷ split_slash s [] in
    let more = split_slash s (current ++ (c ∷ [])) in if nat_beq c slash then break else more

-- `..` takes the last element back; above the root it is dropped, and above a relative path kept.
abbrev back_up : Bool → List Text → List Text
back_up true [] = []
back_up false [] = codes ".." ∷ []
back_up rooted (e ∷ es) = if e == codes ".." then codes ".." ∷ e ∷ es else es

abbrev add_element : Bool → Text → List Text → List Text
add_element rooted e es =
    if e == []
    then es
    else if e == codes "."
    then es
    else if e == codes ".."
    then back_up rooted es
    else e ∷ es

unfoldable add_elements : Bool → List Text → List Text → List Text
add_elements rooted [] es = es
add_elements rooted (e ∷ rest) es = add_elements rooted rest (add_element rooted e es)

abbrev is_rooted : Text → Bool
is_rooted [] = false
is_rooted (c ∷ s) = nat_beq c slash

unfoldable pub elements : Text → List Text
unfolding split_slash add_elements
elements p = add_elements (is_rooted p) (split_slash p []) []

-- The elements, the last one first, as one path.
unfoldable join_elements : List Text → Text → Text
join_elements [] out = out
join_elements (e ∷ es) out = join_elements es (if out == [] then e else e ++ (slash ∷ out))

unfoldable pub render : Bool → List Text → Text
unfolding join_elements
render true es = slash ∷ join_elements es []
render false [] = codes "."
render false (e ∷ es) = join_elements (e ∷ es) []

-- `path.Clean`
unfoldable pub clean : Text → Text
unfolding elements render
clean p = render (is_rooted p) (elements p)

-- `path.Join` of two elements.
unfoldable pub join : Text → Text → Text
unfolding clean
join a b =
    if a == [] && b == []
    then []
    else if a == []
    then clean b
    else if b == []
    then clean a
    else clean (a ++ (slash ∷ b))
