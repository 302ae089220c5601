-- ===== src/Manifest/BindMounts/Detected.antt =====
-- A bind mount is found wherever its line stands in a compose file.
use dockform.Base.{
  ℕ, ◌≡◌, ◌≢◌, refl, ap, Bool, true, false, not, ◌&&◌, Option, none, some, List, [], ◌∷◌, ◌++◌,
  ◌==◌, contains, map, nat_eq, arith,
}
use dockform.Base.Text.{Text, codes, text_eq, text_beq_iff}
use dockform.Manifest.Validate.{all_of}
use dockform.Manifest.BindMounts.{
  re_space, skip_space, until_colon, behind, mount_here, match_line, put_found, matches_from,
}

abbrev path_code : ℕ → Bool
path_code c = not (c == b':') && not (re_space c)

until_colon-append :
    (path rest : Text)
    → all_of path_code path ≡ true
    → until_colon (path ++ (b':' ∷ rest)) ≡ some path
unfolding until_colon
until_colon-append [] rest h = refl
until_colon-append (c ∷ path) rest h = ground (arith, h, until_colon-append path rest)

skip_space-append :
    (gap : Text) (c : ℕ) (s : Text)
    → all_of re_space gap ≡ true
    → re_space c ≡ false
    → skip_space (gap ++ (c ∷ s)) ≡ c ∷ s
skip_space-append [] c s h k = ground (arith, k)
skip_space-append (d ∷ gap) c s h k = ground (arith, h, k, skip_space-append gap c s)

-- `./`, `../` or `~/`
pub data Prefix : Type 0 where
  here parent home : Prefix

abbrev pub prefix_text : Prefix → Text
prefix_text here = codes "./"
prefix_text parent = codes "../"
prefix_text home = codes "~/"

mount_here-prefix :
    (p : Prefix) (c : ℕ) (path rest : Text)
    → all_of path_code (c ∷ path) ≡ true
    → mount_here (prefix_text p ++ ((c ∷ path) ++ (b':' ∷ rest)))
      ≡ some (prefix_text p ++ (c ∷ path))
mount_here-prefix here c path rest h =
    ap (behind (codes "./")) (until_colon-append (c ∷ path) rest h)
mount_here-prefix parent c path rest h =
    ap (behind (codes "../")) (until_colon-append (c ∷ path) rest h)
mount_here-prefix home c path rest h =
    ap (behind (codes "~/")) (until_colon-append (c ∷ path) rest h)

-- A line with a dash, white space around it, and a path before a colon.
abbrev pub bind_line : Text → ℕ → Text → Prefix → ℕ → Text → Text → Text
bind_line indent g gap p c path rest =
    indent ++ (b'-' ∷ g ∷ (gap ++ (prefix_text p ++ ((c ∷ path) ++ (b':' ∷ rest)))))

-- White space without which the line is not of that form, and a path of the right characters.
abbrev pub bind_line_fine : Text → ℕ → Text → ℕ → Text → Bool
bind_line_fine indent g gap c path =
    all_of re_space indent && (all_of re_space (g ∷ gap) && all_of path_code (c ∷ path))

skip_space-prefix :
    (gap : Text) (p : Prefix) (s : Text)
    → all_of re_space gap ≡ true
    → skip_space (gap ++ (prefix_text p ++ s)) ≡ prefix_text p ++ s
skip_space-prefix gap here s h = skip_space-append gap b'.' (b'/' ∷ s) h refl
skip_space-prefix gap parent s h = skip_space-append gap b'.' (b'.' ∷ b'/' ∷ s) h refl
skip_space-prefix gap home s h = skip_space-append gap b'~' (b'/' ∷ s) h refl

pub match_line-bind_line :
    (indent : Text) (g : ℕ) (gap : Text) (p : Prefix) (c : ℕ) (path rest : Text)
    → bind_line_fine indent g gap c path ≡ true
    → match_line (bind_line indent g gap p c path rest) ≡ some (prefix_text p ++ (c ∷ path))
unfolding match_line
match_line-bind_line indent g gap p c path rest h =
    let s = prefix_text p ++ ((c ∷ path) ++ (b':' ∷ rest)) in
    let skipped = skip_space-append indent b'-' (g ∷ (gap ++ s)) (ground (arith, h)) refl in
    let spaced : re_space g ≡ true = ground (arith, h) in
    let again = skip_space-prefix gap p ((c ∷ path) ++ (b':' ∷ rest)) (ground (arith, h)) in
    let found = mount_here-prefix p c path rest (ground (arith, h)) in
    rw (skipped, spaced, again) found

-- Whether a line starts behind a text.
abbrev pub line_after : Bool → Text → Bool
line_after starts [] = starts
line_after starts (c ∷ s) = line_after (c == b'\n') s

contains-put_found :
    (found : Option Text) (ms : List Text) (m : Text)
    → contains ms m ≡ true
    → contains (put_found found ms) m ≡ true
contains-put_found none ms m h = h
contains-put_found (some x) ms m h = ground (arith, h)

pub matches_from-append :
    (starts : Bool) (before line m : Text)
    → line_after starts before ≡ true
    → contains (matches_from true line) m ≡ true
    → contains (matches_from starts (before ++ line)) m ≡ true
unfolding matches_from
matches_from-append starts [] line m after h = rw after h
matches_from-append false (c ∷ s) line m after h = matches_from-append (c == b'\n') s line m after h
matches_from-append true (c ∷ s) line m after h =
    contains-put_found (match_line (c ∷ (s ++ line))) (matches_from (c == b'\n') (s ++ line)) m
      (matches_from-append (c == b'\n') s line m after h)

nil-match_line : (m : Text) → match_line [] ≢ some m
unfolding match_line
nil-match_line m h = ground (arith, h)

pub matches_from-match_line :
    (line m : Text) → match_line line ≡ some m → contains (matches_from true line) m ≡ true
unfolding matches_from
matches_from-match_line [] m h = absurd (nil-match_line m h)
matches_from-match_line (c ∷ s) m h = rw h (ground (arith, text_beq_iff m m))

pub contains-map :
    (f : Text → Text) (xs : List Text) (x : Text)
    → contains xs x ≡ true
    → contains (map f xs) (f x) ≡ true
contains-map f [] x h = ground (arith, h)
contains-map f (y ∷ xs) x h =
    ground (arith, h, text_beq_iff y x, text_beq_iff (f y) (f x), contains-map f xs x)
