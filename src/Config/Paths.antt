-- ===== src/Config/Paths.antt =====
-- Go's `path.Clean`, as internal/config/config.go uses it, and the paths of generated files.
use masuda.Common.{
  List, [], ◌∷◌, ◌++◌, Bool, true, false, ◌||◌, if◌then◌else◌, ◌==◌, Text, codes, same, split,
  has_prefix, trim_space,
}

-- One segment: the stack has the segments so far, the last first.
clean_segment : Bool → List Text → Text → List Text
clean_segment rooted stack seg =
    if same seg [] || same seg (codes ".")
    then stack
    else if same seg (codes "..")
    then (elim stack [
      | [] ↦ if rooted then [] else codes ".." ∷ []
      | top ∷ below ↦ if same top (codes "..") then codes ".." ∷ top ∷ below else below
    ])
    else seg ∷ stack

clean_segments : Bool → List Text → List Text → List Text
unfolding clean_segment
clean_segments rooted stack [] = stack
clean_segments rooted stack (seg ∷ segs) =
    clean_segments rooted (clean_segment rooted stack seg) segs

-- The segments of a stack between slashes.
joined : List Text → Text
joined [] = []
joined (seg ∷ []) = seg
joined (seg ∷ below) = joined below ++ b'/' ∷ seg

unfoldable pub is_abs : Text → Bool
is_abs [] = false
is_abs (c ∷ s) = c == b'/'

-- `path.Clean`.
unfoldable pub clean : Text → Text
unfolding clean_segments joined
clean p =
    let stack = clean_segments (is_abs p) [] (split b'/' p) in
    if is_abs p
    then b'/' ∷ joined stack
    else (elim stack [ [] ↦ codes "." | seg ∷ below ↦ joined (seg ∷ below) ])

has_backslash : Text → Bool
has_backslash [] = false
has_backslash (c ∷ s) = c == 92 || has_backslash s

-- `validateEnvPath`, true where it finds nothing wrong.
unfoldable pub valid_env_path : Text → Bool
unfolding has_backslash
valid_env_path p =
    let cleaned = clean p in
    if same (trim_space p) []
    then false
    else if is_abs p || has_backslash p
    then false
    else if same cleaned (codes ".")
        || same cleaned (codes "..")
        || has_prefix cleaned (codes "../")
    then false
    else if same cleaned (codes ".git") || has_prefix cleaned (codes ".git/")
    then false
    else true
