-- ===== src/Privileged/Glob.antt =====
-- internal/privileged/glob.go: path patterns with `**` across segments. Go's `path.Match` is the
-- parameter `path_match`; `none` stands for its error.
pub mod Spec
use masuda.Common.{
  ℕ, ◌≡◌, List, [], ◌∷◌, Option, none, some, Bool, true, false, ◌&&◌, ◌||◌, if◌then◌else◌, ◌==◌,
  Text, codes, same, contains, trim_space, split,
}

abbrev pub stars : Text
stars = codes "**"

abbrev is_nil {ℓ} : {A : Type ℓ} → List A → Bool
is_nil [] = true
is_nil (x ∷ xs) = false

contains_byte : ℕ → Text → Bool
contains_byte b [] = false
contains_byte b (c ∷ s) = c == b || contains_byte b s

-- `path.IsAbs`.
is_abs : Text → Bool
is_abs [] = false
is_abs (c ∷ s) = c == b'/'

pub data PatternError : Type 0 where
  empty_pattern not_relative empty_segment dot_segment bad_pattern : PatternError

module _ (path_match : Text → Text → Option Bool) where
  -- `ok, _ := path.Match(...)`: an error counts as no match.
  unfoldable pub seg_match : Text → Text → Bool
  seg_match p n = elim (path_match p n) [ none ↦ false | some b ↦ b ]

  -- The switch on one segment: the error that it returns, if any.
  unfoldable pub segment_error : Text → Option PatternError
  segment_error seg =
      if same seg []
      then some PatternError.empty_segment
      else if same seg (codes ".") || same seg (codes "..")
      then some PatternError.dot_segment
      else if same seg stars
      then none
      else elim (path_match seg []) [ none ↦ some PatternError.bad_pattern | some b ↦ none ]

  unfoldable pub segments_error : List Text → Option PatternError
  segments_error [] = none
  segments_error (seg ∷ segs) = elim (segment_error seg) [
    | some e ↦ some e
    | none ↦ segments_error segs
  ]

  -- `ValidatePattern`: the error that it returns, if any.
  unfoldable pub validate_pattern : Text → Option PatternError
  unfolding is_abs contains_byte
  validate_pattern p =
      if same (trim_space p) []
      then some PatternError.empty_pattern
      else if is_abs p || contains_byte 92 p
      then some PatternError.not_relative
      else segments_error (split b'/' p)

  -- `for i := 0; i < len(name); i++`: one of the positions that leave a segment matches.
  unfoldable pub at_some_suffix : (List Text → Bool) → List Text → Bool
  at_some_suffix rest [] = false
  at_some_suffix rest (n ∷ ns) = rest (n ∷ ns) || at_some_suffix rest ns

  -- One segment that is no `**`, and the rest of the pattern behind it.
  unfoldable pub one_segment : Text → (List Text → Bool) → List Text → Bool
  one_segment p rest [] = false
  one_segment p rest (n ∷ ns) = if seg_match p n then rest ns else false

  -- `matchSegs`, by the pattern; `after_stars` is the branch of `**`, which skips the `**` that
  -- follow and then tries the rest of the pattern at each position.
  unfoldable mutual
    pub match_segs : List Text → List Text → Bool
    match_segs [] name = is_nil name
    match_segs (p ∷ ps) name = elim (same p stars) [
      | true ↦ after_stars ps name
      | false ↦ one_segment p (match_segs ps) name
    ]

    pub after_stars : List Text → List Text → Bool
    after_stars [] name = if is_nil name then false else true
    after_stars (p ∷ ps) name = elim (same p stars) [
      | true ↦ after_stars ps name
      | false ↦ at_some_suffix (one_segment p (match_segs ps)) name
    ]

  -- `Match`.
  unfoldable pub match : Text → Text → Bool
  match pattern name = match_segs (split b'/' pattern) (split b'/' name)
