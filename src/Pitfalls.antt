-- ===== src/Pitfalls.antt =====
-- internal/pitfalls/pitfalls.go: the check of `pitfalls.jsonl`, line by line. The decoding of JSON is
-- outside: `decode` gives the fields of the first value of a line, with whether more follows.
pub mod Lines
use masuda.Common.{
  ℕ, ◌+◌, List, [], ◌∷◌, ◌++◌, Option, none, some, Bool, true, false, ◌||◌, not, if◌then◌else◌,
  Text, codes, same, contains, has_prefix, trim_space, split,
}
use masuda.Common.{Result, ok, err, ◌>>=◌, ◌>>◌, refuse_if, is_space}

-- The value that `check` decodes.
pub record Pitfall : Type 0 where
  pub id : Option Text
  pub category : Option Text
  pub trigger : Option Text
  pub question : Option Text
  pub background : Option Text
  pub more : Bool

pub data Reason : Type 0 where
  not_an_object more_than_one : Reason
  required : Text → Reason
  space_in_id : Text → Reason
  unknown_category : Text → Reason

-- `LineError`.
pub record LineError : Type 0 where
  pub line : ℕ
  pub reason : Reason

-- `Categories`.
abbrev pub categories : List Text
categories =
    codes "spec"
    ∷ codes "security"
    ∷ codes "data"
    ∷ codes "release"
    ∷ codes "regression"
    ∷ codes "performance"
    ∷ codes "maintainability"
    ∷ codes "other"
    ∷ []

given : Text → Option Text → Result Reason Text
given name none = err (required name)
given name (some v) = if same (trim_space v) [] then err (required name) else ok v

has_space : Text → Bool
has_space [] = false
has_space (c ∷ s) = is_space c || has_space s

-- The checks of `check` on a decoded value.
unfoldable pub check_value : Pitfall → Result Reason (Unit {0})
unfolding given has_space
check_value p = do
  refuse_if p.more more_than_one
  id ← given (codes "id") p.id
  category ← given (codes "category") p.category
  trigger ← given (codes "trigger") p.trigger
  question ← given (codes "question") p.question
  background ← given (codes "background") p.background
  refuse_if (has_space id) (space_in_id id)
  refuse_if (not (contains categories category)) (unknown_category category)
  ok tt

-- A line that is left out: a blank one or a comment.
unfoldable pub left_out : Text → Bool
left_out t = same t [] || has_prefix t (codes "#")

unfoldable pub unlines : List Text → Text
unlines [] = []
unlines (t ∷ ts) = t ++ 10 ∷ unlines ts

module _ (decode : Text → Option Pitfall) where
  -- `check`.
  unfoldable pub check : Text → Result Reason (Unit {0})
  check line = elim (decode line) [ none ↦ err not_an_object | some p ↦ check_value p ]

  checked_line :
      ℕ → Text → Result Reason (Unit {0}) → List Text × List LineError → List Text × List LineError
  checked_line i t (err r) (ts, es) = (ts, record { line = i + 1; reason = r } ∷ es)
  checked_line i t (ok u) (ts, es) = (t ∷ ts, es)

  trimmed_line : ℕ → Text → Bool → List Text × List LineError → List Text × List LineError
  unfolding checked_line
  trimmed_line i t true rest = rest
  trimmed_line i t false rest = checked_line i t (check t) rest

  -- The loop of `Parse`: the lines that it writes and the errors.
  unfoldable pub parse_lines : ℕ → List Text → List Text × List LineError
  unfolding trimmed_line
  parse_lines i [] = ([], [])
  parse_lines i (l ∷ ls) =
      trimmed_line i (trim_space l) (left_out (trim_space l)) (parse_lines (i + 1) ls)

  written : List Text × List LineError → Result (List LineError) Text
  written (ts, []) = ok (unlines ts)
  written (ts, e ∷ es) = err (e ∷ es)

  -- `Parse`.
  unfoldable pub parse : Text → Result (List LineError) Text
  unfolding written
  parse b = written (parse_lines 0 (split 10 b))
