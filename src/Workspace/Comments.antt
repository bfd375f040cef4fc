-- ===== src/Workspace/Comments.antt =====
-- internal/workspace/comments.go: the file `comments.jsonl`. A comment is a line; how one is written as
-- JSON and read back is outside. Lines are short enough for the scanner, and times are numbers.
pub mod Append
use masuda.Common.{
  ℕ, List, [], ◌∷◌, ◌++◌, Option, none, some, Bool, true, false, ◌||◌, if◌then◌else◌, Text, same,
  split, keep,
}

-- `Comment`.
pub record Comment : Type 0 where
  pub id : Text
  pub commit : Text
  pub path : Text
  pub line : ℕ
  pub author : Text
  pub body : Text
  pub severity : Text
  pub time : ℕ
  pub finding_id : Text

without_last_empty : List Text → List Text
without_last_empty [] = []
without_last_empty ([] ∷ []) = []
without_last_empty (l ∷ ls) = l ∷ without_last_empty ls

-- The lines that the scanner gives: what follows the last newline is a line if it is not empty.
unfoldable pub lines_of : Text → List Text
unfolding without_last_empty
lines_of file = without_last_empty (split 10 file)

unfoldable pub of_commit : Text → Comment → Bool
of_commit commit c = same commit [] || same c.commit commit

unfoldable pub read_more : Option Comment → List Comment → List Comment
read_more none cs = cs
read_more (some c) cs = c ∷ cs

module _ (encode : Comment → Text) (decode : Text → Option Comment) where
  -- The lines that can be read.
  unfoldable pub decoded : List Text → List Comment
  decoded [] = []
  decoded (l ∷ ls) = read_more (decode l) (decoded ls)

  -- `Comments`.
  unfoldable pub comments : Text → Text → List Comment
  comments commit file = keep (of_commit commit) (decoded (lines_of file))

  -- `AddComment` on the file, with the id and the time filled in.
  unfoldable pub add_comment : Comment → Text → Text
  add_comment c file = file ++ (encode c ++ 10 ∷ [])
