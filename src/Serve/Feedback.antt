-- ===== src/Serve/Feedback.antt =====
-- serve/gates.go, `rejectFeedback` and `commentLocation`: what the engine is told about a rejected
-- diff.
use masuda.Common.{
  ◌≡◌, refl, ap, inl, inr, List, [], ◌∷◌, ◌++◌, Bool, if◌then◌else◌, ltb, ◌==◌, keep, Bool-cases,
  Text, codes, same, trim_space,
}
use masuda.Common.Decimal.{decimal}
use masuda.Workspace.Comments.{Comment}

-- `commentLocation`.
pub comment_location : Comment → Text
comment_location c =
    if same c.path []
    then codes "（コミット全体）"
    else if c.line == 0
    then c.path
    else c.path ++ (b':' ∷ decimal c.line)

abbrev pub is_human : Comment → Bool
is_human c = same c.author (codes "human")

-- `slices.SortStableFunc` by time, by insertion.
insert_by_time : Comment → List Comment → List Comment
insert_by_time c [] = c ∷ []
insert_by_time c (d ∷ ds) = if ltb d.time c.time then d ∷ insert_by_time c ds else c ∷ d ∷ ds

by_time : List Comment → List Comment
unfolding insert_by_time
by_time [] = []
by_time (c ∷ cs) = insert_by_time c (by_time cs)

-- `strings.ReplaceAll(s, "\n", "\n  ")`.
indent : Text → Text
indent [] = []
indent (c ∷ s) = if c == 10 then 10 ∷ 32 ∷ 32 ∷ indent s else c ∷ indent s

comment_line : Comment → Text
unfolding indent
comment_line c =
    codes "- " ++ (comment_location c ++ (codes ": " ++ (indent (trim_space c.body) ++ codes "\n")))

comment_lines : List Comment → Text
unfolding comment_line
comment_lines [] = []
comment_lines (c ∷ cs) = comment_line c ++ comment_lines cs

-- `strings.TrimSuffix(s, "\n")`.
trim_newline : Text → Text
trim_newline [] = []
trim_newline (c ∷ []) = if c == 10 then [] else c ∷ []
trim_newline (c ∷ d ∷ s) = c ∷ trim_newline (d ∷ s)

heading : Text → Text
heading body = elim (trim_space body) [ [] ↦ [] | c ∷ s ↦ (c ∷ s) ++ codes "\n\n" ]

-- `rejectFeedback`.
unfoldable pub reject_feedback : Text → List Comment → Text
unfolding by_time heading comment_lines trim_newline
reject_feedback body comments = elim (keep is_human comments) [
  | [] ↦ body
  | c ∷ cs ↦
      trim_newline (heading body ++ (codes "## 差分への行コメント\n" ++ comment_lines (by_time (c ∷ cs))))
]

keep-keep : (cs : List Comment) → keep is_human (keep is_human cs) ≡ keep is_human cs
keep-keep [] = refl
keep-keep (c ∷ cs) = elim (Bool-cases (is_human c)) [
  | inl t ↦ rw (t, t) (ap (λ ds. c ∷ ds) (keep-keep cs))
  | inr t ↦ rw t (keep-keep cs)
]

-- Only the comments of humans count: an agent's findings on the same commit change nothing.
reject_feedback-keep :
    (body : Text) (cs : List Comment)
    → reject_feedback body cs ≡ reject_feedback body (keep is_human cs)
unfolding reject_feedback
reject_feedback-keep body cs = rw (keep-keep cs, reject_feedback)
