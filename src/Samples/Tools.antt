-- ===== src/Samples/Tools.antt =====
-- An agent that hands in its result, the findings of a review, comments behind an incomplete line, and
-- a file of pitfalls.
use masuda.Common.{
  ◌≡◌, ◌≢◌, refl, List, [], ◌∷◌, ◌++◌, Option, none, some, true, false, Text, codes, All, keep,
  same, inl, inr, arith, if◌then◌else◌, split, trim_space, has_prefix, contains,
}
use masuda.Common.{ok}
use masuda.Serve.Reflect.{agent}
use masuda.Serve.Tools.{Awaited, Desk, taken, report_result}
use masuda.Serve.Tools.Report.{IsTaken, report_result-IsTaken}
use masuda.Workspace.Comments.{Comment, of_commit, comments, add_comment}
use masuda.Workspace.Comments.Append.{closed, IsLine, comments-add_comment}
use masuda.Runner.Findings.{Finding}
use masuda.Pitfalls.{Pitfall, parse, unlines, parse_lines, left_out, check, check_value}
use masuda.Pitfalls.Lines.{IsEntry, parse_idempotent}

abbrev awaited : Awaited
awaited = record {
  status = record {
    kind = agent;
    occurrence = codes "c3";
    agent_name = some (codes "impl");
    gate = none;
    outcome = [];
    reason = [];
  };
  task = record { role = codes "impl"; outputs = codes "diff" ∷ []; continues = [] };
}

abbrev desk : Desk
desk = record { guest = []; feedback = []; end_feedback = codes "before" }

-- The output is not in the guest, so that the report is refused.
report_result-IsTaken_example :
    let r =
      report_result
        (codes "done")
        (some awaited)
        (λ occ outcome feedback. true)
        (codes "c3")
        (codes "done")
        (codes "good")
        desk in
    (r.0 ≡ taken
      → IsTaken
          (codes "done")
          (some awaited)
          true
          (codes "c3")
          (codes "done")
          (codes "good")
          desk
          r.1)
    × (r.0 ≢ taken → (r.1.end_feedback ≡ desk.end_feedback) × (r.1.guest ≡ desk.guest))
report_result-IsTaken_example =
    report_result-IsTaken (codes "done") (some awaited) (λ occ outcome feedback. true) (codes "c3")
      (codes "done") (codes "good") desk

abbrev finding : Text → Finding
finding id = record {
  id = id;
  file = codes "a.go";
  line = 3;
  severity = codes "high";
  message = codes "no check";
  suggestion = [];
}

abbrev filled : Comment → Comment
filled c = record c { id = codes "c-1"; time = 7 }

abbrev reviewer : Text → Option Text
reviewer id = some (codes "claude")

abbrev found : List Finding
found = finding (codes "f-1") ∷ finding (codes "f-1") ∷ finding [] ∷ []

-- A comment of the same finding on another commit, which does not count.
abbrev earlier : List Comment
earlier =
    record {
      id = codes "c-0";
      commit = codes "0";
      path = codes "a.go";
      line = 3;
      author = codes "claude";
      body = codes "no check";
      severity = codes "high";
      time = 1;
      finding_id = codes "f-1";
    }
    ∷ []

not_empty : codes "1" ≢ []
not_empty e = cc

-- Comments by their bodies: a body in quotes is one line.
abbrev encode : Comment → Text
encode c = b'"' ∷ c.body ++ codes "\""

abbrev said : Text → Comment
said body = record {
  id = [];
  commit = codes "1";
  path = [];
  line = 0;
  author = [];
  body = body;
  severity = [];
  time = 0;
  finding_id = [];
}

abbrev decode : Text → Option Comment
decode [] = none
decode (c ∷ s) = if same (c ∷ s) (codes "\"hi\"") then some (said (codes "hi")) else none

decodes : decode (encode (said (codes "hi"))) ≡ some (said (codes "hi"))
unfolding same
decodes = refl

not_in : IsLine (codes "{\"hi\"")
not_in (inl e) = absurd (omega (arith, e))
not_in (inr (inl e)) = absurd (omega (arith, e))
not_in (inr (inr (inl e))) = absurd (omega (arith, e))
not_in (inr (inr (inr (inl e)))) = absurd (omega (arith, e))
not_in (inr (inr (inr (inr (inl e))))) = absurd (omega (arith, e))
not_in (inr (inr (inr (inr (inr k))))) = absurd k

not_x : IsLine (codes "x")
not_x (inl e) = absurd (omega (arith, e))
not_x (inr k) = absurd k

-- Behind the start of a line that a crash left.
comments-add_comment_example :
    (codes "{" ≡ []
      → comments encode decode
          (codes "1")
          (add_comment encode decode (said (codes "hi")) (closed (codes "x" ∷ []) ++ codes "{"))
        ≡ comments encode decode (codes "1") (closed (codes "x" ∷ []))
          ++ keep (of_commit (codes "1")) (said (codes "hi") ∷ []))
    × (decode (codes "{" ++ encode (said (codes "hi"))) ≡ none
        → comments encode decode
            (codes "1")
            (add_comment encode decode (said (codes "hi")) (closed (codes "x" ∷ []) ++ codes "{"))
          ≡ comments encode decode (codes "1") (closed (codes "x" ∷ [])))
comments-add_comment_example =
    comments-add_comment encode decode (said (codes "hi")) (codes "x" ∷ []) (codes "{") (codes "1")
      (not_x, tt) not_in decodes

abbrev pitfall : Pitfall
pitfall = record {
  id = some (codes "p-1");
  category = some (codes "data");
  trigger = some (codes "t");
  question = some (codes "q");
  background = some (codes "b");
  more = false;
}

abbrev known : Text → Option Pitfall
known t = if same t (codes "{}") then some pitfall else none

accepted : parse known (codes "# a comment\n {} \n\n{}") ≡ ok (codes "{}\n{}\n")
unfolding parse parse_lines split left_out same trim_space has_prefix check check_value contains
    unlines
accepted = refl

parse_idempotent_example :
    ((ts : List Text) × All (IsEntry known) ts × (codes "{}\n{}\n" ≡ unlines ts))
    × (parse known (codes "{}\n{}\n") ≡ ok (codes "{}\n{}\n"))
parse_idempotent_example =
    parse_idempotent known (codes "# a comment\n {} \n\n{}") (codes "{}\n{}\n") accepted
