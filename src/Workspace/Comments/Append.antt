-- ===== src/Workspace/Comments/Append.antt =====
-- What is read after a comment was appended (internal/workspace/comments.go).
use mathlib.Core.List.{append_assoc, append-nil}
use masuda.Common.{
  keep-append, ◌≡◌, refl, sym, ap, ◌∙◌, List, [], ◌∷◌, ◌++◌, Option, none, some, ◌∈◌, All, keep,
  Text, split,
}
use masuda.Common.Trim.{split-append}
use masuda.Workspace.Comments.{
  Comment, without_last_empty, lines_of, of_commit, read_more, decoded, comments, add_comment,
}

-- A file of complete lines.
pub closed : List Text → Text
closed [] = []
closed (l ∷ ls) = l ++ 10 ∷ closed ls

abbrev pub IsLine : Text → Type 0
IsLine l = ¬ (10 ∈ l)

split-closed :
    (ls : List Text) (tail : Text)
    → All IsLine ls
    → split 10 (closed ls ++ tail) ≡ ls ++ split 10 tail
unfolding closed
split-closed [] tail h = refl
split-closed (l ∷ ls) tail h =
    ap (split 10) (append_assoc l (10 ∷ closed ls) tail)
    ∙ split-append 10 l (closed ls ++ tail) h.0
    ∙ ap (λ (p : List Text). l ∷ p) (split-closed ls tail h.1)

lines_of-split : (ls : List Text) → without_last_empty (ls ++ [] ∷ []) ≡ ls
unfolding without_last_empty
lines_of-split [] = refl
lines_of-split ([] ∷ []) = refl
lines_of-split ([] ∷ l ∷ ls) = ap (λ (p : List Text). [] ∷ p) (lines_of-split (l ∷ ls))
lines_of-split ((c ∷ k) ∷ ls) = ap (λ (p : List Text). (c ∷ k) ∷ p) (lines_of-split ls)

lines_of-closed : (ls : List Text) → All IsLine ls → lines_of (closed ls) ≡ ls
unfolding lines_of split
lines_of-closed ls h =
    ap without_last_empty (ap (split 10) (sym (append-nil (closed ls))) ∙ split-closed ls [] h)
    ∙ lines_of-split ls

closed-append : (ls ms : List Text) → closed (ls ++ ms) ≡ closed ls ++ closed ms
unfolding closed
closed-append [] ms = refl
closed-append (l ∷ ls) ms =
    ap (λ (t : Text). l ++ 10 ∷ t) (closed-append ls ms)
    ∙ sym (append_assoc l (10 ∷ closed ls) (closed ms))

All-append : (ls ms : List Text) → All IsLine ls → All IsLine ms → All IsLine (ls ++ ms)
All-append [] ms h k = k
All-append (l ∷ ls) ms h k = (h.0, All-append ls ms h.1 k)

read_more-append :
    (o : Option Comment) (xs ys : List Comment) → read_more o (xs ++ ys) ≡ read_more o xs ++ ys
unfolding read_more
read_more-append none xs ys = refl
read_more-append (some c) xs ys = refl

module _ (encode : Comment → Text) (decode : Text → Option Comment) where
  decoded-append :
      (ls ms : List Text)
      → decoded encode decode (ls ++ ms) ≡ decoded encode decode ls ++ decoded encode decode ms
  unfolding decoded
  decoded-append [] ms = refl
  decoded-append (l ∷ ls) ms =
      ap (read_more (decode l)) (decoded-append ls ms) ∙ read_more-append (decode l) _ _

  added :
      (c : Comment) (ls : List Text) (tail : Text)
      → add_comment encode decode c (closed ls ++ tail) ≡ closed (ls ++ (tail ++ encode c) ∷ [])
  unfolding add_comment closed
  added c ls tail =
      append_assoc (closed ls) tail (encode c ++ 10 ∷ [])
      ∙ ap (λ (t : Text). closed ls ++ t) (sym (append_assoc tail (encode c) (10 ∷ [])))
      ∙ sym (closed-append ls ((tail ++ encode c) ∷ []))

  -- A comment that is added to complete lines is read back behind those that were there, under its
  -- commit; an encoded comment has no newline and decodes to itself. But behind a line that a crash
  -- left incomplete, the comment goes into that line: where the two together cannot be read, the
  -- comments that are read are those of the complete lines, and the new one is not among them.
  pub comments-add_comment :
      (c : Comment) (ls : List Text) (tail commit : Text)
      → All IsLine ls
      → IsLine (tail ++ encode c)
      → decode (encode c) ≡ some c
      → (tail ≡ []
          → comments encode decode commit (add_comment encode decode c (closed ls ++ tail))
            ≡ comments encode decode commit (closed ls) ++ keep (of_commit commit) (c ∷ []))
        × (decode (tail ++ encode c) ≡ none
            → comments encode decode commit (add_comment encode decode c (closed ls ++ tail))
              ≡ comments encode decode commit (closed ls))
  unfolding comments decoded read_more
  comments-add_comment c ls tail commit h k d = (
    λ e.
        whole
        ∙ ap (λ (m : List Comment). keep (of_commit commit) (decoded encode decode ls ++ m))
            (one_more (ap (λ (t : Text). decode (t ++ encode c)) e ∙ d))
        ∙ keep-append (of_commit commit) (decoded encode decode ls) (c ∷ [])
        ∙ ap
            (λ (ms : List Text).
              keep (of_commit commit) (decoded encode decode ms)
              ++ keep (of_commit commit) (c ∷ []))
            (sym (lines_of-closed ls h)),
    λ e.
        whole
        ∙ ap (λ (m : List Comment). keep (of_commit commit) (decoded encode decode ls ++ m))
            (ap (λ (o : Option Comment). read_more o []) e)
        ∙ ap (keep (of_commit commit)) (append-nil (decoded encode decode ls))
        ∙ ap (λ (ms : List Text). keep (of_commit commit) (decoded encode decode ms))
            (sym (lines_of-closed ls h)),
  )
    where
      last : Text
      last = tail ++ encode c

      whole :
          comments encode decode commit (add_comment encode decode c (closed ls ++ tail))
          ≡ keep (of_commit commit) (decoded encode decode ls ++ decoded encode decode (last ∷ []))
      whole =
          ap (λ (file : Text). keep (of_commit commit) (decoded encode decode (lines_of file)))
            (added c ls tail)
          ∙ ap (λ (ms : List Text). keep (of_commit commit) (decoded encode decode ms))
              (lines_of-closed (ls ++ last ∷ []) (All-append ls (last ∷ []) h (k, tt)))
          ∙ ap (keep (of_commit commit)) (decoded-append ls (last ∷ []))

      one_more : decode last ≡ some c → decoded encode decode (last ∷ []) ≡ c ∷ []
      one_more e = ap (λ (o : Option Comment). read_more o []) e
