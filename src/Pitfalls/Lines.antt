-- ===== src/Pitfalls/Lines.antt =====
-- What `Parse` hands out (internal/pitfalls/pitfalls.go).
use masuda.Common.{
  ℕ, ◌+◌, ◌≡◌, refl, sym, ap, ◌∙◌, List, [], ◌∷◌, Option, Bool, true, false, inl, inr, ◌∈◌, All,
  Text, same, trim_space, split,
}
use masuda.Common.{Result, ok, err, ok_inj}
use masuda.Common.Trim.{
  IsTrimmed, trim_space-IsTrimmed, trim_space-of, mem-trim_space, mem-split, split-append,
}
use masuda.Pitfalls.{
  Pitfall, Reason, LineError, left_out, unlines, check, checked_line, trimmed_line, parse_lines,
  written, parse,
}

module _ (decode : Text → Option Pitfall) where
  -- A line as the guest gets it: valid, trimmed, neither blank nor a comment.
  pub record IsEntry (t : Text) : Type 0 where
    pub valid : check decode t ≡ ok tt
    pub kept : left_out t ≡ false
    pub trimmed : IsTrimmed t
    pub one_line : ¬ (10 ∈ t)

  checked_line-IsEntry :
      (i : ℕ) (t : Text) (r : Result Reason (Unit {0})) (rest : List Text × List LineError)
      → check decode t ≡ r
      → left_out t ≡ false
      → IsTrimmed t
      → ¬ (10 ∈ t)
      → All IsEntry rest.0
      → All IsEntry (checked_line decode i t r rest).0
  unfolding checked_line
  checked_line-IsEntry i t (err r) (ts, es) e k h n a = a
  checked_line-IsEntry i t (ok u) (ts, es) e k h n a =
      (record { valid = e; kept = k; trimmed = h; one_line = n }, a)

  trimmed_line-IsEntry :
      (i : ℕ) (t : Text) (b : Bool) (rest : List Text × List LineError)
      → left_out t ≡ b
      → IsTrimmed t
      → ¬ (10 ∈ t)
      → All IsEntry rest.0
      → All IsEntry (trimmed_line decode i t b rest).0
  unfolding trimmed_line
  trimmed_line-IsEntry i t true rest k h n a = a
  trimmed_line-IsEntry i t false rest k h n a =
      checked_line-IsEntry i t (check decode t) rest refl k h n a

  parse_lines-IsEntry :
      (i : ℕ) (ls : List Text)
      → ((l : Text) → l ∈ ls → ¬ (10 ∈ l))
      → All IsEntry (parse_lines decode i ls).0
  unfolding parse_lines
  parse_lines-IsEntry i [] h = tt
  parse_lines-IsEntry i (l ∷ ls) h =
      trimmed_line-IsEntry i (trim_space l) (left_out (trim_space l)) _ refl
        (trim_space-IsTrimmed l) (λ m. h l (inl refl) (mem-trim_space 10 l m))
        (parse_lines-IsEntry (i + 1) ls (λ k m. h k (inr m)))

  kept_line :
      (i : ℕ) (t : Text) (ts : List Text) (es : List LineError)
      → IsEntry t
      → trimmed_line decode i (trim_space t) (left_out (trim_space t)) (ts, es) ≡ (t ∷ ts, es)
  unfolding trimmed_line checked_line
  kept_line i t ts es h =
      ap (λ (s : Text). trimmed_line decode i s (left_out s) (ts, es)) (trim_space-of t h.trimmed)
      ∙ ap (λ (b : Bool). trimmed_line decode i t b (ts, es)) h.kept
      ∙ ap (λ (r : Result Reason (Unit {0})). checked_line decode i t r (ts, es)) h.valid

  parse_lines-unlines :
      (i : ℕ) (ts : List Text)
      → All IsEntry ts
      → parse_lines decode i (split 10 (unlines ts)) ≡ (ts, [])
  unfolding parse_lines trimmed_line unlines split left_out trim_space same
  parse_lines-unlines i [] h = refl
  parse_lines-unlines i (t ∷ ts) h =
      ap (parse_lines decode i) (split-append 10 t (unlines ts) h.0.one_line)
      ∙ ap (trimmed_line decode i (trim_space t) (left_out (trim_space t)))
          (parse_lines-unlines (i + 1) ts h.1)
      ∙ kept_line i t ts [] h.0

  written-ok :
      (r : List Text × List LineError) {out : Text}
      → written decode r ≡ ok out
      → (r.1 ≡ []) × (unlines r.0 ≡ out)
  unfolding written
  written-ok (ts, []) h = (refl, ok_inj h)
  written-ok (ts, e ∷ es) h = cc

  -- What `Parse` hands out are lines that are valid, trimmed and neither blank nor a comment, each on
  -- a line of its own; read again, it is accepted without an error and handed out unchanged.
  pub parse_idempotent :
      (b out : Text)
      → parse decode b ≡ ok out
      → ((ts : List Text) × All IsEntry ts × (out ≡ unlines ts)) × (parse decode out ≡ ok out)
  unfolding parse written
  parse_idempotent b out h =
      let (none_wrong, e) = written-ok (parse_lines decode 0 (split 10 b)) h in
      let entries = parse_lines-IsEntry 0 (split 10 b) (λ l m. mem-split 10 b l m) in
      let ts : List Text = (parse_lines decode 0 (split 10 b)).0 in
      (
        (ts, entries, sym e),
        ap (parse decode) (sym e)
            ∙ ap (written decode) (parse_lines-unlines 0 ts entries)
            ∙ ap ok e,
      )
