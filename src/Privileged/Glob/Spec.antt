-- ===== src/Privileged/Glob/Spec.antt =====
-- What it means for a path to match a pattern of internal/privileged/glob.go, with no search order
-- in it; `match_segs` decides it.
use masuda.Common.{
  ◌≡◌, refl, ◌≢◌, ◌↔◌, inl, inr, List, [], ◌∷◌, Option, Bool, true, false, arith, Bool-cases, Text,
  same, same_iff,
}
use masuda.Privileged.Glob.{stars, seg_match, one_segment, at_some_suffix, match_segs, after_stars}

module _ (path_match : Text → Text → Option Bool) where
  -- A trailing `**` takes at least one segment; elsewhere `**` takes any number.
  pub data Matches : List Text → List Text → Type 0 where
    done : Matches [] []
    segment :
        {p n : Text} {ps ns : List Text}
        → p ≢ stars
        → seg_match path_match p n ≡ true
        → Matches ps ns
        → Matches (p ∷ ps) (n ∷ ns)
    all_below : {q n : Text} {ns : List Text} → q ≡ stars → Matches (q ∷ []) (n ∷ ns)
    skip :
        {q p : Text} {ps ns : List Text} → q ≡ stars → Matches (p ∷ ps) ns → Matches (q ∷ p ∷ ps) ns
    take :
        {q p n : Text} {ps ns : List Text}
        → q ≡ stars
        → Matches (q ∷ p ∷ ps) ns
        → Matches (q ∷ p ∷ ps) (n ∷ ns)

  not_same : (p : Text) → same p stars ≡ false → p ≢ stars
  not_same p h e = ground (arith, same_iff p stars)

  one_segment_sound :
      (p : Text) (ps ns : List Text) (rest : List Text → Bool)
      → same p stars ≡ false
      → ((ms : List Text) → rest ms ≡ true → Matches ps ms)
      → one_segment path_match p rest ns ≡ true
      → Matches (p ∷ ps) ns
  unfolding one_segment
  one_segment_sound p ps [] rest lit ok h = cc
  one_segment_sound p ps (n ∷ ns) rest lit ok h = elim (Bool-cases (seg_match path_match p n)) [
    | inl e ↦ segment (not_same p lit) e (ok ns (rw e at h))
    | inr e ↦ cc (rw e at h)
  ]

  at_some_suffix_sound :
      (q p : Text) (ps ns : List Text) (rest : List Text → Bool)
      → q ≡ stars
      → ((ms : List Text) → rest ms ≡ true → Matches (p ∷ ps) ms)
      → at_some_suffix path_match rest ns ≡ true
      → Matches (q ∷ p ∷ ps) ns
  unfolding at_some_suffix
  at_some_suffix_sound q p ps [] rest e ok h = cc
  at_some_suffix_sound q p ps (n ∷ ns) rest e ok h = elim (Bool-cases (rest (n ∷ ns))) [
    | inl here ↦ skip e (ok (n ∷ ns) here)
    | inr no_match ↦ take e (at_some_suffix_sound q p ps ns rest e ok (rw no_match at h))
  ]

  mutual
    unfolding match_segs

    segs_sound : (ps ns : List Text) → match_segs path_match ps ns ≡ true → Matches ps ns
    segs_sound [] [] h = done
    segs_sound [] (n ∷ ns) h = cc
    segs_sound (p ∷ ps) ns h = elim (Bool-cases (same p stars)) [
      | inl e ↦ stars_sound ps ns p ((same_iff p stars).0 e) (rw (e, match_segs) at h)
      | inr e ↦
          one_segment_sound p ps ns (match_segs path_match ps) e (segs_sound ps)
            (rw (e, match_segs) at h)
    ]

    stars_sound :
        (ps ns : List Text) (q : Text)
        → q ≡ stars
        → after_stars path_match ps ns ≡ true
        → Matches (q ∷ ps) ns
    stars_sound [] [] q e h = cc
    stars_sound [] (n ∷ ns) q e h = all_below e
    stars_sound (p ∷ ps) ns q e h = elim (Bool-cases (same p stars)) [
      | inl s ↦ skip e (stars_sound ps ns p ((same_iff p stars).0 s) (rw (s, after_stars) at h))
      | inr s ↦
          at_some_suffix_sound q p ps ns _ e
            (λ ms. one_segment_sound p ps ms (match_segs path_match ps) s (segs_sound ps))
            (rw (s, after_stars) at h)
    ]

  -- A `**` before another one adds nothing.
  absorb :
      (q : Text) (ps : List Text) (n : Text) (ns : List Text)
      → q ≡ stars
      → Matches (q ∷ ps) ns
      → Matches (q ∷ ps) (n ∷ ns)
  absorb q [] n ns e d = all_below e
  absorb q (p ∷ ps) n ns e d = take e d

  merge :
      {q p : Text} {ps ns : List Text} → p ≡ stars → Matches (q ∷ p ∷ ps) ns → Matches (p ∷ ps) ns
  merge e (segment lit h d) = absorb _ _ _ _ e d
  merge e (skip _ d) = d
  merge e (take _ d) = absorb _ _ _ _ e (merge e d)

  at_some_suffix_complete :
      {q p : Text} {ps ns : List Text} (rest : List Text → Bool)
      → q ≡ stars
      → ((ms : List Text) → Matches (p ∷ ps) ms → rest ms ≡ true)
      → rest [] ≡ false
      → Matches (q ∷ p ∷ ps) ns
      → at_some_suffix path_match rest ns ≡ true
  unfolding at_some_suffix
  at_some_suffix_complete rest e ok nothing (segment lit h d) = absurd (lit e)
  at_some_suffix_complete {ns = []} rest e ok nothing (skip _ d) = cc (ok [] d)
  at_some_suffix_complete {ns = n ∷ ns} rest e ok nothing (skip _ d) = rw (ok (n ∷ ns) d)
  at_some_suffix_complete rest e ok nothing (take {n = n} {ns = ns} _ d) =
      ground (arith, at_some_suffix_complete rest e ok nothing d)

  one_segment_complete :
      {p : Text} {ps ns : List Text} (rest : List Text → Bool)
      → p ≢ stars
      → ((ms : List Text) → Matches ps ms → rest ms ≡ true)
      → Matches (p ∷ ps) ns
      → one_segment path_match p rest ns ≡ true
  unfolding one_segment
  one_segment_complete rest lit ok (segment _ h d) = rw h (ok _ d)
  one_segment_complete rest lit ok (all_below e) = absurd (lit e)
  one_segment_complete rest lit ok (skip e d) = absurd (lit e)
  one_segment_complete rest lit ok (take e d) = absurd (lit e)

  one_segment-nil : (p : Text) (rest : List Text → Bool) → one_segment path_match p rest [] ≡ false
  unfolding one_segment
  one_segment-nil p rest = refl

  mutual
    unfolding match_segs

    segs_complete : (ps ns : List Text) → Matches ps ns → match_segs path_match ps ns ≡ true
    segs_complete [] ns done = refl
    segs_complete (p ∷ ps) ns d = elim (Bool-cases (same p stars)) [
      | inl e ↦ rw (e, match_segs) (stars_complete ps ns p ((same_iff p stars).0 e) d)
      | inr e ↦
          rw (e, match_segs)
            (one_segment_complete (match_segs path_match ps) (not_same p e)
              (λ ms. segs_complete ps ms) d)
    ]

    stars_complete :
        (ps ns : List Text) (q : Text)
        → q ≡ stars
        → Matches (q ∷ ps) ns
        → after_stars path_match ps ns ≡ true
    stars_complete [] ns q e (segment lit h d) = absurd (lit e)
    stars_complete [] ns q e (all_below _) = refl
    stars_complete (p ∷ ps) ns q e d = elim (Bool-cases (same p stars)) [
      | inl s ↦
          let e' = (same_iff p stars).0 s in
          rw (s, after_stars) (stars_complete ps ns p e' (merge e' d))
      | inr s ↦
          rw (s, after_stars)
            (at_some_suffix_complete _ e
              (λ ms.
                one_segment_complete (match_segs path_match ps) (not_same p s)
                  (λ ks. segs_complete ps ks))
              (one_segment-nil p _) d)
    ]

  -- `matchSegs` answers true exactly on the paths that match the pattern, for every pattern and
  -- whatever `path.Match` answers on a segment.
  pub match_segs_iff : (ps ns : List Text) → (match_segs path_match ps ns ≡ true) ↔ Matches ps ns
  match_segs_iff ps ns = (segs_sound ps ns, segs_complete ps ns)
