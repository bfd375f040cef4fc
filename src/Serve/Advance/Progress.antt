-- ===== src/Serve/Advance/Progress.antt =====
-- One `advance` at a time, and no request for one is lost (serve/run.go).
use masuda.Common.{
  ℕ, ◌+◌, ◌≤◌, ◌<◌, ◌≡◌, refl, sym, ap, inl, inr, List, [], ◌∷◌, Option, none, some, Bool, true,
  false, arith, ◌∈◌, length, Bool-cases,
}
use masuda.Serve.Advance.{AdvanceState, take_run, take, finish}
use masuda.Serve.Advance.Steps.{
  LoopStep, took, finished, Reach, Loops, stay, go, move, Reach-Inv, length-busy,
}

-- However callers call `kick` and contexts end, at most one of the loops that `kick` starts is at work
-- in its call of `advance`.
pub one_advance : {s : AdvanceState} → Reach s → length s.busy ≤ 1
one_advance {s} r = length-busy s (Reach-Inv r)

done_after :
    (n : ℕ) (s : AdvanceState) (r : ℕ) (o : Option ℕ) (b : Bool)
    → o ≡ some r
    → b ≡ true
    → r ∈ (take_run n s o b).done
done_after n s r none b e k = cc
done_after n s r (some q) true e k = inl (cc)
done_after n s r (some q) false e k = cc

busy_after :
    (n : ℕ) (s : AdvanceState) (r : ℕ) (o : Option ℕ) (b : Bool)
    → o ≡ some r
    → b ≡ false
    → (take_run n s o b).busy ≡ r ∷ s.busy
busy_after n s r none b e k = cc
busy_after n s r (some q) true e k = cc
busy_after n s r (some q) false e k = cc

-- A run that stands next while a loop is at the top is taken, and finished or given up.
take-done :
    (s : AdvanceState) (r : ℕ)
    → s.tops ≡ 1
    → s.next ≡ some r
    → (t : AdvanceState) × Loops s t × (r ∈ t.done)
unfolding take finish
take-done s r t e = elim (Bool-cases s.stopped) [
  | inl k ↦ (take 0 s, go stay (took s 0 t), done_after 0 s r s.next s.stopped e k)
  | inr k ↦ (
    finish r s.busy (take 0 s),
    go (go stay (took s 0 t))
        (finished (take 0 s) r s.busy (busy_after 0 s r s.next s.stopped e k)),
    inl refl,
  )
]

first : {s t u : AdvanceState} → LoopStep s t → Loops t u → Loops s u
first l stay = go stay l
first l (go ls k) = go (first l ls) k

single : (r : ℕ) (xs : List ℕ) → length xs ≤ 1 → r ∈ xs → xs ≡ r ∷ []
single r [] h m = absurd m
single r (x ∷ []) h (inl e) = ap (λ y. y ∷ []) (sym e)
single r (x ∷ []) h (inr m) = absurd m
single r (x ∷ y ∷ xs) h m = absurd (omega (arith, h))

next-done :
    (s : AdvanceState) (r : ℕ) (xs : List ℕ)
    → s.busy ≡ xs
    → s.tops + length xs ≡ 1
    → s.next ≡ some r
    → (t : AdvanceState) × Loops s t × (r ∈ t.done)
unfolding finish
next-done s r [] e h k = take-done s r (omega (arith, h)) k
next-done s r (x ∷ xs) e h k =
    let (t, ls, d) = take-done (finish x xs s) r (omega (arith, h)) k in
    (t, first (finished s x xs e) ls, d)

-- Every run that `kick` has given out gets its answer: from each state that callers and loops come
-- to, the loops alone, without another call, come to close its `done`.
pub kick_completes :
    {s : AdvanceState}
    → Reach s
    → (r : ℕ) → r < s.made
    → (t : AdvanceState) × Loops s t × (r ∈ t.done)
unfolding finish
kick_completes {s} h r m =
    let v = Reach-Inv h in
    move (λ a. (s, stay, a))
      (λ b.
        let e = single r s.busy (length-busy s v) b in
        (finish r [] s, go stay (finished s r [] e), inl refl))
      (λ c. elim (Bool-cases s.running) [
        | inl k ↦ next-done s r s.busy refl (v.one k) c
        | inr k ↦ cc (c, (v.none_left k).2)
      ])
      (v.given r m)
