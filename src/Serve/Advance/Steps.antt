-- ===== src/Serve/Advance/Steps.antt =====
-- The steps of callers and loops, and what holds after each (`kick` and `advanceLoop`, serve/run.go).
use masuda.Common.{
  ℕ, suc, ◌+◌, ◌≤◌, ◌<◌, ◌≡◌, refl, ap, subst, ◌⊎◌, inl, inr, List, [], ◌∷◌, Option, none, some,
  Bool, true, false, arith, ◌∈◌, length, Bool-cases, ◌==◌,
}
use masuda.Serve.Advance.{
  AdvanceState, idle, run_of, made_with, loops_with, kick, take_run, take, finish, stop,
}

-- A step of a loop.
pub data LoopStep : AdvanceState → AdvanceState → Type 0 where
  took : (s : AdvanceState) (n : ℕ) → s.tops ≡ suc n → LoopStep s (take n s)
  finished : (s : AdvanceState) (r : ℕ) (rs : List ℕ) → s.busy ≡ r ∷ rs → LoopStep s (finish r rs s)

pub data Step : AdvanceState → AdvanceState → Type 0 where
  kicked : (s : AdvanceState) → Step s (kick s).1
  looped : {s t : AdvanceState} → LoopStep s t → Step s t
  cancelled : (s : AdvanceState) → Step s (stop s)

pub data Reach : AdvanceState → Type 0 where
  here : Reach idle
  next : {s t : AdvanceState} → Reach s → Step s t → Reach t

-- Steps of the loops alone.
pub data Loops (s : AdvanceState) : AdvanceState → Type 0 where
  stay : Loops s s
  go : {t u : AdvanceState} → Loops s t → LoopStep t u → Loops s u

pub record Inv (s : AdvanceState) : Type 0 where
  pub one : s.running ≡ true → s.tops + length s.busy ≡ 1
  pub none_left : s.running ≡ false → (s.tops ≡ 0) × (s.busy ≡ []) × (s.next ≡ none)
  pub given : (r : ℕ) → r < s.made → (r ∈ s.done) ⊎ (r ∈ s.busy) ⊎ (s.next ≡ some r)

idle-Inv : Inv idle
unfolding idle
idle-Inv = record {
  one = λ e. cc;
  none_left = λ e. (refl, refl, refl);
  given = λ r h. absurd (omega arith);
}

length-nil : {A : Type 0} (xs : List A) → length xs ≡ 0 → xs ≡ []
length-nil [] h = refl
length-nil (x ∷ xs) h = absurd (omega (arith, h))

-- A loop at the top of its `for` is the one loop, and nothing else goes on.
only_top :
    (n : ℕ) (s : AdvanceState)
    → s.tops ≡ suc n
    → Inv s
    → (s.running ≡ true) × (n ≡ 0) × (s.busy ≡ [])
only_top n s t v = elim (Bool-cases s.running) [
  | inl e ↦ (e, omega (arith, t, v.one e), length-nil s.busy (omega (arith, t, v.one e)))
  | inr e ↦ absurd (omega (arith, t, (v.none_left e).0))
]

some_same : {a b : ℕ} {o : Option ℕ} → o ≡ some a → o ≡ some b → b ≡ a
some_same e k = cc

not_both : {b : Bool} → b ≡ true → b ≡ false → ⊥
not_both e k = cc

-- One of the two places before the last holds, or the last.
pub move : {A B C D : Type 0} → (A → D) → (B → D) → (C → D) → A ⊎ B ⊎ C → D
move f g h (inl a) = f a
move f g h (inr (inl b)) = g b
move f g h (inr (inr c)) = h c

take_run-Inv :
    (n : ℕ) (s : AdvanceState) (o : Option ℕ) (b : Bool)
    → s.next ≡ o
    → s.tops ≡ suc n
    → Inv s
    → Inv (take_run n s o b)
take_run-Inv n s none b e t v =
    let (r, z, u) = only_top n s t v in
    record { one = λ k. cc; none_left = λ k. (z, u, e); given = v.given }
take_run-Inv n s (some r) true e t v =
    let (k, z, u) = only_top n s t v in
    record {
      one = λ h. cc;
      none_left = λ h. (z, u, refl);
      given = λ q h.
          move (λ a. inl (inr a)) (λ b. inr (inl b)) (λ c. inl (inl (some_same e c))) (v.given q h);
    }
take_run-Inv n s (some r) false e t v =
    let (k, z, u) = only_top n s t v in
    record {
      one = λ h. omega (arith, z, ap length u);
      none_left = λ h. absurd (not_both k h);
      given = λ q h.
          move (λ a. inl a) (λ b. inr (inl (inr b))) (λ c. inr (inl (inl (some_same e c))))
            (v.given q h);
    }

kick_one :
    (running : Bool) (tops : ℕ) (busy : List ℕ)
    → (running ≡ true → tops + length busy ≡ 1)
    → (running ≡ false → (tops ≡ 0) × (busy ≡ []))
    → loops_with running tops + length busy ≡ 1
kick_one true tops busy f g = f refl
kick_one false tops busy f g = omega (arith, (g refl).0, ap length (g refl).1)

kick_given :
    {D B : Type 0} (made : ℕ) (o : Option ℕ) (r : ℕ)
    → (r < made → D ⊎ B ⊎ (o ≡ some r))
    → r < made_with made o
    → D ⊎ B ⊎ (◌≡◌ {A = Option ℕ} (some (run_of made o)) (some r))
kick_given made (some q) r f h = f h
kick_given made none r f h = elim (Bool-cases (r == made)) [
  | inl e ↦ inr (inr (ap some (ground (arith, e))))
  | inr e ↦ move (λ a. inl a) (λ b. inr (inl b)) (λ c. cc) (f (ground (arith, e, h)))
]

kick-Inv : (s : AdvanceState) → Inv s → Inv (kick s).1
unfolding kick
kick-Inv s v = record {
  one = λ h. kick_one s.running s.tops s.busy v.one (λ e. ((v.none_left e).0, (v.none_left e).1));
  none_left = λ h. cc;
  given = λ r h. kick_given s.made s.next r (v.given r) h;
}

finish-Inv :
    (s : AdvanceState) (r : ℕ) (rs : List ℕ) → s.busy ≡ r ∷ rs → Inv s → Inv (finish r rs s)
unfolding finish
finish-Inv s r rs e v = record {
  one = λ h. omega (arith, v.one h, ap length e);
  none_left = λ h. cc (e, (v.none_left h).1);
  given = λ q h.
      move (λ a. inl (inr a))
        (λ b. elim (subst (λ (xs : List ℕ). q ∈ xs) e b) [
          | inl k ↦ inl (inl k)
          | inr k ↦ inr (inl k)
        ])
        (λ c. inr (inr c)) (v.given q h);
}

stop-Inv : (s : AdvanceState) → Inv s → Inv (stop s)
unfolding stop
stop-Inv s v = record { one = v.one; none_left = v.none_left; given = v.given }

LoopStep-Inv : {s t : AdvanceState} → LoopStep s t → Inv s → Inv t
unfolding take
LoopStep-Inv (took s n e) v = take_run-Inv n s s.next s.stopped refl e v
LoopStep-Inv (finished s r rs e) v = finish-Inv s r rs e v

Step-Inv : {s t : AdvanceState} → Step s t → Inv s → Inv t
Step-Inv (kicked s) v = kick-Inv s v
Step-Inv (looped l) v = LoopStep-Inv l v
Step-Inv (cancelled s) v = stop-Inv s v

pub Reach-Inv : {s : AdvanceState} → Reach s → Inv s
Reach-Inv here = idle-Inv
Reach-Inv (next r st) = Step-Inv st (Reach-Inv r)

pub length-busy : (s : AdvanceState) → Inv s → length s.busy ≤ 1
length-busy s v = elim (Bool-cases s.running) [
  | inl e ↦ omega (arith, v.one e)
  | inr e ↦ omega (arith, ap length (v.none_left e).1)
]
