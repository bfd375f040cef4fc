-- ===== src/Runner/Policy/Bounds.antt =====
-- How far a workflow's node can widen what its sandbox may do (`SetPolicy`,
-- internal/runner/runner.go).
use masuda.Common.{
  ◌≡◌, refl, ap, subst, ◌↔◌, ◌⊎◌, inl, inr, List, [], ◌∷◌, ◌++◌, Bool, true, arith, ◌∈◌, Distinct,
  keep, mem-append, mem-keep, Text, contains, contains_iff, append_new_sound, append_new-Distinct,
}
use masuda.Config.Egress.{host_allowed}
use masuda.Runner.Policy.{
  Policy, Options, SandboxPolicy, PolicyProblem, bad_egress, bad_secret, sent, union, may_reach,
  may_select, problems_of, check_policy, sandbox_policy, set_policy,
}

-- Every name that the node asks for is one that the settings allow.
abbrev pub Within : Options → Policy → Type 0
Within o p =
    ((h : Text) → h ∈ p.egress → host_allowed (o.always_hosts ++ o.egress) h ≡ true)
    × ((n : Text) → n ∈ p.secrets → (n ∈ o.secrets) ⊎ (n ∈ o.plaintext) ⊎ (n ∈ o.always_secrets))

problems_of-nil :
    (test : Text → Bool) (problem : Text → PolicyProblem) (xs : List Text) (x : Text)
    → problems_of test problem xs ≡ []
    → x ∈ xs
    → test x ≡ true
unfolding problems_of
problems_of-nil test problem [] x h m = absurd m
problems_of-nil test problem (y ∷ xs) x h (inl e) = ground (arith, ap test e)
problems_of-nil test problem (y ∷ xs) x h (inr m) =
    ground (arith, problems_of-nil test problem xs x)

problems_of-none :
    (test : Text → Bool) (problem : Text → PolicyProblem) (xs : List Text)
    → ((x : Text) → x ∈ xs → test x ≡ true)
    → problems_of test problem xs ≡ []
unfolding problems_of
problems_of-none test problem [] h = refl
problems_of-none test problem (x ∷ xs) h =
    rw (h x (inl refl)) (problems_of-none test problem xs (λ y m. h y (inr m)))

may_select_iff :
    (o : Options) (n : Text)
    → (may_select o n ≡ true) ↔ ((n ∈ o.secrets) ⊎ (n ∈ o.plaintext) ⊎ (n ∈ o.always_secrets))
unfolding may_select
may_select_iff o n =
    ground
      (arith, contains_iff o.secrets n, contains_iff o.plaintext n, contains_iff o.always_secrets n)

append-eq-nil : {A : Type 0} (xs ys : List A) → xs ++ ys ≡ [] → (xs ≡ []) × (ys ≡ [])
append-eq-nil [] ys h = (refl, h)
append-eq-nil (x ∷ xs) ys h = cc

check_policy_iff : (o : Options) (p : Policy) → (check_policy o p ≡ []) ↔ Within o p
unfolding check_policy may_reach
check_policy_iff o p = (
  λ h.
      let (hosts, names) = append-eq-nil (problems_of (may_reach o) bad_egress p.egress) _ h in
      (
        λ x m. problems_of-nil (may_reach o) bad_egress p.egress x hosts m,
        λ n m.
            (may_select_iff o n).0 (problems_of-nil (may_select o) bad_secret p.secrets n names m),
      ),
  λ w. rw (problems_of-none (may_reach o) bad_egress p.egress w.0) (
      problems_of-none (may_select o) bad_secret p.secrets
        (λ n m. (may_select_iff o n).1 (w.1 n m))),
)

set_policy-sent :
    (o : Options) (p : Policy) {q : SandboxPolicy}
    → set_policy o p ≡ sent q
    → (check_policy o p ≡ []) × (sandbox_policy o p ≡ q)
unfolding set_policy
set_policy-sent o p h = ground arith

-- `SetPolicy` tells the sandbox the node's policy exactly where every host that the node asks for is
-- allowed and every secret is declared; otherwise it refuses and sends nothing.
pub set_policy_iff :
    (o : Options) (p : Policy) → ((q : SandboxPolicy) × (set_policy o p ≡ sent q)) ↔ Within o p
unfolding set_policy
set_policy_iff o p = (
  λ (q, h). (check_policy_iff o p).0 (set_policy-sent o p h).0,
  λ w. (sandbox_policy o p, rw ((check_policy_iff o p).1 w, set_policy)),
)

mem-union : (a b : List Text) (x : Text) → x ∈ union a b → (x ∈ a) ⊎ (x ∈ b)
unfolding union
mem-union a b x m = elim (append_new_sound [] (a ++ b) x m) [
  | inl k ↦ absurd k
  | inr k ↦ mem-append x a b k
]

-- What `SetPolicy` sends stays within the settings: each host is one of the fixed hosts or was asked
-- for by the node and is allowed, each enabled secret is one of the fixed ones or was asked for and
-- is declared in placeholder mode, and neither list names anything twice.
pub set_policy_bounds :
    (o : Options) (p : Policy) (q : SandboxPolicy)
    → set_policy o p ≡ sent q
    → ((h : Text)
        → h ∈ q.allowed_hosts
        → (h ∈ o.always_hosts)
          ⊎ ((h ∈ p.egress) × (host_allowed (o.always_hosts ++ o.egress) h ≡ true)))
      × ((n : Text)
          → n ∈ q.enabled_secrets
          → (n ∈ o.always_secrets) ⊎ ((n ∈ p.secrets) × (n ∈ o.secrets)))
      × Distinct q.allowed_hosts
      × Distinct q.enabled_secrets
unfolding sandbox_policy union
set_policy_bounds o p q h =
    let (passed, e) = set_policy-sent o p h in
    let within : Within o p = (check_policy_iff o p).0 passed in
    subst
      (λ (r : SandboxPolicy).
        ((x : Text)
          → x ∈ r.allowed_hosts
          → (x ∈ o.always_hosts)
            ⊎ ((x ∈ p.egress) × (host_allowed (o.always_hosts ++ o.egress) x ≡ true)))
        × ((n : Text)
            → n ∈ r.enabled_secrets
            → (n ∈ o.always_secrets) ⊎ ((n ∈ p.secrets) × (n ∈ o.secrets)))
        × Distinct r.allowed_hosts
        × Distinct r.enabled_secrets)
      e
      (
        λ x m. elim (mem-union o.always_hosts p.egress x m) [
          | inl k ↦ inl k
          | inr k ↦ inr (k, within.0 x k)
        ],
        λ n m. elim (mem-union o.always_secrets _ n m) [
          | inl k ↦ inl k
          | inr k ↦
              let (asked, e') = mem-keep (contains o.secrets) n p.secrets k in
              inr (asked, (contains_iff o.secrets n).0 e')
        ],
        append_new-Distinct [] (o.always_hosts ++ p.egress) tt,
        append_new-Distinct [] (o.always_secrets ++ keep (contains o.secrets) p.secrets) tt,
      )
