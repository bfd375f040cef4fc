-- ===== src/Config/Validate/Apart.antt =====
-- The secrets of privileged commands in settings that are accepted (`Validate`,
-- internal/config/config.go).
use masuda.Common.{
  ◌≡◌, ◌≢◌, refl, sym, subst, ◌⊎◌, inl, inr, List, [], ◌∷◌, ◌++◌, Option, none, some, Bool, true,
  false, ◌&&◌, not, arith, All, ◌∈◌, Bool-cases, Text, same, same_iff,
}
use masuda.Config.Names.{valid_name}
use masuda.Config.Decl.{
  SecretDecl, PrivilegedCommandDecl, Settings, effective_mode, secret, mode_placeholder,
  reserved_secret,
}
use masuda.Config.Egress.{host_allowed}
use masuda.Config.Validate.{
  Problem, flag, each, all_of, name_problem, mode_problem, validate_secret, is_some, is_empty,
  privileged_secret, privileged_secrets, validate_command, validate_settings,
}

append-eq-nil : {A : Type 0} (xs ys : List A) → xs ++ ys ≡ [] → (xs ≡ []) × (ys ≡ [])
append-eq-nil [] ys h = (refl, h)
append-eq-nil (x ∷ xs) ys h = cc

flag-nil : (b : Bool) (p : Problem) → flag b p ≡ [] → b ≡ false
unfolding flag
flag-nil true p h = cc
flag-nil false p h = refl

each-nil :
    {A : Type 0} (f : A → List Problem) (xs : List A) (x : A) → each f xs ≡ [] → x ∈ xs → f x ≡ []
unfolding each
each-nil f [] x h m = absurd m
each-nil f (y ∷ xs) x h (inl e) =
    subst (λ z. f z ≡ []) (sym e) (append-eq-nil (f y) (each f xs) h).0
each-nil f (y ∷ xs) x h (inr m) = each-nil f xs x (append-eq-nil (f y) (each f xs) h).1 m

all_of-nil : (pss : List (List Problem)) → all_of pss ≡ [] → All (λ ps. ps ≡ []) pss
unfolding all_of
all_of-nil [] h = tt
all_of-nil (ps ∷ pss) h =
    let (e, rest) = append-eq-nil ps (all_of pss) h in (e, all_of-nil pss rest)

not-false : (b : Bool) → not b ≡ false → b ≡ true
not-false b h = ground arith

-- A secret of a privileged command that is apart from the agent's VM: only its placeholder goes in,
-- the agent's secrets do not name it, and it is replaced only towards hosts that this command
-- reaches, of which there is one.
pub record Apart (s : Settings) (d : PrivilegedCommandDecl) (sd : SecretDecl) : Type 0 where
  pub named : valid_name sd.name ≡ true
  pub not_reserved : sd.name ≢ reserved_secret
  pub placeholder : effective_mode sd ≡ mode_placeholder
  pub not_agents : secret s sd.name ≡ none
  pub some_host : sd.hosts ≢ []
  pub within : (h : Text) → h ∈ sd.hosts → host_allowed d.egress h ≡ true

name_problem-nil :
    (seen : List Text) (n : Text)
    → name_problem seen n ≡ []
    → (valid_name n ≡ true) × (n ≢ reserved_secret)
unfolding name_problem
name_problem-nil seen n h = elim (Bool-cases (valid_name n)) [
  | inr t ↦ cc (rw t at h)
  | inl t ↦ elim (Bool-cases (same n reserved_secret)) [
    | inl u ↦ cc (rw t at (rw u at h))
    | inr u ↦ (t, λ e. differ u ((same_iff n reserved_secret).1 e))
  ]
]
  where
    differ : {b : Bool} → b ≡ false → b ≡ true → ⊥
    differ e k = cc

mode_problem-nil :
    (d : SecretDecl)
    → same (effective_mode d) mode_placeholder ≡ true
    → mode_problem d ≡ []
    → d.hosts ≢ []
unfolding mode_problem
mode_problem-nil d t h e = no_hosts (subst (λ hs. mode_hosts hs ≡ []) e (rw (t, mode_problem) at h))
  where
    mode_hosts : List Text → List Problem
    mode_hosts hs = elim hs [ [] ↦ Problem.needs_hosts d.name ∷ [] | x ∷ xs ↦ [] ]

    no_hosts : mode_hosts [] ≡ [] → ⊥
    no_hosts k = cc

is_some-none : {A : Type 0} (o : Option A) → is_some o ≡ false → o ≡ none
unfolding is_some
is_some-none none h = refl
is_some-none (some a) h = cc

is_empty-nil : {A : Type 0} (xs : List A) → is_empty xs ≡ true → xs ≡ []
unfolding is_empty
is_empty-nil [] h = refl
is_empty-nil (x ∷ xs) h = cc

one-Apart :
    (s : Settings) (d : PrivilegedCommandDecl) (own : List Text) (sd : SecretDecl)
    → validate_secret own sd ≡ []
    → privileged_secret s d sd ≡ []
    → Apart s d sd
unfolding validate_secret privileged_secret
one-Apart s d own sd h k =
    let (n, (m, _)) = all_of-nil _ h in
    let (p, (a, (k2, _))) = all_of-nil _ k in
    let t = not-false _ (flag-nil _ _ p) in
    let (named, not_reserved) = name_problem-nil own sd.name n in
    record {
      named = named;
      not_reserved = not_reserved;
      placeholder = (same_iff (effective_mode sd) mode_placeholder).0 t;
      not_agents = is_some-none (secret s sd.name) (flag-nil _ _ a);
      some_host = mode_problem-nil sd t m;
      within = λ x i. not-false _ (flag-nil _ _ (each-nil _ sd.hosts x k2 i));
    }

all-Apart :
    (s : Settings) (d : PrivilegedCommandDecl) (own : List Text) (sds : List SecretDecl)
    (sd : SecretDecl)
    → privileged_secrets s d own sds ≡ []
    → sd ∈ sds
    → Apart s d sd
unfolding privileged_secrets
all-Apart s d own [] sd h m = absurd m
all-Apart s d own (x ∷ sds) sd h m =
    let (v, (p, (rest, _))) = all_of-nil _ h in
    elim m [
      | inl e ↦ subst (Apart s d) (sym e) (one-Apart s d own x v p)
      | inr i ↦ all-Apart s d (x.name ∷ own) sds sd rest i
    ]

validate_command-nil :
    (s : Settings) (name : Text) (d : PrivilegedCommandDecl)
    → validate_command s (name, d) ≡ []
    → ((d.secrets ≡ []) ⊎ (d.inputs ≡ [])) × ((sd : SecretDecl) → sd ∈ d.secrets → Apart s d sd)
unfolding validate_command
validate_command-nil s name d h =
    let (_, (_, (b, (h3, _)))) = all_of-nil _ h in
    (either (flag-nil _ _ b), λ sd m. all-Apart s d [] d.secrets sd h3 m)
  where
    either :
        (not (is_empty d.secrets) && not (is_empty d.inputs)) ≡ false
        → (d.secrets ≡ []) ⊎ (d.inputs ≡ [])
    either e = elim (Bool-cases (is_empty d.secrets)) [
      | inl t ↦ inl (is_empty-nil d.secrets t)
      | inr t ↦ inr (is_empty-nil d.inputs (ground (arith, t, e)))
    ]

-- In settings that `Validate` accepts, a privileged command with secrets has no inputs from the work
-- tree, and each of its secrets is apart from what the agent's VM receives and bound to hosts that
-- the command itself may reach.
pub validate_settings-Apart :
    (is_object : Text → Bool) (s : Settings) (name : Text) (d : PrivilegedCommandDecl)
    → validate_settings is_object s ≡ []
    → (name, d) ∈ s.privileged_commands
    → ((d.secrets ≡ []) ⊎ (d.inputs ≡ [])) × ((sd : SecretDecl) → sd ∈ d.secrets → Apart s d sd)
unfolding validate_settings
validate_settings-Apart is_object s name d h m =
    let (_, (_, (_, (_, (_, (commands, _)))))) = all_of-nil _ h in
    validate_command-nil s name d
      (each-nil (validate_command s) s.privileged_commands (name, d) commands m)
