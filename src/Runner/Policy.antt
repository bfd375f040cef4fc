-- ===== src/Runner/Policy.antt =====
-- internal/runner/runner.go: `CheckPolicy`, `SetPolicy` and `union`. The call of the sandbox service
-- is the request that `SetPolicy` sends.
pub mod Bounds
use masuda.Common.{
  List, [], ◌∷◌, ◌++◌, Bool, true, false, ◌||◌, if◌then◌else◌, Text, contains, append_new, keep,
}
use masuda.Config.Egress.{host_allowed}

-- `engine.Policy`: what a node of the workflow asks for.
pub record Policy : Type 0 where
  pub egress : List Text
  pub secrets : List Text

-- The fields of `Options` that bound it.
pub record Options : Type 0 where
  pub always_hosts : List Text
  pub always_secrets : List Text
  pub egress : List Text
  pub secrets : List Text
  pub plaintext : List Text

-- `sandboxv1.Policy`.
pub record SandboxPolicy : Type 0 where
  pub allowed_hosts : List Text
  pub enabled_secrets : List Text

pub data PolicyProblem : Type 0 where
  bad_egress bad_secret : Text → PolicyProblem

pub data SetResult : Type 0 where
  refused : List PolicyProblem → SetResult
  sent : SandboxPolicy → SetResult

-- `union`.
unfoldable pub union : List Text → List Text → List Text
union a b = append_new [] (a ++ b)

unfoldable pub may_reach : Options → Text → Bool
may_reach o h = host_allowed (o.always_hosts ++ o.egress) h

unfoldable pub may_select : Options → Text → Bool
may_select o n = contains o.secrets n || contains o.plaintext n || contains o.always_secrets n

unfoldable pub problems_of : (Text → Bool) → (Text → PolicyProblem) → List Text → List PolicyProblem
problems_of test problem [] = []
problems_of test problem (x ∷ xs) =
    if test x then problems_of test problem xs else problem x ∷ problems_of test problem xs

-- `CheckPolicy`: the problems that it lists.
unfoldable pub check_policy : Options → Policy → List PolicyProblem
check_policy o p =
    problems_of (may_reach o) bad_egress p.egress ++ problems_of (may_select o) bad_secret p.secrets

-- The policy that the sandbox is told.
unfoldable pub sandbox_policy : Options → Policy → SandboxPolicy
sandbox_policy o p = record {
  allowed_hosts = union o.always_hosts p.egress;
  enabled_secrets = union o.always_secrets (keep (contains o.secrets) p.secrets);
}

-- `SetPolicy`.
unfoldable pub set_policy : Options → Policy → SetResult
set_policy o p = elim (check_policy o p) [
  | [] ↦ sent (sandbox_policy o p)
  | e ∷ es ↦ refused (e ∷ es)
]
