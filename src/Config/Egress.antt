-- ===== src/Config/Egress.antt =====
-- internal/config/config.go: `AllowedEgress` and `HostAllowed`.
pub mod Laws
use masuda.Common.{
  ℕ, ◌<◌, List, [], ◌∷◌, ◌++◌, Option, none, some, Bool, true, false, ◌&&◌, ◌||◌, not,
  if◌then◌else◌, ltb, length, Text, codes, same, contains, cut_prefix, has_prefix, has_suffix,
}
use masuda.Config.Decl.{Settings, LocalSettings}

-- The loop of `AllowedEgress`, with what it has put out so far.
unfoldable pub approve_hosts : List Text → List Text → List Text → List Text
approve_hosts approved out [] = out
approve_hosts approved out (h ∷ hs) =
    approve_hosts approved
      (if contains approved h && not (contains out h) then out ++ h ∷ [] else out) hs

-- `AllowedEgress`: the declared hosts that are approved.
unfoldable pub allowed_egress : Settings → LocalSettings → List Text
unfolding approve_hosts
allowed_egress s l = approve_hosts l.egress_approved [] s.egress

-- The wildcard branch of `HostAllowed`, on what follows the `*`.
unfoldable pub under_wildcard : Text → Text → Bool
under_wildcard suffix host =
    has_prefix suffix (codes ".")
    && not (has_prefix host (codes "*"))
    && has_suffix host suffix
    && ltb (length suffix) (length host)

unfoldable pub one_allows : Text → Text → Bool
unfolding under_wildcard
one_allows a host =
    if same a host
    then true
    else elim (cut_prefix a (codes "*")) [ none ↦ false | some suffix ↦ under_wildcard suffix host ]

-- `HostAllowed`.
unfoldable pub host_allowed : List Text → Text → Bool
host_allowed [] host = false
host_allowed (a ∷ as') host = one_allows a host || host_allowed as' host
