-- ===== src/Config/Secrets.antt =====
-- internal/config/config.go, `PrivilegedSecrets`: the secrets of all privileged commands, one for each
-- name.
pub mod Union
use masuda.Common.{List, [], ◌∷◌, ◌++◌, Bool, if◌then◌else◌, Text, same, text_lt, append_new}
use masuda.Config.Decl.{SecretDecl, PrivilegedCommandDecl, Settings, mode_placeholder}

-- `slices.Sort(names)`, by insertion, with the commands that the names stand for.
insert_command :
    Text × PrivilegedCommandDecl
    → List (Text × PrivilegedCommandDecl)
    → List (Text × PrivilegedCommandDecl)
insert_command c [] = c ∷ []
insert_command c (d ∷ ds) = if text_lt d.0 c.0 then d ∷ insert_command c ds else c ∷ d ∷ ds

unfoldable pub sorted_commands :
    List (Text × PrivilegedCommandDecl) → List (Text × PrivilegedCommandDecl)
unfolding insert_command
sorted_commands [] = []
sorted_commands (c ∷ cs) = insert_command c (sorted_commands cs)

all_secrets : List (Text × PrivilegedCommandDecl) → List SecretDecl
all_secrets [] = []
all_secrets (c ∷ cs) = c.1.secrets ++ all_secrets cs

-- The body of the inner loop: the entry of that name, or a new one, with the hosts that it lacks.
merge_secret : SecretDecl → List SecretDecl → List SecretDecl
merge_secret d [] =
    record { name = d.name; hosts = append_new [] d.hosts; mode = mode_placeholder; places = [] }
    ∷ []
merge_secret d (x ∷ xs) =
    if same x.name d.name
    then record x { hosts = append_new x.hosts d.hosts } ∷ xs
    else x ∷ merge_secret d xs

merge_secrets : List SecretDecl → List SecretDecl → List SecretDecl
unfolding merge_secret
merge_secrets out [] = out
merge_secrets out (d ∷ ds) = merge_secrets (merge_secret d out) ds

-- `PrivilegedSecrets`.
unfoldable pub privileged_secrets_of : Settings → List SecretDecl
unfolding sorted_commands all_secrets merge_secrets
privileged_secrets_of s = merge_secrets [] (all_secrets (sorted_commands s.privileged_commands))
