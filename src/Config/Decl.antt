-- ===== src/Config/Decl.antt =====
-- internal/config/config.go and local.go: the declared types and their defaults. A Go map is the
-- list of its entries.
use masuda.Common.{
  ℕ, List, [], Option, none, some, if◌then◌else◌, ltb, Text, codes, same, ◌∷◌, lookup,
}
use masuda.Common.Int.{ℤ}

abbrev pub mode_placeholder : Text
mode_placeholder = codes "placeholder"

abbrev pub mode_plaintext : Text
mode_plaintext = codes "plaintext"

abbrev pub in_header : Text
in_header = codes "header"

abbrev pub in_body : Text
in_body = codes "body"

-- `ReservedSecret`.
abbrev pub reserved_secret : Text
reserved_secret = codes "CLAUDE_CODE_OAUTH_TOKEN"

pub record SecretDecl : Type 0 where
  pub name : Text
  pub hosts : List Text
  pub mode : Text
  pub places : List Text

-- `EffectiveMode`.
unfoldable pub effective_mode : SecretDecl → Text
effective_mode d = if same d.mode [] then mode_placeholder else d.mode

-- `EffectiveIn`.
unfoldable pub effective_in : SecretDecl → List Text
effective_in d = elim d.places [ [] ↦ in_header ∷ [] | p ∷ ps ↦ p ∷ ps ]

pub record EnvFile : Type 0 where
  pub path : Text
  pub vars : List Text

pub record PrivilegedCommandDecl : Type 0 where
  pub description : Text
  pub command : Text
  pub image : Text
  pub inputs : List Text
  pub outputs : List Text
  pub timeout_seconds : ℤ
  pub egress : List Text
  pub secrets : List SecretDecl

pub record AgentOverride : Type 0 where
  pub model : Option Text
  pub effort : Option Text

pub record ImageDecl : Type 0 where
  pub disk_mib : ℕ
  pub memory_mib : ℕ
  pub cpus : ℕ

pub record Settings : Type 0 where
  pub image : Text
  pub egress : List Text
  pub secrets : List SecretDecl
  pub env_files : List EnvFile
  pub privileged_commands : List (Text × PrivilegedCommandDecl)
  pub checks : List (Text × Text)
  pub prepare : Text
  pub images : List (Text × ImageDecl)
  pub publish_remote : Text
  pub agents : List (Text × AgentOverride)
  pub claude_settings : Text

pub record LocalSettings : Type 0 where
  pub egress_approved : List Text
  pub secrets_approved : List Text
  pub privileged_commands_approved : List (Text × Text)
  pub claude_token : Text

find_secret : Text → List SecretDecl → Option SecretDecl
find_secret n [] = none
find_secret n (d ∷ ds) = if same d.name n then some d else find_secret n ds

-- `Settings.Secret`.
unfoldable pub secret : Settings → Text → Option SecretDecl
unfolding find_secret
secret s n = find_secret n s.secrets

-- `Settings.ImageEntry`.
pub image_entry : Settings → Text
image_entry s = if same s.image [] then codes "default" else s.image

-- `Settings.PublishRemote`.
pub remote_or_default : Settings → Text
remote_or_default s = if same s.publish_remote [] then codes "origin" else s.publish_remote

sized : (ImageDecl → ℕ) → ℕ → Option ImageDecl → ℕ
sized field default none = default
sized field default (some d) = if ltb 0 (field d) then field d else default

-- `Settings.DiskMiB`, `MemoryMiB` and `CPUs`, the VM of an entry.
pub vm_size : Settings → Text → ImageDecl
unfolding sized
vm_size s entry = record {
  disk_mib = sized (λ d. d.disk_mib) 4096 (lookup entry s.images);
  memory_mib = sized (λ d. d.memory_mib) 4096 (lookup entry s.images);
  cpus = sized (λ d. d.cpus) 4 (lookup entry s.images);
}
