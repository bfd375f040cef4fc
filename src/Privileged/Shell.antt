-- ===== src/Privileged/Shell.antt =====
-- internal/privileged/privileged.go: the refs and the shell texts of a job: `snapshotRefPattern`,
-- `ApprovedRef`, `checkoutScript`, `commandShell` and `shellQuote`. `wip_ref` is `staging.WIPRef`.
use masuda.Common.{
  ℕ, ◌≡◌, refl, arith, List, [], ◌∷◌, ◌++◌, Option, none, some, Bool, true, false, ◌||◌,
  if◌then◌else◌, ◌==◌, Text, codes, same, cut_prefix, Bool-cases, inl, inr,
}
use masuda.Common.Decimal.{pad4, unsigned-pad4}
use masuda.Config.Names.{
  valid_check_name, named, every, valid_check_name-unsigned, valid_check_name-append,
}

abbrev pub guest_workspace : Text
guest_workspace = codes "/workspace"

abbrev pub bundle_guest : Text
bundle_guest = codes "/masuda/privileged.bundle"

abbrev pub guest_home : Text
guest_home = codes "/home/ubuntu"

-- `WIPRef`.
unfoldable pub wip_ref : Text → Text
wip_ref occurrence = codes "refs/masuda/wip/" ++ occurrence

-- `ApprovedRef`.
unfoldable pub approved_ref : Text → Text
approved_ref run_id = codes "refs/masuda/approved/" ++ run_id

name_behind : Text → Text → Bool
name_behind prefix ref = elim (cut_prefix ref prefix) [ none ↦ false | some s ↦ valid_check_name s ]

-- `snapshotRefPattern`; what follows the prefix has the form of a check's name.
unfoldable pub snapshot_ref_ok : Text → Bool
unfolding name_behind
snapshot_ref_ok ref =
    name_behind (codes "refs/masuda/wip/") ref || name_behind (codes "refs/masuda/approved/") ref

abbrev newline : Text
newline = b'\n' ∷ []

join_lines : List Text → Text
join_lines [] = []
join_lines (l ∷ []) = l
join_lines (l ∷ ls) = l ++ newline ++ join_lines ls

-- `checkoutScript`.
unfoldable pub checkout_script : Text → Text
unfolding join_lines
checkout_script ref = join_lines (
    codes "set -e"
    ∷ (codes "git config --global --add safe.directory " ++ guest_workspace)
    ∷ codes "git init -q ."
    ∷ (codes "git fetch -q --no-tags " ++ bundle_guest ++ codes " +" ++ ref ++ codes ":" ++ ref)
    ∷ (codes "git checkout -q -f --detach " ++ ref)
    ∷ (codes "rm -f " ++ bundle_guest)
    ∷ [])

-- The text with each quote replaced by `'\''`.
unfoldable pub escape_quotes : Text → Text
escape_quotes [] = []
escape_quotes (c ∷ s) =
    let rest = escape_quotes s in if c == 0x27 then 0x27 ∷ 0x5c ∷ 0x27 ∷ 0x27 ∷ rest else c ∷ rest

-- `shellQuote`.
unfoldable pub shell_quote : Text → Text
unfolding escape_quotes
shell_quote s = 0x27 ∷ (escape_quotes s ++ 0x27 ∷ [])

-- `commandShell`.
unfoldable pub command_shell : Text → Text → Text
unfolding shell_quote
command_shell prepare command =
    if same prepare []
    then command
    else codes "mkdir -p "
      ++ guest_home
      ++ newline
      ++ codes "HOME="
      ++ guest_home
      ++ codes " /bin/sh -elc "
      ++ shell_quote prepare
      ++ codes " || exit $?"
      ++ newline
      ++ command

-- How POSIX says that the shell reads a word of quoted parts: within quotes every character stands
-- for itself, between them a backslash makes the next one do so, and no other character may stand
-- there.
pub data Reading : Type 0 where
  outside inside escaped : Reading

with_front : ℕ → Option Text → Option Text
with_front c none = none
with_front c (some s) = some (c ∷ s)

unfoldable word : Reading → Text → Option Text
unfolding with_front
word outside [] = some []
word inside [] = none
word escaped [] = none
word outside (c ∷ s) =
    if c == 0x27 then word inside s else if c == 0x5c then word escaped s else none
word inside (c ∷ s) = if c == 0x27 then word outside s else with_front c (word inside s)
word escaped (c ∷ s) = with_front c (word outside s)

unfoldable pub shell_word : Text → Option Text
unfolding word
shell_word = word outside

word-escape_quotes : (s : Text) → word inside (escape_quotes s ++ 0x27 ∷ []) ≡ some s
unfolding escape_quotes word with_front
word-escape_quotes [] = refl
word-escape_quotes (c ∷ s) = elim (Bool-cases (c == 0x27)) [
  | inl e ↦ let quote : c ≡ 0x27 = ground (arith, e) in rw (quote, word-escape_quotes s) refl
  | inr e ↦ rw (e, e, word-escape_quotes s) refl
]

-- The shell reads a quoted text back as one word, the text itself, whatever characters it has.
pub shell_word-shell_quote : (s : Text) → shell_word (shell_quote s) ≡ some s
unfolding shell_quote shell_word word
shell_word-shell_quote s = word-escape_quotes s

-- The refs that are made for a run pass the pattern.
pub approved_ref-ok : (n : ℕ) → snapshot_ref_ok (approved_ref (pad4 n)) ≡ true
unfolding snapshot_ref_ok name_behind approved_ref cut_prefix
approved_ref-ok n = ground (arith, valid_check_name-unsigned (pad4 n) (unsigned-pad4 n))

run_prefix-ok : valid_check_name (codes "privileged-") ≡ true
unfolding valid_check_name named every
run_prefix-ok = refl

pub wip_ref-ok : (n : ℕ) → snapshot_ref_ok (wip_ref (codes "privileged-" ++ pad4 n)) ≡ true
unfolding snapshot_ref_ok name_behind wip_ref cut_prefix
wip_ref-ok n = ground (
  arith,
  valid_check_name-append (codes "privileged-") (pad4 n) run_prefix-ok
      (valid_check_name-unsigned (pad4 n) (unsigned-pad4 n)),
)
