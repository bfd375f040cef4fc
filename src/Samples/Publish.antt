-- ===== src/Samples/Publish.antt =====
-- A git whose commits are named by their history, and a commit that is published.
use masuda.Common.{
  ◌≡◌, refl, sym, ◌⊎◌, inl, inr, ap, ◌∙◌, [], ◌∷◌, Option, none, some, Bool, true, false,
  if◌then◌else◌, Bool-cases, Text, codes, same, same_refl, has_prefix, lookup, lookup-insert,
  insert, trim_space,
}
use masuda.Common.{ok}
use masuda.Staging.Publish.{
  Refs, Commands, Real, branch_ref, check_head, forwarded, publish_local, move_branch,
}
use masuda.Staging.Publish.Forward.{IsForward, publish_local-IsForward}

abbrev is_ancestor : Text → Text → Bool
is_ancestor a b = has_prefix b a

abbrev merged_at : Option Text → Text → Text → Refs → Option Refs
merged_at none ref commit refs = none
merged_at (some tip) ref commit refs =
    if is_ancestor tip commit
    then some (insert ref commit refs)
    else if is_ancestor commit tip
    then some refs
    else none

abbrev Moves : Text → Text → Refs → Refs → Type 0
Moves ref commit refs after =
    ((lookup ref after ≡ some commit)
      × ((old : Text) → lookup ref refs ≡ some old → is_ancestor old commit ≡ true))
    ⊎ ((after ≡ refs)
        × ((tip : Text) × (lookup ref refs ≡ some tip) × (is_ancestor commit tip ≡ true)))

set_here : (ref commit : Text) (refs : Refs) → lookup ref (insert ref commit refs) ≡ some commit
set_here ref commit refs = lookup-insert ref ref commit refs ∙ rw (same_refl ref) refl

set_there :
    (ref commit other : Text) (refs : Refs)
    → same ref other ≡ false
    → lookup other (insert ref commit refs) ≡ lookup other refs
set_there ref commit other refs h = lookup-insert ref other commit refs ∙ rw h refl

merged_at-Moves :
    (o : Option Text) (ref commit : Text) (refs after : Refs)
    → lookup ref refs ≡ o
    → merged_at o ref commit refs ≡ some after
    → Moves ref commit refs after
merged_at-Moves none ref commit refs after e h = cc
merged_at-Moves (some tip) ref commit refs after e h = elim (Bool-cases (is_ancestor tip commit)) [
  | inl u ↦
      let done : insert ref commit refs ≡ after = cc (rw u at h) in
      inl (
        ap (lookup ref) (sym done) ∙ set_here ref commit refs,
        λ old k. let was : old ≡ tip = cc in ap (λ (c : Text). is_ancestor c commit) was ∙ u,
      )
  | inr n ↦ elim (Bool-cases (is_ancestor commit tip)) [
    | inl u ↦ inr (cc (rw (n, u) at h), (tip, e, u))
    | inr m ↦ absurd (cc (rw (n, m) at h))
  ]
]

merged_at-keeps :
    (o : Option Text) (ref commit other : Text) (refs after : Refs)
    → merged_at o ref commit refs ≡ some after
    → same ref other ≡ false
    → lookup other after ≡ lookup other refs
merged_at-keeps none ref commit other refs after h n = cc
merged_at-keeps (some tip) ref commit other refs after h n =
    elim (Bool-cases (is_ancestor tip commit)) [
      | inl u ↦
          let done : insert ref commit refs ≡ after = cc (rw u at h) in
          ap (lookup other) (sym done) ∙ set_there ref commit other refs n
      | inr f ↦ elim (Bool-cases (is_ancestor commit tip)) [
        | inl u ↦ let done : refs ≡ after = cc (rw (f, u) at h) in ap (lookup other) (sym done)
        | inr m ↦ absurd (cc (rw (f, m) at h))
      ]
    ]

abbrev head_or_empty : Option Text → Text
head_or_empty none = []
head_or_empty (some c) = c

abbrev updated : Text → Text → Text → Refs → Option Refs
updated ref commit old refs =
    if same (head_or_empty (lookup ref refs)) old then some (insert ref commit refs) else none

updated-inserts :
    (ref commit old : Text) (refs after : Refs)
    → updated ref commit old refs ≡ some after
    → insert ref commit refs ≡ after
updated-inserts ref commit old refs after h =
    elim (Bool-cases (same (head_or_empty (lookup ref refs)) old)) [
      | inl u ↦ cc (rw u at h)
      | inr n ↦ absurd (cc (rw n at h))
    ]

abbrev git : Commands
git = record {
  ancestor = is_ancestor;
  merge_ff = λ ref commit refs. merged_at (lookup ref refs) ref commit refs;
  merge_ff_moves = λ ref commit refs after h. merged_at-Moves _ ref commit refs after refl h;
  merge_ff_keeps =
      λ ref commit refs after other h n. merged_at-keeps _ ref commit other refs after h n;
  update_ref = updated;
  update_ref_sets = λ ref commit old refs after h.
      ap (lookup ref) (sym (updated-inserts ref commit old refs after h))
      ∙ set_here ref commit refs;
  update_ref_keeps = λ ref commit old refs after other h n.
      ap (lookup other) (sym (updated-inserts ref commit old refs after h))
      ∙ set_there ref commit other refs n;
}

abbrev real : Real
real = record {
  refs = (codes "refs/heads/main", codes "1") ∷ (codes "refs/heads/fix", codes "1") ∷ [];
  current = codes "main\n";
}

abbrev published : Refs
published = (codes "refs/heads/main", codes "1") ∷ (codes "refs/heads/fix", codes "12") ∷ []

publishes :
    publish_local git (some (codes "12")) (some (codes "12")) (codes "fix") (codes "12") real
    ≡ ok published
unfolding publish_local check_head same forwarded trim_space move_branch lookup branch_ref
    has_prefix insert
publishes = refl

publish_local-IsForward_example :
    (◌≡◌ {A = Option Text} (some (codes "12")) (some (codes "12")))
    × (◌≡◌ {A = Option Text} (some (codes "12")) (some (codes "12")))
    × IsForward git (branch_ref (codes "fix")) (codes "12") real.refs published
publish_local-IsForward_example =
    publish_local-IsForward git (some (codes "12")) (some (codes "12")) (codes "fix") (codes "12")
      real published publishes
