-- ===== src/Samples/Commit.antt =====
-- Git over association lists, and a commit of one allowed path.
use masuda.Common.{
  subst, has_prefix, has_prefix_sound, length, length-append, ◌⊎◌, ◌≡◌, ◌≢◌, refl, sym, ap, ◌∙◌,
  ◌↔◌, inl, inr, List, [], ◌∷◌, ◌++◌, Option, none, some, Bool, true, false, not, ◌&&◌,
  if◌then◌else◌, arith, ◌∈◌, keep, map, mem-keep, keep-mem, mem-append_left, mem-append_right,
  Bool-cases, Text, codes, same, same_iff, lookup, contains, contains_iff,
}
use masuda.Staging.Commit.{
  conflicts, Git, CommitOptions, CommitResult, match_path, commit, deviating,
}
use masuda.Staging.Commit.Overlay.{Deviates, commit-deviations}

abbrev Tree : Type 0
Tree = List (Text × Option Text)

-- A tree is the list of what was done to it, the newest first.
abbrev placed_at : Text → Option Text → Text → Option Text → Option Text
placed_at q none p rest = if same q p then none else rest
placed_at q (some e) p rest = if same q p then some e else if conflicts p q then none else rest

abbrev entry : Tree → Text → Option Text
entry [] p = none
entry ((q, o) ∷ t) p = placed_at q o p (entry t p)

placed_at-here :
    (q : Text) (o : Option Text) (p : Text) (rest : Option Text)
    → same q p ≡ true
    → placed_at q o p rest ≡ o
placed_at-here q none p rest h = rw h refl
placed_at-here q (some e) p rest h = rw h refl

placed_at-there :
    (q : Text) (o : Option Text) (p : Text) (rest : Option Text)
    → same q p ≡ false
    → ((e : Text) → o ≡ some e → conflicts p q ≡ false)
    → placed_at q o p rest ≡ rest
placed_at-there q none p rest h n = rw h refl
placed_at-there q (some e) p rest h n = rw (h, n e refl) refl

placed_at-none :
    (q : Text) (o : Option Text) (p : Text) (rest : Option Text)
    → same q p ≡ false
    → rest ≡ none
    → placed_at q o p rest ≡ none
placed_at-none q none p rest h n = rw h n
placed_at-none q (some e) p rest h n = elim (Bool-cases (conflicts p q)) [
  | inl c ↦ rw (h, c) refl
  | inr c ↦ rw (h, c) n
]

placed_at-replaces :
    (q : Text) (e p : Text) (rest : Option Text)
    → same q p ≡ false
    → conflicts p q ≡ true
    → placed_at q (some e) p rest ≡ none
placed_at-replaces q e p rest h c = rw (h, c) refl

placed_at-some :
    (q : Text) (o : Option Text) (p : Text) (rest : Option Text) (x : Text)
    → placed_at q o p rest ≡ some x
    → ((q ≡ p) × (o ≡ some x))
      ⊎ ((rest ≡ some x) × ((e : Text) → o ≡ some e → conflicts p q ≡ false))
placed_at-some q none p rest x h = elim (Bool-cases (same q p)) [
  | inl s ↦ absurd (cc (rw s at h))
  | inr s ↦ inr (rw s at h, λ e k. cc)
]
placed_at-some q (some e) p rest x h = elim (Bool-cases (same q p)) [
  | inl s ↦ inl ((same_iff q p).0 s, rw s at h)
  | inr s ↦ elim (Bool-cases (conflicts p q)) [
    | inl c ↦ absurd (cc (rw (s, c) at h))
    | inr c ↦ inr (rw (s, c) at h, λ _ k. c)
  ]
]

conflicts_comm : (p q : Text) → conflicts p q ≡ conflicts q p
unfolding conflicts
conflicts_comm p q = ground arith

conflicts_irrefl : (p : Text) → conflicts p p ≡ false
unfolding conflicts
conflicts_irrefl p = elim (Bool-cases (has_prefix p (p ++ b'/' ∷ []))) [
  | inr f ↦ ground (arith, f)
  | inl t ↦
      let (r, e) = has_prefix_sound p (p ++ b'/' ∷ []) t in
      absurd (too_long r (ap (λ (l : Text). length l) e))
]
  where
    too_long : (r : Text) → ¬ (length p ≡ length ((p ++ b'/' ∷ []) ++ r))
    too_long r e = omega (arith, e, length-append (p ++ b'/' ∷ []) r, length-append p (b'/' ∷ []))

tree_apart :
    (t : Tree) (p q : Text) {x y : Text}
    → entry t p ≡ some x
    → entry t q ≡ some y
    → conflicts p q ≡ false
tree_apart [] p q h k = cc
tree_apart ((r, o) ∷ t) p q {x} {y} h k = elim (placed_at-some r o p (entry t p) x h) [
  | inl (e, a) ↦ elim (placed_at-some r o q (entry t q) y k) [
    | inl (f, b) ↦ subst (λ (z : Text). conflicts p z ≡ false) (sym e ∙ f) (conflicts_irrefl p)
    | inr (f, b) ↦ conflicts_comm p q ∙ subst (λ (z : Text). conflicts q z ≡ false) e (b x a)
  ]
  | inr (e, a) ↦ elim (placed_at-some r o q (entry t q) y k) [
    | inl (f, b) ↦ subst (λ (z : Text). conflicts p z ≡ false) f (a y b)
    | inr (f, b) ↦ tree_apart t p q e f
  ]
]

abbrev same_entry : Option Text → Option Text → Bool
same_entry none none = true
same_entry none (some y) = false
same_entry (some x) none = false
same_entry (some x) (some y) = same x y

same_entry_iff : (x y : Option Text) → (same_entry x y ≡ true) ↔ (x ≡ y)
same_entry_iff none none = (λ h. refl, λ h. refl)
same_entry_iff none (some y) = (λ h. cc, λ h. cc)
same_entry_iff (some x) none = (λ h. cc, λ h. cc)
same_entry_iff (some x) (some y) = ground (arith, same_iff x y)

abbrev differ : Tree → Tree → Text → Bool
differ a b p = not (same_entry (entry a p) (entry b p))

abbrev paths : Tree → List Text
paths t = map (λ e. e.0) t

abbrev diff_tree : Tree → Tree → List Text
diff_tree a b = keep (differ a b) (paths a ++ paths b)

no_path : (t : Tree) (p : Text) → ¬ (p ∈ paths t) → entry t p ≡ none
no_path [] p n = refl
no_path ((q, o) ∷ t) p n = elim (Bool-cases (same q p)) [
  | inl s ↦ absurd (n (inl (sym ((same_iff q p).0 s))))
  | inr s ↦ placed_at-none q o p (entry t p) s (no_path t p (λ m. n (inr m)))
]

diff_tree_sound : (a b : Tree) (p : Text) → p ∈ diff_tree a b → entry a p ≢ entry b p
diff_tree_sound a b p m e =
    let (_, d) = mem-keep (differ a b) p (paths a ++ paths b) m in
    clash ((same_entry_iff (entry a p) (entry b p)).1 e) d
  where
    clash : {x : Bool} → x ≡ true → not x ≡ true → ⊥
    clash h k = ground arith

diff_tree_complete : (a b : Tree) (p : Text) → ¬ (p ∈ diff_tree a b) → entry a p ≡ entry b p
diff_tree_complete a b p n = elim (Bool-cases (same_entry (entry a p) (entry b p))) [
  | inl s ↦ (same_entry_iff (entry a p) (entry b p)).0 s
  | inr s ↦
      let out : ¬ (p ∈ (paths a ++ paths b)) =
        λ m. n (keep-mem (differ a b) p (paths a ++ paths b) m (ap not s)) in
      no_path a p (λ m. out (mem-append_left p (paths a) (paths b) m))
      ∙ sym (no_path b p (λ m. out (mem-append_right p (paths a) (paths b) m)))
]

abbrev listed : Text → Option Text → List (Text × Text) → List (Text × Text)
listed p none rest = rest
listed p (some e) rest = (p, e) ∷ rest

abbrev ls_tree : Tree → List Text → List (Text × Text)
ls_tree t [] = []
ls_tree t (p ∷ ps) = listed p (entry t p) (ls_tree t ps)

lookup-listed :
    (q p : Text) (o : Option Text) (rest : List (Text × Text))
    → lookup p (listed q o rest)
      ≡ (if same q p then (elim o [ none ↦ lookup p rest | some e ↦ some e ]) else lookup p rest)
unfolding lookup
lookup-listed q p none rest = ground arith
lookup-listed q p (some e) rest = refl

lookup-ls_tree_all :
    (t : Tree) (ps : List Text) (p : Text)
    → lookup p (ls_tree t ps) ≡ (if contains ps p then entry t p else none)
unfolding lookup contains
lookup-ls_tree_all t [] p = refl
lookup-ls_tree_all t (q ∷ ps) p = elim (Bool-cases (same q p)) [
  | inr s ↦ lookup-listed q p (entry t q) (ls_tree t ps) ∙ rw s (lookup-ls_tree_all t ps p)
  | inl s ↦
      lookup-listed q p (entry t q) (ls_tree t ps)
      ∙ rw s (here (lookup-ls_tree_all t ps p) (ap (entry t) ((same_iff q p).0 s)))
]
  where
    here :
        lookup p (ls_tree t ps) ≡ (if contains ps p then entry t p else none)
        → entry t q ≡ entry t p
        → (elim (entry t q) [ none ↦ lookup p (ls_tree t ps) | some e ↦ some e ]) ≡ entry t p
    here ih e = ground (arith, ih, e)

lookup-ls_tree :
    (t : Tree) (ps : List Text) (p : Text) → p ∈ ps → lookup p (ls_tree t ps) ≡ entry t p
lookup-ls_tree t ps p m = lookup-ls_tree_all t ps p ∙ rw ((contains_iff ps p).1 m) refl

abbrev update_index : Tree → Tree → Tree
update_index t info = info ++ t

abbrev infos : (Text → Option Text) → List Text → Tree
infos f ps = map (λ q. (q, f q)) ps

update_index_sets :
    (t : Tree) (f : Text → Option Text) (ps : List Text) (p : Text)
    → ((q e : Text) → q ∈ ps → f q ≡ some e → conflicts p q ≡ false)
    → entry (update_index t (infos f ps)) p ≡ (if contains ps p then f p else entry t p)
unfolding contains
update_index_sets t f [] p h = refl
update_index_sets t f (q ∷ ps) p h = elim (Bool-cases (same q p)) [
  | inl s ↦ placed_at-here q (f q) p _ s ∙ rw s (ap f ((same_iff q p).0 s))
  | inr s ↦
      placed_at-there q (f q) p _ s (λ e k. h q e (inl refl) k)
      ∙ rw s (update_index_sets t f ps p (λ r e m k. h r e (inr m) k))
]

update_index_none :
    (t : Tree) (f : Text → Option Text) (ps : List Text) (p : Text)
    → (if contains ps p then f p else entry t p) ≡ none
    → entry (update_index t (infos f ps)) p ≡ none
unfolding contains
update_index_none t f [] p h = h
update_index_none t f (q ∷ ps) p h = elim (Bool-cases (same q p)) [
  | inl s ↦ placed_at-here q (f q) p _ s ∙ ap f ((same_iff q p).0 s) ∙ (rw s at h)
  | inr s ↦ placed_at-none q (f q) p _ s (update_index_none t f ps p (rw s at h))
]

update_index_replaces :
    (t : Tree) (f : Text → Option Text) (ps : List Text) (p q e : Text)
    → contains ps p ≡ false
    → q ∈ ps
    → f q ≡ some e
    → conflicts p q ≡ true
    → entry (update_index t (infos f ps)) p ≡ none
unfolding contains
update_index_replaces t f [] p q e c m h k = absurd m
update_index_replaces t f (r ∷ ps) p q e c m h k = elim (Bool-cases (same r p)) [
  | inl s ↦ absurd (cc (rw s at c))
  | inr s ↦ elim m [
    | inl d ↦
        subst (λ (o : Option Text). placed_at r o p (entry (update_index t (infos f ps)) p) ≡ none)
          (sym (ap f (sym d) ∙ h))
          (placed_at-replaces r e p _ s (subst (λ (z : Text). conflicts p z ≡ true) d k))
    | inr n ↦ placed_at-none r (f r) p _ s (update_index_replaces t f ps p q e (rw s at c) n h k)
  ]
]

abbrev same_tree : Tree → Tree → Bool
same_tree [] [] = true
same_tree [] (y ∷ ys) = false
same_tree (x ∷ xs) [] = false
same_tree (x ∷ xs) (y ∷ ys) = same x.0 y.0 && same_entry x.1 y.1 && same_tree xs ys

same_tree_iff : (a b : Tree) → (same_tree a b ≡ true) ↔ (a ≡ b)
same_tree_iff [] [] = (λ h. refl, λ h. refl)
same_tree_iff [] (y ∷ ys) = (λ h. cc, λ h. cc)
same_tree_iff (x ∷ xs) [] = (λ h. cc, λ h. cc)
same_tree_iff ((p, x) ∷ xs) ((q, y) ∷ ys) =
    ground (arith, same_iff p q, same_entry_iff x y, same_tree_iff xs ys)

same_commit_iff : (a b : Tree × Text) → ((same_tree a.0 b.0 && same a.1 b.1) ≡ true) ↔ (a ≡ b)
same_commit_iff (t, m) (u, n) = ground (arith, same_tree_iff t u, same_iff m n)

-- A commit is its tree and its message.
abbrev git : Git
git = record {
  Tree = Tree;
  Entry = Text;
  Commit = Tree × Text;
  entry = entry;
  diff_tree = diff_tree;
  diff_tree_sound = diff_tree_sound;
  diff_tree_complete = diff_tree_complete;
  ls_tree = ls_tree;
  lookup-ls_tree = lookup-ls_tree;
  update_index = update_index;
  tree_apart = tree_apart;
  update_index_sets = update_index_sets;
  update_index_none = update_index_none;
  update_index_replaces = update_index_replaces;
  tree_of = λ c. c.0;
  commit_tree = λ t parent message. (t, message);
  tree_of-commit_tree = λ t parent message. refl;
  same_commit = λ a b. same_tree a.0 b.0 && same a.1 b.1;
  same_commit_iff = same_commit_iff;
}

-- A path that differs is listed once for each of the two trees. `*` is the one wildcard of these patterns.
abbrev glob : Text → Text → Option Bool
glob pat p = some (same pat (codes "*"))

abbrev head : Tree × Text
head = ((codes "a", some (codes "1")) ∷ (codes "b", some (codes "2")) ∷ [], codes "m")

abbrev wip : Tree
wip = (codes "a", some (codes "3")) ∷ (codes "b", some (codes "4")) ∷ []

abbrev allow : List Text → CommitOptions
allow byproducts = record {
  allowed = codes "a" ∷ [];
  byproducts = byproducts;
  message = codes "work";
}

abbrev made : Tree × Text
made = ((codes "a", some (codes "3")) ∷ (codes "a", some (codes "3")) ∷ head.0, codes "work\n")

commit_reports :
    commit glob git (allow []) head wip head
    ≡ (CommitResult.deviations (codes "b" ∷ codes "b" ∷ []), head)
unfolding commit deviating lookup same match_path conflicts has_prefix
commit_reports = refl

commit-deviations_example :
    (head ≡ head)
    × ((p : Text) → (p ∈ (codes "b" ∷ codes "b" ∷ [])) ↔ Deviates glob git (allow []) head.0 wip p)
commit-deviations_example =
    commit-deviations glob git (allow []) head wip head head (codes "b" ∷ codes "b" ∷ [])
      commit_reports
