-- ===== src/Workspace/Records/Closing.antt =====
-- What opening and closing a gate change among the records (internal/workspace/records.go).
use masuda.Common.{
  ℕ, ◌≤◌, ◌<◌, ◌≡◌, ◌≢◌, refl, sym, ap, subst, ◌∙◌, ◌⊎◌, inl, inr, ◌↔◌, List, [], Option, none,
  some, Bool, true, false, arith, ◌∈◌, some_pair, Bool-cases, Option-cases, Text, same, same_iff,
}
use masuda.Config.Names.{valid_occurrence}
use masuda.Workspace.Records.{
  GateRecord, gates, same_file, write_file, next_seq, add_gate, latest_gate, supersede_gate,
  undecided, outcome_superseded,
}
use masuda.Workspace.Records.Order.{mem-gates}
use masuda.Workspace.Records.Latest.{lt-next_seq, IsLast, latest_gate-IsLast}
use masuda.Workspace.Records.Files.{
  UniqueFiles, mem-write_file, write_file-other, write_file-self, write_file-keeps,
  write_file-UniqueFiles, unique_file,
}

-- The latest gate after a write: a record that no record of its occurrence exceeds and whose name is
-- its own is found.
latest_gate-write_file :
    (occ : Text) (g : GateRecord) (dir : List GateRecord)
    → UniqueFiles dir
    → g.occurrence ≡ occ
    → ((h : GateRecord) → h ∈ dir → h.occurrence ≡ occ → h.seq ≤ g.seq)
    → latest_gate occ (write_file g dir) ≡ some g
latest_gate-write_file occ g dir u e top = go (latest_gate occ dir') refl
  where
    dir' : List GateRecord
    dir' = write_file g dir

    is_g :
        (f : GateRecord)
        → (f ≡ g) ⊎ ((f ∈ dir) × (same_file f g ≡ false))
        → f.occurrence ≡ occ
        → g.seq ≤ f.seq
        → f ≡ g
    is_g f (inl k) n le = k
    is_g f (inr (m, other)) n le = absurd (clash (top f m n) (ap (same f.occurrence) e))
      where
        clash : f.seq ≤ g.seq → same f.occurrence g.occurrence ≡ same f.occurrence occ → ⊥
        clash ge s = ground (arith, same_iff f.occurrence occ)

    go : (r : Option GateRecord) → latest_gate occ dir' ≡ r → latest_gate occ dir' ≡ some g
    go none k =
        absurd (subst (IsLast occ dir') k (latest_gate-IsLast occ dir') g (write_file-self g dir) e)
    go (some f) k =
        let l = subst (IsLast occ dir') k (latest_gate-IsLast occ dir') in
        k ∙ ap some (is_g f (write_file-other g f dir u l.0) l.1 (l.2 g (write_file-self g dir) e))

add_gate-some :
    (g : GateRecord) (dir : List GateRecord) {n : GateRecord} {dir' : List GateRecord}
    → add_gate g dir ≡ some (n, dir')
    → (n ≡ record g { seq = next_seq g.occurrence 1 (gates dir) }) × (dir' ≡ write_file n dir)
unfolding add_gate
add_gate-some g dir h = elim (Bool-cases (valid_occurrence g.occurrence)) [
  | inl t ↦
      let (e, k) = some_pair (rw (t, add_gate) at h) in
      (sym e, sym k ∙ ap (λ m. write_file m dir) e)
  | inr t ↦ cc (rw (t, add_gate) at h)
]

-- A gate that is opened gets a number of its own: it becomes the latest gate of its occurrence, and
-- the directory holds exactly the records that it held and the new one.
pub add_gate-opens :
    (g : GateRecord) (dir : List GateRecord) (n : GateRecord) (dir' : List GateRecord)
    → UniqueFiles dir
    → add_gate g dir ≡ some (n, dir')
    → (latest_gate g.occurrence dir' ≡ some n)
      × ((x : GateRecord) → (x ∈ dir') ↔ ((x ≡ n) ⊎ (x ∈ dir)))
      × UniqueFiles dir'
add_gate-opens g dir n dir' u h = (
  subst (λ d. latest_gate g.occurrence d ≡ some n) (sym wrote)
      (latest_gate-write_file g.occurrence n dir u occ (λ x m e. omega (arith, above x m e))),
  λ x. (
    λ m. mem-write_file n x dir (subst (λ d. x ∈ d) wrote m),
    λ k.
        subst (λ d. x ∈ d) (sym wrote)
          (elim k [
            | inl e ↦ rw e (write_file-self n dir)
            | inr m ↦ write_file-keeps n x dir (new x m) m
          ]),
  ),
  subst UniqueFiles (sym wrote) (write_file-UniqueFiles n dir u),
)
  where
    made : n ≡ record g { seq = next_seq g.occurrence 1 (gates dir) }
    made = (add_gate-some g dir h).0

    wrote : dir' ≡ write_file n dir
    wrote = (add_gate-some g dir h).1

    occ : n.occurrence ≡ g.occurrence
    occ = ap (λ r. r.occurrence) made

    above : (x : GateRecord) → x ∈ dir → x.occurrence ≡ g.occurrence → x.seq < n.seq
    above x m e = omega (
      arith,
      ap (λ r. r.seq) made,
      lt-next_seq g.occurrence 1 (gates dir) x ((mem-gates x dir).1 m) e,
    )

    new : (x : GateRecord) → x ∈ dir → same_file x n ≡ false
    new x m = ground (arith, same_iff x.occurrence n.occurrence, above x m, occ)

-- What `SupersedeGate` leaves, from the directory it finds.
pub record Closed (occ : Text) (dir : List GateRecord) (r : Bool × List GateRecord) : Type 0 where
  pub unique : UniqueFiles r.1
  pub kept : (x : GateRecord) → x ∈ dir → x.decision ≢ none → x ∈ r.1
  pub decided : (g : GateRecord) → latest_gate occ r.1 ≡ some g → g.decision ≢ none
  pub unchanged : r.0 ≡ false → r.1 ≡ dir

close_gate : Text → ℕ → GateRecord → GateRecord
close_gate comment at g = record g {
  decision = some (record {
    outcome = outcome_superseded;
    comment = comment;
    target_hash = [];
    approved_files = [];
    decided_at = at;
  });
}

left_alone :
    (occ : Text) (dir : List GateRecord)
    → UniqueFiles dir
    → ((g : GateRecord) → latest_gate occ dir ≡ some g → g.decision ≢ none)
    → Closed occ dir (false, dir)
left_alone occ dir u d = record {
  unique = u;
  kept = λ x m n. m;
  decided = d;
  unchanged = λ e. refl;
}

Closed-one :
    (occ comment : Text) (at : ℕ) (dir : List GateRecord) (g : GateRecord)
    → UniqueFiles dir
    → latest_gate occ dir ≡ some g
    → g.decision ≡ none
    → Closed occ dir (true, write_file (close_gate comment at g) dir)
unfolding close_gate
Closed-one occ comment at dir g u e open_gate = record {
  unique = write_file-UniqueFiles closed dir u;
  kept = λ x m n. write_file-keeps closed x dir (other x m n) m;
  decided = λ f k no_decision. cc (k, latest_closed, no_decision);
  unchanged = λ t. cc;
}
  where
    closed : GateRecord
    closed = close_gate comment at g

    is_last : IsLast occ dir (some g)
    is_last = subst (IsLast occ dir) e (latest_gate-IsLast occ dir)

    latest_closed : latest_gate occ (write_file closed dir) ≡ some closed
    latest_closed = latest_gate-write_file occ closed dir u is_last.1 is_last.2

    other : (x : GateRecord) → x ∈ dir → x.decision ≢ none → same_file x closed ≡ false
    other x m n = elim (Bool-cases (same_file x g)) [
      | inr t ↦ t
      | inl t ↦ absurd (n (ap (λ r. r.decision) (unique_file dir x g u m is_last.0 t) ∙ open_gate))
    ]

undecided_iff : (g : GateRecord) → (undecided g ≡ true) ↔ (g.decision ≡ none)
unfolding undecided
undecided_iff g = ground arith

-- Closing the latest gate of an occurrence writes over no decision, whoever made it: afterwards the
-- latest gate of the occurrence, if there is one, is decided, every decided record is still there,
-- the names stay unique, and where nothing was closed the directory is as it was.
pub supersede_gate-Closed :
    (occ comment : Text) (at : ℕ) (dir : List GateRecord)
    → UniqueFiles dir
    → Closed occ dir (supersede_gate occ comment at dir)
unfolding supersede_gate close_gate
supersede_gate-Closed occ comment at dir u = elim (Option-cases (latest_gate occ dir)) [
  | inl e ↦ rw (e, supersede_gate) (left_alone occ dir u (λ g k. cc (e, k)))
  | inr (g, e) ↦ elim (Bool-cases (undecided g)) [
    | inl t ↦
        rw (e, t, supersede_gate) (Closed-one occ comment at dir g u e ((undecided_iff g).0 t))
    | inr t ↦
        rw (e, t, supersede_gate)
          (left_alone occ dir u (λ f k d. cc (e, k, t, (undecided_iff f).1 d)))
  ]
]
