-- ===== src/Runner/Data/Paths.antt =====
-- What is read back of the data of a run (internal/runner/runner.go).
use masuda.Common.{
  ◌≡◌, ◌≢◌, refl, sym, ap, subst, ◌∙◌, inl, inr, arith, [], ◌∷◌, ◌++◌, some, Bool, true, false, not,
  Bool-cases, Text, same, same_iff, same_refl, lookup, insert, lookup-insert, if◌then◌else◌,
}
use masuda.Common.{Result, ok, err, ◌>>=◌, refuse_if, >>=-ok, refuse_if-ok, not-false, ok_inj}
use masuda.Common.Trim.{last_slash}
use masuda.Config.Names.{valid_data_name, valid_data_name-slash, valid_occurrence, named}
use masuda.Runner.Data.{
  DataError, bad_data_name, not_written, DataRef, Files, check_occ, run_inputs_dir, dir_of_ref,
  data_path, put_data, get_data, found,
}

-- An occurrence does not begin with an underscore, so that its directory is not that of the run.
occurrence-run : (occ : Text) → valid_occurrence occ ≡ true → occ ≢ run_inputs_dir
unfolding valid_occurrence named
occurrence-run [] h e = cc
occurrence-run (c ∷ occ) h e = let first : c ≡ b'_' = cc in ground (arith, h, first)

dir_of_ref-inj : (a b : Text) {d : Text} → dir_of_ref a ≡ ok d → dir_of_ref b ≡ ok d → a ≡ b
unfolding dir_of_ref check_occ
dir_of_ref-inj [] [] h k = refl
dir_of_ref-inj [] (y ∷ b) {d} h k = elim (Bool-cases (check_occ (y ∷ b))) [
  | inl e ↦
      absurd (occurrence-run (y ∷ b) (ground (arith, e)) (ok_inj (rw e at k) ∙ sym (ok_inj h)))
  | inr e ↦ absurd (cc (rw e at k))
]
dir_of_ref-inj (x ∷ a) [] h k = elim (Bool-cases (check_occ (x ∷ a))) [
  | inl e ↦
      absurd (occurrence-run (x ∷ a) (ground (arith, e)) (ok_inj (rw e at h) ∙ sym (ok_inj k)))
  | inr e ↦ absurd (cc (rw e at h))
]
dir_of_ref-inj (x ∷ a) (y ∷ b) h k = elim (Bool-cases (check_occ (x ∷ a))) [
  | inr e ↦ absurd (cc (rw e at h))
  | inl e ↦ elim (Bool-cases (check_occ (y ∷ b))) [
    | inr f ↦ absurd (cc (rw f at k))
    | inl f ↦ ok_inj (rw e at h) ∙ sym (ok_inj (rw f at k))
  ]
]

path-ok :
    (ref : DataRef) {p : Text}
    → data_path ref ≡ ok p
    → (valid_data_name ref.name ≡ true)
      × ((dir : Text) × (dir_of_ref ref.occurrence ≡ ok dir) × (dir ++ b'/' ∷ ref.name ≡ p))
unfolding data_path
path-ok ref h =
    let (_, e1, h1) = >>=-ok (refuse_if (not (valid_data_name ref.name)) bad_data_name) _ h in
    let (dir, e2, h2) = >>=-ok (dir_of_ref ref.occurrence) _ h1 in
    (not-false _ (refuse_if-ok _ _ e1), (dir, e2, ok_inj h2))

-- Two references of one path are the same.
data_path-inj : (a b : DataRef) {p : Text} → data_path a ≡ ok p → data_path b ≡ ok p → a ≡ b
data_path-inj a b h k =
    let (va, (da, ea, pa)) = path-ok a h in
    let (vb, (db, eb, pb)) = path-ok b k in
    let (dirs, names) =
      last_slash da db a.name b.name (valid_data_name-slash a.name va)
        (valid_data_name-slash b.name vb) (pa ∙ sym pb) in
    let occ = dir_of_ref-inj a.occurrence b.occurrence ea (eb ∙ ap ok (sym dirs)) in cc

get_data-insert :
    (ref : DataRef) (p content : Text) (files : Files)
    → (data_path ref ≢ ok p)
    → get_data ref (insert p content files) ≡ get_data ref files
unfolding get_data
get_data-insert ref p content files h = at (data_path ref) h
  where
    other : (q : Text) → ◌≢◌ {A = Result DataError Text} (ok q) (ok p) → same p q ≡ false
    other q n = elim (Bool-cases (same p q)) [
      | inl e ↦ absurd (n (ap ok (sym ((same_iff p q).0 e))))
      | inr e ↦ e
    ]

    at :
        (r : Result DataError Text)
        → r ≢ ok p
        → (r >>= λ q. found (lookup q (insert p content files)))
          ≡ (r >>= λ q. found (lookup q files))
    at (err e) n = refl
    at (ok q) n = ap found (
        lookup-insert p q content files
        ∙ ap (λ b. if b then some content else lookup q files) (other q n))

-- What reads give after data was put.
pub record IsPut (ref : DataRef) (content : Text) (before after : Files) : Type 0 where
  pub read_back : get_data ref after ≡ ok content
  pub others_kept : (other : DataRef) → other ≢ ref → get_data other after ≡ get_data other before

-- Data that was put is read back, and no other data changes: no other name's, no other occurrence's,
-- and not the inputs of the run, whose directory is not that of an occurrence.
pub put_data-IsPut :
    (written : Bool) (ref : DataRef) (content : Text) (files after : Files)
    → put_data written ref content files ≡ ok after
    → IsPut ref content files after
unfolding put_data get_data found
put_data-IsPut written ref content files after h =
    let (p, e1, h1) = >>=-ok (data_path ref) _ h in
    let (_, e2, h2) = >>=-ok (refuse_if (not written) not_written) _ h1 in
    subst (IsPut ref content files) (ok_inj h2) (record {
      read_back = rw (e1, lookup-insert p p content files, same_refl p) refl;
      others_kept =
          λ other n. get_data-insert other p content files λ k. n (data_path-inj other ref k e1);
    })
