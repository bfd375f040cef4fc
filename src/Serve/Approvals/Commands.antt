-- ===== src/Serve/Approvals/Commands.antt =====
-- What approving a privileged command lets run (serve/config.go, `ApprovePrivilegedCommand`).
use masuda.Common.{
  ◌≡◌, ◌≢◌, refl, sym, ap, subst, ◌∙◌, inl, inr, List, [], ◌∷◌, Option, none, some, Bool, true,
  false, if◌then◌else◌, Text, same, lookup, insert, lookup-insert, same_iff, same_refl, differs,
  Bool-cases, ◌∈◌,
}
use masuda.Common.{ok, err, or_err, >>=-ok, or_err-ok, ok_inj}
use masuda.Config.Decl.{PrivilegedCommandDecl, Settings, LocalSettings}
use masuda.Config.Egress.{allowed_egress}
use masuda.Config.Hash.{decl_hash}
use masuda.Config.Secrets.{sorted_commands}
use masuda.Config.Secrets.Union.{mem-sorted_commands}
use masuda.Privileged.Approval.{approval_state, Problem, validate, Resolved, resolve}
use masuda.Privileged.Approval.Gate.{resolve_total}
use masuda.Serve.Result.{invalid_argument, internal, Reply}
use masuda.Serve.Approvals.{
  CommandEntry, is_approved, command_entry, no_problem, entries_of, privileged_entries,
  record_approval, listed, approve_command,
}
use masuda.Serve.Approvals.Hosts.{saved-ok}

no_problem-ok : (ps : List Problem) {u : Unit {0}} → no_problem ps ≡ ok u → ps ≡ []
unfolding no_problem
no_problem-ok [] h = refl
no_problem-ok (p ∷ ps) h = cc

approval_state-approved :
    (hash : Text) (recorded : Option Text)
    → is_approved (approval_state hash recorded) ≡ true
    → recorded ≡ some hash
unfolding is_approved approval_state
approval_state-approved hash none h = cc
approval_state-approved hash (some r) h = elim (Bool-cases (same r hash)) [
  | inl e ↦ ap some ((same_iff r hash).0 e)
  | inr e ↦ absurd (cc (rw e at h))
]

module _ (path_match : Text → Text → Option Bool)
    (digest : PrivilegedCommandDecl → Text → Option Text) (image_exists : Text → Bool) where
  -- What the list shows as approved is recorded under the hash of a declaration of that name.
  abbrev pub IsShown : Settings → LocalSettings → CommandEntry → Type 0
  IsShown cfg local e =
      (d : PrivilegedCommandDecl) × (hash : Text) × ((e.name, d) ∈ cfg.privileged_commands)
      × (decl_hash digest d cfg.prepare ≡ some hash)
      × (lookup e.name local.privileged_commands_approved ≡ some hash)

  entries_of-IsShown :
      (cfg : Settings) (local : LocalSettings) (cs : List (Text × PrivilegedCommandDecl))
      (es : List CommandEntry)
      → ((c : Text × PrivilegedCommandDecl) → c ∈ cs → c ∈ cfg.privileged_commands)
      → entries_of path_match digest image_exists cfg.prepare local cs ≡ ok es
      → (e : CommandEntry) → e ∈ es
      → e.approved ≡ true
      → IsShown cfg local e
  unfolding entries_of command_entry
  entries_of-IsShown cfg local [] es sub h e m a =
      absurd (subst (λ (l : List CommandEntry). e ∈ l) (sym (ok_inj h)) m)
  entries_of-IsShown cfg local ((name, d) ∷ cs) es sub h e m a =
      let (hash, e1, h1) = >>=-ok (or_err internal (decl_hash digest d cfg.prepare)) _ h in
      let (rest, e2, h2) =
        >>=-ok (entries_of path_match digest image_exists cfg.prepare local cs) _ h1 in
      elim (subst (λ (l : List CommandEntry). e ∈ l) (sym (ok_inj h2)) m) [
        | inl q ↦ subst (IsShown cfg local) (sym q) (
          d,
          hash,
          sub (name, d) (inl refl),
          or_err-ok _ _ e1,
          approval_state-approved hash _ (sym (ap (λ (x : CommandEntry). x.approved) q) ∙ a),
        )
        | inr k ↦ entries_of-IsShown cfg local cs rest (λ c n. sub c (inr n)) e2 e k a
      ]

  record IsRecorded (cfg : Settings) (local : LocalSettings) (name : Text) (after : LocalSettings)
      : Type 0 where
    pub decl : PrivilegedCommandDecl
    pub hash : Text
    pub declared : lookup name cfg.privileged_commands ≡ some decl
    pub well_formed : validate path_match digest image_exists decl ≡ []
    pub hashed : decl_hash digest decl cfg.prepare ≡ some hash
    pub on_file :
        record local {
          privileged_commands_approved = insert name hash local.privileged_commands_approved;
        }
        ≡ after

  record_approval-IsRecorded :
      (saved : Bool) (cfg : Settings) (local : LocalSettings) (name : Text) {after : LocalSettings}
      → record_approval path_match digest image_exists saved cfg local name ≡ ok after
      → IsRecorded cfg local name after
  unfolding record_approval
  record_approval-IsRecorded saved cfg local name h =
      let (d, e1, h1) =
        >>=-ok (or_err invalid_argument (lookup name cfg.privileged_commands)) _ h in
      let (_, e2, h2) = >>=-ok (no_problem (validate path_match digest image_exists d)) _ h1 in
      let (hash, e3, h3) = >>=-ok (or_err internal (decl_hash digest d cfg.prepare)) _ h2 in
      record {
        decl = d;
        hash = hash;
        declared = or_err-ok _ _ e1;
        well_formed = no_problem-ok _ e2;
        hashed = or_err-ok _ _ e3;
        on_file = saved-ok saved _ h3;
      }

  resolve-others :
      (cfg : Settings) (local : LocalSettings) (name hash other : Text)
      → other ≢ name
      → resolve path_match digest image_exists cfg
          (record local {
            privileged_commands_approved = insert name hash local.privileged_commands_approved;
          })
          other
        ≡ resolve path_match digest image_exists cfg local other
  unfolding resolve allowed_egress
  resolve-others cfg local name hash other n =
      let apart : same name other ≡ false = differs name other (λ e. n (sym e)) in
      rw (lookup-insert name other hash local.privileged_commands_approved, apart) refl

  recorded-resolve :
      (cfg : Settings) (local : LocalSettings) (name : Text) (after : LocalSettings)
      → IsRecorded cfg local name after
      → (r : Resolved) × (resolve path_match digest image_exists cfg after name ≡ ok r)
  recorded-resolve cfg local name after k =
      let on_file =
        ap (λ (l : LocalSettings). lookup name l.privileged_commands_approved) (sym k.on_file)
        ∙ lookup-insert name name k.hash local.privileged_commands_approved
        ∙ ap
            (λ (b : Bool).
              if b then some k.hash else lookup name local.privileged_commands_approved)
            (same_refl name) in
      let (r, e, _) =
        resolve_total path_match digest image_exists cfg after name k.decl k.hash k.declared
          k.well_formed k.hashed on_file in
      (r, e)

  listed-ok :
      (cfg : Settings) (local after : LocalSettings) (es : List CommandEntry)
      (r : Reply LocalSettings)
      → listed path_match digest image_exists cfg local r ≡ (after, ok es)
      → (r ≡ ok after)
        × (entries_of path_match digest image_exists cfg.prepare after
              (sorted_commands cfg.privileged_commands)
            ≡ ok es)
  unfolding listed privileged_entries
  listed-ok cfg local after es (err c) h =
      cc (ap (λ (p : LocalSettings × Reply (List CommandEntry)). p.1) h)
  listed-ok cfg local after es (ok l) h =
      let at : l ≡ after = ap (λ (p : LocalSettings × Reply (List CommandEntry)). p.0) h in
      (
        ap ok at,
        subst
            (λ (x : LocalSettings).
              entries_of path_match digest image_exists cfg.prepare x
                (sorted_commands cfg.privileged_commands)
              ≡ ok es)
            at (ap (λ (p : LocalSettings × Reply (List CommandEntry)). p.1) h),
      )

  -- After an approval of a privileged command that succeeds the command resolves, and every other
  -- command resolves, or does not, as before. The list that is returned shows as approved only
  -- commands whose hash is on file for a declaration of that name.
  pub approve_command-resolve :
      (saved : Bool) (cfg : Settings) (local : LocalSettings) (name : Text) (after : LocalSettings)
      (es : List CommandEntry)
      → approve_command path_match digest image_exists saved cfg local name ≡ (after, ok es)
      → ((r : Resolved) × (resolve path_match digest image_exists cfg after name ≡ ok r))
        × ((other : Text)
            → other ≢ name
            → resolve path_match digest image_exists cfg after other
              ≡ resolve path_match digest image_exists cfg local other)
        × ((e : CommandEntry) → e ∈ es → e.approved ≡ true → IsShown cfg after e)
  unfolding approve_command
  approve_command-resolve saved cfg local name after es h =
      let (e, shown) = listed-ok cfg local after es _ h in
      let r = record_approval-IsRecorded saved cfg local name e in
      (
        recorded-resolve cfg local name after r,
        λ other n.
            ap (λ (l : LocalSettings). resolve path_match digest image_exists cfg l other)
              (sym r.on_file)
            ∙ resolve-others cfg local name r.hash other n,
        entries_of-IsShown cfg after (sorted_commands cfg.privileged_commands) es
            (mem-sorted_commands cfg.privileged_commands) shown,
      )
