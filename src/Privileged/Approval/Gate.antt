-- ===== src/Privileged/Approval/Gate.antt =====
-- What has to hold before a privileged command runs (`Resolve`, internal/privileged/privileged.go).
use masuda.Common.{
  ◌≡◌, refl, sym, ap, subst, ◌∙◌, ◌↔◌, ◌⊎◌, inl, inr, List, [], ◌∷◌, Option, none, some, Bool,
  arith, ◌∈◌, Text, same_iff, same_refl, lookup, append_new, append_new_sound, append_new_complete,
}
use masuda.Common.{Result, ok, or_err, >>=-ok, or_err-ok}
use masuda.Config.Decl.{PrivilegedCommandDecl, Settings, LocalSettings}
use masuda.Config.Egress.{allowed_egress}
use masuda.Config.Egress.Laws.{allowed_egress_iff}
use masuda.Config.Hash.{decl_hash}
use masuda.Privileged.Approval.{
  ResolveError, Resolved, Problem, approval_state, undeclared, hash_failed, validate, checked,
  when_approved, resolve,
}

checked-ok :
    (d : PrivilegedCommandDecl) (ps : List Problem) {d' : PrivilegedCommandDecl}
    → checked d ps ≡ ok d'
    → (ps ≡ []) × (d ≡ d')
checked-ok d [] h = (refl, cc)
checked-ok d (p ∷ ps) h = cc

when_approved-ok :
    (hash : Text) (recorded : Option Text) {h' : Text}
    → when_approved hash (approval_state hash recorded) ≡ ok h'
    → (recorded ≡ some h') × (hash ≡ h')
unfolding approval_state
when_approved-ok hash none h = cc
when_approved-ok hash (some r) h = ground (arith, same_iff r hash)

module _ (path_match : Text → Text → Option Bool)
    (digest : PrivilegedCommandDecl → Text → Option Text) (image_exists : Text → Bool) where
  -- A resolved command against the declarations, the approvals and the hosts that it may reach.
  pub record IsApproved (cfg : Settings) (local : LocalSettings) (name : Text) (r : Resolved)
      : Type 0 where
    pub named : r.name ≡ name
    pub declared : lookup name cfg.privileged_commands ≡ some r.decl
    pub well_formed : validate path_match digest image_exists r.decl ≡ []
    pub prepared : r.prepare ≡ cfg.prepare
    pub hashed : decl_hash digest r.decl cfg.prepare ≡ some r.hash
    pub recorded : lookup name local.privileged_commands_approved ≡ some r.hash
    pub hosts :
        (h : Text)
        → (h ∈ r.egress) ↔ (((h ∈ cfg.egress) × (h ∈ local.egress_approved)) ⊎ (h ∈ r.decl.egress))

  egress_iff :
      (cfg : Settings) (local : LocalSettings) (own : List Text) (h : Text)
      → (h ∈ append_new (allowed_egress cfg local) own)
        ↔ (((h ∈ cfg.egress) × (h ∈ local.egress_approved)) ⊎ (h ∈ own))
  egress_iff cfg local own h = (
    λ m. elim (append_new_sound (allowed_egress cfg local) own h m) [
      | inl k ↦ inl (((allowed_egress_iff cfg local).0 h).0 k)
      | inr k ↦ inr k
    ],
    λ k. elim k [
      | inl both ↦
          append_new_complete (allowed_egress cfg local) own h
            (inl (((allowed_egress_iff cfg local).0 h).1 both))
      | inr m ↦ append_new_complete (allowed_egress cfg local) own h (inr m)
    ],
  )

  -- `Resolve` hands back a command only if it is declared and well-formed and the user's record
  -- approves the very hash of that declaration and preparation; it may then reach exactly the hosts
  -- that are declared and approved, and its own.
  pub resolve-IsApproved :
      (cfg : Settings) (local : LocalSettings) (name : Text) (r : Resolved)
      → resolve path_match digest image_exists cfg local name ≡ ok r
      → IsApproved cfg local name r
  unfolding resolve
  resolve-IsApproved cfg local name r h =
      let (found, e1, h1) = >>=-ok (or_err undeclared (lookup name cfg.privileged_commands)) _ h in
      let (decl, e2, h2) = >>=-ok (checked found (problems found)) _ h1 in
      let (computed, e3, h3) =
        >>=-ok (or_err hash_failed (decl_hash digest decl cfg.prepare)) _ h2 in
      let (hash, e4, h4) =
        >>=-ok (when_approved computed (approval_state computed record_of)) _ h3 in
      subst (IsApproved cfg local name) (built hash decl h4) (
        conditions found decl computed hash (or_err-ok _ _ e1)
          (checked-ok found (problems found) e2) (or_err-ok _ _ e3)
          (when_approved-ok computed record_of e4))
    where
      problems : PrivilegedCommandDecl → List Problem
      problems = validate path_match digest image_exists

      record_of : Option Text
      record_of = lookup name local.privileged_commands_approved

      result : Text → PrivilegedCommandDecl → Resolved
      result hash decl = record {
        name = name;
        decl = decl;
        prepare = cfg.prepare;
        hash = hash;
        egress = append_new (allowed_egress cfg local) decl.egress;
      }

      built :
          (hash : Text) (decl : PrivilegedCommandDecl)
          → ◌≡◌ {A = Result ResolveError Resolved} (ok (result hash decl)) (ok r)
          → result hash decl ≡ r
      built hash decl e = cc

      conditions :
          (found decl : PrivilegedCommandDecl) (computed hash : Text)
          → lookup name cfg.privileged_commands ≡ some found
          → (problems found ≡ []) × (found ≡ decl)
          → decl_hash digest decl cfg.prepare ≡ some computed
          → (record_of ≡ some hash) × (computed ≡ hash)
          → IsApproved cfg local name (result hash decl)
      conditions found decl computed hash e1 e2 e3 e4 = record {
        named = refl;
        declared = e1 ∙ ap some e2.1;
        well_formed = ap problems (sym e2.1) ∙ e2.0;
        prepared = refl;
        hashed = e3 ∙ ap some e4.1;
        recorded = e4.0;
        hosts = egress_iff cfg local decl.egress;
      }

  -- `Resolve` hands a command back wherever it is declared, well-formed and approved by its hash.
  pub resolve_total :
      (cfg : Settings) (local : LocalSettings) (name : Text) (decl : PrivilegedCommandDecl)
      (hash : Text)
      → lookup name cfg.privileged_commands ≡ some decl
      → validate path_match digest image_exists decl ≡ []
      → decl_hash digest decl cfg.prepare ≡ some hash
      → lookup name local.privileged_commands_approved ≡ some hash
      → (r : Resolved) × (resolve path_match digest image_exists cfg local name ≡ ok r)
        × (r.decl ≡ decl)
  unfolding resolve approval_state
  resolve_total cfg local name decl hash e1 e2 e3 e4 = (
    record {
      name = name;
      decl = decl;
      prepare = cfg.prepare;
      hash = hash;
      egress = append_new (allowed_egress cfg local) decl.egress;
    },
    rw (e1, e2, e3, e4, same_refl hash),
    refl,
  )
