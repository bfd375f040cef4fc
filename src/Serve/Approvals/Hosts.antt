-- ===== src/Serve/Approvals/Hosts.antt =====
-- What approving and rejecting hosts lets through (serve/config.go, `ApproveEgress` and `RejectEgress`).
use masuda.Common.{
  ◌≡◌, ◌≢◌, ◌↔◌, ◌⊎◌, refl, sym, ap, subst, inl, inr, arith, [], ◌∷◌, ◌++◌, Bool, true, false, ◌&&◌,
  not, Text, same, same_iff, contains, contains_iff, mem-keep, keep-mem, mem-append,
  mem-append_left, mem-append_right, ◌∈◌, differs,
}
use masuda.Common.{ok, refuse_if, >>=-ok, refuse_if-ok, not-false, ok_inj}
use masuda.Config.Decl.{Settings, LocalSettings}
use masuda.Config.Egress.{allowed_egress}
use masuda.Config.Egress.Laws.{allowed_egress_iff}
use masuda.Serve.Result.{invalid_argument}
use masuda.Serve.Approvals.{save_local, save_if, approve_egress, reject_egress}

pub saved-ok :
    (saved : Bool) (local : LocalSettings) {after : LocalSettings}
    → save_local saved local ≡ ok after
    → local ≡ after
unfolding save_local
saved-ok true local h = ok_inj h
saved-ok false local h = cc

save_if-ok :
    (b saved : Bool) (old local : LocalSettings) {after : LocalSettings}
    → save_if b saved old local ≡ ok after
    → ((b ≡ false) × (old ≡ after)) ⊎ ((b ≡ true) × (local ≡ after))
unfolding save_if
save_if-ok false saved old local h = inl (refl, ok_inj h)
save_if-ok true saved old local h = inr (refl, saved-ok saved local h)

abbrev Grown : LocalSettings → Text → Text → LocalSettings → Type 0
Grown local h x l = (x ∈ l.egress_approved) ↔ ((x ∈ local.egress_approved) ⊎ (x ≡ h))

abbrev Shrunk : LocalSettings → Text → Text → LocalSettings → Type 0
Shrunk local h x l = (x ∈ l.egress_approved) ↔ ((x ∈ local.egress_approved) × (x ≢ h))

-- The approvals of hosts before and after an approval of one.
approve-egress_approved :
    (saved : Bool) (cfg : Settings) (local : LocalSettings) (h : Text) {after : LocalSettings}
    → approve_egress saved cfg local h ≡ ok after
    → (h ∈ cfg.egress)
      × ((x : Text) → (x ∈ after.egress_approved) ↔ ((x ∈ local.egress_approved) ⊎ (x ≡ h)))
unfolding approve_egress
approve-egress_approved saved cfg local h e =
    let (_, e1, e2) = >>=-ok (refuse_if (not (contains cfg.egress h)) invalid_argument) _ e in
    (
      (contains_iff cfg.egress h).0 (not-false _ (refuse_if-ok _ _ e1)),
      λ x. elim (save_if-ok (not (contains local.egress_approved h)) saved local _ e2) [
        | inl (there, k) ↦ subst (Grown local h x) k (
          inl,
          λ s. elim s [
            | inl m ↦ m
            | inr q ↦
                subst (λ (y : Text). y ∈ local.egress_approved) (sym q)
                  ((contains_iff local.egress_approved h).0 (not-false _ there))
          ],
        )
        | inr (_, k) ↦ subst (Grown local h x) k (appended x)
      ],
    )
  where
    appended :
        (x : Text)
        → (x ∈ (local.egress_approved ++ h ∷ [])) ↔ ((x ∈ local.egress_approved) ⊎ (x ≡ h))
    appended x = (
      λ m. elim (mem-append x local.egress_approved (h ∷ []) m) [
        | inl k ↦ inl k
        | inr (inl q) ↦ inr q
        | inr (inr k) ↦ absurd k
      ],
      λ s. elim s [
        | inl m ↦ mem-append_left x local.egress_approved (h ∷ []) m
        | inr q ↦ mem-append_right x local.egress_approved (h ∷ []) (inl q)
      ],
    )

reject-egress_approved :
    (saved : Bool) (cfg : Settings) (local : LocalSettings) (h : Text) {after : LocalSettings}
    → reject_egress saved cfg local h ≡ ok after
    → (x : Text) → (x ∈ after.egress_approved) ↔ ((x ∈ local.egress_approved) × (x ≢ h))
unfolding reject_egress
reject-egress_approved saved cfg local h e x =
    let (_, _, e2) =
      >>=-ok
        (refuse_if (not (contains cfg.egress h) && not (contains local.egress_approved h))
          invalid_argument)
        _ e in
    elim (save_if-ok (contains local.egress_approved h) saved local _ e2) [
      | inl (n, k) ↦
          subst (Shrunk local h x) k (
            λ m. (m, λ q. absent n (subst (λ (y : Text). y ∈ local.egress_approved) q m)),
            λ s. s.0,
          )
      | inr (_, k) ↦ subst (Shrunk local h x) k (
        λ m.
            let (there, t) = mem-keep (λ y. not (same y h)) x local.egress_approved m in
            (there, λ q. clash q t),
        λ s. keep-mem (λ y. not (same y h)) x local.egress_approved s.0 (ap not (differs x h s.1)),
      )
    ]
  where
    absent : contains local.egress_approved h ≡ false → ¬ (h ∈ local.egress_approved)
    absent n m = cc ((contains_iff local.egress_approved h).1 m, n)

    clash : x ≡ h → not (same x h) ≡ true → ⊥
    clash q t = let s : same x h ≡ true = (same_iff x h).1 q in ground (arith, s, t)

-- An approval of a host that succeeds lets exactly that host through beside those before; a rejection
-- that succeeds afterwards, of that host or another, takes exactly that one away again.
pub egress_decided :
    (saved saved' : Bool) (cfg : Settings) (local after last : LocalSettings) (h h' : Text)
    → approve_egress saved cfg local h ≡ ok after
    → reject_egress saved' cfg after h' ≡ ok last
    → ((x : Text) → (x ∈ allowed_egress cfg after) ↔ ((x ∈ allowed_egress cfg local) ⊎ (x ≡ h)))
      × ((x : Text) → (x ∈ allowed_egress cfg last) ↔ ((x ∈ allowed_egress cfg after) × (x ≢ h')))
egress_decided saved saved' cfg local after last h h' e e' = (
  λ x.
      let (declared, grown) = approve-egress_approved saved cfg local h e in
      let (f, g) = grown x in
      let (a, b) = (allowed_egress_iff cfg after).0 x in
      let (c, d) = (allowed_egress_iff cfg local).0 x in
      (
        λ m. elim (f (a m).1) [ inl k ↦ inl (d ((a m).0, k)) | inr q ↦ inr q ],
        λ s. elim s [
          | inl m ↦ b ((c m).0, g (inl (c m).1))
          | inr q ↦ b (subst (λ (y : Text). y ∈ cfg.egress) (sym q) declared, g (inr q))
        ],
      ),
  λ x.
      let (f, g) = reject-egress_approved saved' cfg after h' e' x in
      let (a, b) = (allowed_egress_iff cfg last).0 x in
      let (c, d) = (allowed_egress_iff cfg after).0 x in
      (λ m. (d ((a m).0, (f (a m).1).0), (f (a m).1).1), λ s. b ((c s.0).0, g ((c s.0).1, s.1))),
)
