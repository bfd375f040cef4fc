-- ===== src/Config/Egress/Laws.antt =====
-- The hosts that `AllowedEgress` and `HostAllowed` (internal/config/config.go) let through.
use masuda.Common.{
  ℕ, ◌<◌, ◌≡◌, refl, sym, ap, subst, ◌∙◌, ◌≢◌, ◌↔◌, ◌⊎◌, inl, inr, List, [], ◌∷◌, ◌++◌, some, true,
  false, ◌&&◌, not, if◌then◌else◌, arith, length, length-append, ◌∈◌, Distinct, mem_last,
  mem-append_left, mem-append_right, Distinct-last, Bool-cases, Option-cases, Text, codes, same,
  same_iff, same_refl, contains, contains_iff, cut_prefix, has_prefix, has_suffix, cut_prefix_sound,
  cut_prefix-append, has_prefix_sound, has_prefix-append, has_suffix_sound, has_suffix-append,
}
use masuda.Config.Decl.{Settings, LocalSettings}
use masuda.Config.Egress.{approve_hosts, allowed_egress, under_wildcard, one_allows, host_allowed}

-- One round of the loop: a host is put out exactly if it was, or is approved now.
abbrev next_out : List Text → List Text → Text → List Text
next_out approved out h = if contains approved h && not (contains out h) then out ++ h ∷ [] else out

-- What a round adds, by the two tests.
next_out_cases :
    (P : List Text → Type 0) (approved out : List Text) (h : Text)
    → (h ∈ approved → ¬ (h ∈ out) → P (out ++ h ∷ []))
    → (h ∈ out ⊎ ¬ (h ∈ approved) → P out)
    → P (next_out approved out h)
next_out_cases P approved out h added left = elim (Bool-cases (contains approved h)) [
  | inr e ↦ rw e (left (inr (λ m. cc ((contains_iff approved h).1 m))))
  | inl e ↦ elim (Bool-cases (contains out h)) [
    | inl k ↦ rw (e, k) (left (inl ((contains_iff out h).0 k)))
    | inr k ↦ rw (e, k) (added ((contains_iff approved h).0 e) (λ m. cc ((contains_iff out h).1 m)))
  ]
]

next_out_sound :
    (approved out : List Text) (h x : Text)
    → x ∈ next_out approved out h
    → (x ∈ out) ⊎ ((x ≡ h) × (x ∈ approved))
next_out_sound approved out h x =
    next_out_cases (λ o. x ∈ o → (x ∈ out) ⊎ ((x ≡ h) × (x ∈ approved))) approved out h
      (λ a n m. elim (mem_last x h out m) [ inl k ↦ inl k | inr e ↦ inr (e, rw e a) ])
      (λ _ m. inl m)

next_out_complete :
    (approved out : List Text) (h x : Text)
    → (x ∈ out) ⊎ ((x ≡ h) × (x ∈ approved))
    → x ∈ next_out approved out h
next_out_complete approved out h x (inl m) =
    next_out_cases (λ o. x ∈ o) approved out h (λ _ _. mem-append_left x out (h ∷ []) m) (λ _. m)
next_out_complete approved out h x (inr (e, a)) =
    next_out_cases (λ o. x ∈ o) approved out h (λ _ _. mem-append_right x out (h ∷ []) (inl e))
      (λ k. elim k [ inl m ↦ rw e m | inr n ↦ absurd (n (subst (λ t. t ∈ approved) e a)) ])

approve_hosts_sound :
    (approved out hs : List Text) (x : Text)
    → x ∈ approve_hosts approved out hs
    → (x ∈ out) ⊎ ((x ∈ hs) × (x ∈ approved))
unfolding approve_hosts
approve_hosts_sound approved out [] x m = inl m
approve_hosts_sound approved out (h ∷ hs) x m =
    elim (approve_hosts_sound approved (next_out approved out h) hs x m) [
      | inr (k, a) ↦ inr (inr k, a)
      | inl k ↦ elim (next_out_sound approved out h x k) [
        | inl old ↦ inl old
        | inr (e, a) ↦ inr (inl e, a)
      ]
    ]

approve_hosts_complete :
    (approved out hs : List Text) (x : Text)
    → (x ∈ out) ⊎ ((x ∈ hs) × (x ∈ approved))
    → x ∈ approve_hosts approved out hs
unfolding approve_hosts
approve_hosts_complete approved out [] x (inl m) = m
approve_hosts_complete approved out [] x (inr (m, _)) = absurd m
approve_hosts_complete approved out (h ∷ hs) x (inl m) =
    approve_hosts_complete approved (next_out approved out h) hs x
      (inl (next_out_complete approved out h x (inl m)))
approve_hosts_complete approved out (h ∷ hs) x (inr (inl e, a)) =
    approve_hosts_complete approved (next_out approved out h) hs x
      (inl (next_out_complete approved out h x (inr (e, a))))
approve_hosts_complete approved out (h ∷ hs) x (inr (inr m, a)) =
    approve_hosts_complete approved (next_out approved out h) hs x (inr (m, a))

approve_hosts-Distinct :
    (approved out hs : List Text) → Distinct out → Distinct (approve_hosts approved out hs)
unfolding approve_hosts
approve_hosts-Distinct approved out [] d = d
approve_hosts-Distinct approved out (h ∷ hs) d =
    approve_hosts-Distinct approved (next_out approved out h) hs
      (next_out_cases Distinct approved out h (λ _ n. Distinct-last h out d n) (λ _. d))

-- `AllowedEgress` returns exactly the hosts that the repository declares and the user has approved,
-- each once.
pub allowed_egress_iff :
    (s : Settings) (l : LocalSettings)
    → ((h : Text) → (h ∈ allowed_egress s l) ↔ ((h ∈ s.egress) × (h ∈ l.egress_approved)))
      × Distinct (allowed_egress s l)
unfolding allowed_egress
allowed_egress_iff s l = (
  λ h. (
    λ m. elim (approve_hosts_sound l.egress_approved [] s.egress h m) [
      | inl k ↦ absurd k
      | inr both ↦ both
    ],
    λ both. approve_hosts_complete l.egress_approved [] s.egress h (inr both),
  ),
  approve_hosts-Distinct l.egress_approved [] s.egress tt,
)

-- An entry allows the host that it names, and `*.d` every host that ends in `.d` behind at least one
-- more character and does not itself begin with `*`.
abbrev pub Allows : Text → Text → Type 0
Allows a host =
    (a ≡ host)
    ⊎ ((c : ℕ) × (front : Text) × (domain : Text) × (a ≡ b'*' ∷ b'.' ∷ domain)
        × (c ≢ b'*')
        × (host ≡ (c ∷ front) ++ b'.' ∷ domain))

under_wildcard_parts :
    (suffix host : Text)
    → under_wildcard suffix host ≡ true
    → (has_prefix suffix (codes ".") ≡ true)
      × (has_prefix host (codes "*") ≡ false)
      × (has_suffix host suffix ≡ true)
      × (length suffix < length host)
unfolding under_wildcard
under_wildcard_parts suffix host h = ground arith

wildcard_sound :
    (a suffix host : Text)
    → a ≡ codes "*" ++ suffix
    → under_wildcard suffix host ≡ true
    → Allows a host
wildcard_sound a suffix host e h = inr (front_of r refl)
  where
    parts :
        (has_prefix suffix (codes ".") ≡ true)
        × (has_prefix host (codes "*") ≡ false)
        × (has_suffix host suffix ≡ true)
        × (length suffix < length host)
    parts = under_wildcard_parts suffix host h

    domain : Text
    domain = (has_prefix_sound suffix (codes ".") parts.0).0

    dot : suffix ≡ b'.' ∷ domain
    dot = (has_prefix_sound suffix (codes ".") parts.0).1

    r : Text
    r = (has_suffix_sound host suffix parts.2).0

    ends : host ≡ r ++ suffix
    ends = (has_suffix_sound host suffix parts.2).1

    front_of :
        (t : Text)
        → r ≡ t
        → (c : ℕ) × (front : Text) × (domain : Text) × (a ≡ b'*' ∷ b'.' ∷ domain)
          × (c ≢ b'*')
          × (host ≡ (c ∷ front) ++ b'.' ∷ domain)
    front_of [] k =
        absurd (omega (arith, ap length ends, ap (λ t. length (t ++ suffix)) k, parts.3))
    front_of (c ∷ front) k = (
      c,
      front,
      domain,
      e ∙ ap (λ t. b'*' ∷ t) dot,
      (λ star. cc (has_prefix-append (codes "*") (front ++ suffix), parts.1, whole)),
      whole ∙ ap (λ t. (c ∷ front) ++ t) dot,
    )
      where
        whole : host ≡ (c ∷ front) ++ suffix
        whole = ends ∙ ap (λ t. t ++ suffix) k

one_allows_sound : (a host : Text) → one_allows a host ≡ true → Allows a host
unfolding one_allows
one_allows_sound a host h = elim (Bool-cases (same a host)) [
  | inl e ↦ inl ((same_iff a host).0 e)
  | inr e ↦ elim (Option-cases (cut_prefix a (codes "*"))) [
    | inl k ↦ cc (rw (e, k) at h)
    | inr (suffix, k) ↦
        wildcard_sound a suffix host (cut_prefix_sound a (codes "*") suffix k) (rw (e, k) at h)
  ]
]

cut_star : (a suffix : Text) → a ≡ b'*' ∷ suffix → cut_prefix a (codes "*") ≡ some suffix
cut_star a suffix e = rw e (cut_prefix-append (codes "*") suffix)

not_starred : (c : ℕ) (s : Text) → c ≢ b'*' → has_prefix (c ∷ s) (codes "*") ≡ false
unfolding has_prefix cut_prefix
not_starred c s lit = ground arith

under_wildcard_complete :
    (c : ℕ) (front domain : Text)
    → c ≢ b'*'
    → under_wildcard (b'.' ∷ domain) (c ∷ (front ++ b'.' ∷ domain)) ≡ true
unfolding under_wildcard
under_wildcard_complete c front domain lit = ground (
  arith,
  has_prefix-append (codes ".") domain,
  not_starred c (front ++ b'.' ∷ domain) lit,
  has_suffix-append (c ∷ front) (b'.' ∷ domain),
  length-append front (b'.' ∷ domain),
)

one_allows_complete : (a host : Text) → Allows a host → one_allows a host ≡ true
unfolding one_allows
one_allows_complete a host (inl e) = rw (e, same_refl host)
one_allows_complete a host (inr (c, front, domain, e, lit, k)) = elim (Bool-cases (same a host)) [
  | inl s ↦ rw s
  | inr s ↦
      rw (s, cut_star a (b'.' ∷ domain) e)
        (subst (λ t. under_wildcard (b'.' ∷ domain) t ≡ true) (sym k)
          (under_wildcard_complete c front domain lit))
]

host_allowed_sound :
    (allowed : List Text) (host : Text)
    → host_allowed allowed host ≡ true
    → (a : Text) × (a ∈ allowed) × Allows a host
unfolding host_allowed
host_allowed_sound [] host h = cc
host_allowed_sound (a ∷ rest) host h = elim (Bool-cases (one_allows a host)) [
  | inl e ↦ (a, inl refl, one_allows_sound a host e)
  | inr e ↦ let (b, m, k) = host_allowed_sound rest host (rw e at h) in (b, inr m, k)
]

host_allowed_complete :
    (allowed : List Text) (host a : Text)
    → a ∈ allowed
    → Allows a host
    → host_allowed allowed host ≡ true
unfolding host_allowed
host_allowed_complete [] host a m k = absurd m
host_allowed_complete (b ∷ rest) host a (inl e) k =
    rw (one_allows_complete b host (subst (λ t. Allows t host) e k))
host_allowed_complete (b ∷ rest) host a (inr m) k =
    ground (arith, host_allowed_complete rest host a m k)

-- `HostAllowed` answers true exactly where some entry of the list allows the host.
host_allowed_iff :
    (allowed : List Text) (host : Text)
    → (host_allowed allowed host ≡ true) ↔ ((a : Text) × (a ∈ allowed) × Allows a host)
host_allowed_iff allowed host =
    (host_allowed_sound allowed host, λ (a, m, k). host_allowed_complete allowed host a m k)
