-- ===== src/Config/Secrets/Union.antt =====
-- What `PrivilegedSecrets` gathers (internal/config/config.go).
use masuda.Common.{
  ◌≡◌, sym, ◌∙◌, ◌↔◌, ◌⊎◌, inl, inr, List, [], ◌∷◌, ◌++◌, Bool, true, false, Distinct, ◌∈◌,
  Bool-cases, Text, same, same_iff, text_lt, append_new_sound, append_new_complete,
}
use masuda.Config.Decl.{SecretDecl, PrivilegedCommandDecl, Settings}
use masuda.Config.Secrets.{
  insert_command, sorted_commands, all_secrets, merge_secret, merge_secrets, privileged_secrets_of,
}

-- A secret of that name among those given has that host.
abbrev pub Sends : List SecretDecl → Text → Text → Type 0
Sends [] n h = ⊥
Sends (d ∷ ds) n h = ((d.name ≡ n) × (h ∈ d.hosts)) ⊎ Sends ds n h

-- A command declares a secret of that name with that host.
abbrev pub Declares : List (Text × PrivilegedCommandDecl) → Text → Text → Type 0
Declares [] n h = ⊥
Declares (c ∷ cs) n h = Sends c.1.secrets n h ⊎ Declares cs n h

Sends-merge_secret :
    (d : SecretDecl) (out : List SecretDecl) (n h : Text)
    → Sends (merge_secret d out) n h ↔ (((d.name ≡ n) × (h ∈ d.hosts)) ⊎ Sends out n h)
unfolding merge_secret
Sends-merge_secret d [] n h = (
  λ s. elim s [
    | inl k ↦ inl (k.0, elim (append_new_sound [] d.hosts h k.1) [ inl m ↦ absurd m | inr m ↦ m ])
    | inr k ↦ absurd k
  ],
  λ s. elim s [ inl k ↦ inl (k.0, append_new_complete [] d.hosts h (inr k.1)) | inr k ↦ absurd k ],
)
Sends-merge_secret d (x ∷ xs) n h =
    let (f, g) = Sends-merge_secret d xs n h in
    elim (Bool-cases (same x.name d.name)) [
      | inl e ↦
          let k = (same_iff x.name d.name).0 e in
          rw e (
            λ s. elim s [
              | inl m ↦ elim (append_new_sound x.hosts d.hosts h m.1) [
                | inl a ↦ inr (inl (m.0, a))
                | inr b ↦ inl (sym k ∙ m.0, b)
              ]
              | inr m ↦ inr (inr m)
            ],
            λ s. elim s [
              | inl m ↦ inl (k ∙ m.0, append_new_complete x.hosts d.hosts h (inr m.1))
              | inr m ↦ elim m [
                | inl a ↦ inl (a.0, append_new_complete x.hosts d.hosts h (inl a.1))
                | inr a ↦ inr a
              ]
            ],
          )
      | inr e ↦ rw e (
        λ s. elim s [
          | inl k ↦ inr (inl k)
          | inr k ↦ elim (f k) [ inl m ↦ inl m | inr m ↦ inr (inr m) ]
        ],
        λ s. elim s [
          | inl k ↦ inr (g (inl k))
          | inr k ↦ elim k [ inl m ↦ inl m | inr m ↦ inr (g (inr m)) ]
        ],
      )
    ]

Sends-merge_secrets :
    (ds out : List SecretDecl) (n h : Text)
    → Sends (merge_secrets out ds) n h ↔ (Sends out n h ⊎ Sends ds n h)
unfolding merge_secrets
Sends-merge_secrets [] out n h = (λ s. inl s, λ s. elim s [ inl k ↦ k | inr k ↦ absurd k ])
Sends-merge_secrets (d ∷ ds) out n h =
    let (f, g) = Sends-merge_secrets ds (merge_secret d out) n h in
    let (p, q) = Sends-merge_secret d out n h in
    (
      λ s. elim (f s) [
        | inl k ↦ elim (p k) [ inl a ↦ inr (inl a) | inr a ↦ inl a ]
        | inr k ↦ inr (inr k)
      ],
      λ s. elim s [
        | inl k ↦ g (inl (q (inr k)))
        | inr k ↦ elim k [ inl a ↦ g (inl (q (inl a))) | inr a ↦ g (inr a) ]
      ],
    )

Sends-append :
    (as' bs : List SecretDecl) (n h : Text) → Sends (as' ++ bs) n h ↔ (Sends as' n h ⊎ Sends bs n h)
Sends-append [] bs n h = (λ s. inr s, λ s. elim s [ inl k ↦ absurd k | inr k ↦ k ])
Sends-append (a ∷ as') bs n h =
    let (f, g) = Sends-append as' bs n h in
    (
      λ s. elim s [
        | inl k ↦ inl (inl k)
        | inr k ↦ elim (f k) [ inl m ↦ inl (inr m) | inr m ↦ inr m ]
      ],
      λ s. elim s [
        | inl k ↦ elim k [ inl m ↦ inl m | inr m ↦ inr (g (inl m)) ]
        | inr k ↦ inr (g (inr k))
      ],
    )

Sends-all_secrets :
    (cs : List (Text × PrivilegedCommandDecl)) (n h : Text)
    → Sends (all_secrets cs) n h ↔ Declares cs n h
unfolding all_secrets
Sends-all_secrets [] n h = (λ s. s, λ s. s)
Sends-all_secrets (c ∷ cs) n h =
    let (f, g) = Sends-append c.1.secrets (all_secrets cs) n h in
    let (p, q) = Sends-all_secrets cs n h in
    (
      λ s. elim (f s) [ inl k ↦ inl k | inr k ↦ inr (p k) ],
      λ s. elim s [ inl k ↦ g (inl k) | inr k ↦ g (inr (q k)) ],
    )

Declares-insert_command :
    (c : Text × PrivilegedCommandDecl) (cs : List (Text × PrivilegedCommandDecl)) (n h : Text)
    → Declares (insert_command c cs) n h ↔ (Sends c.1.secrets n h ⊎ Declares cs n h)
unfolding insert_command
Declares-insert_command c [] n h = (λ s. s, λ s. s)
Declares-insert_command c (d ∷ ds) n h =
    let (f, g) = Declares-insert_command c ds n h in
    elim (Bool-cases (text_lt d.0 c.0)) [
      | inr e ↦ rw e (λ s. s, λ s. s)
      | inl e ↦ rw e (
        λ s. elim s [
          | inl k ↦ inr (inl k)
          | inr k ↦ elim (f k) [ inl m ↦ inl m | inr m ↦ inr (inr m) ]
        ],
        λ s. elim s [
          | inl k ↦ inr (g (inl k))
          | inr k ↦ elim k [ inl m ↦ inl m | inr m ↦ inr (g (inr m)) ]
        ],
      )
    ]

mem-insert_command :
    (c d : Text × PrivilegedCommandDecl) (cs : List (Text × PrivilegedCommandDecl))
    → d ∈ insert_command c cs
    → (d ≡ c) ⊎ (d ∈ cs)
unfolding insert_command
mem-insert_command c d [] m = m
mem-insert_command c d (x ∷ xs) m = elim (Bool-cases (text_lt x.0 c.0)) [
  | inr e ↦ rw e at m
  | inl e ↦ elim (rw e at m) [
    | inl k ↦ inr (inl k)
    | inr k ↦ elim (mem-insert_command c d xs k) [ inl q ↦ inl q | inr q ↦ inr (inr q) ]
  ]
]

-- The commands in their order are those that are declared.
pub mem-sorted_commands :
    (cs : List (Text × PrivilegedCommandDecl)) (d : Text × PrivilegedCommandDecl)
    → d ∈ sorted_commands cs
    → d ∈ cs
unfolding sorted_commands
mem-sorted_commands [] d m = m
mem-sorted_commands (c ∷ cs) d m = elim (mem-insert_command c d (sorted_commands cs) m) [
  | inl e ↦ inl e
  | inr k ↦ inr (mem-sorted_commands cs d k)
]

Declares-sorted_commands :
    (cs : List (Text × PrivilegedCommandDecl)) (n h : Text)
    → Declares (sorted_commands cs) n h ↔ Declares cs n h
unfolding sorted_commands
Declares-sorted_commands [] n h = (λ s. s, λ s. s)
Declares-sorted_commands (c ∷ cs) n h =
    let (f, g) = Declares-insert_command c (sorted_commands cs) n h in
    let (p, q) = Declares-sorted_commands cs n h in
    (
      λ s. elim (f s) [ inl k ↦ inl k | inr k ↦ inr (p k) ],
      λ s. elim s [ inl k ↦ g (inl k) | inr k ↦ g (inr (q k)) ],
    )

abbrev pub names_of : List SecretDecl → List Text
names_of [] = []
names_of (d ∷ ds) = d.name ∷ names_of ds

mem-merge_secret :
    (d : SecretDecl) (out : List SecretDecl) (a : Text)
    → a ∈ names_of (merge_secret d out)
    → (a ≡ d.name) ⊎ (a ∈ names_of out)
unfolding merge_secret
mem-merge_secret d [] a m = m
mem-merge_secret d (x ∷ xs) a m = elim (Bool-cases (same x.name d.name)) [
  | inl e ↦ inr (rw e at m)
  | inr e ↦ elim (rw e at m) [
    | inl k ↦ inr (inl k)
    | inr k ↦ elim (mem-merge_secret d xs a k) [ inl b ↦ inl b | inr b ↦ inr (inr b) ]
  ]
]

merge_secret-Distinct :
    (d : SecretDecl) (out : List SecretDecl)
    → Distinct (names_of out)
    → Distinct (names_of (merge_secret d out))
unfolding merge_secret
merge_secret-Distinct d [] h = (λ m. m, tt)
merge_secret-Distinct d (x ∷ xs) h = elim (Bool-cases (same x.name d.name)) [
  | inl e ↦ rw e h
  | inr e ↦ rw e (
    λ m. elim (mem-merge_secret d xs x.name m) [
      | inl k ↦ differ e ((same_iff x.name d.name).1 k)
      | inr k ↦ h.0 k
    ],
    merge_secret-Distinct d xs h.1,
  )
]
  where
    differ : {b : Bool} → b ≡ false → b ≡ true → ⊥
    differ e k = cc

merge_secrets-Distinct :
    (ds out : List SecretDecl)
    → Distinct (names_of out)
    → Distinct (names_of (merge_secrets out ds))
unfolding merge_secrets
merge_secrets-Distinct [] out h = h
merge_secrets-Distinct (d ∷ ds) out h =
    merge_secrets-Distinct ds (merge_secret d out) (merge_secret-Distinct d out h)

-- `PrivilegedSecrets` names each secret once, and gives a name exactly the hosts that the privileged
-- commands declare for it.
privileged_secrets_of_iff :
    (s : Settings)
    → Distinct (names_of (privileged_secrets_of s))
      × ((n h : Text) → Sends (privileged_secrets_of s) n h ↔ Declares s.privileged_commands n h)
unfolding privileged_secrets_of
privileged_secrets_of_iff s = (
  merge_secrets-Distinct (all_secrets (sorted_commands s.privileged_commands)) [] tt,
  λ n h.
      let (f, g) =
        Sends-merge_secrets (all_secrets (sorted_commands s.privileged_commands)) [] n h in
      let (p, q) = Sends-all_secrets (sorted_commands s.privileged_commands) n h in
      let (a, b) = Declares-sorted_commands s.privileged_commands n h in
      (λ k. elim (f k) [ inl m ↦ absurd m | inr m ↦ a (p m) ], λ k. g (inr (q (b k)))),
)
