-- ===== src/Mcp/Authorized.antt =====
-- crates/epica-mcp/src/auth.rs: which requests `check_auth` lets through.
use epica.Prelude.{
  nat_beq, if◌then◌else◌, string_eq, nat_eq, ◌==◌, list_eq, Bool-cases, Option-cases, some_inj,
  Result, Result-cases, ◌≡◌, refl, ap, ap₂, ◌↔◌, ◌⊎◌, inl, inr, Bool, true, false, ◌||◌, Option,
  none, some, [], ◌∷◌, ◌++◌, arith, ok,
}
use epica.Ledger.Defs.{Bytes}
use epica.Mcp.Auth.{
  JwtClaims, AuthConfig, Request, Unauthorized, Jwt, well_known, health, ready, metrics, bearer,
  strip_prefix, starts_with, is_exempt, validate_jwt, check_token, check_auth,
}

strip_prefix_iff : (p s t : Bytes) → (strip_prefix p s ≡ some t) ↔ (s ≡ p ++ t)
unfolding strip_prefix
strip_prefix_iff p s t = (to p s, from p s)
  where
    to : (p s : Bytes) → strip_prefix p s ≡ some t → s ≡ p ++ t
    to [] s h = some_inj h
    to (c ∷ cs) [] h = absurd cc
    to (c ∷ cs) (d ∷ s) h = elim (Bool-cases (nat_beq c d)) [
      | inr f ↦ absurd (cc (rw f at h))
      | inl e ↦ let same : d ≡ c = ground (arith, e) in ap₂ (◌∷◌) same (to cs s (rw e at h))
    ]

    from : (p s : Bytes) → s ≡ p ++ t → strip_prefix p s ≡ some t
    from [] s h = ap some h
    from (c ∷ cs) [] h = absurd cc
    from (c ∷ cs) (d ∷ s) h =
        let same : d ≡ c = cc in
        let rest : s ≡ cs ++ t = cc in
        let e : nat_beq c d ≡ true = ground (arith, same) in rw e (from cs s rest)

starts_with_iff : (p s : Bytes) → (starts_with p s ≡ true) ↔ ((t : Bytes) × (s ≡ p ++ t))
unfolding starts_with
starts_with_iff p s = (to p s, λ h. from p s h.0 h.1)
  where
    to : (p s : Bytes) → starts_with p s ≡ true → (t : Bytes) × (s ≡ p ++ t)
    to [] s h = (s, refl)
    to (c ∷ cs) [] h = absurd cc
    to (c ∷ cs) (d ∷ s) h = elim (Bool-cases (nat_beq c d)) [
      | inr f ↦ absurd (cc (rw f at h))
      | inl e ↦
          let same : d ≡ c = ground (arith, e) in
          let (t, rest) = to cs s (rw e at h) in (t, ap₂ (◌∷◌) same rest)
    ]

    from : (p s t : Bytes) → s ≡ p ++ t → starts_with p s ≡ true
    from [] s t h = refl
    from (c ∷ cs) [] t h = absurd cc
    from (c ∷ cs) (d ∷ s) t h =
        let same : d ≡ c = cc in
        let rest : s ≡ cs ++ t = cc in
        let e : nat_beq c d ≡ true = ground (arith, same) in rw e (from cs s t rest)

one_of :
    (a b c d : Bool)
    → (a ≡ true) ⊎ ((b ≡ true) ⊎ ((c ≡ true) ⊎ (d ≡ true)))
    → (a || b || c || d) ≡ true
one_of true b c d h = refl
one_of false true c d h = refl
one_of false false true d h = refl
one_of false false false true h = refl
one_of false false false false (inl h) = h
one_of false false false false (inr (inl h)) = h
one_of false false false false (inr (inr (inl h))) = h
one_of false false false false (inr (inr (inr h))) = h

-- The paths of the discovery documents and the three probes.
abbrev pub IsExempt : Bytes → Type 0
IsExempt path =
    ((rest : Bytes) × (path ≡ well_known ++ rest))
    ⊎ ((path ≡ health) ⊎ ((path ≡ ready) ⊎ (path ≡ metrics)))

is_exempt_iff : (path : Bytes) → (is_exempt path ≡ true) ↔ IsExempt path
unfolding is_exempt
is_exempt_iff path = (to, from)
  where
    same : (q : Bytes) → (path == q) ≡ true → path ≡ q
    same q h = (list_eq.beq_iff path q).0 h

    equal : (q : Bytes) → path ≡ q → (path == q) ≡ true
    equal q h = (list_eq.beq_iff path q).1 h

    to : is_exempt path ≡ true → IsExempt path
    to h = elim (Bool-cases (starts_with well_known path)) [
      | inl t ↦ inl ((starts_with_iff well_known path).0 t)
      | inr f ↦ elim (Bool-cases (path == health)) [
        | inl t ↦ inr (inl (same health t))
        | inr g ↦ elim (Bool-cases (path == ready)) [
          | inl t ↦ inr (inr (inl (same ready t)))
          | inr k ↦ inr (inr (inr (same metrics (rw (f, g, k, is_exempt) at h))))
        ]
      ]
    ]

    from : IsExempt path → is_exempt path ≡ true
    from h =
        one_of (starts_with well_known path) (path == health) (path == ready) (path == metrics)
          (tests h)
      where
        tests :
            IsExempt path
            → (starts_with well_known path ≡ true)
              ⊎ (((path == health) ≡ true)
                  ⊎ (((path == ready) ≡ true) ⊎ ((path == metrics) ≡ true)))
        tests (inl x) = inl ((starts_with_iff well_known path).1 x)
        tests (inr (inl e)) = inr (inl (equal health e))
        tests (inr (inr (inl e))) = inr (inr (inl (equal ready e)))
        tests (inr (inr (inr e))) = inr (inr (inr (equal metrics e)))

passes_iff :
    (d x : Bool) (t : Result Unauthorized (Unit {0}))
    → ((if d then ok tt else if x then ok tt else t) ≡ ok tt)
      ↔ ((d ≡ true) ⊎ ((x ≡ true) ⊎ (t ≡ ok tt)))
passes_iff true x t = (λ h. inl refl, λ h. refl)
passes_iff false true t = (λ h. inr (inl refl), λ h. refl)
passes_iff false false t = (λ h. inr (inr h), last)
  where
    last : (false ≡ true) ⊎ ((false ≡ true) ⊎ (t ≡ ok tt)) → t ≡ ok tt
    last (inl h) = absurd cc
    last (inr (inl h)) = absurd cc
    last (inr (inr h)) = h

module _ ⦃jw : Jwt⦄ where
  abbrev pub Presents : Option Bytes → AuthConfig → Type 0
  Presents header c =
      (token : Bytes) × (claims : JwtClaims) × (header ≡ some (bearer ++ token))
      × (validate_jwt token c ≡ ok claims)

  check_token_iff :
      (header : Option Bytes) (c : AuthConfig) → (check_token header c ≡ ok tt) ↔ Presents header c
  unfolding check_token
  check_token_iff header c = (to header, from)
    where
      to : (header : Option Bytes) → check_token header c ≡ ok tt → Presents header c
      to none h = absurd cc
      to (some v) h = elim (Option-cases (strip_prefix bearer v)) [
        | inl e ↦ absurd (cc (rw (e, check_token) at h))
        | inr (token, e) ↦ elim (Result-cases (validate_jwt token c)) [
          | inr (x, f) ↦ absurd (cc (rw (e, f, check_token) at h))
          | inl (claims, f) ↦ (token, claims, ap some ((strip_prefix_iff bearer v token).0 e), f)
        ]
      ]

      from : Presents header c → check_token header c ≡ ok tt
      from (token, claims, at, valid) =
          rw (at, (strip_prefix_iff bearer (bearer ++ token) token).1 refl, valid, check_token) refl

  -- A request passes the authorization check exactly when authorization is disabled, its path is one
  -- of the probes or below the discovery prefix, or its header is the Bearer prefix followed by a
  -- token that is valid under the configuration.
  pub check_auth_iff :
      (r : Request) (c : AuthConfig)
      → (check_auth r c ≡ ok tt)
        ↔ ((c.disabled ≡ true) ⊎ (IsExempt r.path ⊎ Presents r.authorization c))
  unfolding check_auth
  check_auth_iff r c =
      let (out, into) = passes_iff c.disabled (is_exempt r.path) (check_token r.authorization c) in
      let (exempt, tested) = is_exempt_iff r.path in
      let (presents, checked) = check_token_iff r.authorization c in
      (
        λ h. elim (out h) [
          | inl d ↦ inl d
          | inr (inl x) ↦ inr (inl (exempt x))
          | inr (inr t) ↦ inr (inr (presents t))
        ],
        λ h. into (elim h [
          | inl d ↦ inl d
          | inr (inl x) ↦ inr (inl (tested x))
          | inr (inr t) ↦ inr (inr (checked t))
        ]),
      )
