-- ===== src/Runtime/TokenBucket.antt =====
-- crates/epica-runtime/src/system2/token_bucket.rs: the budget of language model calls. An `Instant` is a
-- number of ticks; `elapsed` gives the seconds between two as `f32`, which the standard library computes.
use epica.Prelude.{
  leb, if◌then◌else◌, string_eq, nat_eq, list_eq, Bool-cases, ℕ, zero, suc, ◌+◌, ◌-◌, ◌^◌, ◌≤◌, ◌<◌,
  min, ◌≡◌, refl, ap, ◌∙◌, subst, inl, inr, Bool, true, false, arith,
}
use epica.Quad.Platform.{Platform}

pub record TokenBucket ⦃p : Platform⦄ : Type 0 where
  pub capacity : ℕ
  pub available : p.F32
  pub refill_rate_per_sec : p.F32
  pub last_refill : ℕ

-- `Instant::elapsed().as_secs_f32()`: from the first instant to the second.
pub record Stopwatch ⦃p : Platform⦄ : Type 0 where
  pub elapsed : ℕ → ℕ → p.F32

module _ ⦃p : Platform⦄ where
  unfoldable pub new_bucket : ℕ → p.F32 → ℕ → TokenBucket
  new_bucket capacity refill_rate_per_sec now = record {
    capacity = capacity;
    available = p.of_nat capacity;
    refill_rate_per_sec = refill_rate_per_sec;
    last_refill = now;
  }

  unfoldable pub deduct : TokenBucket → ℕ → TokenBucket × Bool
  deduct b tokens =
      if p.le (p.of_nat tokens) b.available
      then (record b { available = p.sub b.available (p.of_nat tokens) }, true)
      else (b, false)

  unfoldable pub release : TokenBucket → ℕ → TokenBucket
  release b tokens = record b {
    available = p.min (p.add b.available (p.of_nat tokens)) (p.of_nat b.capacity);
  }

  unfoldable pub available_tokens : TokenBucket → ℕ
  available_tokens b = p.to_nat b.available

  pub capacity-release : (b : TokenBucket) (tokens : ℕ) → (release b tokens).capacity ≡ b.capacity
  unfolding release
  capacity-release b tokens = refl

  capacity-deduct : (b : TokenBucket) (tokens : ℕ) → (deduct b tokens).0.capacity ≡ b.capacity
  unfolding deduct
  capacity-deduct b tokens = elim (Bool-cases (p.le (p.of_nat tokens) b.available)) [
    | inl t ↦ rw (t, deduct) refl
    | inr f ↦ rw (f, deduct) refl
  ]

  -- A bucket that does not refill and holds a whole number of tokens.
  pub record Holds (n : ℕ) (b : TokenBucket) : Type 0 where
    pub fixed : p.le b.refill_rate_per_sec p.zero ≡ true
    pub tokens : b.available ≡ p.of_nat n
    pub fits : n ≤ b.capacity
    pub exact : b.capacity < 2 ^ 24

  pub Holds-new_bucket :
      (capacity : ℕ) (rate : p.F32) (now : ℕ)
      → p.le rate p.zero ≡ true
      → capacity < 2 ^ 24
      → Holds capacity (new_bucket capacity rate now)
  unfolding new_bucket
  Holds-new_bucket capacity rate now h k = record {
    fixed = h;
    tokens = refl;
    fits = omega arith;
    exact = k;
  }

  pub release-Holds :
      (n : ℕ) (b : TokenBucket) → Holds n b → Holds (min (n + 1) b.capacity) (release b 1)
  unfolding release
  release-Holds n b h = elim (Bool-cases (leb (n + 1) b.capacity)) [
    | inl t ↦ record {
      fixed = h.fixed;
      tokens = sum h ∙ ap p.of_nat (rw t (ground (arith, t)));
      fits = omega arith;
      exact = h.exact;
    }
    | inr f ↦ record {
      fixed = h.fixed;
      tokens = sum h ∙ ap p.of_nat (rw f (ground (arith, f)));
      fits = omega arith;
      exact = h.exact;
    }
  ]
    where
      sum :
          Holds n b
          → (release b 1).available
            ≡ p.of_nat (if leb (n + 1) b.capacity then n + 1 else b.capacity)
      sum h = rw h.tokens (
          ap (λ x. p.min x (p.of_nat b.capacity))
            (p.add-of_nat n 1 (omega (arith, h.fits, h.exact)))
          ∙ p.min-of_nat (n + 1) b.capacity (omega (arith, h.fits, h.exact))
              (omega (arith, h.exact)))

module _ ⦃p : Platform⦄ ⦃sw : Stopwatch⦄ where
  unfoldable pub refill : TokenBucket → ℕ → TokenBucket
  refill b now = if p.le b.refill_rate_per_sec p.zero then b else record b {
    available =
        p.min (p.add b.available (p.mul (sw.elapsed b.last_refill now) b.refill_rate_per_sec))
          (p.of_nat b.capacity);
    last_refill = now;
  }

  unfoldable pub try_consume : TokenBucket → ℕ → ℕ → TokenBucket × Bool
  try_consume b tokens now = deduct (refill b now) tokens

  -- One token at each of the instants, and how many were granted.
  unfoldable pub granted : ℕ → (ℕ → ℕ) → TokenBucket → ℕ × TokenBucket
  granted zero times b = (0, b)
  granted (suc k) times b =
      let (b', taken) = try_consume b 1 (times 0) in
      let (n, b'') = granted k (λ i. times (suc i)) b' in ((if taken then suc n else n), b'')

  pub capacity-try_consume :
      (b : TokenBucket) (tokens now : ℕ) → (try_consume b tokens now).0.capacity ≡ b.capacity
  unfolding try_consume refill
  capacity-try_consume b tokens now = elim (Bool-cases (p.le b.refill_rate_per_sec p.zero)) [
    | inl t ↦ rw (t, try_consume, refill) (capacity-deduct b tokens)
    | inr f ↦ rw (f, try_consume, refill) (capacity-deduct _ tokens)
  ]

  pub try_consume-some :
      (n : ℕ) (b : TokenBucket) (now : ℕ)
      → Holds (suc n) b
      → ((try_consume b 1 now).1 ≡ true) × Holds n (try_consume b 1 now).0
  unfolding try_consume refill deduct
  try_consume-some n b now h =
      let enough : p.le (p.of_nat 1) b.available ≡ true =
        rw h.tokens (
          (p.le-of_nat 1 (suc n) (omega arith) (omega (arith, h.fits, h.exact))).1 (omega arith)) in
      rw (h.fixed, try_consume, refill, enough, deduct)
        (
          refl,
          record {
            fixed = h.fixed;
            tokens = rw h.tokens (
                p.sub-of_nat (suc n) 1 (omega (arith, h.fits, h.exact)) (omega arith)
                ∙ ap p.of_nat (omega arith));
            fits = omega (arith, h.fits);
            exact = h.exact;
          },
        )

  pub try_consume-none :
      (b : TokenBucket) (now : ℕ)
      → Holds 0 b
      → ((try_consume b 1 now).1 ≡ false) × Holds 0 (try_consume b 1 now).0
  unfolding try_consume refill deduct
  try_consume-none b now h =
      let short : p.le (p.of_nat 1) b.available ≡ false =
        rw h.tokens (elim (Bool-cases (p.le (p.of_nat 1) (p.of_nat 0))) [
          | inl t ↦ absurd (omega (arith, (p.le-of_nat 1 0 (omega arith) (omega arith)).0 t))
          | inr f ↦ f
        ]) in
      rw (h.fixed, try_consume, refill, short, deduct) (refl, h)

  granted_from :
      (k : ℕ) (times : ℕ → ℕ) (n : ℕ) (b : TokenBucket)
      → Holds n b
      → ((granted k times b).0 ≡ min k n) × Holds (n - k) (granted k times b).1
  unfolding granted
  granted_from zero times n b h = (omega arith, subst (λ m. Holds m b) (omega arith) h)
  granted_from (suc k) times zero b h =
      let (refused, h') = try_consume-none b (times 0) h in
      let (count, h'') = granted_from k (λ i. times (suc i)) 0 (try_consume b 1 (times 0)).0 h' in
      (
        rw refused (count ∙ omega arith),
        subst (λ m. Holds m (granted (suc k) times b).1) (omega arith) h'',
      )
  granted_from (suc k) times (suc n) b h =
      let (taken, h') = try_consume-some n b (times 0) h in
      let (count, h'') = granted_from k (λ i. times (suc i)) n (try_consume b 1 (times 0)).0 h' in
      (
        rw taken (ap suc count ∙ omega arith),
        subst (λ m. Holds m (granted (suc k) times b).1) (omega arith) h'',
      )

  -- A new bucket that does not refill grants, of any number of requests for one token, exactly as
  -- many as its capacity, or all of them if they are fewer, provided that the capacity is below 2 ^
  -- 24.
  pub granted_lem :
      (capacity : ℕ) (rate : p.F32) (now k : ℕ) (times : ℕ → ℕ)
      → p.le rate p.zero ≡ true
      → capacity < 2 ^ 24
      → (granted k times (new_bucket capacity rate now)).0 ≡ min k capacity
  granted_lem capacity rate now k times h c =
      (granted_from k times capacity (new_bucket capacity rate now)
        (Holds-new_bucket capacity rate now h c)).0
