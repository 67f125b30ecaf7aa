-- ===== src/Pow/Search.antt =====
-- crypto/pow.rs: the nonce searches.
use randbotd.Base.{
  ℕ, zero, suc, ◌+◌, ◌%◌, ◌≤◌, ◌<◌, ◌≡◌, refl, sym, ap, subst, ◌∙◌, inl, inr, Bool, true, false,
  ◌&&◌, Option, none, some, arith, ltb, Bool-cases, Option-cases, ℕ_discrete,
}
use randbotd.Base.Bytes.{Bytes, u32_mod, u64_mod}
use randbotd.Base.Crypto.{Crypto}
use randbotd.Pow.{verify, solve_from, solve, scan_from, reseed_from, solve_with_changing_field}

-- `n` is the first number from `start` on that passes the test `p`.
pub record IsFirst (p : ℕ → Bool) (start n : ℕ) : Type 0 where
  pub passes : p n ≡ true
  pub reached : start ≤ n
  pub least : (j : ℕ) → start ≤ j → j < n → p j ≡ false

module _ (p : ℕ → Bool) where
  IsFirst-here : (start : ℕ) → p start ≡ true → IsFirst p start start
  IsFirst-here start h = record {
    passes = h;
    reached = omega arith;
    least = λ j a b. absurd (omega arith);
  }

  IsFirst-step : (start n : ℕ) → p start ≡ false → IsFirst p (start + 1) n → IsFirst p start n
  IsFirst-step start n miss f = record {
    passes = f.passes;
    reached = omega (arith, f.reached);
    least = λ j lo hi. elim (ℕ_discrete start j) [
      | yes e ↦ subst (λ i. p i ≡ false) e miss
      | no ne ↦ f.least j (omega arith) hi
    ];
  }

  IsFirst-next : (start n : ℕ) → start < n → IsFirst p start n → IsFirst p (start + 1) n
  IsFirst-next start n lt f = record {
    passes = f.passes;
    reached = omega arith;
    least = λ j lo hi. f.least j (omega arith) hi;
  }

  -- A number that passes gives a first one.
  IsFirst-exists :
      (gap start k : ℕ) → k ≡ start + gap → p k ≡ true → (n : ℕ) × IsFirst p start n × (n ≤ k)
  IsFirst-exists zero start k e h =
      let e' : k ≡ start = omega arith in
      (start, IsFirst-here start (subst (λ i. p i ≡ true) e' h), omega arith)
  IsFirst-exists (suc gap) start k e h = elim (Bool-cases (p start)) [
    | inl hit ↦ (start, IsFirst-here start hit, omega arith)
    | inr miss ↦
        let (n, f, le) = IsFirst-exists gap (start + 1) k (omega arith) h in
        (n, IsFirst-step start n miss f, le)
  ]

module _ (c : Crypto) (challenge : Bytes) (difficulty : ℕ) where
  abbrev pub solves : ℕ → Bool
  solves nonce = verify c challenge nonce difficulty

  solve_from-eq_first :
      (gap fuel start n : ℕ)
      → n ≡ start + gap
      → gap < fuel
      → n < u64_mod
      → IsFirst solves start n
      → solve_from c fuel challenge difficulty start ≡ some n
  unfolding solve_from
  solve_from-eq_first gap zero start n e lt fits f = absurd (omega arith)
  solve_from-eq_first zero (suc fuel) start n e lt fits f =
      let e' : n ≡ start = omega arith in
      let hit : solves start ≡ true = subst (λ i. solves i ≡ true) e' f.passes in
      rw (hit, solve_from) (ap some (sym e'))
  solve_from-eq_first (suc gap) (suc fuel) start n e lt fits f =
      let miss : solves start ≡ false = f.least start (omega arith) (omega arith) in
      let e' : (start + 1) % u64_mod ≡ start + 1 = omega arith in
      rw (miss, solve_from, e')
        (solve_from-eq_first gap fuel (start + 1) n (omega arith) (omega arith) fits
          (IsFirst-next solves start n (omega arith) f))

  -- If some 64-bit nonce `k` solves the challenge, `solve` with fuel above `k` returns a nonce, and
  -- it is the first that solves the challenge.
  pub solve-IsFirst :
      (fuel k : ℕ)
      → verify c challenge k difficulty ≡ true
      → k < fuel
      → k < u64_mod
      → (n : ℕ) × (solve c fuel challenge difficulty ≡ some n)
        × IsFirst (λ nonce. verify c challenge nonce difficulty) 0 n
  unfolding solve
  solve-IsFirst fuel k h enough fits =
      let (n, f, le) = IsFirst-exists solves k 0 k (omega arith) h in
      (n, solve_from-eq_first n fuel 0 n (omega arith) (omega arith) (omega arith) f, f)

  -- A nonce that the inner loop returns solves the challenge and is a 32-bit number.
  scan_from_sound :
      (rounds start n : ℕ)
      → scan_from c rounds challenge difficulty start ≡ some n
      → (n < u32_mod) × (solves n ≡ true)
  unfolding scan_from
  scan_from_sound zero start n h = cc
  scan_from_sound (suc rounds) start n h = elim (Bool-cases (ltb start u32_mod && solves start)) [
    | inl hit ↦ found hit (rw (hit, scan_from) at h)
    | inr miss ↦ scan_from_sound rounds (start + 1) n (rw (miss, scan_from) at h)
  ]
    where
      found :
          (ltb start u32_mod && solves start) ≡ true
          → some start ≡ some n
          → (n < u32_mod) × (solves n ≡ true)
      found hit e = ground arith

  -- The inner loop gives up only if no nonce in its range solves the challenge.
  scan_from-none :
      (rounds start : ℕ)
      → scan_from c rounds challenge difficulty start ≡ none
      → (j : ℕ) → start ≤ j
      → j < start + rounds
      → j < u32_mod
      → solves j ≡ false
  unfolding scan_from
  scan_from-none zero start h j lo hi small = absurd (omega arith)
  scan_from-none (suc rounds) start h j lo hi small =
      elim (Bool-cases (ltb start u32_mod && solves start)) [
        | inl hit ↦ absurd_some (rw (hit, scan_from) at h)
        | inr miss ↦ elim (ℕ_discrete start j) [
          | yes e ↦ missed e miss
          | no ne ↦
              scan_from-none rounds (start + 1) (rw (miss, scan_from) at h) j (omega arith)
                (omega arith) small
        ]
      ]
    where
      absurd_some : some start ≡ none → solves j ≡ false
      absurd_some e = cc

      missed : start ≡ j → (ltb start u32_mod && solves start) ≡ false → solves j ≡ false
      missed e m = ground arith

-- What the search with reseeding returns: a 32-bit nonce for the challenge of its extra nonce, and no
-- smaller extra nonce has a challenge that a 32-bit nonce solves.
pub record IsSolution (c : Crypto) (difficulty : ℕ) (reseed : ℕ → Bytes) (start nonce extra : ℕ)
    (challenge : Bytes) : Type 0 where
  pub bounded : nonce < u32_mod
  pub bound_challenge : challenge ≡ reseed extra
  pub solves : verify c challenge nonce difficulty ≡ true
  pub unsolvable :
      (i j : ℕ) → start ≤ i → i < extra → j < u32_mod → verify c (reseed i) j difficulty ≡ false

module _ (c : Crypto) (difficulty : ℕ) (reseed : ℕ → Bytes) where
  reseed_from-found :
      (fuel start n : ℕ)
      → scan_from c u32_mod (reseed start) difficulty 0 ≡ some n
      → reseed_from c (suc fuel) difficulty reseed start ≡ some (n, start, reseed start)
  unfolding reseed_from
  reseed_from-found fuel start n h = rw (h, reseed_from)

  reseed_from-next :
      (fuel start : ℕ)
      → scan_from c u32_mod (reseed start) difficulty 0 ≡ none
      → start + 1 < u64_mod
      → reseed_from c (suc fuel) difficulty reseed start
        ≡ reseed_from c fuel difficulty reseed (start + 1)
  unfolding reseed_from
  reseed_from-next fuel start h lt =
      let e : (start + 1) % u64_mod ≡ start + 1 = omega arith in rw (h, reseed_from, e)

  reseed_from_finds :
      (fuel start e k : ℕ)
      → verify c (reseed e) k difficulty ≡ true
      → k < u32_mod
      → start ≤ e
      → e < start + fuel
      → e < u64_mod
      → (nonce : ℕ) × (extra : ℕ) × (reseed_from c fuel difficulty reseed start
          ≡ some (nonce, extra, reseed extra))
        × IsSolution c difficulty reseed start nonce extra (reseed extra)
  reseed_from_finds zero start e k h small lo hi fits = absurd (omega arith)
  reseed_from_finds (suc fuel) start e k h small lo hi fits =
      elim (Option-cases (scan_from c u32_mod (reseed start) difficulty 0)) [
        | inr (n, found) ↦
            let s = scan_from_sound c (reseed start) difficulty u32_mod 0 n found in
            (
              n,
              start,
              reseed_from-found fuel start n found,
              record {
                bounded = s.0;
                bound_challenge = refl;
                solves = s.1;
                unsolvable = λ i j a b l. absurd (omega arith);
              },
            )
        | inl none_here ↦ elim (ℕ_discrete start e) [
          | yes same ↦ absurd (clash same (failed none_here k small))
          | no ne ↦
              let (n, x, eq, s) =
                reseed_from_finds fuel (start + 1) e k h small (omega arith) (omega arith) fits in
              (
                n,
                x,
                reseed_from-next fuel start none_here (omega arith) ∙ eq,
                record {
                  bounded = s.bounded;
                  bound_challenge = s.bound_challenge;
                  solves = s.solves;
                  unsolvable = λ i j a b l. elim (ℕ_discrete start i) [
                    | yes at ↦
                        subst (λ t. verify c (reseed t) j difficulty ≡ false) at
                          (failed none_here j l)
                    | no past ↦ s.unsolvable i j (omega arith) b l
                  ];
                },
              )
        ]
      ]
    where
      failed :
          scan_from c u32_mod (reseed start) difficulty 0 ≡ none
          → (j : ℕ) → j < u32_mod
          → verify c (reseed start) j difficulty ≡ false
      failed gone j l =
          scan_from-none c (reseed start) difficulty u32_mod 0 gone j (omega arith) (omega arith) l

      clash : start ≡ e → verify c (reseed start) k difficulty ≡ false → ⊥
      clash same v = cc

  -- If a 32-bit nonce solves the challenge of some extra nonce `e`, the search with fuel above `e`
  -- returns a solution, for the first extra nonce that has one.
  pub solve_with_changing_field-IsSolution :
      (fuel e k : ℕ)
      → verify c (reseed e) k difficulty ≡ true
      → k < u32_mod
      → e < fuel
      → e < u64_mod
      → (nonce : ℕ) × (extra : ℕ) × (solve_with_changing_field c fuel difficulty reseed
          ≡ some (nonce, extra, reseed extra))
        × IsSolution c difficulty reseed 0 nonce extra (reseed extra)
  unfolding solve_with_changing_field
  solve_with_changing_field-IsSolution fuel e k h small enough fits =
      reseed_from_finds fuel 0 e k h small (omega arith) (omega arith) fits

  reseed_from_sound :
      (fuel start nonce extra : ℕ) (challenge : Bytes)
      → start < u64_mod
      → reseed_from c fuel difficulty reseed start ≡ some (nonce, extra, challenge)
      → (nonce < u32_mod)
        × (extra < u64_mod)
        × (challenge ≡ reseed extra)
        × (verify c challenge nonce difficulty ≡ true)
  unfolding reseed_from
  reseed_from_sound zero start nonce extra challenge fits h = cc
  reseed_from_sound (suc fuel) start nonce extra challenge fits h =
      elim (Option-cases (scan_from c u32_mod (reseed start) difficulty 0)) [
        | inr (n, found) ↦
            let s = scan_from_sound c (reseed start) difficulty u32_mod 0 n found in
            returned n s (rw (found, reseed_from) at h)
        | inl none_here ↦
            reseed_from_sound fuel ((start + 1) % u64_mod) nonce extra challenge (omega arith)
              (rw (none_here, reseed_from) at h)
      ]
    where
      returned :
          (n : ℕ)
          → (n < u32_mod) × (verify c (reseed start) n difficulty ≡ true)
          → ◌≡◌ {A = Option (ℕ × ℕ × Bytes)}
              (some (n, start, reseed start))
              (some (nonce, extra, challenge))
          → (nonce < u32_mod)
            × (extra < u64_mod)
            × (challenge ≡ reseed extra)
            × (verify c challenge nonce difficulty ≡ true)
      returned n s e = ground arith

  -- A result of the search is a 32-bit nonce, a 64-bit extra nonce and its challenge, solved.
  pub solve_with_changing_field_sound :
      (fuel nonce extra : ℕ) (challenge : Bytes)
      → solve_with_changing_field c fuel difficulty reseed ≡ some (nonce, extra, challenge)
      → (nonce < u32_mod)
        × (extra < u64_mod)
        × (challenge ≡ reseed extra)
        × (verify c challenge nonce difficulty ≡ true)
  unfolding solve_with_changing_field
  solve_with_changing_field_sound fuel nonce extra challenge h =
      reseed_from_sound fuel 0 nonce extra challenge (omega arith) h
