-- ===== src/Tune/Limits.antt =====
-- tune.rs: which tier a machine is of, and what it is given.
use ripsync.Prelude.{
  ℕ, ◌≤◌, ◌≡◌, refl, ◌∙◌, arith, true, false, ◌&&◌, ◌||◌, Option, none, some, leb, Bool-cases, ◌⊎◌,
  inl, inr,
}
use ripsync.Tune.{Profile, Floats, params, is_small_ram, is_large_ram, resolve}

module _ (floats : Floats) where
  -- Two processors or fewer, or a memory that is known to be of 2 GiB or less.
  abbrev pub Small : ℕ → Option floats.F64 → Type 0
  Small cores ram =
      (cores ≤ 2) ⊎ ((r : floats.F64) × (ram ≡ some r) × (floats.le r floats.two ≡ true))

  -- Eight processors or more, and a memory that is not known or of 16 GiB or more.
  abbrev pub Large : ℕ → Option floats.F64 → Type 0
  Large cores ram =
      (8 ≤ cores)
      × ((ram ≡ none) ⊎ ((r : floats.F64) × (ram ≡ some r) × (floats.le floats.sixteen r ≡ true)))

  -- A machine's tier, and what it is for the threads of a run.
  abbrev pub Tier : ℕ → Option floats.F64 → Profile → ℕ → Type 0
  Tier cores ram Profile.low threads = Small cores ram × (threads ≤ 2)
  Tier cores ram Profile.high threads = (¬ Small cores ram) × Large cores ram × (threads ≡ cores)
  Tier cores ram Profile.balanced threads =
      (¬ Small cores ram) × (¬ Large cores ram) × (threads ≡ cores)

  small_ram :
      (ram : Option floats.F64) (r : floats.F64)
      → ram ≡ some r
      → is_small_ram floats ram ≡ floats.le r floats.two
  small_ram ram r e = rw e refl

  is-Small :
      (cores : ℕ) (ram : Option floats.F64)
      → (leb cores 2 || is_small_ram floats ram) ≡ true
      → Small cores ram
  is-Small cores none h = inl (ground arith)
  is-Small cores (some r) h = elim (Bool-cases (leb cores 2)) [
    | inl t ↦ inl (ground arith)
    | inr f ↦ inr (r, refl, rw f at h)
  ]

  not-Small :
      (cores : ℕ) (ram : Option floats.F64)
      → (leb cores 2 || is_small_ram floats ram) ≡ false
      → ¬ Small cores ram
  not-Small cores ram h (inl few) = ground arith
  not-Small cores ram h (inr (r, e, le)) = let small = small_ram ram r e ∙ le in ground arith

  is-Large :
      (cores : ℕ) (ram : Option floats.F64)
      → (leb 8 cores && is_large_ram floats ram) ≡ true
      → Large cores ram
  is-Large cores none h = (ground arith, inl refl)
  is-Large cores (some r) h = (ground arith, inr (r, refl, ground arith))

  not-Large :
      (cores : ℕ) (ram : Option floats.F64)
      → (leb 8 cores && is_large_ram floats ram) ≡ false
      → ¬ Large cores ram
  not-Large cores none h (many, _) = ground arith
  not-Large cores (some r) h (many, inl e) = cc
  not-Large cores (some r) h (many, inr (r', e, le)) = grind arith

  -- Whatever the number of processors and the memory, known or not: `resolve` chooses the low tier
  -- exactly for two processors or fewer or at most 2 GiB, of the others the high tier exactly for
  -- eight processors or more with 16 GiB or more or a memory that is not known, and the balanced
  -- tier for the rest. A run has a thread at least, in the low tier two at most, and in the others
  -- one for each processor.
  pub params-resolve-Tier :
      (cores : ℕ) (ram : Option floats.F64)
      → Tier cores ram (resolve floats cores ram) (params (resolve floats cores ram) cores).threads
        × (1 ≤ (params (resolve floats cores ram) cores).threads)
  unfolding resolve params
  params-resolve-Tier cores ram = elim (Bool-cases (leb cores 2 || is_small_ram floats ram)) [
    | inl t ↦ rw t ((is-Small cores ram t, omega arith), omega arith)
    | inr f ↦
        let more : 3 ≤ cores = ground arith in
        let small = not-Small cores ram f in
        elim (Bool-cases (leb 8 cores && is_large_ram floats ram)) [
          | inl t ↦ rw (f, t) ((small, is-Large cores ram t, omega arith), omega arith)
          | inr g ↦ rw (f, g) ((small, not-Large cores ram g, omega arith), omega arith)
        ]
  ]
