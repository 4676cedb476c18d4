-- ===== src/Limit/Wait.antt =====
-- common/limit/limiter.go: the loop of `wait`.
use ne_xt_server.Base.{
  ℕ, zero, suc, ◌+◌, ◌-◌, ◌≤◌, ◌<◌, min, ◌≡◌, refl, ◌∙◌, inl, inr, Option, none, some, List, [],
  ◌∷◌, arith, All,
}
use mathlib.Core.Option
use ne_xt_server.Base.{⊎-cases}
use ne_xt_server.Limit.Bucket.{RateApi}

module _ (api : RateApi) where
  open api use {Error, RateLimiter, burst, wait_n, burst-wait_n}

  -- The limiter afterwards, the amounts that `WaitN` granted, and the error.
  pub record Waited : Type 0 where
    pub limiter : RateLimiter
    pub chunks : List ℕ
    pub error : Option Error

  abbrev pub granted : ℕ → Waited → Waited
  granted chunk w = record w { chunks = chunk ∷ w.chunks }

  -- `for n > 0`, on fuel: `none` means that the fuel ran out.
  unfoldable pub wait : ℕ → RateLimiter → ℕ → Option Waited
  wait fuel limiter zero = some (record { limiter = limiter; chunks = []; error = none })
  wait zero limiter (suc n) = none
  wait (suc fuel) limiter (suc n) =
      let chunk = min (suc n) (burst limiter) in
      elim (wait_n limiter chunk) [
        | inl e ↦ some (record { limiter = limiter; chunks = []; error = some e })
        | inr limiter' ↦ Option.map (granted chunk) (wait fuel limiter' (suc n - chunk))
      ]

  abbrev pub total : List ℕ → ℕ
  total [] = 0
  total (c ∷ cs) = c + total cs

  -- `WaitN` refuses only what is larger than the burst: no deadline or cancellation gets in between.
  abbrev pub Serves : Type 0
  Serves = (l : RateLimiter) (c : ℕ) → c ≤ burst l → (l' : RateLimiter) × (wait_n l c ≡ inr l')

  -- What a finished wait for `n` bytes looks like.
  pub record Grants (n cap : ℕ) (w : Waited) : Type 0 where
    pub within : All (λ c. (0 < c) × (c ≤ cap)) w.chunks
    pub below : total w.chunks ≤ n
    pub exact : w.error ≡ none → total w.chunks ≡ n
    pub served : Serves → w.error ≡ none

  Grants-granted :
      (n cap chunk : ℕ) (w : Waited)
      → 0 < chunk
      → chunk ≤ cap
      → chunk ≤ n
      → Grants (n - chunk) cap w
      → Grants n cap (granted chunk w)
  Grants-granted n cap chunk w lo hi fits g = record {
    within = ((lo, hi), g.within);
    below = omega (arith, g.below);
    exact = λ e. omega (arith, g.exact e);
    served = g.served;
  }

  Grants-refused :
      (n cap chunk : ℕ) (limiter : RateLimiter) (e : Error)
      → chunk ≤ burst limiter
      → wait_n limiter chunk ≡ inl e
      → Grants n cap (record { limiter = limiter; chunks = []; error = some e })
  Grants-refused n cap chunk limiter e fits q = record {
    within = tt;
    below = omega arith;
    exact = λ c. cc;
    served = λ serves. let (l, r) = serves limiter chunk fits in cc;
  }

  wait-Grants :
      (fuel : ℕ) (limiter : RateLimiter) (n cap : ℕ)
      → burst limiter ≡ cap
      → 0 < cap
      → n ≤ fuel
      → (w : Waited) × (wait fuel limiter n ≡ some w) × Grants n cap w
  unfolding wait
  wait-Grants fuel limiter zero cap same pos h = (
    record { limiter = limiter; chunks = []; error = none },
    refl,
    record { within = tt; below = omega arith; exact = λ _. refl; served = λ _. refl },
  )
  wait-Grants zero limiter (suc n) cap same pos h = absurd (omega arith)
  wait-Grants (suc fuel) limiter (suc n) cap same pos h =
      let chunk = min (suc n) (burst limiter) in
      elim (⊎-cases (wait_n limiter chunk)) [
        | inl (e, q) ↦ (
          record { limiter = limiter; chunks = []; error = some e },
          rw (q, wait),
          Grants-refused (suc n) cap chunk limiter e (omega arith) q,
        )
        | inr (l, q) ↦
            let (w, done, g) =
              wait-Grants fuel l (suc n - chunk) cap (burst-wait_n limiter l chunk q ∙ same) pos
                (omega arith) in
            (
              granted chunk w,
              rw (q, done, wait),
              Grants-granted (suc n) cap chunk w (omega arith) (omega arith) (omega arith) g,
            )
      ]

  -- With a positive burst the loop ends within `n` rounds. Each amount that it takes is positive and
  -- at most the burst; unless an error ended the loop, the amounts add up to `n`; and there is no
  -- error where `WaitN` refuses only what is larger than the burst.
  pub wait_total :
      (limiter : RateLimiter) (n : ℕ)
      → 0 < burst limiter
      → (w : Waited) × (wait n limiter n ≡ some w) × Grants n (burst limiter) w
  wait_total limiter n pos = wait-Grants n limiter n (burst limiter) refl pos (omega arith)
