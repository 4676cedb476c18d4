-- ===== src/Limit/Bucket.antt =====
-- common/limit/limiter.go: `Limiter`, `New`, `SetLimit` and `bucket`.
use ne_xt_server.Base.{ℕ, ◌-◌, ◌*◌, ◌^◌, ◌≤◌, min, max, ◌≡◌, ◌∙◌, ◌⊎◌, inr, arith}

-- `golang.org/x/time/rate`: a limiter has a rate and a burst, which its setters change one at a
-- time; `wait_n` is `WaitN` for a fixed context, which answers with an error or takes the tokens,
-- and leaves the burst as it is.
pub record RateApi : Type 1 where
  pub Rate : Type 0
  pub Error : Type 0
  pub RateLimiter : Type 0
  pub to_rate : ℕ → Rate
  pub new_limiter : Rate → ℕ → RateLimiter
  pub set_limit : RateLimiter → Rate → RateLimiter
  pub set_burst : RateLimiter → ℕ → RateLimiter
  pub limit : RateLimiter → Rate
  pub burst : RateLimiter → ℕ
  pub wait_n : RateLimiter → ℕ → Error ⊎ RateLimiter
  pub limit-new_limiter : (r : Rate) (b : ℕ) → limit (new_limiter r b) ≡ r
  pub burst-new_limiter : (r : Rate) (b : ℕ) → burst (new_limiter r b) ≡ b
  pub limit-set_limit : (l : RateLimiter) (r : Rate) → limit (set_limit l r) ≡ r
  pub burst-set_limit : (l : RateLimiter) (r : Rate) → burst (set_limit l r) ≡ burst l
  pub limit-set_burst : (l : RateLimiter) (b : ℕ) → limit (set_burst l b) ≡ limit l
  pub burst-set_burst : (l : RateLimiter) (b : ℕ) → burst (set_burst l b) ≡ b
  pub burst-wait_n : (l l' : RateLimiter) (n : ℕ) → wait_n l n ≡ inr l' → burst l' ≡ burst l

abbrev pub min_burst : ℕ
min_burst = 64 * 1024

abbrev pub max_int32 : ℕ
max_int32 = 2 ^ 31 - 1

-- The burst of `bucket`.
unfoldable pub bucket_burst : ℕ → ℕ
bucket_burst bytes_per_second = min (max bytes_per_second min_burst) max_int32

pub bucket_burst_bounds : (n : ℕ) → (min_burst ≤ bucket_burst n) × (bucket_burst n ≤ max_int32)
unfolding bucket_burst
bucket_burst_bounds n = omega arith

module _ (api : RateApi) where
  open api use {
    Rate, RateLimiter, to_rate, new_limiter, set_limit, set_burst, limit, burst, limit-new_limiter,
    burst-new_limiter, limit-set_limit, burst-set_limit, limit-set_burst, burst-set_burst,
  }

  pub record Limiter : Type 0 where
    pub upload : RateLimiter
    pub download : RateLimiter

  unfoldable pub bucket : ℕ → Rate × ℕ
  unfolding bucket_burst
  bucket bytes_per_second = (to_rate bytes_per_second, bucket_burst bytes_per_second)

  unfoldable pub new : ℕ → Limiter
  unfolding bucket
  new bytes_per_second = record {
    upload = new_limiter (bucket bytes_per_second).0 (bucket bytes_per_second).1;
    download = new_limiter (bucket bytes_per_second).0 (bucket bytes_per_second).1;
  }

  -- The body of the loop in `SetLimit`, for one direction.
  set_direction : ℕ → RateLimiter → RateLimiter
  unfolding bucket
  set_direction bytes_per_second limiter =
      set_burst (set_limit limiter (bucket bytes_per_second).0) (bucket bytes_per_second).1

  unfoldable pub set_limiter : Limiter → ℕ → Limiter
  unfolding set_direction
  set_limiter l bytes_per_second = record {
    upload = set_direction bytes_per_second l.upload;
    download = set_direction bytes_per_second l.download;
  }

  -- The limiter allows the rate in both directions, with a burst that holds a datagram.
  pub record Allows (bytes_per_second : ℕ) (l : Limiter) : Type 0 where
    pub upload_rate : limit l.upload ≡ to_rate bytes_per_second
    pub download_rate : limit l.download ≡ to_rate bytes_per_second
    pub upload_burst : burst l.upload ≡ bucket_burst bytes_per_second
    pub download_burst : burst l.download ≡ bucket_burst bytes_per_second

  pub new-Allows : (n : ℕ) → Allows n (new n)
  unfolding new
  new-Allows n = record {
    upload_rate = limit-new_limiter _ _;
    download_rate = limit-new_limiter _ _;
    upload_burst = burst-new_limiter _ _;
    download_burst = burst-new_limiter _ _;
  }

  -- Whatever a limiter allowed before, `SetLimit` makes it allow the new rate, with the burst that
  -- a new limiter of that rate has.
  pub set_limiter-Allows : (l : Limiter) (n : ℕ) → Allows n (set_limiter l n)
  unfolding set_limiter
  set_limiter-Allows l n = record {
    upload_rate = limit-set_burst _ _ ∙ limit-set_limit _ _;
    download_rate = limit-set_burst _ _ ∙ limit-set_limit _ _;
    upload_burst = burst-set_burst _ _;
    download_burst = burst-set_burst _ _;
  }
