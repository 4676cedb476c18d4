-- ===== src/Users/State.antt =====
-- users.go: `userState`. Objects that the source shares by pointer, limiters and the activities of
-- addresses, stand in a store of their state, and a pointer is a number. Times are numbers.
use ne_xt_server.Base.{
  ℕ, ◌+◌, ◌%◌, ◌^◌, Bool, true, false, ◌||◌, Option, none, some, List, [], map, leb, ◌==◌,
  if◌then◌else◌, keep,
}
use ne_xt_server.Base.Int.{ℤ, pos, suc_ℤ, pred_ℤ, is_positive}
use ne_xt_server.Base.Assoc.{lookup, insert}
use ne_xt_server.Base.Sums.{put}
use ne_xt_server.Netip.{Addr, Addr_discrete, unmap}

-- What the table needs of `limit.Limiter`: making one, changing one, and that each allows the rate
-- it was last given.
pub record LimiterOps : Type 1 where
  pub Limiter : Type 0
  pub Allows : ℕ → Limiter → Type 0
  pub new : ℕ → Limiter
  pub set_limit : Limiter → ℕ → Limiter
  pub new-Allows : (n : ℕ) → Allows n (new n)
  pub set_limit-Allows : (l : Limiter) (n : ℕ) → Allows n (set_limit l n)

pub record IpActivity : Type 0 where
  pub active : ℤ
  pub last_seen : ℕ

-- `upload` and `download` are the bits of the `int64` counters. `limiters` and `activities` are the
-- stores; `canceled` says that the context is.
pub record UserState (L : Type 0) : Type 0 where
  pub id : ℤ
  pub canceled : Bool
  pub upload : ℕ
  pub download : ℕ
  pub limiter : Option ℕ
  pub limiters : ℕ → Option L
  pub next_limiter : ℕ
  pub ips : List (Addr × ℕ)
  pub activities : ℕ → IpActivity
  pub next_activity : ℕ
  pub active : ℤ

abbrev pub idle_activity : IpActivity
idle_activity = record { active = pos 0; last_seen = 0 }

unfoldable pub new_user_state : {L : Type 0} → ℤ → UserState L
new_user_state id = record {
  id = id;
  canceled = false;
  upload = 0;
  download = 0;
  limiter = none;
  limiters = λ _. none;
  next_limiter = 0;
  ips = [];
  activities = λ _. idle_activity;
  next_activity = 0;
  active = pos 0;
}

abbrev pub cancel : {L : Type 0} → UserState L → UserState L
cancel u = record u { canceled = true }

-- `atomic.Int64.Add`
abbrev pub add64 : ℕ → ℕ → ℕ
add64 a b = (a + b) % 2 ^ 64

-- What a counted connection does for each payload.
abbrev pub add_traffic : {L : Type 0} → ℕ → ℕ → UserState L → UserState L
add_traffic up down u = record u { upload = add64 u.upload up; download = add64 u.download down }

module _ (ops : LimiterOps) where
  open ops use {Limiter, new, set_limit}

  -- The two cases of a positive limit, by the limiter that is loaded.
  set_positive : ℕ → UserState Limiter → Option ℕ → UserState Limiter
  set_positive n u none = record u {
    limiter = some u.next_limiter;
    limiters = put u.limiters u.next_limiter (some (new n));
    next_limiter = u.next_limiter + 1;
  }
  set_positive n u (some p) = record u {
    limiters =
        put u.limiters p (elim (u.limiters p) [ none ↦ none | some l ↦ some (set_limit l n) ]);
  }

  unfoldable pub set_speed_limit : UserState Limiter → ℕ → UserState Limiter
  unfolding set_positive
  set_speed_limit u bytes_per_second =
      if bytes_per_second == 0
      then record u { limiter = none }
      else set_positive bytes_per_second u u.limiter

-- The test of the loop in `onlineIPs`.
abbrev pub is_online : ℕ → IpActivity → Bool
is_online since a = is_positive a.active || leb since a.last_seen

-- The loop of `onlineIPs`: the entries that it keeps are those whose address it returns.
unfoldable pub online_entries : ℕ → (ℕ → IpActivity) → List (Addr × ℕ) → List (Addr × ℕ)
online_entries since activities = keep (λ e. is_online since (activities e.1))

module _ {L : Type 0} where
  -- The activity of an address, made if the map has none.
  unfoldable pub activity_for : UserState L → Addr → Option ℕ → UserState L × ℕ
  activity_for u address (some p) = (u, p)
  activity_for u address none = (
    record u {
      ips = insert Addr_discrete address u.next_activity u.ips;
      activities = put u.activities u.next_activity idle_activity;
      next_activity = u.next_activity + 1;
    },
    u.next_activity,
  )

  unfoldable pub begin_activity : UserState L → ℕ → ℕ → UserState L
  begin_activity u p now = record u {
    activities =
        put u.activities p (record { active = suc_ℤ (u.activities p).active; last_seen = now });
    active = suc_ℤ u.active;
  }

  -- `open`, which also returns the activity that the returned function closes over.
  unfoldable pub open_connection : UserState L → Addr → ℕ → UserState L × ℕ
  unfolding activity_for begin_activity
  open_connection u address now =
      let (u', p) = activity_for u (unmap address) (lookup Addr_discrete (unmap address) u.ips) in
      (begin_activity u' p now, p)

  -- The body that the function returned by `open` runs once.
  unfoldable pub close_connection : UserState L → ℕ → ℕ → UserState L
  close_connection u p now = record u {
    activities =
        put u.activities p (record { active = pred_ℤ (u.activities p).active; last_seen = now });
    active = pred_ℤ u.active;
  }

  unfoldable pub online_ips : UserState L → ℕ → List Addr × UserState L
  unfolding online_entries
  online_ips u since =
      let entries = online_entries since u.activities u.ips in
      (map (λ e. e.0) entries, record u { ips = entries })

  abbrev pub active_connections : UserState L → ℤ
  active_connections u = u.active
