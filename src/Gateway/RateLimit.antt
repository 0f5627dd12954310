-- ===== src/Gateway/RateLimit.antt =====
-- panel/crates/gateway/src/rate_limit.rs: the sliding-window limiter of failed logins. A method
-- holds the lock throughout, so it is a function of the state and of the one clock read it makes.
pub mod Trace
pub mod Window
mod Tests
use tenodera.Prelude.{
  Bool, true, false, not, ℕ, Option, none, some, List, [], ◌∷◌, ◌++◌, ltb, leb, if◌then◌else◌,
  length, retain, unwrap_or, is_empty,
}
use tenodera.Dict.{Dict, get, insert, modify}
use tenodera.Std.Time.{Instant, Duration, from_secs, duration_since}
use tenodera.Std.Net.{IpAddr, ip_eq}

pub record LoginRateLimiter : Type 0 where
  pub attempts : Dict IpAddr (List Instant)
  pub max_attempts : ℕ
  pub window : Duration

unfoldable pub new : ℕ → ℕ → LoginRateLimiter
new max_attempts window_secs = record {
  attempts = [];
  max_attempts = max_attempts;
  window = from_secs window_secs;
}

-- The closure that every `retain` of the file passes.
abbrev pub in_window : Duration → Instant → Instant → Bool
in_window window now t = ltb (duration_since now t) window

unfoldable pub is_limited : LoginRateLimiter → Instant → IpAddr → Bool × LoginRateLimiter
unfolding get modify
is_limited self now ip =
    let live = retain (in_window self.window now) in
    elim (get ip self.attempts) [
      | none ↦ (false, self)
      | some times ↦ (
        leb self.max_attempts (length (live times)),
        record self { attempts = modify ip live self.attempts },
      )
    ]

-- `entry(ip).or_default()` leaves an entry behind in either case.
unfoldable pub check_and_record : LoginRateLimiter → Instant → IpAddr → Bool × LoginRateLimiter
unfolding get insert
check_and_record self now ip =
    let times = retain (in_window self.window now) (unwrap_or (get ip self.attempts) []) in
    if leb self.max_attempts (length times)
    then (true, record self { attempts = insert ip times self.attempts })
    else (false, record self { attempts = insert ip (times ++ now ∷ []) self.attempts })

-- The `retain` of `cleanup`: each list is shortened, and the empty ones are dropped.
expire : Duration → Instant → Dict IpAddr (List Instant) → Dict IpAddr (List Instant)
expire window now [] = []
expire window now ((ip, times) ∷ m) =
    let live = retain (in_window window now) times in
    let rest = expire window now m in if is_empty live then rest else (ip, live) ∷ rest

unfoldable pub cleanup : LoginRateLimiter → Instant → LoginRateLimiter
unfolding expire
cleanup self now = record self { attempts = expire self.window now self.attempts }
