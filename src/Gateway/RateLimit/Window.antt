-- ===== src/Gateway/RateLimit/Window.antt =====
-- The limiter answers as the specification: an address is refused exactly if it has
-- `max_attempts` recorded failures within the window, whatever calls came before.
use tenodera.Prelude.{
  ◌≡◌, refl, ℕ, ◌≤◌, ◌<◌, List, [], ◌∷◌, ◌++◌, arith, leb, length, retain, retain-append,
  length-retain-le, append-nil, append_assoc, ==_iff, length-append, ◌∙◌, ap,
}
use tenodera.Dict.{get}
use tenodera.Std.Time.{Instant, Duration, from_secs}
use tenodera.Std.Net.{IpAddr, ip_eq}
use tenodera.Gateway.RateLimit.{LoginRateLimiter, new, in_window, is_limited, check_and_record}
use tenodera.Gateway.RateLimit.Trace.{
  Call, attempt, step, run, recorded, admitted, IsOrdered, last_clock, times_of, retain-later,
  Tracks, Tracks-later, step_const, Tracks-step, Tracks-run, run_const,
}

-- The recorded failures of an address that still count at a time.
pub recent : ℕ → ℕ → List (Instant × Call) → IpAddr → Instant → ℕ
recent max_attempts window_secs calls ip now = length (
    retain (in_window (from_secs window_secs) now)
      (admitted ip (new max_attempts window_secs) calls))

Tracks-new : (max_attempts window_secs : ℕ) → Tracks (new max_attempts window_secs) (λ ip. []) 0
unfolding new times_of get
Tracks-new max_attempts window_secs = record { distinct = tt; same = λ ip. refl }

module _ (max_attempts window_secs : ℕ) (calls : List (Instant × Call))
    (o : IsOrdered 0 calls) where
  recent-eq :
      (ip : IpAddr) (now : Instant)
      → last_clock 0 calls ≤ now
      → length (
          retain
            (in_window (run (new max_attempts window_secs) calls).window now)
            (times_of (run (new max_attempts window_secs) calls) ip))
        ≡ recent max_attempts window_secs calls ip now
  unfolding recent new
  recent-eq ip now le =
      let l = new max_attempts window_secs in
      let k = Tracks-later le (Tracks-run l (λ ip. []) 0 calls o (Tracks-new _ _)) in
      ap length (k.same ip)
      ∙ ap (λ w. length (retain (in_window w now) (admitted ip l calls))) (run_const l calls).0

  -- After any sequence of calls under a clock that does not run backwards, check_and_record
  -- refuses an address exactly if at least max_attempts failures recorded for it still stand
  -- within the window.
  pub check_and_record_exact :
      (ip : IpAddr) (now : Instant)
      → last_clock 0 calls ≤ now
      → (check_and_record (run (new max_attempts window_secs) calls) now ip).0
        ≡ leb max_attempts (recent max_attempts window_secs calls ip now)
  check_and_record_exact ip now le =
      let l = new max_attempts window_secs in
      unfold check_and_record times_of new in ground (arith, recent-eq ip now le, run_const l calls)

  -- After any sequence of calls under a clock that does not run backwards, and where at least one
  -- attempt is allowed, is_limited answers true exactly if at least max_attempts failures recorded
  -- for the address still stand within the window.
  pub is_limited_exact :
      (ip : IpAddr) (now : Instant)
      → 0 < max_attempts
      → last_clock 0 calls ≤ now
      → (is_limited (run (new max_attempts window_secs) calls) now ip).0
        ≡ leb max_attempts (recent max_attempts window_secs calls ip now)
  is_limited_exact ip now pos le =
      let l = new max_attempts window_secs in
      unfold is_limited times_of new in ground (arith, recent-eq ip now le, run_const l calls)

-- What a step records leaves room: no more failures count than are allowed.
Bounded-step :
    (l : LoginRateLimiter) (h : IpAddr → List Instant) (now : Instant) (c : Call) (ip : IpAddr)
    → Tracks l h now
    → length (retain (in_window l.window now) (h ip)) ≤ l.max_attempts
    → length (retain (in_window l.window now) (h ip ++ recorded ip l now c)) ≤ l.max_attempts
unfolding recorded check_and_record times_of
Bounded-step l h now (attempt j) ip k b =
    let p = in_window l.window now in
    ground (
      arith,
      ==_iff j ip,
      ap length (k.same ip),
      append-nil (h ip),
      retain-append p (h ip) (now ∷ []),
      append-nil (retain p (h ip)),
      length-append (retain p (h ip)) (now ∷ []),
    )
Bounded-step l h now _ ip k b = rw append-nil b

retain-later_le :
    (w : Duration) (t now : Instant) (xs : List Instant) (n : ℕ)
    → t ≤ now
    → length (retain (in_window w t) xs) ≤ n
    → length (retain (in_window w now) xs) ≤ n
retain-later_le w t now xs n le b = omega (
  arith,
  ap length (retain-later w t now xs le),
  length-retain-le (in_window w now) (retain (in_window w t) xs),
)

Bounded-run :
    (l : LoginRateLimiter) (h : IpAddr → List Instant) (t : Instant) (calls : List (Instant × Call))
    (ip : IpAddr)
    → IsOrdered t calls
    → Tracks l h t
    → length (retain (in_window l.window t) (h ip)) ≤ l.max_attempts
    → length (retain (in_window l.window (last_clock t calls)) (h ip ++ admitted ip l calls))
      ≤ l.max_attempts
unfolding admitted
Bounded-run l h t [] ip o k b = rw append-nil b
Bounded-run l h t ((now, c) ∷ calls) ip (le, o) k b =
    let k' = Tracks-later le k in
    let b' = Bounded-step l h now c ip k' (retain-later_le l.window t now (h ip) _ le b) in
    let (w, m) = step_const l now c in
    rw (← append_assoc) (
      simp (w, m) at
        (Bounded-run (step l now c) (λ j. h j ++ recorded j l now c) now calls ip o
          (Tracks-step l h now c k') (simp (w, m) b')))

-- After any sequence of calls under a clock that does not run backwards, no window holds more
-- recorded failures of one address than max_attempts.
pub window_bound :
    (max_attempts window_secs : ℕ) (calls : List (Instant × Call)) (ip : IpAddr) (now : Instant)
    → IsOrdered 0 calls
    → last_clock 0 calls ≤ now
    → recent max_attempts window_secs calls ip now ≤ max_attempts
unfolding recent new
window_bound max_attempts window_secs calls ip now o le =
    let l = new max_attempts window_secs in
    retain-later_le l.window (last_clock 0 calls) now (admitted ip l calls) max_attempts le
      (Bounded-run l (λ j. []) 0 calls ip o (Tracks-new max_attempts window_secs) (omega arith))
