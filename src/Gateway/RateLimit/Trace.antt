-- ===== src/Gateway/RateLimit/Trace.antt =====
-- Sequences of calls, what they record, and the state that they leave.
use tenodera.Prelude.{
  ◌≡◌, refl, ◌≤◌, none, List, [], ◌∷◌, ◌++◌, arith, if◌then◌else◌, retain, retain_idem,
  retain-append, unwrap_or, append-nil, append_assoc, ==_iff, ◌==◌, sym, ◌∙◌, ap,
}
use tenodera.Dict.{Dict, get, IsMap}
use tenodera.Dict.Laws.{get-insert, get-modify, IsMap-insert, IsMap-modify}
use tenodera.Std.Time.{Instant, Duration}
use tenodera.Std.Net.{IpAddr, ip_eq}
use tenodera.Gateway.RateLimit.{
  LoginRateLimiter, in_window, is_limited, check_and_record, expire, cleanup,
}

pub data Call : Type 0 where
  query attempt : IpAddr → Call
  sweep : Call

unfoldable pub step : LoginRateLimiter → Instant → Call → LoginRateLimiter
step l now (query ip) = (is_limited l now ip).1
step l now (attempt ip) = (check_and_record l now ip).1
step l now sweep = cleanup l now

unfoldable pub run : LoginRateLimiter → List (Instant × Call) → LoginRateLimiter
unfolding step
run l [] = l
run l ((now, c) ∷ calls) = run (step l now c) calls

-- The failure that a call records for `ip`, if it records one.
unfoldable pub recorded : IpAddr → LoginRateLimiter → Instant → Call → List Instant
recorded ip l now (attempt j) =
    if j == ip then (if (check_and_record l now j).0 then [] else now ∷ []) else []
recorded ip l now _ = []

-- The failures that a sequence of calls records for `ip`, the oldest first.
unfoldable pub admitted : IpAddr → LoginRateLimiter → List (Instant × Call) → List Instant
unfolding recorded step
admitted ip l [] = []
admitted ip l ((now, c) ∷ calls) = recorded ip l now c ++ admitted ip (step l now c) calls

-- The clock does not run backwards.
abbrev pub IsOrdered : Instant → List (Instant × Call) → Type 0
IsOrdered t [] = Unit
IsOrdered t ((now, c) ∷ calls) = (t ≤ now) × IsOrdered now calls

abbrev pub last_clock : Instant → List (Instant × Call) → Instant
last_clock t [] = t
last_clock t ((now, c) ∷ calls) = last_clock now calls

unfoldable pub times_of : LoginRateLimiter → IpAddr → List Instant
times_of l ip = unwrap_or (get ip l.attempts) []

pub retain-later :
    (w : Duration) (t now : Instant) (xs : List Instant)
    → t ≤ now
    → retain (in_window w now) (retain (in_window w t) xs) ≡ retain (in_window w now) xs
retain-later w t now [] h = refl
retain-later w t now (x ∷ xs) h = ground (arith, retain-later w t now xs)

get-expire-none :
    (w : Duration) (now : Instant) (ip : IpAddr) (m : Dict IpAddr (List Instant))
    → get ip m ≡ none
    → get ip (expire w now m) ≡ none
unfolding get expire
get-expire-none w now ip [] h = refl
get-expire-none w now ip ((j, ts) ∷ m) h = ground (arith, get-expire-none w now ip m)

get-expire :
    (w : Duration) (now : Instant) (ip : IpAddr) (m : Dict IpAddr (List Instant))
    → IsMap m
    → unwrap_or (get ip (expire w now m)) [] ≡ retain (in_window w now) (unwrap_or (get ip m) [])
unfolding get expire
get-expire w now ip [] h = refl
get-expire w now ip ((j, ts) ∷ m) (fresh, h) =
    ground (arith, ==_iff j ip, get-expire w now ip m h, get-expire-none w now j m fresh)

IsMap-expire :
    (w : Duration) (now : Instant) (m : Dict IpAddr (List Instant))
    → IsMap m
    → IsMap (expire w now m)
unfolding expire
IsMap-expire w now [] h = tt
IsMap-expire w now ((j, ts) ∷ m) (fresh, h) =
    ground (arith, IsMap-expire w now m h, get-expire-none w now j m fresh)

-- The state knows, of every address, the recorded failures that still count.
pub record Tracks (l : LoginRateLimiter) (h : IpAddr → List Instant) (now : Instant) : Type 0 where
  pub distinct : IsMap l.attempts
  pub same :
      (ip : IpAddr)
      → retain (in_window l.window now) (times_of l ip) ≡ retain (in_window l.window now) (h ip)

pub Tracks-later :
    {l : LoginRateLimiter} {h : IpAddr → List Instant} {t now : Instant}
    → t ≤ now
    → Tracks l h t
    → Tracks l h now
Tracks-later {l} {h} {t} {now} le k = record {
  distinct = k.distinct;
  same = λ ip.
      sym (retain-later l.window t now (times_of l ip) le)
      ∙ ap (retain (in_window l.window now)) (k.same ip)
      ∙ retain-later l.window t now (h ip) le;
}

pub step_const :
    (l : LoginRateLimiter) (now : Instant) (c : Call)
    → ((step l now c).window ≡ l.window) × ((step l now c).max_attempts ≡ l.max_attempts)
unfolding step is_limited check_and_record cleanup
step_const l now (query ip) = ground arith
step_const l now (attempt ip) = ground arith
step_const l now sweep = ground arith

pub times-step :
    (l : LoginRateLimiter) (now : Instant) (c : Call) (ip : IpAddr)
    → IsMap l.attempts
    → retain (in_window l.window now) (times_of (step l now c) ip)
      ≡ retain (in_window l.window now) (times_of l ip ++ recorded ip l now c)
unfolding step is_limited check_and_record cleanup times_of recorded
times-step l now (query j) ip d = ground (
  arith,
  ==_iff j ip,
  get-modify j ip (retain (in_window l.window now)) l.attempts,
  retain_idem (in_window l.window now) (unwrap_or (get ip l.attempts) []),
  append-nil (times_of l ip),
)
times-step l now (attempt j) ip d =
    let p = in_window l.window now in
    let live = retain p (unwrap_or (get j l.attempts) []) in
    ground (
      arith,
      ==_iff j ip,
      get-insert j ip live l.attempts,
      get-insert j ip (live ++ now ∷ []) l.attempts,
      retain_idem p (unwrap_or (get j l.attempts) []),
      retain-append p live (now ∷ []),
      retain-append p (unwrap_or (get j l.attempts) []) (now ∷ []),
      append-nil (times_of l ip),
      append-nil live,
    )
times-step l now sweep ip d =
    rw (get-expire _ _ _ _ d, append-nil)
      (retain_idem (in_window l.window now) (unwrap_or (get ip l.attempts) []))

IsMap-step :
    (l : LoginRateLimiter) (now : Instant) (c : Call)
    → IsMap l.attempts
    → IsMap (step l now c).attempts
unfolding step is_limited check_and_record cleanup
IsMap-step l now (query j) d =
    ground (arith, IsMap-modify j (retain (in_window l.window now)) l.attempts d)
IsMap-step l now (attempt j) d =
    let live = retain (in_window l.window now) (unwrap_or (get j l.attempts) []) in
    ground (arith, IsMap-insert j live l.attempts d, IsMap-insert j (live ++ now ∷ []) l.attempts d)
IsMap-step l now sweep d = IsMap-expire l.window now l.attempts d

pub Tracks-step :
    (l : LoginRateLimiter) (h : IpAddr → List Instant) (now : Instant) (c : Call)
    → Tracks l h now
    → Tracks (step l now c) (λ ip. h ip ++ recorded ip l now c) now
Tracks-step l h now c k = record {
  distinct = IsMap-step l now c k.distinct;
  same = λ ip. simp (step_const l now c).0 (
      times-step l now c ip k.distinct
      ∙ retain-append _ (times_of l ip) _
      ∙ ap (λ xs. xs ++ retain (in_window l.window now) (recorded ip l now c)) (k.same ip)
      ∙ sym (retain-append _ (h ip) _));
}

pub Tracks-run :
    (l : LoginRateLimiter) (h : IpAddr → List Instant) (t : Instant) (calls : List (Instant × Call))
    → IsOrdered t calls
    → Tracks l h t
    → Tracks (run l calls) (λ ip. h ip ++ admitted ip l calls) (last_clock t calls)
unfolding run admitted
Tracks-run l h t [] o k = record { distinct = k.distinct; same = λ ip. rw append-nil (k.same ip) }
Tracks-run l h t ((now, c) ∷ calls) (le, o) k =
    let next = Tracks-step l h now c (Tracks-later le k) in
    let r = Tracks-run (step l now c) _ now calls o next in
    record { distinct = r.distinct; same = λ ip. rw (← append_assoc) (r.same ip) }

pub run_const :
    (l : LoginRateLimiter) (calls : List (Instant × Call))
    → ((run l calls).window ≡ l.window) × ((run l calls).max_attempts ≡ l.max_attempts)
unfolding run
run_const l [] = (refl, refl)
run_const l ((now, c) ∷ calls) =
    let (w, m) = run_const (step l now c) calls in
    let (w', m') = step_const l now c in (w ∙ w', m ∙ m')
