-- ===== src/Gateway/RateLimit/Tests.antt =====
-- Runs of the limiter, and the theorems about it at inputs that meet their hypotheses.
use tenodera.Prelude.{◌≡◌, refl, true, false, List, [], ◌∷◌, arith, leb}
use tenodera.Std.Time.{Instant}
use tenodera.Std.Net.{IpAddr, v4}
use tenodera.Gateway.RateLimit.{new, check_and_record, is_limited, cleanup}
use tenodera.Gateway.RateLimit.Trace.{Call, attempt, sweep, run}
use tenodera.Gateway.RateLimit.Window.{recent, check_and_record_exact}

abbrev office : IpAddr
office = v4 0x01020304

-- Two failures, a sweep and a third attempt, with two allowed in sixty seconds.
abbrev evening : List (Instant × Call)
evening =
    (5, attempt office)
    ∷ (1_000_000_005, attempt office)
    ∷ (2_000_000_000, sweep)
    ∷ (2_000_000_000, attempt office)
    ∷ []

third_refused : (check_and_record (run (new 2 60) evening) 2_000_000_001 office).0 ≡ true
unfolding check_and_record run new is_limited cleanup
third_refused = refl

accepted_after_window : (check_and_record (run (new 2 60) evening) 60_000_000_005 office).0 ≡ false
unfolding check_and_record run new is_limited cleanup
accepted_after_window = refl

check_and_record_exact_example :
    (check_and_record (run (new 2 60) evening) 3_000_000_000 office).0
    ≡ leb 2 (recent 2 60 evening office 3_000_000_000)
check_and_record_exact_example =
    check_and_record_exact 2 60 evening (omega arith) office 3_000_000_000 (omega arith)
