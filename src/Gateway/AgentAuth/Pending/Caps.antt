-- ===== src/Gateway/AgentAuth/Pending/Caps.antt =====
-- How many agents can wait, in all and from one address.
use tenodera.Prelude.{
  ◌≡◌, ◌≤◌, ◌+◌, ℕ, Bool, true, ◌&&◌, Option, none, some, List, [], ◌∷◌, String, string_eq, Text,
  text_eq, ◌==◌, ==_refl, ltb, if◌then◌else◌, length, find, arith, Option-cases, inl, inr,
}
use tenodera.Dict.{get, contains_key, insert, values}
use tenodera.Dict.Laws.{length-insert, length-remove-le, get-insert}
use tenodera.Std.Time.{Instant}
use tenodera.Gateway.HostsConfig.{HostEntry}
use tenodera.Gateway.AgentAuth.Pending.{
  PendingEntry, PendingRegistry, new, max_pending, waiting_from, enqueue, entry_of, remove_pending,
  approve, has_fingerprint,
}

pub data Op : Type 0 where
  arrives : Instant → String → Text → Text → Option String → ℕ → Op
  leaves : String → Op
  approved : (ℕ → Bool) → String → HostEntry → Op

length-approve :
    (m : PendingRegistry) (r : ℕ → Bool) (f : String) (h : HostEntry)
    → length ((approve m r f h).1) ≤ length m
unfolding approve values
length-approve m r f h = elim (Option-cases (find (has_fingerprint f) (values m))) [
  | inl n ↦ ground (arith, n)
  | inr (e, n) ↦ ground (arith, n, length-remove-le e.pubkey_b64 m)
]

waiting_from-insert-new :
    (ip : Text) (k : String) (e : PendingEntry) (m : PendingRegistry)
    → get k m ≡ none
    → waiting_from ip (insert k e m) ≡ waiting_from ip m + (if e.remote_ip == ip then 1 else 0)
unfolding waiting_from values insert get
waiting_from-insert-new ip k e [] h = ground arith
waiting_from-insert-new ip k e ((j, u) ∷ m) h = ground (arith, waiting_from-insert-new ip k e m)

module _ (hex display : String → String) where
  unfoldable pub step : PendingRegistry → Op → PendingRegistry
  unfolding enqueue approve remove_pending
  step m (arrives now k host ip os tx) = (enqueue hex display m now k host ip os tx).1
  step m (leaves k) = remove_pending m k
  step m (approved r f h) = (approve m r f h).1

  abbrev pub run : PendingRegistry → List Op → PendingRegistry
  run m [] = m
  run m (op ∷ ops) = run (step m op) ops

  length-step :
      (m : PendingRegistry) (op : Op) → length m ≤ max_pending → length (step m op) ≤ max_pending
  unfolding step enqueue remove_pending contains_key
  length-step m (arrives now k host ip os tx) h =
      ground (arith, length-insert k (entry_of hex display now k host ip os tx) m)
  length-step m (leaves k) h = ground (arith, length-remove-le k m)
  length-step m (approved r f g) h = omega (arith, length-approve m r f g)

  run_bounded :
      (m : PendingRegistry) (ops : List Op)
      → length m ≤ max_pending
      → length (run m ops) ≤ max_pending
  run_bounded m [] h = h
  run_bounded m (op ∷ ops) h = run_bounded (step m op) ops (length-step m op h)

  -- Whatever agents arrive, leave and are approved, at most 100 wait for approval.
  pub pending_bounded : (ops : List Op) → length (run new ops) ≤ 100
  pending_bounded ops = run_bounded new ops (omega arith)

  -- An agent with a key that is not waiting yet is taken exactly if fewer than 100 wait in all and
  -- fewer than 5 from its address; the registry then has its entry, one more of its address, and
  -- is unchanged otherwise.
  pub enqueue_new :
      (m : PendingRegistry) (now : Instant) (k : String) (host ip : Text) (os : Option String)
      (tx : ℕ)
      → get k m ≡ none
      → let r = enqueue hex display m now k host ip os tx in
        (r.0 ≡ (ltb (length m) 100 && ltb (waiting_from ip m) 5))
        × (r.1 ≡ (if r.0 then insert k (entry_of hex display now k host ip os tx) m else m))
        × (waiting_from ip r.1 ≡ (if r.0 then waiting_from ip m + 1 else waiting_from ip m))
  unfolding enqueue contains_key
  enqueue_new m now k host ip os tx h = ground (
    arith,
    h,
    ==_refl ip,
    waiting_from-insert-new ip k (entry_of hex display now k host ip os tx) m h,
  )

  -- An agent whose key is waiting already is always taken: its new entry, under whatever address,
  -- replaces the old one, and the number of entries stays the same.
  pub enqueue_known :
      (m : PendingRegistry) (now : Instant) (k : String) (host ip : Text) (os : Option String)
      (tx : ℕ) (old : PendingEntry)
      → get k m ≡ some old
      → let r = enqueue hex display m now k host ip os tx in
        (r.0 ≡ true)
        × (get k r.1 ≡ some (entry_of hex display now k host ip os tx))
        × (length r.1 ≡ length m)
  unfolding enqueue contains_key
  enqueue_known m now k host ip os tx old h =
      let entry = entry_of hex display now k host ip os tx in
      ground (arith, h, ==_refl k, get-insert k k entry m, length-insert k entry m)
