-- ===== src/Gateway/AgentAuth/PendingTests.antt =====
-- Agents that wait for approval, and the theorems about them at inputs that meet their hypotheses.
use tenodera.Prelude.{
  ◌≡◌, ◌≤◌, refl, true, none, some, [], ◌∷◌, String, string_eq, Text, text_eq, codes, length,
}
use tenodera.Dict.{get}
use tenodera.Gateway.AgentAuth.Pending.{PendingEntry, PendingRegistry, new, enqueue, entry_of}
use tenodera.Gateway.AgentAuth.Pending.Caps.{arrives, leaves, run, pending_bounded, enqueue_known}

abbrev fingerprint : String → String
fingerprint key = key

abbrev office : Text
office = codes "203.0.113.7"

abbrev waiting : PendingEntry
waiting = entry_of fingerprint fingerprint 5 "key1" (codes "web") office none 1

abbrev queue : PendingRegistry
queue = ("key1", waiting) ∷ []

pending_bounded_example :
    length (
      run fingerprint fingerprint new
        (arrives 5 "key1" (codes "web") office none 1 ∷ leaves "key1" ∷ []))
    ≤ 100
pending_bounded_example =
    pending_bounded fingerprint fingerprint
      (arrives 5 "key1" (codes "web") office none 1 ∷ leaves "key1" ∷ [])

enqueue_known_example :
    let r =
      enqueue fingerprint fingerprint queue 6 "key1" (codes "web") (codes "198.51.100.1") none 2 in
    (r.0 ≡ true)
    × (get "key1" r.1
        ≡ some
            (entry_of fingerprint fingerprint 6 "key1" (codes "web") (codes "198.51.100.1") none 2))
    × (length r.1 ≡ length queue)
unfolding get
enqueue_known_example =
    enqueue_known fingerprint fingerprint queue 6 "key1" (codes "web") (codes "198.51.100.1") none 2
      waiting refl
