-- ===== src/Gateway/Admin/Approval.antt =====
-- Whom an approval lets in.
use tenodera.Prelude.{
  ◌≡◌, refl, sym, ap, ◌∙◌, ℕ, Bool, true, Option, none, some, String, string_eq, Text, arith, find,
  Option-cases, inl, inr, ◌>>=◌,
}
use tenodera.Dict.{get, values}
use tenodera.Gateway.HostsConfig.{
  HostEntry, Disk, replace_pubkey, register_host, new_host, find_by_hostname,
}
use tenodera.Gateway.Enrollment.{is_loopback_text}
use tenodera.Gateway.Enrollment.Paths.{replace_pubkey-key, saved-key}
use tenodera.Gateway.AgentAuth.Pending.{
  PendingEntry, PendingRegistry, has_fingerprint, approve, entry_for_fingerprint,
}
use tenodera.Gateway.Admin.{
  Books, Draws, approved_host, replaced, renamed, deliver_host, approve_entry, pending_approve,
}

replaced-key :
    (draws : Draws) (name : Option Text) (key : String) (r : Option HostEntry × Disk)
    → ((h : HostEntry) → r.0 ≡ some h → h.public_key ≡ some key)
    → (g : HostEntry) → (replaced draws name r).0 ≡ some g
    → g.public_key ≡ some key
unfolding replaced renamed
replaced-key draws name key (none, disk) good g e = ground arith
replaced-key draws none key (some h, disk) good g e =
    let same : h ≡ g = cc in rw (sym same) (good h refl)
replaced-key draws (some n) key (some h, disk) good g e =
    let same : record h { display_name = some n } ≡ g = cc in rw (sym same) (good h refl)

approved_host-key :
    (disk : Disk) (draws : Draws) (name : Option Text) (key : String) (hostname ip : Text)
    (os : Option String) (o : Option HostEntry) (g : HostEntry)
    → (approved_host disk draws name (key, hostname, ip, os) o).0 ≡ some g
    → g.public_key ≡ some key
unfolding approved_host register_host
approved_host-key disk draws name key hostname ip os (some existing) g e =
    replaced-key draws name key (replace_pubkey disk existing.id key draws.outcome)
      (λ h. replace_pubkey-key disk existing.id key draws.outcome h) g e
approved_host-key disk draws name key hostname ip os none g e =
    saved-key (new_host draws.id draws.added_at hostname key (is_loopback_text ip) name os) g key _
      refl e

-- What is sent for the entry that has the fingerprint.
approve-sent :
    (m : PendingRegistry) (receiving : ℕ → Bool) (f : String) (host sent : HostEntry) (tx : ℕ)
    (e : PendingEntry)
    → find (has_fingerprint f) (values m) ≡ some e
    → (approve m receiving f host).0 ≡ some (tx, sent)
    → (sent ≡ host) × ((get e.pubkey_b64 m >>= λ w. w.approve_tx) ≡ some tx) × (receiving tx ≡ true)
unfolding approve
approve-sent m receiving f host sent tx e found s = elim (Option-cases (get e.pubkey_b64 m)) [
  | inl n ↦ absurd (ground (arith, found, n))
  | inr (w, n) ↦ elim (Option-cases w.approve_tx) [
    | inl t ↦ absurd (ground (arith, found, n, t))
    | inr (c, t) ↦ ground (arith, found, n, t)
  ]
]

deliver-sent :
    (b : Books) (draws : Draws) (f : String) (r : Option HostEntry × Disk) (tx : ℕ)
    (sent : HostEntry) (e : PendingEntry)
    → find (has_fingerprint f) (values b.pending) ≡ some e
    → (deliver_host b draws f r).2 ≡ some (tx, sent)
    → (r.0 ≡ some sent)
      × ((get e.pubkey_b64 b.pending >>= λ w. w.approve_tx) ≡ some tx)
      × (draws.receiving tx ≡ true)
unfolding deliver_host
deliver-sent b draws f (none, disk) tx sent e found s = ground arith
deliver-sent b draws f (some host, disk) tx sent e found s =
    let (same, waiting, stands) = approve-sent b.pending draws.receiving f host sent tx e found s in
    (ap (λ h. some h) (sym same), waiting, stands)

-- A host that an approval sends to a waiting agent has the public key of the first pending entry
-- with the approved fingerprint; it goes to the channel that the entry under this key waits at,
-- and the receiver of that channel still stands.
pub approval_sound :
    (b : Books) (draws : Draws) (f : String) (name : Option Text) (tx : ℕ) (host : HostEntry)
    → (pending_approve b draws f name).2 ≡ some (tx, host)
    → (e : PendingEntry) × (find (has_fingerprint f) (values b.pending) ≡ some e)
      × (host.public_key ≡ some e.pubkey_b64)
      × ((get e.pubkey_b64 b.pending >>= λ w. w.approve_tx) ≡ some tx)
      × (draws.receiving tx ≡ true)
unfolding pending_approve approve_entry entry_for_fingerprint
approval_sound b draws f name tx host s =
    elim (Option-cases (find (has_fingerprint f) (values b.pending))) [
      | inl n ↦ absurd (ground (arith, n))
      | inr (e, n) ↦
          let outcome =
            approved_host b.disk draws name (e.pubkey_b64, e.hostname, e.remote_ip, e.os_id)
              (find_by_hostname b.disk e.hostname) in
          let delivered : (deliver_host b draws f outcome).2 ≡ some (tx, host) =
            sym (
              ap
                (λ (o : Option PendingEntry).
                  (approve_entry b draws f name
                    (o >>= λ e. some (e.pubkey_b64, e.hostname, e.remote_ip, e.os_id))).2)
                n)
            ∙ s in
          let (made, waiting, stands) = deliver-sent b draws f outcome tx host e n delivered in
          let key =
            approved_host-key b.disk draws name e.pubkey_b64 e.hostname e.remote_ip e.os_id
              (find_by_hostname b.disk e.hostname) host made in
          (e, n, key, waiting, stands)
    ]
