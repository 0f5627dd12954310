-- ===== src/Gateway/Admin/Tests.antt =====
-- An administrator approves an agent, and the theorems about the endpoints.
use tenodera.Prelude.{
  ◌≡◌, refl, ◌++◌, ap, Bool, true, false, none, some, [], ◌∷◌, string_eq, text_eq, text_beq, codes,
  find, ◌>>=◌, ◌==◌, if◌then◌else◌,
}
use mathlib.Core.Bool.{true≢false}
use tenodera.Std.Str.{strip_prefix}
use tenodera.Dict.{get, values, remove}
use tenodera.Gateway.Session.{Session, SessionStore, admin, get_valid, idle_ok, age_ok}
use tenodera.Gateway.HostsConfig.{
  HostEntry, written, load, save, new_host, register_host, find_by_hostname,
}
use tenodera.Gateway.Auth.{HeaderMap, admin_auth, auth, auth_token, bearer_token}
use tenodera.Gateway.AgentAuth.Pending.{
  PendingEntry, has_fingerprint, approve, entry_for_fingerprint,
}
use tenodera.Gateway.Admin.{
  Books, Draws, approve_agent, endpoint, perform, pending_approve, approve_entry, approved_host,
  deliver_host,
}
use tenodera.Gateway.Admin.Guard.{IsAdmin, books_authorized}
use tenodera.Gateway.Admin.Approval.{approval_sound}

abbrev alice : Session
alice = record {
  id = codes "6f1c";
  user = "alice";
  role = admin;
  created_at = 0;
  last_activity = 0;
}

abbrev store : SessionStore
store = record {
  inner = (codes "6f1c", alice) ∷ [];
  idle_timeout_secs = 900;
  max_lifetime_secs = 14400;
}

abbrev headers : HeaderMap
headers name = if name == "authorization" then some (codes "Bearer " ++ codes "6f1c") else none

abbrev waiting : PendingEntry
waiting = record {
  hostname = codes "web";
  pubkey_b64 = "key1";
  fingerprint_hex = "f1";
  fingerprint_display = "SHA256:f1";
  remote_ip = codes "203.0.113.7";
  connected_at = 2;
  os_id = none;
  approve_tx = some 8;
}

abbrev books : Books
books = record { disk = none; tokens = []; pending = ("key1", waiting) ∷ [] }

abbrev draws : Draws
draws = record {
  now = 5;
  id = "h1";
  value = "";
  added_at = "2026-01-01";
  outcome = written;
  name_outcome = written;
  receiving = λ tx. true;
}

abbrev web : HostEntry
web = new_host "h1" "2026-01-01" (codes "web") "key1" false none none

abbrev is_empty_queue : Books → Bool
is_empty_queue b = elim b.pending as (λ _. Bool) [ [] ↦ true | _ ∷ _ ↦ false ]

books_authorized_example : IsAdmin store draws headers
unfolding endpoint perform admin_auth auth auth_token bearer_token strip_prefix get_valid idle_ok
    age_ok get text_beq pending_approve approve_entry entry_for_fingerprint values approved_host
    deliver_host approve register_host find_by_hostname load save remove
books_authorized_example =
    books_authorized codes store books draws headers (approve_agent "f1" none)
      (λ e. true≢false (ap is_empty_queue e))

approval_sound_example :
    (e : PendingEntry) × (find (has_fingerprint "f1") (values books.pending) ≡ some e)
    × (web.public_key ≡ some e.pubkey_b64)
    × ((get e.pubkey_b64 books.pending >>= λ w. w.approve_tx) ≡ some 8)
    × (draws.receiving 8 ≡ true)
unfolding get text_beq pending_approve approve_entry entry_for_fingerprint values approved_host
    deliver_host approve register_host find_by_hostname load save remove
approval_sound_example = approval_sound books draws "f1" none 8 web refl
