-- ===== src/Gateway/HostsConfig/Laws.antt =====
-- What the operations on the registered hosts change, and what they keep.
use tenodera.Prelude.{
  ◌≡◌, refl, Bool, true, none, some, List, [], ◌∷◌, ◌++◌, String, string_eq, Text, text_eq, ==_refl,
  find, arith, map,
}
use tenodera.Gateway.HostsConfig.{
  HostEntry, Disk, written, load, save, update_first, has_id, has_key, register_host,
  replace_pubkey, find_by_pubkey, with_key,
}

-- What identifies a host for the operator.
abbrev pub identity : HostEntry → String × Text × Text
identity h = (h.id, h.name, h.hostname)

find-append :
    {A : Type 0} (p : A → Bool) (a : A) (xs : List A)
    → find p xs ≡ none
    → p a ≡ true
    → find p (xs ++ a ∷ []) ≡ some a
find-append p a [] h e = ground arith
find-append p a (x ∷ xs) h e = ground (arith, find-append p a xs)

find-append_found :
    {A : Type 0} (p : A → Bool) (a b : A) (xs : List A)
    → find p xs ≡ some b
    → find p (xs ++ a ∷ []) ≡ some b
find-append_found p a b [] h = ground arith
find-append_found p a b (x ∷ xs) h = ground (arith, find-append_found p a b xs)

has_key-own : (h : HostEntry) (key : String) → h.public_key ≡ some key → has_key key h ≡ true
has_key-own h key e = ground (arith, ==_refl key)

-- After a registration that is saved, a key that no host had finds the new host.
pub register_host_enrols :
    (disk : Disk) (entry : HostEntry) (key : String)
    → entry.public_key ≡ some key
    → find_by_pubkey disk key ≡ none
    → find_by_pubkey ((register_host disk entry written).1) key ≡ some entry
unfolding register_host find_by_pubkey load save
register_host_enrols disk entry key k h =
    find-append (has_key key) entry (load disk).hosts h (has_key-own entry key k)

-- A registration that is saved does not change which host a key finds, if it found one.
pub register_host_keeps :
    (disk : Disk) (entry old : HostEntry) (key : String)
    → find_by_pubkey disk key ≡ some old
    → find_by_pubkey ((register_host disk entry written).1) key ≡ some old
unfolding register_host find_by_pubkey load save
register_host_keeps disk entry old key h =
    find-append_found (has_key key) entry old (load disk).hosts h

identity-update_first :
    (p : HostEntry → Bool) (f : HostEntry → HostEntry) (hs : List HostEntry)
    → ((h : HostEntry) → identity (f h) ≡ identity h)
    → map identity (update_first p f hs) ≡ map identity hs
unfolding update_first
identity-update_first p f [] same = refl
identity-update_first p f (h ∷ hs) same = ground (arith, same h, identity-update_first p f hs same)

find-update_key :
    (id key : String) (host : HostEntry) (hs : List HostEntry)
    → find (has_id id) hs ≡ some host
    → find (has_key key) hs ≡ none
    → find (has_key key) (update_first (has_id id) (with_key key) hs) ≡ some (with_key key host)
unfolding update_first
find-update_key id key host [] h fresh = ground arith
find-update_key id key host (g ∷ hs) h fresh =
    ground (arith, has_key-own (with_key key g) key refl, find-update_key id key host hs)

-- Replacing the key of a registered host with one that no host has, and saving it, returns the
-- host with the new key, makes the new key find it, and keeps the ids, the names and the host
-- names of all hosts.
pub replace_pubkey_rekeys :
    (disk : Disk) (id key : String) (host : HostEntry)
    → find (has_id id) (load disk).hosts ≡ some host
    → find_by_pubkey disk key ≡ none
    → let after = replace_pubkey disk id key written in
      (after.0 ≡ some (with_key key host))
      × (find_by_pubkey after.1 key ≡ some (with_key key host))
      × (map identity (load after.1).hosts ≡ map identity (load disk).hosts)
unfolding replace_pubkey find_by_pubkey load save
replace_pubkey_rekeys disk id key host h fresh =
    let found = find-update_key id key host (load disk).hosts h fresh in
    let same = identity-update_first (has_id id) (with_key key) (load disk).hosts (λ h. refl) in
    ground (arith, found, same, h)
