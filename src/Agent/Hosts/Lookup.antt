-- ===== src/Agent/Hosts/Lookup.antt =====
-- Looking up hosts by their ids.
use tenodera.Prelude.{
  ◌%◌, ◌^◌, ◌≡◌, refl, sym, ap, ◌∙◌, ℕ, suc, ◌≤◌, Bool, true, false, not, Option, none, some, List,
  [], ◌∷◌, ◌++◌, Text, nat_eq, text_eq, ◌==◌, ==_iff, any, find, retain, length, is_empty, arith,
  if◌then◌else◌, Bool-cases, inl, inr, length-retain-le,
}
use tenodera.Agent.Hosts.{HostEntry, Given, has_id, edit_first}

abbrev pub lookup : Text → List HostEntry → Option HostEntry
lookup id hosts = find (has_id id) hosts

abbrev pub or_new : Option HostEntry → Option HostEntry → Option HostEntry
or_new none new = new
or_new (some h) new = some h

abbrev pub changed : Given → Option HostEntry → Option HostEntry
changed g none = none
changed g (some h) = some (record {
  id = h.id;
  name = g.name;
  address = g.address;
  user = g.user;
  ssh_port = g.ssh_port % 2 ^ 16;
  added_at = h.added_at;
  host_key = if is_empty g.host_key then h.host_key else g.host_key;
})

abbrev pub new_host : Text → HostEntry → Option HostEntry
new_host j h = if h.id == j then some h else none

pub lookup-append :
    (j : Text) (hosts : List HostEntry) (h : HostEntry)
    → lookup j (hosts ++ h ∷ []) ≡ or_new (lookup j hosts) (new_host j h)
lookup-append j [] h = refl
lookup-append j (x ∷ hosts) h = elim (Bool-cases (has_id j x)) [
  | inl here ↦ rw here refl
  | inr away ↦ rw away (lookup-append j hosts h)
]

apart : (x id j : Text) → (x == id) ≡ false → (x == j) ≡ true → (id == j) ≡ false
apart x id j off this = elim (Bool-cases (id == j)) [
  | inr away ↦ away
  | inl here ↦
      let same : x ≡ id = (==_iff x j).0 this ∙ sym ((==_iff id j).0 here) in
      let clash : true ≡ false = sym ((==_iff x id).1 same) ∙ off in absurd (cc)
]

-- An edit is seen at its id only, which stays.
pub lookup-edit_first :
    (j id : Text) (g : Given) (hosts : List HostEntry)
    → lookup j (edit_first id g hosts)
      ≡ (if id == j then changed g (lookup j hosts) else lookup j hosts)
unfolding edit_first
lookup-edit_first j id g [] = elim (Bool-cases (id == j)) [
  | inl here ↦ rw here refl
  | inr away ↦ rw away refl
]
lookup-edit_first j id g (h ∷ hosts) = elim (Bool-cases (h.id == id)) [
  | inl on ↦
      let at_j = ap (λ x. x == j) ((==_iff h.id id).0 on) in
      elim (Bool-cases (id == j)) [
        | inl here ↦ rw (on, at_j ∙ here, here) refl
        | inr away ↦ rw (on, at_j ∙ away, away) refl
      ]
  | inr off ↦ elim (Bool-cases (h.id == j)) [
    | inl this ↦ rw (off, this, apart h.id id j off this) refl
    | inr that ↦ rw (off, that) (lookup-edit_first j id g hosts)
  ]
]

pub lookup-retain :
    (j id : Text) (hosts : List HostEntry)
    → lookup j (retain (λ h. not (has_id id h)) hosts) ≡ (if id == j then none else lookup j hosts)
lookup-retain j id [] = elim (Bool-cases (id == j)) [
  | inl here ↦ rw here refl
  | inr away ↦ rw away refl
]
lookup-retain j id (h ∷ hosts) = elim (Bool-cases (h.id == id)) [
  | inl on ↦
      let at_j = ap (λ x. x == j) ((==_iff h.id id).0 on) in
      elim (Bool-cases (id == j)) [
        | inl here ↦ rw (on, here) (lookup-retain j id hosts ∙ rw here refl)
        | inr away ↦ rw (on, at_j ∙ away, away) (lookup-retain j id hosts ∙ rw away refl)
      ]
  | inr off ↦ elim (Bool-cases (h.id == j)) [
    | inl this ↦ rw (off, this, apart h.id id j off this) refl
    | inr that ↦ rw (off, that) (lookup-retain j id hosts)
  ]
]

suc_same : (a b : ℕ) → (suc a == suc b) ≡ true → (a == b) ≡ true
suc_same a b h = ground arith

too_short : (a b : ℕ) → a ≤ b → (a == suc b) ≡ true → ⊥
too_short a b le h = ground arith

-- Where nothing was dropped, nothing has the id.
pub retain_same {ℓ} :
    {A : Type ℓ} (p : A → Bool) (xs : List A)
    → (length (retain p xs) == length xs) ≡ true
    → retain p xs ≡ xs
retain_same p [] h = refl
retain_same p (x ∷ xs) h = elim (Bool-cases (p x)) [
  | inl on ↦ rw on (
      ap (λ ys. x ∷ ys)
        (retain_same p xs (suc_same (length (retain p xs)) (length xs) (rw on at h))))
  | inr off ↦
      absurd (too_short (length (retain p xs)) (length xs) (length-retain-le p xs) (rw off at h))
]

-- An edit that finds no host changes nothing.
pub lookup-any :
    (id : Text) (hosts : List HostEntry) → any (has_id id) hosts ≡ false → lookup id hosts ≡ none
lookup-any id [] h = refl
lookup-any id (x ∷ hosts) h =
    let off : has_id id x ≡ false = ground arith in rw off (lookup-any id hosts (ground arith))
