-- ===== src/Agent/Hosts/View.antt =====
-- The list of hosts as a partial function from ids, and what the actions make of it.
use tenodera.Prelude.{
  ◌%◌, ◌^◌, ◌≡◌, refl, sym, ap, ◌∙◌, true, false, not, ◌||◌, Option, none, Text, nat_eq, text_eq,
  ◌==◌, ==_iff, any, retain, length, is_empty, is_some, if◌then◌else◌, Bool-cases, inl, inr,
}
use tenodera.Protocol.Json.{Json}
use tenodera.Agent.Util.{require_admin}
use tenodera.Agent.Hosts.{
  HostEntry, Given, Disk, written, load_config, has_id, new_entry, Action, list, add, edit, remove,
  unknown, act, action_add, action_edit, action_remove, only_reads, handle_data,
}
use tenodera.Agent.Hosts.Lookup.{
  lookup, or_new, changed, new_host, lookup-append, lookup-edit_first, lookup-retain, retain_same,
  lookup-any,
}

-- What an action that is allowed makes of the host with an id.
abbrev pub view_after : Action → Text → Option HostEntry → Option HostEntry
view_after list j old = old
view_after (add id added_at g) j old =
    if is_empty g.name || is_empty g.address
    then old
    else or_new old (
        new_host j (record {
          id = id;
          name = g.name;
          address = g.address;
          user = g.user;
          ssh_port = g.ssh_port % 2 ^ 16;
          added_at = added_at;
          host_key = g.host_key;
        }))
view_after (edit id g) j old =
    if is_empty id || is_empty g.name || is_empty g.address
    then old
    else if id == j
    then changed g old
    else old
view_after (remove id) j old = if id == j then none else old
view_after unknown j old = old

abbrev pub after : Disk → Text → Option HostEntry
after disk j = lookup j (load_config disk)

unseen :
    (disk : Disk) (id : Text) (g : Given) (j : Text)
    → any (has_id id) (load_config disk) ≡ false
    → after disk j ≡ (if id == j then changed g (after disk j) else after disk j)
unseen disk id g j gone = elim (Bool-cases (id == j)) [
  | inr away ↦ rw away refl
  | inl here ↦
      let absent : after disk j ≡ none =
        ap (after disk) (sym ((==_iff id j).0 here)) ∙ lookup-any id (load_config disk) gone in
      rw (here, absent) refl
]

act-view_after :
    (disk : Disk) (action : Action) (j : Text)
    → after (act disk action written).1 j ≡ view_after action j (after disk j)
unfolding act action_add action_edit action_remove load_config
act-view_after disk list j = refl
act-view_after disk unknown j = refl
act-view_after disk (add id added_at g) j =
    elim (Bool-cases (is_empty g.name || is_empty g.address)) [
      | inl lacks ↦ rw lacks refl
      | inr given ↦ rw given (lookup-append j (load_config disk) (new_entry id added_at g))
    ]
act-view_after disk (edit id g) j =
    elim (Bool-cases (is_empty id || is_empty g.name || is_empty g.address)) [
      | inl lacks ↦ rw lacks refl
      | inr given ↦ elim (Bool-cases (any (has_id id) (load_config disk))) [
        | inl there ↦ rw (given, there) (lookup-edit_first j id g (load_config disk))
        | inr gone ↦ rw (given, gone) (unseen disk id g j gone)
      ]
    ]
act-view_after disk (remove id) j =
    let hosts = load_config disk in
    let kept = retain (λ h. not (has_id id h)) hosts in
    elim (Bool-cases (length kept == length hosts)) [
      | inl same ↦ rw same (
          ap (lookup j) (sym (retain_same (λ h. not (has_id id h)) hosts same))
          ∙ lookup-retain j id hosts)
      | inr fewer ↦ rw fewer (lookup-retain j id hosts)
    ]

reads_only :
    (action : Action) (j : Text) (old : Option HostEntry)
    → only_reads action ≡ true
    → view_after action j old ≡ old
reads_only list j old h = refl
reads_only (add id added_at g) j old h = cc
reads_only (edit id g) j old h = cc
reads_only (remove id) j old h = cc
reads_only unknown j old h = cc

-- Where the file can be saved, what is found under any id after a request is, unless require_admin
-- refuses its sender, what its action makes of what was found before, and else what was found: a
-- new host with what was given, unless its id is taken, stands under the drawn id; an edit changes
-- the host with its id, whose id, time and, where none is given, host key stay; a removal leaves
-- none; and nothing else changes, nor does anything at an action that lacks a name, an address or
-- an id.
pub handle_data-view_after :
    (json : Json) (value : json.Value) (disk : Disk) (action : Action) (j : Text)
    → after (handle_data json value disk action written).1 j ≡ (
        if is_some (require_admin json value)
        then after disk j
        else view_after action j (after disk j))
unfolding handle_data
handle_data-view_after json value disk action j =
    elim (Bool-cases (is_some (require_admin json value))) [
      | inr on ↦ elim (Bool-cases (only_reads action)) [
        | inl reads ↦ rw (on, reads) (act-view_after disk action j)
        | inr changes ↦ rw (on, changes) (act-view_after disk action j)
      ]
      | inl off ↦ elim (Bool-cases (only_reads action)) [
        | inl reads ↦
            rw (off, reads)
              (act-view_after disk action j ∙ reads_only action j (after disk j) reads)
        | inr changes ↦ rw (off, changes) refl
      ]
    ]
