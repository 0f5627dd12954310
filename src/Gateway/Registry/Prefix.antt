-- ===== src/Gateway/Registry/Prefix.antt =====
-- Prefixing and stripping are inverse, so the sessions that share an agent do not meet.
use mathlib.Core.Path.{subst}
use tenodera.Prelude.{
  ◌≡◌, ◌≢◌, ℕ, suc, ◌+◌, ◌-◌, ◌≤◌, true, not, Option, none, some, [], ◌∷◌, ◌++◌, arith, refl, Text,
  text_eq, nat_eq, ◌==◌, length, take, drop, all, retain, get_elem?, length-take-le, retain-all,
  all-retain, all-take, take_all, all-append, ap,
}
use tenodera.Protocol.Channel
use tenodera.Protocol.Channel.{ChannelId, is_id_byte, is_ascii_alphanumeric, new_iff}
use tenodera.Protocol.Message.{Message, payload, control, close}
use tenodera.Gateway.Registry.{
  session_prefix_len, session_prefix, prefixed, prefix_message, strip_prefix_from_message,
  agent_channel, on_channel,
}

-- Taking the prefix of a prefix changes nothing: the socket handler and the registry, which both
-- derive it, agree on one prefix.
pub session_prefix_idem : (s : Text) → session_prefix (session_prefix s) ≡ session_prefix s
unfolding session_prefix
session_prefix_idem s =
    let p = λ (c : ℕ). not (c == b'-') in
    rw
      (retain-all p (take session_prefix_len (retain p s))
        (all-take p session_prefix_len (retain p s) (all-retain p s)))
      (take_all session_prefix_len _ (length-take-le session_prefix_len _))

-- A text that is cut at the length of its first part.
cut_at :
    (p c : Text) (x : ℕ)
    → (take (length p) (p ++ x ∷ c) ≡ p)
      × (get_elem? (p ++ x ∷ c) (length p) ≡ some x)
      × (drop (suc (length p)) (p ++ x ∷ c) ≡ c)
      × (length (p ++ x ∷ c) ≡ suc (length p) + length c)
cut_at [] c x = (refl, refl, refl, omega arith)
cut_at (y ∷ p) c x = let (t, g, d, l) = cut_at p c x in (ap (λ q. y ∷ q) t, g, d, omega arith)

-- The parts of a prefixed channel id.
parts :
    (p c : Text)
    → length p ≡ session_prefix_len
    → (take session_prefix_len (prefixed p c) ≡ p)
      × (get_elem? (prefixed p c) session_prefix_len ≡ some b'-')
      × (drop (session_prefix_len + 1) (prefixed p c) ≡ c)
      × (length (prefixed p c) ≡ session_prefix_len + 1 + length c)
unfolding prefixed
parts p c l =
    subst
      (λ n.
        (take n (p ++ b'-' ∷ c) ≡ p)
        × (get_elem? (p ++ b'-' ∷ c) n ≡ some b'-')
        × (drop (suc n) (p ++ b'-' ∷ c) ≡ c)
        × (length (p ++ b'-' ∷ c) ≡ suc n + length c))
      l (cut_at p c b'-')

prefixed-ne-nil : (p c : Text) → length p ≡ session_prefix_len → prefixed p c ≢ []
unfolding prefixed
prefixed-ne-nil [] c l = absurd (omega arith)
prefixed-ne-nil (x ∷ p) c l = cc

all-prefixed :
    (p c : Text)
    → all is_id_byte p ≡ true
    → all is_id_byte c ≡ true
    → all is_id_byte (prefixed p c) ≡ true
unfolding prefixed
all-prefixed p c hp hc = rw (all-append, hp, hc) (unfold is_id_byte in refl)

-- A channel id that the panel accepts, behind a session prefix, is one that the agent accepts.
pub new-prefixed :
    (p c : Text)
    → length p ≡ session_prefix_len
    → all is_id_byte p ≡ true
    → length c ≤ Channel.max_channel_id_len - (session_prefix_len + 1)
    → Channel.new c ≡ Channel.ok c
    → Channel.new (prefixed p c) ≡ Channel.ok (prefixed p c)
new-prefixed p c l good short valid =
    let (_, nonempty, _, bytes) = (new_iff c c).0 valid in
    (new_iff (prefixed p c) (prefixed p c)).1
      (refl, prefixed-ne-nil p c l, omega (arith, (parts p c l).3), all-prefixed p c good bytes)

module _ {Value Fields : Type 0} where
  -- The channel of a message that a session sends and that an agent may send too.
  abbrev pub sent_channel : Message Value Fields → Option ChannelId
  sent_channel (payload channel _) = some channel
  sent_channel (control channel _ _) = some channel
  sent_channel (close channel _) = some channel
  sent_channel _ = none

  -- A message of an agent on a prefixed channel goes to the session of the prefix, on the channel
  -- that the session named.
  pub strip_prefixed :
      (m : Message Value Fields) (p c : Text)
      → length p ≡ session_prefix_len
      → c ≢ []
      → agent_channel m ≡ some (prefixed p c)
      → strip_prefix_from_message m ≡ some (on_channel c m, p)
  unfolding strip_prefix_from_message
  strip_prefixed m p [] l ne e = absurd (ne refl)
  strip_prefixed m p (x ∷ c) l ne e =
      let (t, g, d, n) = parts p (x ∷ c) l in ground (arith, e, t, g, d, n)

  -- Taking the prefix off a message that was put on a non-empty channel with a prefix of the fixed
  -- length gives the message and the prefix.
  pub strip-prefix_message :
      (m : Message Value Fields) (p c : Text)
      → length p ≡ session_prefix_len
      → c ≢ []
      → sent_channel m ≡ some c
      → strip_prefix_from_message (prefix_message m p) ≡ some (m, p)
  unfolding prefix_message
  strip-prefix_message (payload c' v) p c l ne e =
      strip_prefixed (payload (prefixed p c') v) p c' l (λ n. ne (cc)) refl
  strip-prefix_message (control c' k x) p c l ne e =
      strip_prefixed (control (prefixed p c') k x) p c' l (λ n. ne (cc)) refl
  strip-prefix_message (close c' q) p c l ne e =
      strip_prefixed (close (prefixed p c') q) p c' l (λ n. ne (cc)) refl
  strip-prefix_message _ p c l ne e = cc

  -- isolation
  pub prefix_message_injective :
      (m m' : Message Value Fields) (p p' c c' : Text)
      → length p ≡ session_prefix_len
      → length p' ≡ session_prefix_len
      → c ≢ []
      → c' ≢ []
      → sent_channel m ≡ some c
      → sent_channel m' ≡ some c'
      → prefix_message m p ≡ prefix_message m' p'
      → (m ≡ m') × (p ≡ p')
  prefix_message_injective m m' p p' c c' l l' ne ne' e e' h =
      let a = strip-prefix_message m p c l ne e in
      let b = strip-prefix_message m' p' c' l' ne' e' in
      let s : strip_prefix_from_message (prefix_message m p)
          ≡ strip_prefix_from_message (prefix_message m' p') =
        ap strip_prefix_from_message h in
      (cc, cc)
