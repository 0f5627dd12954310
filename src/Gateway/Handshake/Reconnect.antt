-- ===== src/Gateway/Handshake/Reconnect.antt =====
-- An agent that connects again before the end of its old connection.
use tenodera.Prelude.{
  ◌≡◌, refl, ap, ◌∙◌, ℕ, ◌+◌, true, Option, none, some, String, Text, is_none, Bool-cases, inl, inr,
}
use tenodera.Gateway.HostsConfig.{HostEntry}
use tenodera.Gateway.Enrollment.{World, Candidate, AuthenticatedAgent}
use tenodera.Gateway.Registry.Agents.{AgentRegistry, register, unregister, connect_session}
use tenodera.Gateway.Registry.Agents.Relay.{unregister-register}
use tenodera.Gateway.Handshake.{
  Server, connected, Round, stream_ended, fill_os_id, accept, clean_up, at_connected,
}

fill_os_id-agents :
    (w : World) (round : Round) (host : HostEntry) (o : Option String)
    → (fill_os_id w round host o).agents ≡ w.agents
unfolding fill_os_id
fill_os_id-agents w round host none = refl
fill_os_id-agents w round host (some id) = elim (Bool-cases (is_none host.os_id)) [
  | inl fresh ↦ rw fresh refl
  | inr known ↦ rw known refl
]

accept-agents :
    (s : Server) (round : Round) (c : Candidate) (a : AuthenticatedAgent)
    → round.ack_sent ≡ true
    → (accept s round c a).1.world.agents
      ≡ (register s.world.agents a.host.id a.remote_ip round.channel).1
unfolding accept
accept-agents s round c a sent = rw (sent, fill_os_id-agents s.world round a.host c.os_id) refl

accept-connected :
    (s : Server) (round : Round) (c : Candidate) (a : AuthenticatedAgent)
    → round.ack_sent ≡ true
    → (accept s round c a).0 ≡ connected a s.world.agents.next
unfolding accept register
accept-connected s round c a sent = rw (sent, fill_os_id-agents s.world round a.host c.os_id) refl

-- Where two connections for one host are accepted, the second before the end of the first, they
-- are two, and a session that connects to the host gets the second; once the stream of the first
-- has ended, which cleans it up, such a session gets none, though the second is not closed.
pub reconnect_lost :
    (Value Fields : Type 0) (s : Server) (round round' last : Round) (c c' : Candidate)
    (a a' : AuthenticatedAgent) (session_id : Text) (sub : ℕ)
    → a.host.id ≡ a'.host.id
    → round.ack_sent ≡ true
    → round'.ack_sent ≡ true
    → let first = accept s round c a in
      let second = accept first.1 round' c' a' in
      let id = s.world.agents.next in
      let ended = at_connected {Value = Value} {Fields = Fields} second.1 last a id stream_ended in
      (first.0 ≡ connected a id)
      × (second.0 ≡ connected a' (id + 1))
      × ((connect_session second.1.world.agents a'.host.id session_id sub).0 ≡ some (id + 1))
      × ((connect_session ended.1.world.agents a'.host.id session_id sub).0 ≡ none)
unfolding at_connected clean_up register
reconnect_lost Value Fields s round round' last c c' a a' session_id sub same sent sent' =
    let r = s.world.agents in
    let first = accept s round c a in
    let second = accept first.1 round' c' a' in
    let one : first.1.world.agents ≡ (register r a'.host.id a.remote_ip round.channel).1 =
      accept-agents s round c a sent ∙ ap (λ h. (register r h a.remote_ip round.channel).1) same in
    let two = accept-agents first.1 round' c' a' sent' in
    let both = two ∙ ap (λ g. (register g a'.host.id a'.remote_ip round'.channel).1) one in
    let (served, lost) =
      unregister-register r a'.host.id a.remote_ip a'.remote_ip round.channel round'.channel
        session_id sub in
    (
      accept-connected s round c a sent,
      accept-connected first.1 round' c' a' sent'
          ∙ ap (λ (g : AgentRegistry). connected a' g.next) one,
      ap (λ g. (connect_session g a'.host.id session_id sub).0) both ∙ served,
      ap (λ h. (connect_session (unregister second.1.world.agents h) a'.host.id session_id sub).0)
            same
          ∙ ap (λ g. (connect_session (unregister g a'.host.id) a'.host.id session_id sub).0) both
          ∙ lost,
    )
