-- ===== src/Gateway/Client/Loop/Serving.antt =====
-- A WebSocket in its loop keeps to the session that it was started for, and to its bounds.
use tenodera.Prelude.{
  ◌≡◌, ◌∙◌, ap, ℕ, true, false, none, some, List, [], ◌∷◌, text_eq, All, All-map, is_none,
  both_branches,
}
use mathlib.Core.Bool.{false≢true}
use tenodera.Protocol.Json.{Json}
use tenodera.Protocol.Message.{Message, open_channel}
use tenodera.Gateway.Session.{get_session}
use tenodera.Gateway.Client.{Conn, Sent, as_str, nothing}
use tenodera.Gateway.Client.Identity.{
  SaysWho, SameSession, drop_route-SameSession, handle-IsFaithful, rerouted,
}
use tenodera.Gateway.Client.Limits.{IsWithin, handle-IsWithin, drop_route-IsWithin}
use tenodera.Gateway.Client.Loop.{
  State, Phase, authenticating, looping, ended, Event, text, other_frame, stream_ended,
  auth_timeout, agent_closed, session_check, step, at_phase, at_loop,
}

module _ (json : Json) (idle_timeout_secs : ℕ) where
  abbrev pub run : State → List (Event json.Value json.Fields) → List (Sent json) × State
  run s [] = ([], s)
  run s (e ∷ es) =
      let (sent, next) = step json idle_timeout_secs s e in
      let (more, last) = run next es in (sent ∷ more, last)

  -- A loop that still speaks for one session and keeps its bounds, or that has ended.
  abbrev pub IsServing : Conn → Phase → Type 0
  IsServing conn authenticating = false ≡ true
  IsServing conn (looping c) = SameSession conn c × IsWithin c
  IsServing conn ended = Unit

  abbrev pub SaysWhoAll : Conn → Sent json → Type 0
  SaysWhoAll conn sent =
      All (λ (e : ℕ × Message json.Value json.Fields). SaysWho json conn e.1) sent.to_agent

  SaysWho-same :
      (s c : Conn) (msg : Message json.Value json.Fields)
      → SameSession s c
      → SaysWho json c msg
      → SaysWho json s msg
  SaysWho-same s c (open_channel channel options) h (user, role, host) = (
    user ∙ ap (λ u. some (json.string u)) h.user,
    role ∙ ap (λ r. some (json.string (as_str r))) h.role,
    host,
  )
  SaysWho-same s c _ h says = tt

  loop-IsServing :
      (conn c : Conn) (s : State) (e : Event json.Value json.Fields)
      → SameSession conn c
      → IsWithin c
      → IsServing conn s.phase
      → SaysWhoAll conn ((at_loop json idle_timeout_secs s c e).0)
        × IsServing conn ((at_loop json idle_timeout_secs s c e).1.phase)
  unfolding at_loop
  loop-IsServing conn c s (text now round (some msg)) same within serving =
      let f = handle-IsFaithful json c s.agents round msg in
      let says =
        All-map (λ (e : ℕ × Message json.Value json.Fields). SaysWho json c e.1)
          (λ (e : ℕ × Message json.Value json.Fields). SaysWho json conn e.1)
          (λ e h. SaysWho-same conn c e.1 same h) _ f.says in
      (says, (rerouted conn c same _ f.same, handle-IsWithin json c s.agents round msg within))
  loop-IsServing conn c s (text now round none) same within serving = (tt, serving)
  loop-IsServing conn c s other_frame same within serving = (tt, serving)
  loop-IsServing conn c s stream_ended same within serving = (tt, tt)
  loop-IsServing conn c s auth_timeout same within serving = (tt, serving)
  loop-IsServing conn c s (agent_closed channel) same within serving = (
    tt,
    (
      rerouted conn c same _ (drop_route-SameSession channel c),
      drop_route-IsWithin channel c within,
    ),
  )
  loop-IsServing conn c s session_check same within serving =
      both_branches (λ (r : Sent json × State). SaysWhoAll conn (r.0) × IsServing conn (r.1.phase))
        (is_none (get_session s.sessions c.session_id))
        {x = (nothing json, record s { phase = ended })} {y = (nothing json, s)} (tt, tt)
        (tt, serving)

  step-IsServing :
      (conn : Conn) (s : State) (e : Event json.Value json.Fields)
      → IsServing conn s.phase
      → SaysWhoAll conn ((step json idle_timeout_secs s e).0)
        × IsServing conn ((step json idle_timeout_secs s e).1.phase)
  unfolding step at_phase
  step-IsServing conn s e h = go s.phase h
    where
      go :
          (p : Phase)
          → IsServing conn p
          → SaysWhoAll conn ((at_phase json idle_timeout_secs p s e).0)
            × IsServing conn ((at_phase json idle_timeout_secs p s e).1.phase)
      go authenticating g = absurd (false≢true g)
      go (looping c) (same, within) = loop-IsServing conn c s e same within h
      go ended g = (tt, h)

  pub run-IsServing :
      (conn : Conn) (s : State) (es : List (Event json.Value json.Fields))
      → IsServing conn s.phase
      → All (SaysWhoAll conn) ((run s es).0) × IsServing conn ((run s es).1.phase)
  run-IsServing conn s [] h = (tt, h)
  run-IsServing conn s (e ∷ es) h =
      let (says, next) = step-IsServing conn s e h in
      let (more, last) = run-IsServing conn ((step json idle_timeout_secs s e).1) es next in
      ((says, more), last)
