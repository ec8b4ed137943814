-- ===== src/Bridge/Relay.antt =====
-- What the two legs of a bridge.py call hear after the handoff.
use dial_pass.Prelude.{
  ◌≡◌, refl, ap, ◌∙◌, String, true, some, List, [], ◌∷◌, ◌++◌, append_assoc, arith,
}
use dial_pass.Bridge.{frame}
use dial_pass.Bridge.Hub.{
  HubEvent, agent_spoke, user_spoke, played, drained_agent, drained_user, pressed, handed, Hub,
  step, run, user_total, agent_total, owed_to_user, owed_to_agent, gather, Owes, joins, same,
  relayed-open, played-owes, pressed-Owes,
}

module _ (agent user : String) where
  step-relays :
      (e : HubEvent) (h : Hub)
      → h.bridge.relay_open ≡ true
      → h.bridge.agent_stream_sid ≡ some agent
      → h.bridge.user_stream_sid ≡ some user
      → Owes (owed_to_user user e) (owed_to_agent agent e) h (step e h)
        × ((step e h).bridge.relay_open ≡ true)
  unfolding step
  step-relays (agent_spoke ulaw) h open_ bound_agent bound = (
    record {
      user_got =
          ap (λ q. h.to_user ++ q)
            (relayed-open h.bridge.relay_open h.bridge.user_stream_sid user ulaw
              h.bridge.outbound_user open_ bound)
          ∙ joins h.to_user h.bridge.outbound_user (frame user ulaw ∷ []);
      agent_got = same (agent_total h);
      agent_bound = refl;
      user_bound = refl;
    },
    open_,
  )
  step-relays (user_spoke ulaw) h open_ bound_agent bound = (
    record {
      user_got = same (user_total h);
      agent_got =
          ap (λ q. h.to_agent ++ q)
            (relayed-open h.bridge.relay_open h.bridge.agent_stream_sid agent ulaw
              h.bridge.outbound_agent open_ bound_agent)
          ∙ joins h.to_agent h.bridge.outbound_agent (frame agent ulaw ∷ []);
      agent_bound = refl;
      user_bound = refl;
    },
    open_,
  )
  step-relays (played ulaw) h open_ bound_agent bound = (
    record {
      user_got = same (user_total h);
      agent_got = played-owes agent ulaw h bound_agent;
      agent_bound = refl;
      user_bound = refl;
    },
    open_,
  )
  step-relays drained_agent h open_ bound_agent bound = (
    record {
      user_got = same (user_total h);
      agent_got = refl;
      agent_bound = refl;
      user_bound = refl;
    },
    open_,
  )
  step-relays drained_user h open_ bound_agent bound = (
    record {
      user_got = refl;
      agent_got = same (agent_total h);
      agent_bound = refl;
      user_bound = refl;
    },
    open_,
  )
  step-relays (pressed d now) h open_ bound_agent bound = (pressed-Owes agent d now h, ground arith)
  step-relays handed h open_ bound_agent bound = (
    record {
      user_got = same (user_total h);
      agent_got = same (agent_total h);
      agent_bound = refl;
      user_bound = refl;
    },
    refl,
  )

  -- With the relay open and both legs bound, each leg is sent or queued every frame of the other,
  -- and the agent what the AI played too: each once, in the order of the events, whatever the
  -- sockets have drained meanwhile.
  pub relay_in_order :
      (es : List HubEvent) (h : Hub)
      → h.bridge.relay_open ≡ true
      → h.bridge.agent_stream_sid ≡ some agent
      → h.bridge.user_stream_sid ≡ some user
      → (user_total (run es h) ≡ user_total h ++ gather (owed_to_user user) es)
        × (agent_total (run es h) ≡ agent_total h ++ gather (owed_to_agent agent) es)
  unfolding run
  relay_in_order [] h open_ bound_agent bound = (same (user_total h), same (agent_total h))
  relay_in_order (e ∷ es) h open_ bound_agent bound =
      let (o, still) = step-relays e h open_ bound_agent bound in
      let (ih_user, ih_agent) =
        relay_in_order es (step e h) still (o.agent_bound ∙ bound_agent) (o.user_bound ∙ bound) in
      (
        ih_user
            ∙ ap (λ t. t ++ gather (owed_to_user user) es) o.user_got
            ∙ append_assoc (user_total h) (owed_to_user user e) (gather (owed_to_user user) es),
        ih_agent
            ∙ ap (λ t. t ++ gather (owed_to_agent agent) es) o.agent_got
            ∙ append_assoc (agent_total h) (owed_to_agent agent e)
                (gather (owed_to_agent agent) es),
      )
