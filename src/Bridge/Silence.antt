-- ===== src/Bridge/Silence.antt =====
-- What the two legs of a bridge.py call hear before the handoff.
use dial_pass.Prelude.{
  ◌≡◌, refl, ap, ◌∙◌, String, false, some, List, [], ◌∷◌, ◌++◌, append-nil, append_assoc, All,
  arith,
}
use dial_pass.Bridge.Hub.{
  HubEvent, agent_spoke, user_spoke, played, drained_agent, drained_user, pressed, handed, Hub,
  step, run, user_total, agent_total, NotHanded, spoken, gather, Owes, same, relayed-shut,
  played-owes, pressed-Owes,
}

module _ (sid : String) where
  step-silent :
      (e : HubEvent) (h : Hub)
      → h.bridge.relay_open ≡ false
      → h.bridge.agent_stream_sid ≡ some sid
      → NotHanded e
      → Owes [] (spoken sid e) h (step e h) × ((step e h).bridge.relay_open ≡ false)
  unfolding step
  step-silent (agent_spoke ulaw) h shut bound quiet = (
    record {
      user_got =
          ap (λ q. h.to_user ++ q)
            (relayed-shut h.bridge.relay_open h.bridge.user_stream_sid ulaw h.bridge.outbound_user
              shut)
          ∙ same (user_total h);
      agent_got = same (agent_total h);
      agent_bound = refl;
      user_bound = refl;
    },
    shut,
  )
  step-silent (user_spoke ulaw) h shut bound quiet = (
    record {
      user_got = same (user_total h);
      agent_got =
          ap (λ q. h.to_agent ++ q)
            (relayed-shut h.bridge.relay_open h.bridge.agent_stream_sid ulaw h.bridge.outbound_agent
              shut)
          ∙ same (agent_total h);
      agent_bound = refl;
      user_bound = refl;
    },
    shut,
  )
  step-silent (played ulaw) h shut bound quiet = (
    record {
      user_got = same (user_total h);
      agent_got = played-owes sid ulaw h bound;
      agent_bound = refl;
      user_bound = refl;
    },
    shut,
  )
  step-silent drained_agent h shut bound quiet = (
    record {
      user_got = same (user_total h);
      agent_got = refl;
      agent_bound = refl;
      user_bound = refl;
    },
    shut,
  )
  step-silent drained_user h shut bound quiet = (
    record {
      user_got = refl;
      agent_got = same (agent_total h);
      agent_bound = refl;
      user_bound = refl;
    },
    shut,
  )
  step-silent (pressed d now) h shut bound quiet = (pressed-Owes sid d now h, ground arith)
  step-silent handed h shut bound quiet = absurd quiet

  -- Before the handoff the user hears nothing and is not heard: until the relay is opened, no
  -- message is sent or queued to the user, and the agent is sent or queued exactly what the AI
  -- played, in order and cut into frames.
  pub silent_before_handoff :
      (es : List HubEvent) (h : Hub)
      → h.bridge.relay_open ≡ false
      → h.bridge.agent_stream_sid ≡ some sid
      → All NotHanded es
      → (user_total (run es h) ≡ user_total h)
        × (agent_total (run es h) ≡ agent_total h ++ gather (spoken sid) es)
  unfolding run
  silent_before_handoff [] h shut bound quiet = (refl, rw append-nil)
  silent_before_handoff (e ∷ es) h shut bound quiet =
      let (o, still) = step-silent e h shut bound quiet.0 in
      let (ih_user, ih_agent) =
        silent_before_handoff es (step e h) still (o.agent_bound ∙ bound) quiet.1 in
      (
        ih_user ∙ o.user_got ∙ append-nil (user_total h),
        ih_agent
            ∙ ap (λ t. t ++ gather (spoken sid) es) o.agent_got
            ∙ append_assoc (agent_total h) (spoken sid e) (gather (spoken sid) es),
      )
