-- ===== src/Bridge/Examples.antt =====
-- Runs of the hub, as in tests/test_bridge.py.
use dial_pass.Prelude.{length, ◌≡◌, refl, true, List, [], ◌∷◌, ◌++◌, All, joined, Fits}
use dial_pass.Prelude.Bytes.{pos, negsuc}
use dial_pass.Audio.{pcm16_to_ulaw}
use dial_pass.Bridge.{
  CallBridge, frame_size, frames, slices, keys, new_bridge, bind_agent, bind_user, finish_handoff,
  play_to_agent,
}
use dial_pass.Bridge.Hub.{
  HubEvent, agent_spoke, user_spoke, played, drained_agent, drained_user, pressed, Hub, run,
  user_total, agent_total, spoken, owed_to_user, owed_to_agent, gather,
}
use dial_pass.Bridge.Silence.{silent_before_handoff}
use dial_pass.Bridge.Relay.{relay_in_order}
use dial_pass.Bridge.Keys.{play_to_agent-frames}

abbrev bound : CallBridge
bound = bind_user "MZuser" (bind_agent "MZagent" true (new_bridge "group"))

abbrev waiting : Hub
waiting = record { bridge = bound; to_agent = []; to_user = [] }

abbrev relaying : Hub
relaying = record { bridge = finish_handoff bound; to_agent = []; to_user = [] }

abbrev talk : List HubEvent
talk =
    agent_spoke (1 ∷ 2 ∷ [])
    ∷ user_spoke (3 ∷ [])
    ∷ drained_user
    ∷ played (pos 4 ∷ negsuc 5 ∷ [])
    ∷ pressed "1" 800
    ∷ drained_agent
    ∷ agent_spoke (6 ∷ [])
    ∷ []

silent_before_handoff_example :
    (user_total (run talk waiting) ≡ [])
    × (agent_total (run talk waiting) ≡ gather (spoken "MZagent") talk)
unfolding bind_user slices bind_agent new_bridge
silent_before_handoff_example =
    silent_before_handoff "MZagent" talk waiting refl refl
      (tt, (tt, (tt, (tt, (tt, (tt, (tt, tt)))))))

relay_in_order_example :
    (user_total (run talk relaying) ≡ gather (owed_to_user "MZuser") talk)
    × (agent_total (run talk relaying) ≡ gather (owed_to_agent "MZagent") talk)
unfolding finish_handoff bind_user bind_agent new_bridge
relay_in_order_example = relay_in_order "MZagent" "MZuser" talk relaying refl refl refl

-- A letter is not pressed.
presses_keys : keys "1a#" ≡ "1#"
unfolding keys
presses_keys = refl

play_to_agent-frames_example :
    let ulaw = pcm16_to_ulaw (pos 7 ∷ pos 8 ∷ negsuc 9 ∷ []) in
    let cut = slices (length ulaw) ulaw in
    (play_to_agent (pos 7 ∷ pos 8 ∷ negsuc 9 ∷ []) bound
      ≡ record bound { outbound_agent = bound.outbound_agent ++ frames "MZagent" cut })
    × (joined cut ≡ ulaw)
    × All (Fits frame_size) cut
unfolding bind_user bind_agent
play_to_agent-frames_example =
    play_to_agent-frames "MZagent" (pos 7 ∷ pos 8 ∷ negsuc 9 ∷ []) bound refl
