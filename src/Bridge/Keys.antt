-- ===== src/Bridge/Keys.antt =====
-- What bridge.py presses, and how it cuts what it plays.
use dial_pass.Prelude.{
  ℕ, ◌≡◌, refl, String, Bool, true, false, ◌&&◌, none, some, List, ◌∷◌, ◌++◌, length, joined, Fits,
  chunks_lem, All, is_some, arith, ◌⊎◌,
}
use dial_pass.Bridge.{
  Bytes, CallBridge, frame_size, frames, slices, press_dtmf, play_to_agent, keys,
}
use dial_pass.Bridge.{is_key}
use dial_pass.Prelude.Text.{is_empty}
use dial_pass.Prelude.Bytes.{ℤ}
use dial_pass.Audio.{pcm16_to_ulaw}

abbrev pub all_keys : String → Bool
all_keys String.[] = true
all_keys (String.◌∷◌ c s) = is_key c && all_keys s

keys-all_keys : (s : String) → all_keys (keys s) ≡ true
unfolding keys
keys-all_keys String.[] = refl
keys-all_keys (String.◌∷◌ c s) = ground (arith, keys-all_keys s)

-- `press_dtmf` presses the telephone keys of its text and drops all else. Without such a key, or
-- without a bound agent leg, it does nothing; else it starts one redirect with just those keys, and
-- the bridge waits for the stream to come back, from now.
pub press_dtmf_effect :
    (digits : String) (now : ℕ) (b : CallBridge)
    → let b' = press_dtmf digits now b in
      let safe = keys digits in
      (all_keys safe ≡ true)
      × ((is_empty safe ≡ true) ⊎ (b.agent_stream_sid ≡ none) → b' ≡ b)
      × (is_empty safe ≡ false
          → is_some b.agent_stream_sid ≡ true
          → (b'.redirects ≡ safe ∷ b.redirects)
            × (b'.reconnecting ≡ true)
            × (b'.reconnect_since ≡ some now))
unfolding press_dtmf
press_dtmf_effect digits now b = (keys-all_keys digits, λ h. ground arith, λ e f. ground arith)

-- On a bound agent leg, `play_to_agent` adds frames at the end of the leg's queue and changes
-- nothing else: joined they are the samples it was given in mu-law, and none is empty or above 160
-- bytes.
pub play_to_agent-frames :
    (sid : String) (pcm16 : List ℤ) (b : CallBridge)
    → b.agent_stream_sid ≡ some sid
    → let ulaw = pcm16_to_ulaw pcm16 in
      let cut = slices (length ulaw) ulaw in
      (play_to_agent pcm16 b ≡ record b { outbound_agent = b.outbound_agent ++ frames sid cut })
      × (joined cut ≡ ulaw)
      × All (Fits frame_size) cut
unfolding play_to_agent slices
play_to_agent-frames sid pcm16 b bound =
    let ulaw : Bytes = pcm16_to_ulaw pcm16 in
    let (whole, sized) = chunks_lem frame_size (length ulaw) ulaw (omega arith) (omega arith) in
    (rw bound refl, whole, sized)
