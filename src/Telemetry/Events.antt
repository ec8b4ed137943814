-- ===== src/Telemetry/Events.antt =====
-- src/dialpass/telemetry/events.py. The features of a frame are left out: nothing reads them back.
use dial_pass.Prelude.{ℕ, String, Bool}
use dial_pass.Labels.{Label}
use dial_pass.Fsm.{CallState}

-- What a Tier 2 call is for.
pub data Kind : Type 0 where
  menu probe : Kind

-- The subclasses of `Event`, with the fields that each adds.
pub data Body : Type 0 where
  frame_classified : Label → ℕ → Body
  state_changed : CallState → CallState → Body
  tier2_woken : Kind → Body
  dtmf_sent : String → Body
  probe_result : Bool → Body
  human_detected bridge_started : Body
  call_completed call_failed : String → Body

pub record Event : Type 0 where
  pub call_id : String
  pub t : ℕ
  pub body : Body
