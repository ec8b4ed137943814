-- ===== src/Tier2.antt =====
-- src/dialpass/realtime/protocol.py: what the agent asks of the realtime model and gets back.
pub mod Streaming
mod Examples
use dial_pass.Prelude.{ℕ, String, Bool, Option, List}

pub record MenuDecision : Type 0 where
  pub digits : Option String
  pub rationale : String

pub record ProbeOutcome : Type 0 where
  pub is_human : Bool
  pub transcript : String
  pub healthy : Bool  -- the field `ok`

-- What a finished Tier 2 call returns.
pub data Answer : Type 0 where
  decision : MenuDecision → Answer
  verdict : ProbeOutcome → Answer

-- A call that is handed to the executor, with the arguments that its closure holds.
pub data Job (Sample : Type 0) : Type 0 where
  choose_menu_digit : List Sample → ℕ → Option String → Job Sample
  probe : List Sample → ℕ → Job Sample
