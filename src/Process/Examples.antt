-- ===== src/Process/Examples.antt =====
-- A process without settings, as in tests/test_health.py.
use dial_pass.Prelude.{◌≡◌, refl, false}
use dial_pass.Breaker.{state}
use dial_pass.Process.{Settings, fake, build_tier2, build_twilio_client, create_app, health}

abbrev blank : Settings
blank = record {
  twilio_account_sid = "";
  twilio_auth_token = "";
  twilio_from_number = "";
  public_base_url = "";
  sqs_queue_url = "";
  telemetry_queue_maxsize = 10000;
  tier2_failure_threshold = 4;
  tier2_reset_timeout = 45;
  openai_api_key = "";
  realtime_model = "gpt-realtime-mini";
  realtime_menu_model = "gpt-realtime";
}

offline : (build_tier2 blank ≡ fake) × (build_twilio_client blank ≡ false)
unfolding build_tier2 build_twilio_client
offline = (refl, refl)

healthy : (health 0 1 (create_app blank)).0.status ≡ "ok"
unfolding health create_app state
healthy = refl
