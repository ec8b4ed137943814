-- ===== src/Process.antt =====
-- src/dialpass/main.py, api/health.py and realtime/fake.py: what a process is built of, by its
-- settings. The web framework and the AWS, Twilio and OpenAI clients are left out: a part is named by
-- what it is given.
mod Examples
use dial_pass.Prelude.{
  ℕ, suc, ◌+◌, ◌≡◌, refl, String, Bool, true, false, not, ◌&&◌, Option, none, some, List, [], ◌∷◌,
  ◌++◌, length, str_append, if◌then◌else◌, arith, Bool-cases, inl, inr,
}
use dial_pass.Prelude.Text.{is_empty}
use dial_pass.Breaker.{BreakerState, CircuitBreaker, new_breaker, state, is_open, is_half_open}
use dial_pass.Telemetry.Sink.{SqsSink}
use dial_pass.Tier2.{MenuDecision, ProbeOutcome}
use dial_pass.Media.{App, Call, Request}
use dial_pass.Telemetry.Sink.{new_sink, sqs_batch_max}
use dial_pass.Bridge.{new_bridge}

-- The fields of `Settings` that main.py reads.
pub record Settings : Type 0 where
  pub twilio_account_sid : String
  pub twilio_auth_token : String
  pub twilio_from_number : String
  pub public_base_url : String
  pub sqs_queue_url : String
  pub telemetry_queue_maxsize : ℕ
  pub tier2_failure_threshold : ℕ
  pub tier2_reset_timeout : ℕ
  pub openai_api_key : String
  pub realtime_model : String
  pub realtime_menu_model : String

abbrev pub is_set : String → Bool
is_set t = not (is_empty t)

-- The Tier 2 of a call: the client of a model, or the offline double.
pub data Tier2 : Type 0 where
  realtime_client : String → Tier2
  fake : Tier2

-- `_build_tier2`
unfoldable pub build_tier2 : Settings → Tier2
build_tier2 c =
    if is_set c.openai_api_key
    then realtime_client
        (if is_set c.realtime_menu_model then c.realtime_menu_model else c.realtime_model)
    else fake

-- `_build_twilio_client`: tells if there is one.
unfoldable pub build_twilio_client : Settings → Bool
build_twilio_client c =
    is_set c.twilio_account_sid && (is_set c.twilio_auth_token && is_set c.twilio_from_number)

-- `_build_telemetry`: the SQS sink, or none for the log. Batches and retries are the defaults.
unfoldable pub build_telemetry : Settings → Option SqsSink
unfolding new_sink
build_telemetry c =
    if is_set c.sqs_queue_url
    then some (new_sink c.telemetry_queue_maxsize sqs_batch_max 3)
    else none

-- No call is on an object yet.
abbrev pub no_call : Call
no_call = record {
  bridge = new_bridge "";
  call_id = "";
  goal = none;
  user_leg_sid = none;
  finished = false;
}

pub record Process : Type 0 where
  pub app : App
  pub telemetry_sink : Option SqsSink
  pub tier2_breaker : CircuitBreaker

-- `create_app`
unfoldable pub create_app : Settings → Process
unfolding build_twilio_client build_telemetry new_breaker new_bridge
create_app c = record {
  app = record {
    has_twilio = build_twilio_client c;
    public_base_url = c.public_base_url;
    bridges = [];
    sessions = [];
    pending_goals = [];
    user_legs = [];
    user_numbers = [];
    call_meta = [];
    objects = λ i. no_call;
    next_object = 0;
    requests = [];
  };
  telemetry_sink = build_telemetry c;
  tier2_breaker = new_breaker c.tier2_failure_threshold c.tier2_reset_timeout;
}

-- The counters that `health` shows of the SQS sink.
pub record Counters : Type 0 where
  pub sent : ℕ
  pub dropped_overflow : ℕ
  pub dropped_send : ℕ

abbrev pub counters : Option SqsSink → Option Counters
counters none = none
counters (some s) =
    some
      record { sent = s.sent; dropped_overflow = s.dropped_overflow; dropped_send = s.dropped_send }

pub record Health : Type 0 where
  pub status : String
  pub telemetry : Option Counters
  pub tier2_breaker : BreakerState
  pub active_calls : ℕ

abbrev pub is_closed : BreakerState → Bool
is_closed s = not (is_open s) && not (is_half_open s)

-- `health`, which reads the breaker at two readings of the clock.
unfoldable pub health : ℕ → ℕ → Process → Health × Process
health now later p =
    let (shown, b) = state now p.tier2_breaker in
    let (seen, c) = state later b in
    (
      record {
        status = if is_closed seen then "ok" else "degraded";
        telemetry = counters p.telemetry_sink;
        tier2_breaker = shown;
        active_calls = length p.app.bridges;
      },
      record p { tier2_breaker = c },
    )

-- The double of realtime/fake.py, with the calls that it took.
pub record FakeTier2 : Type 0 where
  pub menu_digits : Option String
  pub probe_is_human : Bool
  pub calls : List String

abbrev pub took : String → FakeTier2 → FakeTier2
took name f = record f { calls = f.calls ++ name ∷ [] }

unfoldable pub fake_choose : FakeTier2 → MenuDecision × FakeTier2
fake_choose f =
    (record { digits = f.menu_digits; rationale = "fake: fixed digit" }, took "choose_menu_digit" f)

unfoldable pub fake_probe : FakeTier2 → ProbeOutcome × FakeTier2
fake_probe f =
    (record { is_human = f.probe_is_human; transcript = "fake"; healthy = true }, took "probe" f)

unfoldable pub fake_say : String → FakeTier2 → FakeTier2
fake_say text f = took (str_append "say:" text) f

unfoldable pub fake_close : FakeTier2 → FakeTier2
fake_close f = took "close" f

state_lem :
    (now : ℕ) (b : CircuitBreaker)
    → let (shown, c) = state now b in
      (shown ≡ c.status) × (is_closed c.status ≡ is_closed b.status) × (c.failures ≡ b.failures)
unfolding state
state_lem now b = ground arith

-- The status of the process is ok just when the breaker is shown as closed, even if its time is over
-- between the two readings. Asking for it changes nothing but that an open breaker whose time is over
-- is half open from then on.
pub health_lem :
    (now later : ℕ) (p : Process)
    → let (h, q) = health now later p in
      (h.status ≡ (if is_closed h.tier2_breaker then "ok" else "degraded"))
      × (h.active_calls ≡ length p.app.bridges)
      × (q.app ≡ p.app)
      × (is_closed q.tier2_breaker.status ≡ is_closed p.tier2_breaker.status)
      × (q.tier2_breaker.failures ≡ p.tier2_breaker.failures)
unfolding health
health_lem now later p =
    let b : CircuitBreaker = (state now p.tier2_breaker).1 in
    ground (arith, state_lem now p.tier2_breaker, state_lem later b)
