-- ===== src/Lib.antt =====
-- DialPass: an agent that calls a business, walks its menus, waits on hold, and hands the line to
-- its user once a person has answered.
--
-- The parts. A media socket feeds the audio of the call to the hub of the call (Bridge), which feeds
-- the session (Session). Every window of audio the session asks the Tier 1 classifier for a label
-- (Labels) and gives it to the call-phase state machine (Fsm), whose action it carries out: it wakes
-- Tier 2, the realtime model (Tier2), for a menu or a probe, in the one slot of an executor
-- (Executor) and behind a circuit breaker (Breaker); it presses the digits of a menu through the
-- hub; and it begins the handoff, or fails the call, through hooks of the hub. It reports each event
-- (Telemetry). A call that failed ends in a text to the user (Fallback). The calls of the process,
-- their sockets, redials and teardown are Media. Realtime has the exchanges of Tier 2 with the model,
-- which Audio encodes for; Xml has the documents that send a leg to its socket; Process puts the
-- parts together. Call is one whole call, the hub and the session wired to each other. The events
-- go from the sink (Telemetry) over a queue to the worker (Worker), which stores them.
--
-- The files, with the code that they model:
--   Labels       src/dialpass/agent/labels.py: the labels and the sets of labels.
--   Fsm          src/dialpass/agent/state.py: `CallStateMachine`, a function for each method, from
--                the machine to the new machine and, where it has one, its action. The children:
--                Streak, Threshold and Debounce (a transition needs a run of a label), Transitions
--                (the edges of the diagram), Signals (sequences of calls), Cooldown, Handoff,
--                Terminal, Menus and Waking (what a sound that lasts brings about).
--   Breaker      src/dialpass/resilience/circuit_breaker.py. Refinement compares the breaker with a
--                reading of the history of its calls.
--   Buffer       src/dialpass/agent/buffer.py. Window: what is held of all that was written.
--   Telemetry    Events: src/dialpass/telemetry/events.py. Publisher: the sinks of the offline
--                pipeline, src/dialpass/telemetry/publisher.py. Sink:
--                src/dialpass/telemetry/sqs_sink.py, the bounded queue and the sender of batches,
--                with Accounts of its events. Store: src/dialpass/telemetry/store.py, the three
--                stores, with Rows on what they keep.
--   Worker       src/dialpass/workers/telemetry_worker.py: what it makes of a batch. Loop: its loop
--                over a queue and a store. Accounts: where a message is after it. Main: `main`.
--   Classifier   src/dialpass/agent/classifier.py: the rules over the features, which are given.
--   Tier2        src/dialpass/realtime/protocol.py: the results of Tier 2. Streaming:
--                `StreamingProbe` of src/dialpass/realtime/stream.py.
--   Realtime     the exchanges with the model. Of src/dialpass/realtime/client.py: Reply (how a
--                reply is read), Exchange (the requests and the loop over the messages), Client
--                (the decision), with Turn, Upload, Keys and Phrases on them. Of
--                src/dialpass/realtime/stream.py: Verdict (how a verdict is read) and Probe (the
--                loops of the probe and of the spoken line, and the feeder), with Listening, Heard
--                and Feeder on them. Documents: the JSON that the exchanges of both files send,
--                with Asking on what it tells the model.
--   Audio        src/dialpass/telephony/audio.py: mu-law. Table (facts of the 256 codes), Nearest
--                (the search in a sorted table), Codec (what encoding and decoding keep).
--   Dtmf         src/dialpass/telephony/dtmf.py: the tones of a key.
--   Xml          Quote, Reading and Documents: src/dialpass/telephony/twiml.py and the documents of
--                both legs in src/dialpass/api/voice.py. Urls: where they send the legs. Press: the
--                document of `press_digits` of src/dialpass/telephony/twilio_client.py. Dev: the
--                documents of src/dialpass/api/voice.py for the tests of a developer.
--   Telephony    Twilio: src/dialpass/telephony/twilio_client.py. Recorder:
--                src/dialpass/telephony/recorder.py.
--   Process      src/dialpass/main.py, src/dialpass/api/health.py, src/dialpass/realtime/fake.py:
--                what a process is built of by its settings, and its health.
--   Executor     src/dialpass/agent/executor.py: both executors.
--   Session      src/dialpass/agent/session.py: `AgentSession`, a function for each method. The
--                children: Clock, Frames and Windows (what is classified when), Slot and Slotted
--                (the one outstanding Tier 2 call), Live (the session over the threaded executor),
--                Quiet and Handing (what it keeps up to the handoff), Errors (the results of Tier
--                2), Log, Outcomes and Endings (how a call ends).
--   Bridge       src/dialpass/agent/bridge.py: `CallBridge`. The children: Hub (its events),
--                Silence (before the handoff), Relay (after it), Keys (presses and frames).
--   Call         the same file with session.py and executor.py: the hooks of `CallBridge.__init__`,
--                the whole of `on_agent_audio`, and what reaches a call as events. The children:
--                Phases and Ahead (what a step keeps), Progress and Handover (the handoff over all
--                events).
--   Fallback     src/dialpass/resilience/fallback.py.
--   Media        src/dialpass/api/media.py: `app.state`, with each bridge as an object in a heap
--                that the dictionaries and the sockets share. Legs has the legs of a call and, from
--                src/dialpass/api/calls.py, its creation. Socket is the handler of a socket, by
--                what it reads, and the turns that all handlers take. The other children: Closing
--                and Teardown, Redial (how often a call is dialed again), Sockets (the same over
--                the handlers), Waiting (the wait of a user leg for its bridge), Reap (the
--                sweeper), Drops (the end of a socket), Lost (its user), Writing (the writing
--                tasks), Pressing (`_wire_dtmf`).
--   Scenario     src/dialpass/testing.py: the schedule of a synthetic call, with Replay (what the
--                scripted classifier says of it).
--   Prelude      shared names and lemmas. The modules named Examples hold runs of the code.
--
-- Conventions. A method that changes its object is a function that returns the new record. Times
-- are natural numbers in units of 1/8000 s, one audio sample, and confidences are in thousandths,
-- where the source has floating-point numbers: rounding is not modelled, but for the seconds of
-- the probe's feeder, whose arithmetic is a parameter. The session carries the rest of the world
-- along, and a `Host` says what the classifier, the sink, the executor and the hooks do to it;
-- what a theorem asks of them is a record of laws: `SlotLaws` and `LogLaws`, which Live gives for
-- the threaded executor, and `QuietLaws`, which Call gives for the hub. The queue of SQS and the
-- stores of the worker are such records too. A thread is a step of the environment: whether a Tier
-- 2 call has ended by a poll is read from a schedule. Exceptions are values. What the code takes
-- from JSON, base64 and `repr` is a parameter, with no hypothesis on it but that base64 decodes
-- what it encodes. The regular expressions are matched by functions of their own, on ASCII texts.
--
-- Fuel. `Session.tick_loop` runs on 4 rounds: after the skip no more than four windows are due, as
-- feed_audio-clock shows. `Bridge.slices` runs on the number of bytes, of which each round takes
-- one at least, and so do the pieces of `Realtime.Exchange.menu_requests`. The attempts of the
-- sink run on its number of retries, and its final drain on the number of events that wait, which
-- every_event_counted shows to be enough.
--
-- Not modelled: the web framework and the reading of the environment; the database and Twilio
-- behind their clients, which are parameters; the sockets themselves and their pauses; the signal
-- processing of the classifier, the resampling, the DTMF waveform and the synthetic calls of
-- src/dialpass/testing.py, which are floating-point; the format of the WAV files; the experiment
-- src/dialpass/api/spike.py; the declarations of tables in src/dialpass/persistence; the scripts;
-- log messages; and where the `RuntimeError` goes that a Tier 2 call raises when it is submitted
-- to a closed executor.
mod Prelude
pub mod Labels
pub mod Fsm
pub mod Breaker
pub mod Buffer
pub mod Telemetry
pub mod Telephony
pub mod Tier2
pub mod Executor
pub mod Session
pub mod Fallback
pub mod Bridge
pub mod Call
pub mod Media
pub mod Worker
pub mod Classifier
pub mod Audio
pub mod Realtime
pub mod Xml
pub mod Process
pub mod Dtmf
pub mod Scenario
