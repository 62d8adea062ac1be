-- ===== src/Lib.antt =====
-- The thief peer of a two-peer pursuit game on a grid: the part of src/thief_peer that decides what a
-- peer may do, what it says to its opponent and what it accepts from it.
--
-- A sub-game is a sequence of turns. In a turn the peer updates its scent field, asks its strategy for
-- a direction, seals the decision, commits to the hash of the sealed record, reveals the public part
-- after the opponent has acknowledged, and resolves what the opponent has revealed. Every change of
-- the lifecycle goes through one state machine. What arrives from the opponent passes a router, which
-- checks its structure, its binding to the game and its order, and puts it into a bounded inbox. At
-- the end the sealed records are audited, the result is scored, and both peers compare their totals.
--
-- Files and the code that they model, by its path below src/thief_peer:
--   Grid, Rules: domain/roles.py, positions.py, board.py, actions.py and rules.py.
--   Lifecycle: domain/state_machine/. `apply` returns the new machine with the outcome of `resolve`.
--   Json: the values on the wire, with Python's `==`.
--   Sequence: infrastructure/sequence.py, `check_and_advance` on a map of cursors.
--   Inbox: infrastructure/inbox.py. TurnMessage: protocol/turn_message.py.
--   Router: infrastructure/turn_router.py; `handle_turn`, `handle_audit` and `handle_control` return the
--   new router with an ack, or raise.
--   Sealing: domain/sealing/ (Payload, Audit, Exchange), with what is proved of it in Secrecy, Binding,
--   Verdict and Protocol.
--   Captures: domain/captures.py, domain/scoring.py, services/capture_resolution.py.
--   Hints: domain/hints.py and domain/hint_region.py.
--   Scent: domain/scent.py and domain/scent_validation.py.
--   Messages: services/turn_messages.py.
--   SubGame: services/subgame_state.py, turn_exchange.py and turn_prep.py. Turn: services/turn_loop.py.
--   `run_turn` takes the decision, the nonce, the clock and the opponent's answers as one input. Fresh,
--   Steps and Phases hold the lemmas on its parts, Outcomes, Run and Blocked what a turn does.
--   Game: services/subgame_runtime.py. `run_sub_game` plays a function from turn numbers and states to
--   inputs, which stands for any strategy with any opponent.
--   Series: services/series_runtime.py, the sub-games of a series on one machine.
--   Agreement: services/series_scoring.py and services/result_agreement.py.
--   Timing: domain/watchdog.py and domain/deadline.py.
--   Belief: domain/belief_model.py (Model), domain/belief_updates.py and services/belief_update.py
--   (Updates). Strategy: strategy/decision.py and baseline_thief_brain.py, with Utility and Escape for
--   entropy_escape_utility.py, entropy_escape_config.py and entropy_escape_thief_brain.py. A brain is a
--   record of its decision and the law that the decision is legal, which both brains fill; Play puts a
--   brain into the turn loop, whose theorems ask for legal decisions.
--   Gatekeeper: services/incoming_gatekeeper.py and infrastructure/mcp_rate_limit_middleware.py, with
--   Gmail for infrastructure/gmail_gatekeeper.py and Pacer for infrastructure/outbound_pacer.py.
--   Replay: services/replay_checks.py (with Checks and Scores), services/replay_verifier.py (Verifier)
--   and services/bilateral_verify.py (Bilateral), on artifacts as services/replay_loader.py loads them;
--   Log, Turns and Played join it to the turns that the records come from.
--   Gateway: the delivery of a turn and the polls for the opponent's reveal of services/gateway.py.
--   Config: shared/config_models.py, shared/config_sections.py and shared/config_validation.py (Checks),
--   with Play for the series that a loaded configuration describes. Declaration: domain/declaration.py,
--   domain/declaration_checks.py and, in Parsing, domain/declaration_parsing.py.
--   Artifact: services/artifact_models.py, and services/artifact_builders.py in Builders. Playback:
--   gui/replay_playback.py.
--   Prelude has the shared notation and lemmas, Samples the values of the examples, and the Tests
--   module of each part its examples.
--
-- Parameters: the digest (SHA-256 over canonical JSON), of which only is used that it is a function;
-- the rounding of float arithmetic, Python's `sum` and `math.log2`, of which nothing is assumed;
-- what `str` makes of a JSON value and `int` reads in a text; the reason of an audit; and the search
-- for a cell in the text of a legacy state. Random draws, the clock, what the server puts into the
-- inbox between two polls and the answers of the opponent and of the mail service are inputs.
--
-- Fuel: `show_digits` prints a number n with n + 1 steps and needs no more than its digits. The flood
-- fill of the strategy runs on its limit, which is enough since each round takes one of at most that
-- many seen cells from the queue. The pacer's loop needs at most three readings of the clock. The turn
-- loop runs over `range(survival_threshold + 1)` as the code does.
--
-- Not modelled: log records, reason texts, the GUI but for its playback, trace calls, network and
-- files, asyncio's cancellation in the game, the private configuration and the reading and writing of
-- files. The turn loop keeps no belief: a statement about every decision holds whatever the belief is.
-- An int that no double can hold is left out of the scent check. The claim and the barrier of an
-- opponent's turn are cells with integer coordinates or unreadable, which raises; its hint is
-- unreadable or has the region that is found in the text. For a turn message whose sub-game number or
-- step is no integer the router ends in `not_modelled`, where the code goes on. The pacer is modelled
-- for one call at a time: what concurrent callers do to its window while it sleeps is left out. A
-- value of a log step that is not of its annotated type ends the reading, where Python does not check
-- it. A loaded artifact is read as a record of the types that its builder writes.
pub mod Prelude
pub mod Grid
pub mod Rules
pub mod Lifecycle
pub mod Json
pub mod Sequence
pub mod Inbox
pub mod TurnMessage
pub mod Router
pub mod Sealing
pub mod Captures
pub mod Hints
pub mod Scent
pub mod Messages
pub mod SubGame
pub mod Turn
pub mod Game
pub mod Series
pub mod Belief
pub mod Strategy
pub mod Gatekeeper
pub mod Replay
pub mod Config
pub mod Declaration
pub mod Artifact
pub mod Playback
pub mod Gateway
pub mod Agreement
pub mod Timing
pub mod Samples
