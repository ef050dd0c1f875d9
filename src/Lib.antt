-- ===== src/Lib.antt =====
-- A model of the OBS Live Delay plugin's core, and what holds of it.
--
-- The plugin delays a live broadcast. Encoded packets of the programme come from the OBS encoders
-- into a delay controller, which keeps them as history and releases them when they are old enough
-- or passes them on at once. Released packets go to consumers, each of which muxes them into FLV
-- tags and queues the tags for a sender's thread.
--
-- Base: notation, tests, lists, integers over the native numbers, and the results that stand for
-- `bool` with an error text and for exceptions.
-- Packet: the data of src/delay-controller.hpp that the parts share.
-- Diagnostic: src/diagnostic-error.hpp, `diagnostic_code` and `diagnostic_error`.
-- Controller: src/delay-controller.cpp. Controller/State has the fields of `DelayController`, less
-- the mutex: each call holds it from beginning to end, so a call is a function of the state, and
-- Controller/Calls has the calls as data, in the order in which the mutex admits them.
-- Controller/Buffer has what the private functions do to the history, Controller/Timestamps the
-- normalisation of timestamps, Controller/Ingest and Controller/Commands the public calls.
-- Controller/History, Controller/Playback and Controller/Epochs are proofs.
-- Flv: src/flv-muxer.cpp. Flv/Tag and Flv/Wire have the tags and their bytes, Flv/Avc the check of
-- H.264 framing, Flv/Muxer `FlvMuxer`.
-- SenderQueue: src/bounded-sender-queue.cpp. A call is what it does under the mutex of the queue;
-- `wait_pop` waits until `can_pop`.
--
-- Dispatcher: src/released-packet-dispatcher.cpp. What a consumer does with a batch is a parameter; the
-- epoch that a dispatch reads before each consumer is a function, since other threads raise it.
-- HoldingFeed: src/holding-feed.cpp, the feed of the holding scene, whose clock is an argument.
-- RtmpSender: src/rtmp-sender.cpp, the blocks that its calls and its worker run under the mutex;
-- RtmpSender/Worker has the decisions of the worker about the tags that it pops.
-- NetworkConsumer: src/network-packet-consumer.cpp, with `FlvMuxer` and the sender of above.
--
-- TransitionCodec: src/transition-codec.hpp. TransitionCodec/Bits has `TransitionBits` as a reader
-- that may fail, the file itself the timing of packets and AAC, TransitionCodec/Video the reading
-- of an AVC sequence parameter set, part by part in the order of the source.
-- Transition: the actions of src/transition-coordinator.hpp.
-- RtmpTarget: src/rtmp-connection.cpp, where texts are lists of bytes and the time limit of a target,
-- which these functions do not read, is left out. RtmpTarget/Credentials and RtmpTarget/ReadBack read an
-- address back.
-- Multistream: src/multistream-config.cpp, with the platforms in Multistream/Platforms.
-- Preflight: src/multistream-preflight.cpp.
-- MultiTarget: src/multi-target-sender.cpp. The consumers are an interface, `TargetConsumer`, and a
-- call is taken from its snapshot of the workers to its end; MultiTarget/Startup has `start` and
-- `status`.
-- HoldingCapture: src/holding-capture.cpp over an interface of its backend; HoldingCapture/Owner has
-- what it owns after any calls.
-- Policies: src/scene-switch-policy.cpp and src/delayed-output-watchdog.cpp.
-- PipelineOwner: src/pipeline-owner.cpp. PipelineOwner/Queues has the capture queues and their
-- merge, the file itself the admission of packets and failures, PipelineOwner/Calls the calls of the
-- operator and of the output; the rest of its modules are proofs.
--
-- Payloads are lists of bytes. A sum or difference of `std::size_t` wraps at 2 ^ 64. Timestamps
-- are integers; where the source checks that a sum fits 64 bits, so does the model, and elsewhere
-- the model is without the overflow that C++ leaves undefined. A moved-from packet is not used
-- again by the source, so a move is a copy. Three loops run on fuel: `trim_loop` on as much as the
-- history has packets, since each round removes one, and `avc_loop` on as much as the payload has
-- bytes, since each round passes at least five, and
-- `merge_loop` on as many rounds as there are packets in the two queues, since each round takes one.
-- The 24 rounds of `count_zeros` are those that `ue` allows itself.
--
-- Not modelled: src/transition-coordinator.cpp, the loop of the owner's thread in
-- src/pipeline-owner.cpp, the retries of a reconnect and the start and stop in src/rtmp-sender.cpp,
-- the start of src/network-packet-consumer.cpp, the session, and the files that only call libobs, Qt
-- and FFmpeg. Locks are not modelled: what a function does under its lock is one step.
pub mod Base
pub mod Packet
pub mod Diagnostic
pub mod Controller
pub mod Flv
pub mod PipelineOwner
pub mod Policies
pub mod SenderQueue
pub mod Transition
pub mod TransitionCodec
pub mod Dispatcher
pub mod HoldingCapture
pub mod HoldingFeed
pub mod RtmpSender
pub mod RtmpTarget
pub mod Multistream
pub mod MultiTarget
pub mod Preflight
pub mod NetworkConsumer
