-- ===== src/PipelineOwner/Calls.antt =====
-- src/pipeline-owner.cpp: the calls of the operator and of the output on a `PipelineOwner`.
use obs_live_delay_plugin.Controller.State.{prebuffer_ready}
use obs_live_delay_plugin.HoldingFeed.{eq_bytes}
use obs_live_delay_plugin.Base.Int.{eq_ℤ, max_ℤ, pos, int64_min}
use obs_live_delay_plugin.Base.{is_some, is_empty, value_or, err, leb, ok, length}
use obs_live_delay_plugin.Packet.{is_live}
use obs_live_delay_plugin.Controller.Commands.{arm}
use obs_live_delay_plugin.PipelineOwner.{
  PipelineOwner, BroadcastPhase, Answer, accepted, denied, threw, Bool, DelayController, Option,
  Capture, ◌++◌, ReleasedPacketConsumer, true, String, ◌||◌, ℤ, ◌∷◌, Result, cut_off, some,
  FlvCodecHeaders, PipelineStatus, false, none, if◌then◌else◌, ◌&&◌, not, add_size, [], ℕ,
  clear_capture, is_empty_text, List, is_ready, ConsumerFailure, is_waiting, failure, is_older,
  is_broadcasting,
}
use obs_live_delay_plugin.Transition.{TransitionAction, TransitionRequest}

abbrev pub is_set_delay : TransitionAction → Bool
is_set_delay TransitionAction.set_delay = true
is_set_delay _ = false

abbrev pub is_return_live : TransitionAction → Bool
is_return_live TransitionAction.return_live = true
is_return_live _ = false

-- The refusals of `rewind_mode` by the state of the delay.
abbrev pub rewind_refusal : (live can_delay : Bool) → TransitionAction → Option String
rewind_refusal true false TransitionAction.set_delay =
    some "DELAY_NOT_READY: the buffer is still filling"
rewind_refusal false can_delay TransitionAction.set_delay =
    some "DELAY_ALREADY_ACTIVE: return live first"
rewind_refusal true can_delay TransitionAction.return_live = some "ALREADY_LIVE: no delay to leave"
rewind_refusal true can_delay TransitionAction.emergency_dump =
    some "DUMP_UNAVAILABLE: nothing delayed to dump while live"
rewind_refusal _ _ _ = none

abbrev pub mode_refusal : DelayController → TransitionAction → Option String
mode_refusal c action =
    if c.rewind_mode then rewind_refusal (is_live c.state) (prebuffer_ready c) action else none

-- An action that keeps the controller's buffer, so that captured media must still reach it.
abbrev pub keeps_buffer : DelayController → TransitionAction → Bool
keeps_buffer c action = is_set_delay action || (c.rewind_mode && is_return_live action)

abbrev pub is_empty_option : Option ℤ → Bool
is_empty_option o = not (is_some o)

-- The floor under which late packets of the slower encoder are dropped.
unfoldable pub raised_floor : Capture → Option ℤ
raised_floor c =
    if is_some c.video_input || is_some c.audio_input
    then some (max_ℤ (value_or c.video_input int64_min) (value_or c.audio_input int64_min))
    else c.capture_floor

-- `++capture_epoch_; clear_capture_locked();` behind the floor.
abbrev pub revoke {ℓ} : {C : Type ℓ} → PipelineOwner C → Option ℤ → PipelineOwner C
revoke o floor = record o {
  capture_epoch = add_size o.capture_epoch 1;
  capture = clear_capture (record o.capture { capture_floor = floor });
}

-- The end of `request`, once every consumer has passed the cutoff.
unfoldable pub admit_request {ℓ} :
    {C : Type ℓ} → PipelineOwner C → TransitionRequest → PipelineOwner C
admit_request o request =
    let pending = record o {
      requests = o.requests ++ (request ∷ []);
      status = record o.status { transition_pending = true };
    } in
    if keeps_buffer o.controller request.action
    then pending
    else revoke pending (raised_floor o.capture)

-- The message with which `request` returns before the cutoff.
unfoldable pub request_refusal {ℓ} :
    {C : Type ℓ} → PipelineOwner C → TransitionAction → Option String
request_refusal o action =
    if not (is_empty_text o.failure_error)
    then some o.failure_error
    else if o.stopping
        || (not o.status.ready
            || (not o.status.holding_ready
                || (not (eq_ℤ o.prebuffer_target (pos 0)) && not (is_broadcasting o.status.phase))))
    then some "HOLDING_NOT_READY: transition unavailable until delayed programme is broadcasting"
    else if leb 64 (length o.requests)
    then some "TRANSITION_QUEUE_FULL: too many pending actions"
    else mode_refusal o.controller action

module _ {ℓ} {C : Type ℓ} (ops : ReleasedPacketConsumer C) where
  -- `error = message; failure(error); return false;`.
  abbrev pub refuse_failed : PipelineOwner C × Option String → String → PipelineOwner C × Answer
  refuse_failed (o, none) message = (o, denied message)
  refuse_failed (o, some thrown) message = (o, threw thrown)
      -- `failure(message); return false;` where an exception of it is caught and recorded in turn.

  abbrev pub refuse_caught : PipelineOwner C × Option String → String → PipelineOwner C × Answer
  refuse_caught (o, none) message = (o, denied message)
  refuse_caught (o, some thrown) message = refuse_failed (failure ops o thrown) thrown

  abbrev pub after_cutoff :
      PipelineOwner C
      → TransitionRequest
      → Result (ℕ × List ConsumerFailure)
      → PipelineOwner C × Answer
  after_cutoff o request (err message) = refuse_failed (failure ops o message) message
  after_cutoff o request (ok (epoch, [])) =
      (admit_request o (record request { epoch = epoch }), accepted)
  after_cutoff o request (ok (epoch, first ∷ failures)) =
      refuse_caught (failure ops o first.error) first.error

  unfoldable pub cut_and_admit : PipelineOwner C → TransitionRequest → PipelineOwner C × Answer
  cut_and_admit o request =
      let (cut, result) = cut_off ops o.dispatcher o.epoch "Accepted action publication cutoff" in
      after_cutoff (record o { dispatcher = cut }) request result

  abbrev pub after_refusal :
      PipelineOwner C → TransitionRequest → Option String → PipelineOwner C × Answer
  after_refusal o r (some message) = (o, denied message)
  after_refusal o r none = cut_and_admit o r

  unfoldable pub request : PipelineOwner C → TransitionRequest → PipelineOwner C × Answer
  request o r = after_refusal o r (request_refusal o r.action)

  -- `request_stop`; an exception of its cutoff is caught there.
  unfoldable pub request_stop : PipelineOwner C → PipelineOwner C
  request_stop o =
      let (cut, result) = cut_off ops o.dispatcher o.epoch "Stop publication cutoff" in
      let stopped = record o {
        dispatcher = if o.stopping then o.dispatcher else cut;
        stopping = true;
        requests = [];
        status = record o.status {
          ready = false;
          phase = if o.status.stopped then o.status.phase else BroadcastPhase.stopping;
        };
      } in
      revoke stopped o.capture.capture_floor

  -- The guard of `start_broadcast`.
  abbrev pub cannot_go_live : PipelineOwner C → ℤ → Bool
  cannot_go_live o now =
      o.stopping
      || (not (is_empty_text o.failure_error)
          || (not (is_waiting o.status.phase)
              || (o.broadcast_requested
                  || (is_older now o.last_video 2
                      || (is_older now o.last_audio 2 || is_older now o.last_key 5)))))

  -- `start_broadcast`.
  unfoldable pub start_broadcast : PipelineOwner C → ℤ → PipelineOwner C × Answer
  start_broadcast o now =
      if cannot_go_live o now
      then (o, denied "PREBUFFER_NOT_READY: arm and wait for fresh programme video and audio")
      else (
        record o {
          broadcast_requested = true;
          status = record o.status { phase = BroadcastPhase.connecting };
        },
        accepted,
      )

  -- `start` on an owner whose thread does not run; the failure is its exception.
  unfoldable pub start : PipelineOwner C → ℤ → PipelineOwner C × Answer
  start o now =
      let (armed, refusal) = arm o.controller o.prebuffer_target in
      let started = record o {
        stopping = false;
        status = record o.status { stopped = false; phase = BroadcastPhase.arming };
        last_video = now;
        last_audio = now;
        last_key = now;
        worker_started = true;
      } in
      if o.worker_started
      then (o, threw "Pipeline owner already started")
      else if eq_ℤ o.prebuffer_target (pos 0)
      then (started, accepted)
      else elim refusal [
        | some message ↦ (record o { controller = armed }, threw message)
        | none ↦ (record started { controller = armed }, accepted)
      ]

  -- The exception that leaves `headers`.
  abbrev pub answer_of : PipelineOwner C × Option String → PipelineOwner C × Answer
  answer_of (o, none) = (o, accepted)
  answer_of (o, some message) = (o, threw message)

  abbrev pub note_headers :
      PipelineOwner C → FlvCodecHeaders → Option FlvCodecHeaders → PipelineOwner C × Answer
  note_headers o h none = (record o { headers = some h }, accepted)
  note_headers o h (some known) =
      if not (eq_bytes known.avc_decoder_configuration h.avc_decoder_configuration)
        || not (eq_bytes known.aac_audio_specific_config h.aac_audio_specific_config)
      then answer_of
          (failure ops o "PROGRAMME_CODEC_CHANGED: encoder configuration changed during capture")
      else (o, accepted)

  unfoldable pub set_headers : PipelineOwner C → FlvCodecHeaders → PipelineOwner C × Answer
  set_headers o h =
      if is_empty h.avc_decoder_configuration || is_empty h.aac_audio_specific_config
      then answer_of
          (failure ops o "PROGRAMME_HEADERS_INVALID: H.264 and AAC configuration required")
      else if o.stopping
      then (o, accepted)
      else note_headers o h o.headers

  -- `status`, of what the owner knows at `now`.
  unfoldable pub reported : PipelineOwner C → PipelineStatus
  reported o = if is_empty_text o.failure_error then o.status else record o.status {
    ready = false;
    holding_ready = false;
    error = o.failure_error;
    phase = BroadcastPhase.failed;
  }

  unfoldable pub status : PipelineOwner C → ℤ → PipelineStatus
  status o now =
      let result = reported o in
      if is_ready result.phase && (is_older now o.last_video 2 || is_older now o.last_audio 2)
      then record result { phase = BroadcastPhase.filling }
      else result
