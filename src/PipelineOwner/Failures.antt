-- ===== src/PipelineOwner/Failures.antt =====
-- src/pipeline-owner.cpp: what calls can still do once a failure is recorded.
use obs_live_delay_plugin.HoldingFeed.{eq_bytes}
use obs_live_delay_plugin.PipelineOwner.{
  PipelineOwner, Answer, failure, enqueue, enqueue_uninterleaved, is_shut, ℤ,
  ReleasedPacketConsumer, EncodedPacket, TransitionRequest, FlvCodecHeaders, broadcast_on_air,
  TransitionAction, PipelineStatus, BroadcastPhase,
}
use obs_live_delay_plugin.PipelineOwner.Calls.{
  request, request_stop, start_broadcast, set_headers, status, reported, request_refusal, answer_of,
  note_headers, after_refusal, cannot_go_live,
}
use obs_live_delay_plugin.PipelineOwner.Queues.{clear_capture}
use obs_live_delay_plugin.Base.{
  ◌∷◌, [], none, some, ◌≡◌, inl, List, ◌∙◌, ◌⊎◌, String, ℕ, is_empty_text, refl, inr, false, true,
  Bool, not, Option, if_cases, ap, ◌||◌, ◌==◌, is_empty, subst, sym, Result, ◌&&◌,
}

-- The calls of other threads on an owner, with the clock where they read it.
pub data OwnerCall : Type 0 where
  enqueues captures : (now : ℤ) → EncodedPacket → (token : ℕ) → OwnerCall
  asks : TransitionRequest → OwnerCall
  gives : FlvCodecHeaders → OwnerCall
  goes_live : (now : ℤ) → OwnerCall
  fails : String → OwnerCall
  stops : OwnerCall

module _ {C : Type 0} (ops : ReleasedPacketConsumer C) where
  unfoldable pub owner_step : PipelineOwner C → OwnerCall → PipelineOwner C
  owner_step o (OwnerCall.enqueues now p token) = (enqueue ops o now p token).0
  owner_step o (OwnerCall.captures now p token) = (enqueue_uninterleaved ops o now p token).0
  owner_step o (OwnerCall.asks r) = (request ops o r).0
  owner_step o (OwnerCall.gives h) = (set_headers ops o h).0
  owner_step o (OwnerCall.goes_live now) = (start_broadcast ops o now).0
  owner_step o (OwnerCall.fails error) = (failure ops o error).0
  owner_step o OwnerCall.stops = request_stop ops o

  unfoldable pub owner_run : PipelineOwner C → List OwnerCall → PipelineOwner C
  owner_run o [] = o
  owner_run o (call ∷ calls) = owner_run (owner_step o call) calls

-- The failure stays, and nothing is captured or queued any more: the packets and the requests are
-- those of before, or a stop threw them away.
pub record IsFrozen {C : Type 0} (o o' : PipelineOwner C) : Type 0 where
  first_failure : o'.failure_error ≡ o.failure_error
  packets : (o'.capture.packets ≡ o.capture.packets) ⊎ (o'.capture.packets ≡ [])
  videos : (o'.capture.video_ingress ≡ o.capture.video_ingress) ⊎ (o'.capture.video_ingress ≡ [])
  audios : (o'.capture.audio_ingress ≡ o.capture.audio_ingress) ⊎ (o'.capture.audio_ingress ≡ [])
  requests : (o'.requests ≡ o.requests) ⊎ (o'.requests ≡ [])
  not_live : o'.broadcast_requested ≡ o.broadcast_requested

-- A status that reports the failure `text`.
pub record Reports (text : String) (s : PipelineStatus) : Type 0 where
  error : s.error ≡ text
  phase : s.phase ≡ BroadcastPhase.failed
  not_ready : s.ready ≡ false
  no_holding : s.holding_ready ≡ false
  off_air : broadcast_on_air s ≡ false

or_last : (a b : Bool) {c : Bool} → c ≡ true → (a || (b || c)) ≡ true
or_last true b e = refl
or_last false true e = refl
or_last false false e = e

and_false : (b : Bool) → (b && false) ≡ false
and_false true = refl
and_false false = refl

contradictory : {b : Bool} → b ≡ true → b ≡ false → ⊥
contradictory e f = cc

or_second : (a : Bool) {b : Bool} (c : Bool) → b ≡ true → (a || (b || c)) ≡ true
or_second true c e = refl
or_second false c e = rw e refl

IsFrozen-refl : {C : Type 0} (o : PipelineOwner C) → IsFrozen o o
IsFrozen-refl o = record {
  first_failure = refl;
  packets = inl refl;
  videos = inl refl;
  audios = inl refl;
  requests = inl refl;
  not_live = refl;
}

kept_or_empty :
    {A : Type 0} {a b c : List A} → (b ≡ a) ⊎ (b ≡ []) → (c ≡ b) ⊎ (c ≡ []) → (c ≡ a) ⊎ (c ≡ [])
kept_or_empty h (inr e) = inr e
kept_or_empty (inl e) (inl f) = inl (f ∙ e)
kept_or_empty (inr e) (inl f) = inr (f ∙ e)

IsFrozen-trans : {C : Type 0} (o p q : PipelineOwner C) → IsFrozen o p → IsFrozen p q → IsFrozen o q
IsFrozen-trans o p q f g = record {
  first_failure = g.first_failure ∙ f.first_failure;
  packets = kept_or_empty f.packets g.packets;
  videos = kept_or_empty f.videos g.videos;
  audios = kept_or_empty f.audios g.audios;
  requests = kept_or_empty f.requests g.requests;
  not_live = g.not_live ∙ f.not_live;
}

module _ {C : Type 0} (ops : ReleasedPacketConsumer C) where
  failed_failure :
      (o : PipelineOwner C) (error : String)
      → is_empty_text o.failure_error ≡ false
      → (failure ops o error).0 ≡ o
  unfolding failure
  failed_failure o error failed = rw failed refl

  failed_refusal :
      (o : PipelineOwner C) (action : TransitionAction)
      → is_empty_text o.failure_error ≡ false
      → request_refusal o action ≡ some o.failure_error
  unfolding request_refusal
  failed_refusal o action failed = rw failed refl

  failed_is_shut :
      (o : PipelineOwner C) (token : ℕ)
      → is_empty_text o.failure_error ≡ false
      → is_shut ops o token ≡ true
  failed_is_shut o token failed =
      or_last o.stopping (not (token == o.capture_epoch)) (ap not failed)

  answered-IsFrozen :
      (o : PipelineOwner C) (failed : PipelineOwner C × Option String)
      → failed.0 ≡ o
      → IsFrozen o (answer_of ops failed).0
  answered-IsFrozen o (p, none) e = subst (IsFrozen o) (sym e) (IsFrozen-refl o)
  answered-IsFrozen o (p, some message) e = subst (IsFrozen o) (sym e) (IsFrozen-refl o)

  noted-IsFrozen :
      (o : PipelineOwner C) (h : FlvCodecHeaders) (known : Option FlvCodecHeaders)
      → is_empty_text o.failure_error ≡ false
      → IsFrozen o (note_headers ops o h known).0
  noted-IsFrozen o h none failed = record {
    first_failure = refl;
    packets = inl refl;
    videos = inl refl;
    audios = inl refl;
    requests = inl refl;
    not_live = refl;
  }
  noted-IsFrozen o h (some known) failed =
      if_cases (λ (r : PipelineOwner C × Answer). IsFrozen o r.0)
        (not (eq_bytes known.avc_decoder_configuration h.avc_decoder_configuration)
          || not (eq_bytes known.aac_audio_specific_config h.aac_audio_specific_config))
        (λ e.
          answered-IsFrozen o
            (failure ops o "PROGRAMME_CODEC_CHANGED: encoder configuration changed during capture")
            (failed_failure o _ failed))
        (λ e. IsFrozen-refl o)

  owner_step-IsFrozen :
      (o : PipelineOwner C) (call : OwnerCall)
      → is_empty_text o.failure_error ≡ false
      → IsFrozen o (owner_step ops o call)
  unfolding owner_step enqueue enqueue_uninterleaved request request_stop start_broadcast
      clear_capture set_headers
  owner_step-IsFrozen o (OwnerCall.enqueues now p token) failed =
      if_cases (λ (r : PipelineOwner C × Result Bool). IsFrozen o r.0) (is_shut ops o token)
        (λ e. IsFrozen-refl o) (λ e. absurd (contradictory (failed_is_shut o token failed) e))
  owner_step-IsFrozen o (OwnerCall.captures now p token) failed =
      if_cases (λ (r : PipelineOwner C × Result Bool). IsFrozen o r.0) (is_shut ops o token)
        (λ e. IsFrozen-refl o) (λ e. absurd (contradictory (failed_is_shut o token failed) e))
  owner_step-IsFrozen o (OwnerCall.asks r) failed =
      subst (λ (refusal : Option String). IsFrozen o (after_refusal ops o r refusal).0)
        (sym (failed_refusal o r.action failed)) (IsFrozen-refl o)
  owner_step-IsFrozen o (OwnerCall.gives h) failed =
      if_cases (λ (r : PipelineOwner C × Answer). IsFrozen o r.0)
        (is_empty h.avc_decoder_configuration || is_empty h.aac_audio_specific_config)
        (λ e.
          answered-IsFrozen o
            (failure ops o "PROGRAMME_HEADERS_INVALID: H.264 and AAC configuration required")
            (failed_failure o _ failed))
        (λ e.
          if_cases (λ (r : PipelineOwner C × Answer). IsFrozen o r.0) o.stopping
            (λ f. IsFrozen-refl o) (λ f. noted-IsFrozen o h o.headers failed))
  owner_step-IsFrozen o (OwnerCall.goes_live now) failed =
      if_cases (λ (r : PipelineOwner C × Answer). IsFrozen o r.0) (cannot_go_live ops o now)
        (λ e. IsFrozen-refl o)
        (λ e. absurd (contradictory (or_second o.stopping _ (ap not failed)) e))
  owner_step-IsFrozen o (OwnerCall.fails error) failed =
      rw (failed_failure o error failed) (IsFrozen-refl o)
  owner_step-IsFrozen o OwnerCall.stops failed = record {
    first_failure = refl;
    packets = inr refl;
    videos = inr refl;
    audios = inr refl;
    requests = inr refl;
    not_live = refl;
  }

  run-IsFrozen :
      (calls : List OwnerCall) (o : PipelineOwner C)
      → is_empty_text o.failure_error ≡ false
      → IsFrozen o (owner_run ops o calls)
  unfolding owner_run
  run-IsFrozen [] o failed = IsFrozen-refl o
  run-IsFrozen (call ∷ calls) o failed =
      let step = owner_step-IsFrozen o call failed in
      IsFrozen-trans o (owner_step ops o call) (owner_run ops (owner_step ops o call) calls) step
        (run-IsFrozen calls (owner_step ops o call) (ap is_empty_text step.first_failure ∙ failed))

  status-Reports :
      (o : PipelineOwner C) (now : ℤ)
      → is_empty_text o.failure_error ≡ false
      → Reports o.failure_error (status ops o now)
  unfolding status reported broadcast_on_air
  status-Reports o now failed = rw failed (record {
    error = refl;
    phase = refl;
    not_ready = refl;
    no_holding = refl;
    off_air = and_false (not o.status.stopped);
  })

  -- Once a failure is recorded it stays the first one, and whatever is called, the owner captures no
  -- packet, queues no action and goes live no more; its status has the text of that failure, the phase of a
  -- failure and nothing ready, and is not on air.
  pub owner_run-IsFrozen :
      (calls : List OwnerCall) (o : PipelineOwner C) (now : ℤ)
      → is_empty_text o.failure_error ≡ false
      → IsFrozen o (owner_run ops o calls)
        × Reports o.failure_error (status ops (owner_run ops o calls) now)
  owner_run-IsFrozen calls o now failed = (
    run-IsFrozen calls o failed,
    subst (λ error. Reports error (status ops (owner_run ops o calls) now))
        (run-IsFrozen calls o failed).first_failure
        (status-Reports (owner_run ops o calls) now
          (ap is_empty_text (run-IsFrozen calls o failed).first_failure ∙ failed)),
  )
