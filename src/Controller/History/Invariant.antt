-- ===== src/Controller/History/Invariant.antt =====
-- Every call keeps the history of the controller in order and its byte count right.
use obs_live_delay_plugin.Base.{
  ℕ, ◌≡◌, true, false, Option, none, some, List, [], ◌∷◌, ◌++◌, arith, length, String, add_size,
  if_cases, Option_cases, value_or, is_empty, ltb, ◌&&◌, ◌||◌, not,
}
use obs_live_delay_plugin.Base.Int.{ℤ, ◌-ℤ◌, leb_ℤ}
use obs_live_delay_plugin.Packet.{
  EncodedPacket, PacketKind, is_building, is_delayed, is_live, is_error, is_keyframe,
}
use obs_live_delay_plugin.Controller.State.{DelayController, watermark, set_error, duration}
use obs_live_delay_plugin.Controller.Buffer.{
  after_roll, roll_at, roll_prebuffer, discard_to_next_keyframe, trim_to_target, promote_release,
  promote_building, promote,
}
use obs_live_delay_plugin.Controller.Timestamps.{
  Normalized, accept_shifted, offset_by, rebase_by, rebase_after, shift_packet, rebase,
  apply_offset, normalize_timestamp, epoch_offset,
}
use obs_live_delay_plugin.Controller.Ingest.{
  emit_live, moved_backwards, set_watermark, append, enforce_limits, ingest_history, over_capacity,
  ingest_normalized, after_normalize, ingest,
}
use obs_live_delay_plugin.Controller.History.Fits.{
  Fits, Fits-nil, Fits-append, rolled-Fits, discard-Fits, trim_loop-Fits, release_loop-Fits,
}

-- The timestamps of the history do not fall, and `buffered_bytes_` is its weight.
pub record IsValid (c : DelayController) : Type 0 where
  pub fits : Fits c.buffered c.buffered_bytes

pub set_error-IsValid : (c : DelayController) (m : String) → IsValid c → IsValid (set_error c m)
unfolding set_error
set_error-IsValid c m v =
    if_cases IsValid (c.armed) (λ _. record { fits = Fits-nil }) (λ _. record { fits = v.fits })

after_roll-IsValid : (c : DelayController) → IsValid c → IsValid (after_roll c)
unfolding after_roll
after_roll-IsValid c v = if_cases IsValid (c.passthrough) (λ _. v) (λ _. record { fits = v.fits })

roll_at-IsValid : (c : DelayController) (mark : ℤ) → IsValid c → IsValid (roll_at c mark)
unfolding roll_at
roll_at-IsValid c mark v =
    if_cases IsValid (is_empty c.buffered) (λ _. v)
      (λ _.
        after_roll-IsValid _ (record {
          fits = rolled-Fits (mark -ℤ c.target_delay) c.buffered c.buffered_bytes v.fits;
        }))

pub roll_prebuffer-IsValid : (c : DelayController) → IsValid c → IsValid (roll_prebuffer c)
unfolding roll_prebuffer
roll_prebuffer-IsValid c v =
    Option_cases IsValid (watermark c) (λ _. v) (λ mark _. roll_at-IsValid c mark v)

pub trim_to_target-IsValid : (c : DelayController) → IsValid c → IsValid (trim_to_target c).0
unfolding trim_to_target
trim_to_target-IsValid c v = record {
  fits = trim_loop-Fits (length c.buffered) c.target_delay c.buffered c.buffered_bytes v.fits;
}

promote_release-IsValid : (c : DelayController) → IsValid c → IsValid (promote_release c)
unfolding promote_release
promote_release-IsValid c v =
    let f =
      release_loop-Fits (value_or c.playback_delay c.target_delay) c.buffered c.ready
        c.buffered_bytes v.fits in
    if_cases IsValid (is_delayed c.state) (λ _. record { fits = f }) (λ _. v)

promote_building-IsValid : (c : DelayController) → IsValid c → IsValid (promote_building c)
unfolding promote_building
promote_building-IsValid c v =
    let f = discard-Fits true c.buffered c.buffered_bytes v.fits in
    if_cases IsValid (is_building c.state && leb_ℤ c.target_delay (duration c.buffered))
      (λ _.
        if_cases IsValid ((discard_to_next_keyframe true c.buffered c.buffered_bytes).1)
          (λ _. promote_release-IsValid _ (record { fits = f }))
          (λ _. set_error-IsValid _ _ (record { fits = f })))
      (λ _. promote_release-IsValid c v)

pub promote-IsValid : (c : DelayController) → IsValid c → IsValid (promote c)
unfolding promote
promote-IsValid c v =
    let t = trim_to_target-IsValid c v in
    if_cases IsValid (c.pending_trim)
      (λ _.
        if_cases IsValid ((trim_to_target c).1)
          (λ _. promote_building-IsValid _ (record { fits = t.fits })) (λ _. t))
      (λ _. promote_building-IsValid c v)

-- The gate of live output leaves the history alone.
emit_live-IsValid : (c : DelayController) (p : EncodedPacket) → IsValid c → IsValid (emit_live c p)
unfolding emit_live
emit_live-IsValid c p v = record { fits = ground (arith, v.fits) }

set_watermark-IsValid :
    (c : DelayController) (k : PacketKind) (dts : ℤ) → IsValid c → IsValid (set_watermark c k dts)
unfolding set_watermark
set_watermark-IsValid c PacketKind.video dts v = record { fits = v.fits }
set_watermark-IsValid c PacketKind.audio dts v = record { fits = v.fits }

appended-Fits :
    (ps : List EncodedPacket) (p : EncodedPacket) (bytes : ℕ)
    → moved_backwards ps p ≡ false
    → Fits ps bytes
    → Fits (ps ++ (p ∷ [])) (add_size bytes (length p.payload))
unfolding moved_backwards
appended-Fits [] p bytes h f = record { ordered = (tt, tt); counted = omega (arith, f.counted) }
appended-Fits (q ∷ qs) p bytes h f = Fits-append q qs p bytes f (ground arith)

append-IsValid :
    (c : DelayController) (p : EncodedPacket)
    → moved_backwards c.buffered p ≡ false
    → IsValid c
    → IsValid (append c p)
unfolding append
append-IsValid c p h v =
    set_watermark-IsValid _ p.kind p.dts_us
      (record { fits = appended-Fits c.buffered p c.buffered_bytes h v.fits })

enforce_limits-IsValid : (c : DelayController) → IsValid c → IsValid (enforce_limits c)
unfolding enforce_limits
enforce_limits-IsValid c v =
    if_cases IsValid (ltb c.limits.max_bytes c.buffered_bytes) (λ _. set_error-IsValid c _ v)
      (λ _.
        if_cases IsValid (c.armed)
          (λ _. if_cases IsValid (over_capacity c) (λ _. set_error-IsValid c _ v) (λ _. v))
          (λ _. promote-IsValid c v))

ingest_history-IsValid :
    (c : DelayController) (p : EncodedPacket) → IsValid c → IsValid (ingest_history c p)
unfolding ingest_history
ingest_history-IsValid c p v =
    if_cases IsValid
      ((is_building c.state || c.passthrough) && is_empty c.buffered && not (is_keyframe p))
      (λ _. v)
      (λ _.
        if_cases IsValid (moved_backwards c.buffered p) (λ _. set_error-IsValid c _ v)
          (λ h. enforce_limits-IsValid _ (
            if_cases IsValid (c.armed) (λ _. roll_prebuffer-IsValid _ (append-IsValid c p h v))
              (λ _. append-IsValid c p h v))))

ingest_normalized-IsValid :
    (c : DelayController) (p : EncodedPacket) → IsValid c → IsValid (ingest_normalized c p)
unfolding ingest_normalized
ingest_normalized-IsValid c p v =
    let e = emit_live-IsValid c p v in
    if_cases IsValid (is_live c.state)
      (λ _. if_cases IsValid (c.passthrough) (λ _. ingest_history-IsValid _ p e) (λ _. e))
      (λ _. ingest_history-IsValid c p v)

-- Joining epochs leaves the history alone, but for the error of an armed controller.
accept_shifted-IsValid :
    (o : Option EncodedPacket) (c : DelayController) → IsValid c → IsValid (accept_shifted c o).0
accept_shifted-IsValid none c v = set_error-IsValid c _ v
accept_shifted-IsValid (some p) c v = record { fits = v.fits }

offset_by-IsValid :
    (o : Option ℤ) (c : DelayController) (p : EncodedPacket)
    → IsValid c
    → IsValid (offset_by o c p).0
offset_by-IsValid none c p v = record { fits = v.fits }
offset_by-IsValid (some offset) c p v = accept_shifted-IsValid (shift_packet p offset) c v

apply_offset-IsValid :
    (c : DelayController) (p : EncodedPacket) → IsValid c → IsValid (apply_offset c p).0
unfolding apply_offset
apply_offset-IsValid c p v = offset_by-IsValid c.timestamp_offset_us c p v

rebase_by-IsValid :
    (o : Option ℤ) (c : DelayController) (p : EncodedPacket)
    → IsValid c
    → IsValid (rebase_by o c p).0
rebase_by-IsValid none c p v = set_error-IsValid c _ v
rebase_by-IsValid (some offset) c p v = apply_offset-IsValid _ p (record { fits = v.fits })

rebase_after-IsValid :
    (o : Option ℤ) (c : DelayController) (p : EncodedPacket)
    → IsValid c
    → IsValid (rebase_after o c p).0
rebase_after-IsValid none c p v = apply_offset-IsValid c p v
rebase_after-IsValid (some last) c p v = rebase_by-IsValid (epoch_offset last p.dts_us) c p v

normalize_timestamp-IsValid :
    (c : DelayController) (p : EncodedPacket) → IsValid c → IsValid (normalize_timestamp c p).0
unfolding normalize_timestamp rebase
normalize_timestamp-IsValid c p v =
    if_cases (λ (r : Normalized). IsValid r.0) (c.rebase_next_timestamp)
      (λ _. rebase_after-IsValid c.last_input_dts_us _ p (record { fits = v.fits }))
      (λ _. apply_offset-IsValid c p v)

after_normalize-IsValid : (r : Normalized) → IsValid r.0 → IsValid (after_normalize r)
after_normalize-IsValid (c, none) v = v
after_normalize-IsValid (c, some p) v = ingest_normalized-IsValid c p v

pub ingest-IsValid : (c : DelayController) (p : EncodedPacket) → IsValid c → IsValid (ingest c p)
unfolding ingest
ingest-IsValid c p v =
    if_cases IsValid (is_error c.state) (λ _. v)
      (λ _. after_normalize-IsValid _ (normalize_timestamp-IsValid c p v))
