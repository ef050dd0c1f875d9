-- ===== src/RtmpSender/Worker.antt =====
-- src/rtmp-sender.cpp: the decisions of the loop of `run` about a tag that it has popped, while the
-- transport works.
use obs_live_delay_plugin.Flv.Tag.{FlvTag, is_audio_tag, is_video_tag, is_codec_header}
use obs_live_delay_plugin.Base.{
  [], ◌∷◌, true, false, Bool, ℕ, List, if◌then◌else◌, ◌≡◌, Every, ◌==◌, ◌&&◌, not, ◌⊎◌, ltb, ◌≤◌,
  ◌≢◌,
}

-- The local variables of the loop.
pub record Worker : Type 0 where
  pub awaiting_keyframe : Bool
  pub audio_cutoff_ms : ℕ
  pub media_epoch : ℕ

abbrev pub new_worker : Worker
new_worker = record { awaiting_keyframe = true; audio_cutoff_ms = 0; media_epoch = 0 }

-- What becomes of a tag: it is passed over, ends the sender, or is sent, as a codec header or a
-- drain guard or as media of the programme.
pub data Verdict : Type 0 where
  skips fails sends_guard sends_media : Verdict

abbrev pub follow_epoch : Worker → FlvTag → Worker
follow_epoch w tag =
    if w.media_epoch == tag.epoch
    then w
    else record w { media_epoch = tag.epoch; awaiting_keyframe = true }

-- Audio from before the keyframe is left out.
abbrev pub cut_audio : Worker → FlvTag → Worker × Verdict
cut_audio w tag =
    if is_audio_tag tag.type && ltb tag.timestamp_ms w.audio_cutoff_ms
    then (w, Verdict.skips)
    else (w, Verdict.sends_media)

unfoldable pub gate_media : Worker → FlvTag → Worker × Verdict
gate_media w tag =
    if w.awaiting_keyframe
    then (if is_video_tag tag.type && tag.keyframe
        then cut_audio (record w { awaiting_keyframe = false; audio_cutoff_ms = tag.timestamp_ms })
            tag
        else (w, Verdict.skips))
    else cut_audio w tag

-- The decision on a tag, where `epoch` is the sender's.
unfoldable pub gate : Worker → ℕ → FlvTag → Worker × Verdict
gate w epoch tag =
    let w' = follow_epoch w tag in
    if not (tag.epoch == epoch)
    then (w, Verdict.skips)
    else if is_codec_header tag
    then (w', Verdict.sends_guard)
    else if tag.audio_drain
    then (w', if is_audio_tag tag.type then Verdict.sends_guard else Verdict.fails)
    else gate_media w' tag

abbrev pub media_sent : Verdict → FlvTag → List FlvTag → List FlvTag
media_sent Verdict.sends_media tag rest = tag ∷ rest
media_sent _ tag rest = rest

-- The media that one connection gets of the tags that are popped while the epoch stays.
unfoldable pub gate_all : Worker → ℕ → List FlvTag → List FlvTag
gate_all w epoch [] = []
gate_all w epoch (tag ∷ tags) =
    media_sent (gate w epoch tag).1 tag (gate_all (gate w epoch tag).0 epoch tags)

-- Audio is not from before `cutoff`.
abbrev pub IsFresh : ℕ → FlvTag → Type 0
IsFresh cutoff tag = (is_audio_tag tag.type ≡ false) ⊎ (cutoff ≤ tag.timestamp_ms)

-- Media that a decoder can start on: a video keyframe, then no audio from before it.
abbrev pub OpensOnKeyframe : List FlvTag → Type 0
OpensOnKeyframe [] = Unit {0}
OpensOnKeyframe (tag ∷ tags) =
    (is_video_tag tag.type && tag.keyframe ≡ true) × Every (IsFresh tag.timestamp_ms) tags

-- The worker follows the epoch and has its keyframe.
pub record Flowing (w : Worker) (epoch : ℕ) : Type 0 where
  pub open_ : w.awaiting_keyframe ≡ false
  pub at : w.media_epoch ≡ epoch

-- A worker that waits for its keyframe, or that has yet to follow the epoch.
abbrev pub Waits : Worker → ℕ → Type 0
Waits w epoch = (w.awaiting_keyframe ≡ true) ⊎ (w.media_epoch ≢ epoch)

abbrev is_media : Verdict → Bool
is_media Verdict.sends_media = true
is_media _ = false

-- What a tag does to a worker that waits.
abbrev Opened : ℕ → FlvTag → Worker × Verdict → Type 0
Opened epoch tag (w, v) =
    ((is_media v ≡ false) × Waits w epoch)
    ⊎ ((is_media v ≡ true)
        × (is_video_tag tag.type && tag.keyframe ≡ true)
        × (w.awaiting_keyframe ≡ false)
        × (w.media_epoch ≡ epoch)
        × (w.audio_cutoff_ms ≡ tag.timestamp_ms))
