-- ===== src/Controller/Timestamps.antt =====
-- src/delay-controller.cpp: checked 64-bit sums, and the normalisation of timestamps when an
-- encoder restarts its clock.
use obs_live_delay_plugin.Base.{false, ◌&&◌, ◌||◌, Option, none, some, if◌then◌else◌}
use obs_live_delay_plugin.Base.Int.{ℤ, pos, ◌+ℤ◌, ◌-ℤ◌, ltb_ℤ, int64_max, int64_min}
use obs_live_delay_plugin.Packet.{EncodedPacket}
use obs_live_delay_plugin.Diagnostic.{DiagnosticCode, diagnostic_error}
use obs_live_delay_plugin.Controller.State.{DelayController, set_error}

unfoldable pub checked_add : ℤ → ℤ → Option ℤ
checked_add left right =
    if (ltb_ℤ (pos 0) right && ltb_ℤ (int64_max -ℤ right) left)
      || (ltb_ℤ right (pos 0) && ltb_ℤ left (int64_min -ℤ right))
    then none
    else some (left +ℤ right)

unfoldable pub checked_subtract : ℤ → ℤ → Option ℤ
checked_subtract left right =
    if (ltb_ℤ (pos 0) right && ltb_ℤ left (int64_min +ℤ right))
      || (ltb_ℤ right (pos 0) && ltb_ℤ (int64_max +ℤ right) left)
    then none
    else some (left -ℤ right)

-- The offset that puts `dts` one microsecond behind the last packet.
unfoldable pub epoch_offset : ℤ → ℤ → Option ℤ
epoch_offset last dts = elim (checked_add last (pos 1)) [
  | none ↦ none
  | some start ↦ checked_subtract start dts
]

-- A call that may set an error and refuse the packet.
abbrev pub Normalized : Type 0
Normalized = DelayController × Option EncodedPacket

-- The end of `normalize_timestamp_locked`: the packet is accepted.
abbrev pub accept : DelayController → EncodedPacket → Normalized
accept c p = (record c { last_input_dts_us = some p.dts_us }, some p)

-- Both timestamps of the packet, moved by the offset.
unfoldable pub shift_packet : EncodedPacket → ℤ → Option EncodedPacket
shift_packet p offset = elim (checked_add p.dts_us offset) [
  | none ↦ none
  | some dts ↦ elim (checked_add p.pts_us offset) [
    | none ↦ none
    | some pts ↦ some (record p { pts_us = pts; dts_us = dts })
  ]
]

abbrev pub accept_shifted : DelayController → Option EncodedPacket → Normalized
accept_shifted c none = (
  set_error c (
      diagnostic_error DiagnosticCode.output_controller_failed
        "Encoder timestamps overflowed while joining a restarted epoch"),
  none,
)
accept_shifted c (some p) = accept c p

abbrev pub offset_by : Option ℤ → DelayController → EncodedPacket → Normalized
offset_by none c p = accept c p
offset_by (some offset) c p = accept_shifted c (shift_packet p offset)

unfoldable pub apply_offset : DelayController → EncodedPacket → Normalized
apply_offset c p = offset_by c.timestamp_offset_us c p

abbrev pub rebase_by : Option ℤ → DelayController → EncodedPacket → Normalized
rebase_by none c p = (
  set_error c (
      diagnostic_error DiagnosticCode.output_controller_failed
        "Encoder timestamp epoch cannot be represented safely"),
  none,
)
rebase_by (some offset) c p = apply_offset (record c { timestamp_offset_us = some offset }) p

abbrev pub rebase_after : Option ℤ → DelayController → EncodedPacket → Normalized
rebase_after none c p = apply_offset c p
rebase_after (some last) c p = rebase_by (epoch_offset last p.dts_us) c p

-- The start of `normalize_timestamp_locked`, where `begin_timestamp_epoch` has been called.
unfoldable pub rebase : DelayController → EncodedPacket → Normalized
rebase c p = rebase_after c.last_input_dts_us c p

-- `normalize_timestamp_locked`.
unfoldable pub normalize_timestamp : DelayController → EncodedPacket → Normalized
normalize_timestamp c p =
    if c.rebase_next_timestamp
    then rebase (record c { rebase_next_timestamp = false }) p
    else apply_offset c p
