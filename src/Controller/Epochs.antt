-- ===== src/Controller/Epochs.antt =====
-- Restarted encoders: the joined clock of `normalize_timestamp_locked`.
use obs_live_delay_plugin.Controller.State.{DelayController, set_error}
use obs_live_delay_plugin.Controller.Commands.{begin_timestamp_epoch}
use obs_live_delay_plugin.Packet.{EncodedPacket, DelayState}
use obs_live_delay_plugin.Base.Int.{
  ℤ, IsInt64, ◌+ℤ◌, ◌-ℤ◌, +ℤ_parts, -ℤ_parts, int64_max, int64_min, int_laws, pos,
}
use obs_live_delay_plugin.Controller.Timestamps.{
  checked_add, checked_subtract, epoch_offset, shift_packet, normalize_timestamp, rebase,
  apply_offset,
}
use obs_live_delay_plugin.Base.{none, some, inl, inr, false, ◌≡◌, refl, ◌⊎◌, arith}

-- The checks are exact: a sum is refused just when it leaves the 64 bits.
pub checked_add_exact :
    (a b : ℤ)
    → IsInt64 a
    → IsInt64 b
    → (IsInt64 (a +ℤ b) × (checked_add a b ≡ some (a +ℤ b)))
      ⊎ ((¬ IsInt64 (a +ℤ b)) × (checked_add a b ≡ none))
unfolding checked_add
checked_add_exact a b ha hb =
    ground (arith, +ℤ_parts a b, -ℤ_parts int64_max b, -ℤ_parts int64_min b)

pub checked_subtract_exact :
    (a b : ℤ)
    → IsInt64 a
    → IsInt64 b
    → (IsInt64 (a -ℤ b) × (checked_subtract a b ≡ some (a -ℤ b)))
      ⊎ ((¬ IsInt64 (a -ℤ b)) × (checked_subtract a b ≡ none))
unfolding checked_subtract
checked_subtract_exact a b ha hb =
    ground (arith, -ℤ_parts a b, +ℤ_parts int64_max b, +ℤ_parts int64_min b)

pub sub-add_cancel : (a b : ℤ) → b +ℤ (a -ℤ b) ≡ a
sub-add_cancel a b = omega int_laws

checked_add-some :
    (a b : ℤ) → IsInt64 a → IsInt64 b → IsInt64 (a +ℤ b) → checked_add a b ≡ some (a +ℤ b)
checked_add-some a b ha hb h = elim (checked_add_exact a b ha hb) [
  | inl (_, e) ↦ e
  | inr (far, _) ↦ absurd (far h)
]

checked_subtract-some :
    (a b : ℤ) → IsInt64 a → IsInt64 b → IsInt64 (a -ℤ b) → checked_subtract a b ≡ some (a -ℤ b)
checked_subtract-some a b ha hb h = elim (checked_subtract_exact a b ha hb) [
  | inl (_, e) ↦ e
  | inr (far, _) ↦ absurd (far h)
]

-- What moves a packet of the new epoch behind the last one of the old.
abbrev pub joining_offset : ℤ → EncodedPacket → ℤ
joining_offset last p = (last +ℤ pos 1) -ℤ p.dts_us

abbrev pub joined : ℤ → EncodedPacket → EncodedPacket
joined last p = record p { pts_us = p.pts_us +ℤ joining_offset last p; dts_us = last +ℤ pos 1 }

epoch_offset_lem :
    (last : ℤ) (p : EncodedPacket)
    → IsInt64 last
    → IsInt64 p.dts_us
    → IsInt64 (last +ℤ pos 1)
    → IsInt64 (joining_offset last p)
    → epoch_offset last p.dts_us ≡ some (joining_offset last p)
unfolding epoch_offset
epoch_offset_lem last p hl hd h1 ho =
    rw (checked_add-some last (pos 1) hl (omega arith) h1, epoch_offset)
      (checked_subtract-some (last +ℤ pos 1) p.dts_us h1 hd ho)

shift_packet_lem :
    (last : ℤ) (p : EncodedPacket)
    → IsInt64 p.dts_us
    → IsInt64 p.pts_us
    → IsInt64 (last +ℤ pos 1)
    → IsInt64 (joining_offset last p)
    → IsInt64 (p.pts_us +ℤ joining_offset last p)
    → shift_packet p (joining_offset last p) ≡ some (joined last p)
unfolding shift_packet
shift_packet_lem last p hd hp h1 ho ht =
    let back : p.dts_us +ℤ joining_offset last p ≡ last +ℤ pos 1 =
      sub-add_cancel (last +ℤ pos 1) p.dts_us in
    rw
      (
        checked_add-some p.dts_us (joining_offset last p) hd ho (rw back h1),
        shift_packet,
        checked_add-some p.pts_us (joining_offset last p) hp ho ht,
      )
      (rw back)

-- The first packet of an epoch that follows `last`, and the controller that took it.
abbrev pub JoinsAt : DelayController → EncodedPacket → ℤ → Type 0
JoinsAt c p last =
    let offset = joining_offset last p in
    let q = joined last p in
    (normalize_timestamp (begin_timestamp_epoch c) p ≡ (
      record c {
        rebase_next_timestamp = false;
        timestamp_offset_us = some offset;
        last_input_dts_us = some (last +ℤ pos 1);
      },
      some q,
    ))
    × (q.dts_us ≡ last +ℤ pos 1)
    × (q.pts_us -ℤ q.dts_us ≡ p.pts_us -ℤ p.dts_us)

-- The first packet after `begin_timestamp_epoch` follows the last packet of the old epoch by one
-- microsecond, keeps its composition offset, and fixes the offset of the rest of its epoch, where
-- the 64-bit clock has room for it.
pub normalize_timestamp_joins :
    (c : DelayController) (p : EncodedPacket) (last : ℤ)
    → c.last_input_dts_us ≡ some last
    → IsInt64 last
    → IsInt64 p.dts_us
    → IsInt64 p.pts_us
    → IsInt64 (last +ℤ pos 1)
    → IsInt64 (joining_offset last p)
    → IsInt64 (p.pts_us +ℤ joining_offset last p)
    → JoinsAt c p last
unfolding normalize_timestamp rebase apply_offset begin_timestamp_epoch
normalize_timestamp_joins c p last e hl hd hp h1 ho ht = (
  rw (e, epoch_offset_lem last p hl hd h1 ho, shift_packet_lem last p hd hp h1 ho ht),
  refl,
  omega int_laws,
)

-- Where it has not, the packet is refused and the controller stops with an error.
pub normalize_timestamp_refuses :
    (c : DelayController) (p : EncodedPacket) (last : ℤ)
    → c.last_input_dts_us ≡ some last
    → epoch_offset last p.dts_us ≡ none
    → let (c', q) = normalize_timestamp (begin_timestamp_epoch c) p in
      (c'.state ≡ DelayState.error) × (q ≡ none)
unfolding normalize_timestamp rebase begin_timestamp_epoch set_error
normalize_timestamp_refuses c p last e o = ground arith
