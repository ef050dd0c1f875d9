-- ===== src/Flv/Muxer/Monotone.antt =====
-- The tags that a muxer makes, over any number of batches.
use obs_live_delay_plugin.Base.Int.{◌≤ℤ◌, pos_part, ◌-ℤ◌, -ℤ_parts, ℤ}
use obs_live_delay_plugin.Flv.Muxer.{
  Timeline, relative_ms, tag_payload, check_size, mux_packet, EncodedPacket, FlvTag, framing_size,
  base_for, max_flv_payload_size, check_framing, make_tag, mux_loop, FlvMuxer, mux, new_muxer,
  commit, FlvCodecHeaders, new_timeline,
}
use obs_live_delay_plugin.Base.{
  Bool, List, Result, [], ap, arith, bind_ok, err, false, if◌then◌else◌, is_empty, length, ok,
  ok_inj, refl, refuse_if, subst, suc, sym, true, ℕ, ◌++◌, ◌+◌, ◌/◌, ◌<◌, ◌^◌, ◌∷◌, ◌≡◌, ◌≤◌,
}

-- What an accepted packet gives.
pub record Muxed (t : Timeline) (p : EncodedPacket) (t' : Timeline) (tag : FlvTag) : Type 0 where
  pub based : t'.has_base_timestamp ≡ true
  pub base : t'.base_dts_us ≡ base_for t p
  pub last : t'.last_dts_us ≡ p.dts_us
  pub after : base_for t p ≤ℤ p.dts_us
  pub ordered : t.has_base_timestamp ≡ true → t.last_dts_us ≤ℤ p.dts_us
  pub time : tag.timestamp_ms ≡ pos_part (p.dts_us -ℤ base_for t p) / 1000
  pub in_range : tag.timestamp_ms < 2 ^ 32
  pub fits : length tag.payload ≤ max_flv_payload_size

relative_ms_ok :
    (t : Timeline) (p : EncodedPacket) (time : ℕ)
    → relative_ms t p ≡ ok time
    → (base_for t p ≤ℤ p.dts_us)
      × (t.has_base_timestamp ≡ true → t.last_dts_us ≤ℤ p.dts_us)
      × (time ≡ pos_part (p.dts_us -ℤ base_for t p) / 1000)
      × (time < 2 ^ 32)
unfolding relative_ms
relative_ms_ok t p time e = (
  ground (arith, -ℤ_parts p.dts_us (base_for t p)),
  λ b. ground arith,
  ground arith,
  ground arith,
)

tag_payload_ok :
    (p : EncodedPacket) (payload : List ℕ)
    → tag_payload p ≡ ok payload
    → length payload ≡ framing_size p.kind + length p.payload
unfolding tag_payload
tag_payload_ok p payload e = ground arith

check_size_ok :
    (p : EncodedPacket)
    → check_size p ≡ ok tt
    → framing_size p.kind + length p.payload ≤ max_flv_payload_size
unfolding check_size
check_size_ok p e = ground arith

Muxed-make_tag :
    (t : Timeline) (p : EncodedPacket) (time : ℕ) (payload : List ℕ)
    → check_size p ≡ ok tt
    → relative_ms t p ≡ ok time
    → tag_payload p ≡ ok payload
    → Muxed t p
        (record { has_base_timestamp = true; base_dts_us = base_for t p; last_dts_us = p.dts_us })
        (make_tag p time payload)
Muxed-make_tag t p time payload sized timed made =
    let (after, ordered, exact, small) = relative_ms_ok t p time timed in
    record {
      based = refl;
      base = refl;
      last = refl;
      after = after;
      ordered = ordered;
      time = exact;
      in_range = small;
      fits = omega (arith, tag_payload_ok p payload made, check_size_ok p sized);
    }

pub mux_packet-Muxed :
    (t : Timeline) (p : EncodedPacket) (t' : Timeline) (tag : FlvTag)
    → mux_packet t p ≡ ok (t', tag)
    → Muxed t p t' tag
unfolding mux_packet
mux_packet-Muxed t p t' tag e =
    let (_, _, e1) = bind_ok (refuse_if (is_empty p.payload) _) _ e in
    let (_, _, e2) = bind_ok (check_framing p) _ e1 in
    let (_, sized, e3) = bind_ok (check_size p) _ e2 in
    let (time, timed, e4) = bind_ok (relative_ms t p) _ e3 in
    let (payload, made, e5) = bind_ok (tag_payload p) _ e4 in
    subst (λ (r : Timeline × FlvTag). Muxed t p r.0 r.1) (ok_inj e5)
      (Muxed-make_tag t p time payload sized timed made)

-- Tags that a decoder of FLV can play from time `n` on: times do not fall and fit 32 bits, and
-- payloads fit the 24-bit size field.
abbrev pub Playable : ℕ → List FlvTag → Type 0
Playable n [] = Unit {0}
Playable n (tag ∷ tags) =
    (n ≤ tag.timestamp_ms)
    × (tag.timestamp_ms < 2 ^ 32)
    × (length tag.payload ≤ max_flv_payload_size)
    × Playable tag.timestamp_ms tags

abbrev end_time : ℕ → List FlvTag → ℕ
end_time n [] = n
end_time n (tag ∷ tags) = end_time tag.timestamp_ms tags

Playable-append :
    (n : ℕ) (xs ys : List FlvTag)
    → Playable n xs
    → Playable (end_time n xs) ys
    → Playable n (xs ++ ys)
Playable-append n [] ys h k = k
Playable-append n (x ∷ xs) ys (a, b, c, d) k = (a, b, c, Playable-append x.timestamp_ms xs ys d k)

-- The time of the last tag that was made on a timeline.
abbrev time_after : Bool → ℤ → ℕ
time_after false elapsed = 0
time_after true elapsed = pos_part elapsed / 1000

abbrev reached : Timeline → ℕ
reached t = time_after t.has_base_timestamp (t.last_dts_us -ℤ t.base_dts_us)

abbrev IsSound : Timeline → Type 0
IsSound t = t.has_base_timestamp ≡ true → t.base_dts_us ≤ℤ t.last_dts_us

pos_part_mono : (b x y : ℤ) → b ≤ℤ x → x ≤ℤ y → pos_part (x -ℤ b) / 1000 ≤ pos_part (y -ℤ b) / 1000
pos_part_mono b x y h k = ground (arith, -ℤ_parts x b, -ℤ_parts y b)

reached_le :
    (based : Bool) (base last : ℤ) (p : EncodedPacket)
    → (based ≡ true → base ≤ℤ last)
    → (based ≡ true → last ≤ℤ p.dts_us)
    → time_after based (last -ℤ base)
      ≤ pos_part (p.dts_us -ℤ (if based then base else p.dts_us)) / 1000
reached_le false base last p s o = ground arith
reached_le true base last p s o = pos_part_mono base last p.dts_us (s refl) (o refl)

Muxed-reached :
    (t : Timeline) (p : EncodedPacket) (t' : Timeline) (tag : FlvTag)
    → IsSound t
    → Muxed t p t' tag
    → (reached t ≤ tag.timestamp_ms) × (reached t' ≡ tag.timestamp_ms) × IsSound t'
Muxed-reached t p t' tag s m = (
  subst (λ (n : ℕ). reached t ≤ n) (sym m.time)
      (reached_le t.has_base_timestamp t.base_dts_us t.last_dts_us p s m.ordered),
  rw (m.based, m.base, m.last, m.time),
  λ e. (rw (m.base, m.last) m.after),
)

-- What a run of packets leaves: tags that can be played, one for each packet.
record Muxes (t : Timeline) (ps : List EncodedPacket) (t' : Timeline) (tags : List FlvTag)
    : Type 0 where
  playable : Playable (reached t) tags
  ends : end_time (reached t) tags ≡ reached t'
  sound : IsSound t'
  count : length tags ≡ length ps

Muxes-cons :
    (t : Timeline) (p : EncodedPacket) (ps : List EncodedPacket) (t' t'' : Timeline) (tag : FlvTag)
    (tags : List FlvTag)
    → IsSound t
    → Muxed t p t' tag
    → (IsSound t' → Muxes t' ps t'' tags)
    → Muxes t (p ∷ ps) t'' (tag ∷ tags)
Muxes-cons t p ps t' t'' tag tags s m rest =
    let (le, at, s') = Muxed-reached t p t' tag s m in
    let r = rest s' in
    record {
      playable = (le, m.in_range, m.fits, subst (λ (n : ℕ). Playable n tags) at r.playable);
      ends = subst (λ (n : ℕ). end_time n tags ≡ reached t'') at r.ends;
      sound = r.sound;
      count = ap suc r.count;
    }

mux_loop-Muxes :
    (t : Timeline) (ps : List EncodedPacket) (t' : Timeline) (tags : List FlvTag)
    → IsSound t
    → mux_loop t ps ≡ ok (t', tags)
    → Muxes t ps t' tags
unfolding mux_loop
mux_loop-Muxes t [] t' tags s e =
    subst (λ (r : Timeline × List FlvTag). Muxes t [] r.0 r.1) (ok_inj e)
      (record { playable = tt; ends = refl; sound = s; count = refl })
mux_loop-Muxes t (p ∷ ps) t' tags s e =
    let ((t1, tag), e1, e2) = bind_ok (mux_packet t p) _ e in
    let ((t2, rest), e3, e4) = bind_ok (mux_loop t1 ps) _ e2 in
    subst (λ (r : Timeline × List FlvTag). Muxes t (p ∷ ps) r.0 r.1) (ok_inj e4)
      (Muxes-cons t p ps t1 t2 tag rest s (mux_packet-Muxed t p t1 tag e1)
        (λ s'. mux_loop-Muxes t1 ps t2 rest s' e3))

-- The tags of a muxer over its whole life: the tags of the batches that it accepts, in order.
abbrev made : Result (List FlvTag) → List FlvTag
made (ok tags) = tags
made (err _) = []

unfoldable pub mux_all : FlvMuxer → List (List EncodedPacket) → List FlvTag
mux_all m [] = []
mux_all m (packets ∷ batches) = made (mux m packets).1 ++ mux_all (mux m packets).0 batches

commit-Playable :
    (m : FlvMuxer) (packets : List EncodedPacket) (r : Result (Timeline × List FlvTag))
    → IsSound m.timeline
    → mux_loop m.timeline packets ≡ r
    → Playable (reached m.timeline) (made (commit m r).1)
      × (end_time (reached m.timeline) (made (commit m r).1) ≡ reached ((commit m r).0).timeline)
      × IsSound ((commit m r).0).timeline
commit-Playable m packets (ok (t, tags)) s e =
    let r = mux_loop-Muxes m.timeline packets t tags s e in (r.playable, r.ends, r.sound)
commit-Playable m packets (err message) s e = (tt, refl, s)

mux_all_sound :
    (m : FlvMuxer) (batches : List (List EncodedPacket))
    → IsSound m.timeline
    → Playable (reached m.timeline) (mux_all m batches)
unfolding mux_all mux
mux_all_sound m [] s = tt
mux_all_sound m (packets ∷ batches) s =
    let (first, ends, s') = commit-Playable m packets (mux_loop m.timeline packets) s refl in
    let m' = (commit m (mux_loop m.timeline packets)).0 in
    Playable-append (reached m.timeline) (made (commit m (mux_loop m.timeline packets)).1)
      (mux_all m' batches) first
      (subst (λ (n : ℕ). Playable n (mux_all m' batches)) (sym ends) (mux_all_sound m' batches s'))

-- Whatever batches a new muxer is given, accepted or refused, the tags that it gives over all of
-- them have times that never fall and fit 32 bits, and payloads that fit a tag's 24-bit size.
pub mux_all-Playable :
    (headers : FlvCodecHeaders) (m : FlvMuxer) (batches : List (List EncodedPacket))
    → new_muxer headers ≡ ok m
    → Playable 0 (mux_all m batches)
unfolding new_muxer
mux_all-Playable headers m batches e =
    let (_, _, e1) = bind_ok (refuse_if (is_empty headers.avc_decoder_configuration) _) _ e in
    let (_, _, e2) = bind_ok (refuse_if (is_empty headers.aac_audio_specific_config) _) _ e1 in
    subst (λ (r : FlvMuxer). Playable 0 (mux_all r batches)) (ok_inj e2)
      (mux_all_sound (record { headers = headers; timeline = new_timeline }) batches
        (λ based. grind arith))
