-- ===== src/Controller/History/Fits.antt =====
-- A history is in order and weighs what the byte count says, also when its front is dropped.
use obs_live_delay_plugin.Base.{
  ℕ, zero, suc, ◌%◌, ◌^◌, ◌≡◌, refl, Bool, false, List, [], ◌∷◌, ◌++◌, arith, length, last_from,
  sub_size, add_size, inl, inr, Option-cases,
}
use obs_live_delay_plugin.Base.Int.{ℤ, ◌≤ℤ◌}
use obs_live_delay_plugin.Packet.{EncodedPacket, total_bytes, total_bytes-append}
use obs_live_delay_plugin.Controller.Buffer.{
  pop_fronts, keep_index, rolled, next_keyframe, discard_to_next_keyframe, trim_loop, release_loop,
}

abbrev pub Before : EncodedPacket → List EncodedPacket → Type 0
Before p [] = Unit {0}
Before p (q ∷ qs) = p.dts_us ≤ℤ q.dts_us

-- Decoding timestamps do not fall along the list.
abbrev pub Ordered : List EncodedPacket → Type 0
Ordered [] = Unit {0}
Ordered (p ∷ ps) = Before p ps × Ordered ps

-- The byte count is a 64-bit number, so it is the weight of the packets modulo 2 ^ 64.
pub record Fits (ps : List EncodedPacket) (bytes : ℕ) : Type 0 where
  pub ordered : Ordered ps
  pub counted : bytes ≡ total_bytes ps % 2 ^ 64

pub Fits-nil : Fits [] 0
Fits-nil = record { ordered = tt; counted = refl }

pub Fits-tail :
    (p : EncodedPacket) (ps : List EncodedPacket) (bytes : ℕ)
    → Fits (p ∷ ps) bytes
    → Fits ps (sub_size bytes (length p.payload))
Fits-tail p ps bytes f = record { ordered = f.ordered.1; counted = omega (arith, f.counted) }

Ordered-append :
    (p : EncodedPacket) (ps : List EncodedPacket) (q : EncodedPacket)
    → Ordered (p ∷ ps)
    → (last_from p ps).dts_us ≤ℤ q.dts_us
    → Ordered ((p ∷ ps) ++ (q ∷ []))
Ordered-append p [] q o h = (h, (tt, tt))
Ordered-append p (r ∷ ps) q o h = (o.0, Ordered-append r ps q o.1 h)

pub Fits-append :
    (p : EncodedPacket) (ps : List EncodedPacket) (q : EncodedPacket) (bytes : ℕ)
    → Fits (p ∷ ps) bytes
    → (last_from p ps).dts_us ≤ℤ q.dts_us
    → Fits ((p ∷ ps) ++ (q ∷ [])) (add_size bytes (length q.payload))
Fits-append p ps q bytes f h = record {
  ordered = Ordered-append p ps q f.ordered h;
  counted = omega (arith, f.counted, total_bytes-append (p ∷ ps) (q ∷ []));
}

pub pop_fronts-Fits :
    (n : ℕ) (ps : List EncodedPacket) (bytes : ℕ)
    → Fits ps bytes
    → let (qs, left) = pop_fronts n ps bytes in Fits qs left
unfolding pop_fronts
pop_fronts-Fits zero ps bytes f = f
pop_fronts-Fits (suc n) [] bytes f = f
pop_fronts-Fits (suc n) (p ∷ ps) bytes f =
    pop_fronts-Fits n ps (sub_size bytes (length p.payload)) (Fits-tail p ps bytes f)

pub rolled-Fits :
    (cutoff : ℤ) (ps : List EncodedPacket) (bytes : ℕ)
    → Fits ps bytes
    → let (qs, left) = rolled cutoff ps bytes in Fits qs left
unfolding rolled
rolled-Fits cutoff [] bytes f = f
rolled-Fits cutoff (p ∷ ps) bytes f = pop_fronts-Fits (keep_index cutoff ps 1 0) (p ∷ ps) bytes f

pub discard-Fits :
    (allow : Bool) (ps : List EncodedPacket) (bytes : ℕ)
    → Fits ps bytes
    → let ((qs, left), found) = discard_to_next_keyframe allow ps bytes in Fits qs left
unfolding discard_to_next_keyframe
discard-Fits allow ps bytes f = elim (Option-cases (next_keyframe allow ps)) [
  | inl e ↦ rw (e, discard_to_next_keyframe) f
  | inr (k, e) ↦ rw (e, discard_to_next_keyframe) (pop_fronts-Fits k ps bytes f)
]

pub trim_loop-Fits :
    (fuel : ℕ) (target : ℤ) (ps : List EncodedPacket) (bytes : ℕ)
    → Fits ps bytes
    → let ((qs, left), done) = trim_loop fuel target ps bytes in Fits qs left
unfolding trim_loop
trim_loop-Fits zero target ps bytes f = f
trim_loop-Fits (suc fuel) target ps bytes f =
    let ((qs, left), found) = discard_to_next_keyframe false ps bytes in
    ground (
      arith,
      discard-Fits false ps bytes f,
      trim_loop-Fits fuel target qs left (discard-Fits false ps bytes f),
    )

pub release_loop-Fits :
    (delay : ℤ) (ps ready : List EncodedPacket) (bytes : ℕ)
    → Fits ps bytes
    → let (qs, out, left) = release_loop delay ps ready bytes in Fits qs left
unfolding release_loop
release_loop-Fits delay [] ready bytes f = f
release_loop-Fits delay (p ∷ ps) ready bytes f = ground (
  arith,
  release_loop-Fits delay ps (ready ++ (p ∷ [])) (sub_size bytes (length p.payload))
      (Fits-tail p ps bytes f),
)
