-- ===== src/Controller/Playback/Release.antt =====
-- The release loop of `promote_locked`: order, completeness and the delay that is kept.
use obs_live_delay_plugin.Base.{
  ℕ, ◌≡◌, refl, List, [], ◌∷◌, ◌++◌, arith, length, sub_size, append_assoc,
}
use obs_live_delay_plugin.Base.Int.{ℤ, pos, ◌≤ℤ◌}
use obs_live_delay_plugin.Packet.{EncodedPacket}
use obs_live_delay_plugin.Controller.State.{duration}
use obs_live_delay_plugin.Controller.Buffer.{release_loop}

pub duration-nonneg : (ps : List EncodedPacket) → pos 0 ≤ℤ duration ps
unfolding duration
duration-nonneg [] = omega arith
duration-nonneg (p ∷ []) = omega arith
duration-nonneg (p ∷ q ∷ ps) = ground arith

-- Nothing is lost, repeated or reordered between the history and what is ready.
pub release_loop-keeps :
    (delay : ℤ) (ps ready : List EncodedPacket) (bytes : ℕ)
    → let (qs, out, left) = release_loop delay ps ready bytes in out ++ qs ≡ ready ++ ps
unfolding release_loop
release_loop-keeps delay [] ready bytes = refl
release_loop-keeps delay (p ∷ ps) ready bytes = ground (
  arith,
  release_loop-keeps delay ps (ready ++ (p ∷ [])) (sub_size bytes (length p.payload)),
  append_assoc ready (p ∷ []) ps,
)

-- What stays spans no more than the delay.
pub release_loop_bounds :
    (delay : ℤ) (ps ready : List EncodedPacket) (bytes : ℕ)
    → pos 0 ≤ℤ delay
    → let (qs, out, left) = release_loop delay ps ready bytes in duration qs ≤ℤ delay
unfolding release_loop
release_loop_bounds delay [] ready bytes h = h
release_loop_bounds delay (p ∷ ps) ready bytes h =
    ground (
      arith,
      release_loop_bounds delay ps (ready ++ (p ∷ [])) (sub_size bytes (length p.payload)) h,
    )
