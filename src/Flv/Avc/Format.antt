-- ===== src/Flv/Avc/Format.antt =====
-- A packet is accepted exactly if it is a sequence of non-empty, length-prefixed NAL units.
use obs_live_delay_plugin.Base.{[], ◌∷◌, ◌≡◌, List, ℕ, length, ◌<◌, ◌++◌}
use obs_live_delay_plugin.Flv.Avc.{nal_size}

-- The AVC format: each unit is preceded by its size in four bytes.
pub data IsAvc : List ℕ → Type 0 where
  done : IsAvc []
  unit :
      (a b c d : ℕ) (body rest bytes : List ℕ)
      → length body ≡ nal_size a b c d
      → 0 < length body
      → bytes ≡ body ++ rest
      → IsAvc rest
      → IsAvc (a ∷ b ∷ c ∷ d ∷ bytes)
