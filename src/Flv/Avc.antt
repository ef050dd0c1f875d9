-- ===== src/Flv/Avc.antt =====
-- src/flv-muxer.cpp: `validate_avc_packet`, the check of length-prefixed H.264 packets, against the
-- format that it checks.
pub mod Format
use obs_live_delay_plugin.Diagnostic.{diagnostic_error, DiagnosticCode}
use obs_live_delay_plugin.Base.{
  zero, suc, none, some, true, false, [], ◌∷◌, ok, err, List, String, Bool, ℕ, ◌==◌, ◌*◌, Option,
  ◌&&◌, ◌^◌, drop, length, ◌||◌, if◌then◌else◌, ◌+◌, ltb,
}

-- Whether the payload begins as Annex-B does, which only chooses the message.
unfoldable pub start_code_prefix : List ℕ → Bool
start_code_prefix (a ∷ b ∷ c ∷ []) = a == 0 && b == 0 && c == 1
start_code_prefix (a ∷ b ∷ c ∷ d ∷ rest) = a == 0 && b == 0 && (c == 1 || (c == 0 && d == 1))
start_code_prefix _ = false

abbrev pub annex_b_message : String
annex_b_message = "H.264 video packet has invalid AVC framing (possible Annex-B input)"

-- `true` stands for the diagnostic of a start code.
unfoldable pub avc_error : Bool → String → String
avc_error annex_b message =
    diagnostic_error DiagnosticCode.output_mux_failed (if annex_b then annex_b_message else message)

-- `nal_size` from its four bytes.
abbrev pub nal_size : ℕ → ℕ → ℕ → ℕ → ℕ
nal_size a b c d = a * 2 ^ 24 + b * 2 ^ 16 + c * 2 ^ 8 + d

-- The loop over the payload from `offset` on; every round passes at least five bytes, so as much
-- fuel as there are bytes is enough.
unfoldable pub avc_loop : ℕ → Bool → List ℕ → Option String
avc_loop fuel annex_b [] = none
avc_loop zero annex_b rest =
    some (avc_error annex_b "H.264 AVC packet ends before its NAL-unit length field")
avc_loop (suc fuel) annex_b (a ∷ b ∷ c ∷ d ∷ rest) =
    let size = nal_size a b c d in
    let next = avc_loop fuel annex_b (drop size rest) in
    if size == 0 || ltb (length rest) size
    then some (avc_error annex_b "H.264 AVC packet contains an invalid NAL-unit length")
    else next
avc_loop (suc fuel) annex_b rest =
    some (avc_error annex_b "H.264 AVC packet ends before its NAL-unit length field")

-- The error, if there is one.
unfoldable pub validate_avc_packet : List ℕ → Option String
validate_avc_packet payload = avc_loop (length payload) (start_code_prefix payload) payload
