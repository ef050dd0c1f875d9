-- ===== src/TransitionCodec/Bits.antt =====
-- src/transition-codec.hpp: `TransitionBits`, the reader of the bits of a codec configuration. A
-- call gives its value and the reader behind it, or the message of the exception it threw.
use obs_live_delay_plugin.Base.{
  List, Result, String, Bool, ℕ, err, ok, if◌then◌else◌, value_or, ◌/◌, ◌+◌, suc, ◌==◌, ◌^◌,
  get_elem?, ◌-◌, ◌*◌, ltb, zero, ◌%◌, ◌||◌, length,
}

pub record TransitionBits : Type 0 where
  pub bytes : List ℕ
  pub position : ℕ

abbrev pub Reading {ℓ} : Type ℓ → Type ℓ
Reading A = TransitionBits → Result (A × TransitionBits)

abbrev pub unsupported_message : String
unsupported_message =
    "TRANSITION_CODEC_UNSUPPORTED: requires bounded progressive AVC and 1024-sample LC AAC at 44.1/48 kHz mono/stereo"

-- `unsupported_transition_codec`, which always throws.
abbrev pub unsupported_transition_codec {ℓ} : {A : Type ℓ} → Result A
unsupported_transition_codec = err unsupported_message

abbrev pub read_on {ℓ κ} :
    {A : Type ℓ} {B : Type κ}
    → Result (A × TransitionBits)
    → (A → Reading B)
    → Result (B × TransitionBits)
read_on (err message) next = err message
read_on (ok read) next = next (read.0) (read.1)

module _ {ℓ κ} {A : Type ℓ} {B : Type κ} where
  infixl 5 ◌>>=◌ ◌>>◌
  abbrev pub ◌>>=◌ : Reading A → (A → Reading B) → Reading B
  (first >>= next) b = read_on (first b) next

  abbrev pub ◌>>◌ : Reading A → Reading B → Reading B
  (first >> next) b = read_on (first b) (λ _. next)

abbrev pub pure {ℓ} : {A : Type ℓ} → A → Reading A
pure a b = ok (a, b)

-- `if (refused) unsupported_transition_codec();`.
abbrev pub refuse_codec : Bool → Reading (Unit {0})
refuse_codec refused b = if refused then unsupported_transition_codec else ok (tt, b)

-- `if (present) { ... }`.
abbrev pub when : Bool → Reading (Unit {0}) → Reading (Unit {0})
when present part b = if present then part b else ok (tt, b)

-- A byte of the configuration, and 0 where the source never looks.
abbrev pub byte_at : List ℕ → ℕ → ℕ
byte_at bytes i = value_or (get_elem? bytes i) 0

abbrev pub bit_at : TransitionBits → ℕ
bit_at b = byte_at b.bytes (b.position / 8) / 2 ^ (7 - b.position % 8) % 2

abbrev pub skip : TransitionBits → ℕ → TransitionBits
skip b count = record b { position = b.position + count }

-- The loop of `get`; a shift of `std::uint32_t` drops the upper bit.
unfoldable pub get_loop : (count value : ℕ) → TransitionBits → ℕ × TransitionBits
get_loop zero value b = (value, b)
get_loop (suc count) value b = get_loop count (value * 2 % 2 ^ 32 + bit_at b) (skip b 1)

unfoldable pub get : ℕ → Reading ℕ
get count b =
    if ltb 32 count || ltb (length b.bytes * 8 - b.position) count
    then unsupported_transition_codec
    else ok (get_loop count 0 b)

-- The loop of `ue`: how many bits are 0 before one that is 1, where `left` more may be.
unfoldable pub count_zeros : (left zeros : ℕ) → Reading ℕ
count_zeros zero zeros = do bit ← get 1; refuse_codec (bit == 0); pure zeros
count_zeros (suc left) zeros = do
  bit ← get 1
  if bit == 0 then count_zeros left (suc zeros) else pure zeros

unfoldable pub ue : Reading ℕ
ue = do zeros ← count_zeros 24 0; suffix ← get zeros; pure (2 ^ zeros - 1 + suffix)
