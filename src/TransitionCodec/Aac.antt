-- ===== src/TransitionCodec/Aac.antt =====
-- src/transition-codec.hpp: the AAC configurations written byte by byte, and the bits that are
-- read of their bytes.
use obs_live_delay_plugin.TransitionCodec.Durations.{refuse_codec_ok}
use obs_live_delay_plugin.TransitionCodec.{aac_duration, bits_of, sbr_absent, pure, sample_rate}
use obs_live_delay_plugin.TransitionCodec.Bits.{
  TransitionBits, Reading, get, get_loop, read_on, refuse_codec, when,
}
use obs_live_delay_plugin.Base.{
  ◌∷◌, [], ℕ, List, Bool, Result, ok, true, false, ◌≡◌, ◌++◌, if◌then◌else◌, ◌<◌, ◌/◌, ◌%◌, ◌*◌,
  ◌+◌, ◌-◌, ltb, length, arith, refl, ap, subst, not, ◌==◌, ◌&&◌, Bool-cases, inl, inr,
}

-- AAC LC with frames of 1024 samples, at 48 or 44.1 kHz and of one or two channels.
abbrev pub low_complexity : (fast stereo : Bool) → List ℕ
low_complexity true false = 0x11 ∷ 0x88 ∷ []
low_complexity true true = 0x11 ∷ 0x90 ∷ []
low_complexity false false = 0x12 ∷ 0x08 ∷ []
low_complexity false true = 0x12 ∷ 0x10 ∷ []

-- The extension that says that there is no spectral band replication.
abbrev pub no_replication : List ℕ
no_replication = 0x56 ∷ 0xe5 ∷ 0x00 ∷ []

-- The duration of 1024 samples in microseconds, rounded up.
abbrev pub frame_duration : (fast : Bool) → ℕ
frame_duration true = 21334
frame_duration false = 23220

-- One of the eight configurations, and the duration of its frames.
abbrev pub IsLowComplexity : List ℕ → ℕ → Type 0
IsLowComplexity c d =
    (fast : Bool) × (stereo : Bool) × (extended : Bool) × (c
      ≡ low_complexity fast stereo ++ (if extended then no_replication else []))
    × (d ≡ frame_duration fast)

abbrev pub at_bit : List ℕ → ℕ → TransitionBits
at_bit bytes position = record { bytes = bytes; position = position }

after_get :
    {A B : Type 0} (first : Result (A × TransitionBits)) (next : A → Reading B) {a : A}
    {c : TransitionBits} {last : B × TransitionBits}
    → first ≡ ok (a, c)
    → read_on first next ≡ ok last
    → next a c ≡ ok last
after_get first next {last = last} e f = subst (λ r. read_on r next ≡ ok last) e f

pub after_refusal :
    {B : Type 0} (refused : Bool) (b : TransitionBits) (next : Unit {0} → Reading B)
    {last : B × TransitionBits}
    → read_on (refuse_codec refused b) next ≡ ok last
    → (refused ≡ false) × (next tt b ≡ ok last)
after_refusal true b next e = cc
after_refusal false b next e = (refl, e)

get_object :
    (a b : ℕ) (rest : List ℕ)
    → a < 256
    → get 5 (at_bit (a ∷ b ∷ rest) 0) ≡ ok (a / 8, at_bit (a ∷ b ∷ rest) 5)
unfolding get get_loop
get_object a b rest h =
    let room : ltb (length (a ∷ b ∷ rest) * 8 - 0) 5 ≡ false = ground arith in
    rw room (ap (λ v. ok (v, at_bit (a ∷ b ∷ rest) 5)) (omega arith))

get_rate :
    (a b : ℕ) (rest : List ℕ)
    → a < 256
    → b < 256
    → get 4 (at_bit (a ∷ b ∷ rest) 5) ≡ ok (a % 8 * 2 + b / 128, at_bit (a ∷ b ∷ rest) 9)
unfolding get get_loop
get_rate a b rest h k =
    let room : ltb (length (a ∷ b ∷ rest) * 8 - 5) 4 ≡ false = ground arith in
    rw room (ap (λ v. ok (v, at_bit (a ∷ b ∷ rest) 9)) (omega arith))

get_channels :
    (a b : ℕ) (rest : List ℕ)
    → get 4 (at_bit (a ∷ b ∷ rest) 9) ≡ ok (b / 8 % 16, at_bit (a ∷ b ∷ rest) 13)
unfolding get get_loop
get_channels a b rest =
    let room : ltb (length (a ∷ b ∷ rest) * 8 - 9) 4 ≡ false = ground arith in
    rw room (ap (λ v. ok (v, at_bit (a ∷ b ∷ rest) 13)) (omega arith))

get_flags :
    (a b : ℕ) (rest : List ℕ)
    → get 3 (at_bit (a ∷ b ∷ rest) 13) ≡ ok (b % 8, at_bit (a ∷ b ∷ rest) 16)
unfolding get get_loop
get_flags a b rest =
    let room : ltb (length (a ∷ b ∷ rest) * 8 - 13) 3 ≡ false = ground arith in
    rw room (ap (λ v. ok (v, at_bit (a ∷ b ∷ rest) 16)) (omega arith))

-- What the reads of the first two bytes leave to be read.
abbrev pub Behind : (size rate : ℕ) → List ℕ → ℕ × TransitionBits → Type 0
Behind size rate bytes last =
    read_on (when (size == 5) sbr_absent (at_bit bytes 16))
      (λ _. pure ((1024 * 1000000 + sample_rate rate - 1) / sample_rate rate))
    ≡ ok last

pub record Fields (size : ℕ) (bytes : List ℕ) (a b : ℕ) (last : ℕ × TransitionBits) : Type 0 where
  pub object : not (a / 8 == 2) ≡ false
  pub rate : (not (a % 8 * 2 + b / 128 == 3) && not (a % 8 * 2 + b / 128 == 4)) ≡ false
  pub channels : (not (b / 8 % 16 == 1) && not (b / 8 % 16 == 2)) ≡ false
  pub flags : not (b % 8 == 0) ≡ false
  pub behind : Behind size (a % 8 * 2 + b / 128) bytes last

pub aac_duration-Fields :
    (size a b : ℕ) (rest : List ℕ) (last : ℕ × TransitionBits)
    → a < 256
    → b < 256
    → aac_duration size (bits_of (a ∷ b ∷ rest)) ≡ ok last
    → Fields size (a ∷ b ∷ rest) a b last
unfolding aac_duration
aac_duration-Fields size a b rest last h k e =
    let f1 = after_get (get 5 (bits_of (a ∷ b ∷ rest))) _ (get_object a b rest h) e in
    let (object, f2) = after_refusal (not (a / 8 == 2)) _ _ f1 in
    let f3 = after_get (get 4 (at_bit (a ∷ b ∷ rest) 5)) _ (get_rate a b rest h k) f2 in
    let f4 = after_get (get 4 (at_bit (a ∷ b ∷ rest) 9)) _ (get_channels a b rest) f3 in
    let (rate, f5) = after_refusal _ _ _ f4 in
    let (channels, f6) = after_refusal _ _ _ f5 in
    let f7 = after_get (get 3 (at_bit (a ∷ b ∷ rest) 13)) _ (get_flags a b rest) f6 in
    let (flags, f8) = after_refusal _ _ _ f7 in
    record { object = object; rate = rate; channels = channels; flags = flags; behind = f8 }

abbrev pub rate_of : Bool → ℕ
rate_of true = 3
rate_of false = 4

abbrev pub AreFields : (a b : ℕ) → Type 0
AreFields a b =
    (fast : Bool) × (stereo : Bool) × (a ∷ b ∷ [] ≡ low_complexity fast stereo)
    × (a % 8 * 2 + b / 128 ≡ rate_of fast)

pair_eq : {a b x y : ℕ} → a ≡ x → b ≡ y → ◌≡◌ {A = List ℕ} (a ∷ b ∷ []) (x ∷ y ∷ [])
pair_eq e f = rw e (rw f refl)

-- A rate and channels that are admitted leave one value of each byte.
pub fields_of :
    (a b : ℕ)
    → a < 256
    → b < 256
    → not (a / 8 == 2) ≡ false
    → (not (a % 8 * 2 + b / 128 == 3) && not (a % 8 * 2 + b / 128 == 4)) ≡ false
    → (not (b / 8 % 16 == 1) && not (b / 8 % 16 == 2)) ≡ false
    → not (b % 8 == 0) ≡ false
    → AreFields a b
fields_of a b h k object rate channels flags = elim (Bool-cases (a % 8 * 2 + b / 128 == 3)) [
  | inl fast ↦ elim (Bool-cases (b / 8 % 16 == 1)) [
    | inl mono ↦ (true, false, pair_eq (ground arith) (ground arith), ground arith)
    | inr stereo ↦ (true, true, pair_eq (ground arith) (ground arith), ground arith)
  ]
  | inr slow ↦ elim (Bool-cases (b / 8 % 16 == 1)) [
    | inl mono ↦ (false, false, pair_eq (ground arith) (ground arith), ground arith)
    | inr stereo ↦ (false, true, pair_eq (ground arith) (ground arith), ground arith)
  ]
]

pub duration_of :
    (fast : Bool) (rate : ℕ)
    → rate ≡ rate_of fast
    → (1024 * 1000000 + sample_rate rate - 1) / sample_rate rate ≡ frame_duration fast
duration_of true rate e = rw e refl
duration_of false rate e = rw e refl

-- The bytes of the extension.
get_sync :
    (a b x y z : ℕ)
    → x < 256
    → y < 256
    → get 11 (at_bit (a ∷ b ∷ x ∷ y ∷ z ∷ []) 16)
      ≡ ok (x * 8 + y / 32, at_bit (a ∷ b ∷ x ∷ y ∷ z ∷ []) 27)
unfolding get get_loop
get_sync a b x y z h k = ap (λ v. ok (v, at_bit (a ∷ b ∷ x ∷ y ∷ z ∷ []) 27)) (omega arith)

get_extension :
    (a b x y z : ℕ)
    → get 5 (at_bit (a ∷ b ∷ x ∷ y ∷ z ∷ []) 27) ≡ ok (y % 32, at_bit (a ∷ b ∷ x ∷ y ∷ z ∷ []) 32)
unfolding get get_loop
get_extension a b x y z = ap (λ v. ok (v, at_bit (a ∷ b ∷ x ∷ y ∷ z ∷ []) 32)) (omega arith)

get_present :
    (a b x y z : ℕ)
    → z < 256
    → get 1 (at_bit (a ∷ b ∷ x ∷ y ∷ z ∷ []) 32) ≡ ok (z / 128, at_bit (a ∷ b ∷ x ∷ y ∷ z ∷ []) 33)
unfolding get get_loop
get_present a b x y z h = ap (λ v. ok (v, at_bit (a ∷ b ∷ x ∷ y ∷ z ∷ []) 33)) (omega arith)

get_padding :
    (a b x y z : ℕ)
    → get 7 (at_bit (a ∷ b ∷ x ∷ y ∷ z ∷ []) 33) ≡ ok (z % 128, at_bit (a ∷ b ∷ x ∷ y ∷ z ∷ []) 40)
unfolding get get_loop
get_padding a b x y z = ap (λ v. ok (v, at_bit (a ∷ b ∷ x ∷ y ∷ z ∷ []) 40)) (omega arith)

pub sbr_absent-no_replication :
    (a b x y z : ℕ) {last : Unit {0} × TransitionBits}
    → x < 256
    → y < 256
    → z < 256
    → sbr_absent (at_bit (a ∷ b ∷ x ∷ y ∷ z ∷ []) 16) ≡ ok last
    → (x ≡ 0x56) × (y ≡ 0xe5) × (z ≡ 0)
sbr_absent-no_replication a b x y z h k l e =
    let bytes = a ∷ b ∷ x ∷ y ∷ z ∷ [] in
    let f1 = after_get (get 11 (at_bit bytes 16)) _ (get_sync a b x y z h k) e in
    let (sync, f2) = after_refusal (not (x * 8 + y / 32 == 0x2b7)) _ _ f1 in
    let f3 = after_get (get 5 (at_bit bytes 27)) _ (get_extension a b x y z) f2 in
    let (object, f4) = after_refusal (not (y % 32 == 5)) _ _ f3 in
    let f5 = after_get (get 1 (at_bit bytes 32)) _ (get_present a b x y z l) f4 in
    let (present, f6) = after_refusal (not (z / 128 == 0)) _ _ f5 in
    let f7 = after_get (get 7 (at_bit bytes 33)) _ (get_padding a b x y z) f6 in
    let rest = refuse_codec_ok (not (z % 128 == 0)) _ f7 in
    (ground arith, ground arith, ground arith)
