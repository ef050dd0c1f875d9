-- ===== src/Base/Results.antt =====
-- A value or the message of a failure: `bool` with an error string, or an exception.
use obs_live_delay_plugin.Base.Tests.{if◌then◌else◌}
use Prim.Native.String.{String}
use text.Mathlib.Text.{◌==◌}
use mathlib.Core.Path.{◌≡◌, refl}
use mathlib.Core.Logic.{◌⊎◌, inl, inr}
use mathlib.Core.Bool.{Bool, true, false}

-- `text.empty()`.
abbrev pub is_empty_text : String → Bool
is_empty_text text = text == ""

pub data Result {ℓ} (V : Type ℓ) : Type ℓ where
  err : (message : String) → Result V
  ok : (value : V) → Result V

-- `if (refused) { error = message; return false; }`.
abbrev pub refuse_if : Bool → String → Result (Unit {0})
refuse_if refused message = elim refused [ false ↦ ok tt | true ↦ err message ]

module _ {ℓ κ} {V : Type ℓ} {W : Type κ} where
  infixl 5 ◌>>=◌
  abbrev pub ◌>>=◌ : Result V → (V → Result W) → Result W
  first >>= next = elim first [ err message ↦ err message | ok value ↦ next value ]

  -- A chain that succeeds has a first step that succeeds.
  pub bind_ok :
      (first : Result V) (next : V → Result W) {last : W}
      → (first >>= next) ≡ ok last
      → (value : V) × (first ≡ ok value) × (next value ≡ ok last)
  bind_ok (err message) next e = cc
  bind_ok (ok value) next e = (value, refl, e)

module _ {κ} {W : Type κ} where
  infixl 5 ◌>>◌
  abbrev pub ◌>>◌ : Result (Unit {0}) → Result W → Result W
  checked >> next = checked >>= λ _. next

  pub Result-cases :
      (r : Result W) → ((w : W) × (r ≡ ok w)) ⊎ ((message : String) × (r ≡ err message))
  Result-cases (err message) = inr (message, refl)
  Result-cases (ok w) = inl (w, refl)

  -- A check that refuses nothing, and a value behind it.
  pub not_refused :
      (refused : Bool) (message : String) (r : Result W) {w : W}
      → (if refused then err message else r) ≡ ok w
      → (refused ≡ false) × (r ≡ ok w)
  not_refused true message r e = cc
  not_refused false message r e = (refl, e)

  pub ok_inj : {v w : W} → ok v ≡ ok w → v ≡ w
  ok_inj e = cc
