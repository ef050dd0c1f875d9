-- ===== src/RtmpTarget/Credentials.antt =====
-- src/rtmp-connection.cpp: a reader of the credentials and the host of an address by RFC 3986.
use obs_live_delay_plugin.RtmpTarget.{
  is_unreserved, percent_encode, hex_digit, find_text, scheme_mark, eq_text,
}
use obs_live_delay_plugin.Base.{
  ◌∷◌, [], ℕ, List, ◌<◌, if◌then◌else◌, ◌==◌, ◌≡◌, Every, ltb, ◌*◌, false, true, Bool-cases, ◌-◌,
  ◌+◌, refl, arith, inl, ◌∙◌, ap, inr, ◌/◌, if_cases, ◌++◌, Option, ◌%◌, some, drop, none, is_empty,
  Every-append, IsByte, append-nil, Bool, ◌&&◌,
}

abbrev pub digit_value : ℕ → ℕ
digit_value digit = if ltb digit 58 then digit - 48 else digit - 55

-- The decoding of `%` and two digits.
unfoldable pub percent_decode : List ℕ → List ℕ
percent_decode [] = []
percent_decode (x ∷ []) = x ∷ []
percent_decode (x ∷ y ∷ []) = x ∷ y ∷ []
percent_decode (x ∷ y ∷ z ∷ text) =
    let plain = percent_decode (y ∷ z ∷ text) in
    let rest = percent_decode text in
    if x == b'%' then (digit_value y * 16 + digit_value z) ∷ rest else x ∷ plain

decode_plain :
    (x : ℕ) (text : List ℕ)
    → (x == b'%') ≡ false
    → percent_decode (x ∷ text) ≡ x ∷ percent_decode text
unfolding percent_decode
decode_plain x [] e = refl
decode_plain x (y ∷ []) e = refl
decode_plain x (y ∷ z ∷ text) e = rw e refl

is_unreserved-not_percent : (x : ℕ) → is_unreserved x ≡ true → (x == b'%') ≡ false
unfolding is_unreserved
is_unreserved-not_percent x e = ground arith

digit_value-hex_digit : (d : ℕ) → d < 16 → digit_value (hex_digit d) ≡ d
digit_value-hex_digit d h = ground arith

decode_escape :
    (x : ℕ) (value : List ℕ)
    → IsByte x
    → percent_decode (b'%' ∷ hex_digit (x / 16) ∷ hex_digit (x % 16) ∷ percent_encode value)
      ≡ x ∷ percent_decode (percent_encode value)
unfolding percent_decode
decode_escape x value b =
    ap (λ z. z ∷ percent_decode (percent_encode value))
      (omega (
        arith,
        digit_value-hex_digit (x / 16) (omega (arith, b)),
        digit_value-hex_digit (x % 16) (omega arith),
      ))

-- Decoding gives back what was encoded.
pub percent_decode-percent_encode :
    (value : List ℕ) → Every IsByte value → percent_decode (percent_encode value) ≡ value
unfolding percent_encode percent_decode
percent_decode-percent_encode [] h = refl
percent_decode-percent_encode (x ∷ value) (b, h) =
    let rest = percent_decode-percent_encode value h in
    elim (Bool-cases (is_unreserved x)) [
      | inl e ↦ rw e (
          decode_plain x (percent_encode value) (is_unreserved-not_percent x e)
          ∙ ap (λ t. x ∷ t) rest)
      | inr e ↦ rw e (decode_escape x value b ∙ ap (λ t. x ∷ t) rest)
    ]

-- The text up to the first `mark`, and what stands behind it.
unfoldable pub split_at : ℕ → List ℕ → List ℕ × List ℕ
split_at mark [] = ([], [])
split_at mark (x ∷ text) =
    let (front, rest) = split_at mark text in if x == mark then ([], text) else (x ∷ front, rest)

-- A byte that is no mark of an address.
abbrev pub IsPlain : ℕ → Type 0
IsPlain x = ((x == b':') ≡ false) × ((x == b'@') ≡ false) × ((x == b'/') ≡ false)

is_unreserved-IsPlain : (x : ℕ) → is_unreserved x ≡ true → IsPlain x
unfolding is_unreserved
is_unreserved-IsPlain x e = (ground arith, ground arith, ground arith)

hex_digit-IsPlain : (d : ℕ) → d < 16 → IsPlain (hex_digit d)
hex_digit-IsPlain d h = (ground arith, ground arith, ground arith)

percent_encode-IsPlain :
    (value : List ℕ) → Every IsByte value → Every IsPlain (percent_encode value)
unfolding percent_encode
percent_encode-IsPlain [] h = tt
percent_encode-IsPlain (x ∷ value) (b, h) =
    if_cases (Every IsPlain) (is_unreserved x)
      (λ e. (is_unreserved-IsPlain x e, percent_encode-IsPlain value h))
      (λ e. (
        (refl, refl, refl),
        (
          hex_digit-IsPlain (x / 16) (omega (arith, b)),
          (hex_digit-IsPlain (x % 16) (omega arith), percent_encode-IsPlain value h),
        ),
      ))

abbrev pub Differs : ℕ → ℕ → Type 0
Differs mark x = (x == mark) ≡ false

eq_self : (x : ℕ) → (x == x) ≡ true
eq_self x = ground arith

pub Every-plain :
    (Q : ℕ → Type 0)
    → ((x : ℕ) → IsPlain x → Q x)
    → (text : List ℕ) → Every IsPlain text
    → Every Q text
Every-plain Q f [] h = tt
Every-plain Q f (x ∷ text) (here, later) = (f x here, Every-plain Q f text later)

pub split_at-front :
    (mark : ℕ) (front rest : List ℕ)
    → Every (Differs mark) front
    → split_at mark (front ++ (mark ∷ rest)) ≡ (front, rest)
unfolding split_at
split_at-front mark [] rest h = rw (eq_self mark) refl
split_at-front mark (x ∷ front) rest (d, h) = rw d (rw (split_at-front mark front rest h) refl)

split_at-all :
    (mark : ℕ) (text : List ℕ) → Every (Differs mark) text → split_at mark text ≡ (text, [])
unfolding split_at
split_at-all mark [] h = refl
split_at-all mark (x ∷ text) (d, h) = rw d (rw (split_at-all mark text h) refl)

-- The user and the password of the user information in front of `@`.
abbrev pub read_user_info : List ℕ → List ℕ × List ℕ
read_user_info info =
    let (user, password) = split_at b':' info in (percent_decode user, percent_decode password)

abbrev pub read_behind : List ℕ → Option ℕ → List ℕ × List ℕ
read_behind url none = ([], [])
read_behind url (some scheme_end) = read_user_info ((split_at b'@' (drop (scheme_end + 3) url)).0)

-- The credentials of an address.
unfoldable pub read_credentials : List ℕ → List ℕ × List ℕ
read_credentials url = read_behind url (find_text scheme_mark url)

abbrev pub host_behind : List ℕ → Option ℕ → List ℕ
host_behind url none = []
host_behind url (some scheme_end) =
    (split_at b'/' ((split_at b'@' (drop (scheme_end + 3) url)).1)).0

-- The rest of the authority of an address behind its credentials, up to the first slash.
unfoldable pub read_host : List ℕ → List ℕ
read_host url = host_behind url (find_text scheme_mark url)

abbrev info_of : (user password : List ℕ) → List ℕ
info_of user password =
    percent_encode user ++ (if is_empty password then [] else b':' ∷ percent_encode password)

decode_nil : percent_decode [] ≡ []
unfolding percent_decode
decode_nil = refl

pub info_of-Differs :
    (user password : List ℕ)
    → Every IsByte user
    → Every IsByte password
    → Every (Differs b'@') (info_of user password)
info_of-Differs user password hu hp =
    let plain = λ (text : List ℕ) (h : Every IsByte text).
      Every-plain (Differs b'@') (λ x p. p.1) (percent_encode text)
        (percent_encode-IsPlain text h) in
    Every-append (Differs b'@') (percent_encode user) _ (plain user hu) (
      if_cases (Every (Differs b'@')) (is_empty password) (λ e. tt)
        (λ e. (refl, plain password hp)))

encoded-Differs : (user : List ℕ) → Every IsByte user → Every (Differs b':') (percent_encode user)
encoded-Differs user h =
    Every-plain (Differs b':') (λ x p. p.0) (percent_encode user) (percent_encode-IsPlain user h)

pub read_user_info-info_of :
    (user password : List ℕ)
    → Every IsByte user
    → Every IsByte password
    → read_user_info (info_of user password) ≡ (user, password)
read_user_info-info_of user [] hu hp = rw (append-nil (percent_encode user)) (
    rw (split_at-all b':' (percent_encode user) (encoded-Differs user hu))
      (rw (percent_decode-percent_encode user hu) (ap (λ t. (user, t)) decode_nil)))
read_user_info-info_of user (x ∷ password) hu hp =
    rw
      (split_at-front b':' (percent_encode user) (percent_encode (x ∷ password))
        (encoded-Differs user hu))
      (rw (percent_decode-percent_encode user hu)
        (rw (percent_decode-percent_encode (x ∷ password) hp) refl))

pub and_true : (a b : Bool) → (a && b) ≡ true → (a ≡ true) × (b ≡ true)
and_true true b e = (refl, e)
and_true false b e = cc

pub eq_of_test : (x y : ℕ) → (x == y) ≡ true → x ≡ y
eq_of_test x y e = ground arith

-- Texts that compare equal are equal.
pub eq_text-eq : (first second : List ℕ) → eq_text first second ≡ true → first ≡ second
unfolding eq_text
eq_text-eq [] [] e = refl
eq_text-eq [] (y ∷ second) e = cc
eq_text-eq (x ∷ first) [] e = cc
eq_text-eq (x ∷ first) (y ∷ second) e =
    let (same, rest) = and_true (x == y) (eq_text first second) e in
    rw (eq_of_test x y same) (rw (eq_text-eq first second rest) refl)
