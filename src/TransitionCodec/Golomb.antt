-- ===== src/TransitionCodec/Golomb.antt =====
-- src/transition-codec.hpp: the bits that `TransitionBits` reads, and Exp-Golomb codes (ITU-T H.264,
-- 9.1) written independently of the reader.
use obs_live_delay_plugin.Base.{
  List, ℕ, ◌≤◌, ◌∷◌, [], length, ◌-◌, ◌*◌, ◌≡◌, ◌+◌, ◌<◌, suc, ◌++◌, ◌^◌, arith, ok, zero, ap, ◌%◌,
  ltb, refl, false, ◌∙◌, subst, Result, append_assoc, sym, length-append,
}
use native.Mathlib.Nat.{pow-succ', pow-le-pow_right, one-le-pow}
use obs_live_delay_plugin.TransitionCodec.Bits.{
  TransitionBits, bit_at, get_loop, get, skip, count_zeros, ue,
}

-- The bits that stand at the position of the reader.
unfoldable pub Stands : TransitionBits → List ℕ → Type 0
Stands b [] = b.position ≤ length b.bytes * 8
Stands b (x ∷ xs) = (bit_at b ≡ x) × Stands (skip b 1) xs

-- Bits as a number, behind the bits of `value`.
unfoldable pub number : ℕ → List ℕ → ℕ
number value [] = value
number value (x ∷ xs) = number (value * 2 + x) xs

abbrev pub zeros : ℕ → List ℕ
zeros zero = []
zeros (suc n) = 0 ∷ zeros n

-- A code: as many bits 0 as there are bits behind the first 1.
abbrev pub golomb : List ℕ → List ℕ
golomb suffix = zeros (length suffix) ++ (1 ∷ suffix)

-- The number that a code stands for.
abbrev pub golomb_value : List ℕ → ℕ
golomb_value suffix = number 1 suffix - 1

double_pow : (q k : ℕ) → q * 2 ^ suc k ≡ 2 * (q * 2 ^ k)
double_pow q k = omega (arith, ap (λ t. q * t) (pow-succ' 2 k))

number_nil : (value : ℕ) → number value [] ≡ value
unfolding number
number_nil value = refl

number_step : (value x : ℕ) (xs : List ℕ) → number value (x ∷ xs) ≡ number (value * 2 + x) xs
unfolding number
number_step value x xs = refl

number-shift : (value : ℕ) (xs : List ℕ) → number value xs ≡ number 0 xs + value * 2 ^ length xs
number-shift value [] = omega (arith, number_nil value, number_nil 0)
number-shift value (x ∷ xs) =
    let n = length xs in
    number_step value x xs
    ∙ number-shift (value * 2 + x) xs
    ∙ omega (arith, double_pow value n)
    ∙ ap (λ t. t + value * 2 ^ suc n) (sym (number_step 0 x xs ∙ number-shift (0 * 2 + x) xs))

Stands-position :
    (b : TransitionBits) (xs : List ℕ) → Stands b xs → b.position + length xs ≤ length b.bytes * 8
unfolding Stands
Stands-position b [] h = omega arith
Stands-position b (x ∷ xs) (here, later) = omega (arith, Stands-position (skip b 1) xs later)

bit_at-lt : (b : TransitionBits) → bit_at b < 2
bit_at-lt b = omega arith

bit_times : (x k : ℕ) → x < 2 → x * 2 ^ k ≤ 2 ^ k
bit_times zero k small = omega arith
bit_times (suc zero) k small = omega arith
bit_times (suc (suc x)) k small = omega (arith, small)

number-ge : (value : ℕ) (xs : List ℕ) → value ≤ number value xs
unfolding number
number-ge value [] = omega arith
number-ge value (x ∷ xs) = omega (arith, number-ge (value * 2 + x) xs)

Stands-number_lt : (b : TransitionBits) (xs : List ℕ) → Stands b xs → number 0 xs < 2 ^ length xs
unfolding Stands number
Stands-number_lt b [] h = omega arith
Stands-number_lt b (x ∷ xs) (here, later) = ground (
  arith,
  here,
  number_step 0 x xs,
  pow-succ' 2 (length xs),
  bit_at-lt b,
  number-shift x xs,
  Stands-number_lt (skip b 1) xs later,
  bit_times x (length xs) (omega (arith, here, bit_at-lt b)),
)

mod_small : (value : ℕ) → value * 2 < 2 ^ 32 → value * 2 % 2 ^ 32 ≡ value * 2
mod_small value h = omega arith

not_ltb : (a b : ℕ) → b ≤ a → ltb a b ≡ false
not_ltb a b h = ground arith

-- The loop of `get` reads the bits that stand there, the first one highest.
get_loop-Stands :
    (b : TransitionBits) (value : ℕ) (xs : List ℕ)
    → Stands b xs
    → number value xs < 2 ^ 32
    → get_loop (length xs) value b ≡ (number value xs, skip b (length xs))
unfolding get_loop Stands number
get_loop-Stands b value [] h small = ap (λ p. (value, record b { position = p })) (omega arith)
get_loop-Stands b value (x ∷ xs) (here, later) small =
    ap (λ t. get_loop (length xs) t (skip b 1))
      (omega (arith, here, small, number-ge (value * 2 + x) xs))
    ∙ get_loop-Stands (skip b 1) (value * 2 + x) xs later small
    ∙ ap (λ p. (number (value * 2 + x) xs, record b { position = p })) (omega arith)

pub get-Stands :
    (b : TransitionBits) (xs : List ℕ)
    → length xs ≤ 32
    → Stands b xs
    → get (length xs) b ≡ ok (number 0 xs, skip b (length xs))
unfolding get
get-Stands b xs short h = rw (not_ltb 32 (length xs) short) (
    rw
      (not_ltb (length b.bytes * 8 - b.position) (length xs)
        (omega (arith, Stands-position b xs h)))
      (ap ok (
        get_loop-Stands b 0 xs h (
          omega (
            arith,
            Stands-number_lt b xs h,
            pow-le-pow_right {n = 2} (omega arith) {i = length xs} {j = 32} short,
          )))))

Stands-front : (b : TransitionBits) (xs ys : List ℕ) → Stands b (xs ++ ys) → Stands b xs
unfolding Stands
Stands-front b [] ys h = omega (arith, Stands-position b ys h)
Stands-front b (x ∷ xs) ys (here, later) = (here, Stands-front (skip b 1) xs ys later)

-- The bits behind the first of them.
Stands-skip :
    (b : TransitionBits) (xs ys : List ℕ) → Stands b (xs ++ ys) → Stands (skip b (length xs)) ys
unfolding Stands
Stands-skip b [] ys h = subst (λ p. Stands (record b { position = p }) ys) (omega arith) h
Stands-skip b (x ∷ xs) ys (here, later) =
    subst (λ p. Stands (record b { position = p }) ys) (omega arith)
      (Stands-skip (skip b 1) xs ys later)

Stands-rest : (b : TransitionBits) (x : ℕ) (xs : List ℕ) → Stands b (x ∷ xs) → Stands (skip b 1) xs
unfolding Stands
Stands-rest b x xs h = h.1

get_one-Stands :
    (b : TransitionBits) (x : ℕ) (rest : List ℕ) → Stands b (x ∷ rest) → get 1 b ≡ ok (x, skip b 1)
get_one-Stands b x rest h =
    get-Stands b (x ∷ []) (omega arith) (Stands-front b (x ∷ []) rest h)
    ∙ ap (λ v. ok (v, skip b 1)) (omega (arith, number_step 0 x [], number_nil (0 * 2 + x)))

-- Two readings with the same value and the same position.
read_eq :
    (b : TransitionBits) {v w p q : ℕ}
    → v ≡ w
    → p ≡ q
    → ◌≡◌ {A = Result (ℕ × TransitionBits)}
        (ok (v, record b { position = p }))
        (ok (w, record b { position = q }))
read_eq b e f = rw e (rw f refl)

count_zeros-one :
    (left seen : ℕ) (b : TransitionBits)
    → get 1 b ≡ ok (1, skip b 1)
    → count_zeros left seen b ≡ ok (seen, skip b 1)
unfolding count_zeros
count_zeros-one zero seen b e = rw e refl
count_zeros-one (suc left) seen b e = rw e refl

count_zeros-Stands :
    (left seen n : ℕ) (b : TransitionBits) (rest : List ℕ)
    → n ≤ left
    → Stands b (zeros n ++ (1 ∷ rest))
    → count_zeros left seen b ≡ ok (seen + n, skip b (n + 1))
unfolding count_zeros Stands
count_zeros-Stands left seen zero b rest fits h =
    count_zeros-one left seen b (get_one-Stands b 1 rest h) ∙ read_eq b (omega arith) (omega arith)
count_zeros-Stands zero seen (suc n) b rest fits h = absurd (omega (arith, fits))
count_zeros-Stands (suc left) seen (suc n) b rest fits (here, later) =
    rw (get_one-Stands b 0 (zeros n ++ (1 ∷ rest)) (here, later)) (
      count_zeros-Stands left (suc seen) n (skip b 1) rest (omega (arith, fits)) later
      ∙ read_eq b (omega arith) (omega arith))

length-zeros : (n : ℕ) → length (zeros n) ≡ n
length-zeros zero = refl
length-zeros (suc n) = ap suc (length-zeros n)

-- Every code of at most 24 bits behind its first 1 is read as the number it stands for, and the
-- reader then stands behind the code.
pub ue-golomb :
    (b : TransitionBits) (suffix rest : List ℕ)
    → length suffix ≤ 24
    → Stands b (golomb suffix ++ rest)
    → ue b ≡ ok (golomb_value suffix, skip b (length (golomb suffix)))
unfolding ue
ue-golomb b suffix rest short h =
    let n = length suffix in
    let front = subst (Stands b) (append_assoc (zeros n) (1 ∷ suffix) rest) h in
    let behind = Stands-skip b (zeros n) (1 ∷ (suffix ++ rest)) front in
    let start =
      subst (λ p. Stands (record b { position = p }) (suffix ++ rest))
        (omega (arith, length-zeros n))
        (Stands-rest (skip b (length (zeros n))) 1 (suffix ++ rest) behind) in
    let after = Stands-front (skip b (n + 1)) suffix rest start in
    rw
      (count_zeros-Stands 24 0 n b (suffix ++ rest) short front
        ∙ read_eq b {v = 0 + n} {w = n} (omega arith) refl)
      (rw (get-Stands (skip b (n + 1)) suffix (omega (arith, short)) after) (
        read_eq b (omega (arith, number-shift 1 suffix, one-le-pow (length suffix) 2 (omega arith)))
          (omega (arith, length-append (zeros n) (1 ∷ suffix), length-zeros n))))
