-- ===== src/Controller/History/Cuts.antt =====
-- Trimming to a shorter delay: what is left of the history.
use obs_live_delay_plugin.Controller.State.{duration}
use obs_live_delay_plugin.Base.Int.{ℤ, ◌≤ℤ◌, ◌<ℤ◌, ltb_ℤ, leb_ℤ}
use obs_live_delay_plugin.Controller.Playback.Rewind.{StartsOnKeyframe}
use obs_live_delay_plugin.Packet.{EncodedPacket, is_keyframe}
use obs_live_delay_plugin.Controller.Buffer.{
  keyframe_index, pop_fronts, next_keyframe, discard_to_next_keyframe, trim_loop,
}
use obs_live_delay_plugin.Base.{
  zero, suc, none, some, inl, inr, true, false, [], ◌∷◌, ◌≡◌, refl, List, ℕ, ◌+◌, drop, arith, suc,
  Bool-cases, sub_size, length, Bool, ◌∙◌, ◌<◌, ap, Option-cases, length-drop-le, subst, ◌≤◌, sym,
  if_cases, ◌⊎◌, if◌then◌else◌, ltb, ◌-◌,
}

none_before :
    (p : EncodedPacket) (ps : List EncodedPacket) (j m : ℕ)
    → is_keyframe p ≡ false
    → ((n : ℕ) → n < j → ¬ StartsOnKeyframe (drop n ps))
    → m < suc j
    → ¬ StartsOnKeyframe (drop m (p ∷ ps))
none_before p ps j zero other before h = λ k. cc
none_before p ps j (suc m) other before h = before m (omega arith)

-- The index is that of the first keyframe.
keyframe_index-drop :
    (ps : List EncodedPacket) (i k : ℕ)
    → keyframe_index ps i ≡ some k
    → (j : ℕ) × (k ≡ i + j)
      × StartsOnKeyframe (drop j ps)
      × ((m : ℕ) → m < j → ¬ StartsOnKeyframe (drop m ps))
unfolding keyframe_index
keyframe_index-drop [] i k e = absurd (ground arith)
keyframe_index-drop (p ∷ ps) i k e = elim (Bool-cases (is_keyframe p)) [
  | inl key ↦ (0, ground arith, key, λ m h. absurd (omega arith))
  | inr other ↦
      let (j, at, starts, before) = keyframe_index-drop ps (i + 1) k (rw other at e) in
      (suc j, omega arith, starts, λ m h. none_before p ps j m other before h)
]

pub pop_fronts-drop :
    (n : ℕ) (ps : List EncodedPacket) (bytes : ℕ) → (pop_fronts n ps bytes).0 ≡ drop n ps
unfolding pop_fronts
pop_fronts-drop zero ps bytes = refl
pop_fronts-drop (suc n) [] bytes = refl
pop_fronts-drop (suc n) (p ∷ ps) bytes = pop_fronts-drop n ps (sub_size bytes (length p.payload))

-- Without the current keyframe the search starts behind the front, keyframe or not.
next_keyframe_behind :
    (p : EncodedPacket) (ps : List EncodedPacket)
    → next_keyframe false (p ∷ ps) ≡ keyframe_index ps 1
unfolding next_keyframe keyframe_index
next_keyframe_behind p ps = ground arith

-- What is left of a history from its next keyframe behind the front on.
record FromNext (ps qs : List EncodedPacket) : Type 0 where
  behind : ℕ
  rest : qs ≡ drop (suc behind) ps
  starts : StartsOnKeyframe qs
  next : (m : ℕ) → 0 < m → m < suc behind → ¬ StartsOnKeyframe (drop m ps)
  less : length qs < length ps

abbrev Shortened : List EncodedPacket → (List EncodedPacket × ℕ) × Bool → Type 0
Shortened ps ((qs, left), true) = FromNext ps qs
Shortened ps ((qs, left), false) = (qs ≡ ps) × (next_keyframe false ps ≡ none)

next_behind :
    (p : EncodedPacket) (ps : List EncodedPacket) (j m : ℕ)
    → ((n : ℕ) → n < j → ¬ StartsOnKeyframe (drop n ps))
    → 0 < m
    → m < suc j
    → ¬ StartsOnKeyframe (drop m (p ∷ ps))
next_behind p ps j zero before h l = absurd (omega arith)
next_behind p ps j (suc m) before h l = before m (omega arith)

discard_behind :
    (p : EncodedPacket) (ps : List EncodedPacket) (bytes k : ℕ)
    → keyframe_index ps 1 ≡ some k
    → Shortened (p ∷ ps) (pop_fronts k (p ∷ ps) bytes, true)
discard_behind p ps bytes k e =
    let (j, at, starts, before) = keyframe_index-drop ps 1 k e in
    let cut : (pop_fronts k (p ∷ ps) bytes).0 ≡ drop j ps =
      pop_fronts-drop k (p ∷ ps) bytes
      ∙ ap (λ n. drop n (p ∷ ps)) (let h : k ≡ suc j = omega arith in h) in
    record {
      behind = j;
      rest = cut;
      starts = subst StartsOnKeyframe (sym cut) starts;
      next = λ m h l. next_behind p ps j m before h l;
      less = omega (arith, length-drop-le j ps, ap length cut);
    }

discard-none :
    (allow : Bool) (ps : List EncodedPacket) (bytes : ℕ)
    → next_keyframe allow ps ≡ none
    → discard_to_next_keyframe allow ps bytes ≡ ((ps, bytes), false)
unfolding discard_to_next_keyframe
discard-none allow ps bytes e = rw (e, discard_to_next_keyframe) refl

discard-some :
    (allow : Bool) (ps : List EncodedPacket) (bytes k : ℕ)
    → next_keyframe allow ps ≡ some k
    → discard_to_next_keyframe allow ps bytes ≡ (pop_fronts k ps bytes, true)
unfolding discard_to_next_keyframe
discard-some allow ps bytes k e = rw (e, discard_to_next_keyframe) refl

discard-Shortened :
    (ps : List EncodedPacket) (bytes : ℕ) → Shortened ps (discard_to_next_keyframe false ps bytes)
discard-Shortened [] bytes =
    rw (discard-none false [] bytes (unfold next_keyframe in refl))
      (refl, (unfold next_keyframe in refl))
discard-Shortened (p ∷ ps) bytes = elim (Option-cases (keyframe_index ps 1)) [
  | inl e ↦
      rw (discard-none false (p ∷ ps) bytes (next_keyframe_behind p ps ∙ e))
        (refl, next_keyframe_behind p ps ∙ e)
  | inr (k, e) ↦
      rw (discard-some false (p ∷ ps) bytes k (next_keyframe_behind p ps ∙ e))
        (discard_behind p ps bytes k e)
]

-- What is left of a history of which the front and then every packet up to the next keyframe go as
-- long as the rest is longer than the target: a tail of it, whole or from a keyframe on, and what
-- any earlier such cut leaves is too long.
pub record IsCut (target : ℤ) (ps qs : List EncodedPacket) : Type 0 where
  pub cut : ℕ
  pub rest : qs ≡ drop cut ps
  pub opens : (cut ≡ 0) ⊎ StartsOnKeyframe qs
  pub earlier :
      (i : ℕ) → i < cut → (i ≡ 0) ⊎ StartsOnKeyframe (drop i ps) → target <ℤ duration (drop i ps)

-- What `trim_to_target_locked` returns: a cut history within the target, or one that is too long and
-- has no keyframe to cut at.
abbrev pub Trimmed : ℤ → List EncodedPacket → (List EncodedPacket × ℕ) × Bool → Type 0
Trimmed target ps ((qs, left), true) = IsCut target ps qs × (duration qs ≤ℤ target)
Trimmed target ps ((qs, left), false) =
    IsCut target ps qs × (target <ℤ duration qs) × (next_keyframe false qs ≡ none)

IsCut-whole : (target : ℤ) (ps : List EncodedPacket) → IsCut target ps ps
IsCut-whole target ps = record {
  cut = 0;
  rest = refl;
  opens = inl refl;
  earlier = λ i h o. absurd (omega arith);
}

drop-nil : (m : ℕ) → drop {A = EncodedPacket} m [] ≡ []
drop-nil zero = refl
drop-nil (suc m) = refl

drop-drop : (n m : ℕ) (ps : List EncodedPacket) → drop m (drop n ps) ≡ drop (n + m) ps
drop-drop zero m ps = ap (λ k. drop k ps) (omega arith)
drop-drop (suc n) m [] = drop-nil m ∙ sym (drop-nil (suc n + m))
drop-drop (suc n) m (p ∷ ps) =
    drop-drop n m ps
    ∙ ap (λ k. drop k (p ∷ ps)) (let h : suc (n + m) ≡ suc n + m = omega arith in h)

-- Where an index lies: at the front, before a later one, or from that on.
places : (i j : ℕ) → (i ≡ 0) ⊎ (((0 < i) × (i < suc j)) ⊎ ((m : ℕ) × (i ≡ suc j + m)))
places zero j = inl refl
places (suc i) j = elim (Bool-cases (ltb i j)) [
  | inl e ↦ inr (inl (omega arith, ground arith))
  | inr e ↦ inr (inr (i - j, ground arith))
]

earlier_too_long :
    (target : ℤ) (ps qs rs : List EncodedPacket) (i : ℕ) (f : FromNext ps qs)
    (c : IsCut target qs rs)
    → target <ℤ duration ps
    → i < suc f.behind + c.cut
    → (i ≡ 0) ⊎ StartsOnKeyframe (drop i ps)
    → target <ℤ duration (drop i ps)
earlier_too_long target ps qs rs i f c long h (inl e) =
    subst (λ n. target <ℤ duration (drop n ps)) (sym e) long
earlier_too_long target ps qs rs i f c long h (inr key) = elim (places i f.behind) [
  | inl e ↦ subst (λ n. target <ℤ duration (drop n ps)) (sym e) long
  | inr (inl (l, u)) ↦ absurd (f.next i l u key)
  | inr (inr (m, e)) ↦
      let same : drop m qs ≡ drop i ps =
        ap (drop m) f.rest ∙ drop-drop (suc f.behind) m ps ∙ ap (λ n. drop n ps) (sym e) in
      subst (λ l. target <ℤ duration l) same
        (c.earlier m (omega arith) (inr (subst StartsOnKeyframe (sym same) key)))
]

opens_behind :
    (ps qs rs : List EncodedPacket) (cut : ℕ)
    → FromNext ps qs
    → rs ≡ drop cut qs
    → (cut ≡ 0) ⊎ StartsOnKeyframe rs
    → StartsOnKeyframe rs
opens_behind ps qs rs cut f e (inr key) = key
opens_behind ps qs rs cut f e (inl front) =
    subst StartsOnKeyframe (sym (e ∙ ap (λ n. drop n qs) front)) f.starts

IsCut-behind :
    (target : ℤ) (ps qs rs : List EncodedPacket)
    → FromNext ps qs
    → target <ℤ duration ps
    → IsCut target qs rs
    → IsCut target ps rs
IsCut-behind target ps qs rs f long c = record {
  cut = suc f.behind + c.cut;
  rest = c.rest ∙ ap (drop c.cut) f.rest ∙ drop-drop (suc f.behind) c.cut ps;
  opens = inr (opens_behind ps qs rs c.cut f c.rest c.opens);
  earlier = λ i h o. earlier_too_long target ps qs rs i f c long h o;
}

trim_found :
    (target : ℤ) (ps qs : List EncodedPacket) (r : (List EncodedPacket × ℕ) × Bool)
    → FromNext ps qs
    → target <ℤ duration ps
    → Trimmed target qs r
    → Trimmed target ps r
trim_found target ps qs ((rs, left), true) f long (c, d) =
    (IsCut-behind target ps qs rs f long c, d)
trim_found target ps qs ((rs, left), false) f long (c, d, last) =
    (IsCut-behind target ps qs rs f long c, d, last)

-- One round of the loop, on what the search for a keyframe gave.
trim_round :
    (fuel : ℕ) (target : ℤ) (ps : List EncodedPacket) (cut : (List EncodedPacket × ℕ) × Bool)
    → Shortened ps cut
    → length ps ≤ suc fuel
    → target <ℤ duration ps
    → ((qs : List EncodedPacket) (left : ℕ)
        → length qs ≤ fuel
        → Trimmed target qs (trim_loop fuel target qs left))
    → Trimmed target ps (if cut.1 then trim_loop fuel target cut.0.0 cut.0.1 else (cut.0, false))
trim_round fuel target ps ((qs, left), true) f h long ih =
    trim_found target ps qs (trim_loop fuel target qs left) f long
      (ih qs left (omega (arith, f.less)))
trim_round fuel target ps ((qs, left), false) s h long ih =
    (subst (IsCut target ps) (sym s.0) (IsCut-whole target ps), rw s.0 long, rw s.0 s.1)

trim_empty :
    (target : ℤ) (bytes : ℕ) (b : Bool)
    → leb_ℤ (duration []) target ≡ b
    → Trimmed target [] (([], bytes), b)
unfolding next_keyframe
trim_empty target bytes true e = (IsCut-whole target [], ground arith)
trim_empty target bytes false e = (IsCut-whole target [], ground arith, refl)

-- The loop ends within as many rounds as there are packets.
pub trim_loop-Trimmed :
    (fuel : ℕ) (target : ℤ) (ps : List EncodedPacket) (bytes : ℕ)
    → length ps ≤ fuel
    → Trimmed target ps (trim_loop fuel target ps bytes)
unfolding trim_loop
trim_loop-Trimmed zero target [] bytes h = trim_empty target bytes (leb_ℤ (duration []) target) refl
trim_loop-Trimmed zero target (p ∷ ps) bytes h = absurd (omega arith)
trim_loop-Trimmed (suc fuel) target ps bytes h =
    if_cases (Trimmed target ps) (ltb_ℤ target (duration ps))
      (λ long.
        trim_round fuel target ps (discard_to_next_keyframe false ps bytes)
          (discard-Shortened ps bytes) h (ground arith) (trim_loop-Trimmed fuel target))
      (λ short. (IsCut-whole target ps, ground arith))
