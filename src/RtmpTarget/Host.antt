-- ===== src/RtmpTarget/Host.antt =====
-- src/rtmp-connection.cpp: the test for credentials that the server's address already has.
use obs_live_delay_plugin.RtmpTarget.{find_text, begins_with, at_before}
use obs_live_delay_plugin.RtmpTarget.Credentials.{Differs, split_at}
use obs_live_delay_plugin.Base.{
  ◌∷◌, [], ℕ, List, Option, some, none, suc, ◌≡◌, ◌==◌, ◌&&◌, true, false, Bool, ap, refl, Every,
  ◌++◌, if◌then◌else◌, Bool-cases, inl, inr, ◌∙◌, arith, sym, subst,
}

abbrev one_later : Option ℕ → Option ℕ
one_later o = elim o [ none ↦ none | some i ↦ some (suc i) ]

and_unit : (b : Bool) → (b && true) ≡ b
and_unit true = refl
and_unit false = refl

-- The search for one byte looks at the front and then behind it.
find_text-cons :
    (mark x : ℕ) (text : List ℕ) (test : Bool)
    → (x == mark) ≡ test
    → find_text (mark ∷ []) (x ∷ text)
      ≡ (if test then some 0 else one_later (find_text (mark ∷ []) text))
unfolding find_text begins_with
find_text-cons mark x text test e =
    ap (λ b. if b then some 0 else one_later (find_text (mark ∷ []) text))
      (and_unit (mark == x) ∙ (let h : (mark == x) ≡ (x == mark) = ground arith in h) ∙ e)

at_front : (end : Option ℕ) → at_before (some 0) (one_later end) ≡ true
at_front none = refl
at_front (some i) = ground arith

at_before-one_later :
    (at end : Option ℕ) → at_before (one_later at) (one_later end) ≡ at_before at end
at_before-one_later none end = refl
at_before-one_later (some i) none = refl
at_before-one_later (some i) (some j) = ground arith

abbrev tested : List ℕ → Bool
tested rest = at_before (find_text (b'@' ∷ []) rest) (find_text (b'/' ∷ []) rest)

split_at-other :
    (mark x : ℕ) (text : List ℕ)
    → (x == mark) ≡ false
    → (split_at mark (x ∷ text)).0 ≡ x ∷ (split_at mark text).0
unfolding split_at
split_at-other mark x text e = rw e refl

split_at-mark :
    (mark x : ℕ) (text : List ℕ) → (x == mark) ≡ true → (split_at mark (x ∷ text)).0 ≡ []
unfolding split_at
split_at-mark mark x text e = rw e refl

split_at-front_slash : (key : List ℕ) → (split_at b'/' (b'/' ∷ key)).0 ≡ []
unfolding split_at
split_at-front_slash key = refl

tested-behind :
    (x : ℕ) (rest : List ℕ)
    → (x == b'/') ≡ false
    → tested (x ∷ rest) ≡ false
    → ((x == b'@') ≡ false) × (tested rest ≡ false)
tested-behind x rest slash clear =
    let end = find_text-cons b'/' x rest false slash in
    elim (Bool-cases (x == b'@')) [
      | inl e ↦
          (let same =
              ap (λ o. at_before o (find_text (b'/' ∷ []) (x ∷ rest)))
                (find_text-cons b'@' x rest true e)
              ∙ ap (at_before (some 0)) end
              ∙ at_front (find_text (b'/' ∷ []) rest) in
            cc)
      | inr e ↦ (
        e,
        sym (
              ap (λ o. at_before o (find_text (b'/' ∷ []) (x ∷ rest)))
                (find_text-cons b'@' x rest false e)
              ∙ ap (at_before (one_later (find_text (b'@' ∷ []) rest))) end
              ∙ at_before-one_later (find_text (b'@' ∷ []) rest) (find_text (b'/' ∷ []) rest))
            ∙ clear,
      )
    ]

-- A server that passes the test has no `@` in front of its first slash.
pub clear_host :
    (rest key : List ℕ)
    → at_before (find_text (b'@' ∷ []) rest) (find_text (b'/' ∷ []) rest) ≡ false
    → Every (Differs b'@') ((split_at b'/' (rest ++ (b'/' ∷ key))).0)
clear_host [] key clear = subst (Every (Differs b'@')) (sym (split_at-front_slash key)) tt
clear_host (x ∷ rest) key clear = elim (Bool-cases (x == b'/')) [
  | inl slash ↦
      subst (Every (Differs b'@')) (sym (split_at-mark b'/' x (rest ++ (b'/' ∷ key)) slash)) tt
  | inr other ↦
      let (differs, behind) = tested-behind x rest other clear in
      subst (Every (Differs b'@')) (sym (split_at-other b'/' x (rest ++ (b'/' ∷ key)) other))
        (differs, clear_host rest key behind)
]
