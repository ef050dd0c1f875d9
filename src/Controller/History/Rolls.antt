-- ===== src/Controller/History/Rolls.antt =====
-- Rolling an armed buffer: what is left of the history.
use obs_live_delay_plugin.Controller.History.Cuts.{pop_fronts-drop}
use obs_live_delay_plugin.Base.Int.{ℤ, ◌≤ℤ◌, ltb_ℤ}
use obs_live_delay_plugin.Packet.{EncodedPacket, is_keyframe}
use obs_live_delay_plugin.Controller.Buffer.{keep_index, rolled}
use obs_live_delay_plugin.Base.{
  suc, inl, inr, true, [], ◌∷◌, ◌≡◌, refl, List, ℕ, ◌+◌, drop, arith, suc, Bool-cases, ◌∙◌, ap,
  subst, sym, if_cases, ◌⊎◌,
}

-- The front keyframe of a rolled history is old enough: the history still reaches back to the
-- cutoff.
abbrev pub ReachesBack : ℤ → List EncodedPacket → Type 0
ReachesBack cutoff [] = ⊥
ReachesBack cutoff (p ∷ ps) = (is_keyframe p ≡ true) × (p.dts_us ≤ℤ cutoff)

abbrev Index : ℤ → List EncodedPacket → ℕ → ℕ → ℕ → Type 0
Index cutoff ps i keep r = (r ≡ keep) ⊎ ((j : ℕ) × (r ≡ i + j) × ReachesBack cutoff (drop j ps))

Index-behind :
    (cutoff : ℤ) (p : EncodedPacket) (ps : List EncodedPacket) (i keep r : ℕ)
    → Index cutoff ps (i + 1) keep r
    → Index cutoff (p ∷ ps) i keep r
Index-behind cutoff p ps i keep r (inl e) = inl e
Index-behind cutoff p ps i keep r (inr (j, at, back)) = inr (suc j, omega arith, back)

Index-here :
    (cutoff : ℤ) (p : EncodedPacket) (ps : List EncodedPacket) (i keep r : ℕ)
    → is_keyframe p ≡ true
    → p.dts_us ≤ℤ cutoff
    → Index cutoff ps (i + 1) i r
    → Index cutoff (p ∷ ps) i keep r
Index-here cutoff p ps i keep r key old (inl e) = inr (0, omega arith, (key, old))
Index-here cutoff p ps i keep r key old (inr (j, at, back)) = inr (suc j, omega arith, back)

keep_index_reaches :
    (cutoff : ℤ) (ps : List EncodedPacket) (i keep : ℕ)
    → Index cutoff ps i keep (keep_index cutoff ps i keep)
unfolding keep_index
keep_index_reaches cutoff [] i keep = inl refl
keep_index_reaches cutoff (p ∷ ps) i keep =
    if_cases (Index cutoff (p ∷ ps) i keep) (ltb_ℤ cutoff p.dts_us) (λ _. inl refl)
      (λ old. elim (Bool-cases (is_keyframe p)) [
        | inl key ↦ rw key (
            Index-here cutoff p ps i keep _ key (ground arith)
              (keep_index_reaches cutoff ps (i + 1) i))
        | inr other ↦
            rw other (Index-behind cutoff p ps i keep _ (keep_index_reaches cutoff ps (i + 1) keep))
      ])

-- Rolling an armed history leaves it alone or cuts it at a keyframe that is at least as old as the
-- cutoff, so what is kept still spans the target.
pub rolled_reaches :
    (cutoff : ℤ) (p : EncodedPacket) (ps : List EncodedPacket) (bytes : ℕ)
    → ((rolled cutoff (p ∷ ps) bytes).0 ≡ p ∷ ps)
      ⊎ ReachesBack cutoff (rolled cutoff (p ∷ ps) bytes).0
unfolding rolled
rolled_reaches cutoff p ps bytes = elim (keep_index_reaches cutoff ps 1 0) [
  | inl e ↦ inl (pop_fronts-drop _ (p ∷ ps) bytes ∙ ap (λ n. drop n (p ∷ ps)) e)
  | inr (j, at, back) ↦
      let h : keep_index cutoff ps 1 0 ≡ suc j = omega arith in
      inr (
        subst (ReachesBack cutoff)
          (sym (pop_fronts-drop _ (p ∷ ps) bytes ∙ ap (λ n. drop n (p ∷ ps)) h)) back)
]
