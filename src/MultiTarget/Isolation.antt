-- ===== src/MultiTarget/Isolation.antt =====
-- src/multi-target-sender.cpp: what each worker does with a batch or an event.
use obs_live_delay_plugin.Base.{
  ◌∷◌, [], some, none, Option, String, ◌≡◌, List, false, if_cases, Every, ◌⊎◌, refl, map, inl, inr,
}
use obs_live_delay_plugin.MultiTarget.{
  Worker, TargetConsumer, serve, serve_all, after_call, is_isolated,
}

module _ {ℓ} {C : Type ℓ} (ops : TargetConsumer C) where
  -- What a worker does on its own with a call of its consumer.
  abbrev pub served : (C → C × Option String) → String → Worker C → Worker C
  served call prefix w = (serve ops call prefix w).0

  -- A call of the primary's consumer that throws nothing.
  abbrev pub PrimaryHolds : (C → C × Option String) → Worker C → Type 0
  PrimaryHolds call w = (w.primary ≡ false) ⊎ ((call w.consumer).1 ≡ none)

  after_call-PrimaryHolds :
      (prefix : String) (w : Worker C) (r : C × Option String)
      → (w.primary ≡ false) ⊎ (r.1 ≡ none)
      → (after_call ops prefix w r).1 ≡ none
  after_call-PrimaryHolds prefix w (c, none) h = refl
  after_call-PrimaryHolds prefix w (c, some message) (inl e) = rw e refl
  after_call-PrimaryHolds prefix w (c, some message) (inr e) = cc

  serve-PrimaryHolds :
      (call : C → C × Option String) (prefix : String) (w : Worker C)
      → PrimaryHolds call w
      → (serve ops call prefix w).1 ≡ none
  unfolding serve
  serve-PrimaryHolds call prefix w h =
      if_cases (λ (r : Worker C × Option String). r.1 ≡ none) (is_isolated ops w) (λ e. refl)
        (λ e. after_call-PrimaryHolds prefix w (call w.consumer) h)

  -- As long as the primary's consumer throws nothing, nothing is thrown, and every worker does with
  -- a batch or an event what it does on its own, whatever the other workers do with it.
  pub serve_all-isolates :
      (call : C → C × Option String) (prefix : String) (ws : List (Worker C))
      → Every (PrimaryHolds call) ws
      → serve_all ops call prefix ws ≡ (map (served call prefix) ws, none)
  unfolding serve_all
  serve_all-isolates call prefix [] h = refl
  serve_all-isolates call prefix (w ∷ ws) (here, later) =
      rw (serve-PrimaryHolds call prefix w here, serve_all)
        (rw (serve_all-isolates call prefix ws later) refl)
