-- ===== src/Segments/Agreement.antt =====
-- openwhisk/energySegments.go: the meter of the monitor beside the settlement from the marks.
use openwhisk_runtime_go.Base.{
  ℕ, ◌≡◌, refl, sym, ap, ◌∙◌, true, false, List, [], ◌∷◌, ◌++◌, All, arith,
}
use openwhisk_runtime_go.Base.Int64
use openwhisk_runtime_go.Attribution.{
  Platform, CpuSnapshot, AttributionBreakdown, no_attribution, attributed_energy_uj,
  attribution_detail,
}
use openwhisk_runtime_go.Attribution.Bounds.{attributed_range}
use openwhisk_runtime_go.Segments.Marks.{FreezeMark}
use openwhisk_runtime_go.Segments.Settlement.{
  add_segment, segments, with_ratio, segmented_attribution,
}
use openwhisk_runtime_go.Segments.Meter.{StepMeter, new_step_meter, open_at, step_uj, close_at}
use openwhisk_runtime_go.Segments.Tracking.{Tracking}
use openwhisk_runtime_go.Segments.Replay.{
  Resumed, Reach, initial, replay, replay_mark, Inv, idle, held, close_at-frozen, Reach-Inv,
  initial-Inv,
}

module _ (p : Platform) where
  segments-replay :
      (k : StepMeter) (total : AttributionBreakdown p) (ms : List FreezeMark) (e : ℕ)
      (c : CpuSnapshot)
      → k.frozen ≡ false
      → total.attributed_uj ≡ k.closed_uj
      → All Resumed ms
      → (segments p k.seg_energy k.seg_cpu total ms e c).attributed_uj
        ≡ step_uj p e c (replay p k ms)
  unfolding segments replay replay_mark add_segment step_uj attributed_energy_uj open_at close_at
  segments-replay k total [] e c f h r = ground arith
  segments-replay k total (m ∷ ms) e c f h r =
      rw (r.0, segments, replay_mark)
        (segments-replay
          (open_at m.resume_energy_uj m.resume_cpu (close_at p m.freeze_energy_uj m.freeze_cpu k))
          (add_segment p total
            (attribution_detail p k.seg_energy m.freeze_energy_uj k.seg_cpu m.freeze_cpu))
          ms e c refl (rw h) r.1)

  segments-open :
      (k : StepMeter) (total : AttributionBreakdown p) (xs : List FreezeMark) (m : FreezeMark)
      (e : ℕ) (c : CpuSnapshot)
      → total.attributed_uj ≡ k.closed_uj
      → All Resumed xs
      → m.resumed ≡ false
      → (segments p k.seg_energy k.seg_cpu total (xs ++ m ∷ []) e c).attributed_uj
        ≡ (close_at p m.freeze_energy_uj m.freeze_cpu (replay p k xs)).closed_uj
  unfolding segments replay replay_mark add_segment attributed_energy_uj open_at close_at
  segments-open k total [] m e c h r u = ground arith
  segments-open k total (x ∷ xs) m e c h r u =
      rw (r.0, segments, replay_mark)
        (segments-open
          (open_at x.resume_energy_uj x.resume_cpu (close_at p x.freeze_energy_uj x.freeze_cpu k))
          (add_segment p total
            (attribution_detail p k.seg_energy x.freeze_energy_uj k.seg_cpu x.freeze_cpu))
          xs m e c (rw h) r.1 u)

  settled :
      (e₀ e : ℕ) (c₀ c : CpuSnapshot) (ms : List FreezeMark)
      → (segmented_attribution p e₀ e c₀ c ms).attributed_uj
        ≡ (segments p e₀ c₀ (no_attribution p) ms e c).attributed_uj
  unfolding segmented_attribution segments add_segment with_ratio attributed_energy_uj
  settled e₀ e c₀ c [] =
      omega
        (arith, attributed_range p e₀ e c₀ c, Int64.add_exact 0 (attributed_energy_uj p e₀ e c₀ c))
  settled e₀ e c₀ c (m ∷ ms) = ground arith

  frozen_step :
      (t : Tracking) (e : ℕ) (c : CpuSnapshot)
      → t.meter.frozen ≡ true
      → step_uj p e c t.meter ≡ t.meter.closed_uj
  unfolding step_uj
  frozen_step t e c f = ground arith

  Inv-agrees :
      (e₀ : ℕ) (c₀ : CpuSnapshot) (t : Tracking) (e : ℕ) (c : CpuSnapshot)
      → Inv p (new_step_meter e₀ c₀) t
      → (segmented_attribution p e₀ e c₀ c t.marks).attributed_uj ≡ step_uj p e c t.meter
  unfolding new_step_meter
  Inv-agrees e₀ c₀ t e c (idle f r q) =
      settled e₀ e c₀ c t.marks
      ∙ segments-replay (new_step_meter e₀ c₀) (no_attribution p) t.marks e c refl refl r
      ∙ ap (step_uj p e c) (sym q)
  Inv-agrees e₀ c₀ t e c (held xs m q r u g) =
      settled e₀ e c₀ c t.marks
      ∙ ap (λ ms. (segments p e₀ c₀ (no_attribution p) ms e c).attributed_uj) q
      ∙ segments-open (new_step_meter e₀ c₀) (no_attribution p) xs m e c refl r u
      ∙ ap (λ (z : StepMeter). z.closed_uj) (sym g)
      ∙ sym (frozen_step t e c (close_at-frozen p t m _ g))

  -- From the start of a step, after any freezes, refinements and resumes in which a segment is
  -- closed only while none is, whatever was read at each of them: the energy that
  -- segmentedAttribution settles from the marks at a read (e, c) is the energy that the monitor's
  -- meter shows at that read.
  pub segmented_attribution-step_uj :
      (e₀ : ℕ) (c₀ : CpuSnapshot) (t : Tracking) (e : ℕ) (c : CpuSnapshot)
      → Reach p (initial e₀ c₀) t
      → (segmented_attribution p e₀ e c₀ c t.marks).attributed_uj ≡ step_uj p e c t.meter
  segmented_attribution-step_uj e₀ c₀ t e c r =
      Inv-agrees e₀ c₀ t e c (Reach-Inv p (new_step_meter e₀ c₀) (initial-Inv p e₀ c₀) r)
