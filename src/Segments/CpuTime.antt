-- ===== src/Segments/CpuTime.antt =====
-- openwhisk/energySegments.go: the CPU time at which a segment ends and the next one starts.
use openwhisk_runtime_go.Base.{ℕ, ◌≡◌, ap, true, false, List, [], ◌∷◌, ◌++◌, All, arith}
use openwhisk_runtime_go.Attribution.{Platform, CpuSnapshot}
use openwhisk_runtime_go.Segments.Marks.{
  FreezeMark, new_mark, resume_mark, note_freeze, refine_freeze_cpu,
}
use openwhisk_runtime_go.Segments.Meter.{StepMeter, close_at, new_step_meter}
use openwhisk_runtime_go.Segments.Tracking.{
  Tracking, SegmentSnapshot, close_segment_at_freeze, refine_frozen_segment, resume_energy,
  resume_start,
}
use openwhisk_runtime_go.Segments.Replay.{
  Step, freezes, refines, resumes, Reach, here, next, initial, Inv, idle, held, close_at-frozen,
  Reach-Inv, initial-Inv, replay, resume_marks, resume_idle,
}

-- A segment opened by a resume starts from the CPU time at which the freeze closed the last one.
abbrev pub Continuous : FreezeMark → Type 0
Continuous m = m.resumed ≡ true → m.resume_cpu.process_ticks ≡ m.freeze_cpu.process_ticks

All-last :
    (xs : List FreezeMark) (m n : FreezeMark)
    → All Continuous (xs ++ m ∷ [])
    → Continuous n
    → All Continuous (xs ++ n ∷ [])
All-last [] m n h c = (c, tt)
All-last (x ∷ xs) m n h c = (h.0, All-last xs m n h.1 c)

All-more :
    (xs : List FreezeMark) (n : FreezeMark)
    → All Continuous xs
    → Continuous n
    → All Continuous (xs ++ n ∷ [])
All-more [] n h c = (c, tt)
All-more (x ∷ xs) n h c = (h.0, All-more xs n h.1 c)

refine-Continuous :
    (ticks : ℕ) (ms : List FreezeMark)
    → All Continuous ms
    → All Continuous (refine_freeze_cpu ticks ms)
unfolding refine_freeze_cpu
refine-Continuous ticks [] h = tt
refine-Continuous ticks (m ∷ []) h = (ground arith, tt)
refine-Continuous ticks (m ∷ n ∷ ms) h = (h.0, refine-Continuous ticks (n ∷ ms) h.1)

module _ (p : Platform) where
  closed_cpu :
      (t : Tracking) (m : FreezeMark) (j : StepMeter)
      → t.meter ≡ close_at p m.freeze_energy_uj m.freeze_cpu j
      → t.meter.frozen_cpu.process_ticks ≡ m.freeze_cpu.process_ticks
  unfolding close_at
  closed_cpu t m j g = ap (λ (z : StepMeter). z.frozen_cpu.process_ticks) g

  resume_Continuous :
      (t : Tracking) (s : SegmentSnapshot) (now : ℕ) (m : FreezeMark)
      → t.meter.frozen_cpu.process_ticks ≡ m.freeze_cpu.process_ticks
      → m.resumed ≡ false
      → Continuous (resume_mark (resume_energy s t.meter) (resume_start s now t.meter) m)
  unfolding resume_start
  resume_Continuous t s now m e u = ground arith

  Step-Continuous :
      (k : StepMeter) {t u : Tracking}
      → Step p t u
      → Inv p k t
      → All Continuous t.marks
      → All Continuous u.marks
  unfolding close_segment_at_freeze note_freeze refine_frozen_segment
  Step-Continuous k (freezes t s f) v h =
      ground (arith, All-more t.marks (new_mark s.energy_uj s.cpu) h (λ e. cc))
  Step-Continuous k (refines t cpu) v h =
      ground (arith, refine-Continuous cpu.process_ticks t.marks h)
  Step-Continuous k (resumes t s now) (idle f r q) h = rw (resume_idle p t s now f) h
  Step-Continuous k (resumes t s now) (held xs m q r u g) h =
      rw (resume_marks p t s now xs m (close_at-frozen p t m (replay p k xs) g) q) (
        All-last xs m _ (rw q at h)
          (resume_Continuous t s now m (closed_cpu t m (replay p k xs) g) u))

  Reach-Continuous :
      (k : StepMeter) {t u : Tracking}
      → Inv p k t
      → All Continuous t.marks
      → Reach p t u
      → All Continuous u.marks
  Reach-Continuous k v h here = h
  Reach-Continuous k v h (next r st) =
      Step-Continuous k st (Reach-Inv p k v r) (Reach-Continuous k v h r)

  -- From the start of a step, after any freezes, refinements and resumes in which a segment is
  -- closed only while none is: wherever the step has resumed, the new segment starts from the CPU
  -- time at which the freeze, refined while it lasted, closed the one before. No CPU time between
  -- two segments is lost or counted twice.
  pub marks-Continuous :
      (e₀ : ℕ) (c₀ : CpuSnapshot) (t : Tracking)
      → Reach p (initial e₀ c₀) t
      → All Continuous t.marks
  marks-Continuous e₀ c₀ t r = Reach-Continuous (new_step_meter e₀ c₀) (initial-Inv p e₀ c₀) tt r
