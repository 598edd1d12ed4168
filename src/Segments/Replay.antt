-- ===== src/Segments/Replay.antt =====
-- openwhisk/energySegments.go: the moves of a monitor, and the meter beside a replay of the
-- marks from the start of the step.
use openwhisk_runtime_go.Base.{
  ℕ, ◌≡◌, refl, ap, true, false, List, [], ◌∷◌, ◌++◌, All, arith, if◌then◌else◌, ◌||◌, Bool-cases,
  inl, inr,
}
use openwhisk_runtime_go.Base.Int64
use openwhisk_runtime_go.Attribution.{Platform, CpuSnapshot, attributed_energy_uj}
use openwhisk_runtime_go.Segments.Marks.{
  FreezeMark, on_last, new_mark, resume_mark, refine_mark, note_freeze, note_resume,
  refine_freeze_cpu,
}
use openwhisk_runtime_go.Segments.Meter.{
  StepMeter, new_step_meter, open_at, close_at, refine_frozen_cpu,
}
use openwhisk_runtime_go.Segments.Tracking.{
  SegmentSnapshot, Tracking, refine_frozen_segment, close_segment_at_freeze, open_segment_at_resume,
  resume_energy, resume_start,
}

abbrev pub Resumed : FreezeMark → Type 0
Resumed m = m.resumed ≡ true

pub on_last-snoc :
    (f : FreezeMark → FreezeMark) (xs : List FreezeMark) (m : FreezeMark)
    → on_last f (xs ++ m ∷ []) ≡ xs ++ f m ∷ []
on_last-snoc f [] m = refl
on_last-snoc f (x ∷ []) m = refl
on_last-snoc f (x ∷ y ∷ xs) m = ap (λ l. x ∷ l) (on_last-snoc f (y ∷ xs) m)

pub All-snoc :
    (xs : List FreezeMark) (m : FreezeMark)
    → All Resumed xs
    → Resumed m
    → All Resumed (xs ++ m ∷ [])
All-snoc [] m h r = (r, tt)
All-snoc (x ∷ xs) m h r = (h.0, All-snoc xs m h.1 r)

-- The moves of a monitor: it closes a segment only while none is closed.
pub data Step (p : Platform) : Tracking → Tracking → Type 0 where
  freezes :
      (t : Tracking) (s : SegmentSnapshot)
      → t.meter.frozen ≡ false
      → Step p t (close_segment_at_freeze p s t).0
  refines : (t : Tracking) (cpu : CpuSnapshot) → Step p t (refine_frozen_segment p cpu t).0
  resumes :
      (t : Tracking) (s : SegmentSnapshot) (now : ℕ) → Step p t (open_segment_at_resume s now t).0

pub data Reach (p : Platform) (t : Tracking) : Tracking → Type 0 where
  here : Reach p t t
  next : {u v : Tracking} → Reach p t u → Step p u v → Reach p t v

-- newStepMeter, with the marks that reset has cleared.
abbrev pub initial : ℕ → CpuSnapshot → Tracking
initial energy cpu = record { meter = new_step_meter energy cpu; marks = [] }

module _ (p : Platform) where
  unfoldable pub replay_mark : FreezeMark → StepMeter → StepMeter
  replay_mark m k =
      if m.resumed
      then open_at m.resume_energy_uj m.resume_cpu (close_at p m.freeze_energy_uj m.freeze_cpu k)
      else close_at p m.freeze_energy_uj m.freeze_cpu k

  unfoldable pub replay : StepMeter → List FreezeMark → StepMeter
  replay k [] = k
  replay k (m ∷ ms) = replay (replay_mark m k) ms

  replay-snoc :
      (k : StepMeter) (xs : List FreezeMark) (m : FreezeMark)
      → replay k (xs ++ m ∷ []) ≡ replay_mark m (replay k xs)
  unfolding replay
  replay-snoc k [] m = refl
  replay-snoc k (x ∷ xs) m = replay-snoc (replay_mark x k) xs m

  -- What holds of the meter and the marks together, from the start `k` of the step.
  pub data Inv (k : StepMeter) (t : Tracking) : Type 0 where
    idle : t.meter.frozen ≡ false → All Resumed t.marks → t.meter ≡ replay k t.marks → Inv k t
    held :
        (xs : List FreezeMark) (m : FreezeMark)
        → t.marks ≡ xs ++ m ∷ []
        → All Resumed xs
        → m.resumed ≡ false
        → t.meter ≡ close_at p m.freeze_energy_uj m.freeze_cpu (replay k xs)
        → Inv k t

  pub close_at-frozen :
      (t : Tracking) (m : FreezeMark) (j : StepMeter)
      → t.meter ≡ close_at p m.freeze_energy_uj m.freeze_cpu j
      → t.meter.frozen ≡ true
  unfolding close_at
  close_at-frozen t m j g = ap (λ (z : StepMeter). z.frozen) g

  closes-Inv :
      (k : StepMeter) (t : Tracking) (s : SegmentSnapshot)
      → t.meter.frozen ≡ false
      → Inv k t
      → Inv k (close_segment_at_freeze p s t).0
  unfolding close_segment_at_freeze note_freeze close_at
  closes-Inv k t s f (held xs m q r u g) = cc (close_at-frozen t m (replay k xs) g)
  closes-Inv k t s f (idle _ r q) =
      elim (Bool-cases (s.failed || Int64.lt s.cpu.process_ticks t.meter.seg_cpu.process_ticks)) [
        | inl bad ↦ rw bad (idle f r q)
        | inr good ↦ rw good (
            held t.marks (new_mark s.energy_uj s.cpu) refl r refl
              (ap (close_at p s.energy_uj s.cpu) q))
      ]

  refine-close :
      (ticks : ℕ) (m : FreezeMark) (j : StepMeter)
      → m.resumed ≡ false
      → (refine_frozen_cpu p ticks (close_at p m.freeze_energy_uj m.freeze_cpu j)).0
        ≡ close_at p (refine_mark ticks m).freeze_energy_uj (refine_mark ticks m).freeze_cpu j
  unfolding refine_frozen_cpu close_at
  refine-close ticks m j u = ground (
    arith,
    Int64.lt-not_le m.freeze_cpu.process_ticks ticks,
    Int64.replace_summand j.closed_uj
        (attributed_energy_uj p j.seg_energy m.freeze_energy_uj j.seg_cpu m.freeze_cpu)
        (attributed_energy_uj p j.seg_energy m.freeze_energy_uj j.seg_cpu
          (record { process_ticks = ticks; wall_ns = m.freeze_cpu.wall_ns })),
  )

  refine_idle :
      (t : Tracking) (cpu : CpuSnapshot)
      → t.meter.frozen ≡ false
      → (refine_frozen_segment p cpu t).0 ≡ t
  unfolding refine_frozen_segment
  refine_idle t cpu f = ground arith

  refine_marks :
      (t : Tracking) (cpu : CpuSnapshot) (xs : List FreezeMark) (m : FreezeMark)
      → t.meter.frozen ≡ true
      → t.marks ≡ xs ++ m ∷ []
      → (refine_frozen_segment p cpu t).0.marks ≡ xs ++ refine_mark cpu.process_ticks m ∷ []
  unfolding refine_frozen_segment refine_freeze_cpu
  refine_marks t cpu xs m f q = ground (
    arith,
    ap (on_last (refine_mark cpu.process_ticks)) q,
    on_last-snoc (refine_mark cpu.process_ticks) xs m,
  )

  refine_mark_open :
      (ticks : ℕ) (m : FreezeMark) → m.resumed ≡ false → (refine_mark ticks m).resumed ≡ false
  refine_mark_open ticks m u = ground arith

  refine_meter :
      (t : Tracking) (cpu : CpuSnapshot) (m : FreezeMark) (j : StepMeter)
      → m.resumed ≡ false
      → t.meter ≡ close_at p m.freeze_energy_uj m.freeze_cpu j
      → (refine_frozen_segment p cpu t).0.meter
        ≡ close_at p
            (refine_mark cpu.process_ticks m).freeze_energy_uj
            (refine_mark cpu.process_ticks m).freeze_cpu
            j
  unfolding refine_frozen_segment
  refine_meter t cpu m j u g = ground (
    arith,
    close_at-frozen t m j g,
    ap (λ (z : StepMeter). (refine_frozen_cpu p cpu.process_ticks z).0) g,
    refine-close cpu.process_ticks m j u,
  )

  refines-Inv :
      (k : StepMeter) (t : Tracking) (cpu : CpuSnapshot)
      → Inv k t
      → Inv k (refine_frozen_segment p cpu t).0
  refines-Inv k t cpu (idle f r q) = rw (refine_idle t cpu f) (idle f r q)
  refines-Inv k t cpu (held xs m q r u g) =
      held xs (refine_mark cpu.process_ticks m)
        (refine_marks t cpu xs m (close_at-frozen t m (replay k xs) g) q) r
        (refine_mark_open cpu.process_ticks m u) (refine_meter t cpu m (replay k xs) u g)

  pub resume_idle :
      (t : Tracking) (s : SegmentSnapshot) (now : ℕ)
      → t.meter.frozen ≡ false
      → (open_segment_at_resume s now t).0 ≡ t
  unfolding open_segment_at_resume
  resume_idle t s now f = ground arith

  resume_open :
      (t : Tracking) (s : SegmentSnapshot) (now : ℕ)
      → t.meter.frozen ≡ true
      → (open_segment_at_resume s now t).0.meter.frozen ≡ false
  unfolding open_segment_at_resume open_at
  resume_open t s now f = ground arith

  pub resume_marks :
      (t : Tracking) (s : SegmentSnapshot) (now : ℕ) (xs : List FreezeMark) (m : FreezeMark)
      → t.meter.frozen ≡ true
      → t.marks ≡ xs ++ m ∷ []
      → (open_segment_at_resume s now t).0.marks
        ≡ xs ++ resume_mark (resume_energy s t.meter) (resume_start s now t.meter) m ∷ []
  unfolding open_segment_at_resume note_resume
  resume_marks t s now xs m f q = ground (
    arith,
    ap (on_last (resume_mark (resume_energy s t.meter) (resume_start s now t.meter))) q,
    on_last-snoc (resume_mark (resume_energy s t.meter) (resume_start s now t.meter)) xs m,
  )

  resume_mark_resumed :
      (e : ℕ) (c : CpuSnapshot) (m : FreezeMark) → (resume_mark e c m).resumed ≡ true
  resume_mark_resumed e c m = ground arith

  resume_meter :
      (t : Tracking) (s : SegmentSnapshot) (now : ℕ) (m : FreezeMark) (j : StepMeter)
      → m.resumed ≡ false
      → t.meter ≡ close_at p m.freeze_energy_uj m.freeze_cpu j
      → (open_segment_at_resume s now t).0.meter
        ≡ replay_mark (resume_mark (resume_energy s t.meter) (resume_start s now t.meter) m) j
  unfolding open_segment_at_resume replay_mark
  resume_meter t s now m j u g = ground (
    arith,
    close_at-frozen t m j g,
    ap (open_at (resume_energy s t.meter) (resume_start s now t.meter)) g,
  )

  resumes-Inv :
      (k : StepMeter) (t : Tracking) (s : SegmentSnapshot) (now : ℕ)
      → Inv k t
      → Inv k (open_segment_at_resume s now t).0
  resumes-Inv k t s now (idle f r q) = rw (resume_idle t s now f) (idle f r q)
  resumes-Inv k t s now (held xs m q r u g) =
      let f = close_at-frozen t m (replay k xs) g in
      let m' = resume_mark (resume_energy s t.meter) (resume_start s now t.meter) m in
      idle (resume_open t s now f)
        (rw (resume_marks t s now xs m f q) (All-snoc xs m' r (resume_mark_resumed _ _ m)))
        (rw (resume_marks t s now xs m f q)
          (rw (replay-snoc k xs m') (resume_meter t s now m (replay k xs) u g)))

  Step-Inv : (k : StepMeter) {t u : Tracking} → Step p t u → Inv k t → Inv k u
  Step-Inv k (freezes t s f) v = closes-Inv k t s f v
  Step-Inv k (refines t cpu) v = refines-Inv k t cpu v
  Step-Inv k (resumes t s now) v = resumes-Inv k t s now v

  pub Reach-Inv : (k : StepMeter) {t u : Tracking} → Inv k t → Reach p t u → Inv k u
  Reach-Inv k v here = v
  Reach-Inv k v (next r st) = Step-Inv k st (Reach-Inv k v r)

  pub initial-Inv : (e₀ : ℕ) (c₀ : CpuSnapshot) → Inv (new_step_meter e₀ c₀) (initial e₀ c₀)
  unfolding new_step_meter replay
  initial-Inv e₀ c₀ = idle refl tt refl
