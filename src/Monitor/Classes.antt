-- ===== src/Monitor/Classes.antt =====
-- openwhisk/energyMonitor.go: the interruption class of a step.
use openwhisk_runtime_go.Base.{
  ◌≡◌, ap, Bool, true, false, not, Option, none, some, List, [], ◌∷◌, String, if◌then◌else◌, str_eq,
  arith, eq_iff, Option-cases, inl, inr,
}
use openwhisk_runtime_go.Base.Float64.{Float64}
use openwhisk_runtime_go.Sidecar.State.{EnergyState}

-- A read of a Go map of strings.
abbrev class_of : String → List (String × String) → Option String
class_of k [] = none
class_of k ((j, c) ∷ m) = if str_eq j k then some c else class_of k m

-- The class is known: it is UNKILLABLE. A name that is missing from the map is a compensation's.
abbrev resolved_unkillable : Option String → Bool
resolved_unkillable none = false
resolved_unkillable (some c) = str_eq c "UNKILLABLE"

unkillable_class : (o : Option String) → resolved_unkillable o ≡ true → o ≡ some "UNKILLABLE"
unkillable_class none h = cc
unkillable_class (some c) h = ap some ((eq_iff c "UNKILLABLE").0 h)

module _ {f : Float64} where
  unfoldable pub is_non_interruptible_for_this_step : EnergyState f → Bool
  is_non_interruptible_for_this_step energy = elim energy.interruption_class [
    | none ↦ false
    | some m ↦
        if str_eq energy.resolved_action_name ""
        then true
        else resolved_unkillable (class_of energy.resolved_action_name m)
  ]

  unfoldable pub interruption_class_unresolved : EnergyState f → Bool
  interruption_class_unresolved energy = elim energy.interruption_class [
    | none ↦ false
    | some m ↦ str_eq energy.resolved_action_name ""
  ]

  -- `none` is a nil state. The test on the threshold is `<= 0`, false on a NaN.
  unfoldable pub should_monitor_energy : Option (EnergyState f) → Bool
  should_monitor_energy none = false
  should_monitor_energy (some energy) =
      if f.le energy.execution_threshold_j (f.of_int 0)
      then false
      else not (interruption_class_unresolved energy)

  with_map :
      (energy : EnergyState f) (m : List (String × String))
      → energy.interruption_class ≡ some m
      → (should_monitor_energy (some energy) ≡ true → str_eq energy.resolved_action_name "" ≡ false)
        × (is_non_interruptible_for_this_step energy ≡ (
            if str_eq energy.resolved_action_name ""
            then true
            else resolved_unkillable (class_of energy.resolved_action_name m)))
  unfolding should_monitor_energy is_non_interruptible_for_this_step interruption_class_unresolved
  with_map energy m e = (λ h. ground (arith, e), rw (e, is_non_interruptible_for_this_step))

  -- A step that is monitored and counts as not interruptible has the class UNKILLABLE: the map of
  -- the classes is there, and gives UNKILLABLE for the step's own action.
  monitored_non_interruptible :
      (energy : EnergyState f)
      → should_monitor_energy (some energy) ≡ true
      → is_non_interruptible_for_this_step energy ≡ true
      → (m : List (String × String)) × (energy.interruption_class ≡ some m)
        × (class_of energy.resolved_action_name m ≡ some "UNKILLABLE")
  unfolding is_non_interruptible_for_this_step
  monitored_non_interruptible energy h u = elim (Option-cases energy.interruption_class) [
    | inl e ↦ cc (rw (e, is_non_interruptible_for_this_step) at u)
    | inr (m, e) ↦ (
      m,
      e,
      unkillable_class (class_of energy.resolved_action_name m)
          (ground (arith, (with_map energy m e).0 h, (with_map energy m e).1)),
    )
  ]
