-- ===== src/Attribution/Bounds.antt =====
-- openwhisk/metrics_helpers.go: bounds of deltaRAPLUJ and attributionDetail.
use openwhisk_runtime_go.Base.{
  ℕ, ◌+◌, ◌-◌, ◌*◌, ◌≤◌, ◌<◌, ◌≡◌, ◌⊎◌, false, arith, inl, inr, Bool-cases,
}
use openwhisk_runtime_go.Base.Int64
use openwhisk_runtime_go.Base.Float64.{Float64}
use openwhisk_runtime_go.Attribution.{
  Platform, CpuSnapshot, delta_rapl_uj, attribution_detail, attributed_energy_uj, capped_ratio,
  duration_usec, nb_cores, not_positive,
}

module _ (p : Platform) where
  open p.float use {Carrier, of_int, to_int, mul, div, lt}

  -- On counters that are not negative and stay below the register's range, the energy between two
  -- reads is their difference, or that of a register that has gone once past its range, or 0; and
  -- it never exceeds the range.
  pub delta_rapl_uj_cases :
      (start end : ℕ)
      → p.rapl_max < Int64.half
      → start ≤ p.rapl_max
      → end ≤ p.rapl_max
      → (delta_rapl_uj p start end ≤ p.rapl_max)
        × (((start ≤ end) × (delta_rapl_uj p start end ≡ end - start))
            ⊎ ((end < start)
                × ((delta_rapl_uj p start end ≡ 0)
                    ⊎ (delta_rapl_uj p start end ≡ p.rapl_max - start + end))))
  unfolding delta_rapl_uj Int64.le Int64.sub Int64.add
  delta_rapl_uj_cases start end m s e = ground arith

  duration_range : (s s' : CpuSnapshot) → duration_usec p s s' < Int64.modulus
  unfolding duration_usec
  duration_range s s' = Int64.div_range (Int64.sub s'.wall_ns s.wall_ns) 1000

  pub attributed_range :
      (e e' : ℕ) (s s' : CpuSnapshot) → attributed_energy_uj p e e' s s' < Int64.modulus
  unfolding attributed_energy_uj attribution_detail
  attributed_range e e' s s' = ground (
    arith,
    p.float.to_int_range (
        mul (of_int (delta_rapl_uj p e e')) (
          capped_ratio p (Int64.sub s'.process_ticks s.process_ticks)
            (Int64.mul (duration_usec p s s') (nb_cores p)))),
  )

-- What IEEE 754 says of the finite doubles, with x <= y as not y < x: the order, that an int64 and
-- a quotient of int64 by one that is not 0 are finite, that multiplying by 1.0 changes nothing, and
-- by 0.0 gives 0.0, that rounding keeps the order of products, that an integer below 2 ^ 53 is held
-- exactly, and that a conversion back truncates, which keeps the order where there is no overflow.
pub record IsRounding (f : Float64) : Type 1 where
  pub IsFinite : f.Carrier → Type 0
  pub lt_irreflexive : (x : f.Carrier) → f.lt x x ≡ false
  pub of_int-IsFinite : (n : ℕ) → IsFinite (f.of_int n)
  pub div-IsFinite :
      (a b : ℕ) → 0 < b → b < Int64.modulus → IsFinite (f.div (f.of_int a) (f.of_int b))
  pub div_nonneg :
      (a b : ℕ)
      → a < Int64.half
      → 0 < b
      → b < Int64.half
      → f.lt (f.div (f.of_int a) (f.of_int b)) (f.of_int 0) ≡ false
  pub mul-IsFinite :
      (n : ℕ) (x : f.Carrier)
      → IsFinite x
      → f.lt x (f.of_int 0) ≡ false
      → f.lt (f.of_int 1) x ≡ false
      → IsFinite (f.mul (f.of_int n) x)
  pub mul_one : (x : f.Carrier) → IsFinite x → f.mul x (f.of_int 1) ≡ x
  pub mul_zero : (n : ℕ) → n < Int64.half → f.mul (f.of_int n) (f.of_int 0) ≡ f.of_int 0
  pub mul_monotone :
      (n : ℕ) (x y : f.Carrier)
      → n < Int64.half
      → IsFinite x
      → IsFinite y
      → f.lt y x ≡ false
      → f.lt (f.mul (f.of_int n) y) (f.mul (f.of_int n) x) ≡ false
  pub to_int-of_int : (n : ℕ) → n < 9007199254740992 → f.to_int (f.of_int n) ≡ n
  pub to_int_monotone :
      (x y : f.Carrier)
      → IsFinite x
      → IsFinite y
      → f.lt x (f.of_int 0) ≡ false
      → f.lt y x ≡ false
      → f.lt (f.of_int 9007199254740991) y ≡ false
      → f.to_int x ≤ f.to_int y
  pub of_int_monotone :
      (m n : ℕ) → m ≤ n → n < 9007199254740992 → f.lt (f.of_int n) (f.of_int m) ≡ false

module _ (p : Platform) (rounding : IsRounding p.float) where
  open p.float use {of_int, to_int, mul, div, lt}

  -- A factor between 0.0 and 1.0 does not take an integer above itself.
  mul_fraction :
      (n : ℕ) (x : p.float.Carrier)
      → n < 9007199254740992
      → rounding.IsFinite x
      → lt x (of_int 0) ≡ false
      → lt (of_int 1) x ≡ false
      → to_int (mul (of_int n) x) ≤ n
  mul_fraction n x h finite low high =
      let small : n < Int64.half = omega (arith, h) in
      let product = rounding.mul-IsFinite n x finite low high in
      let above =
        rw (rounding.mul_zero n small) at
          (rounding.mul_monotone n (of_int 0) x small (rounding.of_int-IsFinite 0) finite low) in
      let below =
        rw (rounding.mul_one (of_int n) (rounding.of_int-IsFinite n)) at
          (rounding.mul_monotone n x (of_int 1) small finite (rounding.of_int-IsFinite 1) high) in
      let bound = rounding.of_int_monotone n 9007199254740991 (omega (arith, h)) (omega arith) in
      let kept =
        rounding.to_int_monotone (mul (of_int n) x) (of_int n) product (rounding.of_int-IsFinite n)
          above below bound in
      rw (rounding.to_int-of_int n h) at kept

  capped_share :
      (n a b : ℕ)
      → n < 9007199254740992
      → a < Int64.half
      → 0 < b
      → b < Int64.half
      → to_int (mul (of_int n) (capped_ratio p a b)) ≤ n
  unfolding capped_ratio
  capped_share n a b hn ha hb hb' = elim (Bool-cases (lt (of_int 1) (div (of_int a) (of_int b)))) [
    | inl e ↦
        rw (e, capped_ratio)
          (mul_fraction n (of_int 1) hn (rounding.of_int-IsFinite 1)
            (rounding.of_int_monotone 0 1 (omega arith) (omega arith))
            (rounding.lt_irreflexive (of_int 1)))
    | inr e ↦
        rw (e, capped_ratio)
          (mul_fraction n (div (of_int a) (of_int b)) hn
            (rounding.div-IsFinite a b hb (omega (arith, hb'))) (rounding.div_nonneg a b ha hb hb')
            e)
  ]

  share-le :
      (delta process duration cores : ℕ)
      → delta < 9007199254740992
      → process < Int64.modulus
      → duration < Int64.modulus
      → not_positive process ≡ false
      → not_positive duration ≡ false
      → 0 < cores
      → duration * cores < Int64.half
      → p.float.to_int
          (p.float.mul (p.float.of_int delta) (capped_ratio p process (Int64.mul duration cores)))
        ≤ delta
  share-le delta process duration cores hd rp rd sp sd c o =
      rw (Int64.mul_exact duration cores (omega arith)) (
        capped_share delta process (duration * cores) hd (Int64.positive process rp sp).1
          (grind (arith, Int64.positive duration rd sd)) o)

  -- The energy attributed to the container is at most the energy of the node: for a node's energy
  -- below 2 ^ 53 microjoules, at least one core, and a product of duration and cores that does not
  -- overflow.
  pub attributed-le-delta :
      (e e' : ℕ) (s s' : CpuSnapshot)
      → delta_rapl_uj p e e' < 9007199254740992
      → 0 < nb_cores p
      → duration_usec p s s' * nb_cores p < Int64.half
      → attributed_energy_uj p e e' s s' ≤ delta_rapl_uj p e e'
  unfolding attributed_energy_uj attribution_detail
  attributed-le-delta e e' s s' h c o = ground (
    arith,
    share-le (delta_rapl_uj p e e') (Int64.sub s'.process_ticks s.process_ticks)
        (duration_usec p s s') (nb_cores p) h (Int64.sub_range _ _) (duration_range p s s'),
  )
