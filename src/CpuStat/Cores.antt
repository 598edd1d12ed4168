-- ===== src/CpuStat/Cores.antt =====
-- openwhisk/metrics_helpers.go: parseCoreMask, countCores and countAllCores. A bound of a range holds
-- no minus sign, so its value is not negative.
use openwhisk_runtime_go.Base.{
  ℕ, zero, suc, ◌+◌, ◌-◌, ◌≤◌, ◌<◌, ◌≡◌, ◌≢◌, ◌⊎◌, ◌↔◌, inl, inr, refl, Bool, true, false, not,
  ◌&&◌, ◌||◌, Option, none, some, List, [], ◌∷◌, if◌then◌else◌, ◌==◌, length, Any, arith,
  Option-cases, Bool-cases,
}
use openwhisk_runtime_go.Base.Text.{
  Bytes, codes, same, same_iff, has_prefix, split, trim_space, parse_int,
}

-- The set is a list without repetitions.
unfoldable pub elem : ℕ → List ℕ → Bool
elem i [] = false
elem i (c ∷ cores) = (i == c) || elem i cores

abbrev pub IsNodup : List ℕ → Type 0
IsNodup [] = Unit
IsNodup (c ∷ cores) = (elem c cores ≡ false) × IsNodup cores

-- cores[id] = true
unfoldable pub put : ℕ → List ℕ → List ℕ
unfolding elem
put i cores = if elem i cores then cores else i ∷ cores

-- The loop from `lo` over `k` ids.
unfoldable put_range : ℕ → ℕ → List ℕ → List ℕ
unfolding put
put_range lo zero cores = cores
put_range lo (suc k) cores = put_range (suc lo) k (put lo cores)

-- The ids that a part of the mask names, as the first one and their number.
unfoldable bounds_range : List Bytes → Option (ℕ × ℕ)
unfolding parse_int
bounds_range (bound ∷ []) = elim (parse_int bound) [ none ↦ none | some i ↦ some (i, 1) ]
bounds_range (low ∷ high ∷ []) = elim (parse_int low) [
  | none ↦ none
  | some lo ↦ elim (parse_int high) [ none ↦ none | some hi ↦ some (lo, (hi + 1) - lo) ]
]
bounds_range _ = none

unfoldable pub put_part : Bytes → List ℕ → List ℕ
unfolding put_range bounds_range split trim_space
put_part part cores = elim (bounds_range (split b'-' (trim_space part))) [
  | none ↦ cores
  | some (lo, k) ↦ put_range lo k cores
]

unfoldable pub put_parts : List Bytes → List ℕ → List ℕ
unfolding put_part
put_parts [] cores = cores
put_parts (part ∷ parts) cores = put_parts parts (put_part part cores)

unfoldable pub parse_core_mask : Bytes → List ℕ
unfolding put_parts split
parse_core_mask mask = if same mask [] then [] else put_parts (split b',' mask) []

unfoldable pub count_cores : Bytes → ℕ
unfolding parse_core_mask
count_cores mask = if same mask [] then 0 else length (parse_core_mask mask)

-- The lines of /proc/stat that name one core.
unfoldable core_lines : List Bytes → ℕ
unfolding has_prefix
core_lines [] = 0
core_lines (line ∷ lines) =
    let rest = core_lines lines in
    if has_prefix (codes "cpu") line && not (has_prefix (codes "cpu ") line) then suc rest else rest

-- On the contents of /proc/stat, `none` where it cannot be read.
unfoldable count_all_cores : Option Bytes → ℕ
unfolding core_lines split
count_all_cores none = 1
count_all_cores (some contents) =
    if core_lines (split 10 contents) == 0 then 1 else core_lines (split 10 contents)

put-elem : (i j : ℕ) (cores : List ℕ) → elem i (put j cores) ≡ ((i == j) || elem i cores)
unfolding put elem
put-elem i j cores = ground arith

put-IsNodup : (j : ℕ) (cores : List ℕ) → IsNodup cores → IsNodup (put j cores)
unfolding put
put-IsNodup j cores h = ground arith

put_range-elem :
    (k lo i : ℕ) (cores : List ℕ)
    → (elem i (put_range lo k cores) ≡ true) ↔ (((lo ≤ i) × (i < lo + k)) ⊎ (elem i cores ≡ true))
unfolding put_range
put_range-elem zero lo i cores = ground arith
put_range-elem (suc k) lo i cores =
    ground (arith, put_range-elem k (suc lo) i (put lo cores), put-elem i lo cores)

put_range-IsNodup : (k lo : ℕ) (cores : List ℕ) → IsNodup cores → IsNodup (put_range lo k cores)
unfolding put_range
put_range-IsNodup zero lo cores h = h
put_range-IsNodup (suc k) lo cores h =
    put_range-IsNodup k (suc lo) (put lo cores) (put-IsNodup lo cores h)

-- The part names the core `i`: it is a number, or two numbers with `i` between them.
abbrev NamesBounds : ℕ → List Bytes → Type 0
NamesBounds i (bound ∷ []) = parse_int bound ≡ some i
NamesBounds i (low ∷ high ∷ []) =
    (lo : ℕ) × (hi : ℕ) × (parse_int low ≡ some lo)
    × (parse_int high ≡ some hi)
    × (lo ≤ i)
    × (i ≤ hi)
NamesBounds i _ = ⊥

abbrev pub Names : ℕ → Bytes → Type 0
Names i part = NamesBounds i (split b'-' (trim_space part))

abbrev InRange : ℕ → Option (ℕ × ℕ) → Type 0
InRange i none = ⊥
InRange i (some (lo, k)) = (lo ≤ i) × (i < lo + k)

bounds_range-InRange :
    (i : ℕ) (bounds : List Bytes) → InRange i (bounds_range bounds) ↔ NamesBounds i bounds
unfolding bounds_range
bounds_range-InRange i [] = ((λ h. h), (λ h. h))
bounds_range-InRange i (a ∷ b ∷ c ∷ rest) = ((λ h. h), (λ h. h))
bounds_range-InRange i (bound ∷ []) = elim (Option-cases (parse_int bound)) [
  | inl e ↦ rw (e, bounds_range) ((λ h. elim h [ ]), λ h. cc h)
  | inr (j, e) ↦ rw (e, bounds_range) (ground arith)
]
bounds_range-InRange i (low ∷ high ∷ []) = elim (Option-cases (parse_int low)) [
  | inl e ↦ rw (e, bounds_range) ((λ h. elim h [ ]), λ (lo, hi, a, b, c, d). absurd (cc a))
  | inr (lo, e) ↦ elim (Option-cases (parse_int high)) [
    | inl f ↦
        rw (e, bounds_range)
          (rw (f, bounds_range) ((λ h. elim h [ ]), λ (lo, hi, a, b, c, d). absurd (cc b)))
    | inr (hi, f) ↦
        rw (e, bounds_range)
          (rw (f, bounds_range)
            (
              (λ h. (lo, hi, refl, refl, h.0, omega (arith, h.1))),
              λ (lo', hi', a, b, c, d). ground (arith, a, b, c, d),
            ))
  ]
]

put_part-elem :
    (i : ℕ) (part : Bytes) (cores : List ℕ)
    → (elem i (put_part part cores) ≡ true) ↔ (Names i part ⊎ (elem i cores ≡ true))
unfolding put_part
put_part-elem i part cores =
    let named = bounds_range-InRange i (split b'-' (trim_space part)) in
    elim (Option-cases (bounds_range (split b'-' (trim_space part)))) [
      | inl e ↦
          rw (e, put_part)
            ((λ h. inr h), λ h. elim h [ inl n ↦ elim (rw e at (named.1 n)) [ ] | inr was ↦ was ])
      | inr ((lo, k), e) ↦
          let range = put_range-elem k lo i cores in
          rw (e, put_part)
            (
              (λ h. elim (range.0 h) [
                | inl in_range ↦ inl (named.0 (rw e in_range))
                | inr was ↦ inr was
              ]),
              λ h. elim h [
                | inl n ↦ range.1 (inl (rw e at (named.1 n)))
                | inr was ↦ range.1 (inr was)
              ],
            )
    ]

put_part-IsNodup : (part : Bytes) (cores : List ℕ) → IsNodup cores → IsNodup (put_part part cores)
unfolding put_part
put_part-IsNodup part cores h = elim (Option-cases (bounds_range (split b'-' (trim_space part)))) [
  | inl e ↦ rw (e, put_part) h
  | inr ((lo, k), e) ↦ rw (e, put_part) (put_range-IsNodup k lo cores h)
]

put_parts-lem :
    (i : ℕ) (parts : List Bytes) (cores : List ℕ)
    → IsNodup cores
    → IsNodup (put_parts parts cores)
      × ((elem i (put_parts parts cores) ≡ true) ↔ (Any (Names i) parts ⊎ (elem i cores ≡ true)))
unfolding put_parts
put_parts-lem i [] cores h = (h, ((λ e. inr e), λ s. elim s [ inl n ↦ elim n [ ] | inr e ↦ e ]))
put_parts-lem i (part ∷ parts) cores h =
    let later = put_parts-lem i parts (put_part part cores) (put_part-IsNodup part cores h) in
    let first = put_part-elem i part cores in
    (
      later.0,
      (
        (λ e. elim (later.1.0 e) [
          | inl n ↦ inl (inr n)
          | inr was ↦ elim (first.0 was) [ inl n ↦ inl (inl n) | inr before ↦ inr before ]
        ]),
        λ s. elim s [
          | inl (inl n) ↦ later.1.1 (inr (first.1 (inl n)))
          | inl (inr n) ↦ later.1.1 (inl n)
          | inr was ↦ later.1.1 (inr (first.1 (inr was)))
        ],
      ),
    )

-- The set that a mask stands for: it holds a core exactly if some part of the mask, between commas,
-- is that number or a range around it, and it holds no core twice; countCores is its size.
parse_core_mask-elem :
    (i : ℕ) (mask : Bytes)
    → mask ≢ []
    → IsNodup (parse_core_mask mask)
      × ((elem i (parse_core_mask mask) ≡ true) ↔ Any (Names i) (split b',' mask))
      × (count_cores mask ≡ length (parse_core_mask mask))
unfolding parse_core_mask count_cores
parse_core_mask-elem i mask h =
    let set = put_parts-lem i (split b',' mask) [] tt in
    elim (Bool-cases (same mask [])) [
      | inl e ↦ absurd (h ((same_iff mask []).0 e))
      | inr e ↦
          rw (e, parse_core_mask, count_cores)
            (
              set.0,
              ((λ q. elim (set.1.0 q) [ inl n ↦ n | inr e ↦ cc e ]), λ n. set.1.1 (inl n)),
              refl,
            )
    ]
