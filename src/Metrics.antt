-- ===== src/Metrics.antt =====
-- openwhisk/metricHandler.go: Metrics, the store of the last entries of each endpoint. Entries are
-- a parameter; the lock makes each method one step.
use openwhisk_runtime_go.Base.{
  ℕ, ◌-◌, ◌≤◌, ◌<◌, ◌≡◌, inl, inr, refl, Bool, false, ◌&&◌, List, [], ◌∷◌, ◌++◌, String,
  if◌then◌else◌, ltb, str_eq, eq_iff, length, drop, length-drop, arith, Bool-cases,
}

module _ {Entry : Type 0} (is_blank : Entry → Bool) where
  -- A Go map of slices; the limit is not negative.
  pub record Metrics : Type 0 where
    pub data_of : List (String × List Entry)
    pub limit : ℕ

  unfoldable pub new_metrics : ℕ → Metrics
  new_metrics limit = record { data_of = []; limit = limit }

  -- m.data[endpoint], and its assignment.
  unfoldable pub entries : String → List (String × List Entry) → List Entry
  entries endpoint [] = []
  entries endpoint ((k, s) ∷ rest) = if str_eq k endpoint then s else entries endpoint rest

  unfoldable pub assign :
      String → List Entry → List (String × List Entry) → List (String × List Entry)
  assign endpoint s [] = (endpoint, s) ∷ []
  assign endpoint s ((k, t) ∷ rest) =
      let later = assign endpoint s rest in
      if str_eq k endpoint then (k, s) ∷ rest else (k, t) ∷ later

  -- The slice after the append, cut to the limit; a limit of 0 is none.
  unfoldable pub cut : ℕ → List Entry → List Entry
  cut limit s = if ltb 0 limit && ltb limit (length s) then drop (length s - limit) s else s

  -- An entry whose Start and End are both 0 is left out.
  unfoldable pub add : String → Entry → Metrics → Metrics
  unfolding cut
  add endpoint entry m = if is_blank entry then m else record m {
    data_of = assign endpoint (cut m.limit (entries endpoint m.data_of ++ entry ∷ [])) m.data_of;
  }

  entries-assign :
      (k endpoint : String) (s : List Entry) (d : List (String × List Entry))
      → entries k (assign endpoint s d) ≡ (if str_eq endpoint k then s else entries k d)
  unfolding entries assign
  entries-assign k endpoint s [] = ground arith
  entries-assign k endpoint s ((j, t) ∷ rest) =
      ground
        (arith, entries-assign k endpoint s rest, eq_iff j endpoint, eq_iff j k, eq_iff endpoint k)

  unfoldable pub add_all : List (String × Entry) → Metrics → Metrics
  unfolding add
  add_all [] m = m
  add_all ((endpoint, entry) ∷ es) m = add_all es (add endpoint entry m)

  cut-bounded : (limit : ℕ) (s : List Entry) → 0 < limit → length (cut limit s) ≤ limit
  unfolding cut
  cut-bounded limit s h = ground (arith, length-drop (length s - limit) s)

  -- After an entry that is not blank: its endpoint holds the entries it held with the new one last,
  -- less the oldest ones above the limit; every other endpoint holds what it held.
  entries-add :
      (endpoint k : String) (entry : Entry) (m : Metrics)
      → is_blank entry ≡ false
      → entries k (add endpoint entry m).data_of ≡ (
          if str_eq endpoint k
          then cut m.limit (entries endpoint m.data_of ++ entry ∷ [])
          else entries k m.data_of)
  unfolding add
  entries-add endpoint k entry m h = ground (
    arith,
    entries-assign k endpoint (cut m.limit (entries endpoint m.data_of ++ entry ∷ [])) m.data_of,
  )

  abbrev IsBounded : ℕ → Metrics → Type 0
  IsBounded limit m = (m.limit ≡ limit) × ((k : String) → length (entries k m.data_of) ≤ limit)

  add-IsBounded :
      (limit : ℕ) (endpoint : String) (entry : Entry) (m : Metrics)
      → 0 < limit
      → IsBounded limit m
      → IsBounded limit (add endpoint entry m)
  unfolding add
  add-IsBounded limit endpoint entry m pos h = elim (Bool-cases (is_blank entry)) [
    | inl e ↦ rw (e, add) h
    | inr e ↦ (
      ground (arith, e, h.0),
      λ k. ground (
        arith,
        e,
        h.0,
        h.1 k,
        entries-add endpoint k entry m e,
        cut-bounded limit (entries endpoint m.data_of ++ entry ∷ []) pos,
      ),
    )
  ]

  add_all-IsBounded :
      (limit : ℕ) (es : List (String × Entry)) (m : Metrics)
      → 0 < limit
      → IsBounded limit m
      → IsBounded limit (add_all es m)
  unfolding add_all
  add_all-IsBounded limit [] m pos h = h
  add_all-IsBounded limit ((endpoint, entry) ∷ es) m pos h =
      add_all-IsBounded limit es (add endpoint entry m) pos
        (add-IsBounded limit endpoint entry m pos h)

  -- With a positive limit, after any number of added entries: no endpoint holds more than the limit.
  add_all-bounded :
      (limit : ℕ) (es : List (String × Entry)) (k : String)
      → 0 < limit
      → length (entries k (add_all es (new_metrics limit)).data_of) ≤ limit
  unfolding new_metrics entries
  add_all-bounded limit es k pos =
      (add_all-IsBounded limit es (new_metrics limit) pos (refl, λ j. omega arith)).1 k
