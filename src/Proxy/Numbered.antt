-- ===== src/Proxy/Numbered.antt =====
-- openwhisk/extractor.go: the numbers of the folders, and the folder that ExtractAction makes.
use openwhisk_runtime_go.Base.{
  ℕ, ◌≤◌, ◌<◌, ◌≡◌, Option, none, some, List, [], ◌∷◌, ◌++◌, ◌⊎◌, inl, inr, arith, refl, ◌∙◌, ap,
  Bool-cases, Option-cases,
}
use openwhisk_runtime_go.Base.Int64.{lt, half, modulus}
use openwhisk_runtime_go.Base.Text.{Bytes, same, same_iff, parse_int, parse_int-range}
use openwhisk_runtime_go.Proxy.Folders.{
  Folder, folder, make_src, change, remove, names, higher, highest_of,
}

higher-below :
    (o : Option ℕ) (n max : ℕ) → o ≡ some n → n < modulus → max < half → higher o max < half
unfolding lt
higher-below o n max e r h = ground arith

-- One turn keeps the maximum in range, lets it grow, and is monotone.
higher_lem :
    (s : Bytes) (max : ℕ)
    → max < half
    → (higher (parse_int s) max < half) × (max ≤ higher (parse_int s) max)
unfolding lt
higher_lem s max h = elim (Option-cases (parse_int s)) [
  | inl e ↦ rw (e, higher) (h, omega arith)
  | inr (n, e) ↦ let r = parse_int-range s n e in rw (e, higher) (ground arith)
]

higher_mono :
    (s : Bytes) (a b : ℕ) → a ≤ b → b < half → higher (parse_int s) a ≤ higher (parse_int s) b
unfolding lt
higher_mono s a b l h = elim (Option-cases (parse_int s)) [
  | inl e ↦ rw (e, higher) l
  | inr (n, e) ↦ let r = parse_int-range s n e in rw (e, higher) (ground arith)
]

highest_of_lem :
    (xs : List Bytes) (max : ℕ)
    → max < half
    → (highest_of xs max < half) × (max ≤ highest_of xs max)
unfolding highest_of
highest_of_lem [] max h = (h, omega arith)
highest_of_lem (x ∷ xs) max h =
    let (below, above) = higher_lem x max h in
    let (b, a) = highest_of_lem xs (higher (parse_int x) max) below in (b, omega (arith, above, a))

highest_of_mono : (xs : List Bytes) (a b : ℕ) → a ≤ b → b < half → highest_of xs a ≤ highest_of xs b
unfolding highest_of
highest_of_mono [] a b l h = l
highest_of_mono (x ∷ xs) a b l h =
    highest_of_mono xs (higher (parse_int x) a) (higher (parse_int x) b) (higher_mono x a b l h)
      (higher_lem x b h).0

pub highest_of-snoc :
    (xs : List Bytes) (k : Bytes) (max : ℕ)
    → highest_of (xs ++ (k ∷ [])) max ≡ higher (parse_int k) (highest_of xs max)
unfolding highest_of
highest_of-snoc [] k max = refl
highest_of-snoc (x ∷ xs) k max = highest_of-snoc xs k (higher (parse_int x) max)

higher-number :
    (s : Bytes) (n max : ℕ)
    → parse_int s ≡ some n
    → n < half
    → max < half
    → n ≤ higher (parse_int s) max
unfolding lt
higher-number s n max e b h = ground (arith, e)

-- A listed number is at most the highest one.
folder-highest :
    (k : Bytes) (n : ℕ) (fs : List Folder) (max : ℕ)
    → parse_int k ≡ some n
    → n < half
    → max < half
    → (folder k fs ≡ none) ⊎ (n ≤ highest_of (names fs) max)
unfolding folder highest_of
folder-highest k n [] max p b h = inl refl
folder-highest k n (f ∷ fs) max p b h = elim (Bool-cases (same f.name k)) [
  | inl e ↦
      let (below, above) = higher_lem f.name max h in
      let (_, a) = highest_of_lem (names fs) (higher (parse_int f.name) max) below in
      inr (
        omega
          (arith, a, higher-number f.name n max (ap parse_int ((same_iff f.name k).0 e) ∙ p) b h))
  | inr e ↦
      rw (e, folder)
        (folder-highest k n fs (higher (parse_int f.name) max) p b (higher_lem f.name max h).0)
]

pub folder-fresh :
    (k : Bytes) (n : ℕ) (fs : List Folder)
    → parse_int k ≡ some n
    → n < half
    → highest_of (names fs) 0 < n
    → folder k fs ≡ none
folder-fresh k n fs p b h = elim (folder-highest k n fs 0 p b (omega arith)) [
  | inl e ↦ e
  | inr l ↦ absurd (omega arith)
]

pub names-make_src :
    (k : Bytes) (fs : List Folder)
    → folder k fs ≡ none
    → names (make_src k fs) ≡ names fs ++ (k ∷ [])
unfolding make_src folder
names-make_src k [] h = refl
names-make_src k (f ∷ fs) h = ground (arith, names-make_src k fs)

pub folder-make_src :
    (k : Bytes) (fs : List Folder)
    → folder k fs ≡ none
    → folder k (make_src k fs) ≡ some (record { name = k; src = some []; bin = none })
unfolding make_src folder
folder-make_src k [] h = ground (arith, same_iff k k)
folder-make_src k (f ∷ fs) h = ground (arith, folder-make_src k fs)

pub names-change :
    (k : Bytes) (g : Folder → Folder) (fs : List Folder)
    → ((f : Folder) → (g f).name ≡ f.name)
    → names (change k g fs) ≡ names fs
unfolding change
names-change k g [] h = refl
names-change k g (f ∷ fs) h = ground (arith, names-change k g fs h, h f)

pub folder-change :
    (k : Bytes) (g : Folder → Folder) (fs : List Folder) (f : Folder)
    → ((f : Folder) → (g f).name ≡ f.name)
    → folder k fs ≡ some f
    → folder k (change k g fs) ≡ some (g f)
unfolding change folder
folder-change k g [] f h e = ground arith
folder-change k g (x ∷ fs) f h e = ground (arith, folder-change k g fs f h, h x)

pub highest-remove :
    (k : Bytes) (fs : List Folder) (max : ℕ)
    → max < half
    → highest_of (names (remove k fs)) max ≤ highest_of (names fs) max
unfolding remove highest_of
highest-remove k [] max h = omega arith
highest-remove k (f ∷ fs) max h = elim (Bool-cases (same f.name k)) [
  | inl e ↦
      let (below, above) = higher_lem f.name max h in
      rw e (
        omega (
          arith,
          highest-remove k fs max h,
          highest_of_mono (names fs) max (higher (parse_int f.name) max) above below,
        ))
  | inr e ↦ rw e (highest-remove k fs (higher (parse_int f.name) max) (higher_lem f.name max h).0)
]
