-- ===== src/Recording/Ledger.antt =====
-- openwhisk/metrics_helpers.go: sequences of calls of recordMetricsImpl, and the pushes they make.
use mathlib.Core.List.{append_assoc, append-nil}
use openwhisk_runtime_go.Base.{
  ◌≡◌, ◌⊎◌, inl, inr, refl, sym, subst, ap, ◌∙◌, Bool, true, false, Option, none, some, List, [],
  ◌∷◌, ◌++◌, if◌then◌else◌, arith, Bool-cases,
}
use openwhisk_runtime_go.Attribution.{Platform}
use openwhisk_runtime_go.Recording.{
  Entry, Push, Books, Measurement, is_run, entry_of, tagged, pushes_of, record_metrics_impl,
}

taken : {A : Type 0} (b : Bool) (x y : A) → b ≡ true → (if b then x else y) ≡ x
taken true x y h = refl
taken false x y h = ground (arith, h)

module _ (p : Platform) where
  unfoldable pub record_all : List (Measurement p) → Books p → Books p
  record_all [] b = b
  record_all (m ∷ ms) b = record_all ms (record_metrics_impl p m b)

  -- The entries of the activations measured, and of those pushed under /run.
  abbrev pub runs_measured : List (Measurement p) → List (Entry p)
  runs_measured [] = []
  runs_measured (m ∷ ms) =
      let rest = runs_measured ms in if is_run m.endpoint then entry_of p m ∷ rest else rest

  abbrev pub runs_pushed : List (Push p) → List (Entry p)
  runs_pushed [] = []
  runs_pushed (x ∷ xs) =
      let rest = runs_pushed xs in if is_run x.endpoint then x.entry ∷ rest else rest

  -- A push under /init stands right before one under /run, with its trace, activation and phase.
  abbrev SameActivation : Entry p → Entry p → Type 0
  SameActivation a b =
      (a.trace_id ≡ b.trace_id)
      × (a.activation_id ≡ b.activation_id)
      × (a.execution_phase ≡ b.execution_phase)

  abbrev pub IsPaired : List (Push p) → Type 0
  IsPaired [] = Unit
  IsPaired (x ∷ []) = x.endpoint ≡ "/run"
  IsPaired (x ∷ y ∷ xs) =
      ((x.endpoint ≡ "/run")
        ⊎ ((x.endpoint ≡ "/init") × (y.endpoint ≡ "/run") × SameActivation x.entry y.entry))
      × IsPaired (y ∷ xs)

  IsPaired-append : (xs ys : List (Push p)) → IsPaired xs → IsPaired ys → IsPaired (xs ++ ys)
  IsPaired-append [] ys h k = k
  IsPaired-append (x ∷ []) [] h k = h
  IsPaired-append (x ∷ []) (y ∷ ys) h k = (inl h, k)
  IsPaired-append (x ∷ y ∷ xs) ys h k = (h.0, IsPaired-append (y ∷ xs) ys h.1 k)

  runs_pushed-append :
      (xs ys : List (Push p)) → runs_pushed (xs ++ ys) ≡ runs_pushed xs ++ runs_pushed ys
  runs_pushed-append [] ys = refl
  runs_pushed-append (x ∷ xs) ys = ground (arith, runs_pushed-append xs ys)

  pushes_of-IsPaired :
      (sync : Bool) (entry : Entry p) (pending : Option (Entry p))
      → IsPaired (pushes_of p sync entry pending)
  unfolding tagged
  pushes_of-IsPaired sync entry none = refl
  pushes_of-IsPaired sync entry (some pending) = (inr (refl, refl, (refl, refl, refl)), refl)

  runs_pushed-pushes_of :
      (sync : Bool) (entry : Entry p) (pending : Option (Entry p))
      → runs_pushed (pushes_of p sync entry pending) ≡ entry ∷ []
  runs_pushed-pushes_of sync entry none = refl
  runs_pushed-pushes_of sync entry (some pending) = refl

  runs_measured-cons :
      (m : Measurement p) (ms : List (Measurement p))
      → runs_measured (m ∷ ms) ≡ runs_measured (m ∷ []) ++ runs_measured ms
  runs_measured-cons m ms = ground arith

  -- What one call adds.
  record_metrics_impl-pushed :
      (m : Measurement p) (b : Books p)
      → (more : List (Push p)) × ((record_metrics_impl p m b).pushed ≡ b.pushed ++ more)
        × IsPaired more
        × (runs_pushed more ≡ runs_measured (m ∷ []))
  unfolding record_metrics_impl
  record_metrics_impl-pushed m b = elim (Bool-cases (is_run m.endpoint)) [
    | inl e ↦ (
      pushes_of p m.sync (entry_of p m) b.pending_init,
      rw (e, record_metrics_impl) refl,
      pushes_of-IsPaired m.sync (entry_of p m) b.pending_init,
      runs_pushed-pushes_of m.sync (entry_of p m) b.pending_init
          ∙ sym (taken (is_run m.endpoint) (entry_of p m ∷ []) [] e),
    )
    | inr e ↦ ([], rw (e, record_metrics_impl) (sym (append-nil b.pushed)), tt, rw e refl)
  ]

  -- From any books whose pushes are paired, over any calls in any order of /init and /run: the
  -- pushes stay paired, that is each push of an /init is right before the push of a /run and
  -- carries its trace, activation and phase; and the entries pushed for /run are those pushed
  -- before and then exactly the entry of each /run measured, once and in order.
  pub record_all-pushed :
      (ms : List (Measurement p)) (b : Books p)
      → IsPaired b.pushed
      → IsPaired (record_all ms b).pushed
        × (runs_pushed (record_all ms b).pushed ≡ runs_pushed b.pushed ++ runs_measured ms)
  unfolding record_all
  record_all-pushed [] b h = (h, sym (append-nil (runs_pushed b.pushed)))
  record_all-pushed (m ∷ ms) b h =
      let (more, added, paired, runs) = record_metrics_impl-pushed m b in
      let later =
        record_all-pushed ms (record_metrics_impl p m b)
          (subst IsPaired (sym added) (IsPaired-append b.pushed more h paired)) in
      (
        later.0,
        later.1
            ∙ ap (λ xs. runs_pushed xs ++ runs_measured ms) added
            ∙ ap (λ (xs : List (Entry p)). xs ++ runs_measured ms)
                (runs_pushed-append b.pushed more)
            ∙ append_assoc (runs_pushed b.pushed) (runs_pushed more) (runs_measured ms)
            ∙ ap (λ (xs : List (Entry p)). runs_pushed b.pushed ++ (xs ++ runs_measured ms)) runs
            ∙ ap (λ (xs : List (Entry p)). runs_pushed b.pushed ++ xs)
                (sym (runs_measured-cons m ms)),
      )
