-- ===== src/Proxy/Once.antt =====
-- openwhisk/initHandler.go and openwhisk/runHandler.go: the lock on the initialisation over any
-- sequence of requests, and what is left of a container once its executor is gone.
use openwhisk_runtime_go.Base.{
  ℕ, ◌≡◌, ◌⊎◌, inl, inr, ◌&&◌, ◌||◌, true, false, not, none, some, List, [], ◌∷◌, ◌++◌, arith, refl,
  Option-cases, subst, if◌then◌else◌, ◌∙◌, ap,
}
use openwhisk_runtime_go.Attribution.{Platform}
use openwhisk_runtime_go.Sidecar.Json.{Numbers}
use openwhisk_runtime_go.Recording.{Measurement}
use openwhisk_runtime_go.Run.{RunInputs, rejected, unchanged, reinjected, run_handler}
use openwhisk_runtime_go.Proxy.Extraction.{Tools, Settings}
use openwhisk_runtime_go.Proxy.Launch.{Proxy}
use openwhisk_runtime_go.Proxy.Init.{InitReply, ok, dropped, error, init_handler}
use openwhisk_runtime_go.Proxy.Served.{
  Request, init, run, metric, elsewhere, Effect, recorded, posted, init_answered, run_answered,
  init_effects, serve, serve_all, accepted, is_present,
}
use openwhisk_runtime_go.Proxy.Locked.{
  Locks, init_handler-Locks, init_handler-locked, accepted-append, accepted-run_effects, Refusals,
  run_handler-absent,
}

module _ (p : Platform) (n : Numbers p.float) (t : Tools) (s : Settings) where
  abbrev run_on : RunInputs p n → Proxy → RunInputs p n
  run_on r px = record r { has_executor = is_present p n t s px.executor }

  -- One request: at most one acceptance, which closes the lock; the lock stays closed.
  abbrev Once : Proxy → Proxy → ℕ → Type 0
  Once px px' accepts =
      ((accepts ≡ 0) × (px'.initialized ≡ px.initialized))
      ⊎ ((px.initialized ≡ false) × (accepts ≡ 1) × (px'.initialized ≡ true))

  init_effects-Once :
      (m : Measurement p) (px px' : Proxy) (reply : InitReply)
      → ((px.initialized ≡ true) → (reply ≡ error 403))
      → Locks p n t s px (reply, px')
      → Once px px' (accepted p n t s (init_effects p n t s m reply))
  init_effects-Once m px px' ok k h = ground (arith, k, h)
  init_effects-Once m px px' dropped k h = inl (refl, h)
  init_effects-Once m px px' (error status) k h = inl (refl, h)

  once :
      (px px' px'' : Proxy) (a b : List (Effect p n t s))
      → a ≡ b
      → px' ≡ px''
      → Once px px' (accepted p n t s a)
      → Once px px'' (accepted p n t s b)
  once px px' px'' a b h k o = ground (arith, h, k, o)

  serve-Once :
      (q : Request p n t s) (px px' : Proxy) (es : List (Effect p n t s))
      → s.debugging ≡ false
      → serve p n t s q px ≡ some (es, px')
      → Once px px' (accepted p n t s es)
  unfolding serve
  serve-Once metric px px' es d h = inl (ground (arith, h))
  serve-Once elsewhere px px' es d h = inl (ground (arith, h))
  serve-Once (init r m) px px' es d h =
      let (reply, px1) = init_handler t s r px in
      once px px1 px' (init_effects p n t s m reply) es (ground (arith, h)) (ground (arith, h)) (
        init_effects-Once m px px1 reply
          (λ i. ap (λ (z : InitReply × Proxy). z.0) (init_handler-locked p n t s r px d i))
          (init_handler-Locks p n t s r px))
  serve-Once (run r m) px px' es d h = elim (Option-cases (run_handler p n (run_on r px))) [
    | inl e ↦ absurd (ground (arith, e, h))
    | inr (v, e) ↦ inl (ground (arith, e, h, accepted-run_effects p n t s (run_on r px) m v))
  ]

  serve_all-Once :
      (qs : List (Request p n t s)) (px px' : Proxy) (es : List (Effect p n t s))
      → s.debugging ≡ false
      → serve_all p n t s qs px ≡ some (es, px')
      → Once px px' (accepted p n t s es)
  unfolding serve_all
  serve_all-Once [] px px' es d h = inl (ground (arith, h))
  serve_all-Once (q ∷ qs) px px' es d h = elim (Option-cases (serve p n t s q px)) [
    | inl a ↦ absurd (ground (arith, a, h))
    | inr ((first, px1), a) ↦ elim (Option-cases (serve_all p n t s qs px1)) [
      | inl b ↦ absurd (ground (arith, a, b, h))
      | inr ((later, px2), b) ↦ ground (
        arith,
        a,
        b,
        h,
        serve-Once q px px1 first d a,
        serve_all-Once qs px1 px2 later d b,
        accepted-append p n t s first later,
      )
    ]
  ]

  -- Outside debugging, over any requests that are all served, from any proxy and in any order: /init
  -- answers ok exactly once if the proxy was not initialised before and is after, and never
  -- otherwise; and a proxy that is initialised stays so.
  pub serve_all-accepts_once :
      (qs : List (Request p n t s)) (px px' : Proxy) (es : List (Effect p n t s))
      → s.debugging ≡ false
      → serve_all p n t s qs px ≡ some (es, px')
      → (accepted p n t s es ≡ (if not px.initialized && px'.initialized then 1 else 0))
        × ((not px.initialized || px'.initialized) ≡ true)
  serve_all-accepts_once qs px px' es d h = ground (arith, serve_all-Once qs px px' es d h)

  Refusals-append :
      (xs ys : List (Effect p n t s))
      → Refusals p n t s xs
      → Refusals p n t s ys
      → Refusals p n t s (xs ++ ys)
  Refusals-append [] ys h k = k
  Refusals-append (init_answered (error status) ∷ xs) ys h k = (h.0, Refusals-append xs ys h.1 k)
  Refusals-append (run_answered (rejected status) ∷ xs) ys h k = (h.0, Refusals-append xs ys h.1 k)
  Refusals-append (recorded m ∷ xs) ys h k = elim h [ ]
  Refusals-append (posted j ∷ xs) ys h k = elim h [ ]
  Refusals-append (init_answered ok ∷ xs) ys h k = elim h [ ]
  Refusals-append (init_answered dropped ∷ xs) ys h k = elim h [ ]
  Refusals-append (run_answered (unchanged out) ∷ xs) ys h k = elim h [ ]
  Refusals-append (run_answered (reinjected m) ∷ xs) ys h k = elim h [ ]

  refused : (a b : List (Effect p n t s)) → a ≡ b → Refusals p n t s a → Refusals p n t s b
  refused a b h = subst (Refusals p n t s) h

  serve-dead :
      (q : Request p n t s) (px px' : Proxy) (es : List (Effect p n t s))
      → s.debugging ≡ false
      → px.initialized ≡ true
      → px.executor ≡ none
      → serve p n t s q px ≡ some (es, px')
      → (px' ≡ px) × Refusals p n t s es
  unfolding serve
  serve-dead metric px px' es d i x h = (ground (arith, h), refused [] es (ground (arith, h)) tt)
  serve-dead elsewhere px px' es d i x h = (ground (arith, h), refused [] es (ground (arith, h)) tt)
  serve-dead (init r m) px px' es d i x h =
      let locked = init_handler-locked p n t s r px d i in
      (
        ground (arith, h, locked),
        refused (init_answered (error 403) ∷ []) es (ground (arith, h, locked)) (refl, tt),
      )
  serve-dead (run r m) px px' es d i x h =
      elim (run_handler-absent p n t s (run_on r px) (ground (arith, x))) [
        | inl e ↦ (
          ground (arith, h, e),
          refused (run_answered (rejected 400) ∷ []) es (ground (arith, h, e)) (inl refl, tt),
        )
        | inr e ↦ (
          ground (arith, h, e, x),
          refused (run_answered (rejected 500) ∷ []) es (ground (arith, h, e)) (inr refl, tt),
        )
      ]

  -- Outside debugging, once the proxy is initialised and its executor is gone (as after a kill):
  -- over any requests that are all served, /init answers 403 and /run 400 or 500, nothing is
  -- recorded or posted any more, and the proxy stays the same.
  pub serve_all-dead :
      (qs : List (Request p n t s)) (px px' : Proxy) (es : List (Effect p n t s))
      → s.debugging ≡ false
      → px.initialized ≡ true
      → px.executor ≡ none
      → serve_all p n t s qs px ≡ some (es, px')
      → (px' ≡ px) × Refusals p n t s es
  unfolding serve_all
  serve_all-dead [] px px' es d i x h = (ground (arith, h), refused [] es (ground (arith, h)) tt)
  serve_all-dead (q ∷ qs) px px' es d i x h = elim (Option-cases (serve p n t s q px)) [
    | inl a ↦ absurd (ground (arith, a, h))
    | inr ((first, px1), a) ↦ elim (Option-cases (serve_all p n t s qs px1)) [
      | inl b ↦ absurd (ground (arith, a, b, h))
      | inr ((later, px2), b) ↦
          let (same1, refusals1) = serve-dead q px px1 first d i x a in
          let (same2, refusals2) =
            serve_all-dead qs px1 px2 later d (ap (λ (y : Proxy). y.initialized) same1 ∙ i)
              (ap (λ (y : Proxy). y.executor) same1 ∙ x) b in
          (
            ground (arith, a, b, h, same1, same2),
            refused (first ++ later) es (ground (arith, a, b, h))
                (Refusals-append first later refusals1 refusals2),
          )
    ]
  ]
