-- ===== src/Providers/Routing.antt =====
-- Which provider serves a request.
use glassrail.Common.{
  Bool, Bool-cases, List, List-cases, Option, [], all, ap, arith, false, filter, inl, inr, int_leb,
  int_leb_refl, none, refl, some, subst, sym, take, true, ℤ, ◌++◌, ◌||◌, ◌∷◌, ◌≡◌, ◌⊎◌,
}
use glassrail.Providers.{
  Stream, Provider, RouterError, Served, is_eligible, clamp_tokens, failed, attempt,
  fails_health_check, try_each, complete,
}

module _ {C : Type 0} where
  -- The stream brings nothing, so that the router goes on.
  abbrev pub brings_nothing : Stream C → Bool
  brings_nothing Stream.unavailable = true
  brings_nothing Stream.empty = true
  brings_nothing _ = false

  abbrev pub passed_over : Bool → ℤ → Provider C → Bool
  passed_over json_mode max_tokens p =
      fails_health_check p || brings_nothing (p.complete json_mode max_tokens)

  -- `p` is the first that is not passed over.
  pub record IsFirst (json_mode : Bool) (max_tokens : ℤ) (ps : List (Provider C)) (p : Provider C)
      : Type 0 where
    pub before : List (Provider C)
    pub after : List (Provider C)
    pub split : ps ≡ before ++ p ∷ after
    pub passed : all (passed_over json_mode max_tokens) before ≡ true
    pub chosen : passed_over json_mode max_tokens p ≡ false

  -- What a call yields by the stream of the provider `p`: the provider's own exception before the
  -- first chunk, all chunks, or the chunks up to an exception.
  pub data Serves (p : Provider C) : Stream C → Served C → Type 0 where
    breaks_off :
        Serves p Stream.broken (record { by = none; yielded = []; error = some RouterError.raised })
    answers :
        (first : C) (later : List C)
        → Serves p
            (Stream.chunks first later false)
            (record { by = some p; yielded = first ∷ later; error = none })
    interrupted :
        (first : C) (later : List C)
        → Serves p
            (Stream.chunks first later true)
            (record { by = some p; yielded = first ∷ later; error = some RouterError.raised })

  attempt-Serves :
      (p : Provider C) (st : Stream C) (next : Served C)
      → brings_nothing st ≡ false
      → Serves p st (attempt p st next)
  unfolding attempt
  attempt-Serves p Stream.unavailable next h = absurd (ground arith)
  attempt-Serves p Stream.broken next h = Serves.breaks_off
  attempt-Serves p Stream.empty next h = absurd (ground arith)
  attempt-Serves p (Stream.chunks first later true) next h = Serves.interrupted first later
  attempt-Serves p (Stream.chunks first later false) next h = Serves.answers first later

  attempt_nothing :
      (p : Provider C) (st : Stream C) (next : Served C)
      → brings_nothing st ≡ true
      → attempt p st next ≡ next
  unfolding attempt
  attempt_nothing p Stream.unavailable next h = refl
  attempt_nothing p Stream.broken next h = absurd (ground arith)
  attempt_nothing p Stream.empty next h = refl
  attempt_nothing p (Stream.chunks first later breaks) next h = absurd (ground arith)

  abbrev pub Outcome : Bool → ℤ → List (Provider C) → Served C → Type 0
  Outcome json_mode max_tokens ps r =
      (all (passed_over json_mode max_tokens) ps ≡ true) × (r ≡ failed RouterError.exhausted)
      ⊎ ((p : Provider C) × IsFirst json_mode max_tokens ps p
          × Serves p (p.complete json_mode max_tokens) r)

  try_each-Outcome :
      (json_mode : Bool) (max_tokens : ℤ) (ps : List (Provider C))
      → Outcome json_mode max_tokens ps (try_each json_mode max_tokens ps)
  unfolding try_each all
  try_each-Outcome json_mode max_tokens [] = inl (refl, refl)
  try_each-Outcome json_mode max_tokens (p ∷ ps) =
      elim (Bool-cases (passed_over json_mode max_tokens p)) [
        | inl skip ↦
            subst (Outcome json_mode max_tokens (p ∷ ps)) (sym (goes_on skip))
              (elim (try_each-Outcome json_mode max_tokens ps) [
                | inl (every, e) ↦ inl (ground arith, e)
                | inr (q, first, serves) ↦ inr (
                  q,
                  record {
                    before = p ∷ first.before;
                    after = first.after;
                    split = ap (λ xs. p ∷ xs) first.split;
                    passed = ground (arith, first.passed);
                    chosen = first.chosen;
                  },
                  serves,
                )
              ])
        | inr take ↦ inr (
          p,
          record { before = []; after = ps; split = refl; passed = refl; chosen = take },
          serves_first take,
        )
      ]
    where
      goes_on :
          passed_over json_mode max_tokens p ≡ true
          → try_each json_mode max_tokens (p ∷ ps) ≡ try_each json_mode max_tokens ps
      goes_on h = ground (
        arith,
        attempt_nothing p (p.complete json_mode max_tokens) (try_each json_mode max_tokens ps),
      )

      serves_first :
          passed_over json_mode max_tokens p ≡ false
          → Serves p (p.complete json_mode max_tokens) (try_each json_mode max_tokens (p ∷ ps))
      serves_first h =
          rw (try_each, not_failing)
            (attempt-Serves p (p.complete json_mode max_tokens) (try_each json_mode max_tokens ps)
              (ground (arith, h)))
        where
          not_failing : fails_health_check p ≡ false
          not_failing = ground (arith, h)

-- The number of tokens that a provider is asked for: never above the ceiling, and the wanted
-- number, unless that is above the ceiling, which is asked for in its place.
pub record IsAsked (ceiling : Option ℤ) (max_tokens asked : ℤ) : Type 0 where
  pub within : (c : ℤ) → ceiling ≡ some c → int_leb asked c ≡ true
  pub chosen :
      (asked ≡ max_tokens)
      ⊎ ((c : ℤ) × (ceiling ≡ some c) × (int_leb max_tokens c ≡ false) × (asked ≡ c))

clamp_tokens-IsAsked :
    (ceiling : Option ℤ) (max_tokens : ℤ)
    → IsAsked ceiling max_tokens (clamp_tokens ceiling max_tokens)
unfolding clamp_tokens
clamp_tokens-IsAsked none max_tokens = record { within = λ c e. cc; chosen = inl refl }
clamp_tokens-IsAsked (some top) max_tokens = elim (Bool-cases (int_leb max_tokens top)) [
  | inl e ↦ rw e (record { within = λ c same. ground (arith, e, same); chosen = inl refl })
  | inr e ↦ rw e (record {
    within = λ c same. ground (arith, same, int_leb_refl top);
    chosen = inr (top, refl, e, refl);
  })
]

module _ {C : Type 0} where
  -- A request for which no provider's tier is in range fails at once. Every other request is served
  -- by the first provider in range that is not passed over for its health, for being unavailable or
  -- for an empty stream, and by it alone: with all its chunks, or those before its exception, or its
  -- exception before the first. If all are passed over, the request is exhausted. All are asked for the
  -- same number of tokens: the wanted one, or the ceiling, if there is one and the wanted one is above.
  pub complete_lem :
      (ceiling : Option ℤ) (ps : List (Provider C)) (min_tier : ℤ) (max_tier : Option ℤ)
      (json_mode : Bool) (max_tokens : ℤ)
      → let eligible = filter (is_eligible min_tier max_tier) ps in
        (eligible ≡ [])
          × (complete ceiling ps min_tier max_tier json_mode max_tokens
              ≡ failed RouterError.no_providers)
        ⊎ ((asked : ℤ) × IsAsked ceiling max_tokens asked
            × Outcome json_mode asked eligible
                (complete ceiling ps min_tier max_tier json_mode max_tokens))
  unfolding complete
  complete_lem ceiling ps min_tier max_tier json_mode max_tokens =
      let asked = clamp_tokens ceiling max_tokens in
      elim (List-cases (filter (is_eligible min_tier max_tier) ps)) [
        | inl e ↦ inl (e, rw e refl)
        | inr (x, xs, e) ↦ inr (
          asked,
          clamp_tokens-IsAsked ceiling max_tokens,
          rw e (try_each-Outcome json_mode asked (x ∷ xs)),
        )
      ]
