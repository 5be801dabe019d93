-- ===== src/Orchestration/Schedule/Waves/Put.antt =====
-- One node is put into a wave: at the least index or behind it, where no other node conflicts.
use mathlib.Core.Bool.{false≢true}
use jacu_harness.Base.{
  ℕ, zero, suc, ◌≤◌, ◌≡◌, refl, sym, ◌∙◌, subst, String, true, false, ◌||◌, List, [], ◌∷◌, ◌++◌,
  some, arith, eq_iff, eq_refl, ◌==◌, String-comparable, Bool-cases, inl, inr, contains,
  contains-In, any, All, length,
}
use jacu_harness.Base.Distinct.{contains-append, Distinct-append_one}
use jacu_harness.Scope.{lists_conflict}
use jacu_harness.Scope.Lists.{In-any, lists_conflict_comm}
use jacu_harness.Orchestration.Schedule.{put_in_wave}
use jacu_harness.Orchestration.Schedule.Waves.{in_waves, DistinctWaves, AtWave, FreeWave}

module _ (paths : String → List String) (id : String) where
  -- The waves before, the index, and the waves after.
  pub data Put : List (List String) → ℕ → List (List String) → Type 0 where
    opened : Put [] 0 ((id ∷ []) ∷ [])
    joined :
        {w : List String} {ws : List (List String)}
        → any (λ o. lists_conflict (paths id) (paths o)) w ≡ false
        → Put (w ∷ ws) 0 ((w ++ id ∷ []) ∷ ws)
    behind :
        {w : List String} {ws ws' : List (List String)} {at : ℕ}
        → Put ws at ws'
        → Put (w ∷ ws) (suc at) (w ∷ ws')

  -- What the loop gives.
  pub record Found (least : ℕ) (ws : List (List String)) : Type 0 where
    pub waves : List (List String)
    pub at : ℕ
    pub result : put_in_wave paths id least ws ≡ some (waves, at)
    pub put : Put ws at waves
    pub from_least : least ≤ at

  found_behind :
      (least less : ℕ) (w : List String) (ws : List (List String))
      → ((p : List (List String)) (i : ℕ)
          → put_in_wave paths id less ws ≡ some (p, i)
          → put_in_wave paths id least (w ∷ ws) ≡ some (w ∷ p, suc i))
      → ((i : ℕ) → less ≤ i → least ≤ suc i)
      → Found less ws
      → Found least (w ∷ ws)
  found_behind least less w ws r m f = record {
    waves = w ∷ f.waves;
    at = suc f.at;
    result = r f.waves f.at f.result;
    put = behind f.put;
    from_least = m f.at f.from_least;
  }

  pub put_in_wave-Found : (least : ℕ) (ws : List (List String)) → least ≤ length ws → Found least ws
  unfolding put_in_wave
  put_in_wave-Found zero [] h = record {
    waves = (id ∷ []) ∷ [];
    at = 0;
    result = refl;
    put = opened;
    from_least = omega arith;
  }
  put_in_wave-Found (suc least) [] h = absurd (omega arith)
  put_in_wave-Found (suc least) (w ∷ ws) h =
      found_behind (suc least) least w ws (λ p i e. rw e refl) (λ i k. omega arith)
        (put_in_wave-Found least ws (omega arith))
  put_in_wave-Found zero (w ∷ ws) h =
      elim (Bool-cases (any (λ o. lists_conflict (paths id) (paths o)) w)) [
        | inl t ↦
            found_behind 0 0 w ws (λ p i e. rw (t, e) refl) (λ i k. omega arith)
              (put_in_wave-Found zero ws (omega arith))
        | inr t ↦ record {
          waves = (w ++ id ∷ []) ∷ ws;
          at = 0;
          result = rw t refl;
          put = joined t;
          from_least = omega arith;
        }
      ]

  pub in_waves-Put :
      {ws ws' : List (List String)} {at : ℕ}
      → Put ws at ws'
      → (x : String) → in_waves ws' x ≡ in_waves ws x || id == x
  in_waves-Put opened x = ground arith
  in_waves-Put (joined {w} t) x = ground (arith, contains-append w (id ∷ []) x)
  in_waves-Put (behind p) x = ground (arith, in_waves-Put p x)

  pub Put-DistinctWaves :
      {ws ws' : List (List String)} {at : ℕ}
      → Put ws at ws'
      → in_waves ws id ≡ false
      → DistinctWaves ws
      → DistinctWaves ws'
  Put-DistinctWaves opened n d = ((refl, tt), λ x h. refl, tt)
  Put-DistinctWaves (joined {w} t) n d = (
    Distinct-append_one w id d.0 (ground arith),
    λ x h. ground (arith, contains-append w (id ∷ []) x, d.1 x, eq_iff id x),
    d.2,
  )
  Put-DistinctWaves (behind {w} p) n d = (
    d.0,
    λ x h. ground (arith, in_waves-Put p x, d.1 x, eq_iff id x),
    Put-DistinctWaves p (ground arith) d.2,
  )

  pub Put-AtWave :
      {ws ws' : List (List String)} {at : ℕ}
      → Put ws at ws'
      → (i : ℕ) (x : String) → AtWave ws i x
      → AtWave ws' i x
  Put-AtWave opened i x h = elim h [ ]
  Put-AtWave (joined {w} t) zero x h = ground (arith, contains-append w (id ∷ []) x)
  Put-AtWave (joined {w} t) (suc i) x h = h
  Put-AtWave (behind p) zero x h = h
  Put-AtWave (behind p) (suc i) x h = Put-AtWave p i x h

  pub Put-here : {ws ws' : List (List String)} {at : ℕ} → Put ws at ws' → AtWave ws' at id
  Put-here opened = ground (arith, eq_refl id)
  Put-here (joined {w} t) = ground (arith, contains-append w (id ∷ []) id, eq_refl id)
  Put-here (behind p) = Put-here p

  no_conflict :
      (w : List String) (a : String)
      → any (λ o. lists_conflict (paths id) (paths o)) w ≡ false
      → contains w a ≡ true
      → lists_conflict (paths id) (paths a) ≡ false
  no_conflict w a t h = elim (Bool-cases (lists_conflict (paths id) (paths a))) [
    | inr f ↦ f
    | inl c ↦ absurd (
        false≢true
          (sym t ∙ In-any (λ o. lists_conflict (paths id) (paths o)) w a (contains-In w a h) c))
  ]

  append-FreeWave :
      (w : List String)
      → any (λ o. lists_conflict (paths id) (paths o)) w ≡ false
      → FreeWave paths w
      → FreeWave paths (w ++ id ∷ [])
  append-FreeWave w t f a b ha hb n = elim (Bool-cases (contains w a)) [
    | inl ka ↦ elim (Bool-cases (contains w b)) [
      | inl kb ↦ f a b ka kb n
      | inr kb ↦
          subst (λ k. lists_conflict (paths a) (paths k) ≡ false) (last b hb kb)
            (lists_conflict_comm (paths a) (paths id) ∙ no_conflict w a t ka)
    ]
    | inr ka ↦
        subst (λ k. lists_conflict (paths k) (paths b) ≡ false) (last a ha ka)
          (no_conflict w b t
            (ground (arith, contains-append w (id ∷ []) b, eq_iff id b, last a ha ka)))
  ]
    where
      last : (c : String) → contains (w ++ id ∷ []) c ≡ true → contains w c ≡ false → id ≡ c
      last c h k = ground (arith, contains-append w (id ∷ []) c, eq_iff id c)

  pub Put-FreeWave :
      {ws ws' : List (List String)} {at : ℕ}
      → Put ws at ws'
      → All (FreeWave paths) ws
      → All (FreeWave paths) ws'
  Put-FreeWave opened f = (λ a b ha hb n. absurd (n (ground (arith, eq_iff id a, eq_iff id b))), tt)
  Put-FreeWave (joined {w} t) f = (append-FreeWave w t f.0, f.1)
  Put-FreeWave (behind p) f = (f.0, Put-FreeWave p f.1)
