-- ===== src/Orchestration/Schedule/Waves/Sound.antt =====
-- Every node of a topological order finds its wave, behind those of its predecessors.
use jacu_harness.Base.{
  ℕ, zero, suc, ◌≤◌, ◌<◌, ◌≡◌, refl, sym, ap, ◌∙◌, subst, String, true, false, ◌||◌, List, [], ◌∷◌,
  some, arith, eq_iff, eq_refl, ◌==◌, String-comparable, ℕ-comparable, Bool-cases, inl, inr,
  contains, All, length,
}
use jacu_harness.Base.Distinct.{Distinct}
use jacu_harness.Orchestration.Schedule.{
  Link, has_link, predecessors_of, min_wave, Placed, noted, place_all,
}
use jacu_harness.Orchestration.Schedule.Links.{contains-predecessors}
use jacu_harness.Orchestration.Schedule.Order.{Topological}
use jacu_harness.Orchestration.Schedule.Waves.{in_waves, DistinctWaves, AtWave, FreeWave}
use jacu_harness.Orchestration.Schedule.Waves.Put.{
  Found, put_in_wave-Found, in_waves-Put, Put-DistinctWaves, Put-AtWave, Put-here, Put-FreeWave,
}

pub record IsPlaced (paths : String → List String) (links : List Link) (seen : List String)
    (p : Placed) : Type 0 where
  pub once : DistinctWaves p.waves
  pub same : (x : String) → in_waves p.waves x ≡ contains seen x
  pub at : (x : String) → contains seen x ≡ true → AtWave p.waves (p.wave_of x) x
  pub free : All (FreeWave paths) p.waves
  pub ordered :
      (u v : String)
      → contains seen v ≡ true
      → has_link links u v ≡ true
      → (contains seen u ≡ true) × (p.wave_of u < p.wave_of v)

-- None of the order was seen before, and none comes twice.
abbrev pub FreshFrom : List String → List String → Type 0
FreshFrom seen [] = Unit
FreshFrom seen (x ∷ xs) = (contains seen x ≡ false) × FreshFrom (x ∷ seen) xs

AtWave-length : (ws : List (List String)) (i : ℕ) (x : String) → AtWave ws i x → i < length ws
AtWave-length [] i x h = elim h [ ]
AtWave-length (w ∷ ws) zero x h = omega arith
AtWave-length (w ∷ ws) (suc i) x h = omega (arith, AtWave-length ws i x h)

min_wave_bound :
    (wave_of : String → ℕ) (ps : List String) (n : ℕ)
    → ((p : String) → contains ps p ≡ true → wave_of p < n)
    → min_wave wave_of ps ≤ n
unfolding min_wave
min_wave_bound wave_of [] n h = omega arith
min_wave_bound wave_of (p ∷ ps) n h =
    let one = h p (ground (arith, eq_refl p)) in
    let rest = min_wave_bound wave_of ps n (λ q k. h q (ground arith)) in omega arith

min_wave_above :
    (wave_of : String → ℕ) (ps : List String) (p : String)
    → contains ps p ≡ true
    → wave_of p < min_wave wave_of ps
unfolding min_wave
min_wave_above wave_of [] p h = absurd (ground arith)
min_wave_above wave_of (q ∷ ps) p h = elim (Bool-cases (q == p)) [
  | inl t ↦ let e : q ≡ p = (eq_iff q p).0 t in let same = ap wave_of e in omega arith
  | inr t ↦ omega (arith, min_wave_above wave_of ps p (ground arith))
]

module _ (paths : String → List String) (links : List Link) where
  module _ (seen : List String) (p : Placed) (id : String) (i : IsPlaced paths links seen p)
      (fresh : contains seen id ≡ false)
      (behind : (u : String) → has_link links u id ≡ true → contains seen u ≡ true) where
    abbrev preds : List String
    preds = predecessors_of links id

    pred_seen : (u : String) → contains preds u ≡ true → contains seen u ≡ true
    pred_seen u h = behind u (sym (contains-predecessors links id u) ∙ h)

    least_fits : min_wave p.wave_of preds ≤ length p.waves
    least_fits =
        min_wave_bound p.wave_of preds (length p.waves)
          (λ u h. AtWave-length p.waves (p.wave_of u) u (i.at u (pred_seen u h)))

    pub found : Found paths id (min_wave p.wave_of preds) p.waves
    found = put_in_wave-Found paths id (min_wave p.wave_of preds) p.waves least_fits

    abbrev pub next : Placed
    next = record { waves = found.waves; wave_of = noted p.wave_of id found.at }

    noted_other :
        (x : String) → contains seen x ≡ true → noted p.wave_of id found.at x ≡ p.wave_of x
    noted_other x h = ground (arith, eq_iff x id)

    noted_self : noted p.wave_of id found.at id ≡ found.at
    noted_self = ground (arith, eq_refl id)

    at_next : (x : String) → contains (id ∷ seen) x ≡ true → AtWave next.waves (next.wave_of x) x
    at_next x h = elim (Bool-cases (id == x)) [
      | inl t ↦
          let e : id ≡ x = (eq_iff id x).0 t in
          subst (λ k. AtWave found.waves (noted p.wave_of id found.at k) k) e
            (subst (λ n. AtWave found.waves n id) (sym noted_self) (Put-here paths id found.put))
      | inr t ↦
          let known : contains seen x ≡ true = ground arith in
          subst (λ n. AtWave found.waves n x) (sym (noted_other x known))
            (Put-AtWave paths id found.put (p.wave_of x) x (i.at x known))
    ]

    ordered_next :
        (u v : String)
        → contains (id ∷ seen) v ≡ true
        → has_link links u v ≡ true
        → (contains (id ∷ seen) u ≡ true) × (next.wave_of u < next.wave_of v)
    ordered_next u v h link = elim (Bool-cases (id == v)) [
      | inl t ↦
          let e : id ≡ v = (eq_iff id v).0 t in
          let to_id : has_link links u id ≡ true =
            subst (λ k. has_link links u k ≡ true) (sym e) link in
          let known = behind u to_id in
          let above = min_wave_above p.wave_of preds u (contains-predecessors links id u ∙ to_id) in
          let least = found.from_least in
          (
            ground arith,
            subst (λ k. next.wave_of u < next.wave_of k) e
                (omega (arith, noted_other u known, noted_self)),
          )
      | inr t ↦
          let known : contains seen v ≡ true = ground arith in
          let (seen_u, less) = i.ordered u v known link in
          (ground arith, omega (arith, noted_other u seen_u, noted_other v known))
    ]

    pub next-IsPlaced : IsPlaced paths links (id ∷ seen) next
    next-IsPlaced = record {
      once = Put-DistinctWaves paths id found.put (i.same id ∙ fresh) i.once;
      same = λ x. ground (arith, in_waves-Put paths id found.put x, i.same x);
      at = at_next;
      free = Put-FreeWave paths id found.put i.free;
      ordered = ordered_next;
    }

  -- The ids seen when all of the order is placed.
  abbrev pub onto : List String → List String → List String
  onto seen [] = seen
  onto seen (x ∷ xs) = onto (x ∷ seen) xs

  pub place_all-IsPlaced :
      (seen ids : List String) (p : Placed)
      → IsPlaced paths links seen p
      → Topological links seen ids
      → FreshFrom seen ids
      → (out : Placed) × (place_all paths links ids p ≡ some out)
        × IsPlaced paths links (onto seen ids) out
  unfolding place_all
  place_all-IsPlaced seen [] p i t f = (p, refl, i)
  place_all-IsPlaced seen (id ∷ ids) p i t f =
      let here = found seen p id i f.0 t.0 in
      let (out, runs, placed) =
        place_all-IsPlaced (id ∷ seen) ids (next seen p id i f.0 t.0)
          (next-IsPlaced seen p id i f.0 t.0) t.1 f.1 in
      (out, rw (here.result, place_all) runs, placed)

pub contains-onto :
    (paths : String → List String) (links : List Link) (seen xs : List String) (x : String)
    → contains (onto paths links seen xs) x ≡ contains seen x || contains xs x
contains-onto paths links seen [] x = ground arith
contains-onto paths links seen (y ∷ xs) x =
    ground (arith, contains-onto paths links (y ∷ seen) xs x)

pub Distinct-FreshFrom :
    (seen xs : List String)
    → Distinct xs
    → ((x : String) → contains xs x ≡ true → contains seen x ≡ false)
    → FreshFrom seen xs
Distinct-FreshFrom seen [] d h = tt
Distinct-FreshFrom seen (x ∷ xs) d h = (
  h x (ground (arith, eq_refl x)),
  Distinct-FreshFrom (x ∷ seen) xs d.1 (λ y k. ground (arith, h y, eq_iff x y)),
)
