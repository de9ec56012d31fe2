-- ===== src/Stats/Runs.antt =====
-- What holds of the statistics in every order of the calls (src/stats.c).
use valiant.Prelude.{
  ℕ, zero, suc, ◌+◌, ◌%◌, ◌≤◌, ◌<◌, ◌≡◌, refl, true, false, ◌||◌, Option, some, List, [], ◌∷◌, ◌==◌,
  length, Bytes, All, arith, Bool-cases, inl, inr, ◌⊎◌, subst,
}
use valiant.Prelude.Floats.{Floats}
use valiant.Results.{DictResult, Result}
use valiant.Stats.{
  Cntr, Stats, named, create, hit, update, clear, start, turn, destroy_begin, destroy_over, Step,
  updates, starts, turns, destroys, Reach, here, next, ulong_mod,
}

-- No counter is above `n`.
abbrev Below : ℕ → List Cntr → Type 0
Below n cs = All (λ c. c.hits ≤ n) cs

-- No counter is above the number of requests, and the thread is not told to end.
pub record Sound (s : Stats) : Type 0 where
  pub counted : All (λ c. c.hits ≤ s.nreqs) s.cntrs
  pub sized : length s.cntrs ≤ s.ncntrs
  pub alive : s.dead ≡ false

Below-suc : (n : ℕ) (cs : List Cntr) → Below n cs → Below (suc n) cs
Below-suc n [] h = tt
Below-suc n (c ∷ cs) h = (omega (arith, h.0), Below-suc n cs h.1)

named-Below : (names : List (Option Bytes)) → Below 0 (named names)
unfolding named
named-Below [] = tt
named-Below (n ∷ names) = (omega arith, named-Below names)

clear-Below : (n m : ℕ) (cs : List Cntr) → length cs ≤ n → Below 0 (clear n cs)
unfolding clear
clear-Below zero m [] h = tt
clear-Below zero m (c ∷ cs) h = absurd (omega arith)
clear-Below (suc n) m [] h = tt
clear-Below (suc n) m (c ∷ cs) h = (omega arith, clear-Below n m cs (omega arith))

length-named : (names : List (Option Bytes)) → length (named names) ≡ length names
unfolding named
length-named [] = refl
length-named (n ∷ names) = omega (arith, length-named names)

length-clear : (n : ℕ) (cs : List Cntr) → length (clear n cs) ≡ length cs
unfolding clear
length-clear zero cs = refl
length-clear (suc n) [] = refl
length-clear (suc n) (c ∷ cs) = omega (arith, length-clear n cs)

create-Sound : (now : ℕ) (names : List (Option Bytes)) → Sound (create now names)
unfolding create
create-Sound now names = record {
  counted = named-Below names;
  sized = omega (arith, length-named names);
  alive = refl;
}

turn-Sound : (s : Stats) (now : ℕ) → Sound s → Sound (turn s now)
unfolding turn
turn-Sound s now h =
    rw (turn, h.alive)
      (record {
        counted = clear-Below s.ncntrs 0 s.cntrs h.sized;
        sized = omega (arith, h.sized, length-clear s.ncntrs s.cntrs);
        alive = refl;
      })

module _ (F : Floats) where
  length-hit :
      (n : ℕ) (cs : List Cntr) (rs : List (DictResult F)) → length (hit F n cs rs) ≡ length cs
  unfolding hit
  length-hit zero cs rs = refl
  length-hit (suc n) [] rs = refl
  length-hit (suc n) (c ∷ cs) [] = refl
  length-hit (suc n) (c ∷ cs) (r ∷ rs) = omega (arith, length-hit n cs rs)

  hit-Below :
      (n m : ℕ) (cs : List Cntr) (rs : List (DictResult F))
      → m + 1 < ulong_mod
      → Below m cs
      → Below (suc m) (hit F n cs rs)
  unfolding hit
  hit-Below zero m cs rs k h = Below-suc m cs h
  hit-Below (suc n) m [] rs k h = tt
  hit-Below (suc n) m (c ∷ cs) [] k h = Below-suc m (c ∷ cs) h
  hit-Below (suc n) m (c ∷ cs) (r ∷ rs) k h = (ground (arith, h.0), hit-Below n m cs rs k h.1)

  update-Sound :
      (s t : Stats) (res : Result F)
      → s.nreqs + 1 < ulong_mod
      → Sound s
      → update F s res ≡ some t
      → Sound t
  unfolding update
  update-Sound s t res k h e = elim (Bool-cases (s.ncntrs == res.nresults)) [
    | inl b ↦
        let eq : record s {
          nreqs = (s.nreqs + 1) % ulong_mod;
          cntrs = hit F s.ncntrs s.cntrs res.results;
        }
            ≡ t =
          ground arith in
        subst Sound eq (record {
          counted =
              subst (λ n. Below n (hit F s.ncntrs s.cntrs res.results)) (omega arith)
                (hit-Below s.ncntrs s.nreqs s.cntrs res.results k h.counted);
          sized = omega (arith, h.sized, length-hit s.ncntrs s.cntrs res.results);
          alive = h.alive;
        })
    | inr b ↦ absurd (ground arith)
  ]

  worker_stays : (s t : Stats) → s.dead ≡ false → s.worker ≡ true → Step F s t → t.worker ≡ true
  unfolding update start turn destroy_begin
  worker_stays s t d w (updates res u k e) = ground arith
  worker_stays s t d w starts = ground arith
  worker_stays s t d w (turns now k) = ground arith
  worker_stays s t d w destroys = w

  Step-Sound : (s t : Stats) → Sound s → Step F s t → Sound t
  unfolding start destroy_begin
  Step-Sound s t h (updates res u k e) = update-Sound s t res k h e
  Step-Sound s t h starts = elim (Bool-cases (s.worker || s.dead)) [
    | inl e ↦ simp (start, e) h
    | inr e ↦ simp (start, e) (record { counted = h.counted; sized = h.sized; alive = h.alive })
  ]
  Step-Sound s t h (turns now k) = turn-Sound s now h
  Step-Sound s t h destroys = h

  Reach-Sound : (s t : Stats) → Sound s → Reach F s t → Sound t
  Reach-Sound s t h here = h
  Reach-Sound s t h (next u v r k) = Step-Sound u t (Reach-Sound s u h r) k

  Reach-worker : (s t : Stats) → Sound s → s.worker ≡ true → Reach F s t → t.worker ≡ true
  Reach-worker s t h w here = w
  Reach-worker s t h w (next u v r k) =
      worker_stays u v (Reach-Sound s u h r).alive (Reach-worker s u h w r) k

  -- In every order of the calls of the threads, from the creation on, where there are fewer requests
  -- than an unsigned long counts, no counter is above the number of requests, and the thread that
  -- reports is never told to end: once it runs, the loop of a destroy is never over.
  pub Reach_lem :
      (now : ℕ) (names : List (Option Bytes)) (s t : Stats)
      → Reach F (create now names) s
      → Reach F s t
      → Sound t × ((s.worker ≡ false) ⊎ (destroy_over t ≡ false))
  unfolding destroy_over
  Reach_lem now names s t r q = (
    Reach-Sound s t (Reach-Sound _ s (create-Sound now names) r) q,
    elim (Bool-cases s.worker) [
      | inr e ↦ inl e
      | inl e ↦
          inr (ground (arith, Reach-worker s t (Reach-Sound _ s (create-Sound now names) r) e q))
    ],
  )
