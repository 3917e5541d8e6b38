-- ===== src/GlobalMemory/Race.antt =====
-- Look-ups of one pointer by several threads at once. `GetMapping` holds the lock shared, so the
-- increment of the count is a load and a store that other threads can come between. Each phase is that
-- of a thread in its one look-up.
use gpu_over_ip_capnp.Base.{
  ℕ, zero, suc, ◌+◌, ◌%◌, ◌^◌, ◌≤◌, ◌≡◌, refl, ap, ◌∙◌, List, [], ◌∷◌, ◌++◌, map, arith,
}

pub data Phase : Type 0 where
  idle stored : Phase
  -- the count that was loaded
  loaded : ℕ → Phase

-- The next action of the i-th thread, on the count of the entry.
pub advance : ℕ → ℕ → List Phase → ℕ × List Phase
advance count i [] = (count, [])
advance count zero (idle ∷ ts) = (count, loaded count ∷ ts)
advance count zero (loaded v ∷ ts) = ((v + 1) % 2 ^ 32, stored ∷ ts)
advance count zero (stored ∷ ts) = (count, stored ∷ ts)
advance count (suc i) (t ∷ ts) = let r = advance count i ts in (r.0, t ∷ r.1)

-- The actions in the order of a schedule.
pub run_all : List ℕ → ℕ → List Phase → ℕ × List Phase
run_all [] count ts = (count, ts)
run_all (i ∷ is) count ts = let r = advance count i ts in run_all is r.0 r.1

-- The look-ups that are over.
abbrev pub stores : List Phase → ℕ
stores [] = 0
stores (idle ∷ ts) = stores ts
stores (loaded v ∷ ts) = stores ts
stores (stored ∷ ts) = suc (stores ts)

-- No thread has loaded more than the bound.
abbrev Below : ℕ → List Phase → Type 0
Below b [] = Unit
Below b (idle ∷ ts) = Below b ts
Below b (loaded v ∷ ts) = (v ≤ b) × Below b ts
Below b (stored ∷ ts) = Below b ts

Below-mono : (a b : ℕ) (ts : List Phase) → a ≤ b → Below a ts → Below b ts
Below-mono a b [] h k = tt
Below-mono a b (idle ∷ ts) h k = Below-mono a b ts h k
Below-mono a b (loaded v ∷ ts) h k = (omega (arith, k.0), Below-mono a b ts h k.1)
Below-mono a b (stored ∷ ts) h k = Below-mono a b ts h k

-- A bound moves by as many look-ups as an action ends, one at most.
record IsStep (b count : ℕ) (ts us : List Phase) : Type 0 where
  ended : ℕ
  grown : stores us ≡ stores ts + ended
  counted : count ≤ b + ended
  below : Below (b + ended) us

advance-IsStep :
    (b count i : ℕ) (ts : List Phase)
    → count ≤ b
    → Below b ts
    → IsStep b (advance count i ts).0 ts (advance count i ts).1
unfolding advance
advance-IsStep b count i [] h k = record {
  ended = 0;
  grown = refl;
  counted = omega arith;
  below = tt;
}
advance-IsStep b count zero (idle ∷ ts) h k = record {
  ended = 0;
  grown = omega arith;
  counted = omega arith;
  below = (omega arith, Below-mono b (b + 0) ts (omega arith) k);
}
advance-IsStep b count zero (loaded v ∷ ts) h k = record {
  ended = 1;
  grown = omega arith;
  counted = omega (arith, k.0);
  below = Below-mono b (b + 1) ts (omega arith) k.1;
}
advance-IsStep b count zero (stored ∷ ts) h k = record {
  ended = 0;
  grown = omega arith;
  counted = omega arith;
  below = Below-mono b (b + 0) ts (omega arith) k;
}
advance-IsStep b count (suc i) (idle ∷ ts) h k =
    let s = advance-IsStep b count i ts h k in
    record { ended = s.ended; grown = s.grown; counted = s.counted; below = s.below }
advance-IsStep b count (suc i) (loaded v ∷ ts) h k =
    let s = advance-IsStep b count i ts h k.1 in
    record {
      ended = s.ended;
      grown = s.grown;
      counted = s.counted;
      below = (omega (arith, k.0), s.below);
    }
advance-IsStep b count (suc i) (stored ∷ ts) h k =
    let s = advance-IsStep b count i ts h k in
    record { ended = s.ended; grown = omega (arith, s.grown); counted = s.counted; below = s.below }

run_all_bounded :
    (is : List ℕ) (c count : ℕ) (ts : List Phase)
    → count ≤ c + stores ts
    → Below (c + stores ts) ts
    → (run_all is count ts).0 ≤ c + stores (run_all is count ts).1
unfolding run_all
run_all_bounded [] c count ts h k = h
run_all_bounded (i ∷ is) c count ts h k =
    let s = advance-IsStep (c + stores ts) count i ts h k in
    let r = advance count i ts in
    let same : c + stores ts + s.ended ≡ c + stores r.1 = omega (arith, s.grown) in
    run_all_bounded is c r.0 r.1 (omega (arith, s.counted, s.grown)) (rw (← same) s.below)

abbrev pub repeat : ℕ → Phase → List Phase
repeat zero t = []
repeat (suc n) t = t ∷ repeat n t

-- Each of n threads acts once, in order.
abbrev pub round : ℕ → List ℕ
round zero = []
round (suc n) = 0 ∷ map suc (round n)

run_all_later :
    (is : List ℕ) (count : ℕ) (t : Phase) (ts : List Phase)
    → run_all (map suc is) count (t ∷ ts) ≡ ((run_all is count ts).0, t ∷ (run_all is count ts).1)
unfolding run_all advance
run_all_later [] count t ts = refl
run_all_later (i ∷ is) count t ts = let r = advance count i ts in run_all_later is r.0 t r.1

run_all-append :
    (is js : List ℕ) (count : ℕ) (ts : List Phase)
    → run_all (is ++ js) count ts ≡ run_all js (run_all is count ts).0 (run_all is count ts).1
unfolding run_all
run_all-append [] js count ts = refl
run_all-append (i ∷ is) js count ts = let r = advance count i ts in run_all-append is js r.0 r.1

all_load : (n c : ℕ) → run_all (round n) c (repeat n idle) ≡ (c, repeat n (loaded c))
unfolding run_all advance
all_load zero c = refl
all_load (suc n) c =
    run_all_later (round n) c (loaded c) (repeat n idle)
    ∙ ap (λ r. (r.0, loaded c ∷ r.1)) (all_load n c)

all_store :
    (n c : ℕ)
    → run_all (round n) ((c + 1) % 2 ^ 32) (repeat n (loaded c))
      ≡ ((c + 1) % 2 ^ 32, repeat n stored)
unfolding run_all advance
all_store zero c = refl
all_store (suc n) c =
    run_all_later (round n) ((c + 1) % 2 ^ 32) stored (repeat n (loaded c))
    ∙ ap (λ r. (r.0, stored ∷ r.1)) (all_store n c)

first_store :
    (n c : ℕ)
    → run_all (round (suc n)) c (repeat (suc n) (loaded c))
      ≡ ((c + 1) % 2 ^ 32, repeat (suc n) stored)
unfolding run_all advance
first_store n c =
    run_all_later (round n) ((c + 1) % 2 ^ 32) stored (repeat n (loaded c))
    ∙ ap (λ r. (r.0, stored ∷ r.1)) (all_store n c)

-- However n + 1 look-ups of one pointer interleave, the count grows by no more than the look-ups
-- that are over; and there is an order in which all are over and only one was counted.
pub lookups_lost :
    (n c : ℕ)
    → ((is : List ℕ)
        → (run_all is c (repeat (suc n) idle)).0
          ≤ c + stores (run_all is c (repeat (suc n) idle)).1)
      × ((is : List ℕ) × (run_all is c (repeat (suc n) idle)
            ≡ ((c + 1) % 2 ^ 32, repeat (suc n) stored)))
lookups_lost n c = (
  (λ is. run_all_bounded is c c (repeat (suc n) idle) (omega arith) (none_loaded (suc n))),
  (
    round (suc n) ++ round (suc n),
    run_all-append (round (suc n)) (round (suc n)) c (repeat (suc n) idle)
        ∙ ap (λ r. run_all (round (suc n)) r.0 r.1) (all_load (suc n) c)
        ∙ first_store n c,
  ),
)
  where
    none_loaded : (k : ℕ) → Below (c + stores (repeat (suc n) idle)) (repeat k idle)
    none_loaded zero = tt
    none_loaded (suc k) = none_loaded k
