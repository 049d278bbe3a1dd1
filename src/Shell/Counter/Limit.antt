-- ===== src/Shell/Counter/Limit.antt =====
-- What the threads have counted.
use operating_systems_and_sy.Prelude.{
  ℕ, zero, suc, ◌+◌, ◌%◌, ◌^◌, ◌<◌, ◌≤◌, ◌≡◌, refl, ap, sym, ◌∙◌, List, [], ◌∷◌, some, get_elem?,
  set, length, length-set, arith, ◌⊎◌, inl, inr, get_elem?_lt,
}
use operating_systems_and_sy.Shell.Counter.{
  Place, testing, locking, counting, unlocking, finished, TWork, Owner, unlocked, by_thread,
  Counter, work, created, goes, Step, go, below, reached, lock, increment, unlock, Reach, here,
  step,
}

abbrev pub sum_of : (TWork → ℕ) → List TWork → ℕ
sum_of f [] = 0
sum_of f (t ∷ l) = f t + sum_of f l

-- A thread that has passed the test and not counted yet.
abbrev pub is_late : TWork → ℕ
is_late t = late t.place
  where
    late : Place → ℕ
    late locking = 1
    late counting = 1
    late p = 0

sum_of-set :
    (f : TWork → ℕ) (l : List TWork) (i : ℕ) (t u : TWork)
    → get_elem? l i ≡ some t
    → sum_of f (set l i u) + f t ≡ sum_of f l + f u
sum_of-set f [] i t u h = absurd (cc h)
sum_of-set f (v ∷ l) zero t u h = let e : v ≡ t = cc h in rw e (omega arith)
sum_of-set f (v ∷ l) (suc i) t u h = omega (arith, sum_of-set f l i t u h)

sum_of_ge :
    (f : TWork → ℕ) (l : List TWork) (i : ℕ) (t : TWork) → get_elem? l i ≡ some t → f t ≤ sum_of f l
sum_of_ge f [] i t h = absurd (cc h)
sum_of_ge f (v ∷ l) zero t h = let e : v ≡ t = cc h in rw e (omega arith)
sum_of_ge f (v ∷ l) (suc i) t h = omega (arith, sum_of_ge f l i t h)

late_le : (t : TWork) → is_late t ≤ 1
late_le t = ground arith

sum_late_le : (l : List TWork) → sum_of is_late l ≤ length l
sum_late_le [] = omega arith
sum_late_le (t ∷ l) = omega (arith, late_le t, sum_late_le l)

get_elem?-set :
    (l : List TWork) (i j : ℕ) (t u : TWork)
    → get_elem? (set l i u) j ≡ some t
    → (u ≡ t) ⊎ (get_elem? l j ≡ some t)
get_elem?-set [] i j t u h = inr h
get_elem?-set (v ∷ l) zero zero t u h = inl (cc h)
get_elem?-set (v ∷ l) zero (suc j) t u h = inr h
get_elem?-set (v ∷ l) (suc i) zero t u h = inr h
get_elem?-set (v ∷ l) (suc i) (suc j) t u h = get_elem?-set l i j t u h

-- The threads are as many as at the start, their counts add up to the global count, which with the
-- threads that are late stays below the limit and the number of threads, and a thread has finished
-- only if the limit was reached.
pub record Inv (limit n : ℕ) (s : Counter) : Type 0 where
  pub size : length s.threads ≡ n
  pub total : sum_of (λ t. t.count) s.threads ≡ s.global_count
  pub bounded : s.global_count + sum_of is_late s.threads + 1 ≤ limit + n
  pub done : (i m : ℕ) → get_elem? s.threads i ≡ some (work finished m) → limit ≤ s.global_count

module _ {limit n : ℕ} (small : limit + n < 2 ^ 31) {s : Counter} (inv : Inv limit n s) where
  -- A thread goes on with the count that it had.
  moved :
      (i m : ℕ) (p q : Place) (o : Owner)
      → get_elem? s.threads i ≡ some (work p m)
      → s.global_count + sum_of is_late (set s.threads i (work q m)) + 1 ≤ limit + n
      → (finished ≡ q → limit ≤ s.global_count)
      → Inv limit n (goes s i o q m)
  moved i m p q o h same over = record {
    size = length-set s.threads i (work q m) ∙ inv.size;
    total = omega (arith, sum_of-set (λ t. t.count) s.threads i (work p m) (work q m) h, inv.total);
    bounded = same;
    done = λ j k e. elim (get_elem?-set s.threads i j (work finished k) (work q m) e) [
      | inl f ↦ over (sym (ap (λ t. t.place) f))
      | inr old ↦ inv.done j k old
    ];
  }

  late_sum :
      (i m : ℕ) (p q : Place) (k : ℕ)
      → get_elem? s.threads i ≡ some (work p m)
      → sum_of is_late (set s.threads i (work q k)) + is_late (work p m)
        ≡ sum_of is_late s.threads + is_late (work q k)
  late_sum i m p q k h = sum_of-set is_late s.threads i (work p m) (work q k) h

  counted :
      (i m : ℕ)
      → get_elem? s.threads i ≡ some (work counting m)
      → Inv limit n (record (goes s i s.count_lock unlocking ((m + 1) % 2 ^ 32)) {
        global_count = (s.global_count + 1) % 2 ^ 64;
      })
  counted i m h =
      let fits = late_sum i m counting unlocking ((m + 1) % 2 ^ 32) h in
      let counts =
        sum_of-set (λ t. t.count) s.threads i (work counting m) (work unlocking ((m + 1) % 2 ^ 32))
          h in
      let part = sum_of_ge (λ t. t.count) s.threads i (work counting m) h in
      record {
        size = length-set s.threads i (work unlocking ((m + 1) % 2 ^ 32)) ∙ inv.size;
        total = omega (arith, counts, part, inv.total, inv.bounded, small);
        bounded = omega (arith, fits, inv.bounded, small);
        done = λ j k e.
            elim (get_elem?-set s.threads i j (work finished k) (work unlocking ((m + 1) % 2 ^ 32))
              e) [
                | inl f ↦ absurd (cc f)
                | inr old ↦ omega (arith, inv.done j k old, inv.bounded, small)
              ];
      }

Step-Inv :
    {limit n : ℕ} {s t : Counter}
    → limit + n < 2 ^ 31
    → Step limit s t
    → Inv limit n s
    → Inv limit n t
Step-Inv small (go h) inv = record {
  size = inv.size;
  total = inv.total;
  bounded = inv.bounded;
  done = inv.done;
}
Step-Inv {s = s} small (below i m h low) inv =
    moved small inv i m testing locking s.count_lock h
      (omega (
        arith,
        low,
        sum_late_le (set s.threads i (work locking m)),
        length-set s.threads i (work locking m),
        inv.size,
      ))
      (λ e. absurd (cc e))
Step-Inv {s = s} small (reached i m h high) inv =
    moved small inv i m testing finished s.count_lock h
      (omega (arith, late_sum small inv i m testing finished m h, inv.bounded)) (λ e. high)
Step-Inv small (lock i m h free) inv =
    moved small inv i m locking counting (by_thread i) h
      (omega (arith, late_sum small inv i m locking counting m h, inv.bounded)) (λ e. absurd (cc e))
Step-Inv small (increment i m h) inv = counted small inv i m h
Step-Inv small (unlock i m h) inv =
    moved small inv i m unlocking testing unlocked h
      (omega (arith, late_sum small inv i m unlocking testing m h, inv.bounded))
      (λ e. absurd (cc e))

created-size : (n : ℕ) → length (created n) ≡ n
created-size zero = refl
created-size (suc n) = ap suc (created-size n)

created-sum : (f : TWork → ℕ) → f (work testing 0) ≡ 0 → (n : ℕ) → sum_of f (created n) ≡ 0
created-sum f h zero = refl
created-sum f h (suc n) = omega (arith, h, created-sum f h n)

created-ne : (n i m : ℕ) → get_elem? (created n) i ≡ some (work finished m) → ⊥
created-ne zero i m h = cc h
created-ne (suc n) zero m h = cc h
created-ne (suc n) (suc i) m h = created-ne n i m h

Reach-Inv :
    {limit n : ℕ} {s : Counter} → 0 < n → limit + n < 2 ^ 31 → Reach limit n s → Inv limit n s
Reach-Inv {n = n} pos small here = record {
  size = created-size n;
  total = created-sum (λ t. t.count) refl n;
  bounded = omega (arith, created-sum is_late refl n);
  done = λ i m e. absurd (created-ne n i m e);
}
Reach-Inv pos small (step r s) = Step-Inv small s (Reach-Inv pos small r)

-- When all the threads have finished, at least one thread was created, and the limit and the number
-- of threads together are less than 2^31, the global count has reached the limit, exceeds it by less
-- than the number of threads, and is the sum of the counts of the threads.
pub finished_counts :
    {limit n : ℕ} {s : Counter}
    → 0 < n
    → limit + n < 2 ^ 31
    → Reach limit n s
    → ((i : ℕ) (t : TWork) → get_elem? s.threads i ≡ some t → t.place ≡ finished)
    → (limit ≤ s.global_count)
      × (s.global_count < limit + n)
      × (sum_of (λ t. t.count) s.threads ≡ s.global_count)
finished_counts {s = s} pos small r all =
    let inv = Reach-Inv pos small r in
    let (t, first) = get_elem?_lt s.threads 0 (omega (arith, inv.size, pos)) in
    let e : t ≡ work finished t.count = ap (λ p. work p t.count) (all 0 t first) in
    (inv.done 0 t.count (first ∙ ap some e), omega (arith, inv.bounded), inv.total)
