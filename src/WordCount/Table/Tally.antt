-- ===== src/WordCount/Table/Tally.antt =====
-- Lists that count words: for each word the number of its occurrences, given as a function.
use mathlib.Core.List.{Perm, foldr}
use mathlib.Core.List.Perm
use native.Mathlib.Nat.{ℕ_set}
use operating_systems_and_sy.Prelude.{
  ℕ, zero, suc, ◌+◌, ◌-◌, ◌%◌, ◌^◌, ◌<◌, ◌≤◌, ◌≡◌, refl, sym, ap, ◌∙◌, [], ◌∷◌, true, ltb,
  Option-cases, inl, inr, if◌then◌else◌, arith,
}
use operating_systems_and_sy.CLib.{Text, str_eq}
use operating_systems_and_sy.WordCount.Table.{
  WordCount, WordCounts, less_count, increment, add_word, int_add, find_word,
}
use operating_systems_and_sy.WordCount.Table.Count.{
  count_of, entries, IsDistinct, add_word-count_of, add_word-entries, add_word_new, add_word_old,
}
use operating_systems_and_sy.WordCount.Table.Sort.{IsSorted}
use operating_systems_and_sy.WordCount.Table.Sums.{
  sum_by, one_at, count_at, entries-sum_by, count_of-sum_by,
}
use operating_systems_and_sy.WordCount.Table.Unique.{AreInts, IsSorted-unique}

-- One entry for a word that occurs, none for another.
abbrev pub presence : ℕ → ℕ
presence zero = 0
presence (suc n) = 1

-- `l` counts each word `v` that occurs `f v` times, modulo 2^32.
pub record Tally (f : Text → ℕ) (l : WordCounts) : Type 0 where
  pub entered : (v : Text) → entries l v ≡ presence (f v)
  pub counted : (v : Text) → count_of l v ≡ f v % 2 ^ 32
  pub ints : AreInts l

presence_le : (n : ℕ) → presence n ≤ 1
presence_le zero = omega arith
presence_le (suc n) = omega arith

pub Tally-IsDistinct : {f : Text → ℕ} {l : WordCounts} → Tally f l → IsDistinct l
Tally-IsDistinct {f} t v = omega (arith, t.entered v, presence_le (f v))

pub Tally-nil : Tally (λ v. 0) []
Tally-nil = record {
  entered = λ v. unfold entries in refl;
  counted = λ v. unfold count_of in refl;
  ints = tt;
}

pub Tally-same :
    {f g : Text → ℕ} {l : WordCounts} → ((v : Text) → f v ≡ g v) → Tally f l → Tally g l
Tally-same same t = record {
  entered = λ v. rw (← same v) (t.entered v);
  counted = λ v. rw (← same v) (t.counted v);
  ints = t.ints;
}

sum_by-foldr : (f : WordCount → ℕ) (l : WordCounts) → sum_by f l ≡ foldr (λ wc n. f wc + n) 0 l
sum_by-foldr f [] = refl
sum_by-foldr f (wc ∷ l) = ap (λ (n : ℕ). f wc + n) (sum_by-foldr f l)

sum_by-perm : (f : WordCount → ℕ) {l k : WordCounts} → Perm l k → sum_by f l ≡ sum_by f k
sum_by-perm f {l} {k} p =
    sum_by-foldr f l
    ∙ Perm.foldr-eq ℕ_set (λ wc (n : ℕ). f wc + n) (λ a b n. omega arith) p 0
    ∙ sym (sum_by-foldr f k)

outside : WordCount → ℕ
outside wc = if ltb wc.count (2 ^ 32) then 0 else 1

AreInts-outside : (l : WordCounts) → AreInts l → sum_by outside l ≡ 0
unfolding outside
AreInts-outside [] h = refl
AreInts-outside (wc ∷ l) h = ground (arith, AreInts-outside l h.1)

outside-AreInts : (l : WordCounts) → sum_by outside l ≡ 0 → AreInts l
unfolding outside
outside-AreInts [] h = tt
outside-AreInts (wc ∷ l) h = (ground arith, outside-AreInts l (ground arith))

-- The order of the entries does not matter.
pub Tally-perm : {f : Text → ℕ} (l k : WordCounts) → Perm k l → Tally f l → Tally f k
Tally-perm {f} l k p t = record {
  entered = entered';
  counted = λ v. omega (
    arith,
    count_of-sum_by k v (omega (arith, entered' v, presence_le (f v))),
    count_of-sum_by l v (Tally-IsDistinct t v),
    sum_by-perm (count_at v) p,
    t.counted v,
  );
  ints = outside-AreInts k (sum_by-perm outside p ∙ AreInts-outside l t.ints);
}
  where
    entered' : (v : Text) → entries k v ≡ presence (f v)
    entered' v =
        entries-sum_by k v ∙ sum_by-perm (one_at v) p ∙ sym (entries-sum_by l v) ∙ t.entered v

-- In order, there is one list for the occurrences of the words.
pub Tally-unique :
    {f : Text → ℕ} (l k : WordCounts)
    → Tally f l
    → Tally f k
    → IsSorted less_count l
    → IsSorted less_count k
    → l ≡ k
Tally-unique l k tl tk sl sk =
    IsSorted-unique l k sl sk (Tally-IsDistinct tl) tl.ints tk.ints (record {
      entered = λ v. tl.entered v ∙ sym (tk.entered v);
      counted = λ v. tl.counted v ∙ sym (tk.counted v);
    })

increment-AreInts : (l : WordCounts) (i : ℕ) → AreInts l → AreInts (increment l i)
unfolding increment
increment-AreInts [] i h = tt
increment-AreInts (wc ∷ l) zero h = (omega arith, h.1)
increment-AreInts (wc ∷ l) (suc i) h = (h.0, increment-AreInts l i h.1)

add_word-AreInts : (l : WordCounts) (w : Text) → AreInts l → AreInts (add_word true l w).0
add_word-AreInts l w h = elim (Option-cases (find_word l w)) [
  | inl e ↦ rw (add_word_new true l w e) (omega arith, h)
  | inr (i, e) ↦ rw (add_word_old true l w i e) (increment-AreInts l i h)
]

-- `n` more occurrences of `w`.
abbrev pub more : ℕ → Text → (Text → ℕ) → Text → ℕ
more n w f v = (if str_eq v w then n else 0) + f v

presence-suc : (n : ℕ) → 0 < n → presence n ≡ 1
presence-suc zero h = absurd (omega arith)
presence-suc (suc n) h = refl

-- What an operation has to do to an entry that is listed or not, to count `n` more of its word.
pub Tally-more :
    {f : Text → ℕ} (n : ℕ) (w : Text) (l l' : WordCounts)
    → 0 < n
    → Tally f l
    → ((v : Text) → entries l' v ≡ (if str_eq v w then suc (entries l v - 1) else entries l v))
    → ((v : Text) → count_of l' v ≡ (if str_eq v w then int_add (count_of l v) n else count_of l v))
    → AreInts l'
    → Tally (more n w f) l'
Tally-more {f} n w l l' pos t enters counts ints = record {
  entered = λ v. ground (
    arith,
    enters v,
    t.entered v,
    presence_le (f v),
    presence-suc ((if str_eq v w then n else 0) + f v),
  );
  counted = λ v. ground (arith, counts v, t.counted v);
  ints = ints;
}

-- `add_word` of word_count.c counts one more.
pub Tally-add_word :
    {f : Text → ℕ} (l : WordCounts) (w : Text)
    → Tally f l
    → Tally (more 1 w f) (add_word true l w).0
Tally-add_word l w t =
    Tally-more 1 w l (add_word true l w).0 (omega arith) t (add_word-entries l w)
      (λ v. (add_word-count_of l w v).0) (add_word-AreInts l w t.ints)
