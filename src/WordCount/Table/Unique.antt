-- ===== src/WordCount/Table/Unique.antt =====
-- A list in order is determined by its entries: whatever way leads to the same counts, the lines that
-- are printed are the same.
use operating_systems_and_sy.Prelude.{
  suc, ◌^◌, ◌<◌, ◌≡◌, inl, inr, refl, ap₂, false, [], ◌∷◌, Bool-cases, arith,
}
use operating_systems_and_sy.CLib.{Text, str_eq}
use operating_systems_and_sy.CLib.Order.{str_eq_iff, str_lt_total}
use operating_systems_and_sy.WordCount.Table.{
  WordCount, WordCounts, entry, less_count, int_lt, int_eq, flip_sign,
}
use operating_systems_and_sy.WordCount.Table.Count.{count_of, entries, IsDistinct}
use operating_systems_and_sy.WordCount.Table.Sort.{IsSorted, IsFirst, less_count-IsStrictWeak}

-- Each count is the pattern of an `int`.
abbrev pub AreInts : WordCounts → Type 0
AreInts [] = Unit {0}
AreInts (wc ∷ l) = (wc.count < 2 ^ 32) × AreInts l

-- Two lists have the same words, as often, with the same counts.
pub record Agree (l k : WordCounts) : Type 0 where
  pub entered : (v : Text) → entries l v ≡ entries k v
  pub counted : (v : Text) → count_of l v ≡ count_of k v

less_count_total :
    (a b : WordCount)
    → a.count < 2 ^ 32
    → b.count < 2 ^ 32
    → less_count a b ≡ false
    → less_count b a ≡ false
    → a ≡ b
unfolding less_count int_lt int_eq flip_sign
less_count_total a b ha hb h k =
    let same : a.count ≡ b.count = ground arith in
    let word : a.word ≡ b.word = ground (arith, str_lt_total a.word b.word) in ap₂ entry word same

-- A word that is listed stands in an entry with its count.
IsFirst-listed :
    (a : WordCount) (l : WordCounts) (v : Text)
    → IsFirst less_count a l
    → 0 < entries l v
    → less_count (entry v (count_of l v)) a ≡ false
unfolding entries count_of
IsFirst-listed a [] v f h = absurd (omega arith)
IsFirst-listed a (b ∷ l) v f h = elim (Bool-cases (str_eq v b.word)) [
  | inl e ↦ let same = (str_eq_iff v b.word).0 e in rw (e, same) f.0
  | inr e ↦ rw e (IsFirst-listed a l v f.1 (rw e at h))
]

irreflexive : (a : WordCount) → less_count a a ≡ false
irreflexive a = elim (Bool-cases (less_count a a)) [
  | inl h ↦ less_count-IsStrictWeak.asymm a a h
  | inr h ↦ h
]

IsFirst-head :
    (a : WordCount) (l : WordCounts) (v : Text)
    → IsFirst less_count a l
    → 0 < entries (a ∷ l) v
    → less_count (entry v (count_of (a ∷ l) v)) a ≡ false
IsFirst-head a l v f h = IsFirst-listed a (a ∷ l) v (irreflexive a, f) h

own_word :
    (a : WordCount) (l : WordCounts)
    → (entries (a ∷ l) a.word ≡ suc (entries l a.word)) × (count_of (a ∷ l) a.word ≡ a.count)
unfolding entries count_of
own_word a l = let e = (str_eq_iff a.word a.word).1 refl in (rw e refl, rw e refl)

IsDistinct-tail : (a : WordCount) (l : WordCounts) → IsDistinct (a ∷ l) → IsDistinct l
unfolding entries
IsDistinct-tail a l h v = ground (arith, h v)

entries_none : (l : WordCounts) (v : Text) → entries l v ≡ 0 → count_of l v ≡ 0
unfolding entries count_of
entries_none [] v h = refl
entries_none (a ∷ l) v h = ground (arith, entries_none l v)

-- What is left behind the same head agrees.
Agree-tail :
    (a : WordCount) (l k : WordCounts) → IsDistinct (a ∷ l) → Agree (a ∷ l) (a ∷ k) → Agree l k
Agree-tail a l k distinct agree = record { entered = entered'; counted = counted' }
  where
    entered' : (v : Text) → entries l v ≡ entries k v
    entered' v = unfold entries in ground (arith, agree.entered v)

    counted' : (v : Text) → count_of l v ≡ count_of k v
    counted' v =
        unfold entries count_of in
        ground (arith, distinct v, entered' v, agree.counted v, entries_none l v, entries_none k v)

-- Lists in the order of `less_count` that agree are the same list.
pub IsSorted-unique :
    (l k : WordCounts)
    → IsSorted less_count l
    → IsSorted less_count k
    → IsDistinct l
    → AreInts l
    → AreInts k
    → Agree l k
    → l ≡ k
IsSorted-unique [] [] sl sk dl il ik agree = refl
IsSorted-unique [] (b ∷ k) sl sk dl il ik agree =
    absurd (unfold entries in omega (arith, agree.entered b.word, own_word b k))
IsSorted-unique (a ∷ l) [] sl sk dl il ik agree =
    absurd (unfold entries in omega (arith, agree.entered a.word, own_word a l))
IsSorted-unique (a ∷ l) (b ∷ k) sl sk dl il ik agree =
    let not_less =
      IsFirst-head b k a.word sk.0 (omega (arith, agree.entered a.word, own_word a l)) in
    let not_more =
      IsFirst-head a l b.word sl.0 (omega (arith, agree.entered b.word, own_word b k)) in
    let same =
      less_count_total a b il.0 ik.0 (rw (← agree.counted a.word, (own_word a l).1) at not_less)
        (rw (agree.counted b.word, (own_word b k).1) at not_more) in
    let agree' : Agree (a ∷ l) (a ∷ k) = rw (← same) at agree in
    ap₂ (λ x y. x ∷ y) same
      (IsSorted-unique l k sl.1 sk.1 (IsDistinct-tail a l dl) il.1 ik.1
        (Agree-tail a l k dl agree'))
