-- ===== src/WordCount/Pwords/Threads.antt =====
-- One step of one thread of pwords.c.
use operating_systems_and_sy.Prelude.{
  ℕ, ◌+◌, ◌*◌, ◌^◌, ◌<◌, ◌≡◌, ◌≢◌, Bool, true, false, [], length, if◌then◌else◌, arith,
}
use operating_systems_and_sy.CLib.{Text, str_eq}
use operating_systems_and_sy.WordCount.Table.{WordCounts}
use operating_systems_and_sy.WordCount.Table.Tally.{Tally}
use operating_systems_and_sy.WordCount.Stream.Words.{words_from}
use operating_systems_and_sy.WordCount.Stream.Counts.{occurrences}
use operating_systems_and_sy.WordCount.Pintos.{find_entry}
use operating_systems_and_sy.WordCount.Pintos.Locked.{LockedList}
use operating_systems_and_sy.WordCount.Pwords.{
  Place, reading, locking, finding, storing, unlocking, ended, Advanced, moved, waits, stopped,
  faulted,
}

-- How often `v` stands among the words of two or more letters that a thread has still to add.
unfoldable pub left : Text → Place → ℕ
left v (reading file n) = occurrences v (words_from file [])
left v (locking w file n) = (if str_eq v w then 1 else 0) + occurrences v (words_from file [])
left v (finding w file n) = (if str_eq v w then 1 else 0) + occurrences v (words_from file [])
left v (storing pos w file n) = (if str_eq v w then 1 else 0) + occurrences v (words_from file [])
left v (unlocking file n) = occurrences v (words_from file [])
left v ended = 0

-- A bound on the steps that a thread can still take.
unfoldable pub weight : Place → ℕ
weight (reading file n) = 5 * length file + 1
weight (locking w file n) = 5 * length file + 5
weight (finding w file n) = 5 * length file + 4
weight (storing pos w file n) = 5 * length file + 3
weight (unlocking file n) = 5 * length file + 2
weight ended = 0

-- Whether a thread holds the mutex.
unfoldable pub holds : Place → ℕ
holds (finding w file n) = 1
holds (storing pos w file n) = 1
holds (unlocking file n) = 1
holds (reading file n) = 0
holds (locking w file n) = 0
holds ended = 0

abbrev pub bit : Bool → ℕ
bit true = 1
bit false = 0

-- The file is one whose words can be read, and what `find_word` returned still holds of the list.
unfoldable pub IsGood : WordCounts → Place → Type 0
IsGood l (reading file n) = length file + 1 < 2 ^ 63
IsGood l (locking w file n) = length file + 1 < 2 ^ 63
IsGood l (finding w file n) = length file + 1 < 2 ^ 63
IsGood l (storing pos w file n) = (length file + 1 < 2 ^ 63) × (find_entry l w 0 ≡ pos)
IsGood l (unlocking file n) = length file + 1 < 2 ^ 63
IsGood l ended = Unit {0}

-- A thread that does not hold the mutex does not depend on the list.
pub IsGood-other : (l k : WordCounts) (p : Place) → holds p ≡ 0 → IsGood l p → IsGood k p
unfolding IsGood holds
IsGood-other l k (reading file n) h g = g
IsGood-other l k (locking w file n) h g = g
IsGood-other l k (finding w file n) h g = g
IsGood-other l k (storing pos w file n) h g = absurd (omega arith)
IsGood-other l k (unlocking file n) h g = g
IsGood-other l k ended h g = tt

-- What a step leaves, where the list counted the words by `f` before.
pub record Kept (f : Text → ℕ) (p p' : Place) (l l' : LockedList) : Type 0 where
  pub g : Text → ℕ
  pub tallied : Tally g l'.lst
  pub kept : (v : Text) → g v + left v p' ≡ f v + left v p
  pub lighter : weight p' < weight p
  pub good : IsGood l'.lst p'
  pub lock : holds p' + bit l.locked ≡ holds p + bit l'.locked
  pub others : holds p ≡ 0 → l'.lst ≡ l.lst

-- What becomes of a thread: it moves, it waits for a mutex that another thread holds, or it has ended.
pub data Fate (f : Text → ℕ) (p : Place) (l : LockedList) : Advanced → Type 0 where
  moves : (p' : Place) (l' : LockedList) → Kept f p p' l l' → Fate f p l (moved p' l')
  blocked : l.locked ≡ true → holds p ≡ 0 → Fate f p l waits
  over : p ≡ ended → Fate f p l stopped

-- What a step that is taken leaves.
pub Fate-moved :
    {f : Text → ℕ} {p p' : Place} {l l' : LockedList} {a : Advanced}
    → Fate f p l a
    → a ≡ moved p' l'
    → Kept f p p' l l'
Fate-moved {f} {p} {p'} {l} {l'} (moves q k kept) e =
    let place : q ≡ p' = cc in let list : k ≡ l' = cc in rw (← place, ← list) kept
Fate-moved (blocked h h') e = absurd (cc)
Fate-moved (over h) e = absurd (cc)

-- With memory granted, no thread faults.
pub Fate-faulted :
    {f : Text → ℕ} {p : Place} {l : LockedList} {a : Advanced} → Fate f p l a → a ≢ faulted
Fate-faulted (moves q k kept) e = cc
Fate-faulted (blocked h h') e = cc
Fate-faulted (over h) e = cc
