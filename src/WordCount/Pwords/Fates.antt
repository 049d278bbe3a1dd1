-- ===== src/WordCount/Pwords/Fates.antt =====
-- What becomes of each thread of pwords.c, with memory granted.
use operating_systems_and_sy.Prelude.{
  ℕ, ◌+◌, ◌^◌, ◌<◌, ◌≤◌, ◌≡◌, refl, Bool, true, false, Option, none, some, List, length, ◌==◌,
  Bool-cases, inl, inr, arith,
}
use operating_systems_and_sy.CLib.{Text}
use operating_systems_and_sy.WordCount.Table.{WordCounts, entry}
use operating_systems_and_sy.WordCount.Table.Tally.{Tally, more}
use operating_systems_and_sy.WordCount.Stream.{get_word}
use operating_systems_and_sy.WordCount.Stream.Get.{get_word-next}
use operating_systems_and_sy.WordCount.Stream.Counts.{occurrences}
use operating_systems_and_sy.WordCount.Pintos.{
  PintosList, find_entry, increase, add_word_with_count,
}
use operating_systems_and_sy.WordCount.Pintos.Added.{added, add_word_with_count-added, Tally-added}
use operating_systems_and_sy.WordCount.Pintos.Locked.{LockedList, find_word_p}
use operating_systems_and_sy.WordCount.Pwords.{
  Place, reading, locking, finding, storing, unlocking, ended, moved, waits, advance,
}
use operating_systems_and_sy.WordCount.Pwords.Threads.{
  left, weight, holds, bit, IsGood, Kept, Fate, moves, blocked, over,
}

module _ (pintos : PintosList) where
  increase-added :
      (l : WordCounts) (w : Text) (i : ℕ) → find_entry l w 0 ≡ some i → increase l i 1 ≡ added l w 1
  increase-added l w i e =
      let both : some (increase l i 1) ≡ some (added l w 1) =
        unfold add_word_with_count in
        rw (e, add_word_with_count) at (add_word_with_count-added pintos l w 1) in
      cc

  push_back-added :
      (l : WordCounts) (w : Text)
      → find_entry l w 0 ≡ none
      → pintos.list_push_back l (entry w 1) ≡ added l w 1
  push_back-added l w e =
      let both : some (pintos.list_push_back l (entry w 1)) ≡ some (added l w 1) =
        unfold add_word_with_count in
        rw (e, add_word_with_count) at (add_word_with_count-added pintos l w 1) in
      cc

  module _ (grant : ℕ → Bool) (all : (m : ℕ) → grant m ≡ true) where
    reading-Fate :
        (f : Text → ℕ) (file : List ℕ) (n : ℕ) (l : LockedList)
        → length file + 1 < 2 ^ 63
        → Tally f l.lst
        → Fate f (reading file n) l (advance pintos grant (reading file n) l)
    unfolding advance left weight IsGood holds occurrences
    reading-Fate f file n l small t = elim (get_word-next grant all file n small) [
      | inl (e, words) ↦
          rw (e, advance)
            (moves ended l (record {
              g = f;
              tallied = t;
              kept = λ v. rw words (omega arith);
              lighter = omega arith;
              good = tt;
              lock = refl;
              others = λ h. refl;
            }))
      | inr (w, e, words, shorter, proper) ↦
          let r = get_word grant file n in
          elim (Bool-cases (length w == 1)) [
            | inl short ↦
                rw (e, advance, short)
                  (moves (reading r.rest r.requests) l (record {
                    g = f;
                    tallied = t;
                    kept = λ v. rw (words, short) (omega arith);
                    lighter = omega arith;
                    good = omega arith;
                    lock = refl;
                    others = λ h. refl;
                  }))
            | inr long ↦
                rw (e, advance, long)
                  (moves (locking w r.rest r.requests) l (record {
                    g = f;
                    tallied = t;
                    kept = λ v. rw (words, long) (omega arith);
                    lighter = omega arith;
                    good = omega arith;
                    lock = refl;
                    others = λ h. refl;
                  }))
          ]
    ]

    locking_free :
        (w : Text) (file : List ℕ) (n : ℕ) (l : LockedList)
        → l.locked ≡ false
        → advance pintos grant (locking w file n) l
          ≡ moved (finding w file n) (record l { locked = true })
    unfolding advance
    locking_free w file n l free = ground arith

    locking_held :
        (w : Text) (file : List ℕ) (n : ℕ) (l : LockedList)
        → l.locked ≡ true
        → advance pintos grant (locking w file n) l ≡ waits
    unfolding advance
    locking_held w file n l held = ground arith

    locking-Fate :
        (f : Text → ℕ) (w : Text) (file : List ℕ) (n : ℕ) (l : LockedList)
        → length file + 1 < 2 ^ 63
        → Tally f l.lst
        → Fate f (locking w file n) l (advance pintos grant (locking w file n) l)
    unfolding left weight IsGood holds
    locking-Fate f w file n l small t = elim (Bool-cases l.locked) [
      | inl held ↦ rw (locking_held w file n l held) (blocked held refl)
      | inr free ↦ rw (locking_free w file n l free) (
          moves (finding w file n) (record l { locked = true })
            (record {
              g = f;
              tallied = t;
              kept = λ v. refl;
              lighter = omega arith;
              good = small;
              lock = ground arith;
              others = λ h. refl;
            }))
    ]

    -- The change of the list is an addition to the counts, whatever `find_word` returned.
    storing-Kept :
        (f : Text → ℕ) (pos : Option ℕ) (w : Text) (file : List ℕ) (n m : ℕ) (l : LockedList)
        (k : WordCounts)
        → length file + 1 < 2 ^ 63
        → Tally f l.lst
        → k ≡ added l.lst w 1
        → Kept f (storing pos w file n) (unlocking file m) l (record l { lst = k })
    unfolding left weight IsGood holds
    storing-Kept f pos w file n m l k small t e = record {
      g = more 1 w f;
      tallied = rw e (Tally-added l.lst w 1 (omega arith) (omega arith) t);
      kept = λ v. omega arith;
      lighter = omega arith;
      good = small;
      lock = refl;
      others = λ h. absurd (omega arith);
    }

    -- What becomes of each thread, on a list that counts the words by `f`.
    pub advance-Fate :
        (f : Text → ℕ) (p : Place) (l : LockedList)
        → IsGood l.lst p
        → holds p ≤ bit l.locked
        → Tally f l.lst
        → Fate f p l (advance pintos grant p l)
    unfolding advance left weight IsGood holds find_word_p
    advance-Fate f (reading file n) l good held t = reading-Fate f file n l good t
    advance-Fate f (locking w file n) l good held t = locking-Fate f w file n l good t
    advance-Fate f (finding w file n) l good held t =
        moves (storing (find_word_p l w) w file n) l (record {
          g = f;
          tallied = t;
          kept = λ v. refl;
          lighter = omega arith;
          good = (good, refl);
          lock = refl;
          others = λ h. refl;
        })
    advance-Fate f (storing (some i) w file n) l good held t =
        moves (unlocking file n) (record l { lst = increase l.lst i 1 })
          (storing-Kept f (some i) w file n n l (increase l.lst i 1) good.0 t
            (increase-added l.lst w i good.1))
    advance-Fate f (storing none w file n) l good held t =
        let new = pintos.list_push_back l.lst (entry w 1) in
        rw (all n) (
          moves (unlocking file (n + 1)) (record l { lst = new })
            (storing-Kept f none w file n (n + 1) l new good.0 t (push_back-added l.lst w good.1)))
    advance-Fate f (unlocking file n) l good held t =
        moves (reading file n) (record l { locked = false })
          (record {
            g = f;
            tallied = t;
            kept = λ v. refl;
            lighter = omega arith;
            good = good;
            lock = ground arith;
            others = λ h. refl;
          })
    advance-Fate f ended l good held t = over refl
