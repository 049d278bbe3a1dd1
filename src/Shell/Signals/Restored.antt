-- ===== src/Shell/Signals/Restored.antt =====
-- The shell ignores every signal that it can, and its commands accept each of them again.
use operating_systems_and_sy.Prelude.{
  ℕ, ◌<◌, ◌≡◌, refl, Bool, true, false, ◌||◌, List, [], ◌∷◌, ◌==◌, Bool-cases, inl, inr, arith,
  ==_iff,
}
use operating_systems_and_sy.Shell.Signals.{
  Disposition, default, ignored, Signals, is_fixed, signal, signal_all, ignored_signals,
  ignore_signal, accepted_signals, accept_signal,
}

unfoldable pub is_in : ℕ → List ℕ → Bool
is_in s [] = false
is_in s (sig ∷ sigs) = s == sig || is_in s sigs

signal_self :
    (s : ℕ) (d : Disposition) (table : Signals) → is_fixed s ≡ false → signal s d table s ≡ d
unfolding signal
signal_self s d table h = let e : (s == s) ≡ true = (==_iff s s).1 refl in rw (e, h) refl

-- A signal keeps the disposition once it has it.
signal_keeps :
    (s sig : ℕ) (d : Disposition) (table : Signals) → table s ≡ d → signal sig d table s ≡ d
unfolding signal
signal_keeps s sig d table h = elim (Bool-cases (s == sig)) [
  | inl e ↦ elim (Bool-cases (is_fixed sig)) [ inl f ↦ rw (e, f) h | inr f ↦ rw (e, f) refl ]
  | inr e ↦ rw e h
]

signal_all_keeps :
    (s : ℕ) (sigs : List ℕ) (d : Disposition) (table : Signals)
    → table s ≡ d
    → signal_all sigs d table s ≡ d
unfolding signal_all
signal_all_keeps s [] d table h = h
signal_all_keeps s (sig ∷ sigs) d table h =
    signal_all_keeps s sigs d (signal sig d table) (signal_keeps s sig d table h)

signal_all_in :
    (s : ℕ) (sigs : List ℕ) (d : Disposition) (table : Signals)
    → is_fixed s ≡ false
    → is_in s sigs ≡ true
    → signal_all sigs d table s ≡ d
unfolding signal_all is_in
signal_all_in s [] d table h listed = absurd (cc listed)
signal_all_in s (sig ∷ sigs) d table h listed = elim (Bool-cases (s == sig)) [
  | inl e ↦
      let same : s ≡ sig = (==_iff s sig).0 e in
      signal_all_keeps s sigs d (signal sig d table) (rw (← same) (signal_self s d table h))
  | inr e ↦ signal_all_in s sigs d (signal sig d table) h (rw e at listed)
]

is_in-all : (s : ℕ) → 0 < s → s < 32 → is_in s ignored_signals ≡ true
unfolding is_in
is_in-all s pos small = ground arith

-- Each signal from 1 to 31 other than SIGKILL and SIGSTOP is ignored by the shell, and has its default
-- disposition in a command that the shell starts, whatever the dispositions were before.
pub signals_restored :
    (table : Signals) (s : ℕ)
    → 0 < s
    → s < 32
    → is_fixed s ≡ false
    → (ignore_signal table s ≡ ignored) × (accept_signal (ignore_signal table) s ≡ default)
unfolding ignore_signal accept_signal
signals_restored table s pos small h = (
  signal_all_in s ignored_signals ignored table h (is_in-all s pos small),
  signal_all_in s accepted_signals default _ h (is_in-all s pos small),
)
