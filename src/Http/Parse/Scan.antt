-- ===== src/Http/Parse/Scan.antt =====
-- The three loops of `http_request_parse` that move `read_end`.
use operating_systems_and_sy.Prelude.{
  ℕ, ◌≡◌, refl, ◌∙◌, ap, inl, inr, Bool, true, false, [], ◌∷◌, ◌++◌, Bool-cases,
}
use operating_systems_and_sy.CLib.{Text}
use operating_systems_and_sy.Http.Parse.{nul, peek, scan}

abbrev pub All : (ℕ → Bool) → Text → Type 0
All test [] = Unit {0}
All test (c ∷ s) = (test c ≡ true) × All test s

-- The loop stops at a character that fails the test, or at the end.
abbrev pub Stops : (ℕ → Bool) → Text → Type 0
Stops test s = test (peek s) ≡ false

pub scan_end : (test : ℕ → Bool) → scan test [] ≡ ([], [])
unfolding scan
scan_end test = refl

pub scan_go :
    (test : ℕ → Bool) (c : ℕ) (s : Text)
    → test c ≡ true
    → scan test (c ∷ s) ≡ (c ∷ (scan test s).0, (scan test s).1)
unfolding scan
scan_go test c s h = rw h refl

pub scan_stop :
    (test : ℕ → Bool) (c : ℕ) (s : Text) → test c ≡ false → scan test (c ∷ s) ≡ ([], c ∷ s)
unfolding scan
scan_stop test c s h = rw h refl

pub scan-append :
    (test : ℕ → Bool) (a b : Text) → All test a → Stops test b → scan test (a ++ b) ≡ (a, b)
unfolding peek
scan-append test [] [] h stop = scan_end test
scan-append test [] (c ∷ b) h stop = scan_stop test c b stop
scan-append test (c ∷ a) b h stop =
    scan_go test c (a ++ b) h.0 ∙ ap (λ r. (c ∷ r.0, r.1)) (scan-append test a b h.1 stop)

pub scan_split : (test : ℕ → Bool) (s : Text) → (scan test s).0 ++ (scan test s).1 ≡ s
scan_split test [] = rw (scan_end test) refl
scan_split test (c ∷ s) = elim (Bool-cases (test c)) [
  | inl go ↦ rw (scan_go test c s go) (ap (λ r. c ∷ r) (scan_split test s))
  | inr stop ↦ rw (scan_stop test c s stop) refl
]

pub scan-All : (test : ℕ → Bool) (s : Text) → All test (scan test s).0
scan-All test [] = rw (scan_end test) tt
scan-All test (c ∷ s) = elim (Bool-cases (test c)) [
  | inl go ↦ rw (scan_go test c s go) (go, scan-All test s)
  | inr stop ↦ rw (scan_stop test c s stop) tt
]

pub scan-Stops : (test : ℕ → Bool) (s : Text) → test nul ≡ false → Stops test (scan test s).1
unfolding peek
scan-Stops test [] h = rw (scan_end test) h
scan-Stops test (c ∷ s) h = elim (Bool-cases (test c)) [
  | inl go ↦ rw (scan_go test c s go) (scan-Stops test s h)
  | inr stop ↦ rw (scan_stop test c s stop) stop
]
