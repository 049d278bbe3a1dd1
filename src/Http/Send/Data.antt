-- ===== src/Http/Send/Data.antt =====
-- The loop of `http_send_data`, with a `write` that takes some of the data at each call.
use operating_systems_and_sy.Prelude.{
  ℕ, zero, suc, ◌-◌, ◌<◌, ◌≤◌, ◌≡◌, refl, sym, ◌∙◌, ap, inl, inr, Option, some, Option-cases, [],
  ◌∷◌, ◌++◌, append_assoc, length, arith,
}
use operating_systems_and_sy.CLib.{Text}
use operating_systems_and_sy.Http.Send.{
  drop, take, Sent, complete, failed, unfinished, sent_before, http_send_data,
}

take-drop : (n : ℕ) (s : Text) → take n s ++ drop n s ≡ s
unfolding take drop
take-drop zero s = refl
take-drop (suc n) [] = refl
take-drop (suc n) (c ∷ s) = ap (λ t. c ∷ t) (take-drop n s)

length-drop : (n : ℕ) (s : Text) → length (drop n s) ≡ length s - n
unfolding drop
length-drop zero s = omega arith
length-drop (suc n) [] = omega arith
length-drop (suc n) (c ∷ s) = omega (arith, length-drop n s)

-- A call of `write` that does not fail takes at least one byte of the data, and at most all of them.
abbrev pub Takes : (ℕ → Text → Option ℕ) → Type 0
Takes write =
    (k : ℕ) (s : Text) (n : ℕ) → 0 < length s → write k s ≡ some n → (1 ≤ n) × (n ≤ length s)

-- What was sent, in either way of ending, is the data or the first part of the data.
abbrev pub Delivers : Text → Sent → Type 0
Delivers s (complete out k) = out ≡ s
Delivers s (failed out k) = (rest : Text) × (s ≡ out ++ rest) × (0 < length rest)
Delivers s unfinished = 0 < 0

sent_before-Delivers :
    (n : ℕ) (s : Text) (r : Sent) → Delivers (drop n s) r → Delivers s (sent_before (take n s) r)
unfolding sent_before
sent_before-Delivers n s (complete out k) h = ap (λ t. take n s ++ t) h ∙ take-drop n s
sent_before-Delivers n s (failed out k) h =
    let (rest, e, more) = h in
    (
      rest,
      sym (take-drop n s) ∙ ap (λ t. take n s ++ t) e ∙ sym (append_assoc (take n s) out rest),
      more,
    )
sent_before-Delivers n s unfinished h = h

module _ (write : ℕ → Text → Option ℕ) (takes : Takes write) where
  -- If each call of `write` fails or takes at least one byte, and there is fuel for one call a byte,
  -- `http_send_data` ends: it has sent the data in order
  -- and as a whole if no call failed, and otherwise a first part of the data, and not all of it.
  pub http_send_data-Delivers :
      (fuel k : ℕ) (s : Text) → length s ≤ fuel → Delivers s (http_send_data write fuel k s)
  unfolding http_send_data
  http_send_data-Delivers fuel k [] h = refl
  http_send_data-Delivers zero k (c ∷ s) h = absurd (omega arith)
  http_send_data-Delivers (suc fuel) k (c ∷ s) h = elim (Option-cases (write k (c ∷ s))) [
    | inl e ↦ rw (e, Delivers) (c ∷ s, refl, omega arith)
    | inr (n, e) ↦
        let bounds = takes k (c ∷ s) n (omega arith) e in
        rw (e, Delivers)
          (sent_before-Delivers n (c ∷ s) (http_send_data write fuel (suc k) (drop n (c ∷ s))) (
            http_send_data-Delivers fuel (suc k) (drop n (c ∷ s))
              (omega (arith, length-drop n (c ∷ s), bounds.0, bounds.1))))
  ]

-- A socket whose client stays connected: no call fails.
abbrev pub Connected : (ℕ → Text → Option ℕ) → Type 0
Connected write =
    (k : ℕ) (s : Text) → 0 < length s → (n : ℕ) × (write k s ≡ some n) × (1 ≤ n) × (n ≤ length s)

take_all :
    (n : ℕ) (s : Text) (r : Sent)
    → (k : ℕ) × (r ≡ complete (drop n s) k)
    → (k : ℕ) × (sent_before (take n s) r ≡ complete s k)
unfolding sent_before
take_all n s r (k, e) = (k, rw e (ap (λ t. complete t k) (take-drop n s)))

module _ (write : ℕ → Text → Option ℕ) (connected : Connected write) where
  -- Over a connection that stays up, with fuel for one call of `write` a byte, `http_send_data` returns
  -- and has sent all of the data.
  pub http_send_data-complete :
      (fuel k : ℕ) (s : Text)
      → length s ≤ fuel
      → (calls : ℕ) × (http_send_data write fuel k s ≡ complete s calls)
  unfolding http_send_data
  http_send_data-complete fuel k [] h = (k, refl)
  http_send_data-complete zero k (c ∷ s) h = absurd (omega arith)
  http_send_data-complete (suc fuel) k (c ∷ s) h =
      let (n, e, low, high) = connected k (c ∷ s) (omega arith) in
      rw (e, http_send_data)
        (take_all n (c ∷ s) (http_send_data write fuel (suc k) (drop n (c ∷ s))) (
          http_send_data-complete fuel (suc k) (drop n (c ∷ s))
            (omega (arith, length-drop n (c ∷ s), low, high))))
