-- ===== src/Core/Throttle.antt =====
-- The limiter keeps the rate, and lets everybody through who waits long enough.
use adp_pro.Prelude.{
  ℕ, ◌+◌, ◌-◌, ◌*◌, ◌≤◌, ◌<◌, ◌≡◌, refl, ◌==◌, nat_eq, true, false, ◌||◌, Option, none, some,
  is_some, List, [], ◌∷◌, leb, leb→le, if_rule, subst, sym, ◌∙◌, arith,
}
use adp_pro.Core.SpeedLimiter.{Limiter, refill, spend, wait_for, acquire, acquire_all}

-- The clock does not go back.
abbrev pub IsRising : ℕ → List ℕ → Type 0
IsRising t [] = Unit
IsRising t (now ∷ later) = (t ≤ now) × IsRising now later

abbrev pub end_of : ℕ → List ℕ → ℕ
end_of t [] = t
end_of t (now ∷ later) = end_of now later

le_end : (t : ℕ) (clock : List ℕ) → IsRising t clock → t ≤ end_of t clock
le_end t [] h = omega arith
le_end t (now ∷ later) h = omega (arith, h.0, le_end now later h.1)

between : (a b c r : ℕ) → a ≤ b → b ≤ c → (c - a) * r ≡ (c - b) * r + (b - a) * r
between a b c r h k = grind arith

refill-short :
    (bytes now : ℕ) (l : Limiter)
    → (refill bytes now l).tokens < 1000 * bytes
    → (refill bytes now l).tokens ≡ l.tokens + (now - l.last_refill) * l.rate
unfolding refill
refill-short bytes now l h = ground arith

refill-full :
    (bytes now : ℕ) (l : Limiter)
    → 1000 * bytes ≤ l.tokens + (now - l.last_refill) * l.rate
    → 1000 * bytes ≤ (refill bytes now l).tokens
unfolding refill
refill-full bytes now l h = ground arith

refill_fields :
    (bytes now : ℕ) (l : Limiter)
    → ((refill bytes now l).rate ≡ l.rate)
      × ((refill bytes now l).last_refill ≡ now)
      × ((refill bytes now l).tokens ≤ l.tokens + (now - l.last_refill) * l.rate)
unfolding refill
refill_fields bytes now l = (refl, refl, omega arith)

leb-false : (a b : ℕ) → leb a b ≡ false → b < a
leb-false a b h = ground arith

wait_for-ends :
    (bytes now : ℕ) (later : List ℕ) (l : Limiter)
    → l.last_refill ≤ now
    → IsRising now later
    → 1000 * bytes ≤ l.tokens + (end_of now later - l.last_refill) * l.rate
    → is_some (wait_for bytes (now ∷ later) l) ≡ true
unfolding wait_for
wait_for-ends bytes now [] l s h enough = ground (arith, refill-full bytes now l enough)
wait_for-ends bytes now (next ∷ later) l s h enough =
    let l' : Limiter = refill bytes now l in
    if_rule (λ (r : Option Limiter). is_some r ≡ true) (leb (1000 * bytes) l'.tokens) _ _
      (λ granted. refl)
      λ short.
        let e = refill-short bytes now l (leb-false (1000 * bytes) l'.tokens short) in
        let f = refill_fields bytes now l in
        wait_for-ends bytes next later l' (rw f.1 h.0) h.1 (
          rw (e, f.0, f.1)
            (omega (
              arith,
              enough,
              between l.last_refill now (end_of next later) l.rate s
                  (omega (arith, h.0, le_end next later h.1)),
            )))

-- Whoever waits gets through: on a clock that does not go back, an acquisition is granted at the
-- latest in the round whose time lets the bucket fill up to what is asked for, though that be more
-- than the bucket holds.
pub acquire-ends :
    (bytes now : ℕ) (later : List ℕ) (l : Limiter)
    → l.last_refill ≤ now
    → IsRising now later
    → 1000 * bytes ≤ l.tokens + (end_of now later - l.last_refill) * l.rate
    → is_some (acquire bytes (now ∷ later) l) ≡ true
unfolding acquire
acquire-ends bytes now later l s h enough =
    ground (arith, wait_for-ends bytes now later l s h enough)

-- What an acquisition spends came in since, or was there.
record IsPaid (bytes : ℕ) (l k : Limiter) : Type 0 where
  rate : k.rate ≡ l.rate
  later : l.last_refill ≤ k.last_refill
  paid : 1000 * bytes + k.tokens ≤ l.tokens + (k.last_refill - l.last_refill) * l.rate

abbrev Paid : ℕ → Limiter → Option Limiter → Type 0
Paid bytes l none = Unit
Paid bytes l (some k) = IsPaid bytes l k

refill-IsPaid :
    (bytes now : ℕ) (l k : Limiter)
    → l.last_refill ≤ now
    → IsPaid bytes (refill bytes now l) k
    → IsPaid bytes l k
unfolding refill
refill-IsPaid bytes now l k s h =
    let f = refill_fields bytes now l in
    record {
      rate = h.rate ∙ f.0;
      later = omega (arith, s, h.later, f.1);
      paid =
          let p : 1000 * bytes + k.tokens
              ≤ (refill bytes now l).tokens + (k.last_refill - now) * l.rate =
            rw (← f.0, ← f.1) h.paid in
          omega (
            arith,
            p,
            f.2,
            between l.last_refill now k.last_refill l.rate s (omega (arith, h.later, f.1)),
          );
    }

Paid-refill :
    (bytes now : ℕ) (l : Limiter) (k : Option Limiter)
    → l.last_refill ≤ now
    → Paid bytes (refill bytes now l) k
    → Paid bytes l k
Paid-refill bytes now l none s h = tt
Paid-refill bytes now l (some k) s h = refill-IsPaid bytes now l k s h

spend-IsPaid : (bytes : ℕ) (l : Limiter) → 1000 * bytes ≤ l.tokens → IsPaid bytes l (spend bytes l)
unfolding spend
spend-IsPaid bytes l h = record { rate = refl; later = omega arith; paid = omega arith }

wait_for-Paid :
    (bytes : ℕ) (clock : List ℕ) (l : Limiter)
    → IsRising l.last_refill clock
    → Paid bytes l (wait_for bytes clock l)
unfolding wait_for
wait_for-Paid bytes [] l h = tt
wait_for-Paid bytes (now ∷ later) l h =
    let l' : Limiter = refill bytes now l in
    let f = refill_fields bytes now l in
    Paid-refill bytes now l _ h.0 (
      if_rule (Paid bytes l') (leb (1000 * bytes) l'.tokens) _ _
        (λ granted. spend-IsPaid bytes l' (leb→le (1000 * bytes) l'.tokens granted))
        λ short. wait_for-Paid bytes later l' (subst (λ t. IsRising t later) (sym f.1) h.1))

idle-IsPaid : (l : Limiter) → IsPaid 0 l l
idle-IsPaid l = record { rate = refl; later = omega arith; paid = omega arith }

acquire-Paid :
    (bytes : ℕ) (clock : List ℕ) (l : Limiter)
    → 0 < l.rate
    → IsRising l.last_refill clock
    → Paid bytes l (acquire bytes clock l)
unfolding acquire
acquire-Paid bytes clock l r h =
    if_rule (Paid bytes l) (l.rate == 0 || bytes == 0) _ _
      (λ free. subst (λ n. IsPaid n l l) (ground (arith, free, r)) (idle-IsPaid l))
      λ other. wait_for-Paid bytes clock l h

IsPaid-twice : (a b : ℕ) (l j k : Limiter) → IsPaid a l j → IsPaid b j k → IsPaid (a + b) l k
IsPaid-twice a b l j k p q = record {
  rate = q.rate ∙ p.rate;
  later = omega (arith, p.later, q.later);
  paid =
      let s : 1000 * b + k.tokens ≤ j.tokens + (k.last_refill - j.last_refill) * l.rate =
        subst (λ r. 1000 * b + k.tokens ≤ j.tokens + (k.last_refill - j.last_refill) * r) p.rate
          q.paid in
      omega (
        arith,
        p.paid,
        s,
        between l.last_refill j.last_refill k.last_refill l.rate p.later q.later,
      );
}

some_inj {ℓ} : {A : Type ℓ} {a b : A} → some a ≡ some b → a ≡ b
some_inj e = cc

-- No clock goes back behind what the limiter has seen.
abbrev pub IsTimely : Limiter → List (ℕ × List ℕ) → Type 0
IsTimely l [] = Unit
IsTimely l ((bytes, clock) ∷ rest) =
    IsRising l.last_refill clock
    × elim (acquire bytes clock l) as (λ k. Type 0) [ none ↦ Unit | some k ↦ IsTimely k rest ]

abbrev pub total_of : List (ℕ × List ℕ) → ℕ
total_of [] = 0
total_of ((bytes, clock) ∷ rest) = bytes + total_of rest

then-Paid :
    (bytes : ℕ) (rest : List (ℕ × List ℕ)) (l k : Limiter)
    → 0 < l.rate
    → ((j : Limiter)
        → 0 < j.rate
        → IsTimely j rest
        → acquire_all rest j ≡ some k
        → IsPaid (total_of rest) j k)
    → (o : Option Limiter) → Paid bytes l o
    → elim o as (λ k. Type 0) [ none ↦ Unit | some j ↦ IsTimely j rest ]
    → elim o as (λ j. Option Limiter) [ none ↦ none | some j ↦ acquire_all rest j ] ≡ some k
    → IsPaid (bytes + total_of rest) l k
then-Paid bytes rest l k r go none p h e = absurd (ground arith)
then-Paid bytes rest l k r go (some j) p h e =
    IsPaid-twice bytes (total_of rest) l j k p (go j (omega (arith, r, p.rate)) h e)

acquire_all-IsPaid :
    (runs : List (ℕ × List ℕ)) (l k : Limiter)
    → 0 < l.rate
    → IsTimely l runs
    → acquire_all runs l ≡ some k
    → IsPaid (total_of runs) l k
unfolding acquire_all
acquire_all-IsPaid [] l k r h e = subst (IsPaid 0 l) (some_inj e) (idle-IsPaid l)
acquire_all-IsPaid ((bytes, clock) ∷ rest) l k r h e =
    then-Paid bytes rest l k r (λ j s h e. acquire_all-IsPaid rest j k s h e)
      (acquire bytes clock l) (acquire-Paid bytes clock l r h.0) h.1 e

-- The limit is kept: with a rate, on clocks that do not go back, however many acquisitions are
-- granted one after another, of whatever sizes, their bytes are at most the tokens there were and
-- what the rate allows for the time until the last of them.
pub acquire_all-le :
    (runs : List (ℕ × List ℕ)) (l k : Limiter)
    → 0 < l.rate
    → IsTimely l runs
    → acquire_all runs l ≡ some k
    → 1000 * total_of runs ≤ l.tokens + (k.last_refill - l.last_refill) * l.rate
acquire_all-le runs l k r h e = omega (arith, (acquire_all-IsPaid runs l k r h e).paid)
