-- ===== src/Mrr/Nonce.antt =====
-- tuner_app/mrr/nonce.py: the nonce source, with the value that is on disk. The clock and whether
-- a write to the disk succeeds are arguments; times are in microseconds.
use antminer_chip_tuner.Prelude.{
  ℕ, ◌+◌, ◌<◌, max, ◌≡◌, refl, subst, Bool, true, Option, none, some, List, [], ◌∷◌, arith,
  if◌then◌else◌,
}

pub record MrrNonce : Type 0 where
  pub value : ℕ  -- _value
  pub stored : Option ℕ  -- the nonce in the file, if it can be read

-- _load
unfoldable pub load : Option ℕ → ℕ
load none = 0
load (some n) = n

-- __init__
unfoldable pub start : Option ℕ → MrrNonce
start stored = record { value = load stored; stored = stored }

unfoldable pub next : ℕ → Bool → MrrNonce → MrrNonce × ℕ
next now_us written n =
    let v : ℕ = max (n.value + 1) now_us in
    let stored : Option ℕ = if written then some v else n.stored in
    (record { value = v; stored = stored }, v)

-- What happens to the source: a call of `next` at a time of the clock, whose write to the disk
-- succeeds or not; or a restart of the process, which reads the file again.
pub data Event : Type 0 where
  call : ℕ → Bool → Event
  restart : Event

-- The nonces that the calls give, in order.
unfoldable pub nonces : List Event → MrrNonce → List ℕ
unfolding next start
nonces [] n = []
nonces (call now_us written ∷ es) n = let r = next now_us written n in r.1 ∷ nonces es r.0
nonces (restart ∷ es) n = nonces es (start n.stored)

-- Every nonce is greater than the one before it, and the first is greater than `b`.
abbrev pub IsAbove : ℕ → List ℕ → Type 0
IsAbove b [] = Unit
IsAbove b (x ∷ xs) = (b < x) × IsAbove x xs

-- Every restart comes when the last write succeeded, as `b` says it did before the first event.
abbrev pub IsSaved : Bool → List Event → Type 0
IsSaved b [] = Unit
IsSaved b (call now_us written ∷ es) = IsSaved written es
IsSaved b (restart ∷ es) = (b ≡ true) × IsSaved true es

-- The nonces increase strictly from call to call whatever the clock shows, backward steps
-- included, and across restarts too, provided that each restart comes when the last write to the
-- disk succeeded.
pub nonces-IsAbove :
    (b : Bool) (es : List Event) (n : MrrNonce)
    → (b ≡ true → load n.stored ≡ n.value)
    → IsSaved b es
    → IsAbove n.value (nonces es n)
unfolding nonces next start load
nonces-IsAbove b [] n k h = tt
nonces-IsAbove b (call now_us written ∷ es) n k h =
    (ground arith, nonces-IsAbove written es (next now_us written n).0 (λ e. rw e refl) h)
nonces-IsAbove b (restart ∷ es) n k h =
    subst (λ (v : ℕ). IsAbove v (nonces es (start n.stored))) (k h.0)
      (nonces-IsAbove true es (start n.stored) (λ e. refl) h.1)
