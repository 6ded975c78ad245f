-- ===== src/ChipTune/Chips/Facts.antt =====
-- The spread of a board as a statement about any two of its chips.
use native.Mathlib.Nat.{add-zero}
use antminer_chip_tuner.Prelude.{
  ℕ, zero, suc, ◌+◌, ◌≤◌, ◌≡◌, false, some, List, [], ◌∷◌, arith, ◌==◌, ◌<◌, get_elem?, set, length,
  if◌then◌else◌, get_elem?-set_self, get_elem?-set_ne, Bool-cases, inl, inr,
}
use antminer_chip_tuner.ChipTune.Chips.{is_parked, alive_freqs, list_max, list_min, spread_of}

-- A read after a write in bounds.
pub get_elem?-set {ℓ} :
    {A : Type ℓ} (xs : List A) (i j : ℕ) (v : A)
    → i < length xs
    → get_elem? (set xs i v) j ≡ (if i == j then some v else get_elem? xs j)
get_elem?-set xs i j v h = elim (Bool-cases (i == j)) [
  | inl e ↦ let p : i ≡ j = ground arith in rw (e, ← p) (get_elem?-set_self xs i v h)
  | inr e ↦ rw e (get_elem?-set_ne xs i j v (λ p. ground arith))
]

list_min_head : (x : ℕ) (xs : List ℕ) → list_min (x ∷ xs) ≤ x
unfolding list_min
list_min_head x [] = omega arith
list_min_head x (y ∷ ys) = omega arith

list_min_tail : (x : ℕ) (xs : List ℕ) → 0 < length xs → list_min (x ∷ xs) ≤ list_min xs
unfolding list_min
list_min_tail x [] h = absurd (omega arith)
list_min_tail x (y ∷ ys) h = omega arith

-- `xs` holds `f`, as far as the spread is concerned.
record Holds (xs : List ℕ) (f : ℕ) : Type 0 where
  nonempty : 0 < length xs
  lower : list_min xs ≤ f
  upper : f ≤ list_max xs

Holds-head : (x : ℕ) (xs : List ℕ) → Holds (x ∷ xs) x
unfolding list_max
Holds-head x xs = ground (arith, list_min_head x xs)

Holds-tail : (x : ℕ) (xs : List ℕ) (f : ℕ) → Holds xs f → Holds (x ∷ xs) f
unfolding list_max
Holds-tail x xs f h = ground (arith, list_min_tail x xs)

alive_freqs-Holds :
    (parked : List ℕ) (k : ℕ) (fs : List ℕ) (i f : ℕ)
    → get_elem? fs i ≡ some f
    → is_parked (k + i) parked ≡ false
    → Holds (alive_freqs parked k fs) f
unfolding alive_freqs
alive_freqs-Holds parked k [] i f e a = cc
alive_freqs-Holds parked k (x ∷ fs) zero f e a =
    let p : is_parked k parked ≡ false = rw (add-zero) at a in
    rw p (ground (arith, Holds-head x (alive_freqs parked (k + 1) fs)))
alive_freqs-Holds parked k (x ∷ fs) (suc i) f e a =
    let q : k + 1 + i ≡ k + suc i = omega arith in
    let tail : Holds (alive_freqs parked (k + 1) fs) f =
      alive_freqs-Holds parked (k + 1) fs i f e (rw q a) in
    elim (Bool-cases (is_parked k parked)) [
      | inl p ↦ rw p tail
      | inr p ↦ rw p (Holds-tail x (alive_freqs parked (k + 1) fs) f tail)
    ]

-- Any two chips that are not parked are at most the board's spread apart.
pub le-spread_of :
    (parked fs : List ℕ) (i j f g : ℕ)
    → get_elem? fs i ≡ some f
    → get_elem? fs j ≡ some g
    → is_parked i parked ≡ false
    → is_parked j parked ≡ false
    → f ≤ g + spread_of (alive_freqs parked 0 fs)
unfolding spread_of
le-spread_of parked fs i j f g p q a b =
    let zi : 0 + i ≡ i = omega arith in
    let zj : 0 + j ≡ j = omega arith in
    omega (
      arith,
      alive_freqs-Holds parked 0 fs i f p (rw zi a),
      alive_freqs-Holds parked 0 fs j g q (rw zj b),
    )
