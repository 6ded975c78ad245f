-- ===== src/Scanner/Ranges/Sets.antt =====
-- The set of addresses that is collected, as a list, and its sorting.
use antminer_chip_tuner.Prelude.{
  ℕ, zero, suc, ◌+◌, ◌≤◌, ◌<◌, ◌≡◌, refl, true, false, List, [], ◌∷◌, ◌||◌, ◌&&◌, ◌==◌, leb, ltb,
  arith, length, Bool-cases, inl, inr, subst, sym, ==_iff,
}
use antminer_chip_tuner.Scanner.Ranges.{mem, add, add_block, insert, sorted}

mem-add : (b a : ℕ) (xs : List ℕ) → mem b (add a xs) ≡ (b == a || mem b xs)
unfolding add mem
mem-add b a xs = ground arith

pub mem-add_block :
    (b first n : ℕ) (xs : List ℕ)
    → mem b (add_block first n xs) ≡ (leb first b && ltb b (first + n) || mem b xs)
unfolding add_block
mem-add_block b first zero xs = ground arith
mem-add_block b first (suc n) xs =
    ground (arith, mem-add_block b (first + 1) n (add first xs), mem-add b first xs)

mem-insert : (b a : ℕ) (xs : List ℕ) → mem b (insert a xs) ≡ (b == a || mem b xs)
unfolding insert mem
mem-insert b a [] = refl
mem-insert b a (x ∷ xs) = ground (arith, mem-insert b a xs)

pub mem-sorted : (b : ℕ) (xs : List ℕ) → mem b (sorted xs) ≡ mem b xs
unfolding sorted mem
mem-sorted b [] = refl
mem-sorted b (x ∷ xs) = ground (arith, mem-sorted b xs, mem-insert b x (sorted xs))

-- Every element is greater than the one before it, and the first is greater than `b`.
abbrev pub IsAscendingFrom : ℕ → List ℕ → Type 0
IsAscendingFrom b [] = Unit
IsAscendingFrom b (x ∷ xs) = (b < x) × IsAscendingFrom x xs

abbrev pub IsAscending : List ℕ → Type 0
IsAscending [] = Unit
IsAscending (x ∷ xs) = IsAscendingFrom x xs

-- No element stands twice.
abbrev pub IsDistinct : List ℕ → Type 0
IsDistinct [] = Unit
IsDistinct (x ∷ xs) = (mem x xs ≡ false) × IsDistinct xs

pub mem-again : (a : ℕ) (xs : List ℕ) (b : ℕ) → mem a xs ≡ true → mem b xs ≡ (b == a || mem b xs)
mem-again a xs b e = elim (Bool-cases (b == a)) [
  | inl f ↦
      subst (λ (c : ℕ). mem c xs ≡ (c == a || mem c xs)) (sym ((==_iff b a).0 f))
        (rw e (ground arith))
  | inr f ↦ rw f refl
]

insert-IsAscendingFrom :
    (b a : ℕ) (xs : List ℕ)
    → b < a
    → mem a xs ≡ false
    → IsAscendingFrom b xs
    → IsAscendingFrom b (insert a xs)
unfolding insert mem
insert-IsAscendingFrom b a [] p q h = (p, tt)
insert-IsAscendingFrom b a (x ∷ xs) p q h = ground (arith, insert-IsAscendingFrom x a xs)

insert-IsAscending :
    (a : ℕ) (xs : List ℕ) → mem a xs ≡ false → IsAscending xs → IsAscending (insert a xs)
unfolding insert mem
insert-IsAscending a [] q h = tt
insert-IsAscending a (x ∷ xs) q h = ground (arith, insert-IsAscendingFrom x a xs)

pub sorted-IsAscending : (xs : List ℕ) → IsDistinct xs → IsAscending (sorted xs)
unfolding sorted
sorted-IsAscending [] h = tt
sorted-IsAscending (x ∷ xs) h =
    ground (arith, insert-IsAscending x (sorted xs), sorted-IsAscending xs h.1, mem-sorted x xs)

length-insert : (a : ℕ) (xs : List ℕ) → length (insert a xs) ≡ length xs + 1
unfolding insert
length-insert a [] = refl
length-insert a (x ∷ xs) = ground (arith, length-insert a xs)

pub length-sorted : (xs : List ℕ) → length (sorted xs) ≡ length xs
unfolding sorted
length-sorted [] = refl
length-sorted (x ∷ xs) = omega (arith, length-insert x (sorted xs), length-sorted xs)

pub length-add_block : (first n : ℕ) (xs : List ℕ) → length (add_block first n xs) ≤ length xs + n
unfolding add_block add
length-add_block first zero xs = ground arith
length-add_block first (suc n) xs = ground (arith, length-add_block (first + 1) n (add first xs))

pub add_block-IsDistinct :
    (first n : ℕ) (xs : List ℕ) → IsDistinct xs → IsDistinct (add_block first n xs)
unfolding add_block
add_block-IsDistinct first zero xs h = h
add_block-IsDistinct first (suc n) xs h =
    add_block-IsDistinct (first + 1) n (add first xs) (unfold add in ground arith)
