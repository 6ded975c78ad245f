-- ===== src/Scanner/Ranges.antt =====
-- tuner_app/scanner/ranges.py: lists of address ranges. An address is its number. Arguments stand
-- for Python's text operations and for the module ipaddress; a ValueError of the latter is `none`.
pub mod Sets
pub mod Denotation
use antminer_chip_tuner.Prelude.{
  ℕ, zero, suc, ◌+◌, ◌-◌, String, Bool, true, false, Option, none, some, List, [], ◌∷◌, ◌||◌, ◌==◌,
  leb, ltb, ◌=ˢ◌, if◌then◌else◌,
}

pub record Texts : Type 0 where
  pub strip : String → String
  pub has : String → String → Bool  -- the first text is in the second
  pub split_dash : String → String × String  -- item.split("-", 1) of a text that has a dash
  pub ipv4_address : String → Option ℕ
  pub ipv4_network : String → Option (ℕ × ℕ)  -- the first address and num_addresses

-- The ValueErrors, with the row.
pub data RangeError : Type 0 where
  ipv6 : ℕ → RangeError
  invalid_cidr : ℕ → RangeError
  invalid_in_range : ℕ → RangeError
  reverse_range : ℕ → RangeError
  invalid_address : ℕ → RangeError
  too_many : RangeError

pub data Parsed (A : Type 0) : Type 0 where
  raised : RangeError → Parsed A
  parsed : A → Parsed A

-- What follows a step that may raise.
unfoldable pub and_then : {A B : Type 0} → Parsed A → (A → Parsed B) → Parsed B
and_then (raised e) f = raised e
and_then (parsed a) f = f a

unfoldable pub mem : ℕ → List ℕ → Bool
mem a [] = false
mem a (x ∷ xs) = a == x || mem a xs

-- result.add
unfoldable pub add : ℕ → List ℕ → List ℕ
add a xs = if mem a xs then xs else a ∷ xs

-- The addresses from the first on, added in order.
unfoldable pub add_block : ℕ → ℕ → List ℕ → List ℕ
add_block first zero xs = xs
add_block first (suc n) xs = add_block (first + 1) n (add first xs)

-- total_count and result
abbrev pub Progress : Type 0
Progress = ℕ × List ℕ

unfoldable pub count_block : ℕ → ℕ → Progress → Parsed Progress
count_block first count (total, xs) =
    if ltb 65536 (total + count)
    then raised too_many
    else parsed (total + count, add_block first count xs)

unfoldable pub parse_network : ℕ → Option (ℕ × ℕ) → Progress → Parsed Progress
parse_network i none st = raised (invalid_cidr i)
parse_network i (some (first, count)) st = count_block first count st

unfoldable pub parse_range : ℕ → Option ℕ → Option ℕ → Progress → Parsed Progress
parse_range i none end st = raised (invalid_in_range i)
parse_range i (some start) none st = raised (invalid_in_range i)
parse_range i (some start) (some end) st =
    if ltb end start then raised (reverse_range i) else count_block start (end - start + 1) st

unfoldable pub parse_single : ℕ → Option ℕ → Progress → Parsed Progress
parse_single i none st = raised (invalid_address i)
parse_single i (some a) (total, xs) =
    if mem a xs
    then parsed (total, xs)
    else if ltb 65536 (total + 1)
    then raised too_many
    else parsed (total + 1, a ∷ xs)

-- sorted(result)
unfoldable pub insert : ℕ → List ℕ → List ℕ
insert a [] = a ∷ []
insert a (x ∷ xs) = let rest = insert a xs in if leb a x then a ∷ x ∷ xs else x ∷ rest

unfoldable pub sorted : List ℕ → List ℕ
sorted [] = []
sorted (x ∷ xs) = insert x (sorted xs)

module _ (py : Texts) where
  -- The body of the loop
  unfoldable pub parse_item : ℕ → String → Progress → Parsed Progress
  parse_item i item st =
      let t : String = py.strip item in
      let parts : String × String = py.split_dash t in
      if t =ˢ ""
      then parsed st
      else if py.has ":" t
      then raised (ipv6 i)
      else if py.has "/" t
      then parse_network i (py.ipv4_network t) st
      else if py.has "-" t
      then parse_range i (py.ipv4_address (py.strip parts.0)) (py.ipv4_address (py.strip parts.1))
          st
      else parse_single i (py.ipv4_address t) st

  unfoldable pub parse_from : ℕ → List String → Progress → Parsed Progress
  parse_from i [] st = parsed st
  parse_from i (item ∷ items) st = and_then (parse_item i item st) (parse_from (i + 1) items)

  unfoldable pub parse_ip_ranges : List String → Parsed (List ℕ)
  parse_ip_ranges items = and_then (parse_from 0 items (0, [])) (λ st. parsed (sorted st.1))
