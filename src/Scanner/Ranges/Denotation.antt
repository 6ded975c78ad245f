-- ===== src/Scanner/Ranges/Denotation.antt =====
-- What a list of ranges denotes, and that parsing it gives that.
use antminer_chip_tuner.Prelude.{
  ℕ, ◌+◌, ◌-◌, ◌≤◌, ◌≡◌, refl, String, Bool, false, Option, none, some, List, [], ◌∷◌, ◌||◌, ◌&&◌,
  ◌==◌, leb, ltb, ◌=ˢ◌, if◌then◌else◌, arith, length, Bool-cases, inl, inr, subst,
}
use antminer_chip_tuner.Scanner.Ranges.Sets.{
  IsAscending, IsDistinct, mem-add_block, mem-sorted, mem-again, sorted-IsAscending, length-sorted,
  length-add_block, add_block-IsDistinct,
}
use antminer_chip_tuner.Scanner.Ranges.{
  Texts, Parsed, raised, parsed, mem, Progress, count_block, parse_network, parse_range,
  parse_single, parse_item, parse_from, parse_ip_ranges, and_then,
}

parsed_eq : {A : Type 0} {a b : A} → parsed a ≡ parsed b → a ≡ b
parsed_eq h = cc

-- The set has no element twice, and the count covers it and is within the limit.
abbrev IsProgress : Progress → Type 0
IsProgress (total, xs) = IsDistinct xs × (length xs ≤ total) × (total ≤ 65536)

-- The addresses of an item, read off its text.
abbrev in_network : Option (ℕ × ℕ) → ℕ → Bool
in_network none b = false
in_network (some (first, count)) b = leb first b && ltb b (first + count)

abbrev between : Option ℕ → Option ℕ → ℕ → Bool
between (some start) (some end) b = leb start b && leb b end
between (some start) none b = false
between none end b = false

abbrev is_address : Option ℕ → ℕ → Bool
is_address none b = false
is_address (some a) b = b == a

-- The outcome is an error, or the addresses that `p` names have been added.
abbrev HasAdded : (ℕ → Bool) → Progress → Parsed Progress → Type 0
HasAdded p st (raised e) = Unit
HasAdded p st (parsed st1) = IsProgress st1 × ((b : ℕ) → mem b st1.1 ≡ (p b || mem b st.1))

count_block_lem :
    (first count : ℕ) (st : Progress)
    → IsProgress st
    → HasAdded (λ b. leb first b && ltb b (first + count)) st (count_block first count st)
unfolding count_block
count_block_lem first count (total, xs) h =
    let len = length-add_block first count xs in
    let distinct = add_block-IsDistinct first count xs h.0 in
    elim (Bool-cases (ltb 65536 (total + count))) [
      | inl e ↦ rw e tt
      | inr e ↦ rw e ((distinct, ground arith, ground arith), λ b. mem-add_block b first count xs)
    ]

HasAdded-ext :
    (p q : ℕ → Bool) (st : Progress) (r : Parsed Progress)
    → ((b : ℕ) → p b ≡ q b)
    → HasAdded p st r
    → HasAdded q st r
HasAdded-ext p q st (raised e) k h = tt
HasAdded-ext p q st (parsed st1) k h = (h.0, λ b. ground (arith, k b, h.1 b))

HasAdded-chain :
    (p q : ℕ → Bool) (st st1 : Progress) (r : Parsed Progress)
    → HasAdded p st (parsed st1)
    → HasAdded q st1 r
    → HasAdded (λ b. p b || q b) st r
HasAdded-chain p q st st1 (raised e) h k = tt
HasAdded-chain p q st st1 (parsed st2) h k = (k.0, λ b. ground (arith, h.1 b, k.1 b))

parse_network_lem :
    (i : ℕ) (o : Option (ℕ × ℕ)) (st : Progress)
    → IsProgress st
    → HasAdded (in_network o) st (parse_network i o st)
unfolding parse_network
parse_network_lem i none st h = tt
parse_network_lem i (some (first, count)) st h = count_block_lem first count st h

parse_range_lem :
    (i : ℕ) (o u : Option ℕ) (st : Progress)
    → IsProgress st
    → HasAdded (between o u) st (parse_range i o u st)
unfolding parse_range
parse_range_lem i none u st h = tt
parse_range_lem i (some start) none st h = tt
parse_range_lem i (some start) (some end) st h = elim (Bool-cases (ltb end start)) [
  | inl e ↦ rw e tt
  | inr e ↦ rw e (
      HasAdded-ext (λ b. leb start b && ltb b (start + (end - start + 1)))
        (between (some start) (some end)) st (count_block start (end - start + 1) st)
        (λ b. ground arith) (count_block_lem start (end - start + 1) st h))
]

parse_single_lem :
    (i : ℕ) (o : Option ℕ) (st : Progress)
    → IsProgress st
    → HasAdded (is_address o) st (parse_single i o st)
unfolding parse_single mem
parse_single_lem i none st h = tt
parse_single_lem i (some a) (total, xs) h = elim (Bool-cases (mem a xs)) [
  | inl e ↦ rw e (h, λ b. mem-again a xs b e)
  | inr e ↦ elim (Bool-cases (ltb 65536 (total + 1))) [
    | inl f ↦ rw (e, f) tt
    | inr f ↦ rw (e, f) (((e, h.0), ground arith, ground arith), λ b. refl)
  ]
]

module _ (py : Texts) where
  -- The addresses that an item denotes; a blank one denotes none.
  abbrev pub denotes : String → ℕ → Bool
  denotes item b =
      let t : String = py.strip item in
      let parts : String × String = py.split_dash t in
      if t =ˢ ""
      then false
      else if py.has "/" t
      then in_network (py.ipv4_network t) b
      else if py.has "-" t
      then between (py.ipv4_address (py.strip parts.0)) (py.ipv4_address (py.strip parts.1)) b
      else is_address (py.ipv4_address t) b

  unfoldable pub any_denotes : List String → ℕ → Bool
  any_denotes [] b = false
  any_denotes (item ∷ items) b = denotes item b || any_denotes items b

  parse_item_lem :
      (i : ℕ) (item : String) (st : Progress)
      → IsProgress st
      → HasAdded (denotes item) st (parse_item py i item st)
  unfolding parse_item
  parse_item_lem i item st h =
      let t : String = py.strip item in
      let n = py.ipv4_network t in
      let o = py.ipv4_address (py.strip (py.split_dash t).0) in
      let u = py.ipv4_address (py.strip (py.split_dash t).1) in
      let one = py.ipv4_address t in
      elim (Bool-cases (t =ˢ "")) [
        | inl a ↦ rw a (h, λ b. rw a refl)
        | inr a ↦ elim (Bool-cases (py.has ":" t)) [
          | inl c ↦ rw (a, c) tt
          | inr c ↦ elim (Bool-cases (py.has "/" t)) [
            | inl d ↦
                rw (a, c, d)
                  (HasAdded-ext (in_network n) (denotes item) st (parse_network i n st)
                    (λ b. rw (a, d) refl) (parse_network_lem i n st h))
            | inr d ↦ elim (Bool-cases (py.has "-" t)) [
              | inl e ↦
                  rw (a, c, d, e)
                    (HasAdded-ext (between o u) (denotes item) st (parse_range i o u st)
                      (λ b. rw (a, d, e) refl) (parse_range_lem i o u st h))
              | inr e ↦
                  rw (a, c, d, e)
                    (HasAdded-ext (is_address one) (denotes item) st (parse_single i one st)
                      (λ b. rw (a, d, e) refl) (parse_single_lem i one st h))
            ]
          ]
        ]
      ]

  parse_from_step :
      (i : ℕ) (item : String) (items : List String) (st : Progress) (r : Parsed Progress)
      → parse_item py i item st ≡ r
      → HasAdded (denotes item) st r
      → ((st1 : Progress)
          → IsProgress st1
          → HasAdded (any_denotes items) st1 (parse_from py (i + 1) items st1))
      → HasAdded (any_denotes (item ∷ items)) st (parse_from py i (item ∷ items) st)
  unfolding parse_from any_denotes and_then
  parse_from_step i item items st (raised x) e h k = rw e tt
  parse_from_step i item items st (parsed st1) e h k = rw e (
      HasAdded-chain (denotes item) (any_denotes items) st st1 (parse_from py (i + 1) items st1) h
        (k st1 h.0))

  parse_from_lem :
      (i : ℕ) (items : List String) (st : Progress)
      → IsProgress st
      → HasAdded (any_denotes items) st (parse_from py i items st)
  unfolding parse_from any_denotes and_then
  parse_from_lem i [] st h = (h, λ b. refl)
  parse_from_lem i (item ∷ items) st h =
      parse_from_step i item items st (parse_item py i item st) refl (parse_item_lem i item st h)
        (parse_from_lem (i + 1) items)

  -- A list of ranges that parses without an error gives addresses in strictly ascending order, at
  -- most 65536 of them, and an address is among them exactly if one of the items denotes it.
  pub parse_ip_ranges-any_denotes :
      (items : List String) (out : List ℕ)
      → parse_ip_ranges py items ≡ parsed out
      → IsAscending out × (length out ≤ 65536) × ((b : ℕ) → mem b out ≡ any_denotes items b)
  unfolding parse_ip_ranges and_then mem
  parse_ip_ranges-any_denotes items out h =
      outcome items out (parse_from py 0 items (0, [])) refl
        (parse_from_lem 0 items (0, []) (tt, ground arith, ground arith)) h
    where
      outcome :
          (items : List String) (out : List ℕ) (r : Parsed Progress)
          → parse_from py 0 items (0, []) ≡ r
          → HasAdded (any_denotes items) (0, []) r
          → parse_ip_ranges py items ≡ parsed out
          → IsAscending out × (length out ≤ 65536) × ((b : ℕ) → mem b out ≡ any_denotes items b)
      outcome items out (raised x) e k h = absurd (ground (arith, e))
      outcome items out (parsed st) e k h =
          subst
            (λ (o : List ℕ).
              IsAscending o × (length o ≤ 65536) × ((b : ℕ) → mem b o ≡ any_denotes items b))
            (parsed_eq (rw e at h))
            (
              sorted-IsAscending st.1 k.0.0,
              omega (arith, length-sorted st.1, k.0.1),
              λ b. ground (arith, mem-sorted b st.1, k.1 b),
            )
