-- ===== src/ChipTune/Profiling/Boards.antt =====
-- What a board of chips must satisfy, and when one changed chip keeps it.
use antminer_chip_tuner.Prelude.{
  ℕ, ◌+◌, ◌≤◌, ◌<◌, ◌≡◌, false, Option, some, arith, get_elem?, set, length, length-set,
  get_elem?-lt, ◌==◌, if◌then◌else◌, Bool-cases, ◌⊎◌, inl, inr,
}
use antminer_chip_tuner.ChipTune.Chips.{Chips, Limits, is_parked, cap_of, alive_freqs, spread_of}
use antminer_chip_tuner.ChipTune.Chips.Facts.{get_elem?-set, le-spread_of}
use antminer_chip_tuner.ChipTune.Profiling.{lower_cap}

-- A chip of the board that is not parked runs at `f`.
pub record Runs (c : Chips) (i f : ℕ) : Type 0 where
  pub alive : is_parked i c.parked ≡ false
  pub at : get_elem? c.freqs i ≡ some f

-- Every chip that is not parked runs between `lo` and the upper limit, and none above the least
-- frequency at which it was found unstable.
pub record IsBounded (lo : ℕ) (lim : Limits) (c : Chips) : Type 0 where
  pub shape : length c.chip_max ≡ length c.freqs
  pub clamped : (i f : ℕ) → Runs c i f → (lo ≤ f) × (f ≤ lim.f_max_eff)
  pub bracketed : (i f m : ℕ) → Runs c i f → cap_of c i ≡ some m → f ≤ m

-- The spread cap.
pub record IsTogether (lim : Limits) (c : Chips) : Type 0 where
  pub together : spread_of (alive_freqs c.parked 0 c.freqs) ≤ lim.spread

-- Any two chips of such a board that are not parked are at most the spread cap apart.
pub within_spread :
    (lim : Limits) (c : Chips) (i j f g : ℕ)
    → IsTogether lim c
    → Runs c i f
    → Runs c j g
    → f ≤ g + lim.spread
within_spread lim c i j f g s p q =
    omega (arith, s.together, le-spread_of c.parked c.freqs i j f g p.at q.at p.alive q.alive)

-- The known-unstable frequencies after one is recorded.
cap_of-set :
    (c : Chips) (i j : ℕ) (m : Option ℕ)
    → i < length c.chip_max
    → cap_of (record c { chip_max = set c.chip_max i m }) j ≡ (if i == j then m else cap_of c j)
unfolding cap_of
cap_of-set c i j m h = ground (arith, get_elem?-set c.chip_max i j m h)

-- A chip of the moved board is the one that moved, or runs as before.
pub moved-Runs :
    (c : Chips) (i t j f : ℕ)
    → i < length c.freqs
    → Runs (record c { freqs = set c.freqs i t }) j f
    → ((i ≡ j) × (f ≡ t)) ⊎ Runs c j f
moved-Runs c i t j f inside q = elim (Bool-cases (i == j)) [
  | inl e ↦ inl (ground (arith, q.at, get_elem?-set c.freqs i j t inside))
  | inr e ↦
      inr
        (record { alive = q.alive; at = ground (arith, q.at, get_elem?-set c.freqs i j t inside) })
]

-- Chip `i` moved to an admissible frequency.
pub moved-IsBounded :
    (lo : ℕ) (lim : Limits) (c : Chips) (i cur t : ℕ)
    → IsBounded lo lim c
    → Runs c i cur
    → (lo ≤ t) × (t ≤ lim.f_max_eff)
    → ((m : ℕ) → cap_of c i ≡ some m → t ≤ m)
    → IsBounded lo lim (record c { freqs = set c.freqs i t })
unfolding cap_of
moved-IsBounded lo lim c i cur t s r range below =
    let inside = get_elem?-lt c.freqs i r.at in
    record {
      shape = ground (arith, s.shape, length-set c.freqs i t);
      clamped = λ j f q. elim (moved-Runs c i t j f inside q) [
        | inl e ↦ ground arith
        | inr old ↦ s.clamped j f old
      ];
      bracketed = λ j f m q e. elim (moved-Runs c i t j f inside q) [
        | inl p ↦ rw p.1 (below m (rw p.0 e))
        | inr old ↦ s.bracketed j f m old e
      ];
    }

-- The frequency of chip `i` recorded as unstable.
pub noted-IsBounded :
    (lo : ℕ) (lim : Limits) (c : Chips) (i cur : ℕ)
    → IsBounded lo lim c
    → Runs c i cur
    → IsBounded lo lim (record c { chip_max = set c.chip_max i (lower_cap (cap_of c i) cur) })
unfolding lower_cap
noted-IsBounded lo lim c i cur s r =
    let inside : i < length c.chip_max = omega (arith, s.shape, get_elem?-lt c.freqs i r.at) in
    record {
      shape = ground (arith, s.shape, length-set c.chip_max i (lower_cap (cap_of c i) cur));
      clamped = λ j f q. s.clamped j f (record { alive = q.alive; at = q.at });
      bracketed = λ j f m q e.
          let old : Runs c j f = record { alive = q.alive; at = q.at } in
          ground (
            arith,
            e,
            q.at,
            r.at,
            cap_of-set c i j (lower_cap (cap_of c i) cur) inside,
            s.bracketed j f m old,
          );
    }
