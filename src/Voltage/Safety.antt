-- ===== src/Voltage/Safety.antt =====
-- No voltage is written outside a verified range.
use antminer_chip_tuner.Floats.{Floats}
use antminer_chip_tuner.Prelude.{
  String, ◌≡◌, refl, true, Option, none, some, arith, ◌&&◌, ◌=ˢ◌, Bool-cases, inl, inr,
}
use antminer_chip_tuner.Voltage.{
  Volts, boolean, unreadable, not_finite, millivolts, Topology, is_sane, bounds_of, check_target,
  check_bounds, require_verified_voltage_target, require_topology, require_voltage_mutation_allowed,
}

module _ (fl : Floats) where
  -- The topology's range was verified, begins at one volt at least, is not empty and contains `t`.
  pub record Covers (topology : Topology fl) (t : fl.Num) : Type 0 where
    pub lo : fl.Num
    pub hi : fl.Num
    pub verified : topology.psu_bounds_verified ≡ true
    pub lower : topology.psu_min_mv ≡ millivolts lo
    pub upper : topology.psu_max_mv ≡ millivolts hi
    pub from_one_volt : fl.leb (fl.of_ℕ 1000) lo ≡ true
    pub not_empty : fl.ltb lo hi ≡ true
    pub above : fl.leb lo t ≡ true
    pub below : fl.leb t hi ≡ true

  target_within :
      (a b t : fl.Num)
      → check_target fl (a, b) (some (millivolts t)) ≡ none
      → (fl.leb a t ≡ true) × (fl.leb t b ≡ true)
  unfolding check_target
  target_within a b t e = ground arith

  sane_within :
      (a b t : fl.Num)
      → check_bounds fl (bounds_of fl (millivolts a) (millivolts b)) (some (millivolts t)) ≡ none
      → ((fl.leb (fl.of_ℕ 1000) a && fl.ltb a b) ≡ true)
        × (check_target fl (a, b) (some (millivolts t)) ≡ none)
  unfolding check_bounds bounds_of is_sane
  sane_within a b t e = ground arith

  bounds-Covers :
      (topology : Topology fl) (lo hi : Volts fl) (t : fl.Num)
      → topology.psu_bounds_verified ≡ true
      → topology.psu_min_mv ≡ lo
      → topology.psu_max_mv ≡ hi
      → check_bounds fl (bounds_of fl lo hi) (some (millivolts t)) ≡ none
      → Covers topology t
  unfolding check_bounds bounds_of is_sane
  bounds-Covers topology (millivolts a) (millivolts b) t v p q e =
      let (sane, close) = sane_within a b t e in
      record {
        lo = a;
        hi = b;
        verified = v;
        lower = p;
        upper = q;
        from_one_volt = ground (arith, sane);
        not_empty = ground (arith, sane);
        above = (target_within a b t close).0;
        below = (target_within a b t close).1;
      }
  bounds-Covers topology (millivolts a) boolean t v p q e = absurd (cc)
  bounds-Covers topology (millivolts a) unreadable t v p q e = absurd (cc)
  bounds-Covers topology (millivolts a) not_finite t v p q e = absurd (cc)
  bounds-Covers topology boolean b t v p q e = absurd (cc)
  bounds-Covers topology unreadable b t v p q e = absurd (cc)
  bounds-Covers topology not_finite b t v p q e = absurd (cc)

  -- If a direct-voltage strategy may write a finite voltage, then a topology is loaded whose range
  -- was verified with the firmware, begins at 1000 mV at least, is not empty, and contains it.
  pub voltage_mutation_covered :
      (strategy : String) (o : Option (Topology fl)) (t : fl.Num)
      → (strategy =ˢ "voltage_chip_tune") ≡ true
      → require_voltage_mutation_allowed fl strategy o (some (millivolts t)) ≡ none
      → (topology : Topology fl) × (o ≡ some topology) × Covers topology t
  unfolding require_voltage_mutation_allowed require_topology require_verified_voltage_target
  voltage_mutation_covered strategy none t s e = absurd (ground (arith, s, e))
  voltage_mutation_covered strategy (some topology) t s e =
      elim (Bool-cases topology.psu_bounds_verified) [
        | inl v ↦ (
          topology,
          refl,
          bounds-Covers topology topology.psu_min_mv topology.psu_max_mv t v refl refl
              (ground (arith, s, v, e)),
        )
        | inr v ↦ absurd (ground (arith, s, v, e))
      ]
