-- ===== src/Explore/Remeasure/Kept.antt =====
-- What a remeasurement keeps.
use antminer_chip_tuner.Floats.{Floats}
use antminer_chip_tuner.Prelude.{◌≡◌, Option, none, some, List, [], ◌∷◌, if◌then◌else◌}
use antminer_chip_tuner.Explore.Surface.{Key, key_eq, Cell, Surface, by_key}
use antminer_chip_tuner.Explore.Remeasure.{
  RemeasureState, Attempt, measured, no_data, failed, Drained, processed, raised,
}

module _ (fl : Floats) where
  -- Each key stands once on the surface.
  abbrev pub IsKeyed : Surface fl → Type 0
  IsKeyed [] = Unit
  IsKeyed (e ∷ s) = (by_key fl s e.key ≡ none) × IsKeyed s

  -- What a key holds after its remeasurement, by how the attempt ended.
  abbrev pub cell_after : Attempt fl → Cell fl → Option (Cell fl)
  cell_after (measured r) e = some (record e { reading = r })
  cell_after no_data e = none
  cell_after failed e = none

  abbrev pub queue_after : Attempt fl → Key → List Key → List Key
  queue_after (measured r) k queue = queue
  queue_after no_data k queue = queue
  queue_after failed k queue = k ∷ queue

  abbrev pub end_after : Attempt fl → Drained
  end_after (measured r) = processed
  end_after no_data = processed
  end_after failed = raised

  -- The state after an attempt: one key changes, and the queue.
  abbrev Kept :
      RemeasureState fl
      → Key
      → List Key
      → Cell fl
      → Attempt fl
      → Key
      → RemeasureState fl × Drained
      → Type 0
  Kept s k queue e a j after =
      (by_key fl after.0.vf_surface j
        ≡ (if key_eq j k then cell_after a e else by_key fl s.vf_surface j))
      × (after.0.remeasure_queue ≡ queue_after a k queue)
      × (after.1 ≡ end_after a)
