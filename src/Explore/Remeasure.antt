-- ===== src/Explore/Remeasure.antt =====
-- enqueue_remeasure, clear_remeasure_queue and drain_one_remeasure of
-- tuner_app/tuning_engine/lifecycle.py. The measurement is an argument. Not modelled: the times of
-- the queue's items, the log and the checkpoint.
pub mod Kept
use antminer_chip_tuner.Floats.{Floats}
use antminer_chip_tuner.Prelude.{
  ℕ, ◌+◌, Bool, true, false, Option, none, some, List, [], ◌∷◌, ◌++◌, if◌then◌else◌, length,
}
use antminer_chip_tuner.Profit.{Reading}
use antminer_chip_tuner.Explore.Surface.{Key, key_eq, has_key, Cell, Surface}

-- The queue after a request, whether the cell was added, and the size: no cell is queued twice.
unfoldable pub enqueue_remeasure : Key → List Key → List Key × Bool × ℕ
enqueue_remeasure k queue =
    if has_key k queue
    then (queue, false, length queue)
    else (queue ++ k ∷ [], true, length queue + 1)

unfoldable pub clear_remeasure_queue : List Key → List Key
clear_remeasure_queue queue = []

-- The keys that are not the given one.
unfoldable pub drop_key : Key → List Key → List Key
drop_key k [] = []
drop_key k (j ∷ js) = let rest = drop_key k js in if key_eq j k then rest else j ∷ rest

-- How the call that drains one cell ends.
pub data Drained : Type 0 where
  empty : Drained  -- False
  processed : Drained  -- True
  raised : Drained

module _ (fl : Floats) where
  -- How a measurement ends: with a reading, without one, or with an exception.
  pub data Attempt : Type 0 where
    measured : Reading fl → Attempt
    no_data : Attempt
    failed : Attempt

  -- The class of a cell: whether it is fine, and its anchor.
  abbrev pub class_of : Cell fl → Bool × Option Key
  class_of e = if e.fine then (true, e.coarse_anchor) else (false, none)

  -- The class of the first entry with the key; an unmeasured cell is coarse.
  unfoldable pub prior_class : Key → Surface fl → Bool × Option Key
  prior_class k [] = (false, none)
  prior_class k (e ∷ es) =
      let rest = prior_class k es in if key_eq e.key k then class_of e else rest

  unfoldable pub drop_cells : Key → Surface fl → Surface fl
  drop_cells k [] = []
  drop_cells k (e ∷ es) = let rest = drop_cells k es in if key_eq e.key k then rest else e ∷ rest

  pub record RemeasureState : Type 0 where
    pub vf_surface : Surface fl
    pub vf_skipped : List Key
    pub remeasure_queue : List Key

  abbrev pub remeasured : Key → Bool × Option Key → Reading fl → Cell fl
  remeasured k (fine, anchor) r = record {
    key = k;
    fine = fine;
    coarse_anchor = anchor;
    reading = r;
  }

  -- What is left of the surface and the skipped cells while the cell is measured.
  abbrev pub dropped : Key → List Key → RemeasureState → RemeasureState
  dropped k queue s = record {
    vf_surface = drop_cells k s.vf_surface;
    vf_skipped = drop_key k s.vf_skipped;
    remeasure_queue = queue;
  }

  -- After a failure the item is put back at the front of the queue.
  unfoldable pub after_attempt :
      Key → List Key → RemeasureState → Attempt → RemeasureState × Drained
  after_attempt k queue s (measured r) =
      let rest = dropped k queue s in
      (
        record rest {
          vf_surface = rest.vf_surface ++ remeasured k (prior_class k s.vf_surface) r ∷ [];
        },
        processed,
      )
  after_attempt k queue s no_data = (dropped k queue s, processed)
  after_attempt k queue s failed = (dropped k (k ∷ queue) s, raised)

  -- The attempt may depend on the key and on whether the cell is fine.
  abbrev pub drain_from :
      (Key → Bool → Attempt) → List Key → RemeasureState → RemeasureState × Drained
  drain_from attempt [] s = (s, empty)
  drain_from attempt (k ∷ queue) s =
      after_attempt k queue s (attempt k (prior_class k s.vf_surface).0)

  unfoldable pub drain_one_remeasure :
      (Key → Bool → Attempt) → RemeasureState → RemeasureState × Drained
  drain_one_remeasure attempt s = drain_from attempt s.remeasure_queue s
