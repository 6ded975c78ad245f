-- ===== src/Mrr/Rig.antt =====
-- is_rig_rented of tuner_app/mrr/helpers.py. `lower` is str.lower.
use antminer_chip_tuner.Prelude.{String, Bool, true, false, ◌||◌, ◌=ˢ◌, if◌then◌else◌}

-- What a field of a rig holds: nothing or a value that Python counts as false, a Boolean `true`, a
-- text, or another value that counts as true, with the text that `str` gives it.
pub data Field : Type 0 where
  absent : Field
  yes : Field
  word : String → Field
  other : String → Field

-- The field `status`: a dict with the fields `rented` and `status`, or another value.
pub data Status : Type 0 where
  table : Field → Field → Status
  scalar : Field → Status

pub data Rig : Type 0 where
  rig : Status → Field → Field → Rig  -- status, rented, available_status
  not_a_dict : Rig

-- value is True
unfoldable pub is_true : Field → Bool
is_true yes = true
is_true absent = false
is_true (word t) = false
is_true (other t) = false

module _ (lower : String → String) where
  -- str(value or "").lower() == "rented"
  unfoldable pub says_rented : Field → Bool
  says_rented absent = lower "" =ˢ "rented"
  says_rented yes = lower "True" =ˢ "rented"
  says_rented (word t) = lower t =ˢ "rented"
  says_rented (other t) = lower t =ˢ "rented"

  -- isinstance(status_obj, str) and status_obj.lower() == "rented"
  unfoldable pub is_word_rented : Field → Bool
  is_word_rented (word t) = lower t =ˢ "rented"
  is_word_rented absent = false
  is_word_rented yes = false
  is_word_rented (other t) = false

  unfoldable pub status_rented : Status → Bool
  status_rented (table rented status) = is_true rented || says_rented status
  status_rented (scalar f) = is_word_rented f

  unfoldable pub is_rig_rented : Rig → Bool
  is_rig_rented not_a_dict = false
  is_rig_rented (rig status rented available_status) =
      if status_rented status
      then true
      else if is_true rented
      then true
      else says_rented available_status
