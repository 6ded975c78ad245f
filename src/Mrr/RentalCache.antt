-- ===== src/Mrr/RentalCache.antt =====
-- tuner_app/mrr/rental_cache.py: the cache of rental states by canonical key. A ValueError of
-- `int` is `none`. Arguments stand for the client's replies, the clock, the stop event, `int` on
-- texts and the two regular expressions of canonical_miner_key.
pub mod Tracking
use antminer_chip_tuner.Prelude.{
  ℕ, ◌+◌, String, Bool, true, false, Option, none, some, List, [], ◌∷◌, ◌&&◌, ◌||◌, not, is_some,
  ◌==◌, ◌=ˢ◌, if◌then◌else◌,
}
use antminer_chip_tuner.Prelude.Int.{ℤ, pos, negsuc, ltb_ℤ}
use antminer_chip_tuner.Prelude.Dict.{Dict, get, put, pop, keep}
use antminer_chip_tuner.Config.{Value, null, flag, number, text, Entry, State}
use antminer_chip_tuner.Config.Effective.{bucket_of, canonical_miner_key}
use antminer_chip_tuner.Mrr.Rig.{Rig, is_rig_rented}

-- A cached entry
pub record RentalStatus : Type 0 where
  pub rented : Option Bool
  pub rig_id : ℤ
  pub fetched_ts : ℕ
  pub error : Option String
  pub state : String

abbrev pub Cache : Type 0
Cache = Dict RentalStatus

-- What client.get_rig does: it returns a rig or raises an error with a message.
pub data Reply : Type 0 where
  got : Rig → Reply
  failed : String → Reply

-- The outside of one refresh cycle, by the position of the pair: the reply, the time after it, and
-- whether the stop event is set before the call and during the wait after it.
pub record Calls : Type 0 where
  pub reply : ℕ → ℤ → Reply
  pub time : ℕ → ℕ
  pub is_set : ℕ → Bool
  pub woken : ℕ → Bool

unfoldable pub is_nonzero : ℤ → Bool
is_nonzero (pos n) = not (n == 0)
is_nonzero (negsuc n) = true

-- bool(d.get(k))
unfoldable pub truthy : Option Value → Bool
truthy none = false
truthy (some null) = false
truthy (some (flag b)) = b
truthy (some (text t)) = not (t =ˢ "")
truthy (some (number n)) = is_nonzero n

-- entry.get("current_firmware") or "epic"
unfoldable pub fw_or_epic : Option Value → Value
fw_or_epic none = text "epic"
fw_or_epic (some v) = if truthy (some v) then v else text "epic"

unfoldable pub has_rig : String → Dict ℤ → Bool
has_rig mac pairs = is_some (get mac pairs)

-- What is missing for live data: the state and the message of a diagnostic entry.
unfoldable pub missing_setup : Dict Value → Option (String × String)
missing_setup fo =
    if not (truthy (get "MRR_ENABLED" fo))
    then some ("disabled", "MRR is disabled — turn on MRR_ENABLED in fleet settings")
    else if not (truthy (get "MRR_API_KEY" fo)) || not (truthy (get "MRR_API_SECRET" fo))
    then some ("no_creds", "MRR credentials not configured — set MRR_API_KEY and MRR_API_SECRET")
    else none

unfoldable pub diagnostic_entry : String × String → ℤ → ℕ → RentalStatus
diagnostic_entry (state_value, error_msg) rig now = record {
  rented = none;
  rig_id = rig;
  fetched_ts = now;
  error = some error_msg;
  state = state_value;
}

unfoldable pub put_all : (String × String) → ℕ → Dict ℤ → Cache → Cache
put_all why now [] c = c
put_all why now ((mac, r) ∷ ps) c = put_all why now ps (put mac (diagnostic_entry why r now) c)

-- Drops the entries of the miners that are not tracked.
unfoldable pub drop_stale : Dict ℤ → Cache → Cache
drop_stale pairs = keep (λ mac st. has_rig mac pairs)

-- i < len(pairs) - 1
unfoldable pub is_before_last : Dict ℤ → Bool
is_before_last [] = false
is_before_last (p ∷ ps) = true

module _ (int_of_text : String → Option ℤ) (lower : String → String) where
  -- int(value) of a value that Python counts as true
  unfoldable pub int_of : Value → Option ℤ
  int_of null = some (pos 0)
  int_of (flag true) = some (pos 1)
  int_of (flag false) = some (pos 0)
  int_of (number n) = some n
  int_of (text t) = int_of_text t

  -- int(o or 0), or the second argument where `o` counts as false
  unfoldable pub int_or : Option Value → Option ℤ → Option ℤ
  int_or none r = r
  int_or (some v) r = if truthy (some v) then int_of v else r

  unfoldable pub extract_platform : Option (Dict (Dict Value)) → Value → ℤ → Option ℤ
  extract_platform none fw global_rig_id = some global_rig_id
  extract_platform (some platforms) fw global_rig_id =
      int_or (get "MRR_RIG_ID" (bucket_of fw platforms)) (some global_rig_id)

  -- _extract_rig_id
  unfoldable pub extract_rig_id : Entry → ℤ → Option ℤ
  extract_rig_id e global_rig_id =
      int_or (get "MRR_RIG_ID" e.fields)
        (extract_platform e.platforms (fw_or_epic (get "current_firmware" e.fields)) global_rig_id)

  unfoldable pub global_rig_id : State → Option ℤ
  global_rig_id s = int_or (get "MRR_RIG_ID" (bucket_of (text "epic") s.defaults)) (some (pos 0))

  -- `if rig_id > 0: pairs.append((mac, rig_id))`
  unfoldable pub add_pair : String → Option ℤ → Option (Dict ℤ) → Option (Dict ℤ)
  add_pair mac none rest = none
  add_pair mac (some r) none = none
  add_pair mac (some r) (some ps) = some (if ltb_ℤ (pos 0) r then (mac, r) ∷ ps else ps)

  unfoldable pub pairs_of : Dict Entry → ℤ → Option (Dict ℤ)
  pairs_of [] g = some []
  pairs_of ((mac, e) ∷ d) g = add_pair mac (extract_rig_id e g) (pairs_of d g)

  -- The configured miners with their rigs.
  unfoldable pub tracked : State → Option (Dict ℤ)
  tracked s = elim (global_rig_id s) [ none ↦ none | some g ↦ pairs_of s.miner_configs g ]

  unfoldable pub fetched : Reply → ℤ → ℕ → RentalStatus
  fetched (got r) rig now = record {
    rented = some (is_rig_rented lower r);
    rig_id = rig;
    fetched_ts = now;
    error = none;
    state = "live";
  }
  fetched (failed message) rig now = record {
    rented = none;
    rig_id = rig;
    fetched_ts = now;
    error = some message;
    state = "error";
  }

  -- The calls for the pairs, the first of the list being pair `i`.
  unfoldable pub fetch_from : Calls → ℕ → Dict ℤ → Cache → Cache
  fetch_from calls i [] c = c
  fetch_from calls i ((mac, r) ∷ ps) c =
      let c1 : Cache = put mac (fetched (calls.reply i r) r (calls.time i)) c in
      let rest : Cache = fetch_from calls (i + 1) ps c1 in
      if calls.is_set i then c else if is_before_last ps && calls.woken i then c1 else rest

  unfoldable pub refresh_pairs : Calls → ℕ → Option (String × String) → Dict ℤ → Cache → Cache
  refresh_pairs calls now (some why) pairs c = put_all why now pairs c
  refresh_pairs calls now none pairs c = fetch_from calls 0 pairs c

  -- _refresh_cycle
  unfoldable pub refresh_cycle : Calls → ℕ → State → Cache → Option Cache
  refresh_cycle calls now s c = elim (tracked s) [
    | none ↦ none
    | some pairs ↦
        some (refresh_pairs calls now (missing_setup s.fleet_ops) pairs (drop_stale pairs c))
  ]

  unfoldable pub refreshed : Reply → ℤ → ℕ → Option (String × String) → RentalStatus
  refreshed reply rig now (some why) = diagnostic_entry why rig now
  refreshed reply rig now none = fetched reply rig now

  module _ (is_ipv4 : String → Bool) (synth_ipv4 : String → Option String) where
    -- The method `get`
    unfoldable pub get_status : String → State → Cache → Option RentalStatus
    get_status identifier s c = get (canonical_miner_key is_ipv4 synth_ipv4 identifier s) c

    unfoldable pub refresh_one : String → ℤ → Reply → ℕ → State → Cache → Cache
    refresh_one identifier rig reply now s c =
        let mac : String = canonical_miner_key is_ipv4 synth_ipv4 identifier s in
        if not (ltb_ℤ (pos 0) rig)
        then pop mac c
        else put mac (refreshed reply rig now (missing_setup s.fleet_ops)) c
