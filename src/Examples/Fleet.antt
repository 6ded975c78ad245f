-- ===== src/Examples/Fleet.antt =====
-- A fleet of two configured miners, its nonces, its address ranges and an outage.
use antminer_chip_tuner.Prelude.{
  ℕ, ◌+◌, ◌≤◌, ◌≡◌, refl, String, Bool, true, false, Option, none, some, List, [], ◌∷◌, length,
  if◌then◌else◌, ◌=ˢ◌, ◌||◌, ◌&&◌,
}
use antminer_chip_tuner.Prelude.Int.{ℤ, pos}
use antminer_chip_tuner.Prelude.Dict.{get, put, keep, IsDict}
use antminer_chip_tuner.Config.{number, text, flag, Entry, State}
use antminer_chip_tuner.Config.Effective.{EffectiveConfig, override_of, get_item, bucket_of, get_or}
use antminer_chip_tuner.Config.Effective.Layers.{first_hit, layers, get_item-layers}
use antminer_chip_tuner.Mrr.Nonce.{Event, call, restart, nonces, IsAbove, nonces-IsAbove, load}
use antminer_chip_tuner.Mrr.Rig.{
  rig, scalar, word, absent, is_rig_rented, status_rented, is_word_rented,
}
use antminer_chip_tuner.Mrr.RentalCache.{
  Cache, Calls, got, refresh_cycle, tracked, refresh_pairs, drop_stale, global_rig_id, int_or,
  truthy, is_nonzero, int_of, pairs_of, add_pair, extract_rig_id, extract_platform, fw_or_epic,
  missing_setup, fetch_from, fetched, has_rig, is_before_last,
}
use antminer_chip_tuner.Mrr.RentalCache.Tracking.{rig_of, configured, refresh_cycle_tracks}
use antminer_chip_tuner.Scanner.Ranges.{
  Texts, parsed, mem, add, add_block, count_block, parse_network, parse_range, sorted, insert,
  and_then, parse_item, parse_from, parse_ip_ranges,
}
use antminer_chip_tuner.Scanner.Ranges.Sets.{IsAscending}
use antminer_chip_tuner.Scanner.Ranges.Denotation.{any_denotes, parse_ip_ranges-any_denotes}
use antminer_chip_tuner.Recovery.{own, Engine, enter_offline_mode, wait_for_miner_online, Round}
use antminer_chip_tuner.Recovery.Offline.{IsResumed, enter_again, outage, offline_roundtrip}

abbrev is_ipv4 : String → Bool
is_ipv4 t = t =ˢ "10.0.0.7" || t =ˢ "10.0.0.9"

abbrev synth_ipv4 : String → Option String
synth_ipv4 t = if t =ˢ "syn-10-0-0-7" then some "10.0.0.7" else none

abbrev miner : Entry
miner = record {
  fields =
      ("ip", text "10.0.0.7")
      ∷ ("current_firmware", text "luxos")
      ∷ ("MRR_RIG_ID", number (pos 42))
      ∷ [];
  platforms = some (("luxos", ("TARGET_MODE", text "profitability") ∷ []) ∷ []);
}

abbrev spare : Entry
spare = record { fields = ("ip", text "10.0.0.8") ∷ []; platforms = none }

abbrev fleet : State
fleet = record {
  miner_configs = ("aa:01", miner) ∷ ("aa:02", spare) ∷ [];
  defaults = ("luxos", ("TARGET_MODE", text "efficiency") ∷ []) ∷ [];
  fleet_ops =
      ("MRR_ENABLED", flag true) ∷ ("MRR_API_KEY", text "k") ∷ ("MRR_API_SECRET", text "s") ∷ [];
}

abbrev view : EffectiveConfig
view = record { key = "aa:01"; is_legacy_ip = false }

get_item-layers_example :
    get_item view "TARGET_MODE" fleet
    ≡ first_hit "TARGET_MODE" (layers "TARGET_MODE" (override_of view fleet) fleet)
get_item-layers_example = get_item-layers view "TARGET_MODE" fleet

miners-IsDict : IsDict fleet.miner_configs
unfolding get
miners-IsDict = (refl, (refl, tt))

-- The clock falls back between the calls, and the process restarts.
abbrev events : List Event
events = call 1000 false ∷ call 900 true ∷ restart ∷ call 10 false ∷ []

nonces-IsAbove_example : IsAbove 0 (nonces events (record { value = 0; stored = none }))
nonces-IsAbove_example =
    nonces-IsAbove true events (record { value = 0; stored = none }) (λ e. unfold load in refl)
      (refl, tt)

abbrev int_of_text : String → Option ℤ
int_of_text t = none

abbrev lower : String → String
lower t = t

abbrev calls : Calls
calls = record {
  reply = λ i r. got (rig (scalar (word "rented")) absent absent);
  time = λ i. 100 + i;
  is_set = λ i. false;
  woken = λ i. false;
}

abbrev stale : Cache
stale =
    (
      "aa:02",
      record { rented = some false; rig_id = pos 7; fetched_ts = 1; error = none; state = "live" },
    )
    ∷ []

abbrev refreshed_cache : Cache
refreshed_cache =
    (
      "aa:01",
      record {
        rented = some true;
        rig_id = pos 42;
        fetched_ts = 100;
        error = none;
        state = "live";
      },
    )
    ∷ []

cycle : refresh_cycle int_of_text lower calls 90 fleet stale ≡ some refreshed_cache
unfolding refresh_cycle tracked global_rig_id int_or truthy is_nonzero int_of bucket_of pairs_of
    add_pair extract_rig_id extract_platform fw_or_epic get get_or missing_setup refresh_pairs
    fetch_from fetched is_rig_rented status_rented is_word_rented drop_stale has_rig keep put
    is_before_last
cycle = refl

stale-IsDict : IsDict stale
unfolding get
stale-IsDict = (refl, tt)

refresh_cycle_tracks_example :
    rig_of (get "aa:01" refreshed_cache) ≡ configured int_of_text lower "aa:01" fleet
refresh_cycle_tracks_example =
    refresh_cycle_tracks int_of_text lower calls 90 fleet stale refreshed_cache "aa:01" (λ j. refl)
      (λ j. refl) stale-IsDict miners-IsDict cycle

-- Texts cut to the cases at hand.
abbrev py : Texts
py = record {
  strip = λ t. t;
  has = λ x t. x =ˢ "-" && t =ˢ "10.0.0.1-10.0.0.3" || x =ˢ "/" && t =ˢ "10.0.0.0/31";
  split_dash = λ t. ("10.0.0.1", "10.0.0.3");
  ipv4_address = λ t. if t =ˢ "10.0.0.1" then some 167772161 else some 167772163;
  ipv4_network = λ t. some (167772160, 2);
}

abbrev ranges : List String
ranges = "10.0.0.1-10.0.0.3" ∷ "" ∷ "10.0.0.0/31" ∷ []

abbrev addresses : List ℕ
addresses = 167772160 ∷ 167772161 ∷ 167772162 ∷ 167772163 ∷ []

ranges_parsed : parse_ip_ranges py ranges ≡ parsed addresses
unfolding parse_ip_ranges parse_from parse_item parse_network parse_range count_block add_block add
    mem sorted insert and_then
ranges_parsed = refl

parse_ip_ranges-any_denotes_example :
    IsAscending addresses
    × (length addresses ≤ 65536)
    × ((b : ℕ) → mem b addresses ≡ any_denotes py ranges b)
parse_ip_ranges-any_denotes_example = parse_ip_ranges-any_denotes py ranges addresses ranges_parsed

abbrev engine : Engine
engine = record {
  phase = "fine_grid";
  phase_detail = own "Cell 3 of 9";
  pre_offline_phase = none;
  pre_offline_phase_detail = own "";
  offline_since_ts = none;
  offline_failure_count = 0;
  last_successful_contact_ts = 50;
}

offline_roundtrip_example :
    let r =
      wait_for_miner_online 30
        (outage (130 ∷ 160 ∷ []) 190)
        (enter_again (("no route", 105) ∷ []) (enter_offline_mode "timeout" 100 engine)) in
    IsResumed "fine_grid" (own "Cell 3 of 9") r.0 × (r.1 ≡ true)
offline_roundtrip_example =
    offline_roundtrip engine "timeout" 100 (("no route", 105) ∷ []) 30 (130 ∷ 160 ∷ []) 190 refl
      refl

abbrev idle : ℕ → Round
idle t = record {
  running = true;
  now = t;
  summary = some (record { operating_state = "Idling"; is_hashing = false });
  polled = t + 1;
  running_after = true;
}
