-- ===== src/Motor/Bemf.antt =====
-- rm32/src/control/state.rs, `BemfState`: the filter over comparator samples, zero-cross detection,
-- and the commutation timing computed from the times of zero crosses.
pub mod Filter
pub mod Timing
use rm.Prelude.{
  ℕ, ◌+◌, ◌-◌, ◌*◌, ◌/◌, Bool, true, false, not, ◌&&◌, List, [], ◌∷◌, ltb, if◌then◌else◌, u8, u16,
  u32, shr, sat_add8,
}
use rm.Constants.{advance_shift}

pub record BemfState : Type 0 where
  pub counter : ℕ
  pub zc_found : Bool
  pub min_counts_up : ℕ
  pub min_counts_down : ℕ
  pub bad_count : ℕ
  pub bad_count_threshold : ℕ
  pub filter_level : ℕ
  pub wait_time : ℕ
  pub last_zc_time : ℕ
  pub this_zc_time : ℕ
  pub temp_advance : ℕ

unfoldable pub bad_count_threshold_for_cpu_mhz : ℕ → ℕ
bad_count_threshold_for_cpu_mhz cpu_mhz = cpu_mhz / 24

unfoldable pub with_cpu_mhz : ℕ → BemfState
unfolding bad_count_threshold_for_cpu_mhz
with_cpu_mhz cpu_mhz = record {
  counter = 0;
  zc_found = false;
  min_counts_up = 2;
  min_counts_down = 2;
  bad_count = 0;
  bad_count_threshold = bad_count_threshold_for_cpu_mhz cpu_mhz;
  filter_level = 5;
  wait_time = 0;
  last_zc_time = 0;
  this_zc_time = 0;
  temp_advance = 0;
}

unfoldable pub sync_config : BemfState → ℕ → ℕ → ℕ → BemfState
sync_config b filter_level auto_advance min_counts = record b {
  filter_level = filter_level;
  temp_advance = auto_advance;
  min_counts_up = min_counts;
  min_counts_down = min_counts;
}

unfoldable pub reset_for_step : BemfState → BemfState
reset_for_step b = record b { counter = 0; bad_count = 0; zc_found = false }

unfoldable pub reset_after_commutation : BemfState → BemfState
reset_after_commutation b = record b { counter = 0; bad_count = 0; zc_found = false }

abbrev pub threshold : BemfState → Bool → ℕ
threshold b rising = if rising then b.min_counts_up else b.min_counts_down

unfoldable pub zero_cross_detected : BemfState → Bool → Bool
zero_cross_detected b rising = not b.zc_found && ltb (threshold b rising) b.counter

-- The wait before the next commutation: half the interval less the advance, not below zero.
abbrev pub wait_for : ℕ → ℕ → ℕ
wait_for temp_advance ci = u16 (ci / 2 - shr (u32 (temp_advance * ci)) advance_shift)

unfoldable pub record_zero_cross : BemfState → ℕ → ℕ → BemfState × ℕ
record_zero_cross b interval_count commutation_interval =
    let new_ci = u32 (interval_count + u32 (3 * commutation_interval)) / 4 in
    (
      record b {
        zc_found = true;
        last_zc_time = b.this_zc_time;
        this_zc_time = interval_count;
        wait_time = wait_for b.temp_advance new_ci;
      },
      new_ci,
    )

unfoldable pub update_timing_from_timer : BemfState → ℕ → BemfState × ℕ
update_timing_from_timer b commutation_interval =
    let zc_avg = u32 (b.last_zc_time + b.this_zc_time) / 2 in
    let new_ci = u32 (commutation_interval + zc_avg) / 2 in
    (record b { wait_time = wait_for b.temp_advance new_ci }, new_ci)

unfoldable pub record_zc_timing : BemfState → ℕ → BemfState
record_zc_timing b interval_count = record b {
  last_zc_time = b.this_zc_time;
  this_zc_time = interval_count;
}

unfoldable pub com_timer_delay : BemfState → ℕ
com_timer_delay b = u16 (b.wait_time + 1)

-- A sample that agrees with the expected edge, and one that does not.
good_sample : BemfState → BemfState
good_sample b = record b { counter = u8 (b.counter + 1) }

bad_sample : BemfState → BemfState
bad_sample b =
    let bad = sat_add8 b.bad_count 1 in
    record b { bad_count = bad; counter = if ltb b.bad_count_threshold bad then 0 else b.counter }

-- `comp_level` is the raw comparator output; the state is its inverse.
unfoldable pub update : BemfState → Bool → Bool → BemfState
unfolding good_sample bad_sample
update b comp_level rising =
    let current_state = not comp_level in
    if rising
    then (if current_state then good_sample b else bad_sample b)
    else if not current_state
    then good_sample b
    else bad_sample b
