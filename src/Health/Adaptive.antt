-- ===== src/Health/Adaptive.antt =====
-- `AdaptiveAudioBuffer` of include/audio/health.hpp: how xruns raise the period size, and quiet
-- lowers it.
pub mod Period
pub mod Settling
pub mod Run
use audiox.Prelude.{
  ℕ, zero, suc, ◌+◌, ◌-◌, ◌*◌, ◌%◌, ◌^◌, max, Bool, true, false, not, ◌&&◌, ◌||◌, List, [], ◌∷◌,
  ltb, leb, ◌==◌, if◌then◌else◌, get_or, set, Option, none, some,
}
use audiox.Prelude.Words.{add64, add32, sub64}

abbrev pub max_period_frames : ℕ
max_period_frames = 1024

abbrev pub xrun_window_ms : ℕ
xrun_window_ms = 30000

abbrev pub startup_grace_ms : ℕ
startup_grace_ms = 60000

abbrev pub shift_grace_ms : ℕ
shift_grace_ms = 10000

abbrev pub quiet_period_ms : ℕ
quiet_period_ms = 30000

abbrev pub busy_quiet_period_ms : ℕ
busy_quiet_period_ms = 60000

abbrev pub downshift_retry_window_ms : ℕ
downshift_retry_window_ms = 600000

abbrev pub downshift_backoff_ms : List ℕ
downshift_backoff_ms = 0 ∷ 300000 ∷ 600000 ∷ 900000 ∷ []

abbrev pub xruns_to_increase : ℕ
xruns_to_increase = 5

pub record AdaptiveAudioBuffer : Type 0 where
  pub instance_id : ℕ
  pub grace_until : ℕ
  pub level : ℕ
  pub change_id : ℕ
  pub increase_id : ℕ
  pub active_streams : ℕ
  pub largest_period_frames : ℕ
  pub largest_buffer_frames : ℕ
  pub xrun_times : List ℕ
  pub xrun_index : ℕ
  pub pending_downshift_from_level : ℕ
  pub recent_burst_count : ℕ
  pub downshift_failures : ℕ
  pub last_xrun_at : ℕ
  pub last_downshift_at : ℕ
  pub has_xrun : Bool

abbrev pub no_times : List ℕ
no_times = 0 ∷ 0 ∷ 0 ∷ 0 ∷ 0 ∷ []

unfoldable pub new : ℕ → AdaptiveAudioBuffer
new started = record {
  instance_id = started;
  grace_until = add64 started startup_grace_ms;
  level = 0;
  change_id = 0;
  increase_id = 0;
  active_streams = 0;
  largest_period_frames = 0;
  largest_buffer_frames = 0;
  xrun_times = no_times;
  xrun_index = 0;
  pending_downshift_from_level = 0;
  recent_burst_count = 0;
  downshift_failures = 0;
  last_xrun_at = 0;
  last_downshift_at = 0;
  has_xrun = false;
}

abbrev pub clear_xrun_window : AdaptiveAudioBuffer → AdaptiveAudioBuffer
clear_xrun_window a = record a { xrun_index = 0; xrun_times = no_times }

unfoldable pub buffer_changed : ℕ → AdaptiveAudioBuffer → AdaptiveAudioBuffer
buffer_changed now a =
    clear_xrun_window
      (record a { grace_until = max a.grace_until (add64 now shift_grace_ms); last_xrun_at = now })

-- The body of the doubling loops.
abbrev pub double_frames : ℕ → ℕ
double_frames frames = if ltb 512 frames then max_period_frames else frames * 2

-- The loop of `targetPeriodFrames`, by the rounds that `i < currentLevel` leaves.
unfoldable pub target_loop : ℕ → ℕ → ℕ
target_loop zero frames = frames
target_loop (suc rounds) frames =
    let rest = target_loop rounds (double_frames frames) in
    if ltb frames max_period_frames then rest else frames

unfoldable pub target_period_frames : ℕ → AdaptiveAudioBuffer → ℕ
unfolding target_loop
target_period_frames base_frames a =
    let frames = target_loop a.level base_frames in
    if ltb max_period_frames frames then max_period_frames else frames

-- The loop of `maxLevel`; `none` if the fuel runs out.
unfoldable pub max_level_loop : ℕ → ℕ → ℕ → Option ℕ
max_level_loop zero frames count = none
max_level_loop (suc fuel) frames count =
    let rest = max_level_loop fuel (double_frames frames) (count + 1) in
    if ltb frames max_period_frames then rest else some count

-- Eleven rounds take any positive number past 1024.
unfoldable pub max_level : ℕ → Option ℕ
unfolding max_level_loop
max_level base_frames =
    if base_frames == 0 || leb max_period_frames base_frames
    then some 0
    else max_level_loop 11 base_frames 0

-- How many of the stored times lie in the window that ends at `now`.
unfoldable pub recent_xruns : ℕ → List ℕ → ℕ
recent_xruns now [] = 0
recent_xruns now (time ∷ times) =
    let rest = recent_xruns now times in
    if not (time == 0) && (leb time now && leb (now - time) xrun_window_ms) then suc rest else rest

-- `recordXrun` up to the window count.
unfoldable pub note_xrun : ℕ → AdaptiveAudioBuffer → AdaptiveAudioBuffer
unfolding recent_xruns
note_xrun now a =
    let times = set a.xrun_times (a.xrun_index % xruns_to_increase) now in
    record a {
      last_xrun_at = now;
      has_xrun = true;
      xrun_times = times;
      xrun_index = add32 a.xrun_index 1;
      recent_burst_count = recent_xruns now times;
    }

-- A raise soon after a lowering from the same level counts against later lowerings.
abbrev pub failed_downshift : ℕ → AdaptiveAudioBuffer → Bool
failed_downshift now a =
    a.pending_downshift_from_level == (a.level + 1)
    && (leb a.last_downshift_at now && leb (now - a.last_downshift_at) downshift_retry_window_ms)

unfoldable pub raise_level : ℕ → AdaptiveAudioBuffer → AdaptiveAudioBuffer
unfolding buffer_changed
raise_level now a = buffer_changed now (record a {
  level = add32 a.level 1;
  change_id = add64 a.change_id 1;
  increase_id = add64 a.increase_id 1;
  downshift_failures =
      if failed_downshift now a && ltb a.downshift_failures 3
      then a.downshift_failures + 1
      else a.downshift_failures;
  pending_downshift_from_level = 0;
})

abbrev pub reaches : ℕ → Option ℕ → Bool
reaches level none = true
reaches level (some limit) = leb limit level

unfoldable pub record_xrun : ℕ → ℕ → AdaptiveAudioBuffer → AdaptiveAudioBuffer × Bool
unfolding note_xrun raise_level
record_xrun now base_frames a =
    if ltb now a.grace_until
    then (a, false)
    else let noted = note_xrun now a in
      if ltb noted.recent_burst_count xruns_to_increase || reaches a.level (max_level base_frames)
      then (noted, false)
      else (raise_level now noted, true)

abbrev pub quiet_period : AdaptiveAudioBuffer → ℕ
quiet_period a =
    if leb xruns_to_increase a.recent_burst_count then busy_quiet_period_ms else quiet_period_ms

-- An index past the table does not occur; see `IsValid`.
abbrev pub required_quiet_ms : AdaptiveAudioBuffer → ℕ
required_quiet_ms a = max (quiet_period a) (get_or downshift_backoff_ms a.downshift_failures 0)

unfoldable pub tick : ℕ → AdaptiveAudioBuffer → AdaptiveAudioBuffer × Bool
unfolding buffer_changed
tick now a =
    if a.level == 0 || (not a.has_xrun || (ltb now a.grace_until || ltb now a.last_xrun_at))
    then (a, false)
    else if ltb (now - a.last_xrun_at) (required_quiet_ms a)
    then (a, false)
    else (
      buffer_changed now (record a {
        level = a.level - 1;
        change_id = add64 a.change_id 1;
        pending_downshift_from_level = a.level;
        last_downshift_at = now;
        last_xrun_at = now;
        recent_burst_count = 0;
      }),
      true,
    )

unfoldable pub publish_observed : ℕ → ℕ → ℕ → AdaptiveAudioBuffer → AdaptiveAudioBuffer
publish_observed streams period buffer a = record a {
  active_streams = streams;
  largest_period_frames = period;
  largest_buffer_frames = buffer;
}

unfoldable pub downshift_delay_ms : AdaptiveAudioBuffer → ℕ
downshift_delay_ms a = if a.level == 0 then 0 else required_quiet_ms a % 2 ^ 32
