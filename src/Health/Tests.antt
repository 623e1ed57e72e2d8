-- ===== src/Health/Tests.antt =====
-- Runs of both models of include/audio/health.hpp.
use audiox.Health.Adaptive
use audiox.Health.Adaptive.Run
use audiox.Health.Xrun
use audiox.Health.Mailbox
use audiox.Health.Mailbox.Latest
use audiox.Health.Xrun.Window.{Event, xrun, devices, buffers, run}
use audiox.Health.Adaptive.{
  AdaptiveAudioBuffer, record_xrun, tick, target_period_frames, max_level, note_xrun, raise_level,
  buffer_changed, max_level_loop, recent_xruns, required_quiet_ms, max_period_frames,
}
use audiox.Health.Adaptive.Period.{max_level_least, Short}
use audiox.Health.Adaptive.Settling.{IsValid, AllInWindow, settles, record_xrun_needs_burst}
use Prim.Native.Nat.{ℕ}
use audiox.Prelude.{◌^◌, ◌≤◌, ◌*◌, true, some, refl, false, [], ◌≡◌, ◌∷◌, ℕ, arith, List}

abbrev burst : List Event
burst =
    xrun 100
    ∷ devices 20000
    ∷ xrun 70000
    ∷ xrun 70100
    ∷ xrun 70200
    ∷ buffers 50000
    ∷ xrun 70300
    ∷ []

-- Four recent xruns after the start's grace.
abbrev strained : AdaptiveAudioBuffer
strained = record {
  instance_id = 1;
  grace_until = 60001;
  level = 1;
  change_id = 1;
  increase_id = 1;
  active_streams = 1;
  largest_period_frames = 128;
  largest_buffer_frames = 256;
  xrun_times = 80000 ∷ 80100 ∷ 80200 ∷ 80300 ∷ 0 ∷ [];
  xrun_index = 4;
  pending_downshift_from_level = 2;
  recent_burst_count = 4;
  downshift_failures = 0;
  last_xrun_at = 80300;
  last_downshift_at = 60500;
  has_xrun = true;
}

strained-IsValid : IsValid strained
strained-IsValid = record { failures = omega arith; levels = omega arith; five_times = refl }

raised : (record_xrun 80400 64 strained).1 ≡ true
unfolding record_xrun note_xrun recent_xruns max_level max_level_loop raise_level buffer_changed
raised = refl

higher : ¬ ((record_xrun 80400 64 strained).0.level ≡ strained.level)
unfolding record_xrun note_xrun recent_xruns max_level max_level_loop raise_level buffer_changed
higher e = omega (arith, e)

max_level_example :
    (k : ℕ) × (max_level 100 ≡ some k) × (k ≤ 10) × (1024 ≤ 100 * 2 ^ k) × Short 100 k
max_level_example = max_level_least 100 (omega arith)

settles_example :
    let b = (record_xrun 80400 64 strained).0 in
    (record_xrun 90399 64 b ≡ (b, false)) × (tick 90399 b ≡ (b, false))
settles_example = settles 80400 90399 64 64 strained (omega arith) (omega arith) raised

burst_example : AllInWindow 80400 (80000 ∷ 80100 ∷ 80200 ∷ 80300 ∷ 80400 ∷ [])
burst_example = record_xrun_needs_burst 80400 64 strained strained-IsValid higher

abbrev exchanges : List (Latest.Event ℕ)
exchanges = Latest.publish 5 0 ∷ Latest.publish 6 2 ∷ Latest.look ∷ []

abbrev newest : ℕ
newest = 6

mailbox_example : Mailbox.read 0 (Latest.run exchanges (Mailbox.new 0)) ≡ newest
unfolding Latest.last_published
mailbox_example = Latest.read-last_published 0 exchanges

run_example : IsValid (
    Run.run
      (Run.xrun_at 80000 64 ∷ Run.change_at 90000 ∷ Run.xrun_at 120000 64 ∷ Run.tick_at 200000 ∷ [])
      (Adaptive.new 0))
unfolding Run.PositiveBases
run_example =
    Run.run-IsValid 0
      (Run.xrun_at 80000 64 ∷ Run.change_at 90000 ∷ Run.xrun_at 120000 64 ∷ Run.tick_at 200000 ∷ [])
      (omega arith, (omega arith, tt))
