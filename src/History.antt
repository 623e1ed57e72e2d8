-- ===== src/History.antt =====
-- include/system_history.hpp: ten minutes of samples of the temperature, the CPU load and the xruns.
-- Floating-point numbers are a parameter; the temperature and the CPU counters are what /sys and
-- /proc gave.
pub mod Samples
pub mod Timeline
pub mod Run
mod Tests
use Prim.Native.Nat.{min, suc, ℕ}
use audiox.Prelude.{
  true, ◌^◌, min, ◌%◌, zero, none, ◌||◌, ◌+◌, ltb, leb, ◌==◌, ◌&&◌, some, set, replicate, not,
  if◌then◌else◌, get_or, ◌-◌, ℕ, false, Option, List, Bool,
}
use audiox.Prelude.Words.{sub64}

pub record Float : Type 1 where
  pub Value : Type 0
  pub zero_value : Value
  pub quiet_nan : Value
  -- `100.0 * part / whole`.
  pub percent : ℕ → ℕ → Value

abbrev pub capacity : ℕ
capacity = 600

abbrev pub interval_ms : ℕ
interval_ms = 1000

abbrev pub retention_ms : ℕ
retention_ms = 600000

pub record CpuTimes : Type 0 where
  pub total : ℕ
  pub idle : ℕ

pub record Sample (X : Type 0) : Type 0 where
  pub id : ℕ
  pub now : ℕ
  pub temperature : X
  pub cpu : X
  pub xruns : ℕ
  pub xruns_valid : Bool

pub record SystemHistory (X : Type 0) : Type 0 where
  pub samples : List (Sample X)
  pub next : ℕ
  pub size : ℕ
  pub sequence : ℕ
  pub runtime : ℕ
  pub previous_xruns : ℕ
  pub previous_audio_runtime : ℕ
  pub previous_cpu : CpuTimes
  pub previous_cpu_valid : Bool

module _ (fl : Float) where
  abbrev pub no_sample : Sample fl.Value
  no_sample = record {
    id = 0;
    now = 0;
    temperature = fl.zero_value;
    cpu = fl.zero_value;
    xruns = 0;
    xruns_valid = false;
  }

  unfoldable pub new : ℕ → SystemHistory fl.Value
  new runtime = record {
    samples = replicate capacity no_sample;
    next = 0;
    size = 0;
    sequence = 0;
    runtime = runtime;
    previous_xruns = 0;
    previous_audio_runtime = 0;
    previous_cpu = record { total = 0; idle = 0 };
    previous_cpu_valid = false;
  }

  unfoldable pub sample_at : ℕ → SystemHistory fl.Value → Sample fl.Value
  sample_at index h = get_or h.samples ((h.next + capacity - h.size + index) % capacity) no_sample

  unfoldable pub latest : SystemHistory fl.Value → Sample fl.Value
  latest h = sample_at (h.size - 1) h

  unfoldable pub due : ℕ → SystemHistory fl.Value → Bool
  due now h = (h.size == 0) || (ltb (latest h).now now && leb interval_ms (now - (latest h).now))

  -- A round for each sample that may go.
  unfoldable pub prune_loop : ℕ → ℕ → SystemHistory fl.Value → SystemHistory fl.Value
  prune_loop zero now h = h
  prune_loop (suc n) now h =
      let more = prune_loop n now (record h { size = h.size - 1 }) in
      let oldest = (sample_at 0 h).now in
      if leb oldest now && leb retention_ms (now - oldest) then more else h

  unfoldable pub prune : ℕ → SystemHistory fl.Value → SystemHistory fl.Value
  prune now h = prune_loop h.size now h

  -- The load since the previous counters, if they can be compared.
  unfoldable pub load : Bool → Option CpuTimes → SystemHistory fl.Value → fl.Value
  load continuous none h = fl.quiet_nan
  load continuous (some cpu) h =
      let total = cpu.total - h.previous_cpu.total in
      let idle = cpu.idle - h.previous_cpu.idle in
      if (continuous && h.previous_cpu_valid)
        && (ltb h.previous_cpu.total cpu.total && leb h.previous_cpu.idle cpu.idle)
      then (if leb idle total then fl.percent (total - idle) total else fl.quiet_nan)
      else fl.quiet_nan

  unfoldable pub is_continuous : ℕ → SystemHistory fl.Value → Bool
  is_continuous now h = not (h.size == 0) && leb (sub64 now (latest h).now) 5000

  unfoldable pub take_sample :
      ℕ → fl.Value → Option CpuTimes → ℕ → ℕ → SystemHistory fl.Value → Sample fl.Value
  take_sample now temperature cpu xruns audio_runtime h =
      let valid =
        is_continuous now h
        && ((audio_runtime == h.previous_audio_runtime) && leb h.previous_xruns xruns) in
      record {
        id = (h.sequence + 1) % 2 ^ 64;
        now = now;
        temperature = temperature;
        cpu = load (is_continuous now h) cpu h;
        xruns = if valid then xruns - h.previous_xruns else 0;
        xruns_valid = valid;
      }

  unfoldable pub store :
      Sample fl.Value → Option CpuTimes → ℕ → ℕ → SystemHistory fl.Value → SystemHistory fl.Value
  store s cpu xruns audio_runtime h = record h {
    sequence = s.id;
    samples = set h.samples h.next s;
    next = (h.next + 1) % capacity;
    size = min (h.size + 1) capacity;
    previous_cpu_valid = elim cpu [ none ↦ false | some times ↦ true ];
    previous_cpu = elim cpu [ none ↦ h.previous_cpu | some times ↦ times ];
    previous_xruns = xruns;
    previous_audio_runtime = audio_runtime;
  }

  unfoldable pub add :
      ℕ → fl.Value → Option CpuTimes → ℕ → ℕ → SystemHistory fl.Value → SystemHistory fl.Value
  add now temperature cpu xruns audio_runtime h =
      let pruned = prune now h in
      if not (due now h)
      then h
      else store (take_sample now temperature cpu xruns audio_runtime pruned) cpu xruns
          audio_runtime pruned

  -- `pollSystemHistory` with what it read; the log line is left out.
  unfoldable pub poll_system_history :
      ℕ → fl.Value → Option CpuTimes → ℕ → ℕ → SystemHistory fl.Value → SystemHistory fl.Value
  poll_system_history now temperature cpu xruns audio_runtime h =
      if not (due now h) then h else add now temperature cpu xruns audio_runtime h
