-- ===== src/Health/Xrun.antt =====
-- `AudioHealth` of include/audio/health.hpp: when an xrun becomes a warning.
pub mod Window
use audiox.Prelude.{
  ℕ, ◌+◌, ◌-◌, ◌%◌, ◌^◌, Bool, true, false, not, ◌&&◌, ◌||◌, List, [], ◌∷◌, ltb, leb, ◌==◌,
  if◌then◌else◌, get_or, set, replicate,
}
use audiox.Prelude.Words.{add64, sub64}

abbrev pub grace_ms : ℕ
grace_ms = 60000

abbrev pub device_grace_ms : ℕ
device_grace_ms = 30000

abbrev pub buffer_grace_ms : ℕ
buffer_grace_ms = 10000

abbrev pub window_ms : ℕ
window_ms = 30000

abbrev pub cooldown_ms : ℕ
cooldown_ms = 120000

abbrev pub threshold : ℕ
threshold = 5

pub record AudioHealth : Type 0 where
  pub grace_until : ℕ
  pub total : ℕ
  pub warning_at : ℕ
  pub last_xrun_at : ℕ
  pub next : ℕ
  pub recent : List ℕ

unfoldable pub new : ℕ → AudioHealth
new started = record {
  grace_until = add64 started grace_ms;
  total = 0;
  warning_at = 0;
  last_xrun_at = 0;
  next = 0;
  recent = 0 ∷ 0 ∷ 0 ∷ 0 ∷ [];
}

-- The compare-exchange loop ends with the larger of the two values.
unfoldable pub extend_grace : ℕ → AudioHealth → AudioHealth
extend_grace until h = if ltb h.grace_until until then record h { grace_until = until } else h

unfoldable pub devices_changed : ℕ → AudioHealth → AudioHealth
unfolding extend_grace
devices_changed now h = extend_grace (add64 now device_grace_ms) h

unfoldable pub buffer_changed : ℕ → AudioHealth → AudioHealth
unfolding extend_grace
buffer_changed now h = extend_grace (add64 now buffer_grace_ms) h

-- The slot that the next accepted xrun takes.
abbrev pub slot : AudioHealth → ℕ
slot h = h.next % (threshold - 1)

-- The tests on the time that was in the slot: is the burst too thin for a warning?
abbrev pub too_thin : ℕ → ℕ → ℕ → Bool
too_thin grace now oldest =
    oldest == 0 || (ltb oldest grace || (ltb now oldest || ltb window_ms (now - oldest)))

abbrev pub cooling : ℕ → ℕ → Bool
cooling now previous = not (previous == 0) && ltb (sub64 now previous) cooldown_ms

unfoldable pub record_xrun : ℕ → AudioHealth → AudioHealth × Bool
record_xrun now h =
    let counted = record h { total = add64 h.total 1; last_xrun_at = now } in
    let oldest = get_or h.recent (slot h) 0 in
    let noted = record counted { next = add64 h.next 1; recent = set h.recent (slot h) now } in
    if ltb now h.grace_until
    then (counted, false)
    else if too_thin h.grace_until now oldest
    then (noted, false)
    else if cooling now h.warning_at
    then (noted, false)
    else (record noted { warning_at = now }, true)

unfoldable pub warning_active : ℕ → AudioHealth → Bool
warning_active now h =
    not (h.warning_at == 0)
    && (leb h.grace_until h.warning_at
        && (leb h.last_xrun_at now && leb (now - h.last_xrun_at) window_ms))
