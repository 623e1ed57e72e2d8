-- ===== src/Health/Xrun/Window.antt =====
-- The four slots of `AudioHealth` hold the last four accepted xruns, so a warning is a fifth xrun
-- inside the window.
use audiox.Prelude.{ℕ, ◌+◌, ◌%◌, ◌≡◌, List, [], ◌∷◌, ltb, get_or, take, if◌then◌else◌, length}
use audiox.Health.Xrun.{AudioHealth, record_xrun, devices_changed, buffer_changed}

-- What other threads and the audio thread do with the object.
pub data Event : Type 0 where
  xrun devices buffers : ℕ → Event

unfoldable pub step : Event → AudioHealth → AudioHealth
step (xrun now) h = (record_xrun now h).0
step (devices now) h = devices_changed now h
step (buffers now) h = buffer_changed now h

unfoldable pub run : AudioHealth → List Event → AudioHealth
run h [] = h
run h (e ∷ es) = run (step e h) es

-- The times of the xruns that no grace period hides, newest first, over four earlier ones.
unfoldable pub accepted : AudioHealth → List ℕ → List Event → List ℕ
accepted h past [] = past
accepted h past (xrun now ∷ es) =
    accepted (step (xrun now) h) (if ltb now h.grace_until then past else now ∷ past) es
accepted h past (devices now ∷ es) = accepted (step (devices now) h) past es
accepted h past (buffers now ∷ es) = accepted (step (buffers now) h) past es

abbrev pub no_xruns : List ℕ
no_xruns = 0 ∷ 0 ∷ 0 ∷ 0 ∷ []

-- Four slots, newest first, where the slot `k` is written next.
unfoldable pub newest_first : ℕ → List ℕ → List ℕ
newest_first k r =
    get_or r ((k + 3) % 4) 0
    ∷ get_or r ((k + 2) % 4) 0
    ∷ get_or r ((k + 1) % 4) 0
    ∷ get_or r (k % 4) 0
    ∷ []

-- The slots hold the four newest accepted times.
pub record Holds (h : AudioHealth) (past : List ℕ) : Type 0 where
  pub four_slots : length h.recent ≡ 4
  pub times : newest_first (h.next % 4) h.recent ≡ take 4 past
