-- ===== src/History/Samples.antt =====
-- The samples that the ring of include/system_history.hpp holds, oldest first.
use audiox.Prelude.Rounds.{turn, length-turn, turn-set, get_or-turn}
use audiox.History.{
  set, min, leb, suc, get_or, ℕ, Option, List, Float, CpuTimes, Sample, SystemHistory, no_sample,
  sample_at, prune_loop, prune, store,
}
use audiox.Prelude.{
  zero, inr, set, inl, ◌&&◌, sym, min, Bool-cases, ◌%◌, refl, leb, arith, ap, ◌≤◌, ◌∙◌, ◌-◌, ◌++◌,
  suc, if◌then◌else◌, get_or, [], ◌≡◌, ◌∷◌, ◌<◌, ◌+◌, length-set, ℕ, length, Option, List,
}

module _ (fl : Float) where
  abbrev pub oldest : SystemHistory fl.Value → ℕ
  oldest h = (h.next + 600 - h.size) % 600

  abbrev pub contents : SystemHistory fl.Value → List (Sample fl.Value)
  contents h = turn 600 (no_sample fl) h.samples (oldest h) h.size

  pub record IsRing (h : SystemHistory fl.Value) : Type 0 where
    pub whole : length h.samples ≡ 600
    pub inside : h.next < 600
    pub bounded : h.size ≤ 600

  pub length-contents : (h : SystemHistory fl.Value) → length (contents h) ≡ h.size
  length-contents h = length-turn 600 (no_sample fl) h.samples (oldest h) h.size

  pub sample_at-eq :
      (k : ℕ) (h : SystemHistory fl.Value)
      → IsRing h
      → k < h.size
      → sample_at fl k h ≡ get_or (contents h) k (no_sample fl)
  unfolding sample_at
  sample_at-eq k h v l =
      ap (λ i. get_or h.samples i (no_sample fl)) (omega (arith, v.bounded))
      ∙ sym (get_or-turn 600 (no_sample fl) h.samples (oldest h) k h.size (omega arith) l)

  -- What is left of the samples once the first ones are ten minutes old.
  unfoldable pub recent : ℕ → List (Sample fl.Value) → List (Sample fl.Value)
  recent now [] = []
  recent now (s ∷ ss) =
      let rest = recent now ss in if leb s.now now && leb 600000 (now - s.now) then rest else s ∷ ss

  -- A history of which only the size has changed, to hold these samples.
  pub record Shrunk (h : SystemHistory fl.Value) (ss : List (Sample fl.Value))
      (g : SystemHistory fl.Value) : Type 0 where
    pub size : ℕ
    pub same : g ≡ record h { size = size }
    pub smaller : size ≤ h.size
    pub held : contents g ≡ ss

  split_off :
      (n : ℕ) (h : SystemHistory fl.Value)
      → IsRing h
      → h.size ≡ suc n
      → contents h ≡ sample_at fl 0 h ∷ contents (record h { size = h.size - 1 })
  unfolding sample_at
  split_off n h v e =
      let less : n ≡ h.size - 1 = omega arith in
      let moved : (oldest h + 1) % 600 ≡ (h.next + 600 - (h.size - 1)) % 600 =
        omega (arith, v.bounded) in
      let first : oldest h ≡ (h.next + 600 - h.size + 0) % 600 = omega arith in
      ap (turn 600 (no_sample fl) h.samples (oldest h)) e
      ∙ ap
          (λ i.
            get_or h.samples i (no_sample fl)
            ∷ turn 600 (no_sample fl) h.samples ((oldest h + 1) % 600) n)
          first
      ∙ ap (λ i. sample_at fl 0 h ∷ turn 600 (no_sample fl) h.samples i n) moved
      ∙ ap
          (λ k.
            sample_at fl 0 h
            ∷ turn 600 (no_sample fl) h.samples ((h.next + 600 - (h.size - 1)) % 600) k)
          less

  prune_loop-Shrunk :
      (n now : ℕ) (h : SystemHistory fl.Value)
      → IsRing h
      → h.size ≡ n
      → Shrunk h (recent now (contents h)) (prune_loop fl n now h)
  unfolding prune_loop recent
  prune_loop-Shrunk zero now h v e =
      let nothing : contents h ≡ [] = ap (turn 600 (no_sample fl) h.samples (oldest h)) e in
      rw nothing (record { size = h.size; same = refl; smaller = omega arith; held = nothing })
  prune_loop-Shrunk (suc n) now h v e =
      let smaller_h = record h { size = h.size - 1 } in
      let v' : IsRing smaller_h = record {
        whole = v.whole;
        inside = v.inside;
        bounded = omega (arith, v.bounded);
      } in
      let parts = split_off n h v e in
      let later = prune_loop-Shrunk n now smaller_h v' (omega arith) in
      let s = sample_at fl 0 h in
      elim (Bool-cases (leb s.now now && leb 600000 (now - s.now))) [
        | inl old ↦
            rw (parts, old)
              (record {
                size = later.size;
                same = later.same;
                smaller = omega (arith, later.smaller);
                held = later.held;
              })
        | inr young ↦
            rw (parts, young)
              (record { size = h.size; same = refl; smaller = omega arith; held = parts })
      ]

  pub prune-Shrunk :
      (now : ℕ) (h : SystemHistory fl.Value)
      → IsRing h
      → Shrunk h (recent now (contents h)) (prune fl now h)
  unfolding prune
  prune-Shrunk now h v = prune_loop-Shrunk h.size now h v refl

  -- A sample is stored behind the others while there is room.
  pub contents-store :
      (s : Sample fl.Value) (cpu : Option CpuTimes) (xruns audio_runtime : ℕ)
      (h : SystemHistory fl.Value)
      → IsRing h
      → h.size < 600
      → contents (store fl s cpu xruns audio_runtime h) ≡ contents h ++ s ∷ []
  unfolding store
  contents-store s cpu xruns audio_runtime h v room =
      let start : ((h.next + 1) % 600 + 600 - min (h.size + 1) 600) % 600 ≡ oldest h =
        omega (arith, v.inside) in
      let count : min (h.size + 1) 600 ≡ suc h.size = omega arith in
      ap (λ i. turn 600 (no_sample fl) (set h.samples h.next s) i (min (h.size + 1) 600)) start
      ∙ ap (turn 600 (no_sample fl) (set h.samples h.next s) (oldest h)) count
      ∙ turn-set 600 (no_sample fl) h.samples s h.size (oldest h) h.next v.whole (omega arith) room
          (omega (arith, v.inside))

  pub store-IsRing :
      (s : Sample fl.Value) (cpu : Option CpuTimes) (xruns audio_runtime : ℕ)
      (h : SystemHistory fl.Value)
      → IsRing h
      → IsRing (store fl s cpu xruns audio_runtime h)
  unfolding store
  store-IsRing s cpu xruns audio_runtime h v = record {
    whole = length-set h.samples h.next s ∙ v.whole;
    inside = omega arith;
    bounded = omega arith;
  }
