-- ===== src/History/Timeline.antt =====
-- What the history of include/system_history.hpp keeps, and for how long.
use audiox.Prelude.{subst, sym, inr, inl, ap, ◌++◌, true, Bool-cases, refl}
use audiox.History.{
  true, false, suc, get_or, leb, ℕ, List, Float, Sample, SystemHistory, no_sample, latest, due,
}
use audiox.History.Samples.{contents, IsRing, length-contents, sample_at-eq, recent}
use audiox.Prelude.{
  ◌∙◌, ◌^◌, zero, false, ◌-◌, ◌%◌, ◌≤◌, ◌*◌, ◌&&◌, get_or, arith, ◌+◌, length, leb, [], ◌≡◌, ◌∷◌,
  ◌<◌, ℕ, List,
}

module _ (fl : Float) where
  abbrev pub After : Sample fl.Value → List (Sample fl.Value) → Type 0
  After a [] = Unit {0}
  After a (b ∷ ss) = (a.now + 1000 ≤ b.now) × (b.id ≡ (a.id + 1) % 2 ^ 64)

  -- Samples are numbered one by one, and at least a second apart.
  abbrev pub Steady : List (Sample fl.Value) → Type 0
  Steady [] = Unit {0}
  Steady (a ∷ ss) = After a ss × Steady ss

  abbrev pub last_of : Sample fl.Value → List (Sample fl.Value) → Sample fl.Value
  last_of a [] = a
  last_of a (b ∷ ss) = last_of b ss

  -- None is ten minutes older than the time.
  abbrev pub Young : ℕ → List (Sample fl.Value) → Type 0
  Young now [] = Unit {0}
  Young now (a ∷ ss) = (now < a.now + 600000) × Young now ss

  -- What holds between two calls; a history with no samples has none to number.
  abbrev pub Numbered : ℕ → List (Sample fl.Value) → Type 0
  Numbered sequence [] = Unit {0}
  Numbered sequence (a ∷ ss) = (last_of a ss).id ≡ sequence

  pub record IsTimeline (h : SystemHistory fl.Value) : Type 0 where
    pub ring : IsRing fl h
    pub steady : Steady (contents fl h)
    pub young : Young (last_of (no_sample fl) (contents fl h)).now (contents fl h)
    pub numbered : Numbered h.sequence (contents fl h)

  get_or-last_of :
      (a : Sample fl.Value) (ss : List (Sample fl.Value)) (k : ℕ)
      → k ≡ length ss
      → get_or (a ∷ ss) k (no_sample fl) ≡ last_of a ss
  get_or-last_of a [] zero e = refl
  get_or-last_of a [] (suc k) e = absurd (omega arith)
  get_or-last_of a (b ∷ ss) zero e = absurd (omega arith)
  get_or-last_of a (b ∷ ss) (suc k) e = get_or-last_of b ss k (omega arith)

  latest-eq :
      (h : SystemHistory fl.Value)
      → IsRing fl h
      → 0 < h.size
      → latest fl h ≡ last_of (no_sample fl) (contents fl h)
  unfolding latest
  latest-eq h v some_left =
      sample_at-eq fl (h.size - 1) h v (omega arith) ∙ ends (contents fl h) (length-contents fl h)
    where
      ends :
          (ss : List (Sample fl.Value))
          → length ss ≡ h.size
          → get_or ss (h.size - 1) (no_sample fl) ≡ last_of (no_sample fl) ss
      ends [] e = absurd (omega arith)
      ends (a ∷ ss) e = get_or-last_of a ss (h.size - 1) (omega arith)

  -- From the first sample to the last it takes a second for each that follows.
  span :
      (a : Sample fl.Value) (ss : List (Sample fl.Value))
      → Steady (a ∷ ss)
      → a.now + 1000 * length ss ≤ (last_of a ss).now
  span a [] v = omega arith
  span a (b ∷ ss) v = omega (arith, span b ss v.1)

  -- Samples are left in their order, and the last one stays if any does.
  recent-Steady : (now : ℕ) (ss : List (Sample fl.Value)) → Steady ss → Steady (recent fl now ss)
  unfolding recent
  recent-Steady now [] v = v
  recent-Steady now (a ∷ ss) v = elim (Bool-cases (leb a.now now && leb 600000 (now - a.now))) [
    | inl e ↦ rw e (recent-Steady now ss v.1)
    | inr e ↦ rw e v
  ]

  -- A list that begins with a sample that is not old enough to go, or is empty.
  Begins : ℕ → List (Sample fl.Value) → Type 0
  Begins now [] = Unit {0}
  Begins now (a ∷ ss) = (leb a.now now && leb 600000 (now - a.now)) ≡ false

  recent-Begins : (now : ℕ) (ss : List (Sample fl.Value)) → Begins now (recent fl now ss)
  unfolding recent Begins
  recent-Begins now [] = tt
  recent-Begins now (a ∷ ss) = elim (Bool-cases (leb a.now now && leb 600000 (now - a.now))) [
    | inl e ↦ rw e (recent-Begins now ss)
    | inr e ↦ rw e e
  ]

  -- The last sample, before and after.
  recent_last :
      (now : ℕ) (ss : List (Sample fl.Value)) (d a : Sample fl.Value)
      (rest : List (Sample fl.Value))
      → recent fl now ss ≡ a ∷ rest
      → last_of a rest ≡ last_of d ss
  unfolding recent
  recent_last now [] d a rest e = cc
  recent_last now (b ∷ ss) d a rest e =
      elim (Bool-cases (leb b.now now && leb 600000 (now - b.now))) [
        | inl old ↦ recent_last now ss b a rest (rw old at e)
        | inr young ↦ let same : b ∷ ss ≡ a ∷ rest = rw young at e in ap (last_of d) (sym same)
      ]

  Steady-Young :
      (now : ℕ) (a : Sample fl.Value) (ss : List (Sample fl.Value))
      → Steady (a ∷ ss)
      → now < a.now + 600000
      → Young now (a ∷ ss)
  Steady-Young now a [] v h = (h, tt)
  Steady-Young now a (b ∷ ss) v h = (h, Steady-Young now b ss v.1 (omega arith))

  -- Ten minutes of samples, a second apart, fit the ring with one to spare.
  few :
      (now : ℕ) (a : Sample fl.Value) (ss : List (Sample fl.Value))
      → Steady (a ∷ ss)
      → Begins now (a ∷ ss)
      → (last_of a ss).now + 1000 ≤ now
      → (length (a ∷ ss) < 600) × (now < a.now + 600000)
  unfolding Begins
  few now a ss v b h =
      let long = span a ss v in
      let young : now < a.now + 600000 = ground arith in (omega arith, young)

  -- Samples to which one taken at `now`, numbered after `sequence`, can be added.
  abbrev pub Leads : ℕ → ℕ → List (Sample fl.Value) → Type 0
  Leads now sequence [] = Unit {0}
  Leads now sequence (a ∷ ss) = ((last_of a ss).now + 1000 ≤ now) × ((last_of a ss).id ≡ sequence)

  pub record Fits (now sequence : ℕ) (ss : List (Sample fl.Value)) : Type 0 where
    pub room : length ss < 600
    pub steady : Steady ss
    pub young : Young now ss
    pub leads : Leads now sequence ss

  due_later :
      (now : ℕ) (h : SystemHistory fl.Value)
      → due fl now h ≡ true
      → 0 < h.size
      → (latest fl h).now + 1000 ≤ now
  unfolding due
  due_later now h e some_left = ground arith

  pub recent-Fits :
      (now : ℕ) (h : SystemHistory fl.Value)
      → IsTimeline h
      → due fl now h ≡ true
      → Fits now h.sequence (recent fl now (contents fl h))
  recent-Fits now h v e =
      cases (contents fl h) (recent fl now (contents fl h)) refl refl v.numbered
        (recent-Steady now (contents fl h) v.steady) (recent-Begins now (contents fl h))
    where
      cases :
          (all ss : List (Sample fl.Value))
          → contents fl h ≡ all
          → recent fl now all ≡ ss
          → Numbered h.sequence all
          → Steady ss
          → Begins now ss
          → Fits now h.sequence ss
      cases all [] f g n s b = record { room = omega arith; steady = tt; young = tt; leads = tt }
      cases [] (a ∷ ss) f g n s b = absurd (empty g)
        where
          empty : recent fl now [] ≡ a ∷ ss → ⊥
          empty k = unfold recent in cc
      cases (c ∷ all) (a ∷ ss) f g n s b =
          let same = recent_last now (c ∷ all) (no_sample fl) a ss g in
          let some_left : 0 < h.size = omega (arith, length-contents fl h, ap length f) in
          let newest_sample : latest fl h ≡ last_of a ss =
            latest-eq h v.ring some_left ∙ ap (last_of (no_sample fl)) f ∙ sym same in
          let later : (last_of a ss).now + 1000 ≤ now =
            subst (λ (x : Sample fl.Value). x.now + 1000 ≤ now) newest_sample
              (due_later now h e some_left) in
          let short = few now a ss s b later in
          record {
            room = short.0;
            steady = s;
            young = Steady-Young now a ss s short.1;
            leads = (later, ap (λ (x : Sample fl.Value). x.id) same ∙ n);
          }

  pub Steady-append :
      (now sequence : ℕ) (ss : List (Sample fl.Value)) (s : Sample fl.Value)
      → Steady ss
      → Leads now sequence ss
      → s.now ≡ now
      → s.id ≡ (sequence + 1) % 2 ^ 64
      → Steady (ss ++ s ∷ [])
  Steady-append now sequence [] s v l t i = (tt, tt)
  Steady-append now sequence (a ∷ []) s v l t i =
      ((omega arith, i ∙ ap (λ n. (n + 1) % 2 ^ 64) (sym l.1)), (tt, tt))
  Steady-append now sequence (a ∷ b ∷ ss) s v l t i =
      (v.0, Steady-append now sequence (b ∷ ss) s v.1 l t i)

  pub Young-append :
      (now : ℕ) (ss : List (Sample fl.Value)) (s : Sample fl.Value)
      → Young now ss
      → s.now ≡ now
      → Young now (ss ++ s ∷ [])
  Young-append now [] s v t = (omega arith, tt)
  Young-append now (a ∷ ss) s v t = (v.0, Young-append now ss s v.1 t)

  pub last_of-append :
      (a s : Sample fl.Value) (ss : List (Sample fl.Value)) → last_of a (ss ++ s ∷ []) ≡ s
  last_of-append a s [] = refl
  last_of-append a s (b ∷ ss) = last_of-append b s ss

  pub Numbered-append :
      (sequence : ℕ) (ss : List (Sample fl.Value)) (s : Sample fl.Value)
      → s.id ≡ sequence
      → Numbered sequence (ss ++ s ∷ [])
  Numbered-append sequence [] s e = e
  Numbered-append sequence (a ∷ ss) s e =
      ap (λ (x : Sample fl.Value). x.id) (last_of-append a s ss) ∙ e
