-- ===== src/History/Run.antt =====
-- The calls of `add` of include/system_history.hpp.
use audiox.History.{
  List, true, Option, ℕ, Float, CpuTimes, Sample, SystemHistory, new, no_sample, due, prune,
  take_sample, store, add,
}
use audiox.History.Samples.{
  contents, IsRing, length-contents, recent, Shrunk, prune-Shrunk, contents-store, store-IsRing,
}
use audiox.History.Timeline.{
  Steady, last_of, Young, Numbered, IsTimeline, recent-Fits, Steady-append, Young-append,
  last_of-append, Numbered-append,
}
use audiox.Prelude.{
  List, inr, ◌∙◌, refl, length, inl, ◌^◌, ◌<◌, Bool-cases, ◌%◌, [], ◌∷◌, ◌+◌, ◌++◌, arith, ap, true,
  sym, if◌then◌else◌, Option, ◌≡◌, ℕ, subst,
}

-- The arguments of a call.
pub record Call (X : Type 0) : Type 0 where
  pub now : ℕ
  pub temperature : X
  pub cpu : Option CpuTimes
  pub xruns : ℕ
  pub audio_runtime : ℕ

module _ (fl : Float) where
  abbrev pub add_call : Call fl.Value → SystemHistory fl.Value → SystemHistory fl.Value
  add_call c h = add fl c.now c.temperature c.cpu c.xruns c.audio_runtime h

  -- The sample of a call that is due.
  abbrev pub sample_of : Call fl.Value → SystemHistory fl.Value → Sample fl.Value
  sample_of c h =
      take_sample fl c.now c.temperature c.cpu c.xruns c.audio_runtime (prune fl c.now h)

  module _ (c : Call fl.Value) (h : SystemHistory fl.Value) (v : IsTimeline fl h) where
    abbrev pruned : SystemHistory fl.Value
    pruned = prune fl c.now h

    shrunk : Shrunk fl h (recent fl c.now (contents fl h)) pruned
    shrunk = prune-Shrunk fl c.now h v.ring

    pruned-IsRing : IsRing fl pruned
    pruned-IsRing = subst (IsRing fl) (sym shrunk.same) (record {
      whole = v.ring.whole;
      inside = v.ring.inside;
      bounded = omega (arith, shrunk.smaller, v.ring.bounded);
    })

    stored :
        due fl c.now h ≡ true
        → contents fl (add_call c h) ≡ recent fl c.now (contents fl h) ++ sample_of c h ∷ []
    unfolding add
    stored e =
        let fits = recent-Fits fl c.now h v e in
        let room : pruned.size < 600 =
          omega (arith, fits.room, ap length shrunk.held, length-contents fl pruned) in
        rw e (
          contents-store fl (sample_of c h) c.cpu c.xruns c.audio_runtime pruned pruned-IsRing room
          ∙ ap (λ l. l ++ sample_of c h ∷ []) shrunk.held)

    -- In a history that is well formed, as every one is that calls have built, a call that is due
    -- adds its sample and drops those at the front that are ten minutes old, and no other: the ring
    -- never overwrites a sample that is younger. A call that is not due leaves the samples alone.
    pub add_lem : contents fl (add_call c h) ≡ (
        if due fl c.now h
        then recent fl c.now (contents fl h) ++ sample_of c h ∷ []
        else contents fl h)
    unfolding add
    add_lem = elim (Bool-cases (due fl c.now h)) [
      | inl e ↦ stored e ∙ rw e refl
      | inr e ↦ rw e refl
    ]

    stored-IsTimeline : due fl c.now h ≡ true → IsTimeline fl (add_call c h)
    unfolding add take_sample store
    stored-IsTimeline e =
        let fits = recent-Fits fl c.now h v e in
        let ss = recent fl c.now (contents fl h) in
        let s = sample_of c h in
        let sequence : pruned.sequence ≡ h.sequence =
          ap (λ (g : SystemHistory fl.Value). g.sequence) shrunk.same in
        let held = stored e in
        let steady =
          Steady-append fl c.now h.sequence ss s fits.steady fits.leads refl
            (ap (λ n. (n + 1) % 2 ^ 64) sequence) in
        let young = Young-append fl c.now ss s fits.young refl in
        rw e (record {
          ring = store-IsRing fl s c.cpu c.xruns c.audio_runtime pruned pruned-IsRing;
          steady = subst (Steady fl) (sym (rw e at held)) steady;
          young =
              subst (λ l. Young fl (last_of fl (no_sample fl) l).now l) (sym (rw e at held))
                (rw (last_of-append fl (no_sample fl) s ss) young);
          numbered =
              subst (Numbered fl s.id) (sym (rw e at held)) (Numbered-append fl s.id ss s refl);
        })

    add-IsTimeline : IsTimeline fl (add_call c h)
    unfolding add
    add-IsTimeline = elim (Bool-cases (due fl c.now h)) [
      | inl e ↦ stored-IsTimeline e
      | inr e ↦ rw e v
    ]

  unfoldable pub run : List (Call fl.Value) → SystemHistory fl.Value → SystemHistory fl.Value
  run [] h = h
  run (c ∷ cs) h = run cs (add_call c h)

  run_from :
      (cs : List (Call fl.Value)) (h : SystemHistory fl.Value)
      → IsTimeline fl h
      → IsTimeline fl (run cs h)
  unfolding run
  run_from [] h v = v
  run_from (c ∷ cs) h v = run_from cs (add_call c h) (add-IsTimeline c h v)

  new-IsTimeline : (runtime : ℕ) → IsTimeline fl (new fl runtime)
  unfolding new
  new-IsTimeline runtime = record {
    ring = record { whole = refl; inside = omega arith; bounded = omega arith };
    steady = tt;
    young = tt;
    numbered = tt;
  }

  -- After any calls on a new history, whatever the clock shows, at most 600 samples are kept, the
  -- oldest first; each is taken at least a second after the one before it and has the next number,
  -- none is ten minutes older than the last, and that has the number of the sequence.
  pub run-IsTimeline :
      (cs : List (Call fl.Value)) (runtime : ℕ) → IsTimeline fl (run cs (new fl runtime))
  run-IsTimeline cs runtime = run_from cs (new fl runtime) (new-IsTimeline runtime)
