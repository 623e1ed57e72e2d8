-- ===== src/Watchdog/Runtime/Live.antt =====
-- `waitForRuntime` of src/init/watchdog.cpp: no runtime is killed whose heartbeats come in time.
use audiox.Watchdog.Runtime.{
  start_watch, Progress, Beat, ℕ, List, running, Round, Watch, drain_heartbeats, drained,
  supervised, timed_out, verdict, after_round, wait_for_runtime,
}
use audiox.Prelude.{
  ◌∙◌, not, ap, ◌==◌, sym, ==_refl, ◌||◌, subst, inr, ◌⊎◌, ◌≤◌, refl, inl, false, arith, ◌^◌, ◌+◌,
  true, none, [], ◌≡◌, ◌∷◌, ◌<◌, Bool, ℕ, List,
}
use audiox.Watchdog.Service.{Service}

-- New heartbeats, after the sequence number `p`: their numbers grow.
abbrev pub Growing : ℕ → List Beat → Type 0
Growing p [] = Unit {0}
Growing p (b ∷ bs) = (p < b.sequence) × Growing b.sequence bs

-- What is known of the runtime: the last number, since when it is waited for, and how long at most.
pub record Heard : Type 0 where
  pub number : ℕ
  pub since : ℕ
  pub limit : ℕ

unfoldable pub heard : List Beat → Heard → Heard
heard [] h = h
heard (b ∷ bs) h = heard bs (record { number = b.sequence; since = b.at; limit = 12000 })

-- In every round the runtime runs, its heartbeats are new, and the round ends in time.
abbrev pub Lively : Heard → List Round → Type 0
Lively h [] = Unit {0}
Lively h (r ∷ rs) =
    (r.child ≡ running)
    × Growing h.number r.beats
    × ((heard r.beats h).since ≤ r.now)
    × (r.now ≤ (heard r.beats h).since + (heard r.beats h).limit)
    × (r.now < 2 ^ 64)
    × Lively (heard r.beats h) rs

-- The watch holds what was heard.
record Follows (launch : ℕ) (h : Heard) (w : Watch) : Type 0 where
  number : w.progress.last_sequence ≡ h.number
  time :
      ((w.received ≡ true) × (h.since ≡ w.progress.last_progress_ms) × (h.limit ≡ 12000))
      ⊎ ((w.received ≡ false) × (h.since ≡ launch) × (h.limit ≡ 120000))

Follows-timed_out :
    (launch now : ℕ) (h : Heard) (w : Watch)
    → Follows launch h w
    → h.since ≤ now
    → now ≤ h.since + h.limit
    → now < 2 ^ 64
    → timed_out launch now w ≡ none
unfolding timed_out
Follows-timed_out launch now h w f lo hi b = time f.time
  where
    time :
        ((w.received ≡ true) × (h.since ≡ w.progress.last_progress_ms) × (h.limit ≡ 12000))
          ⊎ ((w.received ≡ false) × (h.since ≡ launch) × (h.limit ≡ 120000))
        → timed_out launch now w ≡ none
    time (inl (e, s, l)) = ground arith
    time (inr (e, s, l)) = ground arith

-- Every new heartbeat moves the progress on.
record Drained (p : Progress) (h : Heard) : Type 0 where
  same_number : p.last_sequence ≡ h.number
  same_time : p.last_progress_ms ≡ h.since
  same_limit : h.limit ≡ 12000

drain_heartbeats-heard :
    (bs : List Beat) (p : Progress) (h : Heard)
    → Drained p h
    → Growing h.number bs
    → Drained (drain_heartbeats bs p) (heard bs h) × (h.number ≤ (heard bs h).number)
unfolding drain_heartbeats heard
drain_heartbeats-heard [] p h d g = (d, omega arith)
drain_heartbeats-heard (b ∷ bs) p h d (g, more) =
    let e : (b.sequence == p.last_sequence) ≡ false = ground (arith, g, d.same_number) in
    let next : Heard = record { number = b.sequence; since = b.at; limit = 12000 } in
    let moved : Progress = record { last_sequence = b.sequence; last_progress_ms = b.at } in
    let rest =
      drain_heartbeats-heard bs moved next
        record { same_number = refl; same_time = refl; same_limit = refl } more in
    rw e (rest.0, omega (arith, rest.1, g))

newer : (r : Bool) (x y : ℕ) → y < x → (r || not (x == y)) ≡ true
newer r x y h = ground arith

after_round-Follows :
    (launch : ℕ) (r : Round) (h : Heard) (w : Watch)
    → Growing h.number r.beats
    → Follows launch h w
    → Follows launch (heard r.beats h) (after_round r w)
unfolding after_round drained supervised drain_heartbeats heard
after_round-Follows launch r h w g f = beaten r.beats g
  where
    beaten :
        (bs : List Beat)
        → Growing h.number bs
        → Follows launch (heard bs h) (supervised r.look (drained bs w))
    beaten [] g = record {
      number = f.number;
      time = rw (==_refl w.progress.last_sequence) (kept w.received f.time);
    }
      where
        kept :
            (b : Bool)
            → ((b ≡ true) × (h.since ≡ w.progress.last_progress_ms) × (h.limit ≡ 12000))
              ⊎ ((b ≡ false) × (h.since ≡ launch) × (h.limit ≡ 120000))
            → (((b || false) ≡ true) × (h.since ≡ w.progress.last_progress_ms) × (h.limit ≡ 12000))
              ⊎ (((b || false) ≡ false) × (h.since ≡ launch) × (h.limit ≡ 120000))
        kept true t = t
        kept false t = t
    beaten (b ∷ bs) (new, more) =
        let next : Heard = record { number = b.sequence; since = b.at; limit = 12000 } in
        let moved : Progress = record { last_sequence = b.sequence; last_progress_ms = b.at } in
        let d =
          drain_heartbeats-heard bs moved next
            record { same_number = refl; same_time = refl; same_limit = refl } more in
        let e : (b.sequence == w.progress.last_sequence) ≡ false = ground (arith, new, f.number) in
        let p : drain_heartbeats (b ∷ bs) w.progress ≡ drain_heartbeats bs moved = rw e refl in
        let later : w.progress.last_sequence < (drain_heartbeats bs moved).last_sequence =
          omega (arith, new, f.number, d.1, d.0.same_number) in
        record {
          number = ap (λ q. q.last_sequence) p ∙ d.0.same_number;
          time = inl (
            subst
                (λ (q : Progress).
                  (w.received || not (q.last_sequence == w.progress.last_sequence)) ≡ true)
                (sym p) (newer w.received _ _ later),
            sym d.0.same_time ∙ sym (ap (λ q. q.last_progress_ms) p),
            d.0.same_limit,
          );
        }

kept_alive :
    (launch : ℕ) (rs : List Round) (h : Heard) (w : Watch)
    → Follows launch h w
    → Lively h rs
    → wait_for_runtime launch rs w ≡ none
unfolding wait_for_runtime verdict after_round
kept_alive launch [] h w f v = refl
kept_alive launch (r ∷ rs) h w f (c, g, lo, hi, b, more) =
    let f' = after_round-Follows launch r h w g f in
    let e : verdict launch r.child r.now (after_round r w) ≡ none =
      rw (c, verdict) (Follows-timed_out launch r.now _ (after_round r w) f' lo hi b) in
    rw (e, wait_for_runtime) (kept_alive launch rs (heard r.beats h) (after_round r w) f' more)

-- A runtime that runs on and whose heartbeats carry growing numbers is given no verdict, as long as
-- no round ends later than 12 s after the last heartbeat read, or than 120 s after the launch before
-- the first one, and the times read do not decrease.
pub live_is_kept :
    (launch : ℕ) (rs : List Round) (s : Service)
    → Lively (record { number = 0; since = launch; limit = 120000 }) rs
    → wait_for_runtime launch rs (start_watch launch s) ≡ none
live_is_kept launch rs s v =
    kept_alive launch rs _ _ record { number = refl; time = inr (refl, refl, refl) } v
