-- ===== src/Boot/Trial/Attempts.antt =====
-- `bootRecoveryBeginBoot` of include/boot_recovery.hpp, one boot after the other.
use audiox.Boot.Names.{
  dir_name, trial_name, events_name, read_attempts, trial_text, scan_attempts, saturated, number,
  unsigned, skip_space, signed,
}
use audiox.Prelude.Decimal.{decimal}
use audiox.Prelude.{
  take-all, subst, ◌&&◌, not, le→leb, leb, Option, ◌+◌, inr, ==_iff, ◌∙◌, inl, ap, ◌||◌, sym, arith,
  Bool-cases, ◌==◌, ◌<◌, dec_lt, ◌≡◌, take, length, ◌≤◌, List, ℕ, Bool, some, true, false, refl,
  zero, suc,
}
use audiox.Boot.Disk.{root, path_fits, file_in, Files, Disk, Os, World, state}
use audiox.Boot.Trial.{
  attempt_after, not, begin_boot, leb, next_attempt, log_attempt, Option, BootTrialAction,
  trial_none, trial_attempt, trial_revert,
}
use audiox.Boot.Files.{read_small_file, write_file_atomic}
use audiox.Prelude.Bytes.{all_below_sound, all_below}
use audiox.Prelude.Decimal.{decimal_digits}
use audiox.Update.Names.{until_nul}
use audiox.Boot.Kept.{starts, pure-Keeps, if-Keeps, Keeps, KeptByPut}
use audiox.Boot.Disk.Laws.{find-put_ne}
use audiox.Boot.Exact.{Ready}
use audiox.Boot.Kept.Dirs.{append_text-Keeps}
use audiox.Boot.Exact.Atomic.{Replaced-find, write_file_atomic-Replaced}
use audiox.Boot.Exact.Reading.{read_small_file-cases}
use audiox.Prelude.Text.{and_parts}

abbrev pub is_attempt : BootTrialAction → Bool
is_attempt trial_none = false
is_attempt trial_attempt = true
is_attempt trial_revert = false

-- The number that a text's beginning gives: the text's own, or one that ends the trial.
abbrev reads_as : ℕ → ℕ → Bool
reads_as k m = let n = read_attempts (take m (trial_text k)) in (n == k) || (n == 3)

reads_table : (k : ℕ) → k ≤ 3 → all_below 12 (reads_as k) ≡ true
unfolding all_below read_attempts trial_text scan_attempts until_nul signed skip_space unsigned
    number saturated decimal decimal_digits
reads_table zero h = refl
reads_table (suc zero) h = refl
reads_table (suc (suc zero)) h = refl
reads_table (suc (suc (suc zero))) h = refl
reads_table (suc (suc (suc (suc k)))) h = absurd (omega arith)

length-trial_text : (k : ℕ) → k ≤ 3 → length (trial_text k) ≡ 11
unfolding trial_text decimal decimal_digits
length-trial_text zero h = refl
length-trial_text (suc zero) h = refl
length-trial_text (suc (suc zero)) h = refl
length-trial_text (suc (suc (suc zero))) h = refl
length-trial_text (suc (suc (suc (suc k)))) h = absurd (omega arith)

reads_as_sound : (k m : ℕ) → k ≤ 3 → reads_as k m ≡ true
reads_as_sound k m h = elim (dec_lt m 12) [
  | yes p ↦ all_below_sound 12 (reads_as k) m (reads_table k h) p
  | no p ↦
      let whole : take m (trial_text k) ≡ take 11 (trial_text k) =
        take-all m _ (omega (arith, length-trial_text k h))
        ∙ sym (take-all 11 _ (omega (arith, length-trial_text k h))) in
      rw whole (all_below_sound 12 (reads_as k) 11 (reads_table k h) (omega arith))
]

pub reads_below :
    (k m : ℕ)
    → k ≤ 3
    → read_attempts (take m (trial_text k)) < 3
    → read_attempts (take m (trial_text k)) ≡ k
reads_below k m h p =
    let n = read_attempts (take m (trial_text k)) in
    elim (Bool-cases (n == k)) [
      | inl e ↦ (==_iff n k).0 e
      | inr e ↦
          let f : (n == 3) ≡ true = sym (rw e refl) ∙ reads_as_sound k m h in
          omega (arith, (==_iff n 3).0 f)
    ]

-- The trial file holds this text.
unfoldable pub HasTrial : List ℕ → Disk → Type 0
HasTrial text k = file_in trial_name k.state_dir ≡ some text

event_kept : (text : List ℕ) → KeptByPut (HasTrial text) state events_name
unfolding HasTrial KeptByPut file_in
event_kept text t fs k e h =
    find-put_ne trial_name events_name t fs refl ∙ sym (ap (file_in trial_name) e) ∙ h

below_3 : (n : ℕ) → leb 3 n ≡ false → n < 3
below_3 n e = elim (dec_lt n 3) [ yes p ↦ p | no p ↦ let f = le→leb 3 n (omega arith) in absurd cc ]

module _ (os : Os) (version : List ℕ) where
  log_attempt-Keeps :
      (attempts : ℕ) (text : List ℕ) → Keeps (HasTrial text) (log_attempt os attempts version)
  unfolding log_attempt
  log_attempt-Keeps attempts text =
      if-Keeps _ (append_text-Keeps os state events_name _ (event_kept text)) (pure-Keeps tt)

  -- What an attempt leaves: the number in the file is one more than the one that was read.
  pub record Counted (before : ℕ) (out : Option ℕ) (w : World) : Type 0 where
    pub below : before < 3
    pub told : out ≡ some (before + 1)
    pub stored : HasTrial (trial_text (before + 1)) w.disk

  next_attempt-Counted :
      (fs : Files) (n : ℕ) (w : World)
      → w.disk.state_dir ≡ some fs
      → is_attempt (next_attempt os version n w).0.0 ≡ true
      → Counted n (next_attempt os version n w).0.1 (next_attempt os version n w).1
  unfolding next_attempt HasTrial
  next_attempt-Counted fs n w e r = elim (Bool-cases (leb 3 n)) [
    | inl f ↦
        let g : is_attempt (next_attempt os version n w).0.0 ≡ false = rw (next_attempt, f) refl in
        cc
    | inr f ↦ elim (Bool-cases (write_file_atomic os state trial_name (trial_text (n + 1)) w).0) [
      | inl g ↦
          let ready : Ready state fs w.disk w = record { same_disk = refl; listed = e } in
          let w' = (write_file_atomic os state trial_name (trial_text (n + 1)) w).1 in
          let replaced =
            (write_file_atomic-Replaced os trial_name (trial_text (n + 1))).run w ready in
          let holds = Replaced-find _ trial_name _ fs state w.disk w' (replaced.on_true g) in
          rw (next_attempt, f, g)
            record {
              below = below_3 n f;
              told = refl;
              stored =
                  ((log_attempt-Keeps (n + 1) (trial_text (n + 1))).keeps w' (starts w' holds)).now;
            }
      | inr g ↦
          let h : is_attempt (next_attempt os version n w).0.0 ≡ false =
            rw (next_attempt, f, g) refl in
          cc
    ]
  ]

  -- The attempt counts on from what the file's beginning reads as.
  pub begin_boot-Counted :
      (w : World)
      → is_attempt (begin_boot os version w).0.0 ≡ true
      → (text : List ℕ) × (m : ℕ) × HasTrial text w.disk
        × Counted
            (read_attempts (take m text))
            (begin_boot os version w).0.1
            (begin_boot os version w).1
  unfolding begin_boot HasTrial attempt_after
  begin_boot-Counted w r =
      elim (Bool-cases
        (not (path_fits os root dir_name 0) || not (path_fits os state trial_name 0))) [
          | inl p ↦
              let e : is_attempt (begin_boot os version w).0.0 ≡ false = rw (begin_boot, p) refl in
              absurd cc
          | inr p ↦ elim (read_small_file-cases os state trial_name 64 w) [
            | inl f ↦
                let e : is_attempt (begin_boot os version w).0.0 ≡ false =
                  rw (begin_boot, p, f) refl in
                absurd cc
            | inr (text, fs, m, here, source, e, same) ↦
                let w' = (read_small_file os state trial_name 64 w).1 in
                let result : begin_boot os version w
                    ≡ next_attempt os version (read_attempts (take m text)) w' =
                  rw (begin_boot, p, e) refl in
                let r' : is_attempt (next_attempt os version (read_attempts (take m text)) w').0.0
                    ≡ true =
                  rw (sym result) r in
                (
                  text,
                  m,
                  source,
                  rw result (next_attempt-Counted fs _ w' (ap (λ k. k.state_dir) same ∙ here) r'),
                )
          ]
        ]

-- The state at the next boot, after what ran in between; `false` once a boot is no attempt.
unfoldable pub all_attempts : Os → List ℕ → (ℕ → World → World) → ℕ → World → Bool
all_attempts os version between zero w = true
all_attempts os version between (suc n) w =
    let ((action, out), w') = begin_boot os version w in
    is_attempt action && all_attempts os version between n (between n w')

-- The trial file is left as it is.
unfoldable pub LeavesTrial : (ℕ → World → World) → Type 0
LeavesTrial between =
    (n : ℕ) (w : World)
    → file_in trial_name (between n w).disk.state_dir ≡ file_in trial_name w.disk.state_dir

module _ (os : Os) (version : List ℕ) (between : ℕ → World → World)
    (kept : LeavesTrial between) where
  -- With `k` counted, so many more.
  counted_attempts :
      (n k : ℕ) (w : World)
      → k ≤ 3
      → HasTrial (trial_text k) w.disk
      → all_attempts os version between n w ≡ true
      → n + k ≤ 3
  unfolding all_attempts HasTrial LeavesTrial
  counted_attempts zero k w h t r = omega arith
  counted_attempts (suc n) k w h t r =
      let (now, later) = and_parts _ _ r in
      let (text, m, source, c) = begin_boot-Counted os version w now in
      let both : some text ≡ some (trial_text k) = sym source ∙ t in
      let same : text ≡ trial_text k = cc in
      let below : read_attempts (take m (trial_text k)) < 3 =
        subst (λ x. read_attempts (take m x) < 3) same c.below in
      let e : read_attempts (take m text) ≡ k =
        ap (λ x. read_attempts (take m x)) same ∙ reads_below k m h below in
      let w' = (begin_boot os version w).1 in
      let stored = subst (λ x. HasTrial (trial_text (x + 1)) w'.disk) e c.stored in
      let rest =
        counted_attempts n (k + 1) (between n w') (omega (arith, c.below, e)) (kept n w' ∙ stored)
          later in
      omega (arith, rest)

  -- After at most three attempts in a row the bootloader does something else, whatever the trial
  -- file held and whatever read() and write() answer, as long as nothing in between writes the file.
  pub attempts_in_a_row : (n : ℕ) (w : World) → all_attempts os version between n w ≡ true → n ≤ 3
  unfolding all_attempts HasTrial LeavesTrial
  attempts_in_a_row zero w r = omega arith
  attempts_in_a_row (suc n) w r =
      let (now, later) = and_parts _ _ r in
      let (text, m, source, c) = begin_boot-Counted os version w now in
      let w' = (begin_boot os version w).1 in
      let rest =
        counted_attempts n (read_attempts (take m text) + 1) (between n w') (omega (arith, c.below))
          (kept n w' ∙ c.stored) later in
      omega (arith, rest)
