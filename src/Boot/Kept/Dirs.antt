-- ===== src/Boot/Kept/Dirs.antt =====
-- The rules for `brWriteFileAtomic`, `brAppendText`, `brReadSmallFile`, `brRemoveFlatDir` and the calls on
-- directories, in include/boot_recovery.hpp.
use audiox.Prelude.{
  Bool-cases, Option-cases, ◌≡◌, if◌then◌else◌, ◌++◌, Bool, ℕ, Option, List, ◌∷◌, [], some, none,
}
use audiox.Boot.Disk.{
  dir_of, called, create, rmdir, put_dir, mkdir, Name, Files, Dir, Disk, Os, pure,
}
use audiox.Boot.Files.{
  read_now, write_file_atomic, append_text, remove_flat_dir, unlink_entries, read_small_file,
  tmp_suffix,
}
use audiox.Boot.Kept.{
  Bool-cases, inr, inl, Option-cases, change-AtAllTimes, AtAllTimes-if, if-Keeps, called-Keeps,
  bind-Keeps, Bool, ℕ, pure-Keeps, Option, List, Keeps, KeptByPut, KeptByRemove, KeptByMove,
}
use audiox.Boot.Kept.Writes.{
  write_now-Keeps, get_file-Keeps, rename_or_unlink-Keeps, create-Keeps, write_temporary-Keeps,
  unlink-Keeps, get_dir-Keeps, keeps_rules,
}

module _ {P : Disk → Type 0} (os : Os) where
  pub write_file_atomic-Keeps :
      (d : Dir) (n : Name) (text : List ℕ)
      → KeptByPut P d (n ++ tmp_suffix)
      → KeptByRemove P d (n ++ tmp_suffix)
      → KeptByMove P d (n ++ tmp_suffix) n
      → Keeps P (write_file_atomic os d n text)
  unfolding write_file_atomic
  write_file_atomic-Keeps d n text c r m =
      search (keeps_rules, write_temporary-Keeps, rename_or_unlink-Keeps) depth 9

  pub append_text-Keeps :
      (d : Dir) (n : Name) (text : List ℕ) → KeptByPut P d n → Keeps P (append_text os d n text)
  unfolding append_text
  append_text-Keeps d n text c = bind-Keeps _ _ (get_file-Keeps d n) (λ old.
      bind-Keeps _ _ (made-Keeps old) (λ made.
        if-Keeps made
          (bind-Keeps _ _
            (write_now-Keeps os d n text (elim old [ none ↦ [] | some bytes ↦ bytes ]) c)
            (λ x. bind-Keeps _ _ (called-Keeps os) (λ y. pure-Keeps tt)))
          (pure-Keeps tt)))
    where
      made-Keeps :
          (old : Option (List ℕ))
          → Keeps P (elim old [ none ↦ create os d n | some bytes ↦ called os ])
      made-Keeps none = create-Keeps os d n c
      made-Keeps (some bytes) = called-Keeps os

  pub unlink_entries-Keeps :
      (d : Dir) (fs : Files) → ((n : Name) → KeptByRemove P d n) → Keeps P (unlink_entries os d fs)
  unfolding unlink_entries
  unlink_entries-Keeps d [] r = pure-Keeps tt
  unlink_entries-Keeps d ((n, text) ∷ fs) r =
      if-Keeps _ (bind-Keeps _ _ (unlink-Keeps os d n (r n)) (λ x. unlink_entries-Keeps d fs r))
        (unlink_entries-Keeps d fs r)

  pub rmdir-Keeps : (d : Dir) → ((k : Disk) → P k → P (put_dir d none k)) → Keeps P (rmdir os d)
  unfolding rmdir
  rmdir-Keeps d c = record {
    keeps = λ w h.
        let p = (called-Keeps os).keeps w h in
        AtAllTimes-if _ _ _ (change-AtAllTimes P _ _ (c _ h.now) p) p;
  }

  pub mkdir-Keeps :
      (d : Dir)
      → ((k : Disk) → dir_of d k ≡ none → P k → P (put_dir d (some []) k))
      → Keeps P (mkdir os d)
  unfolding mkdir called
  mkdir-Keeps d c = record {
    keeps = λ w h.
        let p = (called-Keeps os).keeps w h in
        elim (Option-cases (dir_of d w.disk)) [
          | inl e ↦ AtAllTimes-if _ _ _ (change-AtAllTimes P _ _ (c _ e h.now) p) p
          | inr (fs, e) ↦ elim (Bool-cases (os.ok w.calls)) [
            | inl f ↦ rw (mkdir, e, f) p
            | inr f ↦ rw (mkdir, f) p
          ]
        ];
  }

  listed-Keeps :
      (d : Dir) (entries : Option Files) (listed : Bool)
      → ((n : Name) → KeptByRemove P d n)
      → Keeps P (elim entries [
        | none ↦ pure tt
        | some fs ↦ if listed then unlink_entries os d fs else pure tt
      ])
  listed-Keeps d none listed r = pure-Keeps tt
  listed-Keeps d (some fs) listed r = if-Keeps listed (unlink_entries-Keeps d fs r) (pure-Keeps tt)

  pub remove_flat_dir-Keeps :
      (d : Dir)
      → ((n : Name) → KeptByRemove P d n)
      → ((k : Disk) → P k → P (put_dir d none k))
      → Keeps P (remove_flat_dir os d)
  unfolding remove_flat_dir
  remove_flat_dir-Keeps d r c = bind-Keeps _ _ (get_dir-Keeps d) (λ entries.
      bind-Keeps _ _ (called-Keeps os) (λ listed.
        bind-Keeps _ _ (listed-Keeps d entries listed r)
          (λ x. bind-Keeps _ _ (rmdir-Keeps d c) (λ y. pure-Keeps tt))))

  read_now-Keeps : (size : ℕ) (text : Option (List ℕ)) → Keeps P (read_now os size text)
  unfolding read_now
  read_now-Keeps size none = record { keeps = λ w h. h }
  read_now-Keeps size (some text) = record { keeps = λ w h. h }

  pub read_small_file-Keeps :
      (d : Dir) (n : Name) (size : ℕ) → Keeps P (read_small_file os d n size)
  unfolding read_small_file
  read_small_file-Keeps d n size = search (keeps_rules, read_now-Keeps) depth 8
