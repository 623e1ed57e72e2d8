-- ===== src/Boot/Kept/Writes.antt =====
-- The rules for `brWriteAll`, `brCopyFile` and the calls on files, in include/boot_recovery.hpp.
use audiox.Boot.Kept.{
  AtAllTimes, Keeps, KeptByPut, KeptByRemove, KeptByMove, change-AtAllTimes, AtAllTimes-if,
  pure-Keeps, if-Keeps, bind-Keeps, called-Keeps,
}
use audiox.Boot.Disk.{
  get_dir, file_in, write_interrupted, write_failed, wrote, read_interrupted, read_failed, got,
}
use audiox.Prelude.{
  take, ◌++◌, drop, Bool-cases, Bool, inr, inl, Option-cases, ℕ, Option, List, ◌∷◌, [], some, none,
  true, false, zero, suc,
}
use audiox.Boot.Disk.{
  wrote, got, Written, ReadAnswer, rename, get_file, create, unlink, drop_file, called, find_file,
  set_file, dir_of, Name, Dir, Disk, World, Os,
}
use audiox.Boot.Files.{
  write_now, copy_now, write_temporary, rename_or_unlink, write_all, synced, copy_loop, copy_file,
  copy_bytes, keep_or_unlink, fsync_dir,
}

module _ {P : Disk → Type 0} where
  set_file-AtAllTimes :
      {old : List Disk} (d : Dir) (n : Name) (t : List ℕ) (w : World)
      → KeptByPut P d n
      → AtAllTimes P old w
      → AtAllTimes P old (set_file d n t w)
  unfolding set_file KeptByPut
  set_file-AtAllTimes d n t w c h = elim (Option-cases (dir_of d w.disk)) [
    | inl e ↦ rw (set_file, e) h
    | inr (fs, e) ↦ rw (set_file, e) (change-AtAllTimes P _ w (c t fs w.disk e h.now) h)
  ]

  drop_file-AtAllTimes :
      {old : List Disk} (d : Dir) (n : Name) (w : World)
      → KeptByRemove P d n
      → AtAllTimes P old w
      → AtAllTimes P old (drop_file d n w)
  unfolding drop_file KeptByRemove
  drop_file-AtAllTimes d n w c h = elim (Option-cases (dir_of d w.disk)) [
    | inl e ↦ rw (drop_file, e) h
    | inr (fs, e) ↦ rw (drop_file, e) (change-AtAllTimes P _ w (c fs w.disk e h.now) h)
  ]

  pub unlink-Keeps : (os : Os) (d : Dir) (n : Name) → KeptByRemove P d n → Keeps P (unlink os d n)
  unfolding unlink
  unlink-Keeps os d n c = record {
    keeps = λ w h.
        let p = (called-Keeps os).keeps w h in
        AtAllTimes-if _ _ _ (drop_file-AtAllTimes d n _ c p) p;
  }

  pub fsync_dir-Keeps : (os : Os) (d : Dir) → Keeps P (fsync_dir os d)
  unfolding fsync_dir
  fsync_dir-Keeps os d = called-Keeps os

  pub keep_or_unlink-Keeps :
      (os : Os) (d : Dir) (n : Name) (b : Bool)
      → KeptByRemove P d n
      → Keeps P (keep_or_unlink os d n b)
  unfolding keep_or_unlink
  keep_or_unlink-Keeps os d n true c = pure-Keeps true
  keep_or_unlink-Keeps os d n false c =
      bind-Keeps _ _ (unlink-Keeps os d n c) (λ a. pure-Keeps false)

  pub synced-Keeps : (os : Os) (b : Bool) → Keeps P (synced os b)
  unfolding synced
  synced-Keeps os true = called-Keeps os
  synced-Keeps os false = pure-Keeps false

  pub create-Keeps : (os : Os) (d : Dir) (n : Name) → KeptByPut P d n → Keeps P (create os d n)
  unfolding create
  create-Keeps os d n c = record {
    keeps = λ w h.
        let p = (called-Keeps os).keeps w h in
        AtAllTimes-if _ _ _ (set_file-AtAllTimes d n [] _ c p) p;
  }

  pub write_all-Keeps :
      (d : Dir) (n : Name) (ws : List Written) (bytes out : List ℕ)
      → KeptByPut P d n
      → Keeps P (write_all d n ws bytes out)
  unfolding write_all
  write_all-Keeps d n ws [] out c = pure-Keeps true
  write_all-Keeps d n [] (b ∷ rest) out c = pure-Keeps false
  write_all-Keeps d n (write_interrupted ∷ ws) (b ∷ rest) out c =
      write_all-Keeps d n ws (b ∷ rest) out c
  write_all-Keeps d n (write_failed ∷ ws) (b ∷ rest) out c = pure-Keeps false
  write_all-Keeps d n (wrote zero ∷ ws) (b ∷ rest) out c = pure-Keeps false
  write_all-Keeps d n (wrote (suc k) ∷ ws) (b ∷ rest) out c = record {
    keeps = λ w h. (write_all-Keeps d n ws _ _ c).keeps _ (set_file-AtAllTimes d n _ w c h);
  }

  pub copy_loop-Keeps :
      (d : Dir) (n : Name) (rs : List ReadAnswer) (bytes out : List ℕ)
      → KeptByPut P d n
      → Keeps P (copy_loop d n rs bytes out)
  unfolding copy_loop
  copy_loop-Keeps d n rs [] out c = pure-Keeps true
  copy_loop-Keeps d n [] (b ∷ rest) out c = pure-Keeps false
  copy_loop-Keeps d n (read_interrupted ∷ rs) (b ∷ rest) out c =
      copy_loop-Keeps d n rs (b ∷ rest) out c
  copy_loop-Keeps d n (read_failed ∷ rs) (b ∷ rest) out c = pure-Keeps false
  copy_loop-Keeps d n (got k ws ∷ rs) (b ∷ rest) out c =
      bind-Keeps _ _ (write_all-Keeps d n ws _ out c) (λ done.
        if-Keeps done
          (copy_loop-Keeps d n rs (drop (suc k) (b ∷ rest)) (out ++ take (suc k) (b ∷ rest)) c)
          (pure-Keeps false))

  pub write_now-Keeps :
      (os : Os) (d : Dir) (n : Name) (text out : List ℕ)
      → KeptByPut P d n
      → Keeps P (write_now os d n text out)
  unfolding write_now
  write_now-Keeps os d n text out c = record {
    keeps = λ w h. (write_all-Keeps d n (os.writes w.calls) text out c).keeps w h;
  }

  pub copy_now-Keeps :
      (os : Os) (d : Dir) (n : Name) (text : List ℕ)
      → KeptByPut P d n
      → Keeps P (copy_now os d n text)
  unfolding copy_now
  copy_now-Keeps os d n text c = record {
    keeps = λ w h. (copy_loop-Keeps d n (os.reads w.calls) text [] c).keeps w h;
  }

  pub get_file-Keeps : (d : Dir) (n : Name) → Keeps P (get_file d n)
  unfolding get_file
  get_file-Keeps d n = record { keeps = λ w h. h }

  pub get_dir-Keeps : (d : Dir) → Keeps P (get_dir d)
  unfolding get_dir
  get_dir-Keeps d = record { keeps = λ w h. h }

  move-AtAllTimes :
      {old : List Disk} (os : Os) (d : Dir) (from to : Name) (w : World)
      → KeptByMove P d from to
      → AtAllTimes P old w
      → AtAllTimes P old (rename os d from to w).1
  unfolding rename called KeptByMove file_in
  move-AtAllTimes {old = old} os d from to w c h = elim (Bool-cases (os.ok w.calls)) [
    | inl e ↦ elim (Option-cases (dir_of d w.disk)) [
      | inl f ↦ rw (rename, e, f) p
      | inr (fs, f) ↦ elim (Option-cases (find_file from fs)) [
        | inl g ↦ rw (rename, e, f, file_in, g) p
        | inr (t, g) ↦
            rw (rename, e, f, file_in, g, f) (change-AtAllTimes P _ _ (c t fs w.disk f g h.now) p)
      ]
    ]
    | inr e ↦ rw (rename, e) p
  ]
    where
      p : AtAllTimes P old (called os w).1
      p = (called-Keeps os).keeps w h

  pub rename-Keeps :
      (os : Os) (d : Dir) (from to : Name) → KeptByMove P d from to → Keeps P (rename os d from to)
  rename-Keeps os d from to c = record { keeps = λ w h. move-AtAllTimes os d from to w c h }

pub ruleset keeps_rules = (
  pure-Keeps, if-Keeps, bind-Keeps, called-Keeps, unlink-Keeps, rename-Keeps, create-Keeps,
  synced-Keeps, keep_or_unlink-Keeps, fsync_dir-Keeps, write_now-Keeps, copy_now-Keeps,
  get_file-Keeps, get_dir-Keeps,
)

module _ {P : Disk → Type 0} (os : Os) where
  pub copy_bytes-Keeps :
      (d : Dir) (n : Name) (text : Option (List ℕ))
      → KeptByPut P d n
      → KeptByRemove P d n
      → Keeps P (copy_bytes os d n text)
  unfolding copy_bytes
  copy_bytes-Keeps d n none c r = pure-Keeps false
  copy_bytes-Keeps d n (some text) c r = search keeps_rules depth 8

  pub copy_file-Keeps :
      (from : Dir) (n : Name) (to : Dir) (m : Name)
      → KeptByPut P to m
      → KeptByRemove P to m
      → Keeps P (copy_file os from n to m)
  unfolding copy_file
  copy_file-Keeps from n to m c r = search (keeps_rules, copy_bytes-Keeps)

  pub write_temporary-Keeps :
      (d : Dir) (n : Name) (text : List ℕ)
      → KeptByPut P d n
      → KeptByRemove P d n
      → Keeps P (write_temporary os d n text)
  unfolding write_temporary
  write_temporary-Keeps d n text c r = search keeps_rules depth 8

  pub rename_or_unlink-Keeps :
      (d : Dir) (from to : Name)
      → KeptByMove P d from to
      → KeptByRemove P d from
      → Keeps P (rename_or_unlink os d from to)
  unfolding rename_or_unlink
  rename_or_unlink-Keeps d from to m r = search keeps_rules depth 8
