-- ===== src/Boot/Files.antt =====
-- The file helpers of include/boot_recovery.hpp.
use audiox.Prelude.{
  bytes_eq, ◌&&◌, ◌==◌, min, drop, ◌||◌, take, length, ◌-◌, true, some, not, false, codes, ℕ, none,
  if◌then◌else◌, Option, List, Bool, ◌∷◌, [], ◌++◌, zero, suc,
}
use audiox.Boot.Disk.{
  root, boot, state, backup, backup_tmp, Name, Files, Dir, Written, write_interrupted, write_failed,
  wrote, ReadAnswer, read_interrupted, read_failed, got, Os, M, pure, ◌>>=◌, get_dir, get_file,
  set_file, called, unlink, create, rename, rmdir, path_fits,
}

abbrev pub tmp_suffix : List ℕ
tmp_suffix = codes ".tmp"

-- `brWriteAll` on a file that holds `out` so far. The bytes left are none, or the answers end:
-- write() gave 0.
unfoldable pub write_all : Dir → Name → List Written → List ℕ → List ℕ → M Bool
write_all d n ws [] out = pure true
write_all d n [] (b ∷ rest) out = pure false
write_all d n (write_interrupted ∷ ws) (b ∷ rest) out = write_all d n ws (b ∷ rest) out
write_all d n (write_failed ∷ ws) (b ∷ rest) out = pure false
write_all d n (wrote zero ∷ ws) (b ∷ rest) out = pure false
write_all d n (wrote (suc k) ∷ ws) (b ∷ rest) out = λ w.
    let more = out ++ take (suc k) (b ∷ rest) in
    write_all d n ws (drop (suc k) (b ∷ rest)) more (set_file d n more w)

-- The loop of `brCopyFile` with `rest` still to read: at its end read() gives 0. The answers end
-- before that: an error.
unfoldable pub copy_loop : Dir → Name → List ReadAnswer → List ℕ → List ℕ → M Bool
copy_loop d n rs [] out = pure true
copy_loop d n [] (b ∷ rest) out = pure false
copy_loop d n (read_interrupted ∷ rs) (b ∷ rest) out = copy_loop d n rs (b ∷ rest) out
copy_loop d n (read_failed ∷ rs) (b ∷ rest) out = pure false
copy_loop d n (got k ws ∷ rs) (b ∷ rest) out = do
  let bytes = take (suc k) (b ∷ rest)
  done ← write_all d n ws bytes out
  if done then copy_loop d n rs (drop (suc k) (b ∷ rest)) (out ++ bytes) else pure false

-- `brReadSmallFile` into a buffer of `size` bytes: an error in the middle ends the text early.
unfoldable pub read_text : List ReadAnswer → ℕ → List ℕ → List ℕ → List ℕ
read_text rs size [] have = have
read_text [] size (b ∷ rest) have = have
read_text (read_interrupted ∷ rs) size (b ∷ rest) have = read_text rs size (b ∷ rest) have
read_text (read_failed ∷ rs) size (b ∷ rest) have = have
read_text (got k ws ∷ rs) size (b ∷ rest) have =
    let space = size - 1 - length have in
    let count = min (suc k) space in
    let more = read_text rs size (drop count (b ∷ rest)) (have ++ take count (b ∷ rest)) in
    if space == 0 then have else more

-- The number that tells the directories apart.
abbrev pub dir_number : Dir → ℕ
dir_number root = 0
dir_number boot = 1
dir_number state = 2
dir_number backup = 3
dir_number backup_tmp = 4

abbrev pub same_file : Dir → Name → Dir → Name → Bool
same_file from n to m = dir_number from == dir_number to && bytes_eq n m

-- What there is to read of a source once the target is open, which empties it: nothing, if they are
-- one file.
abbrev pub left_to_read : Dir → Name → Dir → Name → List ℕ → List ℕ
left_to_read from n to m text = if same_file from n to m then [] else text

abbrev pub source_of : Dir → Name → Dir → Name → Option (List ℕ) → Option (List ℕ)
source_of from n to m none = none
source_of from n to m (some text) = some (left_to_read from n to m text)

module _ (os : Os) where
  -- With the answers that come now.
  unfoldable pub write_now : Dir → Name → List ℕ → List ℕ → M Bool
  write_now d n text out w = write_all d n (os.writes w.calls) text out w

  unfoldable pub copy_now : Dir → Name → List ℕ → M Bool
  copy_now d n text w = copy_loop d n (os.reads w.calls) text [] w

  -- The end of a write: the file is closed, and goes if anything failed.
  unfoldable pub keep_or_unlink : Dir → Name → Bool → M Bool
  keep_or_unlink d n true = pure true
  keep_or_unlink d n false = do _ ← unlink os d n; pure false

  -- `rc == 0 && fsync(fd) == 0`.
  unfoldable pub synced : Bool → M Bool
  synced true = called os
  synced false = pure false

  unfoldable pub copy_bytes : Dir → Name → Option (List ℕ) → M Bool
  copy_bytes d n none = pure false
  copy_bytes d n (some text) = do
    made ← create os d n
    if made then copy_now d n text >>= synced >>= keep_or_unlink d n else pure false

  unfoldable pub copy_file : Dir → Name → Dir → Name → M Bool
  copy_file from n to m = do
    text ← get_file from n
    good ← called os
    if good then copy_bytes to m (source_of from n to m text) else pure false

  unfoldable pub fsync_dir : Dir → M Bool
  fsync_dir d = called os

  unfoldable pub write_temporary : Dir → Name → List ℕ → M Bool
  write_temporary d n text = do
    made ← create os d n
    if made then write_now d n text [] >>= synced >>= keep_or_unlink d n else pure false

  unfoldable pub rename_or_unlink : Dir → Name → Name → M Bool
  rename_or_unlink d from to = do
    moved ← rename os d from to
    if moved then pure true else do _ ← unlink os d from; pure false

  -- `brWriteFileAtomic`.
  unfoldable pub write_file_atomic : Dir → Name → List ℕ → M Bool
  write_file_atomic d n text =
      if not (path_fits os d n 0) || not (path_fits os d n 4) then pure false else do
        written ← write_temporary d (n ++ tmp_suffix) text
        if written
            then (do
              moved ← rename_or_unlink d (n ++ tmp_suffix) n
              if moved then (do _ ← fsync_dir d; pure true) else pure false)
            else pure false

  unfoldable pub read_now : ℕ → Option (List ℕ) → M (Option (List ℕ))
  read_now size none w = (none, w)
  read_now size (some text) w = (some (read_text (os.reads w.calls) size text []), w)

  -- The text, at most `size - 1` bytes; `none` where open() fails.
  unfoldable pub read_small_file : Dir → Name → ℕ → M (Option (List ℕ))
  read_small_file d n size = do
    text ← get_file d n
    good ← called os
    if good then read_now size text else pure none

  -- `brAppendText`: what it cannot write is lost.
  unfoldable pub append_text : Dir → Name → List ℕ → M (Unit {0})
  append_text d n text = do
    old ← get_file d n
    made ← elim old [ none ↦ create os d n | some bytes ↦ called os ]
    if made
        then (do
          _ ← write_now d n text (elim old [ none ↦ [] | some bytes ↦ bytes ])
          _ ← called os
          pure tt)
        else pure tt

  unfoldable pub unlink_entries : Dir → Files → M (Unit {0})
  unlink_entries d [] = pure tt
  unlink_entries d ((n, text) ∷ fs) =
      if path_fits os d n 0
      then (do _ ← unlink os d n; unlink_entries d fs)
      else unlink_entries d fs

  -- `brRemoveFlatDir`: opendir(), the entries, and rmdir(), which fails if one is left.
  unfoldable pub remove_flat_dir : Dir → M (Unit {0})
  remove_flat_dir d = do
    entries ← get_dir d
    listed ← called os
    _ ← (elim entries [
      | none ↦ pure tt
      | some fs ↦ if listed then unlink_entries d fs else pure tt
    ])
    _ ← rmdir os d
    pure tt
