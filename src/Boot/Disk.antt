-- ===== src/Boot/Disk.antt =====
-- The files that boot recovery works on, and the calls that change them. A directory is the list of
-- its entries, `none` if there is none. What a call answers, beyond what the disk determines, is
-- the parameter `Os`, indexed by the number of the call; `past` keeps every earlier state of the
-- disk, newest first: where the power may fail.
pub mod Laws
use audiox.Prelude.{
  ◌||◌, true, not, length, ◌+◌, ◌&&◌, some, ltb, false, bytes_eq, ℕ, none, if◌then◌else◌, Option,
  List, Bool, ◌∷◌, [], zero, suc,
}

abbrev pub Name : Type 0
Name = List ℕ

abbrev pub Files : Type 0
Files = List (Name × List ℕ)

pub data Dir : Type 0 where
  root boot state backup backup_tmp : Dir

pub record Disk : Type 0 where
  pub root_dir : Option Files
  pub boot_dir : Option Files
  pub state_dir : Option Files
  pub backup_dir : Option Files
  pub backup_tmp_dir : Option Files

abbrev pub dir_of : Dir → Disk → Option Files
dir_of root d = d.root_dir
dir_of boot d = d.boot_dir
dir_of state d = d.state_dir
dir_of backup d = d.backup_dir
dir_of backup_tmp d = d.backup_tmp_dir

abbrev pub put_dir : Dir → Option Files → Disk → Disk
put_dir root f d = record d { root_dir = f }
put_dir boot f d = record d { boot_dir = f }
put_dir state f d = record d { state_dir = f }
put_dir backup f d = record d { backup_dir = f }
put_dir backup_tmp f d = record d { backup_tmp_dir = f }

unfoldable pub find_file : Name → Files → Option (List ℕ)
find_file n [] = none
find_file n ((m, text) ∷ fs) = if bytes_eq m n then some text else find_file n fs

unfoldable pub put_file : Name → List ℕ → Files → Files
put_file n text [] = (n, text) ∷ []
put_file n text ((m, old) ∷ fs) =
    if bytes_eq m n then (m, text) ∷ fs else (m, old) ∷ put_file n text fs

unfoldable pub remove_file : Name → Files → Files
remove_file n [] = []
remove_file n ((m, text) ∷ fs) =
    let rest = remove_file n fs in if bytes_eq m n then rest else (m, text) ∷ rest

unfoldable pub file_in : Name → Option Files → Option (List ℕ)
file_in n none = none
file_in n (some fs) = find_file n fs

abbrev pub is_some : {A : Type 0} → Option A → Bool
is_some none = false
is_some (some a) = true

abbrev pub is_empty : Option Files → Bool
is_empty none = false
is_empty (some []) = true
is_empty (some (f ∷ fs)) = false

-- What write() answers: an interruption, an error, or a count.
pub data Written : Type 0 where
  write_interrupted : Written
  write_failed : Written
  wrote : ℕ → Written

-- What read() answers: an interruption, an error, or up to `n + 1` bytes, which are written to the
-- copy with these answers.
pub data ReadAnswer : Type 0 where
  read_interrupted : ReadAnswer
  read_failed : ReadAnswer
  got : ℕ → List Written → ReadAnswer

-- For each call whether it can succeed, what write() and read() answer from there, and the text of
-- strerror(); and the lengths of the two directories' paths.
pub record Os : Type 0 where
  pub ok : ℕ → Bool
  pub writes : ℕ → List Written
  pub reads : ℕ → List ReadAnswer
  pub message : ℕ → List ℕ
  pub root_length : ℕ
  pub boot_length : ℕ

pub record World : Type 0 where
  pub disk : Disk
  pub calls : ℕ
  pub past : List Disk

abbrev pub M : Type 0 → Type 0
M A = World → A × World

abbrev pub pure : {A : Type 0} → A → M A
pure a w = (a, w)

infixl 5 ◌>>=◌ ◌>>◌
abbrev pub ◌>>=◌ : {A B : Type 0} → M A → (A → M B) → M B
◌>>=◌ m f w = f (m w).0 (m w).1

abbrev pub ◌>>◌ : {A B : Type 0} → M A → M B → M B
◌>>◌ m k w = k (m w).1

unfoldable pub change : Disk → World → World
change d w = record w { disk = d; past = w.disk ∷ w.past }

unfoldable pub get_dir : Dir → M (Option Files)
get_dir d w = (dir_of d w.disk, w)

-- The file's bytes, if it is there.
unfoldable pub get_file : Dir → Name → M (Option (List ℕ))
get_file d n w = (file_in n (dir_of d w.disk), w)

unfoldable pub set_file : Dir → Name → List ℕ → World → World
set_file d n text w = elim (dir_of d w.disk) [
  | none ↦ w
  | some fs ↦ change (put_dir d (some (put_file n text fs)) w.disk) w
]

unfoldable pub drop_file : Dir → Name → World → World
drop_file d n w = elim (dir_of d w.disk) [
  | none ↦ w
  | some fs ↦ change (put_dir d (some (remove_file n fs)) w.disk) w
]

module _ (os : Os) where
  -- The next call's answer.
  unfoldable pub called : M Bool
  called w = (os.ok w.calls, record w { calls = w.calls + 1 })

  unfoldable pub unlink : Dir → Name → M Bool
  unlink d n w =
      let (good, w') = called w in
      if good && is_some (file_in n (dir_of d w.disk))
      then (true, drop_file d n w')
      else (false, w')

  -- open() for writing, with O_CREAT and O_TRUNC: the file is empty then.
  unfoldable pub create : Dir → Name → M Bool
  create d n w =
      let (good, w') = called w in
      if good && is_some (dir_of d w.disk) then (true, set_file d n [] w') else (false, w')

  -- rename() within a directory.
  unfoldable pub rename : Dir → Name → Name → M Bool
  rename d from to w =
      let (good, w') = called w in
      if good
      then elim (file_in from (dir_of d w.disk)) [
        | none ↦ (false, w')
        | some text ↦ elim (dir_of d w.disk) [
          | none ↦ (false, w')
          | some fs ↦
              (true, change (put_dir d (some (put_file to text (remove_file from fs))) w.disk) w')
        ]
      ]
      else (false, w')

  -- mkdir() fails on a directory that is there.
  unfoldable pub mkdir : Dir → M Bool
  mkdir d w =
      let (good, w') = called w in
      if good && not (is_some (dir_of d w.disk))
      then (true, change (put_dir d (some []) w.disk) w')
      else (false, w')

  unfoldable pub rmdir : Dir → M Bool
  rmdir d w =
      let (good, w') = called w in
      if good && is_empty (dir_of d w.disk)
      then (true, change (put_dir d none w.disk) w')
      else (false, w')

  -- rename() of a directory, onto none or an empty one.
  unfoldable pub rename_dir : Dir → Dir → M Bool
  rename_dir from to w =
      let (good, w') = called w in
      if good
        && (is_some (dir_of from w.disk)
            && (not (is_some (dir_of to w.disk)) || is_empty (dir_of to w.disk)))
      then (true, change (put_dir from none (put_dir to (dir_of from w.disk) w.disk)) w')
      else (false, w')

  -- The lengths of the paths: root/system, root/system/boot-backup, root/system/boot-backup.tmp.
  unfoldable pub path_length : Dir → ℕ
  path_length root = os.root_length
  path_length boot = os.boot_length
  path_length state = os.root_length + 7
  path_length backup = os.root_length + 19
  path_length backup_tmp = os.root_length + 23

  -- `brPath`, with a suffix of `more` bytes: does the path fit its 512 bytes?
  unfoldable pub path_fits : Dir → Name → ℕ → Bool
  path_fits d n more = ltb (path_length d + 1 + length n + more) 512
