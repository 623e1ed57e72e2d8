-- ===== src/Boot/Names.antt =====
-- The names of boot recovery (include/boot_recovery.hpp), the boot files in a backup, and the text
-- of the trial's counter.
use audiox.Prelude.Decimal.{decimal}
use audiox.Prelude.{
  ◌^◌, length, drop, ◌==◌, ◌-◌, ◌&&◌, ◌%◌, starts_with, not, ltb, ◌||◌, ◌+◌, ◌++◌, ◌*◌, leb,
  if◌then◌else◌, bytes_eq, Option, ℕ, codes, List, Bool, ◌∷◌, [], some, none, true, false,
}
use audiox.Boot.Disk.{Name, Files}
use audiox.Update.Names.{valid_kernel_name, value_max, until_nul}

abbrev pub dir_name : Name
dir_name = codes "system"

abbrev pub backup_name : Name
backup_name = codes "boot-backup"

abbrev pub trial_name : Name
trial_name = codes "boot-trial"

abbrev pub events_name : Name
events_name = codes "boot-trial.log"

abbrev pub report_name : Name
report_name = codes "last-boot-failure.txt"

abbrev pub version_name : Name
version_name = codes "version"

abbrev pub config_name : Name
config_name = codes "config.txt"

abbrev pub max_attempts : ℕ
max_attempts = 3

abbrev pub max_files : ℕ
max_files = 8

abbrev pub file_names : List Name
file_names =
    codes "initramfs.cpio.gz" ∷ codes "program.cpio.gz" ∷ codes "cmdline.txt" ∷ config_name ∷ []

unfoldable pub has_name : Name → List Name → Bool
has_name n [] = false
has_name n (m ∷ ms) = bytes_eq n m || has_name n ms

unfoldable pub is_boot_file : Name → Bool
is_boot_file n = has_name n file_names || valid_kernel_name n

-- One turn of the readdir() loop: the names so far, and whether config.txt was met.
unfoldable pub note_entry : Name → List Name × Bool → List Name × Bool
note_entry n (names, has_config) =
    if not (is_boot_file n) || leb value_max (length n)
    then (names, has_config)
    else if bytes_eq n config_name
    then (names, true)
    else if ltb (length names) (max_files - 1)
    then (names ++ (n ∷ []), has_config)
    else (names, has_config)

unfoldable pub list_loop : Files → List Name × Bool → List Name × Bool
list_loop [] found = found
list_loop ((n, text) ∷ fs) found = list_loop fs (note_entry n found)

-- config.txt, which selects the kernel, comes last.
unfoldable pub list_backup : Files → List Name
list_backup fs =
    let (names, has_config) = list_loop fs ([], false) in
    if has_config then names ++ (config_name ∷ []) else names

unfoldable pub trial_text : ℕ → List ℕ
trial_text n = codes "attempts=" ++ decimal n ++ codes "\n"

unfoldable pub skip_space : List ℕ → List ℕ
skip_space [] = []
skip_space (c ∷ cs) =
    let rest = skip_space cs in if c == 32 || (leb 9 c && leb c 13) then rest else c ∷ cs

abbrev pub is_digit : ℕ → Bool
is_digit c = leb 48 c && leb c 57

unfoldable pub number : ℕ → List ℕ → ℕ
number n [] = n
number n (c ∷ cs) = let more = number (n * 10 + (c - 48)) cs in if is_digit c then more else n

-- A number out of range counts as 2^64 - 1.
unfoldable pub saturated : Bool → ℕ → ℕ
saturated minus n =
    if ltb n (2 ^ 64) then (if minus then (2 ^ 64 - n) % 2 ^ 64 else n) else 2 ^ 64 - 1

unfoldable pub unsigned : Bool → List ℕ → Option ℕ
unsigned minus [] = none
unsigned minus (c ∷ cs) =
    if is_digit c then some (saturated minus (number 0 (c ∷ cs)) % 2 ^ 32) else none

unfoldable pub signed : List ℕ → Option ℕ
signed [] = none
signed (c ∷ cs) =
    if c == b'-'
    then unsigned true cs
    else if c == b'+'
    then unsigned false cs
    else unsigned false (c ∷ cs)

-- `sscanf(text, "attempts=%u", &parsed)`: `%u` skips white space and reads a sign, too; a number
-- out of range counts as 2^64 - 1, before it is cut to 32 bits.
unfoldable pub scan_attempts : List ℕ → Option ℕ
scan_attempts text =
    if starts_with (codes "attempts=") text then signed (skip_space (drop 9 text)) else none

unfoldable pub read_attempts : List ℕ → ℕ
read_attempts text = elim (scan_attempts (until_nul text)) [ none ↦ max_attempts | some n ↦ n ]

unfoldable pub trim_line : List ℕ → List ℕ
trim_line [] = []
trim_line (c ∷ cs) =
    let rest = trim_line cs in if (c == 10 || c == 13) && length rest == 0 then [] else c ∷ rest

-- `text && text[0] ? text : fallback`; a null pointer is the empty text.
unfoldable pub or_default : List ℕ → List ℕ → List ℕ
or_default [] fallback = fallback
or_default (c ∷ cs) fallback = c ∷ cs
