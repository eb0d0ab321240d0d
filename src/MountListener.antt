-- ===== src/MountListener.antt =====
-- udev/mount_listener.c: it compares the table of mounts with a copy of it, reports every line
-- that only the longer one has to a script, and copies the table again.
pub mod Lines
pub mod Changes
pub mod Unnoticed
use tcos.Base.{
  ℕ, zero, suc, ◌-◌, ℤ, pos, negsuc, Bool, true, false, ◌||◌, not, Bytes, codes, List, [], ◌∷◌,
  ◌++◌, Option, none, some, length, drop, ◌==◌, ltb, if◌then◌else◌, str_eq, str_prefix,
}
use tcos.CText.{take_line, fgets, snprintf, strtok}
use tcos.Host.{
  Host, M, write_file, usleep, polled, null_pointer, pure, ask, emit, run, deref, ◌>>=◌, ◌>>◌,
}

abbrev pub msg_buff : ℕ
msg_buff = 4096

abbrev pub save_udev : Bytes
save_udev = codes "/usr/sbin/save-udev.sh"

-- What is left of a stream behind one fgets.
unfoldable pub after_fgets : ℕ → Bytes → Bytes
after_fgets size s = drop (length (take_line (size - 1) s)) s

-- The lines that a loop of fgets reads; each takes a byte at least from the stream.
unfoldable pub read_lines : ℕ → ℕ → Bytes → List Bytes
unfolding after_fgets
read_lines zero size s = []
read_lines (suc fuel) size s = elim (fgets size s) [
  | none ↦ []
  | some line ↦ line ∷ read_lines fuel size (after_fgets size s)
]

unfoldable pub file_lines : Bytes → List Bytes
unfolding read_lines
file_lines s = read_lines (length s) msg_buff s

-- getnumlines, with `none` for -1.
unfoldable pub getnumlines : Option Bytes → Option ℕ
unfolding file_lines
getnumlines none = none
getnumlines (some s) = some (length (file_lines s))

unfoldable pub save_command : Bytes → Bytes → Bytes
unfolding snprintf
save_command output action =
    snprintf msg_buff (save_udev ++ (codes " " ++ (output ++ (codes " " ++ action))))

-- print_dev behind its strtok.
unfoldable pub save_device : Host → Bytes → Bytes → M (Unit {0})
unfolding save_command
save_device h output action = if str_prefix output (codes "/dev/disk/") then pure tt else do
  exists ← ask (λ t. h.file_exists t save_udev)
  if not exists
      then pure tt
      else do fp ← run h (save_command output action); deref null_pointer fp; pure tt

-- The first field of the line is the device.
unfoldable pub print_dev : Host → Bytes → Bytes → M (Unit {0})
unfolding save_device
print_dev h txt action = do
  (output, rest) ← deref null_pointer (strtok (codes " ") txt)
  save_device h output action

unfoldable pub copy_to : Host → Bytes → Option Bytes → M (Unit {0})
copy_to h fname2 none = pure tt
copy_to h fname2 (some contents) = do
  opened ← ask (λ t. h.can_write t fname2)
  if opened then emit (write_file fname2 contents) else pure tt

unfoldable pub sync_files : Host → Bytes → Bytes → M (Unit {0})
unfolding copy_to
sync_files h fname1 fname2 = do input ← ask (λ t. h.read_file t fname1); copy_to h fname2 input

-- The inner loop: some line of the other file is the same.
unfoldable pub has_line : Bytes → List Bytes → Bool
has_line line [] = false
has_line line (l ∷ ls) = str_eq l line || has_line line ls

-- The outer loop; the other file is opened again for each line.
unfoldable pub report_lines : Host → List Bytes → Bytes → Bytes → M (Unit {0})
unfolding has_line print_dev
report_lines h [] new action = pure tt
report_lines h (line ∷ rest) new action = do
  file ← ask (λ t. h.read_file t new)
  contents ← deref null_pointer file
  if has_line line (file_lines contents) then pure tt else print_dev h line action
  report_lines h rest new action

unfoldable pub report_file : Host → Bytes → Bytes → Bytes → M (Unit {0})
unfolding report_lines
report_file h old new action = do
  file ← ask (λ t. h.read_file t old)
  contents ← deref null_pointer file
  report_lines h (file_lines contents) new action

-- Behind the two counts.
unfoldable pub compare_counts : Host → Bytes → Bytes → Option ℕ → Option ℕ → M ℤ
unfolding report_file sync_files
compare_counts h fname1 fname2 none n2 = pure (negsuc 0)
compare_counts h fname1 fname2 (some n1) none = pure (negsuc 0)
compare_counts h fname1 fname2 (some n1) (some n2) = if n1 == n2 then pure (pos 1) else do
  if ltb n2 n1
      then report_file h fname1 fname2 (codes "mount")
      else report_file h fname2 fname1 (codes "umount")
  sync_files h fname1 fname2
  pure (pos 0)

unfoldable pub compare : Host → Bytes → Bytes → M ℤ
unfolding compare_counts getnumlines
compare h fname1 fname2 = do
  n1 ← ask (λ t. getnumlines (h.read_file t fname1))
  n2 ← ask (λ t. getnumlines (h.read_file t fname2))
  compare_counts h fname1 fname2 n1 n2

-- mysleep, in microseconds, after compare returned 1.
unfoldable pub pause : ℤ → M (Unit {0})
pause (pos (suc zero)) = emit (usleep 2000000)
pause _ = pure tt

-- What main does with a result of poll that is above 0.
unfoldable pub on_change : Host → Bytes → Bytes → M (Unit {0})
unfolding compare pause
on_change h fname1 fname2 = do emit (usleep 2); r ← compare h fname1 fname2; pause r

-- The loop of main over the results of poll, as long as they come. Each is an event, so that the
-- files may be others behind it. `some` is the program's return value.
unfoldable pub listen : Host → Bytes → Bytes → List ℤ → M (Option ℤ)
unfolding on_change
listen h fname1 fname2 [] = pure none
listen h fname1 fname2 (negsuc n ∷ rcs) = do emit (polled (negsuc n)); pure (some (negsuc 0))
listen h fname1 fname2 (pos zero ∷ rcs) = do emit (polled (pos 0)); listen h fname1 fname2 rcs
listen h fname1 fname2 (pos (suc n) ∷ rcs) = do
  emit (polled (pos (suc n)))
  on_change h fname1 fname2
  listen h fname1 fname2 rcs

-- main, where open succeeds if the table can be read.
unfoldable pub main : Host → Bytes → Bytes → List ℤ → M (Option ℤ)
unfolding listen
main h fname1 fname2 rcs = do
  sync_files h fname1 fname2
  table ← ask (λ t. h.read_file t fname1)
  elim table [ none ↦ pure (some (negsuc 0)) | some contents ↦ listen h fname1 fname2 rcs ]
