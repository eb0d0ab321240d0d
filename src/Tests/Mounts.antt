-- ===== src/Tests/Mounts.antt =====
-- The listener on a small table of mounts.
use tcos.Base.{
  none, pos, codes, [], ◌∷◌, ◌++◌, ◌≡◌, refl, some, arith, All, ltb, length, Bool-cases, inl, inr,
  str_eq, str_prefix, Bytes, if◌then◌else◌,
}
use mathlib.Core.List.{map}
use tcos.Host.{Host, Trace, done, popen, write_file}
use tcos.Host.Emits.{Extends}
use tcos.CText.{fgets, strtok, skip_delims, is_delim, token}
use tcos.MountListener.{listen, compare, file_lines, getnumlines, save_command, has_line}
use tcos.MountListener.Lines.{IsLine, file_of, with_break, getnumlines_counts}
use tcos.MountListener.Changes.{
  Mounts, new_devices, saved, HasFields, compare_mounts, compare_umounts,
}
use tcos.MountListener.Unnoticed.{IsWait, listen_misses}
use tcos.Tests.Fixtures.{machine_with}

abbrev disk : Bytes
disk = codes "/dev/sda1 /\n"

abbrev stick : Bytes
stick = codes "/dev/sdb1 /mnt\n"

-- The table and its copy.
abbrev table_machine : Bytes → Bytes → Host
table_machine table copy =
    machine_with (λ name. if str_eq name (codes "mounts") then some table else some copy)

is_Mounts :
    (table copy : Bytes)
    → Mounts (table_machine table copy) (codes "mounts") (codes "copy") table copy []
unfolding str_eq
is_Mounts table copy = record {
  read_table = λ x. refl;
  read_copy = λ x. refl;
  found = λ x. refl;
  starts = λ u cmd e. cc e;
  writes = λ u. refl;
}

two_lines : file_lines (disk ++ stick) ≡ disk ∷ stick ∷ []
unfolding file_lines fgets
two_lines = refl

one_line : file_lines disk ≡ disk ∷ []
unfolding file_lines fgets
one_line = refl

two_lines-HasFields : HasFields (disk ∷ stick ∷ [])
unfolding strtok skip_delims is_delim
two_lines-HasFields = ((λ e. cc e), ((λ e. cc e), tt))

stick_reported :
    saved (codes "mount") (new_devices (disk ∷ []) (disk ∷ stick ∷ [])) []
    ≡ popen (codes "/usr/sbin/save-udev.sh /dev/sdb1 mount") ∷ []
unfolding saved new_devices has_line save_command strtok str_eq skip_delims is_delim str_prefix
    token
stick_reported = refl

two_entries : All (IsLine 4096) (codes "/dev/sda1 /" ∷ codes "/dev/sdb1 /mnt" ∷ [])
two_entries = (
  record { unbroken = omega arith; plain = omega arith; short = omega arith },
  (record { unbroken = omega arith; plain = omega arith; short = omega arith }, tt),
)

getnumlines_counts_example :
    (file_lines (file_of (codes "/dev/sda1 /" ∷ codes "/dev/sdb1 /mnt" ∷ []))
      ≡ map with_break (codes "/dev/sda1 /" ∷ codes "/dev/sdb1 /mnt" ∷ []))
    × (getnumlines (some (file_of (codes "/dev/sda1 /" ∷ codes "/dev/sdb1 /mnt" ∷ []))) ≡ some 2)
getnumlines_counts_example =
    getnumlines_counts (codes "/dev/sda1 /" ∷ codes "/dev/sdb1 /mnt" ∷ []) two_entries

compare_mounts_example :
    compare (table_machine (disk ++ stick) disk) (codes "mounts") (codes "copy") []
    ≡ done (pos 0) (
        write_file (codes "copy") (disk ++ stick)
        ∷ saved (codes "mount") (new_devices (file_lines disk) (file_lines (disk ++ stick))) [])
compare_mounts_example =
    compare_mounts (table_machine (disk ++ stick) disk) (codes "mounts") (codes "copy")
      (disk ++ stick) disk [] (is_Mounts (disk ++ stick) disk)
      (rw (two_lines, one_line) (omega arith)) (rw two_lines two_lines-HasFields)

compare_umounts_example :
    compare (table_machine disk (disk ++ stick)) (codes "mounts") (codes "copy") []
    ≡ done (pos 0) (
        write_file (codes "copy") disk
        ∷ saved (codes "umount") (new_devices (file_lines disk) (file_lines (disk ++ stick))) [])
compare_umounts_example =
    compare_umounts (table_machine disk (disk ++ stick)) (codes "mounts") (codes "copy") disk
      (disk ++ stick) [] (is_Mounts disk (disk ++ stick)) (rw (two_lines, one_line) (omega arith))
      (rw two_lines two_lines-HasFields)

stick_line : file_lines stick ≡ stick ∷ []
unfolding file_lines fgets
stick_line = refl

-- Between two returns of poll the disk goes and the stick comes.
abbrev swapped : Trace → Bytes → Bytes
swapped t name =
    if str_eq name (codes "mounts") then (if ltb (length t) 3 then disk else stick) else disk

abbrev swapping : Host
swapping = record (table_machine disk disk) { read_file = λ t name. some (swapped t name) }

swapped_line : (t : Trace) → length (file_lines (swapped t (codes "mounts"))) ≡ 1
unfolding str_eq
swapped_line t = elim (Bool-cases (ltb (length t) 3)) [
  | inl early ↦ rw early (rw one_line refl)
  | inr late ↦ rw late (rw stick_line refl)
]

listen_misses_example :
    (u : Trace) × (listen swapping (codes "mounts") (codes "copy") (pos 1 ∷ pos 0 ∷ pos 1 ∷ []) []
      ≡ done none u)
    × Extends IsWait [] u
unfolding str_eq
listen_misses_example =
    listen_misses swapping (codes "mounts") (codes "copy") (pos 1 ∷ pos 0 ∷ pos 1 ∷ []) []
      (refl, (refl, (refl, tt)))
      (λ u x. record {
        table = swapped u (codes "mounts");
        copy = disk;
        read_table = refl;
        read_copy = refl;
        even = rw (swapped_line u, one_line) refl;
      })
