-- ===== src/MountListener/Changes.antt =====
-- What `compare` of udev/mount_listener.c reports when the table of mounts has changed.
use tcos.Base.{
  pos, ◌<◌, ◌≡◌, ◌≢◌, refl, arith, true, false, Bytes, codes, List, [], ◌∷◌, none, some, All,
  length, ltb, lt→ltb, ◌==◌, Bool-cases, Option-cases, inl, inr, if◌then◌else◌, str_prefix,
}
use tcos.CText.{strtok}
use tcos.Host.{Host, Trace, Event, popen, write_file, done, pure, ask, emit, run, deref}
use tcos.Host.Emits.{Extends, same, more}
use tcos.MountListener.{
  save_udev, file_lines, getnumlines, save_command, save_device, print_dev, copy_to, sync_files,
  has_line, report_lines, report_file, compare_counts, compare,
}

-- The devices of the lines that the other file does not have, without those of /dev/disk/.
unfoldable pub new_devices : List Bytes → List Bytes → List Bytes
new_devices others [] = []
new_devices others (line ∷ rest) =
    let devices = new_devices others rest in
    if has_line line others then devices else elim (strtok (codes " ") line) [
      | none ↦ devices
      | some (d, fields) ↦ if str_prefix d (codes "/dev/disk/") then devices else d ∷ devices
    ]

-- The script is started for each device, in their order.
unfoldable pub saved : Bytes → List Bytes → Trace → Trace
saved action [] t = t
saved action (d ∷ devices) t = saved action devices (popen (save_command d action) ∷ t)

pub data IsSave : Event → Type 0 where
  save : (device action : Bytes) → IsSave (popen (save_command device action))

-- A machine on which the script is there and starts, and changes neither file.
pub record Mounts (h : Host) (fname1 fname2 table copy : Bytes) (t : Trace) : Type 0 where
  pub read_table : {u : Trace} → Extends IsSave t u → h.read_file u fname1 ≡ some table
  pub read_copy : {u : Trace} → Extends IsSave t u → h.read_file u fname2 ≡ some copy
  pub found : {u : Trace} → Extends IsSave t u → h.file_exists u save_udev ≡ true
  pub starts : (u : Trace) (cmd : Bytes) → h.popen_output u cmd ≢ none
  pub writes : (u : Trace) → h.can_write u fname2 ≡ true

-- Every line has a field.
abbrev pub HasFields : List Bytes → Type 0
HasFields = All (λ line. strtok (codes " ") line ≢ none)

module _ (h : Host) (t : Trace) where
  save_device-runs :
      (d action : Bytes)
      → str_prefix d (codes "/dev/disk/") ≡ false
      → h.file_exists t save_udev ≡ true
      → h.popen_output t (save_command d action) ≢ none
      → save_device h d action t ≡ done tt (popen (save_command d action) ∷ t)
  unfolding save_device ask pure run deref
  save_device-runs d action device found starts =
      elim (Option-cases (h.popen_output t (save_command d action))) [
        | inl n ↦ absurd (starts n)
        | inr (out, s) ↦ rw (device, found, s) refl
      ]

  save_device-skips :
      (d action : Bytes)
      → str_prefix d (codes "/dev/disk/") ≡ true
      → save_device h d action t ≡ done tt t
  unfolding save_device pure
  save_device-skips d action device = rw device refl

module _ (h : Host) (t : Trace) (new contents action : Bytes)
    (read_new : (u : Trace) → Extends IsSave t u → h.read_file u new ≡ some contents)
    (found : (u : Trace) → Extends IsSave t u → h.file_exists u save_udev ≡ true)
    (starts : (u : Trace) (cmd : Bytes) → h.popen_output u cmd ≢ none) where
  report_lines-saves :
      (lines : List Bytes) {u : Trace}
      → Extends IsSave t u
      → HasFields lines
      → report_lines h lines new action u
        ≡ done tt (saved action (new_devices (file_lines contents) lines) u)
  unfolding report_lines new_devices saved print_dev ask deref pure
  report_lines-saves [] x fields = refl
  report_lines-saves (line ∷ rest) {u} x fields =
      elim (Bool-cases (has_line line (file_lines contents))) [
        | inl seen ↦ rw (read_new u x, seen) (report_lines-saves rest x fields.1)
        | inr unseen ↦ elim (Option-cases (strtok (codes " ") line)) [
          | inl n ↦ absurd (fields.0 n)
          | inr ((d, others), s) ↦ elim (Bool-cases (str_prefix d (codes "/dev/disk/"))) [
            | inl disk ↦
                rw (read_new u x, unseen, s)
                  (rw (save_device-skips h u d action disk, disk)
                    (report_lines-saves rest x fields.1))
            | inr device ↦
                rw (read_new u x, unseen, s)
                  (rw (save_device-runs h u d action device (found u x) (starts u _), device)
                    (report_lines-saves rest (more x (IsSave.save d action)) fields.1))
          ]
        ]
      ]

saved-Extends :
    (action : Bytes) (devices : List Bytes) {t u : Trace}
    → Extends IsSave t u
    → Extends IsSave t (saved action devices u)
unfolding saved
saved-Extends action [] x = x
saved-Extends action (d ∷ devices) x = saved-Extends action devices (more x (IsSave.save d action))

module _ (h : Host) (fname1 fname2 table copy : Bytes) (t : Trace)
    (m : Mounts h fname1 fname2 table copy t) where
  sync_files-copies :
      {u : Trace}
      → Extends IsSave t u
      → sync_files h fname1 fname2 u ≡ done tt (write_file fname2 table ∷ u)
  unfolding sync_files copy_to ask emit pure
  sync_files-copies {u} x = rw (m.read_table x, m.writes u) refl

  compare-uneven :
      (action old new olds news : Bytes)
      → (length (file_lines table) == length (file_lines copy)) ≡ false
      → (if ltb (length (file_lines copy)) (length (file_lines table))
          then report_file h fname1 fname2 (codes "mount")
          else report_file h fname2 fname1 (codes "umount"))
        ≡ report_file h old new action
      → ((u : Trace) → Extends IsSave t u → h.read_file u old ≡ some olds)
      → ((u : Trace) → Extends IsSave t u → h.read_file u new ≡ some news)
      → HasFields (file_lines olds)
      → compare h fname1 fname2 t
        ≡ done (pos 0) (
            write_file fname2 table
            ∷ saved action (new_devices (file_lines news) (file_lines olds)) t)
  unfolding compare getnumlines compare_counts report_file ask deref pure
  compare-uneven action old new olds news uneven branch read_old read_new fields =
      rw (m.read_table same, m.read_copy same, uneven, branch, read_old t same)
        (rw
          (
            report_lines-saves h t new news action read_new (λ u x. m.found x) m.starts
                (file_lines olds) same fields,
            sync_files-copies
                (saved-Extends action (new_devices (file_lines news) (file_lines olds)) same),
          )
          refl)

  -- If the table has more lines than its copy, the device of every line that only the table has is
  -- reported as mounted, in the table's order and without those of /dev/disk/, and the copy is
  -- brought up to date. The script is there and starts, and changes neither file; every line of
  -- the table has a field.
  pub compare_mounts :
      length (file_lines copy) < length (file_lines table)
      → HasFields (file_lines table)
      → compare h fname1 fname2 t
        ≡ done (pos 0) (
            write_file fname2 table
            ∷ saved (codes "mount") (new_devices (file_lines copy) (file_lines table)) t)
  compare_mounts lt fields =
      let more_lines = lt→ltb _ _ lt in
      compare-uneven (codes "mount") fname1 fname2 table copy (ground (arith, lt))
        (rw more_lines refl) (λ u x. m.read_table x) (λ u x. m.read_copy x) fields

  -- If the copy has more lines, the device of every line that only the copy has is reported as
  -- unmounted, without those of /dev/disk/, and the copy is brought up to date. The script is
  -- there and starts, and changes neither file; every line of the copy has a field.
  pub compare_umounts :
      length (file_lines table) < length (file_lines copy)
      → HasFields (file_lines copy)
      → compare h fname1 fname2 t
        ≡ done (pos 0) (
            write_file fname2 table
            ∷ saved (codes "umount") (new_devices (file_lines table) (file_lines copy)) t)
  compare_umounts lt fields =
      let fewer : ltb (length (file_lines copy)) (length (file_lines table)) ≡ false =
        ground (arith, lt) in
      compare-uneven (codes "umount") fname2 fname1 copy table (ground (arith, lt)) (rw fewer refl)
        (λ u x. m.read_copy x) (λ u x. m.read_table x) fields
