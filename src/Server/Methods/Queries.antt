-- ===== src/Server/Methods/Queries.antt =====
-- Methods that answer questions: xmlrpc/info.c, standalone.c and pci.c. Their parameters are used
-- with no test of the fault flag.
use tcos.Base.{
  Option, none, some, List, Bytes, codes, [], ◌∷◌, ◌++◌, str_eq, str_contains, if◌then◌else◌,
}
use tcos.CText.{snprintf, fgets}
use tcos.Host.{
  Host, M, uninitialised, null_pointer, Request, Reply, string, pure, run, deref, ◌>>=◌,
}
use tcos.Auth.{bsize}
use tcos.Server.Exec.{big_buffer, answer_line, read_line}
use tcos.Server.Gates.{require_login}

-- The requests of tcos_info and the arguments of getinfo.sh behind them, in the code's order.
abbrev pub info_requests : List (Bytes × Bytes)
info_requests =
    (codes "get_client", codes "-t")
    ∷ (codes "get_process", codes "-p")
    ∷ (codes "cpu_model", codes "-i CPU_MODEL")
    ∷ (codes "cpu_speed", codes "-i CPU_SPEED")
    ∷ (codes "cpu_vendor", codes "-i CPU_VENDOR")
    ∷ (codes "ram_total", codes "-i RAM_TOTAL")
    ∷ (codes "ram_active", codes "-i RAM_ACTIVE")
    ∷ (codes "ram_free", codes "-i RAM_FREE")
    ∷ (codes "ram_used", codes "-i RAM_USED")
    ∷ (codes "swap_avalaible", codes "-i SWAP_AVALAIBLE")
    ∷ (codes "swap_total", codes "-i SWAP_TOTAL")
    ∷ (codes "swap_used", codes "-i SWAP_USED")
    ∷ (codes "swap_free", codes "-i SWAP_FREE")
    ∷ (codes "tcos_date", codes "-i TCOS_DATE")
    ∷ (codes "tcos_generation_date", codes "-i TCOS_GENERATION_DATE")
    ∷ (codes "tcos_version", codes "-i TCOS_VERSION")
    ∷ (codes "tcos_uptime", codes "-i TCOS_UPTIME")
    ∷ (codes "kernel_version", codes "-i KERNEL_VERSION")
    ∷ (codes "kernel_complete_version", codes "-i KERNEL_COMPLETE_VERSION")
    ∷ (codes "network_hostname", codes "-i NETWORK_HOSTNAME")
    ∷ (codes "network_ip", codes "-i NETWORK_IP")
    ∷ (codes "network_mac", codes "-i NETWORK_MAC")
    ∷ (codes "network_mask", codes "-i NETWORK_MASK")
    ∷ (codes "network_rx", codes "-i NETWORK_RX")
    ∷ (codes "network_tx", codes "-i NETWORK_TX")
    ∷ (codes "modules_loaded", codes "-i MODULES_LOADED")
    ∷ (codes "modules_notfound", codes "-i MODULES_NOTFOUND")
    ∷ (codes "screensize", codes "-i SCREENSIZE")
    ∷ []

-- The ladder of comparisons: the first row with the key.
unfoldable pub find_row : List (Bytes × Bytes) → Bytes → Option Bytes
find_row [] key = none
find_row ((name, value) ∷ rows) key = if str_eq key name then some value else find_row rows key

abbrev pub info_unknow : Bytes
info_unknow = codes "error: Unknow info request"

unfoldable pub answer_info : Host → Bytes → M Reply
unfolding find_row answer_line
answer_info h info = elim (find_row info_requests info) [
  | none ↦ pure (string info_unknow)
  | some args ↦
      answer_line h info_unknow (codes "error: info command failure") big_buffer
        (h.tcos_path ++ (codes "/getinfo.sh " ++ args))
]

unfoldable pub tcos_info : Host → Request → M Reply
unfolding answer_info
tcos_info h req = do info ← deref uninitialised req.one_sized; answer_info h info

unfoldable pub get_server : Host → Bytes
get_server h =
    if h.is_standalone then codes "/usr/lib/tcos/get_server" else codes "/usr/bin/get_server"

-- The command behind each request of tcos_standalone; `group` is the caller's second parameter.
unfoldable pub standalone_command : Host → Bytes → Bytes → Option Bytes
unfolding snprintf get_server
standalone_command h info group =
    if str_eq info (codes "get_user")
    then some (codes "/usr/lib/tcos/tcos-last --user 2>/dev/null")
    else if str_eq info (codes "get_exclude")
    then some (
        snprintf bsize
          (codes "/usr/lib/tcos/tcos-last --ingroup=" ++ (group ++ codes " 2>/dev/null")))
    else if str_eq info (codes "get_process")
    then some (
        codes
          "ps U $(/usr/lib/tcos/tcos-last --user 2>/dev/null) -o pid | sed 's/[[:blank:]]//g' | grep -c ^[0-9]")
    else if str_eq info (codes "get_server")
    then some (snprintf bsize (get_server h ++ (codes " " ++ (group ++ codes " 2>/dev/null"))))
    else if str_eq info (codes "get_multiseat")
    then some
        (snprintf bsize (codes "/usr/lib/tcos/get_multiseat " ++ (group ++ codes " 2>/dev/null")))
    else if str_eq info (codes "get_time")
    then some (codes "/usr/lib/tcos/tcos-last --time 2>/dev/null")
    else none

abbrev pub standalone_unknow : Bytes
standalone_unknow = codes "error: Unknow user"

unfoldable pub answer_standalone : Host → Bytes → Bytes → M Reply
unfolding standalone_command answer_line
answer_standalone h info group = elim (standalone_command h info group) [
  | none ↦ pure (string standalone_unknow)
  | some cmd ↦
      answer_line h standalone_unknow (codes "error: tcos-last returned error") big_buffer cmd
]

unfoldable pub tcos_standalone : Host → Request → M Reply
unfolding answer_standalone
tcos_standalone h req = do
  (info, group) ← deref uninitialised req.two_sized
  answer_standalone h info group

abbrev pub dbus_error : Bytes
dbus_error = codes "error: dbus error"

unfoldable pub dbus_command : Host → Bytes → Bytes
unfolding snprintf
dbus_command h dbus = snprintf bsize (h.tcos_path ++ (codes "/tcos-dbus-helper " ++ dbus))

unfoldable pub tcos_dbus : Host → Request → M Reply
unfolding require_login answer_line dbus_command
tcos_dbus h req = do
  (dbus, user, pass) ← deref uninitialised req.three
  require_login h user pass (answer_line h dbus_error dbus_error big_buffer (dbus_command h dbus))

abbrev pub pci_all : Bytes
pci_all = codes "lspci | awk '{printf $1\" \"}'; echo"

abbrev pub pci_error : Bytes
pci_error = codes "error: pci command failure"

unfoldable pub pci_command : Bytes → Bytes
unfolding snprintf
pci_command pci =
    snprintf bsize
      (codes "lspci |grep \"" ++ (pci ++ (codes "\" | sed s/\"" ++ (pci ++ codes " \"//g"))))

-- The id is looked for in the list of ids before it is put into a command.
unfoldable pub describe_pci : Host → Bytes → M Reply
unfolding pci_command read_line fgets str_contains
describe_pci h pci = do
  fp ← run h pci_all
  out ← deref null_pointer fp
  allpci ← deref uninitialised (fgets bsize out)
  if str_contains allpci pci
      then (do line ← read_line h pci_error bsize (pci_command pci); pure (string line))
      else pure (string (codes "error: Unknow pci id"))

unfoldable pub answer_pci : Host → Bytes → M Reply
unfolding describe_pci answer_line
answer_pci h pci =
    if str_eq pci []
    then pure (string (codes "error: Need PCI id (example 00:10.1)"))
    else if str_eq pci (codes "pci_all")
    then answer_line h (codes "error: Error opening pointer") pci_error bsize pci_all
    else describe_pci h pci

unfoldable pub tcos_pci : Host → Request → M Reply
unfolding answer_pci
tcos_pci h req = do pci ← deref uninitialised req.one_sized; answer_pci h pci
