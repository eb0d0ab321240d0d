-- ===== src/Server/Registry/Documented.antt =====
-- The table that `main` of xmlrpc/tcosxmlrpc.c registers with the older interface of the library:
-- the methods with their signatures and what they are documented to do.
use tcos.Base.{List, Bytes, codes, [], ◌∷◌, ◌≡◌, refl}
use tcos.Auth.{tcos_login, tcos_logout}
use tcos.Server.Xauth.{tcos_xauth}
use tcos.Server.Methods.Simple.{tcos_version, tcos_echo, tcos_status}
use tcos.Server.Methods.Jobs.{
  tcos_exe, tcos_kill, tcos_lockscreen, tcos_unlockscreen, tcos_lockcontroller,
  tcos_unlockcontroller, tcos_reboot_poweroff,
}
use tcos.Server.Methods.Media.{tcos_vnc, tcos_rtp, tcos_vlc, tcos_tnc, tcos_dpms}
use tcos.Server.Methods.Settings.{tcos_sound, tcos_config, tcos_devices, tcos_xorg}
use tcos.Server.Methods.Queries.{tcos_info, tcos_standalone, tcos_dbus, tcos_pci}
use tcos.Server.Methods.Pads.{tcos_get_screenshot, tcos_pam_usb}
use tcos.Server.Registry.{Handler, methods}

-- The arguments of xmlrpc_server_abyss_add_method_w_doc.
pub record Documented : Type 0 where
  pub name : Bytes
  pub method : Handler
  pub signature : Bytes
  pub doc : Bytes

abbrev documented : Bytes → Handler → Bytes → Bytes → Documented
documented n m s d = record { name = n; method = m; signature = s; doc = d }

unfoldable pub documented_methods : List Documented
documented_methods =
    documented (codes "tcos.version") tcos_version (codes ":s")
      (codes "Tcos, Returns tcosxmlrpc version. (no auth needed)")
    ∷ documented (codes "tcos.echo") tcos_echo (codes "s:s")
        (codes "Tcos, debug class, returns string passed. (no auth needed)")
    ∷ documented (codes "tcos.status") tcos_status (codes "s:s")
        (codes "Tcos, returns 1 if app running 0 if not or error string. (no auth needed)")
    ∷ documented (codes "tcos.login") tcos_login (codes "ss:s") (codes "Tcos, Basic auth system.")
    ∷ documented (codes "tcos.logout") tcos_logout (codes ":s") (codes "Tcos, Basic auth system.")
    ∷ documented (codes "tcos.xauth") tcos_xauth (codes "ss:s")
        (codes "Tcos, authenticate with X cookies.")
    ∷ documented (codes "tcos.standalone") tcos_standalone (codes "ss:s")
        (codes "Tcos, Standalone. Return standalone values (no auth needed)")
    ∷ documented (codes "tcos.dbus") tcos_dbus (codes "s:s")
        (codes "Tcos, DBus. Exe with a wrapper some dbus events (auth needed)")
    ∷ documented (codes "tcos.pci") tcos_pci (codes "s:s")
        (codes "Tcos, PCI data stuff. Send pci_all to get pci bus ids. (no auth needed)")
    ∷ documented (codes "tcos.exe") tcos_exe (codes "sss:s")
        (codes "Tcos, Exec a command passed as string. (need login first)")
    ∷ documented (codes "tcos.kill") tcos_kill (codes "sss:s")
        (codes "Tcos, killall command passed as string. (need login first)")
    ∷ documented (codes "tcos.xorg") tcos_xorg (codes "ssss:s")
        (codes "Tcos, configure, change or get xorg.conf settings. (need login first)")
    ∷ documented (codes "tcos.sound") tcos_sound (codes "ssss:s")
        (codes "Tcos, configure, change or get sound settings.")
    ∷ documented (codes "tcos.devices") tcos_devices (codes "ssss:s")
        (codes "Tcos, configure, change or get devices settings.")
    ∷ documented (codes "tcos.lockscreen") tcos_lockscreen (codes "ss:s")
        (codes "Tcos, exec lockscreen to block thin client.")
    ∷ documented (codes "tcos.unlockscreen") tcos_unlockscreen (codes "ss:s")
        (codes "Tcos, kill lockscreen to unblock thin client.")
    ∷ documented (codes "tcos.lockcontroller") tcos_lockcontroller (codes "sss:s")
        (codes "Tcos, exec lockvnc or lockvlc to block thin client.")
    ∷ documented (codes "tcos.unlockcontroller") tcos_unlockcontroller (codes "sss:s")
        (codes "Tcos, kill lockvlc or lockvnc to unblock thin client.")
    ∷ documented (codes "tcos.info") tcos_info (codes "s:s") (
        codes
          "Tcos, return passed info string. (no auth needed)\nInfo methods:\n* cpu_model\n* cpu_speed\n* cpu_vendor\n* ram_total\n* ram_active\n* ram_free\n* ram_used\n* swap_avalaible\n* swap_total\n* swap_used\n* swap_free\n* tcos_date\n* tcos_generation_date\n* tcos_version\n* network_hostname\n* network_ip\n* network_mak\n* network_mask\n* network_rx\n* network_tx\n* modules_loaded")
    ∷ documented (codes "tcos.vnc") tcos_vnc (codes "ssss:s")
        (codes "Tcos, manage vnc server and client.")
    ∷ documented (codes "tcos.getscreenshot") tcos_get_screenshot (codes "ssss:ss")
        (codes "Tcos, make screenshot and return in base64.")
    ∷ documented (codes "tcos.vlc") tcos_vlc (codes "ssss:s") (codes "Tcos, manage vlc params.")
    ∷ documented (codes "tcos.rtp") tcos_rtp (codes "ssss:s") (codes "Tcos, manage rtp params.")
    ∷ documented (codes "tcos.tnc") tcos_tnc (codes "ssssss:s")
        (codes "Tcos, net controller params.")
    ∷ documented (codes "tcos.rebootpoweroff") tcos_reboot_poweroff (codes "ssss:s")
        (codes "Tcos, Reboot or Poweroff using Xorg cookie.")
    ∷ documented (codes "tcos.dpms") tcos_dpms (codes "sss:s")
        (codes "Tcos, manage DPMS Monitor options.")
    ∷ documented (codes "tcos.pamusb") tcos_pam_usb (codes "ssss:s")
        (codes "Tcos, manage pam-usb auth.")
    ∷ documented (codes "tcos.config") tcos_config (codes "ssss:s")
        (codes "Tcos, get TCOS config vars.")
    ∷ []

-- What the library keeps of an entry to answer calls.
abbrev entries : List Documented → List (Bytes × Handler)
entries [] = []
entries (m ∷ rest) = (m.name, m.method) ∷ entries rest

-- Both interfaces register the same methods under the same names, in the same order.
pub entries-documented_methods : entries documented_methods ≡ methods
unfolding documented_methods methods
entries-documented_methods = refl
