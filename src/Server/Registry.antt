-- ===== src/Server/Registry.antt =====
-- The methods that `main` of xmlrpc/tcosxmlrpc.c registers, and a call of one by its name. The
-- library behind it decodes the request and answers with its own fault for an unknown name.
pub mod Documented
pub mod Start
use tcos.Base.{Option, none, some, List, Bytes, codes, [], ◌∷◌, str_eq, if◌then◌else◌}
use tcos.Host.{Host, M, Outcome, done, undefined, Request, Reply}
use tcos.Auth.{tcos_login, tcos_logout}
use tcos.Server.Xauth.{tcos_xauth}
use tcos.Server.Methods.Simple.{tcos_version, tcos_echo, tcos_status}
use tcos.Server.Methods.Jobs.{
  tcos_exe, tcos_kill, tcos_lockscreen, tcos_unlockscreen, tcos_lockcontroller,
  tcos_unlockcontroller, tcos_reboot_poweroff,
}
use tcos.Server.Methods.Media.{tcos_vnc, tcos_rtp, tcos_vlc, tcos_tnc, tcos_dpms}
use tcos.Server.Methods.Settings.{tcos_sound, tcos_config, tcos_devices, tcos_xorg}
use tcos.Server.Methods.Queries.{tcos_info, tcos_standalone, tcos_dbus, tcos_pci}
use tcos.Server.Methods.Pads.{tcos_get_screenshot, tcos_pam_usb}

abbrev pub Handler : Type 0
Handler = Host → Request → M Reply

unfoldable pub methods : List (Bytes × Handler)
methods =
    (codes "tcos.version", tcos_version)
    ∷ (codes "tcos.echo", tcos_echo)
    ∷ (codes "tcos.status", tcos_status)
    ∷ (codes "tcos.login", tcos_login)
    ∷ (codes "tcos.logout", tcos_logout)
    ∷ (codes "tcos.xauth", tcos_xauth)
    ∷ (codes "tcos.standalone", tcos_standalone)
    ∷ (codes "tcos.dbus", tcos_dbus)
    ∷ (codes "tcos.pci", tcos_pci)
    ∷ (codes "tcos.exe", tcos_exe)
    ∷ (codes "tcos.kill", tcos_kill)
    ∷ (codes "tcos.xorg", tcos_xorg)
    ∷ (codes "tcos.sound", tcos_sound)
    ∷ (codes "tcos.devices", tcos_devices)
    ∷ (codes "tcos.lockscreen", tcos_lockscreen)
    ∷ (codes "tcos.unlockscreen", tcos_unlockscreen)
    ∷ (codes "tcos.lockcontroller", tcos_lockcontroller)
    ∷ (codes "tcos.unlockcontroller", tcos_unlockcontroller)
    ∷ (codes "tcos.info", tcos_info)
    ∷ (codes "tcos.vnc", tcos_vnc)
    ∷ (codes "tcos.getscreenshot", tcos_get_screenshot)
    ∷ (codes "tcos.vlc", tcos_vlc)
    ∷ (codes "tcos.rtp", tcos_rtp)
    ∷ (codes "tcos.tnc", tcos_tnc)
    ∷ (codes "tcos.rebootpoweroff", tcos_reboot_poweroff)
    ∷ (codes "tcos.dpms", tcos_dpms)
    ∷ (codes "tcos.pamusb", tcos_pam_usb)
    ∷ (codes "tcos.config", tcos_config)
    ∷ []

unfoldable pub find_method : List (Bytes × Handler) → Bytes → Option Handler
find_method [] name = none
find_method ((n, m) ∷ rest) name = if str_eq n name then some m else find_method rest name

abbrev pub answered : Outcome Reply → Outcome (Option Reply)
answered (done r u) = done (some r) u
answered (undefined c u) = undefined c u

-- What the server runs for a request: nothing for a name that is not registered.
unfoldable pub call : Host → Bytes → Request → M (Option Reply)
unfolding find_method methods str_eq
call h name req t = elim (find_method methods name) [
  | none ↦ done none t
  | some m ↦ answered (m h req t)
]
