-- ===== src/Tests/Fixtures.antt =====
-- A machine with two accounts, and requests to its server.
use tcos.Base.{pos, true, false, Bytes, codes, Option, none, some, ◌∷◌, str_eq, if◌then◌else◌}
use tcos.Host.{Host, Shadow, Request}
use tcos.Auth.{shadow_file}

abbrev pub root_entry : Shadow
root_entry = record {
  sp_pwdp = codes "hash";
  sp_lstchg = pos 100;
  sp_max = pos 99999;
  sp_inact = pos 0;
  sp_expire = pos 0;
}

-- crypt of a password is "hash" for "secret" and the password behind a mark for any other.
abbrev pub machine_with : (Bytes → Option Bytes) → Host
machine_with files = record {
  popen_output = λ t cmd. some (codes "done\n");
  system_ok = λ t cmd. true;
  read_file = λ t name. files name;
  file_exists = λ t name. true;
  can_write = λ t name. true;
  hostname = codes "client";
  temp_file = λ t. some (codes "/tmp/.tmpxauth123456");
  display_opens = λ t name. true;
  getspnam = λ t user. if str_eq user (codes "root") then some root_entry else none;
  getpwnam = λ t user. none;
  pw_uid = λ t user. none;
  crypt =
      λ key salt. if str_eq key (codes "secret") then some (codes "hash") else some (b'*' ∷ key);
  time = λ t. 86400000;
  junk = λ i. 0;
  tcos_path = codes "/sbin";
  version = codes "0.89";
  is_standalone = false;
}

abbrev pub machine : Host
machine = machine_with (λ name. if str_eq name shadow_file then some (codes "root:hash") else none)

-- A machine whose accounts are in a file of its own.
abbrev pub kiosk : Host
kiosk = machine_with (λ name. some (codes "guest:hash\nroot:other\n"))

abbrev pub request : Bytes → Bytes → Bytes → Request
request s user pass = record {
  one = some s;
  one_sized = some s;
  two_sized = some (s, user);
  two = some (user, pass);
  three = some (s, user, pass);
  four = some (s, s, user, pass);
  six = some (s, s, s, s, user, pass);
}

-- A request with four parameters and no other reading.
abbrev pub request_four : Bytes → Bytes → Bytes → Bytes → Request
request_four option cmdline cookie host = record {
  one = none;
  one_sized = none;
  two_sized = none;
  two = none;
  three = none;
  four = some (option, cmdline, cookie, host);
  six = none;
}
