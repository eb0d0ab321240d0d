-- ===== src/Host.antt =====
-- What the C programs meet outside their own code: the machine that they run on, as a parameter,
-- and actions over it. An action sees the events that went before it, newest first, and adds its
-- own. Where the C code has undefined behaviour, the outcome says so and names the cause.
pub mod Emits
use tcos.Base.{ℕ, ℤ, Bool, Bytes, Option, none, some, List, [], ◌∷◌, length, ltb, if◌then◌else◌}
use tcos.XCalls.{XCall}

-- `struct rtentry`, the addresses that the code sets.
pub record Route : Type 0 where
  pub rt_dst : ℕ
  pub rt_gateway : ℕ
  pub rt_genmask : ℕ
  -- rt_flags & RTF_GATEWAY
  pub is_gateway : Bool

-- The direction and the unit of the volumes of a mixer's control.
pub data ControlSide : Type 0 where
  playback capture : ControlSide

pub data VolType : Type 0 where
  vol_raw vol_decibel : VolType

-- The abstraction level of a mixer's simple controls.
pub data Abstraction : Type 0 where
  abstract_none abstract_basic : Abstraction

-- The calls that open, prepare and close ALSA's handles, with the device.
pub data AlsaCall : Type 0 where
  mixer_open : AlsaCall
  mixer_attach : Bytes → AlsaCall
  -- The options, if the call has any.
  mixer_register : Option (Abstraction × Bytes) → AlsaCall
  mixer_load : AlsaCall
  mixer_close : AlsaCall
  ctl_open : Bytes → AlsaCall
  ctl_close : AlsaCall
  hctl_open : Bytes → AlsaCall
  hctl_load : AlsaCall
  hctl_close : AlsaCall

-- A call that changes something outside the process, or its environment, or prints.
pub data Event : Type 0 where
  popen : Bytes → Event
  system : Bytes → Event
  write_file : Bytes → Bytes → Event
  make_temp : Bytes → Event
  unlink : Bytes → Event
  set_env : Bytes → Bytes → Event
  unset_env : Bytes → Event
  open_display : Bytes → Event
  usleep : ℕ → Event
  sleep : ℕ → Event
  -- poll returned, with its result.
  polled : ℤ → Event
  print : Bytes → Event
  delete_route : Route → Event
  new_route : Route → Event
  write_level : ℕ → ℤ → Event
  set_volume : ControlSide → VolType → ℕ → ℤ → Event
  set_switch : ControlSide → ℕ → Bool → Event
  set_enum_item : ℕ → ℕ → Event
  alsa : AlsaCall → Event
  -- The values of an element, by its number; those behind the listed ones are 0.
  write_element : ℕ → List ℤ → Event
  x_call : XCall → Event

abbrev pub Trace : Type 0
Trace = List Event

pub data Cause : Type 0 where
  null_pointer bad_pointer uninitialised buffer_overflow int_overflow : Cause

-- `struct spwd`, the fields that the code reads.
pub record Shadow : Type 0 where
  pub sp_pwdp : Bytes
  pub sp_lstchg : ℤ
  pub sp_max : ℤ
  pub sp_inact : ℤ
  pub sp_expire : ℤ

-- The C library, the shell, the X server, the account files and the build's settings.
pub record Host : Type 0 where
  -- popen(cmd, "r"): NULL, or a stream with all that the command prints.
  pub popen_output : Trace → Bytes → Option Bytes
  -- system(cmd) == 0
  pub system_ok : Trace → Bytes → Bool
  -- fopen(name, "r"): NULL, or a stream with the file's contents.
  pub read_file : Trace → Bytes → Option Bytes
  -- stat(name, …) == 0
  pub file_exists : Trace → Bytes → Bool
  -- fopen(name, "w") != NULL
  pub can_write : Trace → Bytes → Bool
  -- gethostname, up to the 499 bytes that fit.
  pub hostname : Bytes
  -- mkstemp: the file's name, or no file.
  pub temp_file : Trace → Option Bytes
  -- XOpenDisplay(name) != NULL
  pub display_opens : Trace → Bytes → Bool
  pub getspnam : Trace → Bytes → Option Shadow
  -- getpwnam(user)->pw_passwd
  pub getpwnam : Trace → Bytes → Option Bytes
  -- getpwnam(user)->pw_uid
  pub pw_uid : Trace → Bytes → Option ℕ
  pub crypt : Bytes → Bytes → Option Bytes
  pub time : Trace → ℕ
  -- What the memory of an uninitialised `int data[4]` holds, a word for each member.
  pub junk : ℕ → ℕ
  pub tcos_path : Bytes
  pub version : Bytes
  pub is_standalone : Bool

pub data Outcome (A : Type 0) : Type 0 where
  done : A → Trace → Outcome A
  undefined : Cause → Trace → Outcome A

abbrev pub trace_of : {A : Type 0} → Outcome A → Trace
trace_of (done a t) = t
trace_of (undefined c t) = t

abbrev pub M : Type 0 → Type 0
M A = Trace → Outcome A

abbrev pub continue : {A B : Type 0} → Outcome A → (A → M B) → Outcome B
continue (done a t) f = f a t
continue (undefined c t) f = undefined c t

infixl 5 ◌>>=◌ ◌>>◌
abbrev pub ◌>>=◌ : {A B : Type 0} → M A → (A → M B) → M B
◌>>=◌ m f t = continue (m t) f

abbrev pub ◌>>◌ : {A B : Type 0} → M A → M B → M B
m >> n = m >>= λ _. n

unfoldable pub pure : {A : Type 0} → A → M A
pure a t = done a t

unfoldable pub undef : {A : Type 0} → Cause → M A
undef c t = undefined c t

-- What can be read without changing anything.
unfoldable pub ask : {A : Type 0} → (Trace → A) → M A
ask f t = done (f t) t

unfoldable pub emit : Event → M (Unit {0})
emit e t = done tt (e ∷ t)

unfoldable pub run : (h : Host) → Bytes → M (Option Bytes)
run h cmd t = done (h.popen_output t cmd) (popen cmd ∷ t)

-- A pointer that the code uses without a test.
unfoldable pub deref : {A : Type 0} → Cause → Option A → M A
deref c none t = undefined c t
deref c (some a) t = done a t

-- sprintf(buf, …) into a buffer of `size` bytes.
unfoldable pub sprintf : ℕ → Bytes → M Bytes
sprintf size s t = if ltb (length s) size then done s t else undefined buffer_overflow t

-- What xmlrpc_parse_value decodes from a call's parameters under the formats of the handlers;
-- `none` is a parameter error, which sets env->fault_occurred and leaves the pointers unset.
pub record Request : Type 0 where
  -- "(s)", "(s#)", "(ss#)", "(ss)", "(sss)", "(ssss)" and "(ssssss)".
  pub one : Option Bytes
  pub one_sized : Option Bytes
  pub two_sized : Option (Bytes × Bytes)
  pub two : Option (Bytes × Bytes)
  pub three : Option (Bytes × Bytes × Bytes)
  pub four : Option (Bytes × Bytes × Bytes × Bytes)
  pub six : Option (Bytes × Bytes × Bytes × Bytes × Bytes × Bytes)

-- xmlrpc_build_value(env, "s", …) and (env, "(ss)", …).
pub data Reply : Type 0 where
  string : Bytes → Reply
  pair : Bytes → Bytes → Reply
