-- ===== src/Lib.antt =====
-- TCOS, a thin client operating system: its C programs, as definitions and theorems.
--
-- The parts.
--   * The XML-RPC server of a thin client or a standalone computer (xmlrpc/*.c) answers a
--     manager's calls. `main` of xmlrpc/tcosxmlrpc.c registers a table of methods. Most of them
--     check a login first (validate_login of xmlrpc/validate.c), some a cookie of the X server
--     (handle_xauth of xmlrpc/xauth.c), then they run a shell command and answer its first line.
--   * The mount listener (udev/mount_listener.c) compares /proc/mounts with a copy after each event
--     and starts a script for the devices that came or went.
--   * The net controller (tnc/tcos-net-controller.c), a program that runs as root, blocks and opens
--     a user's network with rules of iptables.
--   * The mixers (tmixer/tmixer-oss.c and tmixer/tmixer-alsa.c) show and set the sound levels of a
--     client, over OSS or ALSA; tmixer/tmixer.c finds out which of them serves.
--   * The lock programs (lockscreen/*.c) put a window over a display and grab its keyboard and
--     pointer.
--   * Small tools: tcospasswd codes a password for /etc/tcospasswd, waitforX waits for the X server,
--     hex2ascii prints bytes.
--   * The helpers of xmlrpc/common.c serve all of them: base64, splitting, addresses.
--
-- The files.
--   * Base, CText, CText/Decimal: lists, numbers, and the routines of the C library that the
--     programs use, on C strings without their NUL as lists of bytes. `fgets`, `snprintf`,
--     `strtok` and `%d` are written out with their bounds; `split` and `remove_line_break` are
--     those of xmlrpc/common.c.
--   * Base64: base64_encode and base64_decode of xmlrpc/common.c; Tool: its readfile, memset and
--     the main program for tests, which codes a file.
--   * Address: check_ip_address of xmlrpc/common.c.
--   * Host: what the programs meet outside their own code, as a record of functions: the output
--     of a command, the contents of a file, the X server, crypt, the account files. They depend
--     on the trace, the list of the events so far. An action returns a value and a longer trace,
--     or says that the C code has undefined behaviour there, and why: a null or unset pointer, a
--     buffer that is too small, an int that does not fit.
--   * Auth: validate.c, validate-tcos.c, validate-shadow.c, validate-passwd.c and login.c.
--   * Server: xauth.c (Xauth), exe.c and lockcontroller.c (Exec), the tests in front of a method
--     (Gates), the handlers under their C names (Methods/*), the table (Registry),
--     its older form with the documentation (Documented) and the main program (Start). Access,
--     Strangers with Probes and Refusals, Cookies, Commands and PadMoves hold the theorems on them.
--   * MountListener: udev/mount_listener.c, on the same host. A return of poll and a sleep are events
--     too, so that the table may be another one after them.
--   * NetController: the rules of iptables in tnc/tcos-net-controller.c, on the same host; Routes
--     and Main its routes and its command line. Ports, Chain, Flush, RouteFacts and Permission hold
--     the theorems.
--   * TmixerOss: tmixer/tmixer-oss.c, with its command line in Main. An action that may call exit
--     returns the exit code in place of a value.
--   * TmixerAlsa: tmixer/tmixer-alsa.c. Its readers: parse_simple_id in SimpleId, parse_control_id
--     in ControlId, split_line in ArgLines, get_integer in Integers. Its setters for simple
--     controls: set_volume_simple in Volumes, channels_mask and dir_mask in Masks, sset_channels in
--     Channels, sset_enum in Enums, sset in Sset; for raw controls: cset in Cset. Its listings:
--     decode_tlv in Tlv, show_control and controls in Elements, show_selem and selems in Simples,
--     events and sevents in Listening. Its options in CommandLine, and info, exec_stdin and main in
--     Main. Card holds what it finds behind ALSA's library: the controls with what they report and
--     accept, strtol and the conversions in floating point. Allowed, InRange and Safe hold the
--     theorems on what it may do, the children of Tlv, Cset and Main others. The loop of
--     parse_control_id has as many rounds as the text has bytes, and each takes a byte; so has the
--     loop of sset_enum, which takes the separators behind an item with it. decode_tlv and the loop
--     over a compound have one round more than there are words, and each starts at a later word.
--     The loops over events are followed over the waits that were made.
--   * Tmixer: tmixer/tmixer.c, which starts one of the two mixers.
--   * TcosPasswd: xmlrpc/tcospasswd.c; WaitForX: lockscreen/waitforX.c, which has its own bound of
--     25 tries.
--   * Lockscreen: the other programs of lockscreen (Programs), with the window that they open
--     (Window) and the loops that grab the keyboard and the pointer (Settled), whose bound is five
--     rounds each; XCalls: the calls of the X libraries that they make.
--   * Hex2Ascii: hex2ascii/hex2ascii.c, which prints the bytes that pairs of hexadecimal digits
--     stand for.
--   * Tests: the theorems at concrete inputs, and runs of the definitions.
--
-- Conventions. xmlrpc_parse_value and the X server are not part of this code: a Request holds
-- what the library decodes from the parameters under each format, and `none` where it reports a
-- fault. A trace lists the newest event first. Loops are recursions on the list that they walk;
-- the loop of `split` recurs on MAXTOKENS - 1 = 255 rounds, which is its own bound, and printing
-- an int has ten rounds, for at most ten digits. The loops of fgets in the listener have as many
-- rounds as the file has bytes, and each takes a byte at least; so has the loop of strtok in
-- hex2ascii. The settings of the two builds (TCOS_PATH, IS_STANDALONE, VERSION) are fields of the
-- host.
--
-- Not modelled: the messages of the debug log and of the mixers on stderr, memory exhaustion, the
-- shell scripts, the builds of the lock programs for debugging, and screenshot.c, which no build
-- compiles.
pub mod Base
pub mod Base64
pub mod CText
pub mod Host
pub mod Address
pub mod Auth
pub mod Server
pub mod MountListener
pub mod NetController
pub mod Hex2Ascii
pub mod TcosPasswd
pub mod WaitForX
pub mod XCalls
pub mod Lockscreen
pub mod TmixerOss
pub mod TmixerAlsa
pub mod Tmixer
pub mod Tests
