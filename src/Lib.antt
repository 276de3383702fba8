-- ===== src/Lib.antt =====
-- multivpn tunnels the Ethernet frames of a TAP interface through another protocol. The main thread
-- (main.c) reads the command line and the configuration file (parser.c) into the structure global_v
-- (globals.h, globals.c), has a plugin chosen, built and started (plugin.c), and then carries bytes
-- between the interface (tuntap.c) and two pipes. The plugin's thread carries them between the pipes
-- and the network: tcp_plugin.c over one TCP connection, sip_plugin.c in the header Multivpn of SIP
-- OPTIONS requests, in base64 (base64.c). generictunel.c keeps a table of connections for the plugins.
--
-- Files and what they model:
--   Prelude: names of the library that all modules share; Prelude/Tests and Prelude/Lists are Boolean
--     tests and lists over the native numbers, Prelude/Int the C integers, Prelude/Faults the results
--     of code that may do what C leaves undefined: a fault is an outcome of its own.
--   CString: the string functions of the C library that the program calls (strncpy, strncmp, strtok,
--     atoi, fgets and the search for a newline), by their documentation; their laws in CString/Laws,
--     and what atoi makes of a written number in CString/Decimal.
--   Base64: base64_encode, base64_decode, build_decoding_table and base64_cleanup of base64.c, with
--     the static table as unset, built or freed. Base64/Lookup is about the decoding table,
--     Base64/Encode states RFC 4648 and is about the encoder, Base64/Decode about the decoder, and
--     Base64/Errors about what it refuses, Base64/Total about every text; Base64/Alphabet states the
--     alphabet of the RFC.
--   Globals: t_global_v with all its fields, and Globals_Init.
--   Parser: ParseConfigFile and ParseOption of parser.c. Parser/Invariant is about the text buffers,
--     Parser/Settings and Parser/Numbers about one line, Parser/File about every file, and
--     Parser/RoundTrip about a file written setting by setting.
--   Os: the calls that the program makes of Unix, of the resolver and of PJSIP, as data, with what a
--     reply can leave behind. Machine: global_v, the static variables of every file, and the calls
--     made so far, the latest first; and the monad of the program's functions over them.
--   GenericTunnel: generictunel.c with its table plugindata; GenericTunnel/Slots is about the slots,
--     GenericTunnel/Ledger is an abstract view of the table, as a list that only grows, with
--     GenericTunnel/Agreement on one operation and GenericTunnel/Refinement on a sequence of them.
--   TunTap: tuntap.c; TunTap/Descriptors is about the descriptors it opens and closes,
--     TunTap/Returns about names that fit.
--   TcpPlugin: tcp_plugin.c but its checks, which TcpConfig models with TcpConfig/Verdict.
--     TcpPlugin/Nfds is about the first argument of
--     select, TcpPlugin/Relay about one round of its loops, TcpPlugin/Streams about any number, and
--     TcpPlugin/Draining about what select leaves of a set.
--   Threads: the loop of main.c and those of tcp_plugin.c once more, call by call, as a program
--     counter with the local variables; Threads/Rounds compares them with the rounds of Program and
--     of TcpPlugin. Host: the two threads of a TCP host as a step relation, in which either thread
--     makes its next call; Host/Main and Host/Tcp are about each thread's bytes, Host/Order about
--     what a host, and two of them over a connection, have carried, Host/Rounds about many steps, and
--     Host/Settling about what can still leave it, Host/Turns about
--     threads that take turns in a given order, Host/MainTurn, Host/Effort, Host/Fairness and
--     Host/Delivery about the turns that are enough; Threads/Draining and Threads/Progress are about
--     one thread's pipe, and Threads/Starving about a pipe beside a descriptor that is always ready.
--   SipPlugin: sip_plugin.c. SipPlugin/Header is about the header's copy, SipPlugin/Tunnel about a
--     frame from one end to the other, SipPlugin/Frames about its loop, SipPlugin/Startup about
--     sip_start, SipPlugin/Refusals about what is not taken. SipEvents: the thread of the SIP events
--     with the callbacks that PJSIP makes in it; SipEvents/Delivery is about the requests,
--     SipEvents/Ending about the loop's end, SipEvents/Stream about the frames of one host at the
--     other.
--   SipThreads: the two threads of sip_plugin.c once more, step by step; SipThreads/Rounds compares
--     them with SipPlugin and SipEvents. SipHost: the three threads of a SIP host as a step relation
--     with PJSIP's callbacks; SipHost/Sending, SipHost/Progress, SipHost/Receiving and
--     SipHost/Callbacks are about each thread's frames, SipHost/Foreign about what a thread does not
--     touch, SipHost/Lossy about two hosts between which requests are
--     lost or repeated, SipHost/Bytes about what comes through the pipe, SipHost/Ledgers about all three, and
--     SipHost/Order about what a host, and two of them, have carried. SipHost/Turns is about its
--     threads taking turns in a given order, and SipHost/Effort, SipHost/Leaving, SipHost/Turning,
--     SipHost/Taking, SipHost/Fairness and SipHost/Delivery about the turns that are enough.
--   Plugin: plugin.c with its function pointers, NULL or owned by a plugin; Plugin/Choice is about
--     them. Program: main and MainLoop of main.c; Program/Startup is about their
--     beginning, Program/Keeps, Program/Building and Program/Phases about the thread that they
--     start, Program/Returns about their end, Program/Streams about the loop, Program/Whole about a
--     run from the command line on, Program/Silent and Program/Empty about what carries no byte
--     before the loop, and Program/Carries and Program/SipCarries about such a run
--     with the plugin's threads beside it.
--   Messages: debug.c and the texts of main.c.
--   Tests: runs of the definitions, and the theorems at concrete inputs.
--
-- Names are those of the source in snake_case: base64_encode, parse_option for ParseOption,
-- store_connection_information for StoreConnectionInformation, on_rx_request, tun_up for tun_UP.
--
-- What is assumed of code outside the repository: the operating system, PJSIP and the resolver are a
-- function from the calls made so far and a call to a reply, a parameter of every definition that
-- makes a call; malloc is a function from a size to a block with any contents, or NULL. Where a
-- theorem needs more it is a hypothesis: that malloc does not fail (Supplies) or gives blocks of the
-- size asked for (Sized), that PJSIP takes a request (Sends), that a read brings as many bytes as it
-- counts and no more than were asked for (IsPosix), that a pipe hands on what is written to it
-- (IsPipe), that the interface gives bytes (ReadsBytes), that select finds a pipe in which bytes wait
-- (IsIdle, IsFed) or a descriptor (IsBusy) where it is below select's first argument and in its set, that
-- an interface's name has fewer than 16 bytes (IsUnix). A char is signed and an int has 32 bits, as gcc has them on x86; size_t has 64 bits; atoi
-- clamps as that of glibc does. sip_envia_datos lets base64_encode store its size_t in an int: the four
-- bytes behind the int are overwritten too, and are taken to hold nothing that is read afterwards, since
-- the other local variables are assigned after the call. What arrives over SIP is a hypothesis of the
-- theorems on two hosts: each header that has arrived was sent (SipHost/Lossy), or, where a theorem says
-- so, the headers arrive in the order sent, which a transport without loss or reordering gives and UDP
-- does not promise.
--
-- Bounds and fuel: the reading of a configuration file has fuel for one line more than the file has
-- bytes, and each line takes at least one. The endless loops of the threads make a number of rounds
-- that is a parameter, so that what is shown holds after every number of them; the buffer and the
-- fd_set, which C does not initialise, are a parameter too. The lengths in the codec's theorems are
-- below 2 ^ 31, above which the index of its loop overflows.
--
-- The threads of a host are interleaved at each call, in any order; the replies may depend on all
-- calls made before. What a plugin does to set itself up is not interleaved: it comes before the first
-- call of either loop. What a thread does to the program's variables between two calls is one step,
-- which is faithful since the threads share only variables that no thread changes, but for the
-- decoding table and g_complete, which the thread of the SIP events alone uses. A write is taken
-- whole. The events that PJSIP handles are a parameter, a list for each round of the loop that polls
-- it. A failed PJ_ASSERT_RETURN returns, as it does where NDEBUG is defined; it would stop the program
-- otherwise. What getopt_long makes of the arguments is taken as a list of options.
--
-- Not modelled: the calls that write log lines (of debug.c, and PJSIP's own), since no other part
-- reads what they do, and a wait that never ends, since each call of the system has its reply.
pub mod Prelude
pub mod CString
pub mod Base64
pub mod Globals
pub mod Parser
pub mod Os
pub mod Machine
pub mod Messages
pub mod GenericTunnel
pub mod TunTap
pub mod TcpPlugin
pub mod TcpConfig
pub mod SipPlugin
pub mod SipEvents
pub mod SipThreads
pub mod Plugin
pub mod Program
pub mod Threads
pub mod Host
pub mod SipHost
mod Tests
