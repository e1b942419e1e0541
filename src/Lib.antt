-- ===== src/Lib.antt =====
-- MonitoringPlug: the library that its monitoring plugins and notifications share.
--
-- A plugin reads options (lib/mp_args.c, with the checks of lib/mp_check.c), measures something,
-- compares it with thresholds (lib/mp_args.c) and reports with the functions of lib/mp_common.c, which
-- keep a state and messages until `mp_exit` prints one line and exits with the status. A notification
-- fills a template (lib/mp_template.c). lib/dhcp_utils.c builds and reads the packets of check_dhcp.
--
-- The files:
--   * Base, with children: shared names, Boolean tests, lists and integers over the native numbers.
--   * Text: what the code uses of the C library's strings (`strsep`, `strspn`, `strtol`, `%ld`, the
--     character classes in the C locale). A string is the list of its bytes without the NUL; a `char*`
--     that may be null is an `Option`. Text/Laws and Text/Decimal hold the lemmas.
--   * Output: lib/mp_common.c. `Plugin` is the globals `mp_state`, `mp_out_*`, `mp_showperfdata` and
--     `mp_perfdata`; `set_ok`, `set_warning`, `set_critical`, `set_okonly`, `ok`, `warning`,
--     `critical`, `unknown`, `mp_exit` and `timeout_alarm_handler` have the source's names.
--     Output/Severity is about the status, Output/Collect about the line, Output/Memory about blocks.
--   * Range: the ranges of lib/mp_args.c. `double` with its operations, `strtod` and `%.3f` is a record
--     `Doubles` that all definitions take. `set_warning_range` is `mp_threshold_set_warning`, and with
--     `time` also `mp_threshold_set_warning_time`. Range/Check, Range/Parse and Range/Print.
--   * Check: lib/mp_check.c. `getaddrinfo` is a parameter. Check/Url has `is_url`, one function for
--     each part of its text, and Check/Url/Grammar the URLs that it accepts; Check/Url/Chars,
--     Check/Url/Parts, Check/Url/Host, Check/Url/Shape and Check/Url/Accepts hold the theorems on it,
--     Check/Integer, Check/Hostname and Check/Scheme the others.
--   * Template: lib/mp_template.c. `Template` is the globals, `Command` a call that an action of
--     lib/mp_template_yacc.y makes, `run` a sequence of them. Template/Tree has the trees that the
--     grammar reads, the calls made for them and the text they stand for; Template/Runs and
--     Template/Meaning relate the two; Template/Capacity is about the output block; Template/Urlencode
--     is `mp_template_urlencode`.
--   * Dhcp: lib/dhcp_utils.c. `pkt_opt` is `mp_dhcp_pkt_opt`, `pkt_getopt` is `mp_dhcp_pkt_getopt`, and
--     Dhcp/Receive has the tests of `mp_dhcp_recv`. Dhcp/Block, Dhcp/Options and Dhcp/Lookup.
--   * Utils: lib/mp_utils.c, with the `mp_` left out. Utils/Concat, Utils/Push and Utils/Match.
--   * Perfdata: lib/mp_perfdata.c, with the `mp_` left out. `write` is what the integer and the float
--     functions do alike; Perfdata/Line, Perfdata/Integer and Perfdata/Percent.
--   * Args: the `getopt_*` functions of lib/mp_args.c. A call of `usage`, which leaves the plugin, is the
--     result `refused`. Args/Options.
--   * Sms: the encoding of lib/sms_utils.c, with the `sms_` left out. `Packer` is the variables of the
--     loop of `sms_encode_text`. Sms/Number and Sms/Packing.
--   * Eopt: lib/mp_eopt.c. `fopen` is a parameter. Eopt/Lines and Eopt/Items.
--   * Net: `mp_ip_csum` and `mp_recv_line` of lib/mp_net.c; what `recv` returns, call by call, is a
--     parameter. Net/Checksum and Net/Receive.
--   * Getopt: lib/mp_getopt.c. What `getopt_long` returns is a list of events, and what `mp_eopt` makes of
--     those to come is a parameter. `process_options` is the loop that every check has around
--     `mp_getopt`, with the check's own options as a parameter. Getopt/Loop is about it.
--   * Checks: plugins that are modelled from their options or their measurement to the exit.
--     Checks/Bonding is base/check_bonding.c, Checks/File base/check_file.c, Checks/Sockets
--     base/check_sockets.c, Checks/Memcached base/check_memcached.c, Checks/Multipath
--     base/check_multipath.c, Checks/Nrped base/check_nrped.c, Checks/Dummy
--     dummy/check_dummy.c, and Checks/Clustat rhcs/check_clustat.c, on what Rhcs reads. They
--     report with Output, Range and Perfdata, and read their options with Getopt. Files,
--     directories, `lstat`, the databases of users and groups, the clock, other programs and the
--     connection are parameters.
--   * Rhcs: the handlers of lib/rhcs_utils.c, for `clustat -x`, and in Rhcs/Conf for cluster.conf. The
--     calls that Expat makes of them are events. Rhcs/Owner.
--   * Fcgi: the records of lib/fcgi_utils.c; what `OS_Read`, `OS_Write` and `FCGX_PutStr` do is a
--     parameter. Fcgi/Pairs and Fcgi/Records.
--   * The Tests child of each part: the tables of the unit tests, small runs, each theorem at an input.
--
-- Bounds and fuel. `hostname_loop` has one round for each byte and one more, as every round takes a
-- byte off; `grow` has as many rounds as bytes are needed, and each adds a block; the loops on DHCP
-- options have one round for each byte of the options and one more, as every round moves on; the
-- loops of `array_push` have one round for each byte and two more, `flush` has three, as at most 21
-- bits are there. `read_lines`, `parse_loop` of Bonding, `count_loop` of Sockets and `read_loop` of
-- Multipath have one round for each byte of the file and one more, as each line takes a byte off. The
-- fuel of `process_options` is its caller's, since `--eopt` can bring itself back without end: with one
-- round more than the options that come it ends. The fuel of `read_stats` is its caller's too, and more
-- than the number of lines is enough, as the theorem on its answer says. `decimal` writes at most 20
-- digits, enough for 64 bits. `int` and `long` are integers with the checks that the code makes written
-- out; lengths and positions are taken to fit their types. Memory is taken to be enough (`mp_malloc`
-- leaves the plugin otherwise); where a block's size matters, the size is a field.
--
-- Not modelled: input and output and what `-v` and `print_help_*` print; the client libraries and the
-- checks built on them (SNMP, IPMI, DNS, HTTP, TLS); the notifications; the other plugins of base; the
-- set up of connections; the flex lexer of the templates.
pub mod Base
pub mod Text
pub mod Output
pub mod Range
pub mod Check
pub mod Template
pub mod Dhcp
pub mod Args
pub mod Checks
pub mod Eopt
pub mod Fcgi
pub mod Getopt
pub mod Net
pub mod Perfdata
pub mod Rhcs
pub mod Sms
pub mod Utils
