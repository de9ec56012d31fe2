-- ===== src/Lib.antt =====
-- A verification library for valiant, a policy daemon for mail servers. A request comes in over a
-- socket and is parsed; dictionaries are checked over its members, in stages; the points that they
-- report add up to a score, and the score decides on the response.
--
-- The parts, their files, and the code that they stand for (paths from the root of the repository):
--   Prelude      tests on numbers, arrays as lists, C strings as the bytes before their terminator,
--                the type int, and floating-point numbers as a parameter with laws
--   Request      src/req.c: `vt_request_parse_line`, `vt_request_parse` with its buffer (Request.Read),
--                the look-ups `vt_request_mbrbyid`, `..._mbrbyname`, `..._mbrbynamen`, `..._mbrtoid`
--   Results      src/result.c: the entries of a request's dictionaries and the count of writers
--   Async        src/dict.c: `vt_async_dict_check` and `vt_async_dict_worker`; Async.System has every
--                order of their calls as a relation
--   ThreadPool   src/thread_pool.c: the counters and the linked queue in a store of cells (src/slist.c)
--   Dict         src/dict.c: `vt_dict_dynamic_pattern`, `vt_dict_unescape_pattern`
--   StrDict      src/dict_str.c: `vt_dict_str_create` and its two checks
--   Worker       src/worker.c: the loop over the stages in `vt_worker`, the score, the response
--   Context      src/context.c: `vt_context_get_dict_pos`, `vt_check_create`, `vt_stage_create`
--   BackOff      src/state.c: `vt_state_init` to `vt_state_error`
--   Rbl          src/rbl.c: `vt_rbl_check`, netmasks, the order and the extremes of weights
--   Spf          src/dict_spf.c: the weights, `vt_dict_spf_check`, the bounds
--   HashDict     src/dict_hash.c: `vt_dict_hash_open`, `vt_dict_hash_check`
--   Dnsbl        src/dict_dnsbl.c, src/dict_rhsbl.c: the checks, `reverse_inet_addr` of src/utils.c
--   PidFile      src/utils.c: `pid_file_read`, and what `pid_file_write` writes
--   Stats        src/stats.c: the counters, and every order of the calls of its threads
--   Slist        src/slist.c: insertion, length, sort and release
--   Strings      src/string.c: comparison, digits, the growing string
--   Values       src/value.c: tagged values
--   Lexer        src/lexer.c: `lexer_unesc_str_dquot`, `lexer_unesc_str_squot`
--   Config       src/config.c: the arrays of values of an option (Config.Options, Config.Access) and of
--                options of a section (Config.Sections, Config.Lookup, Config.ByName), the tree and its
--                release (Config.Tree), `vt_config_parse` (Config.Scanner, Config.Items, Config.Parse),
--                `vt_config_defaults` (Config.Defaults), `vt_config_validate` (Config.Validate)
--
-- How they interact: Context makes the stages that Worker runs; Worker evaluates dictionaries, which
-- are a parameter there (what a check has made of the Results when `vt_result_wait` returns); StrDict,
-- Dnsbl over Rbl, Spf and HashDict are some of them, over the members of a Request; Async stands
-- between Worker and a slow dictionary, counting writers in Results and handing tasks to ThreadPool;
-- Rbl and HashDict keep a BackOff state, and Rbl sorts its weights by Slist; Stats counts what the
-- Results of a request hold. Config is the parser that is to take the place of libconfuse, from whose
-- sections the dictionaries and the Context are still created; their settings are arguments.
--
-- Conventions. State is passed explicitly. What a mutex protects is one step. A failure is `none`,
-- or a component of the result; a call of `vt_panic` and a division by 0 are `none` too. Memory
-- that may run out is a Boolean argument where the code goes on differently. Messages of the log
-- are left out. A size_t is a natural number with the code's own guards; the count of writers wraps
-- at 2^32; an int that is counted down without a guard is an integer. An assertion that fails is a
-- result of its own in Strings and Lexer, and the steps of Async.System end in a mark where memory
-- is used that was freed. In Config a call is `ok`, `err` (an error that it reports), `fault`
-- (undefined behaviour, or an assertion that fails) or `out_of_fuel`; an entry of an array is a
-- value, or a hole that is null, not initialised or released; a pointer has 8 bytes. HashDict tells
-- undefined behaviour from the end of the program by results of its own.
--
-- Fuel. `vt_request_parse` takes as much for the lines in its buffer as the buffer has bytes, and
-- every line takes one at least. The loop over a dynamic pattern takes the length of the pattern. The
-- loop that doubles a power takes the number that it goes up to, the one that raises the power of the
-- back-off the number that it takes powers from, and the sort the length of the list, of which every
-- turn settles one. The parser of the configuration takes more than the lexical analyzer has left,
-- which `remaining` bounds. The text of a number takes one more than the number.
--
-- Parameters. The growing buffers of the requests (buf.h, which is not in the repository) are a
-- record of operations with the law that a copy is stored. Of libunistring, `u8_mbtouc` is what a
-- string reads as, `u8_uctomb` a function with the law that ASCII takes one byte, and `u8_check` a
-- function with the law that two well encoded strings make one. Floating-point numbers are a record
-- with the laws of an order where a result needs them. The lexical analyzer of the configuration
-- (vt_lexer.h, which is not in the repository) is a record of operations with the laws that a token
-- other than the last takes something from what remains, and `vt_value_cmp` is a function. What the
-- calls of libspf2, Berkeley DB and `stat` return is a record, and so are `inet_pton`, `inet_ntop`
-- and the name server. `read`, `realloc`, `pthread_create`, `time` and the answers of Rbl are
-- arguments.
--
-- Not modelled: the tokens of the lexer (the rest of src/lexer.c), the reading of a configuration file
-- (`vt_config_parse_file`), memory that runs out in the parser and the defaults, the dictionary over
-- PCRE, the creation of dictionaries other than that of StrDict and of the weights of Spf, and what
-- only calls the operating system: `daemonize`, src/main.c, src/signal.c, src/syslog.c, src/error.c,
-- and the writing of a response.
pub mod Prelude
pub mod Request
pub mod Results
pub mod Async
pub mod ThreadPool
pub mod Dict
pub mod StrDict
pub mod Spf
pub mod HashDict
pub mod Dnsbl
pub mod Worker
pub mod BackOff
pub mod Slist
pub mod Strings
pub mod Values
pub mod Rbl
pub mod Stats
pub mod PidFile
pub mod Context
pub mod Lexer
pub mod Config
