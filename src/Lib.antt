-- ===== src/Lib.antt =====
-- The native port of yaca, the C code under native/, as functions, with what they are to keep.
--
-- The port is one Lua module. Its userdata own what Lua cannot: hash contexts, child processes,
-- files, terminals. A Lua function checks its arguments and the handle, does its work and returns a
-- value, a typed failure or an error that it raises. Each part below is a record for the
-- userdata's C structure and one function for each Lua function, from the state and the answers of
-- the system to the new state and the reply. Loops are functions of their own.
--
--   Base        Boolean tests, lists and bit operations over the native numbers.
--   Text        native/yaca_text.h: `text_valid_utf8`; native/yaca_native.c:
--               `encode_utf8_codepoint`.
--   Hash        native/yaca_native.c: `yaca_sha256`. `Hash/Compress` is `sha256_transform`,
--               `Hash/Context` is `sha256_initialize`, `sha256_append` and `sha256_finalize`,
--               `Hash/Owner` is the Lua functions `l_sha256_*` over them.
--   Windows     native/yaca_native.c: `append_quoted_windows_argument`,
--               `quoted_windows_argument_length` and the two loops of `build_wide_arguments`.
--   Paths       native/yaca_native.c: `posix_join_path`, `posix_parent_and_name`,
--               `relative_join` and `append_path`.
--   Metadata    native/yaca_native.c: `posix_behavior_digest`, `append_digest_field`, `digest_hex`,
--               `xattr_sets_equal` and `posix_metadata_states_equal`. `Metadata/Xattrs` is
--               `load_descriptor_xattrs`, `Metadata/Xattrs/Merge` is
--               `synchronize_descriptor_xattrs`: the loop as the list of its calls, and their
--               run up to the first failure.
--   Supervisor  native/yaca_supervisor.h: the loop of `yaca_supervisor_run`, the record that it
--               sends (`yaca_supervisor_result`) and `yaca_supervisor_kill_children`.
--   Process     native/yaca_native.c: `yaca_process` on POSIX systems. `Process/State` has the
--               structure and the closing of its descriptors, `Process/Refresh` is
--               `refresh_posix_process`, `Process/Poll` is `l_process_poll` with
--               `read_posix_process_stream`, `Process/Calls` has cancel, join, close, the
--               finalizer and sequences of calls; `Process/Request` is what `l_process_start`
--               builds of its request: `request_*`, `build_posix_arguments` and
--               `build_posix_environment`; `Process/Start` is `l_process_start` itself: in
--               `Admit` the capture and the tests of the request, in `Pipes`
--               `set_descriptor_flags` and `supervised_pipe`, in `Launch` the way to the child's
--               report, each step with the local variables and a trace of what was done.
--   Direct      native/yaca_native.c: the operations on files that verify identities, on POSIX
--               systems. `Direct/Facts` has what `fstat` tells, `yaca_identity` and the
--               comparisons; `Direct/System` the system's calls as an interface with any world
--               behind it, and actions over them; `Direct/Rename` and `Direct/Delete` are
--               `l_fs_rename_no_replace_verified` and `l_fs_delete_direct_verified`;
--               `Direct/Capture` is `capture_posix_metadata`, `Direct/Replace` is
--               `l_fs_replace_verified`; `Direct/Rules` has one rule for each way to build an
--               action. Beside its trace of changes an action keeps a log of all that it asked
--               of the system with the answers; `Direct/Evidence` and the `Evidence` of each
--               operation are about what this log shows of a success. `Direct/Directories` replays the changes of a trace on directories as a
--               function from a directory and a name to an object, where `Direct/Effects` and
--               `Direct/Operations` say what the operations come to.
--   Files       native/yaca_native.c: `yaca_file` on POSIX systems. `Files.antt` has the functions
--               on an open file (`l_fs_read`, `l_fs_seek`, `l_fs_write`, `l_fs_flush_file`,
--               `l_fs_stat_identity` with a handle, `l_fs_close`, `l_file_gc`), `Files/Opening`
--               the four that open one: `l_fs_open_read`, `l_fs_create_new` and their variants
--               that verify an identity. `Files/Life` is about sequences of calls.
--
-- A process is run by its supervisor, which reaps the command and all its descendants and then
-- sends one record through a pipe; the parent's refresh reads that record when `waitpid` reports
-- the supervisor's end. `Supervisor/Message` is the layout that both sides share.
--
-- Numbers are natural numbers. 32-bit arithmetic in the hash is written with its wrap-around; a
-- size is compared with SIZE_MAX where the source does so, 2 ^ 64 - 1 in the process port and a
-- parameter in the quoting. The words of the record are read in the byte order of x86. Fuel: the
-- validator, the hash's append and the quoting take the length of their input, each round of which
-- uses at least one element, so does a write; the merge of attributes takes the number of items of
-- both sets, the digits of n take n + 1, and their theorems are stated for whole inputs; the finalizer's 100 rounds are
-- the source's own; the supervisor's loop has one round for each round of answers.
--
-- What the system answers (`read`, `write`, `waitpid`, `kill`, the clock, memory) is an argument
-- of the functions, so that the theorems hold for all answers. A call that the source repeats after
-- an interruption by a signal stands for its last answer. `close` is taken to release its
-- descriptor.
--
-- Not modelled: text conversion by iconv, the walk over directories, the operations by path that
-- are not named above, the terminal, the guards of native memory, the Win32 side but for the
-- quoting, clocks and random bytes, and the Lua code under src/. Lua errors for arguments of the
-- wrong type, which are raised before anything is touched, are left out, as are those for lack of
-- memory but in `l_sha256_finish` and the builders of a request.
pub mod Base
pub mod Text
pub mod Hash
pub mod Windows
pub mod Paths
pub mod Metadata
pub mod Supervisor
pub mod Process
pub mod Direct
pub mod Files
