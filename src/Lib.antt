-- ===== src/Lib.antt =====
-- A node of the Lightning network with YUV payments (akitamiabtc/yuv-lightning-ldk-sample), the
-- program around the crates of rust-lightning: a command line, the handler of the node's events, the
-- files in its data directory, and the tasks that run beside them.
--
-- Parts, and the source that each file is about:
-- - Prelude: tests on numbers and lists, byte strings as text (Prelude/Text), the parsing of
--   unsigned numbers (Prelude/Numbers) and their printing (Prelude/Decimal), parts and lines of texts
--   (Prelude/Splitting, Prelude/Lines, Prelude/Spaces, Prelude/Trimming), and maps and
--   directories as association lists (Prelude/Assoc).
-- - Args: src/args.rs. Args/Credentials is about the sources of user name and password.
-- - HexUtils: src/hex_utils.rs.
-- - Node: the payment records of src/main.rs, the names of the files, and the state that commands
--   and events share: `World` holds the two payment storages (each behind a mutex in the program),
--   the files, the default configuration, and the calls that were made of the libraries. `Ldk` is
--   the record of the libraries' types, a parameter throughout.
-- - Payments: `send_payment`, `keysend` and `get_invoice` of src/cli.rs and `read_payment_info` of
--   src/disk.rs. Payments/Sending and Payments/Keysending are about one payment,
--   Payments/Disk about one whose writes may fail,
--   Payments/Ops, Payments/Durable and Payments/Kept about sequences of commands and events, for
--   which Payments/Ledger is an abstract view of the outgoing payments.
-- - Event, Events: `handle_ldk_events` of src/main.rs, an event as a constructor with the fields that
--   its arm reads, and what the libraries answer as a record.
-- - Startup: the part of `start_ldk` (src/main.rs) that reads, settles and writes the payment records.
--   Startup/Recovery and Startup/Lifecycle are about a restart.
-- - Fees: the fee rates of src/bitcoind_client.rs. The polling task is a step relation, so that a
--   read may fall between any two of its stores.
-- - Convert, Rpc: src/convert.rs and the calls of src/bitcoind_client.rs. What bitcoind answers to a
--   method with parameters is a parameter; JSON values and `f64` are the record `JsonApi`. Rpc/Rounds and
--   Rpc/Rates are about a round of the polling task and the rates that it leads to.
-- - Wiring: `start_ldk` (src/main.rs). Wiring/Seed is the check of the network and the seed file,
--   Wiring/Tasks the configuration, the channels of a start and the tick of the announcing task,
--   Wiring/Start the whole start with its early returns and panics, Wiring/Shutdown the end, and
--   Wiring/Network the tasks that share the flag `stop_listen_connect`, as a step relation.
--   Wiring/Started and Wiring/Restart are about what a start leaves and a second one.
-- - Wallet, YuvClient, Files: src/wallet.rs, src/yuv_client.rs (with the confirming task of
--   src/main.rs), and the log and the readers of src/disk.rs.
-- - Peers: `parse_peer_info`, `list_peers`, `connect_peer_if_necessary`, `do_connect_peer` and
--   `do_disconnect_peer` of src/cli.rs, the peer file of src/disk.rs, and the task of src/main.rs that
--   reconnects.
-- - Cli: src/cli.rs. Cli/LineEditor is `read_input`, Cli/Words the readers of words, Cli/Commands and
--   Cli/ChannelCommands the commands that act, Cli/Listing the commands that print with their text,
--   Cli/Loop the loop of `poll_for_user_input`; Cli/Loop/Inputs has lines and events in any order, and
--   Cli/Loop/Surviving what every line keeps. Cli/Language has the acting commands as values, with
--   their text and what they are meant to do, and Cli/Language/Opening is about two of them in a row.
-- - Sweep: a round of `periodic_sweep` in src/sweep.rs, with `emulate_yuv_transaction` of
--   src/yuv_client.rs. Sweep/Handover lists the pending directory from the store of the events;
--   Sweep/Steps has the first half of a round as single calls to the file system, and
--   Sweep/Kept, Sweep/Sound, Sweep/Crashes and Sweep/Restarts are about a program that ends between
--   two of them.
-- - Tests: runs at concrete inputs.
--
-- How they interact: the line editor gives lines to the loop, which runs a command; commands and
-- events change one `World` and write the payment files; a start reads them again; the event handler
-- stores spendable outputs as files, which the sweep gathers and claims.
--
-- A panic is a value (`Outcome`, `Next`, `Progress`, `Parsed`, `SeedEnd`), and the state that it
-- leaves stays visible; a sequence of commands and events ends with it, since a panic aborts the program
-- (`panic = "abort"` in Cargo.toml). The answers of the libraries (channel manager, wallet, entropy source) are arguments. A
-- call that the program makes is noted in `World.calls`; what the library does for it is not modelled.
-- Text is a list of bytes; the line editor works on ASCII, as the program does, which ignores other
-- characters.
--
-- Bounds: u8, u32, u64 and u128 arguments are parsed with their bounds, fee rates are kept below
-- 2 ^ 32 with the subtraction written modulo 2 ^ 32, a doubled delay is taken modulo 2 ^ 64.
-- Fuel: the reader of a descriptor file runs on fuel of one more than the length of the file, since a
-- descriptor takes at least one byte; the printing of a number runs on one more than the number. All
-- other loops are over lists. The waiting loop of
-- `do_connect_peer` is over the wakeups so far and says when they decide nothing.
--
-- Not modelled: what commands and events print, but for the listings; the block source and the UTXO
-- lookup of src/bitcoind_client.rs, which forward or are not written; the dead code of src/cli.rs; the
-- objects of the libraries that `start_ldk` creates, and their tasks; and the signal handler.
-- A write of the store that fails panics, and so ends the program; Payments/Disk has `send_payment` and
-- `keysend` with such writes, and Wiring/Seed the errors of the seed file. Everywhere else the writes
-- succeed, so that what is stated of commands and events there is stated of a program whose store works.
-- The files of `World` are those that this program names; the logs and what the libraries write, such
-- as the monitors, are left out.
pub mod Prelude
pub mod Args
pub mod HexUtils
pub mod Node
pub mod Payments
pub mod Event
pub mod Events
pub mod Startup
pub mod Convert
pub mod Rpc
pub mod Fees
pub mod Wallet
pub mod YuvClient
pub mod Files
pub mod Wiring
pub mod Peers
pub mod Sweep
pub mod Cli
pub mod Tests
