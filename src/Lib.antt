-- ===== src/Lib.antt =====
-- The MOZA racing hardware simulator: the wire protocol and the engines of its devices.
--
-- Parts and files (paths from the repository's root):
-- - Base: lists, tests, dictionaries, exceptions and bit tables that all parts share.
-- - Wire (sim/wheel_sim.py: checksum, verify, build_frame, frame_payload, frame_len, swap_nibbles):
--   frames. Wire/Stream is `send` of sim/engines/standalone.py and `parse_frames`, Wire/Serial is
--   `read_one_frame`; the proofs are in Wire/Frame, Wire/Nibbles, Wire/Decode, Wire/RoundTrip and
--   Wire/Serial/Laws.
-- - Identity (sim/wheel_sim.py: _id_str, _id_slices, _build_device_identity): the identity cascade.
--   Identity/Tables is _build_identity_tables.
-- - Profile (sim/profiles/schema.py, and the profiles of handbrake, SRP pedals and CM1).
-- - Standalone (sim/engines/standalone.py, StandaloneSimulator): the engine's state and `handle`; its
--   serial loop is Standalone/Loop. Standalone/Outcome has the handlers as a relation, and the
--   other children have the proofs.
-- - Cm1 (sim/engines/standalone.py, Cm1Simulator): a subclass, as a hook of Standalone.
-- - Session (sim/wheel_sim.py: ChunkBuffer, chunk_session_payload, _chunk_catalog_message,
--   build_session_data_frame, resp_session_ack, resp_device_session_open,
--   resp_wheel_model_ident, build_7c23_frames,
--   rewrite_session_frame_seq): messages cut into data frames and put together again. zlib.crc32 is
--   a parameter, with the bound that it is a number of 32 bits.
-- - Wheel (sim/wheel_sim.py, WheelSimulator): the state of the dispatch and its recording;
--   Wheel/Tables has the constant tables, Wheel/Handlers the `_try_*` handlers, Wheel/Dispatch
--   `_handle_core` and `handle`. The session handler `_handle_wheel` and `annotate` are parameters.
--   Wheel/Tried has the handlers as a relation; Routes, Led, Verified and ActiveDash are proofs.
-- - Tier (sim/wheel_sim.py: _build_session2_message, parse_v0_tier_def): the list of channel URLs.
--   Tier/V2 is parse_v2_tier_def and Tier/Device is build_device_catalog
--   and Tier/Bits is BitReader.
--   Tier/Sorting has the two sorts, Tier/Catalog the round trip, and Tier/Delivery the way of a
--   catalog over Session.
-- - Replay (sim/wheel_sim.py, ResponseReplay): recorded answers and the loading of a capture, whose
--   proofs are in Replay/Table. WheelSimulator looks its answers up.
-- - Ab9 (sim/ab9_sim.py, Ab9Simulator): the active shifter. Ab9/Tables has its tables, `__init__` and
--   `snapshot`, Ab9/Handlers `handle` and the `_h_*` handlers, Ab9/Hid the gear reports. Ab9/Spec is
--   what the shifter promises, a table of settings and a list of effects; Ab9/Handled has the
--   handlers as a relation, and the other children have the proofs.
-- - Mbooster (sim/engines/mbooster.py, MBoosterSimulator): the pedal lane, a hook of Standalone with
--   the time of the clock in milliseconds. Mbooster/Build is `__init__` on a parsed seed,
--   Mbooster/Dispatch `_device_specific`, Mbooster/Calibration `_calibration` and `_motor_cal`,
--   Mbooster/Reboot `_reboot`, Mbooster/Poll `poll` and `_boot`, Mbooster/Heartbeat
--   `_host_heartbeat`, with the text operations of Mbooster/Texts. Mbooster/Watch, Steady, SteadyPoll and
--   Runs carry a predicate on the units through every operation, for Silent and Sleep; Cases and
--   Awake open the hook for Answers and Registers; Lines is on the text that goes
--   out; Delivers, Settles and PollReturns are on what a poll returns, Grows and Prints on the frames
--   that it adds, and Sweeps on runs of polls.
-- - Files (sim/wheel_sim.py, WheelFileSystem): the wheel's files and their saving, on its own; Saved
--   and Reload are on sequences of calls, Deleted on `delete`; Listing has
--   `list_children`, which Ends and Endless are on.
--
-- Bytes are native numbers below 256, where a statement needs that; `bytes([...])` on a larger
-- number is an exception, a value of Base/Raise. Dictionaries are association lists in insertion
-- order. `parse_frames` runs on fuel, the length of its buffer: each round consumes a byte, and
-- `parse_from_fuel` shows that more fuel changes nothing. `list_children` runs on fuel, the
-- number of calls that may be nested; Files/Ends says how much is enough. `split_chunks`,
-- `v0_channels`, `v2_tiers` and `read_channels` run on the length of their input in the same way.
-- The serial port is the list of results of read(1). The JSON file of Files is the list of its
-- entries, so that reading gives what was written. Frames kept for display are bytes, where the program keeps their hex text.
--
-- Not modelled: processes, sockets and USB gadgets, logging, JSON and zlib content, and the
-- analysis scripts; the manifest lists them.
pub mod Base
pub mod Wire
pub mod Identity
pub mod Profile
pub mod Standalone
pub mod Cm1
pub mod Session
pub mod Wheel
pub mod Tier
pub mod Replay
pub mod Ab9
pub mod Mbooster
pub mod Files
mod Tests
