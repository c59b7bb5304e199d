-- ===== src/Lib.antt =====
-- Control OK-A v2: the control plane, the packets, the node registry, the MIDI path, the remote access
-- and the firmware campaigns of a console for garden nodes.
--
-- The console (src/control_okua) talks to nodes over UDP. A node sends OKUA_EVT and OKUA_STAT packets,
-- which the registry of nodes counts and judges; the console sends OKUA_CMD packets and gets OKUA_ACK
-- packets back. A transaction sends a command, waits for its acknowledgement on the listener's socket,
-- and sends it again; the runtime keeps what came of it. MIDI from a serial port is read byte by byte,
-- and MIDI messages go out over a router with a queue. An operator starts and stops a session. Over
-- the network users sign in and open sessions, tokens and roles say what a caller may do, and firmware
-- is brought to the nodes wave by wave, first to a few canaries.
--
-- The calls of the parts follow the source: the command service draws a sequence number and a nonce,
-- builds a packet and sends it, the pending store files what was sent, and an acknowledgement is
-- looked up there; the service of accounts works on the store of users, and a campaign goes from one
-- wave to the next over the orchestrator's answers.
--
--   Base           Python's integers, bytes, dictionaries and exceptions.
--   ControlPlane   src/control_okua/core/control_plane
--     Auth         auth.py: normalize_secret (_normalize_secret), compute_auth_tag32.
--     Protocol     protocol.py: Build has the checks and the build_* functions, Ack has
--                  parse_okua_ack_bytes, Sequence has CmdSequenceManager. Wire, AckLayout and Commands
--                  give the layouts on their own, and compare.
--     Nonce        nonce_manager.py: Manager has the state file and NonceManager, Order compares nonces.
--     Pending      pending.py: Store has PendingCommandStore, WellFiled its invariant, Echo and
--                  Correlation what a match means.
--     Audit        audit.py: the events of a transaction.
--   Services       src/control_okua/services
--     Cmd          cmd_service.py: Sending has CmdService; send_new_command is _send_new_command, in
--                  the steps to_target, draw_and_send, with_nonce and build_and_send, and
--                  packet_builder has the builders of the methods send_*.
--     AckListener  ack_listener.py: start, stop, poll_once over values that say what the socket does.
--     Transaction  control_transaction_service.py: execute_transaction is _execute_transaction. Model
--                  has the world that it runs in, Waiting its inner loop, Results what it returns,
--                  Attempts its outer loop. Rule has the rules for the two loops, Settled, Own
--                  and Clean what a transaction leaves, Sends and Bounds how much it does, Returning that it ends.
--   Runtime        core/control_plane/runtime.py: Choice has _select_effective_node_status, Model has
--                  record_transaction_result, Dispatch has send (the methods send_*), active_node_ids
--                  and snapshot. Chosen and Newest compare statuses by age.
--   Registry       src/control_okua/core/registry
--     Models       node_models.py and node_runtime_events.py.
--     Policy       node_status_policy.py: evaluate_node_status, in the steps evaluate_seen and
--                  evaluate_traffic.
--     Losses, Events, Node, Nodes, Snapshots   node_registry.py: _update_seq_loss, the events, what is
--                  done to one node, NodeRegistry, and what it tells.
--     Frames, Calls, Tracks, Accounting, Silence, Keeping, Invariant   the theorems, over any calls.
--   Midi.Parser    core/midi/byte_stream_parser.py: Model has the state and the tables, Consume has
--                  _consume_byte and what it calls, Feed has feed. WellFormed, DataBytes, StatusBytes
--                  and Invariant follow one byte, Frame and Chunks whole chunks.
--   Midi.Router    core/midi/midi_router.py: Model has the queue and flush; Steps lets users and a flush
--                  take turns, and Feeding, Order and Kept follow the messages.
--   Udp.Packet     core/udp/packet_models.py, packet_parser.py, ota_runtime.py (Ota, Reader), and the
--                  packet builders of tools/udp_okua_v1_sender.py (Sender).
--   Remote         src/control_okua/services
--     Users        remote_user_store.py: Model has the records, Store the file and how it is read, Methods
--                  the methods that write. Records, Sorting, Normal and Kept are about what is read and
--                  written again, Sound and Steps about what a method keeps, Found about what it changes.
--     Auth         remote_auth_service.py: Passwords has the hashes, Accounts the records, Bootstrap
--                  bootstrap_initial_accounts, Service the other methods, where get_authenticated_user,
--                  create_account and delete_account are its get_user, create_user and delete_user.
--                  Hashes, Calls and Signing have the theorems.
--     Sessions     remote_session_service.py: Model; Lifetime and Histories follow one session.
--     Access       remote_api_auth.py: Model has tokens and roles; Permissions, Distinct and Bearers the theorems.
--   Ota.Campaign   core/firmware/ota_campaign_models.py and services/ota_campaign_service.py, with what they
--                  use of ota_deploy_models.py, ota_manifest_models.py and catalog_models.py: Nodes and
--                  Plan have the plan and its checks, Gate the health gate, Service the records, Statuses
--                  _build_campaign_node_statuses, Aggregate _collect_campaign_details, Operations
--                  start_campaign, and Running what follows it. Waves and Cutting are about waves, Counted,
--                  Assigning and Assigned about plans, Health, Safety, Reached, Chosen,
--                  Continuing and Skipping about campaigns that run.
--   NodeIdentity   core/node_identity_policy.py.
--   Session        core/session/session_state_machine.py, and the snapshot of session_models.py.
--   Tests          all of it on concrete inputs.
--
-- An object with state is a record, and a method gives the new record. A method that raises gives
-- err; where it has changed state before, it gives the result and the state. A number that the source
-- converts by int() is an integer; fields of packets are cut as the source cuts them. Loops run over
-- a list or a number of attempts, but for the wait of a transaction, which the clock ends: it runs on
-- fuel, and Transaction/Returning gives an amount that is enough.
--
-- Parameters: HMAC-SHA256, with the hypothesis that a digest has 32 bytes where a layout needs it;
-- str.strip; the types of times and of floats, with the operations that the code uses on them; the
-- environment of a transaction, which says what each reading of the clock and each call of a socket
-- gives; mido's messages; the texts of times and of errors; the operations on texts, of which a theorem
-- names the laws that it needs; the libraries for passwords, digests and cookies, where a library that
-- raises gives none; and what the orchestrator answers to a deploy. The file of users is a JSON value,
-- and a write of it goes well or leaves it as it was. A call of a campaign that deploys gives the
-- request that it made beside its result.
--
-- Not modelled: the texts of errors, locks (each method holds its lock throughout, but for the
-- router: there the sends of a flush, a closing that does not wait, and a message that is appended
-- after its bus was looked up are steps of their own), files and sockets but for their results, the
-- search of the control secret in the environment and in files, the search for MIDI ports, the HTTP
-- routes of the remote console, the orchestrator and the server of firmware, the name, messages and
-- audit file of a campaign, configuration, the user interface, and the firmware of the nodes.
pub mod Base
pub mod ControlPlane
pub mod Midi
pub mod Registry
pub mod Runtime
pub mod Remote
pub mod Ota
pub mod NodeIdentity
pub mod Udp
pub mod Session
pub mod Services
mod Tests
