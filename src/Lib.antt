-- ===== src/Lib.antt =====
-- A model of the traffic accounting, the delivery audits and the mesh control of this repository.
--
-- The program observes a mesh of simulated platforms that talk over DDS. On every node a monitor
-- (debug/scripts/domain_traffic_monitor.py) reads the frames that tshark captures on the WAN interface,
-- as rows of fields, and hands each row to a FrameAccounting (debug/scripts/traffic_accounting.py). That
-- collects the fragments of IPv4 datagrams, learns from SEDP announcements which writer belongs to which
-- topic, classifies each frame, and counts it in a TrafficAccumulator, whose one-second windows become
-- the reports once they are settled. A row that belongs to a monitored domain also goes to a WireCapture
-- (debug/scripts/rtps_delivery.py), which parses the RTPS submessages of the datagram and writes one
-- event for each sample sent or received, one for each endpoint announced, and one for each sample that
-- is sent again because a remote reader asked for it. The dashboard's WireDelivery
-- (gui/mesh_dashboard/server/wire_delivery.py) reads the events of all nodes and tells, for each flow,
-- how many samples were sent, received, lost and recovered.
--
-- The simulators write events of their own, one for each sample sent or received by an application. The
-- dashboard's MeshBridge (gui/mesh_dashboard/server/mesh_bridge.py) matches them with the recipients that
-- the router mesh lets expect, and it sends mission commands and follows their acknowledgements. On each
-- platform platform_mesh_control.py (harness_v2/scripts) turns the team and the mission that the platform
-- reports into commands to its router. Before a run compile_mesh_topology.py validates the nodes and
-- compile_delivery_expectations.py writes which topics each node must receive; delivery_audit_report.py
-- reads those expectations and the events after it, and gives the verdict. The dashboard shows the QoS of
-- each topic, which delivery_config.py (gui/mesh_dashboard/server) reads from the router's configuration.
--
-- Common: names of the libraries, Boolean tests on native numbers, list functions, keys with an equality
--   test (Common/Keys), a Python dict as an association list in insertion order (Common/Dicts), `sorted`
--   (Common/Sort) and `collections.Counter` (Common/Counter).
-- Wire: debug/scripts/rtps_delivery.py.
--   Wire/SequenceRanges: class SequenceRanges, with the search of `bisect_right` as a loop; Search has
--     the proofs on the search, and Members those on the numbers that the ranges hold.
--   Wire/Bytes: `bytes`, slices and `struct` reads, and the exceptions as the values of `Error`.
--   Wire/Submessages: `submessages`. The generator is a list of what it yields beside how it ended;
--     Kinds holds its branches for ACKNACK and NACK_FRAG and for DATA and DATA_FRAG.
--   Wire/Endpoints: `endpoint_metadata`, with the UTF-8 check of `decode`.
--   Wire/Capture: class WireCapture, one function per step of `process`: Capture/Repair has the requests
--     of remote readers, and Capture/Parts the reassembly of fragments.
-- Traffic: debug/scripts/traffic_accounting.py and debug/scripts/domain_traffic_monitor.py.
--   Traffic/Counters: `empty_counters`, and the counting of one packet.
--   Traffic/Accumulator: class TrafficAccumulator; its lock makes each method one step, and
--     Accumulator/Runs is any sequence of calls. Inv and Keeps hold its invariant, Packets the
--     conservation of frames and bytes, Windows what `drain_ready` closes, Fields what leaves what alone.
--   Traffic/Classify: `is_discovery_entity`, `classify_packet` and the roles of `_tx_class`.
--   Traffic/Accounting: class FrameAccounting; Accounting/Learned has `_learn` and `_tx_class`,
--     Accounting/Fragments and Held the proofs on its fragments, and Accounting/Frames those on its frames.
--   Traffic/Ports: `port_to_domain` and the ranges of `build_port_filter`; Traffic/Emane: class
--     EmaneSampler with `counter_delta`.
-- Dashboard: gui/mesh_dashboard/server.
--   Dashboard/WireDelivery: class WireDelivery of wire_delivery.py, which reads the events of all nodes;
--     WireDelivery/Rows has `snapshot`, and Dashboard/Json the checks of a JSON object's values.
--   Dashboard/Bridge: mesh_bridge.py. Mesh, Names and Recipients have what `_expected_recipients` reads;
--     Counts the counters of `poll_audit_events`, Poll the files it reads and `_prune_audit_events`, with
--     the proofs in Counts/Tallies, Counts/Recount, Recipients/Once and Poll/Forgotten; Rows has
--     `application_delivery_snapshot`, with Rows/Totals; Missions the history of mission commands, each
--     step one hold of `cache_lock`, with the proofs in its Lookups, Ready, History, Settled and Dated.
--   Dashboard/DeliveryConfig: delivery_config.py. Load has `load_delivery_config` and its `add`; Listed,
--     Tables and Configured are the proofs on the table of topics.
--   Dashboard/Metrics: `coherent_samples` of traffic_metrics.py, which picks the samples that are added up.
-- Harness: harness_v2/scripts.
--   Harness/Topology: `compile_topology` of compile_mesh_topology.py, which validates the nodes of the mesh
--     before the containers are started; Topology/Accepted has the proofs.
--   Harness/Expectations: `compile_expectations` of compile_delivery_expectations.py; Accepted reads its
--     result with the functions of Harness/Audit.
--   Harness/Reporting: `class MissionReporting` of platform_mesh_control.py. Harness/MeshControl: its
--     commands and its loop; the children are Teams for partitions, Routes for routes and the numbers of
--     commands, Ignored for samples passed over, and Settles for the clock.
--   Harness/Audit: delivery_audit_report.py. Evidence has `load_events`, Inputs `load_manifest` and
--     `load_expectations`, Deliveries and Verdicts the two parts of `analyze`, and Main `main`; Exact,
--     Expected, Conserved, Judged and Passed are proofs on `analyze`.
--
-- Numbers are the native ℕ: Python's integers do not wrap, and the fields that are read from a frame are
-- of the width that the frame gives them. Time stamps are numbers of nanoseconds where the source has
-- floating point seconds, so that the rounding of `int(timestamp * 1000)` is not modelled; a subtraction
-- of times stops at 0, where the source compares a negative difference with a positive bound.
-- GUIDs, prefixes and topic names are kept as the bytes that their texts spell, IPv4 addresses as text in
-- Traffic and as octets in Wire/Capture. A method that raises returns the state it leaves, and the error.
-- In Harness/Reporting, Harness/MeshControl and Dashboard/Bridge/Missions times are in milliseconds. A
-- percentage or a rate is a fraction, compared by cross multiplication. JSON is taken after it is parsed,
-- each field `none` where it is missing or of another type. What the loops of platform_mesh_control.py and
-- mesh_bridge.py take from DDS, from a clock or from a file is an argument of the step that reads it, such
-- as the samples of one wake-up, the lines of an event log, or the nodes of a run.
--
-- Loops whose step is computed run on fuel. `bisect_right` has as much as there are ranges, and each round
-- halves what is left. The loop of `submessages` has one more than the payload has bytes, and so have
-- those of the parameter lists of inline QoS and of SEDP: each round passes four bytes at least. The end
-- of the fuel is told apart from what the code does: `submessages` would be `unfinished`, and a reader of
-- parameters would end in `struct_error`, which also stands for a read out of range. `drain_ready` closes
-- windows on one more than its cutoff has milliseconds, and each window is a millisecond long at least.
--
-- Not modelled: the text of a tshark row and its splitting into fields, the file of the topic cache, the
-- JSON lines that are written and the files that they are read from, logging, the decoder's processes and
-- the batches of CaptureBatches; of mesh_bridge.py the HTTP server, its DDS readers and writers, the
-- diagnostics of routers, EMANE control, and the scenario and team missions; the reports of
-- delivery_audit_report.py as HTML; and the parts of the repository that touch none of this: mission
-- planning and navigation, which compute with floating point numbers, the simulators, the sums
-- and rates of traffic_metrics.py, the spikes, the router, the dashboard's front end and the container scripts.
pub mod Common
pub mod Wire
pub mod Traffic
pub mod Dashboard
pub mod Harness
