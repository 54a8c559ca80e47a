-- ===== src/Lib.antt =====
-- A verification library for kubevirt-wol, which starts KubeVirt virtual machines on Wake-on-LAN
-- packets.
--
-- An agent on each node listens for magic packets and reports the MAC address in each of them to
-- the manager, by gRPC. The aggregator in the manager drops duplicates, looks the address up in the
-- mapper and has the VM starter start the VM. The controller in the manager reconciles WolConfig
-- resources: it validates them, keeps a DaemonSet of agents for each, and merges them all into one
-- config for the mapper.
--
-- The files, and what they are about:
--
--   Packet.antt: internal/wol/packet.go, parseMagicPacket. Packet/Spec says what a magic packet is.
--   Api.antt: api/v1beta1/wolconfig_types.go, the WolConfig resource as records.
--   Cluster.antt and Kube.antt: what the program sees of KubeVirt and of the Kubernetes API, and
--       the calls it makes (VmClient, KubeClient); Cluster has the metrics of
--       internal/wol/metrics.go too.
--   Mapper.antt: internal/wol/mapper.go (RefreshMapping is refresh_mapping, Lookup is lookup).
--   VmStarter.antt: internal/wol/kubevirt.go (StartVM is start_vm).
--   Aggregator.antt: internal/wol/aggregator.go (ReportWOLEvent is report_wol_event).
--       Aggregator/Race cuts the handler at its critical sections and runs two of them at once;
--       Aggregator/Debounce has what the dedupe map means for one address, Aggregator/System all
--       that happens to an aggregator as a step relation, and Aggregator/Messages the messages.
--   RawListener.antt: internal/wol/raw_listener.go, the frames and the choice of interfaces;
--       RawListener/Socket has its options, Start, Stop and the loop (start, stop, listen).
--   Agent.antt: internal/wol/agent.go, from a packet to the report; Agent/Wake follows it into the
--       aggregator, and Agent/Lost the packets after a report that failed. Agent/Life has Start,
--       Stop and the start of the raw listeners, Agent/Udp the loop on the UDP socket,
--       Agent/HealthServer when the health server answers, and Agent/Health the endpoints.
--   AgentMain.antt: cmd/agent/main.go, the flags and the exit status.
--   Controller.antt: internal/controller/wolconfig_controller.go and status.go (Reconcile is
--       reconcile); Controller/Config has what is checked, defaulted and merged.
--   Agents.antt: internal/controller/daemonset.go, the DaemonSets; Agents/Spec has the one that is
--       built.
--   Startup.antt: internal/controller/startup.go.
--   Manager.antt: cmd/manager/main.go, from the flags to a manager that is set up (setup);
--       Manager/Serve goes on from there to the end of the process.
--   Wiring.antt: the controller, the aggregator and the agent together, on the mapper that they
--       share.
--   Common.antt: the names and lemmas that the others share. Examples.antt and Store.antt: data for
--       the tests.
--
-- State is passed explicitly: the mapper, the aggregator, the agent and the metrics are records;
-- the cluster is a type parameter with the calls that read and change it. What the API promises of
-- its calls is a named hypothesis of the theorem that needs it (Patches, Keeps). Readings of the
-- clock are arguments; times are numbers of nanoseconds. Maps are association lists; where the
-- program depends on the order in which `range` visits a map, that order is a parameter. A Go error
-- is its text. Texts are lists of bytes; strings.ToLower and strings.TrimSpace are modelled on
-- ASCII. Reading a slice out of range is a panic.
--
-- Loops are structural recursion, over the elements or the rounds left: 6, 15 and 6 rounds in the
-- parser, 60 attempts when a strategy is restored. A loop that waits for the network recurs on the
-- list of rounds that have come. `%d` has fuel for more digits than the number can have.
--
-- Not modelled: what the calls on sockets, HTTP and gRPC do, beyond the hypotheses that a theorem
-- names (OpensFds, OpensHandles, IsFilterMachine, RunsAdded); the parsing of command lines,
-- signals, logging, and generated code. Mutexes appear where two handlers are interleaved;
-- elsewhere an operation is atomic.
pub mod Common
pub mod Packet
pub mod Api
pub mod Cluster
pub mod Mapper
pub mod VmStarter
pub mod Aggregator
pub mod Kube
pub mod Agents
pub mod Agent
pub mod RawListener
pub mod AgentMain
pub mod Controller
pub mod Startup
pub mod Manager
pub mod Wiring
pub mod Examples
pub mod Store
