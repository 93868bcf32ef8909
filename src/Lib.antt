-- ===== src/Lib.antt =====
-- The bundle protocol of RFC 5050 for the simulator ns-3, as the C++ code under bp/model
-- implements it: what a node's agent puts on the wire and reads from it, what it stores, where
-- it sends a bundle and in which pieces.
--
-- How the parts work together. An application registers an endpoint id with the node's agent
-- (Registration). A bundle has a primary header and a payload header. The primary header extends
-- a base header of flags and names four endpoint ids by offsets into a dictionary (Header,
-- Header6, EndpointId); the payload header is that of a block (BlockHeader). Every number on the
-- wire is a self-delimiting numeric value (Sdnv). The agent keeps bundles in a store, ordered by
-- priority, time and fragment offset (BundleStore), asks the routing agent for the next hop
-- (Routing), and forwards a bundle in pieces through a convergence layer, or leaves it in the
-- store as pending (Forward). The agent sends what an application gives it, dispatches what
-- arrives, joins fragments and answers with custody signals (Agent). A custody signal is the
-- data of an administrative bundle (CustodySignal). A convergence layer makes packets of bundles
-- and bundles of packets, and keeps the sockets (Cla). In version 7 of the protocol the headers
-- and the packet are items of CBOR (Header7, BlockHeader7, Bundle7). The simulator's flow
-- monitor is told of bundles by probes on the traces of an agent (Flowstats). A script lets a
-- helper make agents on nodes, and sets when they start and stop (Helper).
--
-- Which file models what:
--   Prelude: the library names and helpers shared by all; Prelude/Bits and Prelude/Words are
--     words of flags, Prelude/Decimal is what sprintf and sscanf do with two unsigned numbers,
--     and strtoll with one; Prelude/Readers is about readers that a longer input does not
--     change.
--   Sdnv: bp/model/sdnv.cc, Encode, both Decode and IsLast. Sdnv/Truncated is about input that
--     ends early, as is Header6/Truncated.
--   EndpointId: bp/model/bp-endpoint-id.cc and .h; ParseUri and ParseComponent as parse_uri and
--     parse_component, the constructors as from_uri and from_parts. EndpointId/Cbhe is
--     IsIpnCbhe.
--   Header: bp/model/bp-header.cc and .h. The eight flag setters are set_flag at their flag.
--   Header6: bp/model/bp-header-6.cc and .h. Header6/Dictionary is the eight accessors of
--     endpoint ids, with the role as an argument, since their bodies differ in fields only;
--     Header6/Wire is SerializeAndGetSize and Deserialize, and Header6/Cbhe is about the ids of
--     a header with CBHE.
--   BlockHeader: bp/model/bp-block-header.cc, bp-block-header-6.cc and their headers.
--   CustodySignal: bp/model/bp-custody-signal.h and bp-admin-record.h.
--   Routing: bp/model/bp-static-routing-agent.cc. m_routes is an association list.
--   BundleStore: bp/model/bp-bundle-store.cc and .h. The std::set is a list in its order.
--     BundleStore/Runs is about any sequence of changes of a store.
--   Registration: bp/model/bp-agent.cc, from Register to Close. Registration/Runs is any
--     sequence of these calls, and the same calls on a function from ids.
--   Forward: bp/model/bp-agent-6.cc, Forward, with SendBundle of bp/model/bp-cla.cc.
--   Agent: bp/model/bp-agent.h, the state of an agent, with OutgoingCla, AddCla and RemoveCla of
--     bp/model/bp-agent.cc and the calls of the store. Agent/Sending is Send, Forward and
--     ClaReady; Agent/Receiving is ProcessBundle, Dispatch, Deliver,
--     EnqueueForDeliveryToApplication, Receive and GetBundle; Agent/Fragments is the loop that
--     joins fragments; Agent/Custody is what the agent does with an administrative record, and
--     SendCustodySignal of bp/model/bp-agent-6.cc. Agent/Lifecycle is the endpoint id,
--     StartBpAgent and StopBpAgent. Agent/Setup is the construction, the setters and DoDispose.
--     Agent/Timers is the events that a bundle keeps, with ClearEvents and DoDispose of
--     bp/model/bp-bundle.cc and bp-bundle-6.cc. Agent/Version7 is bp/model/bp-agent-7.cc.
--     Agent/Reassembly is about fragments that arrive.
--   Cla: bp/model/bp-cla.cc, with EnableReceive of bp/model/bp-udp-cla.cc and bp-tcp-cla.cc;
--     Cla/Callbacks is SetL4SocketCallbacks of the two and what the callbacks do, and Cla/Later
--     is about the packets that follow a first one.
--   Cbor: what the headers of version 7 call of bp/model/codec.h, as a parameter.
--   Header7: bp/model/bp-header-7.cc and .h. The three setters of endpoint ids are set_eid7 at
--     their role; Header7/Wire is EncodeEID, DecodeEID, SerializeAndGetSize and Deserialize,
--     Header7/Ids the ids that they keep.
--   BlockHeader7: bp/model/bp-block-header-7.cc and .h.
--   Bundle7: bp/model/bp-bundle-7.cc, with SerializeBundle and DeserializeBundle of
--     bp/model/bp-cla.cc.
--   Flowstats: bp/model/bp-flowstats.cc and .h. Flowstats itself is the classifier, with the
--     order of its keys; Flowstats/Tag is BpFlowProbeTag, Flowstats/Probe the four loggers,
--     Flowstats/Xml SerializeToXmlStream, and Flowstats/Install the constructor of a probe.
--   Helper: bp/helper/bp-agent-container.cc and bp-agent-helper.cc. Agents are objects at
--     addresses; the containers and the scheduled calls share them.
--   Examples: the theorems at concrete inputs.
--
-- State and errors. A C++ object is a record, a method that changes it is a function to the new
-- record, and a method that throws, reads past a buffer's end, dereferences a map's end or stops
-- the simulation gives none. Numbers are natural numbers with the wrap-around of their C++ type
-- written out. A packet or a string is the list of its bytes. A pointer to a bundle is a number;
-- in the store what the code reads through it is an argument, and an agent keeps the bundles by
-- these numbers, so that an operation that changes one changes it for all that point to it. What
-- an agent asks of the simulator and of its convergence layers is a list of events.
--
-- Bounds and fuel. The loop of Encode has a fuel of ten rounds: each drops seven bits of 64. The
-- loop of Forward has the number of bytes to send as fuel: each round sends one at least, if the
-- bundle size is not 0; with a bundle size of 0 and data to send the code does not end. All
-- other loops are structural.
--
-- Parameters. The simulator is not part of the repository: its Time is a type with the
-- operations used, SequenceNumber32 has an order, GetSeconds and Seconds are functions, and
-- callbacks and convergence layers are arguments. So are the CBOR codec, the tag buffer, the
-- byte tags of a packet, the ids that GetNewFlowId returns, what Names::Find returns, what
-- Indent writes, and what fresh bytes of a buffer hold: the first three are records of
-- functions, with a second record of what is documented of them. The order of sequence numbers
-- is asked of the numbers that the bundles have, not of all: the cyclic order of
-- SequenceNumber32 is one on numbers within half of its circle, and on others the comparison of
-- the store is no order. sscanf of a number that an int cannot hold is undefined in C++; the
-- model takes it to wrap around. Deserialize of version 6 makes its buffer with std::string ("
-- ", n), which reads n bytes of a literal of two; the model takes these bytes to be there, and
-- all of them are overwritten.
--
-- Not modelled. The extension block of bp/model/acs-cteb.h, whose methods are empty in the
-- source, the debug output of headers and of the store, logging, and the type descriptions of
-- ns-3. AddCla by the name of a transport makes an object of ns-3 and adds it as the other
-- AddCla does. The memory that DoDispose frees stays readable in the model, where the code does
-- not read it. bp/model/codec.h is a copy of another library. Setting the payload length of a
-- bundle in the store changes one of its keys; the store's theorems are about bundles whose keys
-- stay as they are.
pub mod Prelude
pub mod Sdnv
pub mod EndpointId
pub mod Header
pub mod Header6
pub mod BlockHeader
pub mod CustodySignal
pub mod Routing
pub mod BundleStore
pub mod Registration
pub mod Forward
pub mod Agent
pub mod Cla
pub mod Cbor
pub mod Header7
pub mod BlockHeader7
pub mod Bundle7
pub mod Flowstats
pub mod Helper
pub mod Examples
