-- ===== src/Cla.antt =====
-- model/bp-cla.cc, bp-udp-cla.cc and bp-tcp-cla.cc: a convergence layer's sockets, the packets that
-- it makes of bundles, and the bundles that it makes of packets. A socket is its number, and what
-- ns-3 answers to a call on it is a parameter; a packet is the list of its bytes. `none` is an
-- exception, a read behind a packet's end, or the assertion against a write behind a header's room.
pub mod Packets
pub mod Calls
pub mod Sockets
pub mod Reception
pub mod Callbacks
pub mod Later
use ns3_dtn.Prelude.{
  ℕ, ◌+◌, ◌-◌, ◌%◌, ◌^◌, Bool, true, false, not, ◌&&◌, List, [], ◌∷◌, ◌++◌, Option, none, some,
  ◌>>=◌, length, take, drop, leb, ◌==◌, if◌then◌else◌,
}
use ns3_dtn.EndpointId.{EndpointId, eid_eq}
use ns3_dtn.Header6.{Header6, Unset, new_header6, src, dst}
use ns3_dtn.Header6.Dictionary.{get_eid}
use ns3_dtn.Header6.Wire
use ns3_dtn.BlockHeader
use ns3_dtn.BlockHeader.{BlockHeader6, new_block_header6, bundle_payload_block}
use ns3_dtn.Routing.{SocketAddress, no_address}
use ns3_dtn.Forward.{Bundle6, Sent}
use ns3_dtn.Agent.{Code, succeeded, failed}

-- `Packet::AddHeader`: room of the size that the header announces is added in front, with any
-- bytes in it (`fill`), and the header is written from its start on.
abbrev pub add_header : (ℕ → List ℕ) → ℕ → List ℕ → List ℕ → Option (List ℕ)
add_header fill announced written packet =
    if leb (length written) announced
    then some (written ++ (fill (announced - length written) ++ packet))
    else none

-- The packet of `SendBundle`.
unfoldable pub packet_of : {Time : Type 0} → (ℕ → List ℕ) → (Time → ℕ) → Sent Time → Option (List ℕ)
packet_of fill get_seconds s =
    add_header fill (BlockHeader.get_serialized_size s.payload_header)
      (BlockHeader.serialize s.payload_header) s.piece
    >>= add_header fill (Wire.get_serialized_size get_seconds s.header)
        (Wire.serialize get_seconds s.header)

module _ {Time : Type 0} (zero_time : Time) (seconds : ℕ → Time) (unset : Unset) where
  -- One packet of `DataRecv`; `RemoveHeader` takes off as many bytes as `Deserialize` returns.
  unfoldable pub bundle_from : Bool → List ℕ → Option (Bundle6 Time)
  bundle_from cbhe packet = do
    (h, size) ← Wire.deserialize seconds (new_header6 zero_time unset cbhe) packet
    let packet = drop size packet
    (payload, size) ← BlockHeader.deserialize (new_block_header6 bundle_payload_block) packet
    some (record {
      header = h;
      payload_header = payload;
      adu = drop size packet;
      retention_constraints = 0;
      acks = [];
    })

  -- The loop of `DataRecv`, with the bundles that go to the agent, in order.
  unfoldable pub data_recv : Bool → List (List ℕ) → Option (List (Bundle6 Time))
  data_recv cbhe [] = some []
  data_recv cbhe (packet ∷ packets) = do
    b ← bundle_from cbhe packet
    bs ← data_recv cbhe packets
    some (b ∷ bs)

-- The calls on sockets, with the arguments that matter.
pub data SocketCall : Type 0 where
  binds : ℕ → ℕ → SocketCall
  connects : ℕ → SocketAddress → SocketCall
  shuts_down_recv shuts_down_send listens closes : ℕ → SocketCall
  sets_tos : ℕ → ℕ → SocketCall
  sends_packet : ℕ → List ℕ → SocketCall

-- Whether ns-3 answers a call without an error.
abbrev pub Answers : Type 0
Answers = SocketCall → Bool

-- `BpCla`: `m_ready`, `m_cbhe`, `m_tos`, the sockets by endpoint id, how many sockets there are, and
-- the calls on them so far.
pub record Cla : Type 0 where
  pub is_ready : Bool
  pub uses_cbhe : Bool
  pub tos : ℕ
  pub send_sockets : List (EndpointId × ℕ)
  pub recv_sockets : List (EndpointId × ℕ)
  pub created : ℕ
  pub calls : List SocketCall

-- `BpCla (processBundleCallback)`; the constructor leaves `m_tos` as it is.
abbrev pub new_cla : ℕ → Cla
new_cla unset = record {
  is_ready = false;
  uses_cbhe = false;
  tos = unset;
  send_sockets = [];
  recv_sockets = [];
  created = 0;
  calls = [];
}

-- `SetReady` and `UseCbhe`
abbrev pub set_ready : Bool → Cla → Cla
set_ready ready c = record c { is_ready = ready }

abbrev pub use_cbhe : Cla → Cla
use_cbhe c = record c { uses_cbhe = true }

-- `find` in a map of sockets.
unfoldable pub find_socket : EndpointId → List (EndpointId × ℕ) → Option ℕ
find_socket eid [] = none
find_socket eid ((k, socket) ∷ m) =
    let rest = find_socket eid m in if eid_eq k eid then some socket else rest

abbrev pub address_eq : SocketAddress → SocketAddress → Bool
address_eq a b = a.ip == b.ip && a.port == b.port

-- Calls that are made one after the other, until one fails.
unfoldable pub call_all : Answers → List SocketCall → Cla → Code × Cla
call_all answers [] c = (succeeded, c)
call_all answers (call ∷ more) c =
    let c' = record c { calls = c.calls ++ (call ∷ []) } in
    let rest = call_all answers more c' in if answers call then rest else (failed, c')

-- A new socket goes into a map, unless the id has one.
abbrev pub add_if_new :
    EndpointId → ℕ → List (EndpointId × ℕ) → Option ℕ → Code × List (EndpointId × ℕ)
add_if_new eid socket m none = (succeeded, m ++ ((eid, socket) ∷ []))
add_if_new eid socket m (some old) = (failed, m)

abbrev pub keep_send : EndpointId → ℕ → Code × Cla → Code × Cla
keep_send eid socket (failed, c) = (failed, c)
keep_send eid socket (succeeded, c) =
    let c' = record c { calls = c.calls ++ (sets_tos socket c.tos ∷ []) } in
    let (code, m) = add_if_new eid socket c.send_sockets (find_socket eid c.send_sockets) in
    (code, record c' { send_sockets = m })

abbrev pub keep_recv : EndpointId → ℕ → Code × Cla → Code × Cla
keep_recv eid socket (failed, c) = (failed, c)
keep_recv eid socket (succeeded, c) =
    let (code, m) = add_if_new eid socket c.recv_sockets (find_socket eid c.recv_sockets) in
    (code, record c { recv_sockets = m })

-- `EnableSend`; a socket that binds to no address has port 0.
unfoldable pub enable_send : Answers → EndpointId → SocketAddress → Cla → Code × Cla
enable_send answers source address c =
    let socket = c.created in
    if address_eq address no_address
    then (failed, c)
    else keep_send source socket (
        call_all answers (binds socket 0 ∷ connects socket address ∷ shuts_down_recv socket ∷ [])
          (record c { created = socket + 1 }))

-- `EnableReceive` of the two layers.
abbrev pub dtn_bundle_udp_port : ℕ
dtn_bundle_udp_port = 4556

abbrev pub dtn_bundle_tcp_port : ℕ
dtn_bundle_tcp_port = 4556

unfoldable pub udp_enable_receive : Answers → EndpointId → Cla → Code × Cla
udp_enable_receive answers eid c =
    let socket = c.created in
    keep_recv eid socket
      (call_all answers (binds socket dtn_bundle_udp_port ∷ []) (record c { created = socket + 1 }))

unfoldable pub tcp_enable_receive : Answers → EndpointId → SocketAddress → Cla → Code × Cla
tcp_enable_receive answers eid address c =
    let socket = c.created in
    let port = if address_eq address no_address then dtn_bundle_tcp_port else address.port in
    keep_recv eid socket (
      call_all answers (binds socket port ∷ listens socket ∷ shuts_down_send socket ∷ [])
        (record c { created = socket + 1 }))

-- `DisableReceive`, with what `Close` answers; the map keeps the socket.
abbrev pub close_found : Answers → Option ℕ → Cla → Code × Cla
close_found answers none c = (failed, c)
close_found answers (some socket) c = call_all answers (closes socket ∷ []) c

unfoldable pub disable_receive : Answers → EndpointId → Cla → Code × Cla
disable_receive answers eid c = close_found answers (find_socket eid c.recv_sockets) c

abbrev pub socket_after : EndpointId → Code × Cla → Option ℕ × Cla
socket_after source (failed, c) = (none, c)
socket_after source (succeeded, c) = (find_socket source c.send_sockets, c)

-- The socket that is known for the source of a packet, or a new one.
abbrev pub known_or_new : Answers → EndpointId → SocketAddress → Cla → Option ℕ → Option ℕ × Cla
known_or_new answers source address c (some socket) = (some socket, c)
known_or_new answers source address c none =
    socket_after source (enable_send answers source address c)

abbrev pub send_on : List ℕ → Option ℕ × Cla → Code × Cla
send_on packet (none, c) = (failed, c)
send_on packet (some socket, c) =
    (succeeded, record c { calls = c.calls ++ (sends_packet socket packet ∷ []) })

module _ {Time : Type 0} (zero_time : Time) (seconds : ℕ → Time) (unset : Unset) where
  -- `GetL4Socket`
  unfoldable pub get_l4_socket : Answers → List ℕ → SocketAddress → Cla → Option (Option ℕ × Cla)
  get_l4_socket answers packet address c = do
    (h, size) ← Wire.deserialize seconds (new_header6 zero_time unset c.uses_cbhe) packet
    dest ← get_eid dst h
    source ← get_eid src h
    some (known_or_new answers source address c (find_socket source c.send_sockets))

  -- `SendPacket`, which ignores what `Send` answers.
  unfoldable pub send_packet : Answers → List ℕ → SocketAddress → Cla → Option (Code × Cla)
  send_packet answers packet address c =
      get_l4_socket answers packet address c >>= λ found. some (send_on packet found)

  -- `SendBundle`, which ignores the result of `SendPacket`.
  unfoldable pub send_bundle :
      (ℕ → List ℕ) → (Time → ℕ) → Answers → Sent Time → SocketAddress → Cla → Option Cla
  send_bundle fill get_seconds answers s address c = do
    packet ← packet_of fill get_seconds s
    (code, c') ← send_packet answers packet address c
    some c'
