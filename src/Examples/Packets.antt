-- ===== src/Examples/Packets.antt =====
-- Packets of a bundle from "dtn:a", sent twice, and a socket that is closed.
use ns3_dtn.Prelude.{ℕ, ◌≡◌, refl, arith, true, false, Bool, List, [], ◌∷◌, ◌++◌, some, length, map}
use ns3_dtn.EndpointId.{from_parts, substr}
use ns3_dtn.Sdnv
use ns3_dtn.Header6.{Unset}
use ns3_dtn.Header6.Dictionary.{get_eid, dictionary_eid, c_str}
use ns3_dtn.Header6.Wire
use ns3_dtn.Header6.RoundTrip
use ns3_dtn.Header6.RoundTrip.{deserialize-serialize}
use ns3_dtn.Routing.{SocketAddress}
use ns3_dtn.Forward.{Sent}
use ns3_dtn.Agent.{succeeded, failed}
use ns3_dtn.Agent.Reassembly.Pieces.{bundle_of}
use ns3_dtn.Cla.{
  Cla, SocketCall, sends_packet, new_cla, find_socket, packet_of, data_recv, send_packet,
  udp_enable_receive, disable_receive,
}
use ns3_dtn.Cla.Packets.{CanSend, data_recv-packet_of}
use ns3_dtn.Cla.Sockets.{IsFrom, send_packet-IsFrom}
use ns3_dtn.Cla.Later.{send_packets, send_packets-IsFrom}
use ns3_dtn.Cla.Reception.{udp_enable_receive-disable_receive}
use ns3_dtn.Examples.Data.{none_yet, whole_seconds, payload, fresh, zeros, length-zeros}
use ns3_dtn.Examples.Node.{to_a, to_b, plain, five}

abbrev unset : Unset
unset = record { at_dst = none_yet; at_src = none_yet; at_report = none_yet; at_cust = none_yet }

plain-Fits : RoundTrip.Fits whole_seconds plain
plain-Fits = record {
  version_fits = omega arith;
  flags_fits = omega arith;
  block_fits = omega arith;
  dst_fits = record { scheme_fits = omega arith; ssp_fits = omega arith };
  src_fits = record { scheme_fits = omega arith; ssp_fits = omega arith };
  report_fits = record { scheme_fits = omega arith; ssp_fits = omega arith };
  cust_fits = record { scheme_fits = omega arith; ssp_fits = omega arith };
  timestamp_fits = omega arith;
  seq_fits = omega arith;
  life_fits = omega arith;
  dictionary_fits = omega arith;
  offset_fits = omega arith;
  adu_fits = omega arith;
}

abbrev parcel : Sent ℕ
parcel = record { header = plain; payload_header = payload; piece = five }

can_send : CanSend whole_seconds whole_seconds false parcel
unfolding Wire.serialize Wire.serialize_and_get_size Sdnv.encode
can_send = record {
  header_fits = plain-Fits;
  header_length = omega arith;
  whole_seconds = refl;
  same_kind = refl;
  six_bytes = refl;
  flags_fit = omega arith;
  piece_fits = omega arith;
}

data_recv-packet_of_example :
    (packets : List (List ℕ)) × (map (packet_of zeros whole_seconds) (parcel ∷ parcel ∷ [])
      ≡ map some packets)
    × (data_recv 0 whole_seconds unset false packets ≡ some (map bundle_of (parcel ∷ parcel ∷ [])))
data_recv-packet_of_example =
    data_recv-packet_of 0 whole_seconds whole_seconds unset zeros length-zeros false
      (parcel ∷ parcel ∷ []) (can_send, (can_send, tt))

abbrev packet : List ℕ
packet = Wire.serialize whole_seconds plain ++ (1 ∷ 2 ∷ [])

IsFrom-packet : IsFrom 0 whole_seconds unset false packet to_a
unfolding get_eid dictionary_eid c_str substr from_parts
IsFrom-packet = record {
  header = plain;
  size = length (Wire.serialize whole_seconds plain);
  dest = to_b;
  parsed =
      deserialize-serialize whole_seconds whole_seconds plain fresh (1 ∷ 2 ∷ []) plain-Fits refl;
  to = refl;
  from = refl;
}

abbrev near : SocketAddress
near = record { ip = 7; port = 4556 }

abbrev far : SocketAddress
far = record { ip = 8; port = 4556 }

-- No socket yet.
abbrev idle : Cla
idle = new_cla 0

abbrev always : SocketCall → Bool
always call = true

-- The layer with a socket for "dtn:a" that is connected to `near`.
abbrev ready : Cla
ready = record idle { send_sockets = (to_a, 0) ∷ []; created = 1 }

abbrev used : Cla
used = record ready { calls = sends_packet 0 packet ∷ [] }

first_sent : send_packet 0 whole_seconds unset always packet near ready ≡ some (succeeded, used)
unfolding find_socket from_parts
first_sent = send_packet-IsFrom 0 whole_seconds unset always packet to_a near ready IsFrom-packet

-- Two packets of the same source in between.
abbrev between : List (List ℕ × SocketAddress)
between = (packet, far) ∷ (packet, near) ∷ []

abbrev busy : Cla
busy = record ready {
  calls = sends_packet 0 packet ∷ sends_packet 0 packet ∷ sends_packet 0 packet ∷ [];
}

once_more :
    (address : SocketAddress) (calls : List SocketCall)
    → send_packet 0 whole_seconds unset always packet address (record ready { calls = calls })
      ≡ some (succeeded, record ready { calls = calls ++ (sends_packet 0 packet ∷ []) })
unfolding find_socket from_parts
once_more address calls =
    send_packet-IsFrom 0 whole_seconds unset always packet to_a address
      (record ready { calls = calls }) IsFrom-packet

between_sent : send_packets 0 whole_seconds unset always between used ≡ some busy
unfolding send_packets
between_sent =
    rw (once_more far (sends_packet 0 packet ∷ []))
      (rw (once_more near (sends_packet 0 packet ∷ sends_packet 0 packet ∷ [])) refl)

send_packets-IsFrom_example :
    (socket : ℕ) × (before : List SocketCall) × (used.calls
      ≡ before ++ (sends_packet socket packet ∷ []))
    × (send_packet 0 whole_seconds unset always packet far busy
        ≡ some (succeeded, record busy { calls = busy.calls ++ (sends_packet socket packet ∷ []) }))
send_packets-IsFrom_example =
    send_packets-IsFrom 0 whole_seconds unset always packet packet to_a near far between ready used
      busy IsFrom-packet IsFrom-packet first_sent between_sent

abbrev listening : Cla
listening = record idle { recv_sockets = (to_b, 0) ∷ []; created = 1 }

udp_enable_receive-disable_receive_example :
    let c' = (disable_receive always to_b listening).1 in
    ((udp_enable_receive always to_b c').0 ≡ failed)
    × ((udp_enable_receive always to_b c').1.recv_sockets ≡ (to_b, 0) ∷ [])
unfolding find_socket from_parts
udp_enable_receive-disable_receive_example =
    udp_enable_receive-disable_receive always to_b 0 listening refl
