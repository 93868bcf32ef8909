-- ===== src/Cla/Later.antt =====
-- Which socket the later packets of a source go to, whatever is sent in between.
use ns3_dtn.Prelude.{
  ℕ, ◌+◌, ◌≡◌, inl, inr, refl, ap, sym, ◌∙◌, arith, Bool-cases, List, [], ◌∷◌, ◌++◌, Option, none,
  some, ◌>>=◌, Option-cases,
}
use mathlib.Core.Option.{some-injective}
use ns3_dtn.EndpointId.{EndpointId}
use ns3_dtn.Header6.{Unset, new_header6, src, dst}
use ns3_dtn.Header6.Dictionary.{get_eid}
use ns3_dtn.Header6.Wire
use ns3_dtn.Routing.{SocketAddress, no_address}
use ns3_dtn.Agent.{Code, succeeded, failed}
use ns3_dtn.Cla.{
  Cla, SocketCall, binds, connects, shuts_down_recv, sends_packet, Answers, find_socket, keep_send,
  socket_after, enable_send, known_or_new, send_on, get_l4_socket, send_packet, address_eq,
}
use ns3_dtn.Cla.Calls.{call_all-SameMaps}
use ns3_dtn.Cla.Sockets.{
  IsFrom, send_on-succeeded, send_packet-IsFrom, send_packet-known, known_or_new-found,
  enable_send-cbhe, socket_after-cbhe,
}

find_socket-kept :
    (eid : EndpointId) (socket : ℕ) (m more : List (EndpointId × ℕ))
    → find_socket eid m ≡ some socket
    → find_socket eid (m ++ more) ≡ some socket
unfolding find_socket
find_socket-kept eid socket [] more found = absurd cc
find_socket-kept eid socket ((k, s) ∷ m) more found =
    ground (arith, found, find_socket-kept eid socket m more)

module _ (source : EndpointId) (socket : ℕ) where
  -- The socket of the source is known.
  abbrev Knows : Cla → Type 0
  Knows c = find_socket source c.send_sockets ≡ some socket

  keep_send-Knows :
      (eid : EndpointId) (new : ℕ) (r : Code × Cla) → Knows r.1 → Knows (keep_send eid new r).1
  keep_send-Knows eid new (failed, c) known = known
  keep_send-Knows eid new (succeeded, c) known =
      elim (Option-cases (find_socket eid c.send_sockets)) [
        | inl e ↦ rw e (find_socket-kept source socket c.send_sockets ((eid, new) ∷ []) known)
        | inr (old, e) ↦ rw e known
      ]

  enable_send-Knows :
      (answers : Answers) (eid : EndpointId) (address : SocketAddress) (c : Cla)
      → Knows c
      → Knows (enable_send answers eid address c).1
  unfolding enable_send
  enable_send-Knows answers eid address c known =
      elim (Bool-cases (address_eq address no_address)) [
        | inl e ↦ rw e known
        | inr e ↦
            let calls : List SocketCall =
              binds c.created 0 ∷ connects c.created address ∷ shuts_down_recv c.created ∷ [] in
            rw e (
              keep_send-Knows eid c.created _ (
                ap (λ (m : List (EndpointId × ℕ)). find_socket source m)
                  (call_all-SameMaps answers calls (record c { created = c.created + 1 })).0
                ∙ known))
      ]

  socket_after-Knows :
      (eid : EndpointId) (r : Code × Cla) → Knows r.1 → Knows (socket_after eid r).1
  socket_after-Knows eid (failed, c) known = known
  socket_after-Knows eid (succeeded, c) known = known

  known_or_new-Knows :
      (answers : Answers) (eid : EndpointId) (address : SocketAddress) (c : Cla) (o : Option ℕ)
      → Knows c
      → Knows (known_or_new answers eid address c o).1
        × ((known_or_new answers eid address c o).1.uses_cbhe ≡ c.uses_cbhe)
  known_or_new-Knows answers eid address c (some old) known = (known, refl)
  known_or_new-Knows answers eid address c none known = (
    socket_after-Knows eid (enable_send answers eid address c)
        (enable_send-Knows answers eid address c known),
    socket_after-cbhe eid (enable_send answers eid address c)
        ∙ enable_send-cbhe answers eid address c,
  )

  send_on-Knows :
      (packet : List ℕ) (r : Option ℕ × Cla)
      → Knows r.1
      → Knows (send_on packet r).1 × ((send_on packet r).1.uses_cbhe ≡ r.1.uses_cbhe)
  send_on-Knows packet (none, c) known = (known, refl)
  send_on-Knows packet (some s, c) known = (known, refl)

module _ {Time : Type 0} (zero_time : Time) (seconds : ℕ → Time) (unset : Unset) where
  -- Packets that are sent one after the other; what each call returns is ignored.
  unfoldable pub send_packets : Answers → List (List ℕ × SocketAddress) → Cla → Option Cla
  send_packets answers [] c = some c
  send_packets answers ((packet, address) ∷ more) c =
      send_packet zero_time seconds unset answers packet address c >>= λ (code, c').
      send_packets answers more c'

  -- A packet that was sent, or not, had a header that could be read.
  send_packet-read :
      (answers : Answers) (packet : List ℕ) (address : SocketAddress) (c : Cla) (r : Code × Cla)
      → send_packet zero_time seconds unset answers packet address c ≡ some r
      → (eid : EndpointId) × (r
          ≡ send_on packet (known_or_new answers eid address c (find_socket eid c.send_sockets)))
  unfolding send_packet get_l4_socket
  send_packet-read answers packet address c r sent =
      elim (Option-cases
        (Wire.deserialize seconds (new_header6 zero_time unset c.uses_cbhe) packet)) [
          | inl e ↦ let gone : none ≡ some r = rw e at sent in absurd cc
          | inr ((h, size), e) ↦ elim (Option-cases (get_eid dst h)) [
            | inl d ↦ let gone : none ≡ some r = rw d at (rw e at sent) in absurd cc
            | inr (dest, d) ↦ elim (Option-cases (get_eid src h)) [
              | inl f ↦ let gone : none ≡ some r = rw f at (rw d at (rw e at sent)) in absurd cc
              | inr (eid, f) ↦ (eid, sym (some-injective _ _ (rw f at (rw d at (rw e at sent)))))
            ]
          ]
        ]

  send_packet-Knows :
      (answers : Answers) (packet : List ℕ) (address : SocketAddress) (source : EndpointId)
      (socket : ℕ) (c : Cla) (r : Code × Cla)
      → send_packet zero_time seconds unset answers packet address c ≡ some r
      → Knows source socket c
      → Knows source socket r.1 × (r.1.uses_cbhe ≡ c.uses_cbhe)
  send_packet-Knows answers packet address source socket c r sent known =
      let (eid, result) = send_packet-read answers packet address c r sent in
      let chosen : Option ℕ × Cla =
        known_or_new answers eid address c (find_socket eid c.send_sockets) in
      let (kept, kind) =
        known_or_new-Knows source socket answers eid address c (find_socket eid c.send_sockets)
          known in
      let (last, same) = send_on-Knows source socket packet chosen kept in
      rw result (last, same ∙ kind)

  send_packets-Knows :
      (answers : Answers) (between : List (List ℕ × SocketAddress)) (source : EndpointId)
      (socket : ℕ) (c c' : Cla)
      → send_packets answers between c ≡ some c'
      → Knows source socket c
      → Knows source socket c' × (c'.uses_cbhe ≡ c.uses_cbhe)
  unfolding send_packets
  send_packets-Knows answers [] source socket c c' sent known =
      let same : c ≡ c' = some-injective _ _ sent in
      (
        ap (λ (d : Cla). find_socket source d.send_sockets) (sym same) ∙ known,
        ap (λ (d : Cla). d.uses_cbhe) (sym same),
      )
  send_packets-Knows answers ((packet, address) ∷ more) source socket c c' sent known =
      elim (Option-cases (send_packet zero_time seconds unset answers packet address c)) [
        | inl e ↦ let gone : none ≡ some c' = rw e at sent in absurd cc
        | inr (r, e) ↦
            let (kept, kind) = send_packet-Knows answers packet address source socket c r e known in
            let (last, same) =
              send_packets-Knows answers more source socket r.1 c' (rw e at sent) kept in
            (last, same ∙ kind)
      ]

  -- When a packet of a source was sent, every later packet with the same source goes to the same
  -- socket, whatever its destination and the address that `SendBundle` is given for it, and
  -- whatever packets were sent in between and with what result, if their headers can be read.
  pub send_packets-IsFrom :
      (answers : Answers) (packet next : List ℕ) (source : EndpointId)
      (address other : SocketAddress) (between : List (List ℕ × SocketAddress)) (c c' c'' : Cla)
      → IsFrom zero_time seconds unset c.uses_cbhe packet source
      → IsFrom zero_time seconds unset c.uses_cbhe next source
      → send_packet zero_time seconds unset answers packet address c ≡ some (succeeded, c')
      → send_packets answers between c' ≡ some c''
      → (socket : ℕ) × (before : List SocketCall) × (c'.calls
          ≡ before ++ (sends_packet socket packet ∷ []))
        × (send_packet zero_time seconds unset answers next other c''
            ≡ some (succeeded, record c'' { calls = c''.calls ++ (sends_packet socket next ∷ []) }))
  send_packets-IsFrom answers packet next source address other between c c' c'' from from' sent
        sent' =
      let (socket, chosen, after) = send_on-succeeded packet r c' (
        some-injective _ _ (
          sym (send_packet-IsFrom zero_time seconds unset answers packet source address c from)
          ∙ sent)) in
      let (found, kind) = known_or_new-found answers source address c _ socket refl chosen in
      let (known, kind') =
        send_packets-Knows answers between source socket c' c'' sent'
          (ap (λ (d : Cla). find_socket source d.send_sockets) after ∙ found) in
      (
        socket,
        r.1.calls,
        ap (λ (d : Cla). d.calls) after,
        send_packet-known zero_time seconds unset answers next source other c.uses_cbhe socket c''
            from' (kind' ∙ ap (λ (d : Cla). d.uses_cbhe) after ∙ kind) known,
      )
    where
      r : Option ℕ × Cla
      r = known_or_new answers source address c (find_socket source c.send_sockets)
