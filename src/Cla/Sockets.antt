-- ===== src/Cla/Sockets.antt =====
-- Which socket a packet goes to.
use ns3_dtn.Prelude.{
  ℕ, ◌+◌, ◌≡◌, inl, inr, refl, ap, sym, ◌∙◌, Bool, true, false, Bool-cases, List, [], ◌∷◌, ◌++◌,
  Option, none, some,
}
use mathlib.Core.Path.{subst}
use mathlib.Core.List.{append_assoc}
use ns3_dtn.EndpointId.{EndpointId}
use ns3_dtn.Header6.{Header6, Unset, new_header6, src, dst}
use ns3_dtn.Header6.Dictionary.{get_eid}
use ns3_dtn.Header6.Wire
use ns3_dtn.Routing.{SocketAddress, no_address}
use ns3_dtn.Agent.{Code, succeeded, failed}
use ns3_dtn.Cla.{
  Cla, SocketCall, binds, connects, shuts_down_recv, sets_tos, sends_packet, Answers, find_socket,
  keep_send, socket_after, enable_send, known_or_new, send_on, get_l4_socket, send_packet,
  address_eq,
}
use ns3_dtn.Cla.Calls.{call_all-SameMaps, call_all-answered, find_socket-added}

keep_send-cbhe :
    (source : EndpointId) (socket : ℕ) (r : Code × Cla)
    → (keep_send source socket r).1.uses_cbhe ≡ r.1.uses_cbhe
keep_send-cbhe source socket (failed, c) = refl
keep_send-cbhe source socket (succeeded, c) = refl

-- A socket that was found or made is found from then on.
socket_after-found :
    (source : EndpointId) (r : Code × Cla) (socket : ℕ)
    → (socket_after source r).0 ≡ some socket
    → find_socket source (socket_after source r).1.send_sockets ≡ some socket
socket_after-found source (failed, c) socket e = cc
socket_after-found source (succeeded, c) socket e = e

pub socket_after-cbhe :
    (source : EndpointId) (r : Code × Cla) → (socket_after source r).1.uses_cbhe ≡ r.1.uses_cbhe
socket_after-cbhe source (failed, c) = refl
socket_after-cbhe source (succeeded, c) = refl

pub enable_send-cbhe :
    (answers : Answers) (source : EndpointId) (address : SocketAddress) (c : Cla)
    → (enable_send answers source address c).1.uses_cbhe ≡ c.uses_cbhe
unfolding enable_send
enable_send-cbhe answers source address c = elim (Bool-cases (address_eq address no_address)) [
  | inl e ↦ rw e refl
  | inr e ↦ rw e (
      keep_send-cbhe source c.created _
      ∙ (call_all-SameMaps answers
          (binds c.created 0 ∷ connects c.created address ∷ shuts_down_recv c.created ∷ [])
          (record c { created = c.created + 1 })).2)
]

pub known_or_new-found :
    (answers : Answers) (source : EndpointId) (address : SocketAddress) (c : Cla) (o : Option ℕ)
    (socket : ℕ)
    → find_socket source c.send_sockets ≡ o
    → let r = known_or_new answers source address c o in
      r.0 ≡ some socket
      → (find_socket source r.1.send_sockets ≡ some socket) × (r.1.uses_cbhe ≡ c.uses_cbhe)
known_or_new-found answers source address c none socket before e = (
  socket_after-found source (enable_send answers source address c) socket e,
  socket_after-cbhe source (enable_send answers source address c)
      ∙ enable_send-cbhe answers source address c,
)
known_or_new-found answers source address c (some old) socket before e = (before ∙ e, refl)

pub send_on-succeeded :
    (packet : List ℕ) (r : Option ℕ × Cla) (c' : Cla)
    → send_on packet r ≡ (succeeded, c')
    → (socket : ℕ) × (r.0 ≡ some socket)
      × (c' ≡ record (r.1) { calls = r.1.calls ++ (sends_packet socket packet ∷ []) })
send_on-succeeded packet (none, c) c' e = let code = ap (λ (t : Code × Cla). t.0) e in absurd cc
send_on-succeeded packet (some socket, c) c' e =
    (socket, refl, sym (ap (λ (t : Code × Cla). t.1) e))

-- The calls that open a socket, and the layer after them.
abbrev opening : SocketAddress → Cla → List SocketCall
opening address c = binds c.created 0 ∷ connects c.created address ∷ shuts_down_recv c.created ∷ []

abbrev opened : EndpointId → SocketAddress → Cla → Cla
opened source address c = record c {
  send_sockets = c.send_sockets ++ ((source, c.created) ∷ []);
  created = c.created + 1;
  calls = (c.calls ++ opening address c) ++ (sets_tos c.created c.tos ∷ []);
}

keep_send-fresh :
    (source : EndpointId) (socket : ℕ) (c : Cla)
    → find_socket source c.send_sockets ≡ none
    → keep_send source socket (succeeded, c) ≡ (
      succeeded,
      record c {
        send_sockets = c.send_sockets ++ ((source, socket) ∷ []);
        calls = c.calls ++ (sets_tos socket c.tos ∷ []);
      },
    )
keep_send-fresh source socket c fresh = rw fresh refl

enable_send-opened :
    (answers : Answers) (source : EndpointId) (address : SocketAddress) (c : Cla)
    → find_socket source c.send_sockets ≡ none
    → address_eq address no_address ≡ false
    → ((call : SocketCall) → answers call ≡ true)
    → enable_send answers source address c ≡ (succeeded, opened source address c)
unfolding enable_send
enable_send-opened answers source address c fresh routed answered = rw routed (
    ap (keep_send source c.created) (
      call_all-answered answers (opening address c) (record c { created = c.created + 1 }) answered)
    ∙ keep_send-fresh source c.created _ fresh)

-- The primary header of a packet can be read, and its source has the id `source`.
pub record IsFrom {Time : Type 0} (zero_time : Time) (seconds : ℕ → Time) (unset : Unset)
    (cbhe : Bool) (packet : List ℕ) (source : EndpointId) : Type 0 where
  pub header : Header6 Time
  pub size : ℕ
  pub dest : EndpointId
  pub parsed :
      Wire.deserialize seconds (new_header6 zero_time unset cbhe) packet ≡ some (header, size)
  pub to : get_eid dst header ≡ some dest
  pub from : get_eid src header ≡ some source

module _ {Time : Type 0} (zero_time : Time) (seconds : ℕ → Time) (unset : Unset) where
  pub send_packet-IsFrom :
      (answers : Answers) (packet : List ℕ) (source : EndpointId) (address : SocketAddress)
      (c : Cla)
      → IsFrom zero_time seconds unset c.uses_cbhe packet source
      → send_packet zero_time seconds unset answers packet address c
        ≡ some (
            send_on packet
              (known_or_new answers source address c (find_socket source c.send_sockets)))
  unfolding send_packet get_l4_socket
  send_packet-IsFrom answers packet source address c from =
      rw from.parsed (rw (from.to, from.from) refl)

  pub send_packet-known :
      (answers : Answers) (packet : List ℕ) (source : EndpointId) (address : SocketAddress)
      (cbhe : Bool) (socket : ℕ) (c : Cla)
      → IsFrom zero_time seconds unset cbhe packet source
      → c.uses_cbhe ≡ cbhe
      → find_socket source c.send_sockets ≡ some socket
      → send_packet zero_time seconds unset answers packet address c
        ≡ some (succeeded, record c { calls = c.calls ++ (sends_packet socket packet ∷ []) })
  send_packet-known answers packet source address cbhe socket c from same known =
      send_packet-IsFrom answers packet source address c
        (subst (λ (b : Bool). IsFrom zero_time seconds unset b packet source) (sym same) from)
      ∙ ap (λ (o : Option ℕ). some (send_on packet (known_or_new answers source address c o))) known

  -- The first packet of a source, where all calls on sockets are answered without an error and the
  -- address is not the default one, opens a new socket, connects it to the address, and is sent.
  pub send_packet-IsFrom_new :
      (answers : Answers) (packet : List ℕ) (source : EndpointId) (address : SocketAddress)
      (c : Cla)
      → IsFrom zero_time seconds unset c.uses_cbhe packet source
      → find_socket source c.send_sockets ≡ none
      → address_eq address no_address ≡ false
      → ((call : SocketCall) → answers call ≡ true)
      → (c' : Cla) × (send_packet zero_time seconds unset answers packet address c
          ≡ some (succeeded, c'))
        × (find_socket source c'.send_sockets ≡ some c.created)
        × (c'.created ≡ c.created + 1)
        × (c'.calls ≡ (
            c.calls
            ++ (binds c.created 0
                ∷ connects c.created address
                ∷ shuts_down_recv c.created
                ∷ sets_tos c.created c.tos
                ∷ sends_packet c.created packet
                ∷ [])))
  send_packet-IsFrom_new answers packet source address c from fresh routed answered = (
    record (opened source address c) {
      calls = (opened source address c).calls ++ (sends_packet c.created packet ∷ []);
    },
    send_packet-IsFrom answers packet source address c from
        ∙ ap (λ (o : Option ℕ). some (send_on packet (known_or_new answers source address c o)))
            fresh
        ∙ ap (λ (r : Code × Cla). some (send_on packet (socket_after source r)))
            (enable_send-opened answers source address c fresh routed answered)
        ∙ ap (λ (o : Option ℕ). some (send_on packet (o, opened source address c)))
            (find_socket-added source c.created c.send_sockets fresh),
    find_socket-added source c.created c.send_sockets fresh,
    refl,
    simp append_assoc,
  )
