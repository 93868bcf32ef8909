-- ===== src/Cla/Reception.antt =====
-- When receiving can be enabled.
use ns3_dtn.Prelude.{ℕ, ◌+◌, ◌≡◌, refl, ap, ◌∙◌, [], ◌∷◌, Option, none, some}
use ns3_dtn.EndpointId.{EndpointId}
use ns3_dtn.Agent.{Code, succeeded, failed}
use ns3_dtn.Cla.{
  Cla, binds, closes, Answers, find_socket, call_all, keep_recv, udp_enable_receive,
  disable_receive, close_found,
}
use ns3_dtn.Cla.Calls.{SameMaps, call_all-SameMaps}

-- `EnableReceive` for an id that has a socket fails and leaves the map.
keep_recv-known :
    (eid : EndpointId) (socket old : ℕ) (code : Code) (c : Cla)
    → find_socket eid c.recv_sockets ≡ some old
    → ((keep_recv eid socket (code, c)).0 ≡ failed)
      × ((keep_recv eid socket (code, c)).1.recv_sockets ≡ c.recv_sockets)
keep_recv-known eid socket old failed c known = (refl, refl)
keep_recv-known eid socket old succeeded c known = rw known (refl, refl)

disable_receive-SameMaps :
    (answers : Answers) (o : Option ℕ) (c : Cla) → SameMaps c (close_found answers o c).1
disable_receive-SameMaps answers none c = (refl, refl, refl)
disable_receive-SameMaps answers (some socket) c = call_all-SameMaps answers (closes socket ∷ []) c

-- Once a UDP layer has a receiving socket for an id, `DisableReceive` leaves it in the map, closed,
-- so that `EnableReceive` for the id fails from then on, whatever the socket calls answer.
pub udp_enable_receive-disable_receive :
    (answers : Answers) (eid : EndpointId) (socket : ℕ) (c : Cla)
    → find_socket eid c.recv_sockets ≡ some socket
    → let c' = (disable_receive answers eid c).1 in
      ((udp_enable_receive answers eid c').0 ≡ failed)
      × ((udp_enable_receive answers eid c').1.recv_sockets ≡ c.recv_sockets)
unfolding udp_enable_receive disable_receive
udp_enable_receive-disable_receive answers eid socket c known =
    let (fails, stays) = keep_recv-known eid _ socket _ _ (ap (find_socket eid) same ∙ known) in
    (fails, stays ∙ same)
  where
    c' : Cla
    c' = (close_found answers (find_socket eid c.recv_sockets) c).1

    same :
        (call_all answers
          (binds c'.created 4556 ∷ [])
          (record c' { created = c'.created + 1 })).1.recv_sockets
        ≡ c.recv_sockets
    same =
        (call_all-SameMaps answers (binds c'.created 4556 ∷ [])
          (record c' { created = c'.created + 1 })).1
        ∙ (disable_receive-SameMaps answers (find_socket eid c.recv_sockets) c).1
