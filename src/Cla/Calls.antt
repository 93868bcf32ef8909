-- ===== src/Cla/Calls.antt =====
-- Calls on sockets one after the other, and the maps of sockets.
use ns3_dtn.Prelude.{
  ℕ, ◌≡◌, inl, inr, refl, ap, sym, ◌∙◌, arith, true, Bool-cases, List, [], ◌∷◌, ◌++◌, none, some,
  bytes_eq_iff,
}
use mathlib.Core.List.{append_assoc, append-nil}
use ns3_dtn.EndpointId.{EndpointId}
use ns3_dtn.Agent.{succeeded}
use ns3_dtn.Cla.{Cla, SocketCall, Answers, find_socket, call_all}

-- Only the calls differ.
abbrev pub SameMaps : Cla → Cla → Type 0
SameMaps c c' =
    (c'.send_sockets ≡ c.send_sockets)
    × (c'.recv_sockets ≡ c.recv_sockets)
    × (c'.uses_cbhe ≡ c.uses_cbhe)

pub call_all-SameMaps :
    (answers : Answers) (calls : List SocketCall) (c : Cla)
    → SameMaps c (call_all answers calls c).1
unfolding call_all
call_all-SameMaps answers [] c = (refl, refl, refl)
call_all-SameMaps answers (call ∷ more) c = elim (Bool-cases (answers call)) [
  | inl e ↦ rw e (call_all-SameMaps answers more _)
  | inr e ↦ rw e (refl, refl, refl)
]

pub find_socket-added :
    (eid : EndpointId) (socket : ℕ) (m : List (EndpointId × ℕ))
    → find_socket eid m ≡ none
    → find_socket eid (m ++ ((eid, socket) ∷ [])) ≡ some socket
unfolding find_socket
find_socket-added eid socket [] fresh = ground (arith, bytes_eq_iff eid.uri eid.uri)
find_socket-added eid socket ((k, s) ∷ m) fresh =
    ground (arith, bytes_eq_iff k.uri eid.uri, find_socket-added eid socket m)

pub call_all-answered :
    (answers : Answers) (calls : List SocketCall) (c : Cla)
    → ((call : SocketCall) → answers call ≡ true)
    → call_all answers calls c ≡ (succeeded, record c { calls = c.calls ++ calls })
unfolding call_all
call_all-answered answers [] c answered =
    ap (λ (done : List SocketCall). (succeeded, record c { calls = done }))
      (sym (append-nil c.calls))
call_all-answered answers (call ∷ more) c answered = rw (answered call) (
    call_all-answered answers more _ answered
    ∙ ap (λ (done : List SocketCall). (succeeded, record c { calls = done }))
        (append_assoc c.calls (call ∷ []) more))
