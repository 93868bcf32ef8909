-- ===== src/Routing.antt =====
-- model/bp-static-routing-agent.cc: routes by destination. A `std::map` with the order of URIs is
-- an association list whose keys are compared by URI; a CLA is its address, and `none` a null
-- pointer. `none` as the result of a change is a dereference of the map's end.
pub mod Laws
use ns3_dtn.Prelude.{
  ℕ, ◌+◌, ◌*◌, ◌^◌, Bool, true, false, ◌&&◌, ◌||◌, List, [], ◌∷◌, ◌++◌, Option, none, some,
}
use ns3_dtn.Prelude.{if◌then◌else◌, bytes_eq, ◌>>=◌}
use ns3_dtn.EndpointId.{EndpointId, eid_eq, default_eid}

pub record SocketAddress : Type 0 where
  pub ip : ℕ
  pub port : ℕ

-- `InetSocketAddress ("127.0.0.1", 0)`
abbrev pub no_address : SocketAddress
no_address = record { ip = 127 * 2 ^ 24 + 1; port = 0 }

-- `struct dtnRoute`
pub record Route : Type 0 where
  pub dst_eid : EndpointId
  pub nxt_hop : EndpointId
  pub up : Bool
  pub addr : ℕ
  pub port : ℕ
  pub cla : Option ℕ
  pub note : List ℕ

-- "(none)"
abbrev pub no_note : List ℕ
no_note = b'(' ∷ b'n' ∷ b'o' ∷ b'n' ∷ b'e' ∷ b')' ∷ []

-- `m_routes`
abbrev pub Routes : Type 0
Routes = List (EndpointId × List Route)

unfoldable pub find : EndpointId → Routes → Option (List Route)
find eid [] = none
find eid ((k, rs) ∷ m) = let rest = find eid m in if eid_eq k eid then some rs else rest

-- `m_routes[dst] = routes`
unfoldable pub put : EndpointId → List Route → Routes → Routes
put eid rs [] = (eid, rs) ∷ []
put eid rs ((k, old) ∷ m) =
    let rest = put eid rs m in if eid_eq k eid then (k, rs) ∷ m else (k, old) ∷ rest

abbrev note_or : Option (List ℕ) → List ℕ
note_or none = no_note
note_or (some n) = n

-- The list that a new route is added to.
abbrev pub routes_or_new : Option (List Route) → List Route
routes_or_new none = []
routes_or_new (some rs) = rs

unfoldable pub add_route :
    EndpointId → EndpointId → Bool → ℕ → ℕ → Option ℕ → Option (List ℕ) → Routes → Routes
add_route dst nxt up addr port cla label m =
    let r : Route = record {
      dst_eid = dst;
      nxt_hop = nxt;
      up = up;
      addr = addr;
      port = port;
      cla = cla;
      note = note_or label;
    } in
    put dst (routes_or_new (find dst m) ++ (r ∷ [])) m

-- The loop of the three lookups.
unfoldable pub first_up : List Route → Option Route
first_up [] = none
first_up (r ∷ rs) = let rest = first_up rs in if r.up then some r else rest

-- The route that a lookup uses.
unfoldable pub chosen : EndpointId → Routes → Option Route
unfolding find first_up
chosen eid m = find eid m >>= first_up

-- What the lookups return from the route, and without one.
abbrev pub address_of : Option Route → SocketAddress
address_of none = no_address
address_of (some r) = record { ip = r.addr; port = r.port }

abbrev pub hop_of : Option Route → EndpointId
hop_of none = default_eid
hop_of (some r) = r.nxt_hop

abbrev pub cla_of : Option Route → Option ℕ
cla_of none = none
cla_of (some r) = r.cla

unfoldable pub get_route : EndpointId → Routes → SocketAddress
get_route eid m = address_of (chosen eid m)

unfoldable pub next_hop_eid : EndpointId → Routes → EndpointId
next_hop_eid dst m = hop_of (chosen dst m)

unfoldable pub next_hop_cla : EndpointId → Routes → Option ℕ
next_hop_cla eid m = cla_of (chosen eid m)

-- The test of the loops of `UpRoute` and `DownRoute`.
abbrev note_matches : Option (List ℕ) → List ℕ → Bool
note_matches none n = true
note_matches (some text) n = bytes_eq n text

unfoldable pub matches : EndpointId → Option (List ℕ) → Route → Bool
matches nxt label r = eid_eq r.nxt_hop nxt && note_matches label r.note

-- The loops: the first route that matches is marked, and they end there.
unfoldable pub mark_first : Bool → EndpointId → Option (List ℕ) → List Route → List Route
mark_first value nxt label [] = []
mark_first value nxt label (r ∷ rs) =
    let rest = mark_first value nxt label rs in
    if matches nxt label r then record r { up = value } ∷ rs else r ∷ rest

-- The body that `UpRoute` and `DownRoute` share.
unfoldable pub mark_route :
    Bool → EndpointId → EndpointId → Option (List ℕ) → Routes → Option Routes
mark_route value dst nxt label m =
    find dst m >>= λ rs. some (put dst (mark_first value nxt label rs) m)

abbrev pub up_route : EndpointId → EndpointId → Option (List ℕ) → Routes → Option Routes
up_route = mark_route true

abbrev pub down_route : EndpointId → EndpointId → Option (List ℕ) → Routes → Option Routes
down_route = mark_route false
