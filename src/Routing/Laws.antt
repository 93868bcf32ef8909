-- ===== src/Routing/Laws.antt =====
-- The routes as a map from destinations to lists, and the order in which routes are used.
use ns3_dtn.Prelude.{ℕ, ◌≡◌, refl, ap, ◌∙◌, Bool, true, false, arith}
use ns3_dtn.Prelude.{List, [], ◌∷◌, ◌++◌, Option, none, some, if◌then◌else◌, bytes_eq_iff, ◌>>=◌}
use ns3_dtn.Prelude.{All}
use ns3_dtn.EndpointId.{EndpointId, eid_eq, default_eid}
use ns3_dtn.Routing.{
  Route, Routes, find, put, add_route, routes_or_new, first_up, chosen, next_hop_eid, hop_of,
  matches, mark_first, mark_route, down_route,
}

find-put :
    (k q : EndpointId) (rs : List Route) (m : Routes)
    → find q (put k rs m) ≡ (if eid_eq k q then some rs else find q m)
unfolding find put
find-put k q rs [] = refl
find-put k q rs ((j, old) ∷ m) = ground (
  arith,
  bytes_eq_iff k.uri q.uri,
  bytes_eq_iff j.uri q.uri,
  bytes_eq_iff j.uri k.uri,
  find-put k q rs m,
)

first_up-append :
    (rs ss : List Route)
    → first_up (rs ++ ss) ≡ (elim (first_up rs) [ none ↦ first_up ss | some r ↦ some r ])
unfolding first_up
first_up-append [] ss = refl
first_up-append (r ∷ rs) ss = ground (arith, first_up-append rs ss)

usable-append :
    (o : Option (List Route)) (r : Route)
    → first_up (routes_or_new o ++ (r ∷ []))
      ≡ (elim (o >>= first_up) [ none ↦ if r.up then some r else none | some q ↦ some q ])
unfolding first_up
usable-append none r = refl
usable-append (some rs) r = first_up-append rs (r ∷ []) ∙ ground arith

chosen-put :
    (k q : EndpointId) (rs : List Route) (m : Routes)
    → chosen q (put k rs m) ≡ (if eid_eq k q then first_up rs else chosen q m)
unfolding chosen
chosen-put k q rs m = rw (find-put k q rs m) (ground arith)

first_up-added :
    (dst : EndpointId) (m : Routes) (r : Route)
    → first_up (routes_or_new (find dst m) ++ (r ∷ []))
      ≡ (elim (chosen dst m) [ none ↦ if r.up then some r else none | some q ↦ some q ])
unfolding chosen
first_up-added dst m r = usable-append (find dst m) r

-- `AddRoute` puts its route behind those of the same destination: a destination that had a usable
-- route keeps its next hop, one that had none gets the new route if it is up, and no other
-- destination changes.
pub next_hop_eid-add_route :
    (dst nxt : EndpointId) (up : Bool) (addr port : ℕ) (cla : Option ℕ) (label : Option (List ℕ))
    (q : EndpointId) (m : Routes)
    → next_hop_eid q (add_route dst nxt up addr port cla label m) ≡ (
        if eid_eq dst q
        then (elim (chosen dst m) [ none ↦ if up then nxt else default_eid | some r ↦ r.nxt_hop ])
        else next_hop_eid q m)
unfolding next_hop_eid add_route
next_hop_eid-add_route dst nxt up addr port cla label q m =
    rw (chosen-put, first_up-added) (ground arith)

abbrev pub NoMatch : EndpointId → Option (List ℕ) → List Route → Type 0
NoMatch nxt label = All (λ r. matches nxt label r ≡ false)

mark_first-split :
    (value : Bool) (nxt : EndpointId) (label : Option (List ℕ)) (front : List Route) (r : Route)
    (back : List Route)
    → NoMatch nxt label front
    → matches nxt label r ≡ true
    → mark_first value nxt label (front ++ (r ∷ back)) ≡ front ++ (record r { up = value } ∷ back)
unfolding mark_first
mark_first-split value nxt label [] r back h hit = rw hit
mark_first-split value nxt label (x ∷ front) r back h hit =
    ground (arith, mark_first-split value nxt label front r back h.1 hit)

mark_first-none :
    (value : Bool) (nxt : EndpointId) (label : Option (List ℕ)) (rs : List Route)
    → NoMatch nxt label rs
    → mark_first value nxt label rs ≡ rs
unfolding mark_first
mark_first-none value nxt label [] h = refl
mark_first-none value nxt label (x ∷ rs) h = ground (arith, mark_first-none value nxt label rs h.1)

-- `UpRoute` and `DownRoute` on a destination that is known change the first of its routes that
-- matches, in its `up` only: the routes before it and behind it stay, in their order, and so does
-- the list of every other destination.
pub find-mark_route :
    (value : Bool) (dst nxt : EndpointId) (label : Option (List ℕ)) (front : List Route) (r : Route)
    (back : List Route) (m : Routes)
    → find dst m ≡ some (front ++ (r ∷ back))
    → NoMatch nxt label front
    → matches nxt label r ≡ true
    → (m' : Routes) × (mark_route value dst nxt label m ≡ some m')
      × ((q : EndpointId)
          → find q m'
            ≡ (if eid_eq dst q then some (front ++ (record r { up = value } ∷ back)) else find q m))
unfolding mark_route
find-mark_route value dst nxt label front r back m known h hit = (
  put dst (front ++ (record r { up = value } ∷ back)) m,
  rw (known) (rw (mark_first-split value nxt label front r back h hit)),
  λ q. find-put dst q (front ++ (record r { up = value } ∷ back)) m,
)

first_up-down :
    (front back : List Route) (r : Route)
    → first_up front ≡ none
    → first_up (front ++ (record r { up = false } ∷ back)) ≡ first_up back
unfolding first_up
first_up-down [] back r h = refl
first_up-down (x ∷ front) back r h = ground (arith, first_up-down front back r)

-- A fail-over: when the route that a destination uses is taken down, the next hop is that of the
-- first usable route behind it, or "dtn:none" where there is none.
pub next_hop_eid-down_route :
    (dst nxt : EndpointId) (label : Option (List ℕ)) (front : List Route) (r : Route)
    (back : List Route) (m : Routes)
    → find dst m ≡ some (front ++ (r ∷ back))
    → first_up front ≡ none
    → NoMatch nxt label front
    → matches nxt label r ≡ true
    → (m' : Routes) × (down_route dst nxt label m ≡ some m')
      × (next_hop_eid dst m' ≡ hop_of (first_up back))
unfolding next_hop_eid chosen
next_hop_eid-down_route dst nxt label front r back m known unused h hit =
    let (m', done, finds) = find-mark_route false dst nxt label front r back m known h hit in
    (
      m',
      done,
      ap (λ (o : Option (List Route)). hop_of (o >>= first_up)) (finds dst ∙ here)
          ∙ ap hop_of (first_up-down front back r unused),
    )
  where
    here :
        (if eid_eq dst dst then some (front ++ (record r { up = false } ∷ back)) else find dst m)
        ≡ some (front ++ (record r { up = false } ∷ back))
    here = ground (arith, bytes_eq_iff dst.uri dst.uri)
