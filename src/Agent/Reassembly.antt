-- ===== src/Agent/Reassembly.antt =====
-- Fragments that arrive in order at the node where their application is registered.
pub mod Arrival
pub mod Whole
pub mod Sequence
pub mod Delivered
pub mod Pieces
pub mod Across
use ns3_dtn.Prelude.{
  ℕ, ◌+◌, ◌%◌, ◌^◌, ◌<◌, ◌≤◌, ◌≡◌, ◌⊎◌, Bool, true, false, List, [], ◌∷◌, Option, some, none, ◌>>=◌,
  length, not, ◌==◌,
}
use ns3_dtn.EndpointId.{EndpointId, eid_eq}
use ns3_dtn.Header.{is_fragment}
use ns3_dtn.Header6.{Header6, Unset, src, dst, priority, cust_tx_req}
use ns3_dtn.Header6.Dictionary.{get_eid}
use ns3_dtn.Registration.{RegisterInfo, find_info}
use ns3_dtn.Forward.{Bundle6}
use ns3_dtn.Agent.{Simulator, Agent}
use ns3_dtn.Agent.Receiving.{process_bundle}

-- A bundle is stored at the time `now`: it never expires, or has not yet expired.
abbrev pub IsAlive : {Time : Type 0} → Simulator Time → Time → Header6 Time → Type 0
IsAlive sim now h =
    (sim.clock.is_zero h.life_time ≡ true)
    ⊎ (sim.clock.is_positive
          (sim.clock.sub (sim.clock.add (sim.clock.seconds h.create_timestamp) h.life_time) now)
        ≡ true)

module _ {Time : Type 0} where
  -- A header of the same bundle as `x`, from `source` to `dest`, without custody transfer.
  pub record Agrees (source dest : EndpointId) (x y : Header6 Time) : Type 0 where
    pub same_priority : priority y ≡ priority x
    pub same_timestamp : y.create_timestamp ≡ x.create_timestamp
    pub same_number : y.timestamp_seq_num ≡ x.timestamp_seq_num
    pub same_length : y.adu_length ≡ x.adu_length
    pub from : get_eid src y ≡ some source
    pub to : get_eid dst y ≡ some dest
    pub no_custody : cust_tx_req y ≡ false

  -- A fragment of that bundle whose data starts at `at`.
  pub record IsPiece (source dest : EndpointId) (x : Header6 Time) (at : ℕ) (y : Bundle6 Time)
      : Type 0 where
    pub agrees : Agrees source dest x y.header
    pub fragment : is_fragment y.header.base ≡ true
    pub offset : y.header.frag_offset ≡ at
    pub some_bytes : 1 ≤ length y.adu
    pub within : at + length y.adu ≤ x.adu_length

  -- The bundles that arrive, with their times, are fragments that follow one another.
  abbrev pub InOrder :
      Simulator Time
      → EndpointId
      → EndpointId
      → Header6 Time
      → ℕ
      → List (Time × Bundle6 Time)
      → Type 0
  InOrder sim source dest x at [] = Unit {0}
  InOrder sim source dest x at ((now, y) ∷ ys) =
      IsPiece source dest x at y
      × IsAlive sim now y.header
      × InOrder sim source dest x (at + length y.adu) ys

  -- The agent holds the first `length bytes` bytes of the bundle, at `p`, and nothing else.
  pub record HoldsPrefix (source dest : EndpointId) (x : Header6 Time) (p : ℕ) (bytes : List ℕ)
      (a : Agent Time) : Type 0 where
    pub set : a.bundle_store.m_store ≡ p ∷ []
    pub known : p < a.unused
    pub agrees : Agrees source dest x (a.heap p).header
    pub from_start : (a.heap p).header.frag_offset ≡ 0
    pub some_held : 1 ≤ length bytes
    pub within : length bytes ≤ x.adu_length
    pub bytes_held : (a.heap p).adu ≡ bytes
    pub flag : is_fragment (a.heap p).header.base ≡ not (length bytes == x.adu_length)

  -- The destination is registered and active, and is not the agent's own id.
  pub record IsLocal (dest : EndpointId) (info : RegisterInfo Time) (a : Agent Time) : Type 0 where
    pub registered : find_info dest a.registration ≡ some info
    pub active : info.state ≡ true
    pub not_agent : eid_eq dest a.eid ≡ false

  -- `ProcessBundle` of each in turn.
  unfoldable pub receive_all :
      Simulator Time → Unset → ℕ → List (Time × Bundle6 Time) → Agent Time → Option (Agent Time)
  receive_all sim unset status [] a = some a
  receive_all sim unset status ((now, y) ∷ ys) a =
      process_bundle sim unset status now y a >>= receive_all sim unset status ys
