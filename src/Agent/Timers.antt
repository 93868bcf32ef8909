-- ===== src/Agent/Timers.antt =====
-- model/bp-bundle.cc and bp-bundle-6.cc: the two events that a bundle keeps, `expireEvent` and
-- `nextRetrans`, with what `Store` and `Forward` schedule and what cancels them.
use ns3_dtn.Prelude.{
  ℕ, Bool, true, false, not, ◌&&◌, ◌≡◌, ◌⊎◌, arith, refl, inl, inr, Option, none, some,
}
use ns3_dtn.Prelude.{if◌then◌else◌, Bool-cases}
use ns3_dtn.BundleStore.{BundleStore, View, TimeApi, store}

-- Whether each event is running.
pub record Timers : Type 0 where
  pub expire_event : Bool
  pub next_retrans : Bool

-- Of a new bundle.
abbrev pub no_timers : Timers
no_timers = record { expire_event = false; next_retrans = false }

module _ {Time : Type 0} (t : TimeApi Time) where
  -- What `Store` and `Forward` schedule.
  abbrev pub after_store : Option Time → Timers → Timers
  after_store none e = e
  after_store (some delay) e = record e { expire_event = true }

  abbrev pub after_forward : Bool → Timers → Timers
  after_forward retransmission e = if retransmission then record e { next_retrans = true } else e

  -- `Bundle::ClearEvents` and `Bundle6::ClearEvents`, of a bundle with a lifetime that asks for
  -- custody transfer or not.
  abbrev clear_expire : Time → Timers → Timers
  clear_expire life e =
      if not (t.is_zero life) && e.expire_event then record e { expire_event = false } else e

  unfoldable pub clear_events : Time → Bool → Timers → Timers
  clear_events life custody e =
      let e = clear_expire life e in
      if custody && e.next_retrans then record e { next_retrans = false } else e

  -- `DoDispose` of both, which removes the events without a test.
  abbrev dispose_expire : Time → Timers → Timers
  dispose_expire life e = if not (t.is_zero life) then record e { expire_event = false } else e

  unfoldable pub dispose_events : Time → Bool → Timers → Timers
  dispose_events life custody e =
      let e = dispose_expire life e in if custody then record e { next_retrans = false } else e

  -- Only a bundle with a lifetime has an event of its end.
  store-expire :
      (look : ℕ → View Time) (seq_lt : ℕ → ℕ → Bool) (now : Time) (b : ℕ) (s : BundleStore)
      → ((store look seq_lt t now b s).1 ≡ none) ⊎ (t.is_zero (look b).life_time ≡ false)
  unfolding store
  store-expire look seq_lt now b s = elim (Bool-cases (t.is_zero (look b).life_time)) [
    | inl e ↦ inl (rw e refl)
    | inr e ↦ inr e
  ]

  cancelled :
      (life : Time) (custody : Bool) (delay : Option Time)
      → (delay ≡ none) ⊎ (t.is_zero life ≡ false)
      → (let e = after_forward custody (after_store delay no_timers) in
          (clear_events life custody e ≡ no_timers) × (dispose_events life custody e ≡ no_timers))
  unfolding clear_events dispose_events
  cancelled life true none h = ground arith
  cancelled life false none h = ground arith
  cancelled life true (some delay) h = ground arith
  cancelled life false (some delay) h = ground arith

  -- The events that `Store` and a round of `Forward` with a ready layer schedule for a new bundle
  -- are both cancelled by `ClearEvents`, and both removed by `DoDispose`.
  clear_events-store :
      (look : ℕ → View Time) (seq_lt : ℕ → ℕ → Bool) (now : Time) (b : ℕ) (s : BundleStore)
      (custody : Bool)
      → (let e = after_forward custody (after_store (store look seq_lt t now b s).1 no_timers) in
          (clear_events (look b).life_time custody e ≡ no_timers)
          × (dispose_events (look b).life_time custody e ≡ no_timers))
  clear_events-store look seq_lt now b s custody =
      cancelled (look b).life_time custody (store look seq_lt t now b s).1
        (store-expire look seq_lt now b s)
