-- ===== src/Header6/Priority.antt =====
-- The priority that the processing flags carry.
use ns3_dtn.Prelude.{ℕ, zero, suc, ◌-◌, ◌*◌, ◌/◌, ◌%◌, ◌^◌, ◌≤◌, ◌<◌, ◌≡◌, ap, ◌∙◌, arith, true}
use ns3_dtn.Prelude.{bit_and, bit_or, min, max}
use ns3_dtn.Prelude.Bits.{bit, bit-le-one, bit-bit_or, bit-bit_and}
use ns3_dtn.Prelude.{Bool, false, sym, ◌==◌, refl}
use ns3_dtn.Prelude.Words.{
  ones, has_mask-bit, has_mask-put_mask, bit-put_mask, put_mask, thirty_two,
}
use ns3_dtn.Header.{reception_report, flag, set_flag, set_is_fragment}
use ns3_dtn.Header6.{Header6, bundle_priority, set_priority, priority, cust_tx_req}

abbrev seven_up : ℕ → ℕ
seven_up i = suc (suc (suc (suc (suc (suc (suc i))))))

-- Bit `i` of the eight bits above the lowest seven.
bit-field : (i x : ℕ) → i < 8 → bit i (x / 2 ^ 7 % 2 ^ 8) ≡ bit (seven_up i) x
bit-field zero x h = omega arith
bit-field (suc zero) x h = omega arith
bit-field (suc (suc zero)) x h = omega arith
bit-field (suc (suc (suc zero))) x h = omega arith
bit-field (suc (suc (suc (suc zero)))) x h = omega arith
bit-field (suc (suc (suc (suc (suc zero))))) x h = omega arith
bit-field (suc (suc (suc (suc (suc (suc zero)))))) x h = omega arith
bit-field (suc (suc (suc (suc (suc (suc (suc zero))))))) x h = omega arith
bit-field (suc (suc (suc (suc (suc (suc (suc (suc i)))))))) x h = absurd (omega arith)

-- A byte is the sum of its bits.
byte_of_bits : (x y : ℕ) → x < 256 → y < 256 → ((i : ℕ) → i < 8 → bit i x ≡ bit i y) → x ≡ y
byte_of_bits x y hx hy h = omega (
  arith,
  h 0 (omega arith),
  h 1 (omega arith),
  h 2 (omega arith),
  h 3 (omega arith),
  h 4 (omega arith),
  h 5 (omega arith),
  h 6 (omega arith),
  h 7 (omega arith),
)

-- The bits of a priority field `pri` that lie in `BUNDLE_PRIORITY`.
abbrev pub in_mask : ℕ → ℕ → ℕ
in_mask i pri = min (bit i pri) (bit i 0xEF)

module _ {Time : Type 0} (h : Header6 Time) where
  abbrev field : ℕ
  field = h.processing_flags / 2 ^ 7 % 2 ^ 8

  bit-priority : (i : ℕ) → i < 8 → bit i (priority h) ≡ in_mask i field
  unfolding priority
  bit-priority i hi = omega (
    arith,
    bit-field i (bit_and h.processing_flags bundle_priority) hi,
    bit-bit_and (seven_up i) h.processing_flags bundle_priority,
    bit-field i h.processing_flags hi,
  )

  shifted : (i pri : ℕ) → bit (seven_up i) (pri * 2 ^ 7) ≡ bit i pri
  shifted i pri = ap (bit i) (omega arith)

  bit-field_set :
      (i pri : ℕ)
      → i < 8
      → bit (seven_up i) (set_priority pri h).processing_flags ≡ max (bit i field) (bit i pri)
  unfolding set_priority
  bit-field_set i pri hi = omega (
    arith,
    bit-bit_or (seven_up i) h.processing_flags
        (bit_or (bit_and h.processing_flags (ones 32 - bundle_priority)) (pri * 2 ^ 7)),
    bit-bit_or (seven_up i) (bit_and h.processing_flags (ones 32 - bundle_priority)) (pri * 2 ^ 7),
    bit-bit_and (seven_up i) h.processing_flags (ones 32 - bundle_priority),
    bit-field i h.processing_flags hi,
    shifted i pri,
  )

priority-lt : {Time : Type 0} (h : Header6 Time) → priority h < 256
unfolding priority
priority-lt h = omega arith

-- `SetPriority` adds the bits of its argument to the priority that the header has, and clears none:
-- each of the eight bits that `Priority` returns is then set if it was set before, or if the
-- argument and `BUNDLE_PRIORITY` both have it.
pub bit-priority-set_priority :
    {Time : Type 0} (h : Header6 Time) (pri i : ℕ)
    → i < 8
    → bit i (priority (set_priority pri h)) ≡ max (bit i (priority h)) (in_mask i pri)
bit-priority-set_priority h pri i hi = omega (
  arith,
  bit-priority h i hi,
  bit-priority (set_priority pri h) i hi,
  bit-field i (set_priority pri h).processing_flags hi,
  bit-field_set h i pri hi,
  bit-le-one i 0xEF,
)

-- So the priority reads as it was set on a header of priority 0, for the three priorities of the
-- enumeration and the unused one.
pub priority-set_priority :
    {Time : Type 0} (h : Header6 Time) (pri : ℕ)
    → priority h ≡ 0
    → pri < 4
    → priority (set_priority pri h) ≡ pri
priority-set_priority h pri e hp =
    byte_of_bits _ pri (priority-lt (set_priority pri h)) (omega arith) bits
  where
    low : (i : ℕ) → i < 8 → max (bit i 0) (in_mask i pri) ≡ bit i pri
    low zero hi = omega arith
    low (suc zero) hi = omega arith
    low (suc (suc zero)) hi = omega arith
    low (suc (suc (suc zero))) hi = omega arith
    low (suc (suc (suc (suc zero)))) hi = omega arith
    low (suc (suc (suc (suc (suc zero))))) hi = omega arith
    low (suc (suc (suc (suc (suc (suc zero)))))) hi = omega arith
    low (suc (suc (suc (suc (suc (suc (suc zero))))))) hi = omega arith
    low (suc (suc (suc (suc (suc (suc (suc (suc i)))))))) hi = absurd (omega arith)

    bits : (i : ℕ) → i < 8 → bit i (priority (set_priority pri h)) ≡ bit i pri
    bits i hi = bit-priority-set_priority h pri i hi ∙ rw e (low i hi)

-- A bundle that asks for reception reports has a priority of 128 or more that nobody set: their
-- flag is one of the bits of `BUNDLE_PRIORITY`.
pub priority-of_reception_report :
    {Time : Type 0} (h : Header6 Time) → reception_report h.base ≡ true → 128 ≤ priority h
unfolding flag
priority-of_reception_report h e = omega (
  arith,
  reported,
  bit-priority h 7 (omega arith),
  bit-field 7 h.processing_flags (omega arith),
  priority-lt h,
)
  where
    reported : bit 14 h.processing_flags ≡ 1
    reported = ground (arith, has_mask-bit 14 h.processing_flags)

-- Bit 0, the flag of a fragment, is none of the bits of the priority.
seven_up-apart : (i : ℕ) → i < 8 → (0 == seven_up i) ≡ false
seven_up-apart i hi = ground arith

bit-field_kept :
    (value : Bool) (word i : ℕ)
    → i < 8
    → bit i (put_mask 32 (2 ^ 0) value word / 2 ^ 7 % 2 ^ 8) ≡ bit i (word / 2 ^ 7 % 2 ^ 8)
bit-field_kept value word i hi =
    bit-field i (put_mask 32 (2 ^ 0) value word) hi
    ∙ bit-put_mask (thirty_two refl) 0 (seven_up i) (omega arith) (omega arith) value word
    ∙ rw (seven_up-apart i hi) (sym (bit-field i word hi))

-- The priority is independent of the flag of a fragment.
pub priority-set_is_fragment :
    {Time : Type 0} (value : Bool) (h : Header6 Time)
    → priority (record h { base = set_is_fragment value h.base }) ≡ priority h
unfolding set_flag
priority-set_is_fragment value h = byte_of_bits _ _ (priority-lt _) (priority-lt h) (λ i hi.
    bit-priority _ i hi
    ∙ ap (λ (t : ℕ). min t (bit i 0xEF)) (bit-field_kept value h.processing_flags i hi)
    ∙ sym (bit-priority h i hi))

-- So is the flag that asks for custody transfer.
pub cust_tx_req-set_is_fragment :
    {Time : Type 0} (value : Bool) (h : Header6 Time)
    → cust_tx_req (record h { base = set_is_fragment value h.base }) ≡ cust_tx_req h
unfolding set_flag cust_tx_req
cust_tx_req-set_is_fragment value h =
    has_mask-put_mask (thirty_two refl) 0 3 (omega arith) (omega arith) value h.processing_flags
