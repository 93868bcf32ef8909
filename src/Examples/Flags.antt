-- ===== src/Examples/Flags.antt =====
-- Flags and priorities of concrete headers.
use ns3_dtn.Prelude.{ℕ, ◌*◌, true, ◌^◌, ◌≡◌, arith, max}
use ns3_dtn.Prelude.Bits.{bit}
use ns3_dtn.Header
use ns3_dtn.Header.Flags.{flag-set_flag}
use ns3_dtn.Header6.{Header6, priority, set_priority, with_flags}
use ns3_dtn.Header6.Priority.{bit-priority-set_priority, in_mask}
use ns3_dtn.Examples.Data.{sample, fresh}

flag-set_flag_example :
    (Header.flag Header.bundle_is_admin (Header.set_flag Header.bundle_is_fragment true sample.base)
      ≡ Header.flag Header.bundle_is_admin sample.base)
    × (record (Header.set_flag Header.bundle_is_fragment true sample.base) {
      processing_flags = sample.base.processing_flags;
    }
        ≡ sample.base)
flag-set_flag_example =
    flag-set_flag Header.bundle_is_fragment Header.bundle_is_admin true sample.base

-- A header of the highest priority, 2, which stays when 1 is set.
abbrev urgent : Header6 ℕ
urgent = with_flags (2 * 2 ^ 7) fresh

bit-priority-set_priority_example :
    bit 1 (priority (set_priority 1 urgent)) ≡ max (bit 1 (priority urgent)) (in_mask 1 1)
bit-priority-set_priority_example = bit-priority-set_priority urgent 1 1 (omega arith)
