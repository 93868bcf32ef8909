-- ===== src/Header/Flags.antt =====
-- The processing flags are independent of one another.
use ns3_dtn.Prelude.{◌<◌, ◌≡◌, refl, Bool, true, false, arith}
use ns3_dtn.Prelude.{◌==◌, if◌then◌else◌}
use ns3_dtn.Prelude.Words.{has_mask-put_mask, thirty_two}
use ns3_dtn.Header.{
  Header, Flag, bundle_is_fragment, bundle_is_admin, bundle_do_not_fragment, bundle_ack_by_app,
  req_report_bundle_reception, req_report_bundle_forward, req_report_bundle_delivery,
  req_report_bundle_deletion, shift, set_flag, flag,
}

-- Whether two values of the enumeration are the same.
abbrev pub same_flag : Flag → Flag → Bool
same_flag bundle_is_fragment bundle_is_fragment = true
same_flag bundle_is_admin bundle_is_admin = true
same_flag bundle_do_not_fragment bundle_do_not_fragment = true
same_flag bundle_ack_by_app bundle_ack_by_app = true
same_flag req_report_bundle_reception req_report_bundle_reception = true
same_flag req_report_bundle_forward req_report_bundle_forward = true
same_flag req_report_bundle_delivery req_report_bundle_delivery = true
same_flag req_report_bundle_deletion req_report_bundle_deletion = true
same_flag f g = false

-- No two have the same bit.
same_flag-shift : (f g : Flag) → same_flag f g ≡ (shift f == shift g)
same_flag-shift f g = ground arith

shift-lt : (f : Flag) → shift f < 32
shift-lt f = ground arith

-- After a setter of a flag its getter returns the value that was set, every other getter of a flag
-- returns what it returned before, and the fields beside the flags are unchanged.
pub flag-set_flag :
    {Time : Type 0} (f g : Flag) (value : Bool) (h : Header Time)
    → (flag g (set_flag f value h) ≡ (if same_flag f g then value else flag g h))
      × (record (set_flag f value h) { processing_flags = h.processing_flags } ≡ h)
unfolding flag set_flag
flag-set_flag f g value h = (
  rw (same_flag-shift f g) (
      has_mask-put_mask (thirty_two refl) (shift f) (shift g) (shift-lt f) (shift-lt g) value
        h.processing_flags),
  refl,
)
