-- ===== src/Controller/Output/Accounts.antt =====
-- How the status counts the packets of an emission.
use Prim.Native.String.{String}
use pose_bridge.Prelude.{◌+◌, ◌≤◌, ◌≡◌, Bool, true, false}
use pose_bridge.Model.{Result, ok, err}
use pose_bridge.Osc.Sender.{Sender}
use pose_bridge.Dolby
use pose_bridge.Controller.{StatusSnapshot}

-- An answer of the sender: a packet is numbered exactly when it is delivered, and otherwise counts as
-- one error at most.
abbrev IsAnswer : Sender → Sender × Result Bool → Type 0
IsAnswer s (t, ok true) = (t.tx_seq ≡ s.tx_seq + 1) × (t.errors ≡ s.errors)
IsAnswer s (t, ok false) = (t.tx_seq ≡ s.tx_seq) × (s.errors ≤ t.errors) × (t.errors ≤ s.errors + 1)
IsAnswer s (t, err e) = (t.tx_seq ≡ s.tx_seq) × (s.errors ≤ t.errors) × (t.errors ≤ s.errors + 1)

module _ {F : Type 0} where
  -- The packets of the status and of the sender agree, and an emission counts one packet at most, as
  -- sent or as failed.
  abbrev pub IsAccount : StatusSnapshot F → Sender → Sender × StatusSnapshot F → Type 0
  IsAccount t s (s', t') =
      (t'.osc_sent + s.tx_seq ≡ t.osc_sent + s'.tx_seq)
      × (t'.osc_sent + t'.send_errors ≤ t.osc_sent + t.send_errors + 1)
      × (t.send_errors ≤ t'.send_errors)
      × (t'.coalesced_samples ≡ s'.coalesced)
