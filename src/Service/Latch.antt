-- ===== src/Service/Latch.antt =====
-- The latch of crates/posebridge-client/src/posebridge/service.rs: the device that may be calibrating,
-- which is kept until a stop is verified.
use pose_bridge.Prelude.{ℕ, Bool, ◌&&◌, Option, none, some, ◌==◌, if◌then◌else◌, is_some_and}
use pose_bridge.Prelude.Texts.{same_text}
use pose_bridge.Model.Observation.{OperationStatus, is_succeeded, is_running}
use pose_bridge.Controller.{Snapshot}
use pose_bridge.Client.{Device}
use pose_bridge.Sweeps.{Session}
use pose_bridge.Service.{View}

-- `mag_start` was written, with whatever result.
abbrev pub is_start : OperationStatus → Bool
is_start op = same_text op.action "mag_start" && op.write_attempted

-- `mag_stop` was written and read back.
abbrev pub is_verified_stop : OperationStatus → Bool
is_verified_stop op =
    same_text op.action "mag_stop" && (op.register_verified && is_succeeded op.outcome)

module _ {F S : Type 0} where
  abbrev latch_if : Bool → Device → View F S → View F S
  latch_if test device v = if test then record v { magnetic = some device } else v

  abbrev observe_operation : Option OperationStatus → Device → View F S → View F S
  observe_operation none device v = v
  observe_operation (some op) device v =
      let w = latch_if (is_start op) device v in
      if is_verified_stop op then record w { magnetic = none } else w

  unfoldable pub observe_magnetic : View F S → Snapshot F → Option Device → View F S
  observe_magnetic v snapshot none = v
  observe_magnetic v snapshot (some device) =
      let o = snapshot.descriptor.device in
      observe_operation snapshot.operation device
        (latch_if (o.valid && is_some_and o.calsw (λ c. c == 7)) device v)

  unfoldable pub publish_session : View F S → Session F S → Device → ℕ → View F S
  publish_session v session device request =
      let w = latch_if session.device_may_be_calibrating device v in
      record w {
        session_write_pending =
            if w.request == request
            then w.session_write_pending
              && is_some_and session.operation (λ op. is_running op.outcome)
            else w.session_write_pending;
        magnetic_session = some session;
      }
