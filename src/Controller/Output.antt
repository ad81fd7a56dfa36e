-- ===== src/Controller/Output.antt =====
-- The outputs of a session in crates/posebridge-core/src/controller.rs: `output_deadline`, `emit`, and
-- the query and reference operations of `Controller` that read what was published. A socket is its
-- answers to packets.
pub mod Accounts
use Prim.Native.String.{String}
use pose_bridge.Prelude.{
  ℕ, ◌+◌, ◌-◌, Bool, true, false, not, ◌&&◌, ◌||◌, Option, none, some, List, ◌==◌, if◌then◌else◌,
  min, is_some_and,
}
use pose_bridge.Model.{Error, unavailable, Result, ok, err}
use pose_bridge.Model.Observation.{OperationStatus}
use pose_bridge.Motion.{Quat, MotionCursor, MotionBatch}
use pose_bridge.Motion
use pose_bridge.Magnetic.{MagneticPhase, MagneticCursor, MagneticBatch, idle}
use pose_bridge.Magnetic.State
use pose_bridge.Osc.{PoseSnapshot, Transmission, Codec}
use pose_bridge.Osc.Sender.{Sender, clear_pending, send_if_due}
use pose_bridge.Pose.{FloatOps}
use pose_bridge.Dolby.{recenter}
use pose_bridge.Dolby
use pose_bridge.Controller.{Shared, StatusSnapshot, LastError, from_osc, fresh, pose_at}

-- The earlier one of two deadlines.
abbrev pub earliest : Option ℕ → Option ℕ → Option ℕ
earliest none b = b
earliest (some a) none = some a
earliest (some a) (some b) = some (min a b)

abbrev pub pending_of : Option Sender → Option ℕ
pending_of none = none
pending_of (some sender) = sender.pending_deadline

-- An error of OSC is over with the next packet.
abbrev pub without_osc_error : Option LastError → Option LastError
without_osc_error (some (from_osc e)) = none
without_osc_error error = error

abbrev pub is_idle : MagneticPhase → Bool
is_idle idle = true
is_idle _ = false

module _ {F : Type 0} where
  abbrev pub dolby_pending : Option (Dolby.Sender F) → Option ℕ
  dolby_pending none = none
  dolby_pending (some output) = output.pending

  unfoldable pub output_deadline : Shared F → Option Sender → Option ℕ
  output_deadline s sender = earliest (pending_of sender) (dolby_pending s.dolby)

  -- The `match result` of `emit`, for a sender that had `previous` errors.
  abbrev pub emitted : StatusSnapshot F → ℕ → Sender × Result Bool → Sender × StatusSnapshot F
  emitted t previous (sender, ok true) = (
    sender,
    record t {
      coalesced_samples = sender.coalesced;
      send_errors = t.send_errors + (sender.errors - previous);
      osc_sent = t.osc_sent + 1;
      last_error = without_osc_error t.last_error;
    },
  )
  emitted t previous (sender, ok false) = (
    sender,
    record t {
      coalesced_samples = sender.coalesced;
      send_errors = t.send_errors + (sender.errors - previous);
    },
  )
  emitted t previous (sender, err e) =
      let errors = t.send_errors + (sender.errors - previous) in
      (
        clear_pending sender,
        record t {
          coalesced_samples = sender.coalesced;
          send_errors = if sender.errors == previous then errors + 1 else errors;
          last_error = some (from_osc e);
        },
      )

  abbrev pub motion_cursor_differs : Shared F → Option MotionCursor → Bool
  motion_cursor_differs s cursor = is_some_and cursor (λ c.
      not (c.instance_id == s.descriptor.instance_id) || not (c.session_id == s.status.session_id))

  -- `Controller::motion_since`.
  unfoldable pub motion_since : Shared F → Option MotionCursor → ℕ → MotionBatch F
  motion_since s cursor now =
      let batch = Motion.since s.motion cursor now (fresh s now) in
      record batch {
        source_id = s.descriptor.source_id;
        reset = if motion_cursor_differs s cursor then true else batch.reset;
      }

  -- `Controller::magnetic_since`.
  unfoldable pub magnetic_since : Shared F → Option MagneticCursor → ℕ → MagneticBatch
  magnetic_since s cursor now =
      State.since s.magnetic_state cursor s.descriptor.source_id
        (if is_idle s.magnetic_state.phase then none else s.operation) now

module _ {F G : Type 0} (ops : FloatOps F) (codec : Codec F G) where
  -- The OSC sender, with a pose or without one.
  unfoldable pub emit_osc :
      StatusSnapshot F
      → Option Sender
      → Option (PoseSnapshot F)
      → String
      → ℕ
      → (List ℕ → Transmission)
      → Option Sender × StatusSnapshot F
  emit_osc t none pose source_id now socket = (none, t)
  emit_osc t (some sender) none source_id now socket =
      let r = emitted t sender.errors (clear_pending sender, ok false) in (some (r.0), r.1)
  emit_osc t (some sender) (some pose) source_id now socket =
      let r =
        emitted t sender.errors (send_if_due codec sender pose source_id pose.age_ns now socket) in
      (some (r.0), r.1)

  abbrev pub dolby_sent :
      Dolby.Sender F
      → Option (PoseSnapshot F)
      → Option (Quat F)
      → ℕ
      → (List ℕ → Transmission)
      → Dolby.Sender F
  dolby_sent output (some pose) (some physical) now socket =
      Dolby.send_if_due ops codec output pose physical now socket
  dolby_sent output _ _ now socket = record output { pending = none }

  abbrev pub emit_dolby :
      Option (Dolby.Sender F)
      → Shared F
      → Option (PoseSnapshot F)
      → ℕ
      → (List ℕ → Transmission)
      → Shared F
  emit_dolby none s pose now socket = s
  emit_dolby (some output) s pose now socket =
      let sent = dolby_sent output pose s.physical now socket in
      record s { dolby = some sent; status = record (s.status) { dolby_osc = some (sent.status) } }

  -- `emit`, with the sockets of the two outputs.
  unfoldable pub emit :
      Shared F
      → Option Sender
      → ℕ
      → (List ℕ → Transmission)
      → (List ℕ → Transmission)
      → Option Sender × Shared F
  emit s sender now socket dolby_socket =
      let pose = pose_at s now in
      let r = emit_osc s.status sender pose s.descriptor.source_id now socket in
      (r.0, emit_dolby s.dolby (record s { status = r.1 }) pose now dolby_socket)

  abbrev pub recenter_output :
      Dolby.Sender F × Result (Unit {0}) → Shared F → Shared F × Result (Unit {0})
  recenter_output (output, ok u) s = (
    record s {
      dolby = some output;
      status = record (s.status) { dolby_osc = some (output.status) };
    },
    ok tt,
  )
  recenter_output (output, err e) s = (record s { dolby = some output }, err e)

  abbrev pub recenter_with :
      Option (PoseSnapshot F)
      → Option (Quat F)
      → Option (Dolby.Sender F)
      → Shared F
      → Shared F × Result (Unit {0})
  recenter_with (some pose) (some physical) (some output) s =
      recenter_output (recenter ops codec output pose physical) s
  recenter_with _ _ _ s = (s, err unavailable)

  -- `Controller::recenter_dolby`.
  unfoldable pub recenter_dolby : Shared F → ℕ → Shared F × Result (Unit {0})
  recenter_dolby s now =
      if not (fresh s now)
      then (s, err unavailable)
      else recenter_with (pose_at s now) s.physical s.dolby s
