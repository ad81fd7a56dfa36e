-- ===== src/Controller/Receive/Session.antt =====
-- A read keeps the session of the controller, whatever its bytes are.
use pose_bridge.Prelude.{
  ℕ, ◌-◌, refl, Bool, true, false, Option, none, some, List, [], ◌∷◌, ◌++◌, if◌then◌else◌, ltb,
  ◌==◌, get_or, clamp_ns,
}
use pose_bridge.Prelude.Int.{ℤ, pos}
use pose_bridge.Model.{Result, ok, err}
use pose_bridge.SampleClock.{SampleClock, SampleTime, device_calendar}
use pose_bridge.SampleClock
use pose_bridge.Motion.{Quat, Signals}
use pose_bridge.Battery
use pose_bridge.Pose.{FloatOps}
use pose_bridge.Pose.Mounting.{Mounting}
use pose_bridge.Protocol.Frame.{Frame, StreamFields, motion, stream, registers}
use pose_bridge.Protocol.Parser.{Parser}
use pose_bridge.Device.Registers.{to_u16}
use pose_bridge.Config.{PoseInput}
use pose_bridge.Controller.{Shared}
use pose_bridge.Controller.FullRate.{FullFrameRate}
use pose_bridge.Controller.FullRate
use pose_bridge.Controller.Frames.{Reading, read_motion, read_stream, read_reply}
use pose_bridge.Controller.Publish.{PreparedPose}
use pose_bridge.Controller.Publish.Session.{HasSignals, IsSession, publish_batch-IsSession}
use pose_bridge.Controller.Receive.{
  Local, Step, battery_reply, prepared, timed, prepare, stream_step, on_frame, and_frames,
  on_frames, conclude_read, receive, counted_frame,
}

module _ {F : Type 0} where
  -- The state of a step is one of a session, and its poses come with their signals.
  record IsReady (step : Step F) : Type 0 where
    session : IsSession (step.1)
    signals : HasSignals (step.2)

  ready : (l : Local F) (s : Shared F) → IsSession s → IsReady (l, s, [])
  ready l s v = record { session = v; signals = tt }

  battery_reply-IsSession :
      (s : Shared F) (sent : Option ℕ) (values : List ℤ) (now : ℕ)
      → IsSession s
      → IsSession (battery_reply s sent values now)
  unfolding battery_reply
  battery_reply-IsSession s none values now v = v
  battery_reply-IsSession s (some sent) values now v =
      elim (ltb (now - sent) Battery.response_timeout)
        as (λ b. IsSession (
          if b
          then record s {
            battery = Battery.observe s.battery (to_u16 (get_or values 0 (pos 0))) now;
          }
          else record s { battery = Battery.fail s.battery Battery.timed_out })) [
            | true ↦ record { same = v.same; history = v.history; latest = v.latest }
            | false ↦ record { same = v.same; history = v.history; latest = v.latest }
          ]

  prepared-IsReady :
      (l : Local F) (s : Shared F) (q : Quat F) (r : Result (Signals F)) (time : Option SampleTime)
      → IsSession s
      → IsReady (prepared l s q r time)
  prepared-IsReady l s q (err e) time v = record {
    session = record { same = v.same; history = v.history; latest = v.latest };
    signals = tt;
  }
  prepared-IsReady l s q (ok x) time v = record { session = v; signals = (refl, tt) }

  timed-IsReady :
      (l : Local F) (s : Shared F) (q : Quat F) (r : Result (Signals F))
      (t : SampleClock × Option SampleTime)
      → IsSession s
      → IsReady (timed l s q r t)
  timed-IsReady l s q r (clock, none) v = record {
    session = record { same = v.same; history = v.history; latest = v.latest };
    signals = tt;
  }
  timed-IsReady l s q r (clock, some time) v =
      prepared-IsReady _ _ q r (some time)
        (record { same = v.same; history = v.history; latest = v.latest })

  prepare-IsReady :
      (l : Local F) (s : Shared F) (reading : Reading F) (time : Option ℕ) (ns : ℕ)
      → IsSession s
      → IsReady (prepare l s reading time ns)
  unfolding prepare
  prepare-IsReady l s none time ns v = ready l s v
  prepare-IsReady l s (some (err e, r)) time ns v = record {
    session = record { same = v.same; history = v.history; latest = v.latest };
    signals = tt;
  }
  prepare-IsReady l s (some (ok q, r)) none ns v = prepared-IsReady l s q r none v
  prepare-IsReady l s (some (ok q, r)) (some ms) ns v =
      timed-IsReady l s q r (SampleClock.observe l.sample_clock device_calendar ms ns) v

  if-IsReady : (b : Bool) {x y : Step F} → IsReady x → IsReady y → IsReady (if b then x else y)
  if-IsReady true p q = p
  if-IsReady false p q = q

  HasSignals-append :
      (ps qs : List (PreparedPose F)) → HasSignals ps → HasSignals qs → HasSignals (ps ++ qs)
  HasSignals-append [] qs h k = k
  HasSignals-append (p ∷ ps) qs h k = (h.0, HasSignals-append ps qs h.1 k)

  and_frames-IsReady :
      (r : Step F × Result (Unit {0})) (rest : Local F → Shared F → Step F × Result (Unit {0}))
      → IsReady r.0
      → ((l : Local F) (s : Shared F) → IsSession s → IsReady (rest l s).0)
      → IsReady (and_frames r rest).0
  and_frames-IsReady (step, err e) rest i k = i
  and_frames-IsReady ((l, s, poses), ok u) rest i k =
      let j = k l s i.session in
      record { session = j.session; signals = HasSignals-append poses _ i.signals j.signals }

module _ {F : Type 0} (ops : FloatOps F) (input : PoseInput) (mounting : Mounting) where
  stream_step-IsReady :
      (r : FullFrameRate × Result (Unit {0})) (l : Local F) (s : Shared F) (f : StreamFields)
      (ns : ℕ)
      → IsSession s
      → IsReady (stream_step ops input mounting r l s f ns).0
  stream_step-IsReady (rate, err e) l s f ns v = ready _ s v
  stream_step-IsReady (rate, ok u) l s f ns v =
      prepare-IsReady _ s (read_stream ops input mounting f) f.sample_time_ms ns v

  on_frame-IsReady :
      (l : Local F) (s : Shared F) (f : Frame) (ns now : ℕ)
      → IsSession s
      → IsReady (on_frame ops input mounting l s f ns now).0
  unfolding on_frame
  on_frame-IsReady l s (motion a g e) ns now v =
      prepare-IsReady _ s (read_motion ops input mounting a g e) none ns v
  on_frame-IsReady l s (stream f) ns now v =
      stream_step-IsReady (FullRate.observe l.full_frame_rate f.profile f.sample_time_ms) l s f ns v
  on_frame-IsReady l s (registers address values) ns now v =
      if-IsReady (address == 0x51)
        (prepare-IsReady _ s (read_reply ops input mounting values) none ns v)
        (if-IsReady (address == Battery.register)
          (ready _ _ (battery_reply-IsSession s l.battery_outstanding values now v)) (ready l s v))

  on_frames-IsReady :
      (fs : List Frame) (l : Local F) (s : Shared F) (ns now : ℕ)
      → IsSession s
      → IsReady (on_frames ops input mounting fs l s ns now).0
  unfolding on_frames
  on_frames-IsReady [] l s ns now v = ready l s v
  on_frames-IsReady (f ∷ fs) l s ns now v =
      and_frames-IsReady (on_frame ops input mounting l (counted_frame s) f ns now) _
        (on_frame-IsReady l (counted_frame s) f ns now
          (record { same = v.same; history = v.history; latest = v.latest }))
        (λ l' s' v'. on_frames-IsReady fs l' s' ns now v')

  conclude_read-IsSession :
      (before : Parser) (r : Step F × Result (Unit {0})) (start now : ℕ)
      → IsReady r.0
      → IsSession (conclude_read ops before r start now).1
  conclude_read-IsSession before ((l, s, poses), err e) start now i = i.session
  conclude_read-IsSession before ((l, s, poses), ok u) start now i =
      publish_batch-IsSession ops _ start now poses i.signals
        (record { same = i.session.same; history = i.session.history; latest = i.session.latest })

  -- Whatever bytes a device sends, a read takes a session to a session: the motion history is numbered
  -- without a gap up to the count of samples, it belongs to the session, and the pose that is shown is
  -- the last one.
  pub receive-IsSession :
      (l : Local F) (s : Shared F) (bytes : List ℕ) (start now : ℕ)
      → IsSession s
      → IsSession (receive ops input mounting l s bytes start now).1
  unfolding receive
  receive-IsSession l s bytes start now v = conclude_read-IsSession l.parser _ start now (
      on_frames-IsReady _ _ _ (clamp_ns (now - start)) now
        (record { same = v.same; history = v.history; latest = v.latest }))
