-- ===== src/Controller/Receive.antt =====
-- A read in `pump` of crates/posebridge-core/src/controller.rs: the bytes through the parser, the
-- counters, the poses of the frames, and their publication as one batch.
pub mod Session
use pose_bridge.Prelude.{
  ℕ, ◌+◌, ◌-◌, Bool, true, false, not, ◌&&◌, ◌||◌, Option, none, some, List, [], ◌∷◌, ◌++◌, ltb,
  ◌==◌, if◌then◌else◌, length, get_or, clamp_ns, max, map_or,
}
use pose_bridge.Prelude.Int.{ℤ, pos}
use pose_bridge.Model.{Error, Result, ok, err}
use pose_bridge.SampleClock.{SampleClock, SampleTime, device_calendar}
use pose_bridge.SampleClock
use pose_bridge.Motion.{Quat, Signals}
use pose_bridge.Osc.{RawData}
use pose_bridge.Battery
use pose_bridge.Pose.{FloatOps}
use pose_bridge.Pose.Mounting.{Mounting}
use pose_bridge.Protocol.Frame.{Frame, StreamFields, motion, stream, registers}
use pose_bridge.Protocol.Parser.{Parser, push}
use pose_bridge.Device.Registers.{to_u16}
use pose_bridge.Config.{PoseInput}
use pose_bridge.Controller.{Shared, DeliveryStats}
use pose_bridge.Controller.FullRate.{FullFrameRate}
use pose_bridge.Controller.FullRate
use pose_bridge.Controller.Frames.{
  Reading, raw_of_motion, raw_of_stream, raw_of_reply, read_motion, read_stream, read_reply,
}
use pose_bridge.Controller.Publish.{PreparedPose, publish_batch}

-- The variables of `pump` that a read changes.
pub record Local (F : Type 0) : Type 0 where
  pub parser : Parser
  pub received_frame : Bool
  pub raw : RawData F
  pub sample_clock : SampleClock
  pub full_frame_rate : FullFrameRate
  pub outstanding : Option ℕ
  pub battery_outstanding : Option ℕ
  pub last_bytes : ℕ
  pub last_delivery : Option ℕ

-- `partition_point` of the limits 1, 10, 30 and 100 milliseconds.
abbrev pub bucket_of : ℕ → ℕ
bucket_of gap =
    if ltb gap 1000000
    then 0
    else if ltb gap 10000000
    then 1
    else if ltb gap 30000000
    then 2
    else if ltb gap 100000000
    then 3
    else 4

-- `histogram[i] += 1`.
unfoldable pub increment : List ℕ → ℕ → List ℕ
increment [] i = []
increment (n ∷ ns) i = let rest = increment ns (i - 1) in if i == 0 then (n + 1) ∷ ns else n ∷ rest

abbrev pub with_delivery_gap : DeliveryStats → Option ℕ → ℕ → DeliveryStats
with_delivery_gap d none now = d
with_delivery_gap d (some previous) now = record d {
  gap_histogram = increment d.gap_histogram (bucket_of (now - previous));
  max_gap = max d.max_gap (now - previous);
}

unfoldable pub delivered : DeliveryStats → ℕ → ℕ → Option ℕ → ℕ → DeliveryStats
delivered d bytes frames last_delivery now =
    with_delivery_gap
      (record d {
        reads = d.reads + 1;
        max_bytes_per_read = max d.max_bytes_per_read bytes;
        max_frames_per_read = max d.max_frames_per_read frames;
      })
      last_delivery now

-- A frame that is no reply to a battery request.
abbrev pub is_pose_frame : Frame → Bool
is_pose_frame (registers address values) = not (address == Battery.register)
is_pose_frame _ = true

abbrev pub any_pose_frame : List Frame → Bool
any_pose_frame [] = false
any_pose_frame (f ∷ fs) = is_pose_frame f || any_pose_frame fs

-- What a frame adds: the variables, the shared state, and the poses that are prepared.
abbrev pub Step : Type 0 → Type 0
Step F = Local F × Shared F × List (PreparedPose F)

module _ {F : Type 0} where
  abbrev pub invalid_pose : Shared F → Shared F
  invalid_pose s = record s {
    status = record (s.status) { invalid_poses = s.status.invalid_poses + 1 };
  }

  -- A battery reply to an open request, in time or not.
  unfoldable pub battery_reply : Shared F → Option ℕ → List ℤ → ℕ → Shared F
  battery_reply s none values now = s
  battery_reply s (some sent) values now =
      if ltb (now - sent) Battery.response_timeout
      then record s { battery = Battery.observe s.battery (to_u16 (get_or values 0 (pos 0))) now }
      else record s { battery = Battery.fail s.battery Battery.timed_out }

  -- The pose of a frame, with its sample time.
  abbrev pub prepared :
      Local F → Shared F → Quat F → Result (Signals F) → Option SampleTime → Step F
  prepared l s q (err e) time = (l, invalid_pose s, [])
  prepared l s q (ok signals) time =
      (l, s, record { q = q; raw = l.raw; time = time; signals = some signals } ∷ [])

  abbrev pub timed :
      Local F → Shared F → Quat F → Result (Signals F) → SampleClock × Option SampleTime → Step F
  timed l s q coherent (clock, none) = (
    record l { sample_clock = clock },
    record s {
      status = record (s.status) { duplicate_sample_times = s.status.duplicate_sample_times + 1 };
    },
    [],
  )
  timed l s q coherent (clock, some time) =
      prepared (record l { sample_clock = clock })
        (record s {
          status = record (s.status) {
            clock_discontinuities =
                s.status.clock_discontinuities
                + (clock.discontinuities - l.sample_clock.discontinuities);
          };
        })
        q coherent (some time)

  abbrev pub at_time : Local F → Shared F → Quat F → Result (Signals F) → Option ℕ → ℕ → Step F
  at_time l s q coherent none ns = prepared l s q coherent none
  at_time l s q coherent (some ms) ns =
      timed l s q coherent (SampleClock.observe l.sample_clock device_calendar ms ns)

  unfoldable pub prepare : Local F → Shared F → Reading F → Option ℕ → ℕ → Step F
  prepare l s none time ns = (l, s, [])
  prepare l s (some (err e, coherent)) time ns = (l, invalid_pose s, [])
  prepare l s (some (ok q, coherent)) time ns = at_time l s q coherent time ns

  abbrev pub counted_frame : Shared F → Shared F
  counted_frame s = record s {
    status = record (s.status) { frames_received = s.status.frames_received + 1 };
  }

  abbrev pub and_frames :
      Step F × Result (Unit {0})
      → (Local F → Shared F → Step F × Result (Unit {0}))
      → Step F × Result (Unit {0})
  and_frames (step, err e) rest = (step, err e)
  and_frames ((l, s, poses), ok u) rest =
      let ((l', s', poses'), r) = rest l s in ((l', s', poses ++ poses'), r)

  -- The counters of the read itself.
  abbrev pub counted_read : Shared F → ℕ → ℕ → Option ℕ → ℕ → Shared F
  counted_read s bytes frames last_delivery now = record s {
    status = record (s.status) {
      bytes_received = s.status.bytes_received + bytes;
      delivery = delivered s.status.delivery bytes frames last_delivery now;
    };
  }

module _ {F : Type 0} (ops : FloatOps F) where
  -- The end of a read, whose parser was `before`. After a refused frame nothing is published.
  abbrev pub conclude_read :
      Parser → Step F × Result (Unit {0}) → ℕ → ℕ → Local F × Shared F × Result (Unit {0})
  conclude_read before ((l, s, poses), err e) start now = (l, s, err e)
  conclude_read before ((l, s, poses), ok u) start now = (
    l,
    publish_batch ops
        (record s {
          status = record (s.status) {
            discarded_bytes =
                s.status.discarded_bytes + (l.parser.discarded_bytes - before.discarded_bytes);
            invalid_frames =
                s.status.invalid_frames + (l.parser.invalid_frames - before.invalid_frames);
          };
        })
        start now poses,
    ok tt,
  )

module _ {F : Type 0} (ops : FloatOps F) (input : PoseInput) (mounting : Mounting) where
  abbrev pub stream_step :
      FullFrameRate × Result (Unit {0})
      → Local F
      → Shared F
      → StreamFields
      → ℕ
      → Step F × Result (Unit {0})
  stream_step (rate, err e) l s f ns = ((record l { full_frame_rate = rate }, s, []), err e)
  stream_step (rate, ok u) l s f ns = (
    prepare (record l { full_frame_rate = rate; raw = raw_of_stream ops l.raw ns f }) s
        (read_stream ops input mounting f) f.sample_time_ms ns,
    ok tt,
  )

  -- The `match frame`.
  unfoldable pub on_frame : Local F → Shared F → Frame → ℕ → ℕ → Step F × Result (Unit {0})
  on_frame l s (motion acceleration gyro angles) ns now = (
    prepare (record l { raw = raw_of_motion ops l.raw ns acceleration gyro angles }) s
        (read_motion ops input mounting acceleration gyro angles) none ns,
    ok tt,
  )
  on_frame l s (stream f) ns now =
      stream_step (FullRate.observe l.full_frame_rate f.profile f.sample_time_ms) l s f ns
  on_frame l s (registers address values) ns now = (
    if address == 0x51
        then prepare (record l { outstanding = none; raw = raw_of_reply ops l.raw ns values }) s
            (read_reply ops input mounting values) none ns
        else if address == Battery.register
        then (
          record l { battery_outstanding = none },
          battery_reply s l.battery_outstanding values now,
          [],
        )
        else (l, s, []),
    ok tt,
  )

  -- The frames of a read, until one of them is refused.
  unfoldable pub on_frames : List Frame → Local F → Shared F → ℕ → ℕ → Step F × Result (Unit {0})
  on_frames [] l s ns now = ((l, s, []), ok tt)
  on_frames (f ∷ fs) l s ns now =
      and_frames (on_frame l (counted_frame s) f ns now) (λ l s. on_frames fs l s ns now)

  -- The branch `bytes = reader.read()`, up to `emit`.
  unfoldable pub receive :
      Local F → Shared F → List ℕ → ℕ → ℕ → Local F × Shared F × Result (Unit {0})
  receive l s bytes start now =
      let (parser, frames) = push l.parser bytes in
      conclude_read ops l.parser
        (on_frames frames
          (record l {
            parser = parser;
            received_frame = l.received_frame || any_pose_frame frames;
            last_bytes = now;
            last_delivery = some now;
          })
          (counted_read s (length bytes) (length frames) l.last_delivery now)
          (clamp_ns (now - start)) now)
        start now
