-- ===== src/Controller/Simulate.antt =====
-- The outputs that `run` of crates/posebridge-core/src/controller.rs opens, and its simulated source. A
-- socket is the result of opening it; elapsed nanoseconds give seconds by a parameter, and a rate gives
-- its interval by one.
use pose_bridge.Prelude.{ℕ, ◌+◌, ◌-◌, ◌/◌, Bool, true, false, Option, none, some, [], ◌∷◌, clamp_ns}
use pose_bridge.Model.{Result, ok, err, ◌>>=◌}
use pose_bridge.SampleClock.{SampleClock, SampleTime, simulated_elapsed}
use pose_bridge.SampleClock
use pose_bridge.Motion.{Vec3, Quat, simulator}
use pose_bridge.Osc.{no_raw}
use pose_bridge.Osc.Sender.{Sender}
use pose_bridge.Osc.Sender
use pose_bridge.Pose.{FloatOps, physical_from_euler, from_euler, multiply, conjugate}
use pose_bridge.Dolby
use pose_bridge.Config.{OscConfig, DolbyOscConfig, Pattern, fixed, yaw, combined, wrap}
use pose_bridge.Controller.{Shared, from_osc}
use pose_bridge.Controller.Prepare.{default_dolby}
use pose_bridge.Controller.Publish.{PreparedPose, publish_batch}

-- What the simulation takes of f64 beyond the operations of poses.
pub record Waves (F : Type 0) : Type 0 where
  -- nanoseconds as seconds
  pub seconds : ℕ → F
  pub rem_euclid : F → F → F
  -- the literals 45, 20, 15, TAU, 0.25, 1.5, 1.1, 0.9, 170, 180, 360 and 0.0001
  pub wide : F
  pub middle : F
  pub narrow : F
  pub tau : F
  pub quarter : F
  pub fast : F
  pub even : F
  pub slow : F
  pub offset : F
  pub half : F
  pub full : F
  pub delta : F

-- `interval` is `Duration::from_secs_f64(1.0 / rate)`.
module _ {F : Type 0} (interval : ℕ → ℕ) where
  abbrev pub open_osc : Shared F → OscConfig → Result (Unit {0}) → Option Sender × Shared F
  open_osc s c (ok u) = (some (Sender.new c.format (interval c.max_rate_hz)), s)
  open_osc s c (err e) = (
    none,
    record s {
      status = record (s.status) {
        send_errors = s.status.send_errors + 1;
        last_error = some (from_osc e);
      };
    },
  )

  abbrev pub open_dolby : Shared F → DolbyOscConfig → Result (Unit {0}) → Shared F
  open_dolby s c (ok u) =
      let output = Dolby.new (interval c.max_rate_hz) in
      record s {
        dolby = some output;
        status = record (s.status) { dolby_osc = some (output.status) };
      }
  open_dolby s c (err e) = record s {
    status = record (s.status) {
      dolby_osc = some (record default_dolby { send_errors = 1; last_error = some e });
    };
  }

  abbrev pub open_osc_any :
      Shared F → Option OscConfig → Result (Unit {0}) → Option Sender × Shared F
  open_osc_any s none socket = (none, s)
  open_osc_any s (some c) socket = open_osc s c socket

  abbrev pub open_dolby_any : Shared F → Option DolbyOscConfig → Result (Unit {0}) → Shared F
  open_dolby_any s none socket = s
  open_dolby_any s (some c) socket = open_dolby s c socket

  -- The outputs at the start of `run`, with what their sockets come to.
  unfoldable pub open_outputs :
      Shared F
      → Option OscConfig
      → Option DolbyOscConfig
      → Result (Unit {0})
      → Result (Unit {0})
      → Option Sender × Shared F
  open_outputs s osc dolby socket dolby_socket =
      let (sender, t) = open_osc_any s osc socket in (sender, open_dolby_any t dolby dolby_socket)

module _ {F : Type 0} (ops : FloatOps F) (waves : Waves F) where
  abbrev pub swing : F → F → F → F
  swing amplitude speed t = ops.mul amplitude (ops.sin (ops.mul t speed))

  -- The angles are yaw, pitch, roll.
  unfoldable pub simulated_angles : Pattern → Vec3 F → F → Vec3 F
  simulated_angles fixed angles t = angles
  simulated_angles yaw angles t = record angles {
    x =
        ops.add angles.x
          (ops.mul waves.wide (ops.sin (ops.mul (ops.mul t waves.tau) waves.quarter)));
  }
  simulated_angles combined angles t = record {
    x = ops.add angles.x (swing waves.wide waves.fast t);
    y = ops.add angles.y (swing waves.middle waves.even t);
    z = ops.add angles.z (swing waves.narrow waves.slow t);
  }
  simulated_angles wrap angles t = record angles {
    x =
        ops.sub
          (waves.rem_euclid (ops.add (ops.add waves.offset (ops.mul t waves.middle)) waves.half)
            waves.full)
          waves.half;
  }

  -- `delta[i] * 2.0 / 0.0001`.
  abbrev pub turned : F → F
  turned v = ops.div (ops.mul v ops.two) waves.delta

  abbrev pub gyro_of : Quat F → Quat F → Vec3 F
  gyro_of physical next =
      let delta = multiply ops (conjugate ops physical) next in
      record { x = turned delta.x; y = turned delta.y; z = turned delta.z }

  -- The pose of a tick, `elapsed` nanoseconds after the start.
  unfoldable pub simulated_pose : Pattern → Vec3 F → ℕ → Option SampleTime → Result (PreparedPose F)
  simulated_pose pattern angles elapsed time =
      let t = waves.seconds elapsed in
      let now = simulated_angles pattern angles t in
      do
        physical ← physical_from_euler ops now
        next ← physical_from_euler ops (simulated_angles pattern angles (ops.add t waves.delta))
        q ← from_euler ops now
        ok (record {
          q = q;
          raw = no_raw;
          time = time;
          signals = some (record {
            orientation = physical;
            gyro = some (gyro_of physical next);
            acceleration = none;
            source = simulator;
            profile = 0;
          });
        })

  abbrev pub publish_simulated :
      Shared F → ℕ → ℕ → Result (PreparedPose F) → Shared F × Result (Unit {0})
  publish_simulated s start now (err e) = (s, err e)
  publish_simulated s start now (ok pose) = (publish_batch ops s start now (pose ∷ []), ok tt)

  abbrev pub clocked :
      Shared F
      → Pattern
      → Vec3 F
      → ℕ
      → ℕ
      → SampleClock × Option SampleTime
      → SampleClock × Shared F × Result (Unit {0})
  clocked s pattern angles start now (clock, none) = (
    clock,
    record s { status = record (s.status) { duplicate_sample_times = clock.duplicates } },
    ok tt,
  )
  clocked s pattern angles start now (clock, some time) =
      let r =
        publish_simulated s start now (simulated_pose pattern angles (now - start) (some time)) in
      (clock, r.0, r.1)

  -- A tick of the simulated source, up to `emit`.
  unfoldable pub simulate :
      Shared F
      → SampleClock
      → Pattern
      → Vec3 F
      → Bool
      → ℕ
      → ℕ
      → SampleClock × Shared F × Result (Unit {0})
  simulate s clock pattern angles true start now = clocked s pattern angles start now (
      SampleClock.observe clock simulated_elapsed (clamp_ns ((now - start) / 1000000))
        (clamp_ns (now - start)))
  simulate s clock pattern angles false start now =
      let r = publish_simulated s start now (simulated_pose pattern angles (now - start) none) in
      (clock, r.0, r.1)
