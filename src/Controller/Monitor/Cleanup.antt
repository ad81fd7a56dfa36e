-- ===== src/Controller/Monitor/Cleanup.antt =====
-- A magnetic session lets go of the calibration that it started, or says that it could not.
use Prim.Native.String.{String}
use pose_bridge.Prelude.{ℕ, ◌≡◌, refl, Bool, true, false, is_some, if◌then◌else◌}
use pose_bridge.Model.{Error, Result, ok, err, io}
use pose_bridge.Model.Command.{mag_stop}
use pose_bridge.Magnetic.State.{finish}
use pose_bridge.Controller.{Shared, magnetic}
use pose_bridge.Controller.Wire.{Line, Wire, Run, change}
use pose_bridge.Controller.Monitor.Heard.{Ended}
use pose_bridge.Controller.Monitor.ReadBack.{IsReadBack, IsReleased, execute-IsReleased}
use pose_bridge.Controller.Monitor.{
  operation, execute, owning, cleaned, cleanup_calibration, stopped, finished, after_monitor,
  run_connection,
}

module _ {F : Type 0} (line : Line) where
  -- How a session ends, by what its monitor came to: the monitor left no calibration that the session
  -- owns, or the exit was read back, or the session says that it failed.
  pub data IsSafe (m : Result (Unit {0}) × Wire F) : Result (Unit {0}) × Shared F → Type 0 where
    unowned :
        {r : Result (Unit {0}) × Shared F}
        → m.1.shared.magnetic_state.owned ≡ false
        → r.0 ≡ m.0
        → r.1.magnetic_state.owned ≡ false
        → IsSafe m r
    released :
        {r : Result (Unit {0}) × Shared F}
        → m.1.shared.magnetic_state.owned ≡ true
        → IsReadBack line r.1
        → r.0 ≡ m.0
        → r.1.magnetic_state.owned ≡ false
        → IsSafe m r
    failed :
        {r : Result (Unit {0}) × Shared F}
        → m.1.shared.magnetic_state.owned ≡ true
        → r.0 ≡ err io
        → is_some r.1.magnetic_state.last_error ≡ true
        → IsSafe m r

  finished-cleaned :
      (m : Result (Unit {0}) × Wire F) (r : Result (Unit {0}) × Wire F) (text : Error → String)
      (now : ℕ)
      → m.1.shared.magnetic_state.owned ≡ true
      → Ended (IsReleased line) r
      → IsSafe m (finished (cleaned r m.0) text now)
  unfolding finish operation change
  finished-cleaned m (ok u, w) text now e (h, k) =
      released e
        (record {
          earlier = h.earlier;
          before = h.before;
          asks = h.asks;
          last = h.last;
          receives = h.receives;
          counted = h.counted;
          described = h.described;
        })
        refl k
  finished-cleaned m (err x, w) text now e h = failed e refl refl

  finished-free :
      (m : Result (Unit {0}) × Wire F) (text : Error → String) (now : ℕ)
      → m.1.shared.magnetic_state.owned ≡ false
      → IsSafe m (finished (m.0, stopped m.1) text now)
  unfolding finish
  finished-free m text now h = unowned h refl h

  after_monitor-IsSafe :
      (m : Result (Unit {0}) × Wire F) (text : Error → String) (id window now : ℕ)
      → IsSafe m (after_monitor line m text id window now)
  unfolding cleanup_calibration
  after_monitor-IsSafe (result, w) text id window now = go w.shared.magnetic_state.owned refl
    where
      go :
          (b : Bool)
          → w.shared.magnetic_state.owned ≡ b
          → IsSafe
              (result, w)
              (finished
                (if b
                  then cleaned
                      (execute line mag_stop true window now (owning (stopped w) id))
                      result
                  else (result, stopped w))
                text
                now)
      go true e =
          finished-cleaned (result, w)
            (execute line mag_stop true window now (owning (stopped w) id)) text now e
            (execute-IsReleased line (owning (stopped w) id) true window now)
      go false e = finished-free (result, w) text now e

  -- A session's wire, when its monitor begins.
  abbrev pub monitoring : Wire F → Wire F
  monitoring w = record w {
    shared = record (w.shared) { status = record (w.shared.status) { state = magnetic } };
  }

  -- However a magnetic session's monitor comes to an end, and however its connection answers then: the
  -- monitor left no calibration that the session owns, and its result is the session's; or it left one,
  -- and the exit was written and the switch asked for 100 ms later, and a frame came in that reads it as
  -- 0, the result is the monitor's, and none is owned any more; or it left one, and the session
  -- ends with an input or output error that it keeps and returns.
  pub run_connection-IsSafe :
      (monitor : Run F (Unit {0})) (w : Wire F) (text : Error → String) (id window now : ℕ)
      → IsSafe (monitor (monitoring w)) (run_connection line monitor w text id window now)
  unfolding run_connection
  run_connection-IsSafe monitor w text id window now =
      after_monitor-IsSafe (monitor (monitoring w)) text id window now
