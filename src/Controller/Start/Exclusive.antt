-- ===== src/Controller/Start/Exclusive.antt =====
-- A controller has one task at a time.
use Prim.Native.String.{String}
use pose_bridge.Model.Text.{Text}
use pose_bridge.Config.{Config}
use pose_bridge.Controller.Lifecycle.{Controller}
