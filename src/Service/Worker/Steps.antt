-- ===== src/Service/Worker/Steps.antt =====
-- What the parts of a request keep of the worker.

use pose_bridge.Model
use pose_bridge.Controller.Lifecycle.{Controller}
use pose_bridge.Service.{Outcome, err, ok}
use pose_bridge.Service.Worker.{Worker, Edit}
use pose_bridge.Service.Worker.Desk.{Desk, Step, ◌>>◌, continue, call, called, set, say, with_value}

module _ {F S : Type 0} (P Q : Worker F S → Type 0) where
  -- `Q` of the worker when all went well, and `P` when it did not.
  abbrev pub Result : Desk F S × Outcome (Unit {0}) → Type 0
  Result (d, ok u) = Q d.worker
  Result (d, err e) = P d.worker

  pub record Leaves (f : Step F S) : Type 0 where
    pub leaves : (d : Desk F S) → P d.worker → Result (f d)

module _ {F S : Type 0} (P : Worker F S → Type 0) where
  called-Result :
      (d : Desk F S) (r : Controller F × Model.Result (Unit {0}))
      → P d.worker
      → Result P P (called d r)
  called-Result d (c, Model.ok u) h = h
  called-Result d (c, Model.err e) h = h

  pub call-Leaves :
      (f : Controller F → Controller F × Model.Result (Unit {0})) → Leaves P P (call f)
  unfolding call
  call-Leaves f = record { leaves = λ d h. called-Result d (f d.controller) h }

  pub say-Leaves : (e : Edit F S) → Leaves P P (say e)
  unfolding say
  say-Leaves e = record { leaves = λ d h. h }

module _ {F S : Type 0} (P Q : Worker F S → Type 0) where
  pub continue-Result :
      (r : Desk F S × Outcome (Unit {0})) (g : Step F S)
      → Result P P r
      → Leaves P Q g
      → Result P Q (continue r g)
  continue-Result (d, ok u) g h k = k.leaves d h
  continue-Result (d, err e) g h k = h

  pub seq-Leaves : (f g : Step F S) → Leaves P P f → Leaves P Q g → Leaves P Q (f >> g)
  unfolding ◌>>◌
  seq-Leaves f g h k = record { leaves = λ d p. continue-Result (f d) g (h.leaves d p) k }

  pub set-Leaves :
      (f : Worker F S → Worker F S) → ((w : Worker F S) → P w → Q (f w)) → Leaves P Q (set f)
  unfolding set
  set-Leaves f h = record { leaves = λ d k. h d.worker k }

  pub with_value-Leaves :
      {A : Type 0} (o : Outcome A) (g : A → Step F S)
      → ((a : A) → Leaves P Q (g a))
      → Leaves P Q (with_value o g)
  unfolding with_value
  with_value-Leaves (err e) g h = record { leaves = λ d k. k }
  with_value-Leaves (ok a) g h = record { leaves = λ d k. (h a).leaves d k }
