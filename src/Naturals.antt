-- ===== src/Naturals.antt =====
-- Operations over the natural numbers in place of f64 and f32, and of texts, for the examples.
use pose_bridge.Prelude.{ℕ, true, false, some, [], ◌∷◌}
use pose_bridge.Prelude.Int.{nat_abs}
use pose_bridge.Model.{ok}
use pose_bridge.Model.Text.{Text}
use pose_bridge.Pose.{FloatOps}
use pose_bridge.Osc.{Codec}

abbrev pub ops : FloatOps ℕ
ops = record {
  add = λ a b. a;
  sub = λ a b. a;
  mul = λ a b. a;
  div = λ a b. a;
  neg = λ a. a;
  abs = λ a. a;
  sqrt = λ a. a;
  atan2 = λ a b. a;
  asin = λ a. a;
  acos = λ a. a;
  sin = λ a. a;
  cos = λ a. a;
  to_degrees = λ a. a;
  to_radians = λ a. a;
  clamp = λ a. a;
  clamp_unit = λ a. a;
  of_int = nat_abs;
  is_finite = λ a. true;
  lt = λ a b. false;
  le = λ a b. true;
  zero = 0;
  one = 1;
  two = 2;
  micro = 0;
  tenth_micro = 0;
  pico = 0;
  million = 1000000;
  half_turn = 180;
}

abbrev pub texts : Text
texts = record {
  is_blank = λ s. false;
  byte_length = λ s. 6;
  has_control = λ s. false;
  join = λ s t. t;
}

abbrev pub codec : Codec ℕ ℕ
codec = record { texts = texts; to_f32 = λ v. some v; rosc_encode = λ address args. ok (1 ∷ []) }
