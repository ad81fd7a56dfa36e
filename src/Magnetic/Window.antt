-- ===== src/Magnetic/Window.antt =====
-- `Window` of crates/posebridge-core/src/magnetic.rs: count, times and extremes of the readings, until
-- the window ends.
pub mod Extremes
use pose_bridge.Prelude.{
  ℕ, ◌+◌, ◌-◌, Bool, true, false, Option, none, some, ltb, if◌then◌else◌, is_some, unwrap_or,
  map_or, clamp_ns,
}
use mathlib.Core.Option
use pose_bridge.Prelude.Int.{ℤ, ◌-ℤ◌, ltb_ℤ}
use pose_bridge.Magnetic.{Counts, MagneticStatistics}

pub record Window : Type 0 where
  pub id : ℕ
  pub count : ℕ
  pub first : Option ℕ
  pub last : Option ℕ
  pub end : Option ℕ
  pub minimum : Option Counts
  pub maximum : Option Counts

-- `Window::default`, with the identifier that `new_id` draws.
abbrev pub default : ℕ → Window
default id = record {
  id = id;
  count = 0;
  first = none;
  last = none;
  end = none;
  minimum = none;
  maximum = none;
}

-- `i16::min` and `i16::max`.
unfoldable pub min_ℤ : ℤ → ℤ → ℤ
min_ℤ a b = if ltb_ℤ b a then b else a

unfoldable pub max_ℤ : ℤ → ℤ → ℤ
max_ℤ a b = if ltb_ℤ a b then b else a

abbrev pub zip_counts : (ℤ → ℤ → ℤ) → Counts → Counts → Counts
zip_counts f a b = record { x = f a.x b.x; y = f a.y b.y; z = f a.z b.z }

-- `get_or_insert`.
abbrev pub get_or_insert : {A : Type 0} → Option A → A → Option A
get_or_insert none a = some a
get_or_insert (some b) a = some b

unfoldable pub observe : Window → Counts → ℕ → Window
observe w xyz now = if is_some w.end then w else record w {
  count = w.count + 1;
  first = get_or_insert w.first now;
  last = some now;
  minimum = some (map_or w.minimum xyz (λ v. zip_counts min_ℤ v xyz));
  maximum = some (map_or w.maximum xyz (λ v. zip_counts max_ℤ v xyz));
}

-- The end is set once.
unfoldable pub close : Window → ℕ → Window
close w now = record w { end = get_or_insert w.end now }

-- From the first to the last reading.
abbrev pub span_ns : Option ℕ → Option ℕ → ℕ
span_ns (some a) (some b) = b - a
span_ns _ _ = 0

abbrev pub span_of : Option Counts → Option Counts → Option Counts
span_of (some a) (some b) = some (zip_counts ◌-ℤ◌ b a)
span_of _ _ = none

unfoldable pub snapshot : Window → ℕ → MagneticStatistics
snapshot w now =
    let span = span_ns w.first w.last in
    record {
      window_id = w.id;
      sample_count = w.count;
      elapsed_ns = clamp_ns (map_or w.first 0 (λ first. unwrap_or w.end now - first));
      frozen = is_some w.end;
      actual_rate = if ltb 0 span then some (w.count - 1, span) else none;
      minimum_counts = w.minimum;
      maximum_counts = w.maximum;
      span_counts = span_of w.minimum w.maximum;
    }
