-- ===== src/MeasuringPoints/Proxy/Gauge.antt =====
-- `gauge_proxy` of include/handystats/measuring_points/gauge_proxy.hpp. Default arguments are
-- written out by the caller, and the macros are those of a build without HANDYSTATS_DISABLE.
use Prim.Native.String.{String}
use handystats.Prelude.{ℕ}
use handystats.Machine.{Machine}
use handystats.Chrono.TimePoint.{TimePoint}
use handystats.Core.{Core}
use handystats.MeasuringPoints.{gauge_init, gauge_set}

module _ ⦃m : Machine⦄ where
  open m use {F}

  pub record GaugeProxy : Type 0 where
    pub name : String

  -- The constructors with a name alone send nothing.
  unfoldable pub create : String → GaugeProxy
  create name = record { name = name }

  unfoldable pub create_init : ℕ → String → F → TimePoint → Core → GaugeProxy × Core
  unfolding create gauge_init
  create_init n name v t c = (create name, gauge_init n name v t c)

  unfoldable pub init : GaugeProxy → ℕ → F → TimePoint → Core → Core
  unfolding gauge_init
  init p n v t c = gauge_init n p.name v t c

  unfoldable pub set : GaugeProxy → ℕ → F → TimePoint → Core → Core
  unfolding gauge_set
  set p n v t c = gauge_set n p.name v t c
