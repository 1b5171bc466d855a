-- ===== src/MeasuringPoints/Proxy/Attribute.antt =====
-- `attribute_proxy` of include/handystats/measuring_points/attribute_proxy.hpp. Default arguments are
-- written out by the caller, and the macros are those of a build without HANDYSTATS_DISABLE.
use Prim.Native.String.{String}
use handystats.Prelude.{ℕ, Bool, ℤ}
use handystats.Machine.{Machine}
use handystats.Chrono.TimePoint.{TimePoint}
use handystats.Core.{Core}
use handystats.MeasuringPoints.{
  attribute_set, attribute_set_bool, attribute_set_int, attribute_set_uint, attribute_set_int64,
  attribute_set_uint64, attribute_set_double, attribute_set_string,
}
use handystats.Metrics.Attribute.{Value}

module _ ⦃m : Machine⦄ where
  open m use {F}

  pub record AttributeProxy : Type 0 where
    pub name : String

  unfoldable pub create : String → AttributeProxy
  create name = record { name = name }

  unfoldable pub set : AttributeProxy → ℕ → Value → TimePoint → Core → Core
  unfolding attribute_set
  set p n v t c = attribute_set n p.name v t c

  unfoldable pub set_bool : AttributeProxy → ℕ → Bool → TimePoint → Core → Core
  unfolding attribute_set_bool
  set_bool p n v t c = attribute_set_bool n p.name v t c

  unfoldable pub set_int : AttributeProxy → ℕ → ℤ → TimePoint → Core → Core
  unfolding attribute_set_int
  set_int p n v t c = attribute_set_int n p.name v t c

  unfoldable pub set_uint : AttributeProxy → ℕ → ℕ → TimePoint → Core → Core
  unfolding attribute_set_uint
  set_uint p n v t c = attribute_set_uint n p.name v t c

  unfoldable pub set_int64 : AttributeProxy → ℕ → ℤ → TimePoint → Core → Core
  unfolding attribute_set_int64
  set_int64 p n v t c = attribute_set_int64 n p.name v t c

  unfoldable pub set_uint64 : AttributeProxy → ℕ → ℕ → TimePoint → Core → Core
  unfolding attribute_set_uint64
  set_uint64 p n v t c = attribute_set_uint64 n p.name v t c

  unfoldable pub set_double : AttributeProxy → ℕ → F → TimePoint → Core → Core
  unfolding attribute_set_double
  set_double p n v t c = attribute_set_double n p.name v t c

  unfoldable pub set_string : AttributeProxy → ℕ → String → TimePoint → Core → Core
  unfolding attribute_set_string
  set_string p n v t c = attribute_set_string n p.name v t c
