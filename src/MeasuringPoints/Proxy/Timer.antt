-- ===== src/MeasuringPoints/Proxy/Timer.antt =====
-- `timer_proxy` of include/handystats/measuring_points/timer_proxy.hpp. Default arguments are
-- written out by the caller, and the macros are those of a build without HANDYSTATS_DISABLE.
use Prim.Native.String.{String}
use handystats.Prelude.{ℕ, ◌-◌, ◌==◌, not, u64_mod, if◌then◌else◌}
use handystats.Machine.{Machine}
use handystats.Chrono.Duration.{Duration}
use handystats.Chrono.TimePoint.{TimePoint}
use handystats.Core.{Core}
use handystats.MeasuringPoints.{
  timer_init, timer_start, timer_stop, timer_discard, timer_heartbeat, timer_set,
}

module _ ⦃m : Machine⦄ where
  open m use {F}

  -- `timer::DEFAULT_INSTANCE_ID`, -1 as an unsigned number.
  abbrev pub default_instance_id : ℕ
  default_instance_id = u64_mod - 1

  pub record TimerProxy : Type 0 where
    pub name : String
    pub instance_id : ℕ

  unfoldable pub create : String → ℕ → TimerProxy
  create name id = record { name = name; instance_id = id }

  unfoldable pub choose_instance_id : TimerProxy → ℕ → ℕ
  choose_instance_id p id = if not (p.instance_id == default_instance_id) then p.instance_id else id

  unfoldable pub init : TimerProxy → ℕ → ℕ → TimePoint → Core → Core
  unfolding choose_instance_id timer_init
  init p n id t c = timer_init n p.name (choose_instance_id p id) t c

  unfoldable pub start : TimerProxy → ℕ → ℕ → TimePoint → Core → Core
  unfolding choose_instance_id timer_start
  start p n id t c = timer_start n p.name (choose_instance_id p id) t c

  unfoldable pub stop : TimerProxy → ℕ → ℕ → TimePoint → Core → Core
  unfolding choose_instance_id timer_stop
  stop p n id t c = timer_stop n p.name (choose_instance_id p id) t c

  unfoldable pub discard : TimerProxy → ℕ → ℕ → TimePoint → Core → Core
  unfolding choose_instance_id timer_discard
  discard p n id t c = timer_discard n p.name (choose_instance_id p id) t c

  unfoldable pub heartbeat : TimerProxy → ℕ → ℕ → TimePoint → Core → Core
  unfolding choose_instance_id timer_heartbeat
  heartbeat p n id t c = timer_heartbeat n p.name (choose_instance_id p id) t c

  unfoldable pub set : TimerProxy → ℕ → Duration → TimePoint → Core → Core
  unfolding timer_set
  set p n d t c = timer_set n p.name d t c
