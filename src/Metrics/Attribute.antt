-- ===== src/Metrics/Attribute.antt =====
-- src/metrics/attribute.cpp: a value of one of seven types, held by the last `set`.
use Prim.Native.String.{String}
use handystats.Prelude.{ℕ, Bool, false, ℤ}
use handystats.Machine.{Machine}

module _ ⦃m : Machine⦄ where
  open m use {F}

  -- `attribute::value_type`, with the indices of `value_index` in order.
  pub data Value : Type 0 where
    bool : Bool → Value
    int : ℤ → Value
    uint : ℕ → Value
    int64 : ℤ → Value
    uint64 : ℕ → Value
    double : F → Value
    string : String → Value

  pub record Attribute : Type 0 where
    pub value : Value

  -- The constructor: `boost::variant` starts with its first type.
  unfoldable pub create : Attribute
  create = record { value = bool false }

  -- Every overload of `set` assigns a value of its type.
  unfoldable pub set : Value → Attribute → Attribute
  set v a = record a { value = v }
