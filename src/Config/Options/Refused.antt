-- ===== src/Config/Options/Refused.antt =====
-- When the options of a new metric cannot be made: the exception of `tag::from_string` in the
-- `configure` functions of src/config, which src/internal.cpp calls at the first message of a name.
use Prim.Native.String.{String}
use mathlib.Core.Bool.{false≢true}
use handystats.Config.Pattern.First.{First, select-First, First-select}
use handystats.Prelude.{
  ℕ, ◌≡◌, refl, Bool, true, false, ◌&&◌, Option, none, some, List, [], ◌∷◌, Option-cases, inl, inr,
  ap, sym, ◌↔◌, ◌∙◌, ◌||◌, if◌then◌else◌,
}
use handystats.MathUtils.{◌>>=◌}
use handystats.Statistics.Tag.{from_string}
use handystats.Statistics.State.{Config}
use handystats.Events.Message.{Destination}
use handystats.Internal.{Options}
use handystats.Metrics.Timer.{TimerConfig}
use handystats.Config.Pattern.{Text, select_pattern}
use handystats.Config.Options.{
  Rapidjson, configure_interval, configure_bins, add_tag, add_tags, configure_tags, configure_unit,
  configure, configure_timer, configure_for, options_for,
}

abbrev pub is_none : {A : Type 0} → Option A → Bool
is_none none = true
is_none (some a) = false

is_none-bind :
    {A B : Type 0} (o : Option A) (f : A → B) → is_none (o >>= λ a. some (f a)) ≡ is_none o
is_none-bind none f = refl
is_none-bind (some a) f = refl

is_none-if :
    {A : Type 0} (b : Bool) (x : Option A) (y : A)
    → is_none (if b then x else some y) ≡ b && is_none x
is_none-if true x y = refl
is_none-if false x y = refl

and_twice : (a b : Bool) → a && (a && b) ≡ a && b
and_twice true b = refl
and_twice false b = refl

module _ ⦃json : Rapidjson⦄ where
  open json use {Value, is_object, member, as_string, as_array, bytes}

  -- A string among the tags that is the name of none.
  abbrev pub is_unknown : Value → Bool
  is_unknown v = elim (as_string v) [ none ↦ false | some s ↦ is_none (from_string s) ]

  abbrev pub has_unknown : List Value → Bool
  has_unknown [] = false
  has_unknown (v ∷ vs) = is_unknown v || has_unknown vs

  -- A value that the options of a metric cannot be taken from.
  abbrev pub is_bad : Value → Bool
  is_bad v =
      is_object v
      && (elim (member v "tags" >>= as_array) [ none ↦ false | some vs ↦ has_unknown vs ])

  abbrev pub is_refused : Destination → Value → Bool
  is_refused Destination.attribute v = false
  is_refused _ v = is_bad v

  add_tags-is_none : (vs : List Value) (tags : ℕ) → is_none (add_tags vs tags) ≡ has_unknown vs
  unfolding add_tags add_tag
  add_tags-is_none [] tags = refl
  add_tags-is_none (v ∷ vs) tags = elim (Option-cases (as_string v)) [
    | inl e ↦ rw (add_tags, add_tag, is_unknown, e) (add_tags-is_none vs tags)
    | inr (s, e) ↦ elim (Option-cases (from_string s)) [
      | inl f ↦ rw (add_tags, add_tag, is_unknown, e, f) refl
      | inr (t, f) ↦ rw (add_tags, add_tag, is_unknown, e, f) (add_tags-is_none vs _)
    ]
  ]

  configure_tags-is_none :
      (v : Value) (c : Config)
      → is_none (configure_tags v c)
        ≡ (elim (member v "tags" >>= as_array) [ none ↦ false | some vs ↦ has_unknown vs ])
  unfolding configure_tags
  configure_tags-is_none v c = elim (Option-cases (member v "tags" >>= as_array)) [
    | inl e ↦ rw (configure_tags, e) refl
    | inr (vs, e) ↦
        rw (configure_tags, e)
          (is_none-bind (add_tags vs 0) (λ tags. record c { tags = tags }) ∙ add_tags-is_none vs 0)
  ]

  configure-is_none : (v : Value) (c : Config) → is_none (configure v c) ≡ is_bad v
  unfolding configure
  configure-is_none v c =
      let c' = configure_bins v (configure_interval v c) in
      is_none-if (is_object v) (configure_tags v c' >>= λ c2. some (configure_unit v c2)) c
      ∙ ap (λ b. is_object v && b)
          (is_none-bind (configure_tags v c') (configure_unit v) ∙ configure_tags-is_none v c')

  configure_timer-is_none : (v : Value) (o : TimerConfig) → is_none (configure_timer v o) ≡ is_bad v
  unfolding configure_timer
  configure_timer-is_none v o =
      is_none-if (is_object v) _ o
      ∙ ap (λ b. is_object v && b)
          (is_none-bind (configure v o.values) _ ∙ configure-is_none v o.values)
      ∙ and_twice (is_object v) _

  configure_for-is_none :
      (kind : Destination) (v : Value) (o : Options)
      → is_none (configure_for kind v o) ≡ is_refused kind v
  unfolding configure_for
  configure_for-is_none Destination.counter v o =
      is_none-bind (configure v o.counter_opts) _ ∙ configure-is_none v o.counter_opts
  configure_for-is_none Destination.gauge v o =
      is_none-bind (configure v o.gauge_opts) _ ∙ configure-is_none v o.gauge_opts
  configure_for-is_none Destination.timer v o =
      is_none-bind (configure_timer v o.timer_opts) _ ∙ configure_timer-is_none v o.timer_opts
  configure_for-is_none Destination.attribute v o = refl

  refused-First :
      (fnmatch : Text → Text → Bool) (patterns : List (List Text × Value)) (kind : Destination)
      (name : String) (o : Option Value)
      → select_pattern fnmatch (bytes name) patterns ≡ o
      → (elim o [ none ↦ false | some v ↦ is_refused kind v ]) ≡ true
      → (v : Value) × First fnmatch (bytes name) patterns v × (is_refused kind v ≡ true)
  refused-First fnmatch patterns kind name none e h = absurd (false≢true h)
  refused-First fnmatch patterns kind name (some v) e h =
      (v, select-First fnmatch (bytes name) patterns v e, h)

  options_for-is_none :
      (fnmatch : Text → Text → Bool) (patterns : List (List Text × Value)) (o : Options)
      (kind : Destination) (name : String)
      → is_none (options_for fnmatch patterns o kind name)
        ≡ (elim (select_pattern fnmatch (bytes name) patterns) [
          | none ↦ false
          | some v ↦ is_refused kind v
        ])
  unfolding options_for
  options_for-is_none fnmatch patterns o kind name =
      elim (Option-cases (select_pattern fnmatch (bytes name) patterns)) [
        | inl e ↦ rw (options_for, e) refl
        | inr (v, e) ↦ rw (options_for, e) (configure_for-is_none kind v o)
      ]

  -- The options of a new metric cannot be made, which is an exception, just if its name matches a
  -- pattern, the metric is no attribute, and the value of the first group with such a pattern is an
  -- object whose member for the tags is an array with a string that names no tag.
  pub options_for-First :
      (fnmatch : Text → Text → Bool) (patterns : List (List Text × Value)) (o : Options)
      (kind : Destination) (name : String)
      → (is_none (options_for fnmatch patterns o kind name) ≡ true)
        ↔ ((v : Value) × First fnmatch (bytes name) patterns v × (is_refused kind v ≡ true))
  options_for-First fnmatch patterns o kind name =
      let e = options_for-is_none fnmatch patterns o kind name in
      (
        λ h. refused-First fnmatch patterns kind name _ refl (sym e ∙ h),
        λ (v, f, h). e ∙ rw (First-select fnmatch (bytes name) patterns v f) h,
      )
