-- ===== src/JsonDump/Fields.antt =====
-- src/json/statistics_json_writer.hpp: which members the value of a statistics gets.
use Prim.Native.String.{String}
use text.Mathlib.Text.{◌==◌ as str_eq}
use handystats.Prelude.{
  ◌≡◌, refl, ◌∙◌, Bool, true, false, Bool-cases, inl, inr, Option, none, some, List, [], ◌∷◌, ◌++◌,
  append_assoc, append-nil, or_else, All, ap, map, ◌==◌, leb_ℤ, pos, to_u64, if◌then◌else◌,
}
use handystats.Machine.{Machine}
use handystats.Chrono.Duration.{Duration, msec, convert_to}
use handystats.Chrono.TimePoint.{TimePoint, ClockType, tsc, system, convert_clock}
use handystats.Statistics.Tag.{Tag, enabled}
use handystats.Statistics.Tag.Closed.{computed-enabled}
use handystats.Statistics.State.{Statistics, Bin, is_computed}
use handystats.Statistics.Access.{
  get_value, get_min, get_max, get_count, get_sum, get_avg, get_moving_count, get_moving_sum,
  get_moving_avg, get_histogram, get_timestamp, get_rate, get_entropy,
}
use handystats.JsonDump.{Document, write_timestamp, value_of, add_fields, add_bins}
use handystats.MathUtils.{num, cmp, ◌>>=◌}

-- The member that `FindMember` finds.
abbrev pub member_of {ℓ} : {A : Type ℓ} → String → List (String × A) → Option A
member_of k [] = none
member_of k ((j, x) ∷ ms) = if str_eq j k then some x else member_of k ms

pub member_of-append {ℓ} :
    {A : Type ℓ} (k : String) (xs ys : List (String × A))
    → member_of k (xs ++ ys) ≡ or_else (member_of k xs) (member_of k ys)
member_of-append k [] ys = refl
member_of-append k ((j, x) ∷ xs) ys = elim (Bool-cases (str_eq j k)) [
  | inl e ↦ rw e refl
  | inr e ↦ rw e (member_of-append k xs ys)
]

module _ ⦃m : Machine⦄ (doc : Document) where
  open doc use {Value, object, array, is_object, add_member, push_back}

  -- What the documentation of rapidjson says of objects and arrays: a new member or element goes
  -- behind the others.
  pub record KeepsMembers : Type 0 where
    pub object_is : (ms : List (String × Value)) → is_object (object ms) ≡ true
    pub add_last :
        (k : String) (x : Value) (ms : List (String × Value))
        → add_member k x (object ms) ≡ object (ms ++ (k, x) ∷ [])
    pub push_last : (x : Value) (xs : List Value) → push_back x (array xs) ≡ array (xs ++ x ∷ [])

module _ ⦃m : Machine⦄ ⦃doc : Document⦄ (log : m.F → m.F) where
  open doc use {Value, object, array, of_double, of_uint, push_back}
  open m use {div}

  -- An enabled tag other than the one of the quantiles has a value: its getter does not throw.
  abbrev pub is_single : Tag → Bool
  is_single Tag.quantile = false
  is_single _ = true

  timestamp-some :
      (d : Duration) (c : ClockType)
      → (x : Value) × (write_timestamp (record { since_epoch = d; clock = c }) ≡ some x)
  unfolding write_timestamp convert_clock
  timestamp-some d tsc = (_, refl)
  timestamp-some d system = (_, refl)

  write_timestamp-some : (t : TimePoint) → (x : Value) × (write_timestamp t ≡ some x)
  write_timestamp-some t = timestamp-some t.since_epoch t.clock

  value_of-computed :
      (s : Statistics) (t : Tag)
      → is_single t ≡ true
      → is_computed s t ≡ true
      → (x : Value) × (value_of log s t ≡ some x)
  unfolding value_of get_value get_min get_max get_count get_sum get_avg get_moving_count
      get_moving_sum get_moving_avg get_histogram get_timestamp get_rate get_entropy
  value_of-computed s Tag.value h e = rw e (_, refl)
  value_of-computed s Tag.min h e = rw e (_, refl)
  value_of-computed s Tag.max h e = rw e (_, refl)
  value_of-computed s Tag.count h e = rw e (_, refl)
  value_of-computed s Tag.sum h e = rw e (_, refl)
  value_of-computed s Tag.avg h e = rw e (_, refl)
  value_of-computed s Tag.moving_count h e = rw e (_, refl)
  value_of-computed s Tag.moving_sum h e = rw e (_, refl)
  value_of-computed s Tag.moving_avg h e = rw e (_, refl)
  value_of-computed s Tag.histogram h e = rw e (_, refl)
  value_of-computed s Tag.quantile h e = cc
  value_of-computed s Tag.timestamp h e = rw e (write_timestamp-some s.timestamp)
  value_of-computed s Tag.rate h e = rw e (_, refl)
  value_of-computed s Tag.entropy h e = rw e (_, refl)

  abbrev pair : Bin → Value
  pair b = array (of_double b.center ∷ of_double b.weight ∷ [])

  -- What is to be written for a tag, from the fields of the statistics: numbers as they are, the two
  -- averages as quotients, the histogram as pairs of a center and a weight, and the time stamp as
  -- milliseconds of the system clock.
  abbrev pub content : Statistics → Tag → Option Value
  content s Tag.value = some (of_double s.value)
  content s Tag.min = some (of_double s.min)
  content s Tag.max = some (of_double s.max)
  content s Tag.count = some (of_uint s.count)
  content s Tag.sum = some (of_double s.sum)
  content s Tag.avg = some (of_double (if s.count == 0 then num 0 else div s.sum (num s.count)))
  content s Tag.moving_count = some (of_double s.moving_count)
  content s Tag.moving_sum = some (of_double s.moving_sum)
  content s Tag.moving_avg = some (
      of_double (
        if leb_ℤ (cmp s.moving_count (num 0)) (pos 0)
        then num 0
        else div s.moving_sum s.moving_count))
  content s Tag.histogram = some (array (map pair s.histogram))
  content s Tag.quantile = none
  content s Tag.timestamp = convert_clock system s.timestamp >>= λ t.
      some (of_uint (to_u64 (convert_to msec t.since_epoch).rep))
  content s Tag.rate = get_rate s >>= λ x. some (of_double x)
  content s Tag.entropy = get_entropy log s >>= λ x. some (of_double x)

  add_bins-array :
      (laws : KeepsMembers doc) (bins : List Bin) (xs : List Value)
      → add_bins bins (array xs) ≡ array (xs ++ map pair bins)
  unfolding add_bins
  add_bins-array laws [] xs = rw append-nil refl
  add_bins-array laws (b ∷ bs) xs =
      rw
        (
          laws.push_last (of_double b.center) [],
          laws.push_last (of_double b.weight) (of_double b.center ∷ []),
          laws.push_last (pair b) xs,
        )
        (add_bins-array laws bs (xs ++ pair b ∷ [])
          ∙ rw (append_assoc xs (pair b ∷ []) (map pair bs)) refl)

  value_of-content :
      (laws : KeepsMembers doc) (s : Statistics) (t : Tag)
      → is_computed s t ≡ true
      → value_of log s t ≡ content s t
  unfolding value_of get_value get_min get_max get_count get_sum get_avg get_moving_count
      get_moving_sum get_moving_avg get_histogram get_timestamp write_timestamp
  value_of-content laws s Tag.value e = rw e refl
  value_of-content laws s Tag.min e = rw e refl
  value_of-content laws s Tag.max e = rw e refl
  value_of-content laws s Tag.count e = rw e refl
  value_of-content laws s Tag.sum e = rw e refl
  value_of-content laws s Tag.avg e = rw e refl
  value_of-content laws s Tag.moving_count e = rw e refl
  value_of-content laws s Tag.moving_sum e = rw e refl
  value_of-content laws s Tag.moving_avg e = rw e refl
  value_of-content laws s Tag.histogram e = rw e (ap some (add_bins-array laws s.histogram []))
  value_of-content laws s Tag.quantile e = refl
  value_of-content laws s Tag.timestamp e = rw e refl
  value_of-content laws s Tag.rate e = refl
  value_of-content laws s Tag.entropy e = refl

  pub value_of-some :
      (s : Statistics) (t : Tag)
      → is_single t ≡ true
      → enabled s.config.tags t ≡ true
      → (x : Value) × (value_of log s t ≡ some x)
  unfolding is_computed
  value_of-some s t h e = value_of-computed s t h (computed-enabled s.config.tags t e)

  -- What is written for the tags: the content of each enabled tag and nothing for the others.
  pub enabled-content :
      (laws : KeepsMembers doc) (s : Statistics) (t : Tag)
      → (if enabled s.config.tags t then value_of log s t else none)
        ≡ (if enabled s.config.tags t then content s t else none)
  unfolding is_computed
  enabled-content laws s t = elim (Bool-cases (enabled s.config.tags t)) [
    | inl e ↦ rw e (value_of-content laws s t (computed-enabled s.config.tags t e))
    | inr e ↦ rw e refl
  ]

  abbrev pub listed : String → Option Value → List (String × Value)
  listed name none = []
  listed name (some x) = (name, x) ∷ []

  -- What is shown under a tag.
  abbrev pub shown_value : Statistics → Tag → Option Value
  shown_value s t = if enabled s.config.tags t then value_of log s t else none

  abbrev pub shown : Statistics → List (Tag × String) → List (String × Value)
  shown s [] = []
  shown s ((t, name) ∷ fs) = listed name (shown_value s t) ++ shown s fs

  abbrev pub AllSingle : List (Tag × String) → Type 0
  AllSingle = All λ f. is_single f.0 ≡ true

  pub add_fields-object :
      (laws : KeepsMembers doc) (s : Statistics) (fs : List (Tag × String))
      (ms : List (String × Value))
      → AllSingle fs
      → add_fields log s fs (object ms) ≡ some (object (ms ++ shown s fs))
  unfolding add_fields
  add_fields-object laws s [] ms a = rw append-nil refl
  add_fields-object laws s ((t, name) ∷ fs) ms (h, a) =
      elim (Bool-cases (enabled s.config.tags t)) [
        | inr e ↦ rw e (add_fields-object laws s fs ms a)
        | inl e ↦
            (let (x, f) = value_of-some s t h e in
              rw (e, f, laws.add_last name x ms)
                (add_fields-object laws s fs (ms ++ (name, x) ∷ []) a
                  ∙ rw (append_assoc ms ((name, x) ∷ []) (shown s fs)) refl))
      ]
