-- ===== src/Plugins/Interval.antt =====
-- The interval trigger: src/automation_platform/plugins/triggers/implementations/interval.py.
use automation_platform.Base.{
  ℕ, ◌+◌, ◌-◌, ◌*◌, ◌<◌, suc, ◌≡◌, refl, true, false, Option, none, some, if◌then◌else◌, ltb, arith,
  ◌==◌, ◌≤◌, ◌∙◌, String,
}
use automation_platform.Domain.{Time, Fields, Value, bool, integer, negative, float}
use automation_platform.Errors.{
  Result, ok, raised, invalid_plugin_configuration, key_error, other_error, overflow_error,
  raise_if, ◌>>◌,
}
use automation_platform.Plugins.{TriggerPlugin, get_field, has_other_keys}

abbrev microseconds : ℕ → ℕ
microseconds n = n * 1000000

-- The checks on `configuration.get("interval_seconds")`: an int, no bool, and positive.
check_seconds : Option Value → Result (Unit {0})
check_seconds (some (integer n)) = if n == 0 then raised invalid_plugin_configuration else ok tt
check_seconds _ = raised invalid_plugin_configuration

unfoldable pub validate_configuration : Fields → Result (Unit {0})
unfolding check_seconds
validate_configuration configuration =
    check_seconds (get_field "interval_seconds" configuration)
    >> raise_if (has_other_keys "interval_seconds" configuration) invalid_plugin_configuration

-- The last time that `datetime` has, in microseconds from its first.
abbrev pub latest : Time
latest = 315537897599999999

-- `after + timedelta(seconds=n)`: a time past the last one raises OverflowError.
abbrev pub forward : Time → ℕ → Result (Option Time)
forward after n =
    if ltb latest (after + microseconds n)
    then raised overflow_error
    else ok (some (after + microseconds n))

-- `after + timedelta(seconds=x)` for a float `x`, given by its text.
abbrev pub FloatShift : Type 0
FloatShift = Time → String → Result (Option Time)

-- `after + timedelta(seconds=…)`. A time before the first that `datetime` has raises OverflowError
-- too, and what is no number raises TypeError. The sum with a float is Python's own.
shifted : FloatShift → Time → Option Value → Result (Option Time)
shifted float_shift after none = raised key_error
shifted float_shift after (some (integer n)) = forward after n
shifted float_shift after (some (bool true)) = forward after 1
shifted float_shift after (some (bool false)) = forward after 0
shifted float_shift after (some (negative n)) =
    if ltb after (microseconds (suc n))
    then raised overflow_error
    else ok (some (after - microseconds (suc n)))
shifted float_shift after (some (float x)) = float_shift after x
shifted float_shift after (some _) = raised other_error

unfoldable pub next_occurrence : FloatShift → Fields → Time → Result (Option Time)
unfolding shifted
next_occurrence float_shift configuration after =
    shifted float_shift after (get_field "interval_seconds" configuration)

unfoldable pub interval : FloatShift → TriggerPlugin
unfolding validate_configuration next_occurrence
interval float_shift = record {
  plugin_type = "interval";
  validate_configuration = validate_configuration;
  next_occurrence = some (next_occurrence float_shift);
}

check_seconds-forward :
    (float_shift : FloatShift) (o : Option Value) (after : Time)
    → check_seconds o ≡ ok tt
    → (n : ℕ) × (o ≡ some (integer n)) × (0 < n) × (shifted float_shift after o ≡ forward after n)
unfolding check_seconds shifted
check_seconds-forward float_shift (some (integer n)) after h = (n, refl, ground arith, refl)
check_seconds-forward float_shift _ after h = ground arith

-- The test against a bound, either way.
module _ {A : Type 0} (bound t : ℕ) (a b : A) where
  within : t ≤ bound → (if ltb bound t then a else b) ≡ b
  within l = let q : ltb bound t ≡ false = ground arith in rw q refl

  beyond : bound < t → (if ltb bound t then a else b) ≡ a
  beyond l = let q : ltb bound t ≡ true = ground arith in rw q refl

-- A configuration that passes validation holds a positive whole number of seconds. The next
-- occurrence is that much later, unless this is past the last time that `datetime` has: then, and
-- only then, the plugin raises, and what it raises is OverflowError.
pub next_occurrence_later :
    (float_shift : FloatShift) (configuration : Fields) (after : Time)
    → validate_configuration configuration ≡ ok tt
    → (n : ℕ) × (get_field "interval_seconds" configuration ≡ some (integer n))
      × (after < after + n * 1000000)
      × (after + n * 1000000 ≤ latest
          → next_occurrence float_shift configuration after ≡ ok (some (after + n * 1000000)))
      × (latest < after + n * 1000000
          → next_occurrence float_shift configuration after ≡ raised overflow_error)
unfolding validate_configuration next_occurrence
next_occurrence_later float_shift configuration after h =
    let (n, e, pos, q) =
      check_seconds-forward float_shift (get_field "interval_seconds" configuration) after
        (ground arith) in
    let t = after + microseconds n in
    (
      n,
      e,
      omega arith,
      λ l. q ∙ within latest t (raised overflow_error) (ok (some t)) l,
      λ l. q ∙ beyond latest t (raised overflow_error) (ok (some t)) l,
    )
