-- ===== src/Events/Rules.antt =====
-- app/events/rules.py: the rules that make event candidates of observations. Observation times are
-- instants of UTC. Sums, quotients, products and roundings of floats and the texts of times and
-- numbers are the parameter `Platform`; the comparisons of floats are exact.
pub mod Grounds
pub mod Conditions
pub mod Totals
use Prim.Native.String.{◌++◌ as text_append}
use hz.Prelude.{
  ℕ, suc, ◌-◌, ◌*◌, ◌%◌, ◌^◌, String, Bool, true, false, ◌&&◌, ◌||◌, not, Option, none, some, List,
  [], ◌∷◌, ◌++◌, map, ltb, str_eq, is_some, if◌then◌else◌, Result, ok, ◌>>=◌,
}
use hz.Prelude.Int.{ℤ, pos, negsuc, ltb_ℤ, leb_ℤ}
use hz.Prelude.Dicts.{Dict, lookup, values}
use hz.Time.{hours, minutes, day_length}
use hz.Events.Models.{
  Float, finite, plus_infinity, minus_infinity, not_a_number, FactValue, decimal, text, flag,
  EvidenceFact, EventCandidate, CandidateError, build_candidate, EvidenceClass, Severity,
  Confidence,
}

pub record Platform : Type 0 where
  pub sum : List Float → Float
  pub divide : Float → Float → Float
  pub multiply : Float → Float → Float
  pub round : Float → ℕ → Float
  pub isoformat : ℕ → String
  pub date_isoformat : ℕ → String
  pub fixed : ℕ → Float → String

-- `<` on floats, which no comparison with NaN satisfies
abbrev pub float_lt : Float → Float → Bool
float_lt (finite a) (finite b) = ltb_ℤ a b
float_lt (finite a) plus_infinity = true
float_lt minus_infinity (finite b) = true
float_lt minus_infinity plus_infinity = true
float_lt _ _ = false

-- `<=` on floats
abbrev pub float_le : Float → Float → Bool
float_le (finite a) (finite b) = leb_ℤ a b
float_le (finite a) plus_infinity = true
float_le plus_infinity plus_infinity = true
float_le minus_infinity (finite b) = true
float_le minus_infinity plus_infinity = true
float_le minus_infinity minus_infinity = true
float_le _ _ = false

-- the floats that the rules name: 0.0, 100.0, 500.0, 0.20, 0.50, 49.8 and 50.2
abbrev pub float_whole : ℕ → Float
float_whole n = finite (pos (n * 2 ^ 1074))

abbrev pub minimum_share : Float
minimum_share = finite (pos (3602879701896397 * 2 ^ 1020))

abbrev pub milestone_threshold : Float
milestone_threshold = finite (pos (2 ^ 1073))

abbrev pub lower_hz : Float
lower_hz = finite (pos (3504363460047667 * 2 ^ 1028))

abbrev pub upper_hz : Float
upper_hz = finite (pos (3532510957718733 * 2 ^ 1028))

-- `max(0.0, value)`
unfoldable pub at_least_zero : Float → Float
at_least_zero value = if float_lt (float_whole 0) value then value else float_whole 0

-- `abs(value)`
unfoldable pub abs : Float → Float
abs (finite (negsuc n)) = finite (pos (suc n))
abs minus_infinity = plus_infinity
abs value = value

-- `max(mapping, key=mapping.__getitem__)` with its value: the first entry of the largest value. The
-- keys of a mapping are distinct.
unfoldable pub leader_from : String × Float → Dict String Float → String × Float
leader_from best [] = best
leader_from best (entry ∷ rest) = leader_from (if float_lt best.1 entry.1 then entry else best) rest

-- `replace(minute=0, second=0, microsecond=0)`, and its like on multiples of five minutes
abbrev pub hour_of : ℕ → ℕ
hour_of t = t - t % hours 1

abbrev pub five_minutes_of : ℕ → ℕ
five_minutes_of t = t - t % minutes 5

fact : String → String → String → FactValue → Option String → ℕ → List String → EvidenceFact
fact fact_id metric label value unit occurred_at source_record_ids = record {
  fact_id = fact_id;
  metric = metric;
  label = label;
  value = value;
  unit = unit;
  observed_at = occurred_at;
  source_record_ids = source_record_ids;
}

-- `if reported_cause: facts.append(…)`
cause_facts : Option String → ℕ → List String → List EvidenceFact
unfolding fact
cause_facts none t ids = []
cause_facts (some cause) t ids =
    if str_eq cause ""
    then []
    else fact "cause" "reported_cause" "reported cause" (text cause) none t ids ∷ []

-- `return EventCandidate(…)`
unfoldable pub emit : EventCandidate → Result CandidateError (Option EventCandidate)
emit c = do candidate ← build_candidate c; ok (some candidate)

infixr 45 ◌&◌
abbrev ◌&◌ : String → String → String
a & b = text_append a b

module _ (platform : Platform) where
  unfoldable pub total_of : Dict String Float → Float
  total_of generation = platform.sum (map at_least_zero (values generation))

  unfoldable pub leader_candidate : String → Float → Float → ℕ → List String → EventCandidate
  unfolding fact
  leader_candidate leader output share t ids = record {
    rule_id = "generation.leader_change";
    rule_version = 1;
    event_type = "generation_leader_change";
    subject_type = "fuel";
    subject_id = some leader;
    occurred_at = t;
    severity = Severity.notable;
    evidence_class = EvidenceClass.derived;
    confidence = Confidence.high;
    confidence_reasons = "Calculated from coherent generation-mix observations" ∷ [];
    dedupe_key = "generation.leader_change:" & leader & ":" & platform.isoformat (hour_of t);
    facts =
        fact "leader" "generation_leader" "largest generation source" (text leader) none t ids
        ∷ fact "output" ("generation." & leader) "current output"
            (decimal (platform.round output 1)) (some "MW") t ids
        ∷ fact "share" ("generation_share." & leader) "share of generation"
            (decimal (platform.round (platform.multiply share (float_whole 100)) 1)) (some "%") t
            ids
        ∷ [];
    cause_reported = false;
  }

  -- the branches after `if not previous or not current`
  unfoldable pub leader_change_between :
      String × Float
      → String × Float
      → Float
      → ℕ
      → List String
      → Result CandidateError (Option EventCandidate)
  leader_change_between previous current total t ids =
      if str_eq previous.0 current.0 || float_le total (float_whole 0)
      then ok none
      else let share = platform.divide current.1 total in
        if float_lt share minimum_share
        then ok none
        else emit (leader_candidate current.0 current.1 share t ids)

  unfoldable pub generation_leader_change :
      Dict String Float
      → Dict String Float
      → ℕ
      → List String
      → Result CandidateError (Option EventCandidate)
  unfolding leader_change_between
  generation_leader_change [] current t ids = ok none
  generation_leader_change (p ∷ previous) [] t ids = ok none
  generation_leader_change (p ∷ previous) (c ∷ current) t ids =
      leader_change_between (leader_from p previous) (leader_from c current)
        (total_of (c ∷ current)) t ids

  unfoldable pub position_of : Float → String
  position_of flow = if float_lt (float_whole 0) flow then "importing" else "exporting"

  unfoldable pub reversal_candidate : Float → ℕ → List String → EventCandidate
  unfolding fact
  reversal_candidate flow t ids = record {
    rule_id = "interconnector.net_reversal";
    rule_version = 1;
    event_type = "energy_position_reversal";
    subject_type = "system";
    subject_id = some "gb";
    occurred_at = t;
    severity = Severity.notable;
    evidence_class = EvidenceClass.derived;
    confidence = Confidence.high;
    confidence_reasons = "Direction persisted across at least two observations" ∷ [];
    dedupe_key =
        "interconnector.net_reversal:" & position_of flow & ":" & platform.isoformat (hour_of t);
    facts =
        fact "position" "energy_position" "new energy position" (text (position_of flow)) none t ids
        ∷ fact "net_flow" "interconnector.net_flow" "net interconnector flow"
            (decimal (platform.round flow 1)) (some "MW") t ids
        ∷ [];
    cause_reported = false;
  }

  unfoldable pub crossed : Float → Float → Bool
  crossed previous current =
      float_lt previous (float_whole 0) && float_lt (float_whole 0) current
      || float_lt (float_whole 0) previous && float_lt current (float_whole 0)

  unfoldable pub interconnector_reversal :
      Float → Float → ℕ → List String → ℤ → Result CandidateError (Option EventCandidate)
  interconnector_reversal previous current t ids sustained_samples =
      if not (crossed previous current)
        || float_lt (abs current) (float_whole 100)
        || ltb_ℤ sustained_samples (pos 2)
      then ok none
      else emit (reversal_candidate current t ids)

  -- `generation_mw.get(fuel, 0.0)`, not below zero
  renewable_part : Dict String Float → String → Float
  renewable_part generation fuel =
      at_least_zero (elim (lookup str_eq fuel generation) [ none ↦ float_whole 0 | some mw ↦ mw ])

  unfoldable pub renewables_of : Dict String Float → Float
  unfolding renewable_part
  renewables_of generation =
      platform.sum (map (renewable_part generation) ("wind" ∷ "solar" ∷ "hydro" ∷ []))

  -- `occurred_at.date().isoformat()` is the parameter's `date_isoformat`.
  unfoldable pub milestone_candidate : Float → Float → Float → ℕ → List String → EventCandidate
  unfolding fact
  milestone_candidate renewables share threshold t ids = record {
    rule_id = "generation.renewable_share";
    rule_version = 1;
    event_type = "renewable_share_milestone";
    subject_type = "system";
    subject_id = some "gb";
    occurred_at = t;
    severity = Severity.notable;
    evidence_class = EvidenceClass.derived;
    confidence = Confidence.high;
    confidence_reasons = "Calculated from a coherent generation-mix observation" ∷ [];
    dedupe_key =
        "generation.renewable_share:"
        & platform.fixed 2 threshold
        & ":"
        & platform.date_isoformat t;
    facts =
        fact "share" "renewable_share" "renewable share of generation"
          (decimal (platform.round (platform.multiply share (float_whole 100)) 1)) (some "%") t ids
        ∷ fact "output" "renewable_output" "renewable output"
            (decimal (platform.round renewables 1)) (some "MW") t ids
        ∷ [];
    cause_reported = false;
  }

  unfoldable pub renewable_share_milestone :
      Dict String Float → ℕ → List String → Float → Result CandidateError (Option EventCandidate)
  renewable_share_milestone generation t ids threshold =
      let total = total_of generation in
      let renewables = renewables_of generation in
      let share = platform.divide renewables total in
      if float_le total (float_whole 0) || float_lt share threshold
      then ok none
      else emit (milestone_candidate renewables share threshold t ids)

  unfoldable pub direction_of : Float → String
  direction_of frequency = if float_lt frequency lower_hz then "low" else "high"

  unfoldable pub excursion_candidate : Float → ℕ → List String → EventCandidate
  unfolding fact
  excursion_candidate frequency t ids = record {
    rule_id = "frequency.excursion";
    rule_version = 1;
    event_type = "frequency_excursion";
    subject_type = "system";
    subject_id = some "gb";
    occurred_at = t;
    severity = Severity.important;
    evidence_class = EvidenceClass.observed;
    confidence = Confidence.high;
    confidence_reasons = "Direct frequency observation outside the configured normal band" ∷ [];
    dedupe_key =
        "frequency.excursion:"
        & direction_of frequency
        & ":"
        & platform.isoformat (five_minutes_of t);
    facts =
        fact "frequency" "frequency" "observed grid frequency"
          (decimal (platform.round frequency 3)) (some "Hz") t ids
        ∷ fact "direction" "frequency_direction" "excursion direction"
            (text (direction_of frequency)) none t ids
        ∷ [];
    cause_reported = false;
  }

  unfoldable pub in_band : Float → Bool
  in_band frequency = float_le lower_hz frequency && float_le frequency upper_hz

  unfoldable pub frequency_excursion :
      Float → ℕ → List String → Result CandidateError (Option EventCandidate)
  frequency_excursion frequency t ids =
      if in_band frequency then ok none else emit (excursion_candidate frequency t ids)

  -- The arguments are those of the source in its order, the reported cause last.
  unfoldable pub reported_unavailability :
      String
      → String
      → Float
      → Bool
      → ℕ
      → List String
      → Option String
      → Result CandidateError EventCandidate
  unfolding fact cause_facts
  reported_unavailability asset_id asset_name unavailable_mw planned t ids reported_cause =
      let facts =
        fact "asset" "unavailable_asset" "reported unavailable asset" (text asset_name) none t ids
        ∷ fact "capacity" "unavailable_capacity" "reported unavailable capacity"
            (decimal (platform.round unavailable_mw 1)) (some "MW") t ids
        ∷ fact "planned" "unavailability_planned" "planned unavailability" (flag planned) none t ids
        ∷ [] in
      build_candidate (record {
        rule_id = "remit.reported_unavailability";
        rule_version = 1;
        event_type = "reported_unit_unavailability";
        subject_type = "asset";
        subject_id = some asset_id;
        occurred_at = t;
        severity =
            if float_le (float_whole 500) unavailable_mw
            then Severity.important
            else Severity.notable;
        evidence_class = EvidenceClass.reported;
        confidence = Confidence.high;
        confidence_reasons = "Published in an authoritative REMIT notice" ∷ [];
        dedupe_key =
            "remit.reported_unavailability:" & asset_id & ":" & platform.isoformat (hour_of t);
        facts = facts ++ cause_facts reported_cause t ids;
        cause_reported = is_some reported_cause;
      })
