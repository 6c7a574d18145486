-- ===== src/Events/Observed/Copy.antt =====
-- app/events/observed.py: the public title and summary of a candidate, made of its facts.
use Prim.Native.String.{◌++◌ as text_append}
use hz.Prelude.{
  ◌+◌, ◌%◌, ◌^◌, String, Bool, false, Option, none, some, List, [], ◌∷◌, ◌==◌, str_eq,
  if◌then◌else◌, Result, ok, err, ◌>>=◌,
}
use hz.Prelude.Int.{pos_part, neg_part}
use hz.Prelude.Dicts.{Dict, lookup, insert}
use hz.Events.Models.{Float, finite, whole, decimal, text, flag, EvidenceFact, EventCandidate}
use hz.Events.Rules.{float_lt, float_whole, abs}
use hz.Events.Observed.{ObservedError, not_text, not_numeric, unsupported_event_type, Rendering}

-- `{fact.fact_id: fact for fact in candidate.facts}`, on top of `facts`
unfoldable pub facts_by_id : Dict String EvidenceFact → List EvidenceFact → Dict String EvidenceFact
facts_by_id facts [] = facts
facts_by_id facts (f ∷ rest) = facts_by_id (insert str_eq f.fact_id f facts) rest

value_as_text : Option EvidenceFact → Result ObservedError String
value_as_text none = err not_text
value_as_text (some f) = elim f.value [
  | text s ↦ if str_eq s "" then err not_text else ok s
  | _ ↦ err not_text
]

text_value : Dict String EvidenceFact → String → Result ObservedError String
unfolding value_as_text
text_value facts fact_id = value_as_text (lookup str_eq fact_id facts)

-- `value.is_integer()`
is_integer : Float → Bool
is_integer (finite n) = (pos_part n + neg_part n) % 2 ^ 1074 == 0
is_integer other = false

infixr 45 ◌&◌
abbrev ◌&◌ : String → String → String
a & b = text_append a b

module _ (rendering : Rendering) where
  value_as_number : Option EvidenceFact → Result ObservedError Float
  value_as_number none = err not_numeric
  value_as_number (some f) = elim f.value [
    | whole n ↦ ok (rendering.float_of n)
    | decimal x ↦ ok x
    | text s ↦ err not_numeric
    | flag b ↦ err not_numeric
  ]

  number_value : Dict String EvidenceFact → String → Result ObservedError Float
  unfolding value_as_number
  number_value facts fact_id = value_as_number (lookup str_eq fact_id facts)

  format_number : Float → String
  unfolding is_integer
  format_number value =
      if is_integer value then rendering.grouped 0 value else rendering.grouped 1 value

  copy_leader : Dict String EvidenceFact → Result ObservedError (String × String)
  unfolding text_value number_value format_number
  copy_leader facts = do
    named ← text_value facts "leader"
    let leader = rendering.spaced named
    output ← number_value facts "output"
    share ← number_value facts "share"
    ok (
      rendering.capitalize leader & " became the largest observed generation category",
      "The coherent generation snapshot measured "
          & leader
          & " at "
          & format_number output
          & " MW, "
          & rendering.numbers.fixed 1 share
          & "% of observed generation.",
    )

  copy_milestone : Dict String EvidenceFact → Result ObservedError (String × String)
  unfolding number_value format_number
  copy_milestone facts = do
    share ← number_value facts "share"
    output ← number_value facts "output"
    ok (
      "Renewables reached " & rendering.numbers.fixed 1 share & "% of observed generation",
      "The coherent generation snapshot measured wind, solar and hydro at "
          & format_number output
          & " MW, "
          & rendering.numbers.fixed 1 share
          & "% of the observed mix.",
    )

  copy_reversal : Dict String EvidenceFact → Result ObservedError (String × String)
  unfolding text_value number_value format_number
  copy_reversal facts = do
    position ← text_value facts "position"
    flow ← number_value facts "net_flow"
    let direction = if float_lt (float_whole 0) flow then "into Britain" else "from Britain"
    ok (
      "Net interconnector flow switched to " & position,
      "The direction persisted across two complete connector snapshots; signed net flow was "
          & format_number (abs flow)
          & " MW "
          & direction
          & ".",
    )

  copy_excursion : Dict String EvidenceFact → Result ObservedError (String × String)
  unfolding text_value number_value
  copy_excursion facts = do
    hertz ← number_value facts "frequency"
    direction ← text_value facts "direction"
    let relative = if str_eq direction "low" then "below 49.8 Hz" else "above 50.2 Hz"
    ok (
      "Observed grid frequency was " & direction,
      "The measured frequency was " & rendering.numbers.fixed 3 hertz & " Hz, " & relative & ".",
    )

  unfoldable pub safe_copy : EventCandidate → Result ObservedError (String × String)
  unfolding copy_leader copy_milestone copy_reversal copy_excursion
  safe_copy c =
      let facts = facts_by_id [] c.facts in
      if str_eq c.event_type "generation_leader_change"
      then copy_leader facts
      else if str_eq c.event_type "renewable_share_milestone"
      then copy_milestone facts
      else if str_eq c.event_type "energy_position_reversal"
      then copy_reversal facts
      else if str_eq c.event_type "frequency_excursion"
      then copy_excursion facts
      else err unsupported_event_type
