-- ===== src/Ledger.antt =====
-- app/persistence/event_lifecycle.py: the ledger of reported notices. This file has the values of a
-- source row and what is read from them; Revision makes a revision of a row, Rows has the rows of the
-- ledger, and Materialize appends source rows to it. A value of a row is one that the database driver
-- gives; the field `evidence` holds `none` where it is not a mapping. A revision number `True` is the
-- integer 1.
pub mod Revision
pub mod Rows
pub mod Materialize
use Prim.Native.Nat.{Ordering, compare}
use Prim.Native.String.{◌++◌ as text_append, compare as text_compare}
use hz.Prelude.{
  ℕ, String, Bool, true, false, not, Option, none, some, List, [], ◌∷◌, any, str_eq, if◌then◌else◌,
  Result, ok, err, raise_if, ◌>>=◌, ◌>>◌,
}
use hz.Prelude.Int.{ℤ, pos}
use hz.Prelude.Dicts.{Dict, lookup}
use hz.Prelude.Orders.{first_of, compare_ℤ}
use hz.Time.{Datetime, as_utc}
use hz.Events.Models.{EventStatus, opened, updated, resolved, superseded, withdrawn, Float}
use hz.Events.Rules.{float_lt, float_le, float_whole}

-- `ValueError` with the classes below it. `type_error` is `TypeError` or another exception; besides
-- `TypeError` only `float` raises one here, `OverflowError` on a large integer.
pub data LedgerError : Type 0 where
  type_error value_error : LedgerError

pub data Value : Type 0 where
  -- `None`, and what `get` gives for a missing key
  null : Value
  text : String → Value
  integer : ℤ → Value
  float : Float → Value
  time : Datetime → Value
  -- any other object, by a number
  other : ℕ → Value

pub record Notice : Type 0 where
  pub fields : Dict String Value
  pub evidence : Option (Dict String Value)

-- What the code takes from Python and its library.
pub record Python : Type 0 where
  -- `str(value).strip()`
  pub stripped : Value → String
  -- `text.casefold()`
  pub casefold : String → String
  -- `"_".join(text.casefold().replace("-", " ").split())`
  pub joined_words : String → String
  -- `_SHA256_PATTERN.fullmatch(text) is not None`
  pub is_sha256 : String → Bool
  -- `sha256(text.encode("utf-8")).hexdigest()[:20]`
  pub digest : String → String
  -- `float(value)`
  pub float_of : Value → Result LedgerError Float
  -- `before == after` for a float or `None`, and for a time or `None`
  pub same_number : Option ℤ → Value → Bool
  pub same_time : Option ℕ → Value → Bool

null_or : Option Value → Value
null_or none = null
null_or (some value) = value

-- `mapping.get(field)`
pub get : Dict String Value → String → Value
unfolding null_or
get mapping field = null_or (lookup str_eq field mapping)

-- `_aware_time`
pub aware_time : Value → Result LedgerError ℕ
aware_time (time value) = as_utc value_error value
aware_time _ = err value_error

pub optional_aware_time : Value → Result LedgerError (Option ℕ)
unfolding aware_time
optional_aware_time null = ok none
optional_aware_time value = do t ← aware_time value; ok (some t)

module _ (python : Python) where
  unless_blank : String → Option String
  unless_blank s = if str_eq s "" then none else some s

  -- `_text`
  pub text_of : Value → Option String
  unfolding unless_blank
  text_of null = none
  text_of value = unless_blank (python.stripped value)

  or_value_error : Option String → Result LedgerError String
  or_value_error none = err value_error
  or_value_error (some s) = ok s

  pub required_text : Notice → String → Result LedgerError String
  unfolding or_value_error
  required_text notice field = or_value_error (text_of (get notice.fields field))

  number_unless : (Float → Bool) → Value → Result LedgerError (Option Float)
  number_unless refused null = ok none
  number_unless refused value = do
    number ← python.float_of value
    raise_if (refused number) value_error
    ok (some number)

  pub optional_nonnegative_number : Value → Result LedgerError (Option Float)
  unfolding number_unless
  optional_nonnegative_number = number_unless (λ x. float_lt x (float_whole 0))

  pub optional_positive_number : Value → Result LedgerError (Option Float)
  unfolding number_unless
  optional_positive_number = number_unless (λ x. float_le x (float_whole 0))

  words_of : Option String → String
  words_of none = ""
  words_of (some s) = python.joined_words s

  pub normalized_status : Value → String
  unfolding words_of
  normalized_status value = words_of (text_of value)

  pub reported_planning_state : Value → Option Bool
  reported_planning_state value =
      let normalized = normalized_status value in
      if str_eq normalized "planned"
      then some true
      else if str_eq normalized "unplanned"
      then some false
      else none

  pub checksum : Notice → Result LedgerError String
  checksum notice = do
    found ← required_text notice "content_sha256"
    let value = python.casefold found
    raise_if (not (python.is_sha256 value)) value_error
    ok value

  -- `reported_notice_event_id` of app/events/identity.py
  unfoldable pub reported_notice_event_id : String → String → String → String
  reported_notice_event_id source_id notice_kind external_id = text_append "evt_" (
      python.digest (
        text_append "reported-notice:v1:" (
          text_append source_id
            (text_append ":" (text_append notice_kind (text_append ":" external_id))))))

  pub event_id : Notice → Result LedgerError String
  event_id notice = do
    source_id ← required_text notice "source_id"
    notice_kind ← required_text notice "notice_kind"
    external_id ← required_text notice "external_id"
    ok (reported_notice_event_id source_id notice_kind external_id)

-- The tuple of `_source_order`: the first two places, two times, the revision key, the checksum.
pub record SourceOrder : Type 0 where
  pub unnumbered : ℕ
  pub number : ℤ
  pub published_at : ℕ
  pub retrieved_at : ℕ
  pub revision_key : String
  pub evidence_checksum : String

-- the order of these tuples
unfoldable pub order_compare : SourceOrder → SourceOrder → Ordering
order_compare x y = first_of (compare x.unnumbered y.unnumbered) (
    first_of (compare_ℤ x.number y.number) (
      first_of (compare x.published_at y.published_at) (
        first_of (compare x.retrieved_at y.retrieved_at) (
          first_of (text_compare x.revision_key y.revision_key)
            (text_compare x.evidence_checksum y.evidence_checksum)))))

-- `(0, source_revision)`, or `(1, 0)` where the revision is not an integer
prefix_of : Value → ℕ × ℤ
prefix_of (integer n) = (0, n)
prefix_of _ = (1, pos 0)

module _ (python : Python) where
  pub source_order : Notice → Result LedgerError SourceOrder
  unfolding prefix_of
  source_order notice = do
    published_at ← aware_time (get notice.fields "published_at")
    retrieved_at ← aware_time (get notice.fields "retrieved_at")
    revision_key ← required_text python notice "revision_key"
    evidence_checksum ← checksum python notice
    let (unnumbered, number) = prefix_of (get notice.fields "revision_number")
    ok (record {
      unnumbered = unnumbered;
      number = number;
      published_at = published_at;
      retrieved_at = retrieved_at;
      revision_key = revision_key;
      evidence_checksum = evidence_checksum;
    })
