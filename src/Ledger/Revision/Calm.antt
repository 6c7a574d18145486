-- ===== src/Ledger/Revision/Calm.antt =====
-- Where `float` raises nothing but a `ValueError`, the making of a revision does neither.
use hz.Prelude.{
  ℕ, ◌+◌, ◌≢◌, String, Bool, true, false, Option, none, some, str_eq, not, ◌==◌, ◌&&◌, ltb, is_some,
  if◌then◌else◌, any, Result, ok, err, raise_if, ◌>>=◌, arith,
}
use hz.Prelude.Dicts.{Dict}
use hz.Time.{naive, aware}
use hz.Events.Models.{EventStatus, opened, updated, resolved, withdrawn, status_eq, Float, finite}
use hz.Events.Revisions.{ReportedEventRevision, RevisionError}
use hz.Ledger.{
  LedgerError, type_error, value_error, Value, Notice, Python, get, text_of, required_text,
  aware_time, optional_aware_time, optional_nonnegative_number, optional_positive_number, checksum,
  event_id, or_value_error, number_unless, normalized_status, null, time,
}
use hz.Events.Rules.{float_lt, float_le, float_whole}
use hz.Ledger.Revision.{
  as_value_error, withdrawn_source_statuses, resolved_source_statuses, superseded_source_statuses,
  check_previous, lifecycle_status, finite_number, read_times, read_numbers, read_revision,
  build_reported_notice_revision, replacement_of, reported_replacement_event_id, replacement_in,
  status_with,
}

-- the call raises nothing but a `ValueError`
pub record Calm {κ} {A : Type κ} (r : Result LedgerError A) : Type κ where
  pub calm : r ≢ err type_error

pub ok-Calm {κ} : {A : Type κ} (a : A) → Calm (ok a)
ok-Calm a = record { calm = λ h. ground arith }

pub err-Calm {κ} : {A : Type κ} → Calm {A = A} (err value_error)
err-Calm = record { calm = λ h. ground arith }

pub bind-Calm {κ ι} :
    {A : Type κ} {B : Type ι} (r : Result LedgerError A) (k : A → Result LedgerError B)
    → Calm r
    → ((a : A) → Calm (k a))
    → Calm (r >>= k)
bind-Calm (err type_error) k c f = absurd (c.calm (λ i. err type_error))
bind-Calm (err value_error) k c f = err-Calm
bind-Calm (ok a) k c f = f a

raise_if-Calm : (test : Bool) → Calm (raise_if test value_error)
raise_if-Calm true = err-Calm
raise_if-Calm false = ok-Calm tt

pub as_value_error-Calm {κ} : {A : Type κ} (r : Result RevisionError A) → Calm (as_value_error r)
unfolding as_value_error
as_value_error-Calm (err e) = err-Calm
as_value_error-Calm (ok a) = ok-Calm a

aware_time-Calm : (value : Value) → Calm (aware_time value)
unfolding aware_time
aware_time-Calm (time naive) = err-Calm
aware_time-Calm (time (aware t)) = ok-Calm t
aware_time-Calm _ = err-Calm

optional_aware_time-Calm : (value : Value) → Calm (optional_aware_time value)
unfolding optional_aware_time
optional_aware_time-Calm null = ok-Calm none
optional_aware_time-Calm value =
    bind-Calm (aware_time value) _ (aware_time-Calm value) (λ t. ok-Calm (some t))

finite_number-Calm : (number : Option Float) → Calm (finite_number number)
unfolding finite_number
finite_number-Calm none = ok-Calm none
finite_number-Calm (some (finite n)) = ok-Calm (some n)
finite_number-Calm (some _) = err-Calm

module _ (python : Python) where
  or_value_error-Calm : (found : Option String) → Calm (or_value_error python found)
  unfolding or_value_error
  or_value_error-Calm none = err-Calm
  or_value_error-Calm (some s) = ok-Calm s

  required_text-Calm : (notice : Notice) (field : String) → Calm (required_text python notice field)
  unfolding required_text
  required_text-Calm notice field = or_value_error-Calm (text_of python (get notice.fields field))

  checksum-Calm : (notice : Notice) → Calm (checksum python notice)
  unfolding checksum
  checksum-Calm notice =
      bind-Calm (required_text python notice "content_sha256") _ (required_text-Calm notice _)
        (λ found.
          bind-Calm (raise_if (not (python.is_sha256 (python.casefold found))) value_error) _
            (raise_if-Calm _) (λ u. ok-Calm _))

  event_id-Calm : (notice : Notice) → Calm (event_id python notice)
  unfolding event_id
  event_id-Calm notice =
      bind-Calm (required_text python notice "source_id") _ (required_text-Calm notice _) (λ s.
        bind-Calm (required_text python notice "notice_kind") _ (required_text-Calm notice _) (λ k.
          bind-Calm (required_text python notice "external_id") _ (required_text-Calm notice _)
            (λ x. ok-Calm _)))

  check_previous-Calm :
      (previous : Option ReportedEventRevision) (id : String) (number : ℕ)
      → Calm (check_previous python previous id number)
  unfolding check_previous
  check_previous-Calm none id number = ok-Calm tt
  check_previous-Calm (some previous) id number =
      bind-Calm (raise_if (not (str_eq previous.event_id id)) value_error) _ (raise_if-Calm _)
        (λ u. raise_if-Calm (not (previous.revision + 1 == number)))

  replacement_of-Calm :
      (notice : Notice) (explicit external : Option String)
      → Calm (replacement_of python notice explicit external)
  unfolding replacement_of
  replacement_of-Calm notice (some explicit) external = ok-Calm _
  replacement_of-Calm notice none none = ok-Calm none
  replacement_of-Calm notice none (some external) =
      bind-Calm (required_text python notice "source_id") _ (required_text-Calm notice _) (λ s.
        bind-Calm (required_text python notice "notice_kind") _ (required_text-Calm notice _)
          (λ k. ok-Calm _))

  replacement_in-Calm :
      (notice : Notice) (evidence : Option (Dict String Value))
      → Calm (replacement_in python notice evidence)
  unfolding replacement_in
  replacement_in-Calm notice none = ok-Calm none
  replacement_in-Calm notice (some evidence) = replacement_of-Calm notice _ _

  status_with-Calm : (replacement : Option String) → Calm (status_with python replacement)
  unfolding status_with
  status_with-Calm none = err-Calm
  status_with-Calm (some replacement) = ok-Calm _

  superseded-Calm :
      (notice : Notice) → Calm (reported_replacement_event_id python notice >>= status_with python)
  unfolding reported_replacement_event_id
  superseded-Calm notice =
      bind-Calm (replacement_in python notice notice.evidence) _
        (replacement_in-Calm notice notice.evidence) status_with-Calm

  if-Calm {κ} :
      {A : Type κ} (test : Bool) (r s : Result LedgerError A)
      → Calm r
      → Calm s
      → Calm (if test then r else s)
  if-Calm true r s c d = c
  if-Calm false r s c d = d

  lifecycle_status-Calm :
      (notice : Notice) (previous : Option ReportedEventRevision)
      → Calm (lifecycle_status python notice previous)
  unfolding lifecycle_status
  lifecycle_status-Calm notice previous =
      let normalized = normalized_status python (get notice.fields "event_status") in
      if-Calm (any (str_eq normalized) withdrawn_source_statuses) _ _ (ok-Calm (withdrawn, none)) (
        if-Calm (any (str_eq normalized) resolved_source_statuses) _ _ (ok-Calm (resolved, none)) (
          if-Calm (any (str_eq normalized) superseded_source_statuses) _ _ (superseded-Calm notice)
            (ok-Calm (if is_some previous then updated else opened, none))))

  read_times-Calm : (notice : Notice) → Calm (read_times python notice)
  unfolding read_times
  read_times-Calm notice = bind-Calm (aware_time _) _ (aware_time-Calm _) (λ t.
      bind-Calm (optional_aware_time _) _ (optional_aware_time-Calm _)
        (λ s. bind-Calm (optional_aware_time _) _ (optional_aware_time-Calm _) (λ e. ok-Calm _)))

  -- Where the value is not `None`, `float` of it raises nothing but a `ValueError`.
  abbrev pub ReadsNumber : Value → Type 0
  ReadsNumber null = Unit
  ReadsNumber value = Calm (python.float_of value)

  -- so for the two capacities of a row
  pub record IsReadable (notice : Notice) : Type 0 where
    pub unavailable : ReadsNumber (get notice.fields "unavailable_capacity_mw")
    pub normal : ReadsNumber (get notice.fields "normal_capacity_mw")

  number_unless-Calm :
      (refused : Float → Bool) (value : Value)
      → ReadsNumber value
      → Calm (number_unless python refused value)
  unfolding number_unless
  number_unless-Calm refused null h = ok-Calm none
  number_unless-Calm refused value h = bind-Calm (python.float_of value) _ h (λ number.
      bind-Calm (raise_if (refused number) value_error) _ (raise_if-Calm _)
        (λ u. ok-Calm (some number)))

  nonnegative-Calm :
      (value : Value) → ReadsNumber value → Calm (optional_nonnegative_number python value)
  unfolding optional_nonnegative_number
  nonnegative-Calm value h = number_unless-Calm (λ x. float_lt x (float_whole 0)) value h

  positive-Calm : (value : Value) → ReadsNumber value → Calm (optional_positive_number python value)
  unfolding optional_positive_number
  positive-Calm value h = number_unless-Calm (λ x. float_le x (float_whole 0)) value h

  read_numbers-Calm : (notice : Notice) → IsReadable notice → Calm (read_numbers python notice)
  unfolding read_numbers
  read_numbers-Calm notice h =
      bind-Calm (optional_nonnegative_number python (get notice.fields "unavailable_capacity_mw")) _
        (nonnegative-Calm (get notice.fields "unavailable_capacity_mw") h.unavailable)
        (λ u.
          bind-Calm (optional_positive_number python (get notice.fields "normal_capacity_mw")) _
            (positive-Calm (get notice.fields "normal_capacity_mw") h.normal) (λ n. ok-Calm (u, n)))

  read_revision-Calm :
      (notice : Notice) (number : ℕ) (previous : Option ReportedEventRevision) (id : String)
      (state : EventStatus × Option String)
      → IsReadable notice
      → Calm (read_revision python notice number previous id state)
  unfolding read_revision
  read_revision-Calm notice number previous id state h =
      bind-Calm (required_text python notice "notice_kind") _ (required_text-Calm notice _) (λ k.
        bind-Calm (read_times python notice) _ (read_times-Calm notice) (λ times.
          bind-Calm (read_numbers python notice) _ (read_numbers-Calm notice h) (λ numbers.
            bind-Calm (checksum python notice) _ (checksum-Calm notice) (λ c.
              bind-Calm (required_text python notice "source_record_id") _
                (required_text-Calm notice _)
                (λ i. bind-Calm (finite_number numbers.0) _ (finite_number-Calm numbers.0) (λ u.
                  bind-Calm (finite_number numbers.1) _ (finite_number-Calm numbers.1)
                    (λ n. ok-Calm _)))))))

  -- The making of a revision of such a row raises nothing but a `ValueError`.
  pub build-Calm :
      (notice : Notice) (number : ℕ) (previous : Option ReportedEventRevision)
      → IsReadable notice
      → Calm (build_reported_notice_revision python notice number previous)
  unfolding build_reported_notice_revision
  build-Calm notice number previous h =
      bind-Calm (raise_if (ltb number 1) value_error) _ (raise_if-Calm _) (λ u.
        bind-Calm
          (raise_if (if is_some previous then number == 1 else not (number == 1)) value_error) _
          (raise_if-Calm _)
          (λ v. bind-Calm (event_id python notice) _ (event_id-Calm notice) (λ id.
            bind-Calm (check_previous python previous id number) _
              (check_previous-Calm previous id number)
              (λ w.
                bind-Calm (lifecycle_status python notice previous) _
                  (lifecycle_status-Calm notice previous)
                  (λ state.
                    bind-Calm
                      (raise_if (not (is_some previous) && not (status_eq state.0 opened))
                        value_error)
                      _ (raise_if-Calm _)
                      (λ x.
                        bind-Calm (read_revision python notice number previous id state) _
                          (read_revision-Calm notice number previous id state h)
                          (λ made. as_value_error-Calm _)))))))
