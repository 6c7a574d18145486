-- ===== src/Ledger/Materialize/Steps.antt =====
-- The rounds of the loop over one event's rows: none raises, and each keeps the ledger sound.
use mathlib.Core.Path.{subst}
use mathlib.Core.List.{append_assoc}
use hz.Prelude.{
  ℕ, suc, ◌+◌, ◌≡◌, refl, ap, ◌∙◌, String, Bool, true, false, Option, none, some, List, [], ◌∷◌,
  ◌++◌, length, length-append, any, str_eq, All, Bool-cases, Result-cases, inl, inr, ok, arith, ltb,
}
use hz.Events.Revisions.{ReportedEventRevision, EventRevisionDelta}
use hz.Ledger.{type_error, value_error, Python, required_text}
use hz.Ledger.Rows.{
  EventLog, Item, Statement, revision_insert, is_older, delta_statements, written_log, SourceNotice,
}
use hz.Ledger.Materialize.{
  last_of, is_closed, skip, goes_back, attempt, write, after_attempt, unless_backwards,
  append_notice, append_notices,
}
use hz.Ledger.Materialize.Laws.{
  IsLedger, inserted, differences, inserted-append, differences-append, inserted-delta_statements,
  differences-delta_statements, opening, IsItem, IsRead, IsItem-IsRead, payload_total,
  attempt-IsLedger, attempt-Calm,
}

-- What `n` rows have made of the log `start` of an event.
pub record IsSound (start log : EventLog) (n : ℕ) : Type 0 where
  pub same : log.event_id ≡ start.event_id
  pub valid : IsLedger start.event_id log.history
  pub extended : log.history ≡ start.history ++ inserted log.statements
  pub revised : log.revisions ≡ length (inserted log.statements)
  pub differed : log.deltas ≡ length (differences log.statements)
  pub opened : log.deltas + opening start.history log.revisions ≡ log.revisions
  pub every : log.revisions + log.unchanged + log.skipped ≡ n

opening_step :
    (start new : List ReportedEventRevision) (n : ℕ)
    → n ≡ length new
    → opening (start ++ new) 1 + opening start n ≡ opening start (n + 1)
opening_step [] [] n e = ground arith
opening_step [] (r ∷ new) n e = ground arith
opening_step (s ∷ start) new n e = refl

skip-IsSound :
    (start log : EventLog) (n : ℕ) → IsSound start log n → IsSound start (skip log) (n + 1)
skip-IsSound start log n h = record {
  same = h.same;
  valid = h.valid;
  extended = h.extended;
  revised = h.revised;
  differed = h.differed;
  opened = h.opened;
  every = omega (arith, h.every);
}

unchanged-IsSound :
    (start log : EventLog) (n : ℕ)
    → IsSound start log n
    → IsSound start (record log { unchanged = log.unchanged + 1 }) (n + 1)
unchanged-IsSound start log n h = record {
  same = h.same;
  valid = h.valid;
  extended = h.extended;
  revised = h.revised;
  differed = h.differed;
  opened = h.opened;
  every = omega (arith, h.every);
}

zero_right : (n : ℕ) → n ≡ n + 0
zero_right n = omega arith

moved : (n m : ℕ) → n + 1 + m ≡ n + suc m
moved n m = omega arith

-- the statements of one written row
abbrev written :
    ReportedEventRevision → List String → SourceNotice → Option EventRevisionDelta → List Statement
written r sources p d = revision_insert r sources p ∷ delta_statements d

inserted-written :
    (r : ReportedEventRevision) (sources : List String) (p : SourceNotice)
    (d : Option EventRevisionDelta)
    → inserted (written r sources p d) ≡ r ∷ []
inserted-written r sources p d = ap (λ l. r ∷ l) (inserted-delta_statements d)

module _ (python : Python) (start : EventLog) where
  write-IsSound :
      (log : EventLog) (item : Item) (n : ℕ) (r : ReportedEventRevision)
      (d : Option EventRevisionDelta)
      → IsSound start log n
      → IsRead python item
      → IsLedger start.event_id (log.history ++ r ∷ [])
      → length (delta_statements d) + opening log.history 1 ≡ 1
      → (record_id : String) → required_text python item.row "source_record_id" ≡ ok record_id
      → (next : EventLog) × (write python log item r d ≡ ok next) × IsSound start next (n + 1)
  unfolding write written_log
  write-IsSound log item n r d h read longer counted record_id recorded =
      let (p, payload) = payload_total python item record_id read recorded in
      let new = written r (read.source_id ∷ []) p d in
      let total =
        ap length (inserted-append log.statements new)
        ∙ (length-append (inserted log.statements) (inserted new)) in
      let others =
        ap length (differences-append log.statements new)
        ∙ (length-append (differences log.statements) (differences new)) in
      (
        written_log log item r d (read.source_id ∷ []) p,
        rw (read.source, payload) refl,
        record {
          same = h.same;
          valid = longer;
          extended =
              rw
                (
                  h.extended,
                  append_assoc start.history (inserted log.statements) (r ∷ []),
                  inserted-append log.statements new,
                  inserted-written r (read.source_id ∷ []) p d,
                )
                refl;
          revised = rw (total, h.revised, inserted-delta_statements d) refl;
          differed = rw (others, h.differed, differences-delta_statements d) refl;
          opened = omega (
            arith,
            h.opened,
            counted,
            ap (λ l. opening l 1) h.extended,
            opening_step start.history (inserted log.statements) log.revisions h.revised,
          );
          every = omega (arith, h.every);
        },
      )

  goes_back_total :
      (item : Item) (previous : Option ReportedEventRevision)
      → IsRead python item
      → (b : Bool) × (goes_back python item.row previous ≡ ok b)
  unfolding goes_back
  goes_back_total item none read = (false, refl)
  goes_back_total item (some p) read =
      (ltb read.published p.published_at, rw read.published_at refl)

  attempted-IsSound :
      (log : EventLog) (item : Item) (n : ℕ)
      → IsSound start log n
      → IsItem python start.event_id item
      → (next : EventLog) × (after_attempt python log item (attempt python item.row log.history)
          ≡ ok next)
        × IsSound start next (n + 1)
  unfolding after_attempt
  attempted-IsSound log item n h i = elim (Result-cases (attempt python item.row log.history)) [
    | inl ((r, d), e) ↦
        let (longer, counted, built) =
          attempt-IsLedger python start.event_id item.row log.history r d h.valid i.named e in
        rw e (
          write-IsSound log item n r d h (IsItem-IsRead python start.event_id item i) longer counted
            built.record_id built.recorded)
    | inr (type_error, e) ↦ absurd ((attempt-Calm python item.row i.readable log.history).calm e)
    | inr (value_error, e) ↦ rw e (skip log, refl, skip-IsSound start log n h)
  ]

  timed-IsSound :
      (log : EventLog) (item : Item) (n : ℕ) (b : Bool)
      → IsSound start log n
      → IsItem python start.event_id item
      → (next : EventLog) × (unless_backwards python log item b ≡ ok next)
        × IsSound start next (n + 1)
  unfolding unless_backwards
  timed-IsSound log item n true h i = (skip log, refl, skip-IsSound start log n h)
  timed-IsSound log item n false h i = attempted-IsSound log item n h i

  append_notice-IsSound :
      (log : EventLog) (item : Item) (n : ℕ)
      → IsSound start log n
      → IsItem python start.event_id item
      → (next : EventLog) × (append_notice python log item ≡ ok next) × IsSound start next (n + 1)
  unfolding append_notice
  append_notice-IsSound log item n h i =
      elim (Bool-cases (any (str_eq item.checksum) log.seen_checksums)) [
        | inl seen ↦
            rw seen
              (record log { unchanged = log.unchanged + 1 }, refl, unchanged-IsSound start log n h)
        | inr new ↦ elim (Bool-cases (is_older item.order log.latest_source_order)) [
          | inl older ↦ rw (new, older) (skip log, refl, skip-IsSound start log n h)
          | inr later ↦ elim (Bool-cases (is_closed (last_of log.history))) [
            | inl closed ↦ rw (new, later, closed) (skip log, refl, skip-IsSound start log n h)
            | inr live ↦
                let (b, back) =
                  goes_back_total item (last_of log.history)
                    (IsItem-IsRead python start.event_id item i) in
                rw (new, later, live, back) (timed-IsSound log item n b h i)
          ]
        ]
      ]

  -- The loop over an event's rows ends, and keeps the ledger sound.
  pub append_notices-IsSound :
      (log : EventLog) (items : List Item) (n : ℕ)
      → IsSound start log n
      → All (IsItem python start.event_id) items
      → (last : EventLog) × (append_notices python log items ≡ ok last)
        × IsSound start last (n + length items)
  unfolding append_notices
  append_notices-IsSound log [] n h i = (log, refl, subst (IsSound start log) (zero_right n) h)
  append_notices-IsSound log (item ∷ rest) n h (here, later) =
      let (next, once, sound) = append_notice-IsSound log item n h here in
      let (last, others, sound') = append_notices-IsSound next rest (n + 1) sound later in
      (last, rw (once, others) refl, subst (IsSound start last) (moved n (length rest)) sound')
