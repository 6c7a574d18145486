-- ===== src/Events/Revisions/History.antt =====
-- Histories: the chain of revisions that the validator accepts, and the append to it.
use hz.Prelude.{
  String, Bool, ℕ, zero, suc, ◌+◌, ◌≤◌, ◌<◌, ◌≡◌, Result-cases, inl, inr, false, some, List, [],
  ◌∷◌, ◌++◌, ok, Result, arith, eq_iff, ◌>>=◌, refl, sym, ◌∙◌, any, last_or, get_elem?, str_eq, not,
}
use hz.Events.Revisions.{
  ReportedEventRevision, RevisionError, diff_revisions, is_terminal, EventRevisionDelta,
  EventLifecycleHistory, RevisionAppendResult, append_revision, build_history, validate_pairs,
  current,
}
use hz.Events.Revisions.Diff.{Follows, diff-Follows}

-- each revision of the list, after the given one, may follow the one before it
abbrev pub IsChain : ReportedEventRevision → List ReportedEventRevision → Type 0
IsChain r [] = Unit
IsChain r (s ∷ rest) = Follows r s × IsChain s rest

-- the check of the pairs, after one more revision
validate_pairs-append :
    (r s : ReportedEventRevision) (rest : List ReportedEventRevision)
    → validate_pairs (r ∷ rest) ≡ ok tt
    → validate_pairs (r ∷ (rest ++ s ∷ [])) ≡ (diff_revisions (last_or r rest) s >>= λ d. ok tt)
unfolding validate_pairs
validate_pairs-append r s [] h = refl
validate_pairs-append r s (q ∷ rest) h = ground (arith, validate_pairs-append q s rest)

validate_pairs-IsChain :
    (r : ReportedEventRevision) (rest : List ReportedEventRevision)
    → validate_pairs (r ∷ rest) ≡ ok tt
    → IsChain r rest
unfolding validate_pairs
validate_pairs-IsChain r [] h = tt
validate_pairs-IsChain r (s ∷ rest) h = elim (Result-cases (diff_revisions r s)) [
  | inl (d, e) ↦ (diff-Follows r s d e, validate_pairs-IsChain s rest (ground arith))
  | inr (e, q) ↦ absurd (ground arith)
]

foreign : EventLifecycleHistory → ReportedEventRevision → Bool
foreign h r = not (str_eq r.event_id h.event_id)

any-append {ℓ} :
    {A : Type ℓ} (t : A → Bool) (x : A) (xs : List A)
    → any t xs ≡ false
    → t x ≡ false
    → any t (xs ++ x ∷ []) ≡ false
any-append t x [] h k = ground arith
any-append t x (y ∷ xs) h k = ground (arith, any-append t x xs)

any-last_or {ℓ} :
    {A : Type ℓ} (t : A → Bool) (x : A) (xs : List A)
    → any t (x ∷ xs) ≡ false
    → t (last_or x xs) ≡ false
any-last_or t x [] h = ground arith
any-last_or t x (y ∷ xs) h = any-last_or t y xs (ground arith)

-- The parts of the validation of a history whose first revision is known.
record IsChecked (id : String) (r : ReportedEventRevision) (rest : List ReportedEventRevision)
    : Type 0 where
  named : str_eq id "" ≡ false
  owned : any (λ s. not (str_eq s.event_id id)) (r ∷ rest) ≡ false
  first : r.revision ≡ 1
  pairs : validate_pairs (r ∷ rest) ≡ ok tt

abbrev pub history :
    String → ReportedEventRevision → List ReportedEventRevision → EventLifecycleHistory
history id r rest = record { event_id = id; revisions = r ∷ rest }

build-IsChecked :
    (id : String) (r : ReportedEventRevision) (rest : List ReportedEventRevision)
    → build_history (history id r rest) ≡ ok (history id r rest)
    → IsChecked id r rest
unfolding build_history
build-IsChecked id r rest h = record {
  named = ground arith;
  owned = ground arith;
  first = ground arith;
  pairs = ground arith;
}

IsChecked-build :
    (id : String) (r : ReportedEventRevision) (rest : List ReportedEventRevision)
    → IsChecked id r rest
    → build_history (history id r rest) ≡ ok (history id r rest)
unfolding build_history
IsChecked-build id r rest h = ground arith

append-IsChecked :
    (id : String) (r s : ReportedEventRevision) (rest : List ReportedEventRevision)
    (d : EventRevisionDelta)
    → IsChecked id r rest
    → diff_revisions (last_or r rest) s ≡ ok d
    → IsChecked id r (rest ++ s ∷ [])
append-IsChecked id r s rest d c e = record {
  named = c.named;
  owned =
      any-append (λ q. not (str_eq q.event_id id)) s (r ∷ rest) c.owned
        (ground (
          arith,
          any-last_or (λ q. not (str_eq q.event_id id)) r rest c.owned,
          eq_iff (last_or r rest).event_id id,
          eq_iff s.event_id id,
          (diff-Follows (last_or r rest) s d e).same_event,
        ));
  first = c.first;
  pairs = rw (validate_pairs-append r s rest c.pairs, e) refl;
}

append_revision_lem :
    (id : String) (r s : ReportedEventRevision) (rest : List ReportedEventRevision)
    (d : EventRevisionDelta)
    → IsChecked id r rest
    → diff_revisions (last_or r rest) s ≡ ok d
    → append_revision (history id r rest) s
      ≡ ok (record { lifecycle = history id r (rest ++ s ∷ []); delta = d })
unfolding append_revision current
append_revision_lem id r s rest d c e =
    rw (e, IsChecked-build id r (rest ++ s ∷ []) (append-IsChecked id r s rest d c e)) refl

-- the append without the second validation of the chain
abbrev pub append_unchecked :
    EventLifecycleHistory → ReportedEventRevision → Result RevisionError RevisionAppendResult
append_unchecked h s = do
  previous ← current h
  delta ← diff_revisions previous s
  ok (record { lifecycle = record h { revisions = h.revisions ++ s ∷ [] }; delta = delta })

-- A valid history is valid with one more revision that may follow its last one.
pub build_history-append :
    (id : String) (r s : ReportedEventRevision) (rest : List ReportedEventRevision)
    (d : EventRevisionDelta)
    → build_history (history id r rest) ≡ ok (history id r rest)
    → diff_revisions (last_or r rest) s ≡ ok d
    → build_history (history id r (rest ++ s ∷ [])) ≡ ok (history id r (rest ++ s ∷ []))
build_history-append id r s rest d v e =
    IsChecked-build id r (rest ++ s ∷ [])
      (append-IsChecked id r s rest d (build-IsChecked id r rest v) e)

-- A first revision alone is a valid history of its event.
pub build_history_single :
    (id : String) (s : ReportedEventRevision)
    → str_eq id "" ≡ false
    → s.event_id ≡ id
    → s.revision ≡ 1
    → build_history (history id s []) ≡ ok (history id s [])
unfolding validate_pairs
build_history_single id s named same first = IsChecked-build id s [] (record {
  named = named;
  owned = ground (arith, eq_iff s.event_id id);
  first = first;
  pairs = refl;
})

append_by_parts :
    (id : String) (rs : List ReportedEventRevision) (s : ReportedEventRevision)
    → build_history (record { event_id = id; revisions = rs })
      ≡ ok (record { event_id = id; revisions = rs })
    → append_revision (record { event_id = id; revisions = rs }) s
      ≡ append_unchecked (record { event_id = id; revisions = rs }) s
unfolding append_revision current
append_by_parts id [] s v = refl
append_by_parts id (r ∷ rest) s v = elim (Result-cases (diff_revisions (last_or r rest) s)) [
  | inl (d, e) ↦ append_revision_lem id r s rest d (build-IsChecked id r rest v) e ∙ rw e
  | inr (x, e) ↦ rw e
]

-- Appending to a valid history checks the new revision against the last one and nothing else: the
-- validation of the whole chain, which runs again, never rejects what the difference accepts.
pub append_revision-eq_unchecked :
    (h : EventLifecycleHistory) (s : ReportedEventRevision)
    → build_history h ≡ ok h
    → append_revision h s ≡ append_unchecked h s
append_revision-eq_unchecked h s v = append_by_parts h.event_id h.revisions s v

-- the facts about any place of a chain
IsChain-get_elem? :
    (n : ℕ) (r : ReportedEventRevision) (rest : List ReportedEventRevision)
    → r.revision ≡ n
    → IsChain r rest
    → (i : ℕ) (s : ReportedEventRevision) → get_elem? (r ∷ rest) i ≡ some s
    → (s.revision ≡ n + i) × (s.event_id ≡ r.event_id)
IsChain-get_elem? n r rest e c zero s g = ground arith
IsChain-get_elem? n r [] e c (suc i) s g = cc
IsChain-get_elem? n r (q ∷ rest) e c (suc i) s g =
    let (a, b) = IsChain-get_elem? (n + 1) q rest (omega (arith, c.0.next)) c.1 i s g in
    (omega arith, b ∙ sym c.0.same_event)

-- every revision but the last can be revised, and later ones are published no earlier
IsChain-later :
    (r : ReportedEventRevision) (rest : List ReportedEventRevision)
    → IsChain r rest
    → (i j : ℕ) (s t : ReportedEventRevision) → i < j
    → get_elem? (r ∷ rest) i ≡ some s
    → get_elem? (r ∷ rest) j ≡ some t
    → (is_terminal s.status ≡ false) × (s.published_at ≤ t.published_at)
IsChain-later r rest c i zero s t l g k = absurd (omega arith)
IsChain-later r [] c i (suc j) s t l g k = cc
IsChain-later r (q ∷ rest) c (suc i) (suc j) s t l g k =
    IsChain-later q rest c.1 i j s t (omega arith) g k
IsChain-later r (q ∷ rest) c zero (suc zero) s t l g k = ground (arith, c.0.live, c.0.in_time)
IsChain-later r (q ∷ rest) c zero (suc (suc j)) s t l g k =
    let later = IsChain-later q rest c.1 zero (suc j) q t (omega arith) refl k in
    ground (arith, c.0.live, c.0.in_time, later.0, later.1)

positions_by_parts :
    (id : String) (rs : List ReportedEventRevision)
    → build_history (record { event_id = id; revisions = rs })
      ≡ ok (record { event_id = id; revisions = rs })
    → (i : ℕ) (s : ReportedEventRevision) → get_elem? rs i ≡ some s
    → (s.revision ≡ i + 1) × (s.event_id ≡ id)
positions_by_parts id [] v i s g = cc
positions_by_parts id (r ∷ rest) v i s g =
    let c = build-IsChecked id r rest v in
    let at = IsChain-get_elem? 1 r rest c.first (validate_pairs-IsChain r rest c.pairs) i s g in
    (omega (arith, at.0), at.1 ∙ ground (arith, c.owned, eq_iff r.event_id id))

-- In a valid history the revision at place `i` has number `i + 1`, and is of the history's event.
pub history_positions :
    (h : EventLifecycleHistory) (i : ℕ) (s : ReportedEventRevision)
    → build_history h ≡ ok h
    → get_elem? h.revisions i ≡ some s
    → (s.revision ≡ i + 1) × (s.event_id ≡ h.event_id)
history_positions h i s v g = positions_by_parts h.event_id h.revisions v i s g

order_by_parts :
    (id : String) (rs : List ReportedEventRevision)
    → build_history (record { event_id = id; revisions = rs })
      ≡ ok (record { event_id = id; revisions = rs })
    → (i j : ℕ) (s t : ReportedEventRevision) → i < j
    → get_elem? rs i ≡ some s
    → get_elem? rs j ≡ some t
    → (is_terminal s.status ≡ false) × (s.published_at ≤ t.published_at)
order_by_parts id [] v i j s t l g k = cc
order_by_parts id (r ∷ rest) v i j s t l g k =
    let c = build-IsChecked id r rest v in
    IsChain-later r rest (validate_pairs-IsChain r rest c.pairs) i j s t l g k

-- In a valid history only the last revision can be terminal, and no revision is published before an
-- earlier one.
pub history_order :
    (h : EventLifecycleHistory) (i j : ℕ) (s t : ReportedEventRevision)
    → build_history h ≡ ok h
    → i < j
    → get_elem? h.revisions i ≡ some s
    → get_elem? h.revisions j ≡ some t
    → (is_terminal s.status ≡ false) × (s.published_at ≤ t.published_at)
history_order h i j s t v l g k = order_by_parts h.event_id h.revisions v i j s t l g k
