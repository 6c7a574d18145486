-- ===== src/Events/Observed/Evaluation/Scopes.antt =====
-- Every draft of an evaluation is active in the scope of its event type.
use mathlib.Core.Path.{subst}
use mathlib.Core.List.{
  Mem, mem-cons_self, mem-cons_of_mem, not-mem-nil, mem-map_of_mem, mem-append_left,
  mem-append_right,
}
use hz.Prelude.Members.{filter-Mem}
use mathlib.Core.List.Perm
use mathlib.Core.Bool.{false≢true}
use mathlib.Core.Option.{none-ne-some}
use hz.Prelude.{
  ◌≡◌, refl, sym, ap, ◌∙◌, ◌⊎◌, inl, inr, String, Bool, true, false, Option, none, some, List, [],
  ◌∷◌, ◌++◌, map, filter, str_eq, All, All-append, All-map, ok, bind_inv, ok_unique, arith, eq_iff,
}
use hz.Prelude.Sorting.{sorted-perm, All-sorted}
use hz.Events.Models.{EventCandidate}
use hz.Events.Rules.{Platform, float_whole}
use hz.Events.Processor.{GridObservationWindow}
use hz.Events.Processor.{evaluate as processor_evaluate}
use hz.Events.Processor.Grounds.{IsDetected, evaluate-IsDetected}
use hz.Events.Rules.Totals.{produces_nothing}
use hz.Events.Processor.Grounds.Types.{IsTyped, IsDetected-IsTyped, IsDetected-timed}
use hz.Events.Observed.{
  EvidenceComponentKind, generation, interconnectors, frequency, ObservedEvidenceComponent,
  ObservedEvidenceBatch, Rendering, text_before, ObservedEventDraft, StatefulEventScope,
  ObservedEventEvaluation, stateful_event_type, momentary_event_type,
}
use hz.Events.Observed.Evaluation.{
  event_draft, drafts_of, active_keys, scope_of, scopes_of, candidates_of, evaluate_component,
  evaluate_all, evaluate, draft_before,
}

-- The window of a component has the observations of its kind only.
unfoldable pub IsOfKind : EvidenceComponentKind → GridObservationWindow → Type 0
IsOfKind generation w = (w.current_net_import_mw ≡ none) × (w.frequency_hz ≡ none)
IsOfKind interconnectors w = (w.current_generation_mw ≡ []) × (w.frequency_hz ≡ none)
IsOfKind frequency w = (w.current_generation_mw ≡ []) × (w.current_net_import_mw ≡ none)

-- The kind has a scope for the event type.
Scoped : EvidenceComponentKind → String → Type 0
Scoped kind event_type =
    (stateful_event_type kind ≡ some event_type) ⊎ (momentary_event_type kind ≡ some event_type)

module _ (platform : Platform) (empty_sum : platform.sum [] ≡ float_whole 0) where
  IsTyped-Scoped :
      (kind : EvidenceComponentKind) (w : GridObservationWindow) (c : EventCandidate)
      → IsOfKind kind w
      → IsTyped platform w c
      → Scoped kind c.event_type
  unfolding IsOfKind Scoped IsTyped stateful_event_type momentary_event_type
  IsTyped-Scoped generation w c k typed = elim typed [
    | inl (same, entry, member) ↦ inr (ap some (sym same))
    | inr (inl (same, some_total)) ↦ inl (ap some (sym same))
    | inr (inr (inl (same, flow, known))) ↦ absurd (none-ne-some flow (sym k.0 ∙ known))
    | inr (inr (inr (same, hertz, known))) ↦ absurd (none-ne-some _ (sym k.1 ∙ known))
  ]
  IsTyped-Scoped interconnectors w c k typed = elim typed [
    | inl (same, entry, member) ↦ absurd (not-mem-nil (rw k.0 at member))
    | inr (inl (same, some_total)) ↦
        absurd (false≢true (sym some_total ∙ produces_nothing platform _ empty_sum k.0))
    | inr (inr (inl (same, flow, known))) ↦ inr (ap some (sym same))
    | inr (inr (inr (same, hertz, known))) ↦ absurd (none-ne-some _ (sym k.1 ∙ known))
  ]
  IsTyped-Scoped frequency w c k typed = elim typed [
    | inl (same, entry, member) ↦ absurd (not-mem-nil (rw k.0 at member))
    | inr (inl (same, some_total)) ↦
        absurd (false≢true (sym some_total ∙ produces_nothing platform _ empty_sum k.0))
    | inr (inr (inl (same, flow, known))) ↦ absurd (none-ne-some _ (sym k.1 ∙ known))
    | inr (inr (inr (same, hertz, known))) ↦ inl (ap some (sym same))
  ]

module _ (rendering : Rendering) where
  -- The scope has the draft's event type and time, and the draft's key is active in it.
  pub Covers : ObservedEventDraft → StatefulEventScope → Type 0
  Covers d scope =
      (scope.event_type ≡ d.candidate.event_type)
      × (scope.observed_at ≡ d.candidate.occurred_at)
      × Mem d.candidate.dedupe_key scope.active_deterministic_keys

  -- Some scope covers the draft.
  pub IsCovered : List StatefulEventScope → ObservedEventDraft → Type 0
  IsCovered scopes d = (scope : StatefulEventScope) × Mem scope scopes × Covers d scope

  keys_of : String → List ObservedEventDraft → List String
  keys_of event_type drafts =
      map (λ d. d.candidate.dedupe_key)
        (filter (λ d. str_eq d.candidate.event_type event_type) drafts)

  Mem-keys_of :
      (event_type : String) (d : ObservedEventDraft) (drafts : List ObservedEventDraft)
      → d.candidate.event_type ≡ event_type
      → Mem d drafts
      → Mem d.candidate.dedupe_key (keys_of event_type drafts)
  unfolding keys_of
  Mem-keys_of event_type d drafts same h =
      mem-map_of_mem (λ x. x.candidate.dedupe_key)
        (filter-Mem (λ x. str_eq x.candidate.event_type event_type) d drafts
          ((eq_iff d.candidate.event_type event_type).1 same) h)

  Mem-active_keys :
      (event_type : String) (d : ObservedEventDraft) (drafts : List ObservedEventDraft)
      → d.candidate.event_type ≡ event_type
      → Mem d drafts
      → Mem d.candidate.dedupe_key (active_keys rendering event_type drafts)
  unfolding active_keys keys_of
  Mem-active_keys event_type d drafts same h =
      (Perm.mem_iff (sorted-perm text_before (keys_of event_type drafts))).1
        (Mem-keys_of event_type d drafts same h)

  scope_of-IsCovered :
      (momentary : Bool) (component : ObservedEvidenceComponent) (drafts : List ObservedEventDraft)
      (asked : Option String) (d : ObservedEventDraft)
      → asked ≡ some d.candidate.event_type
      → d.candidate.occurred_at ≡ component.window.observed_at
      → Mem d drafts
      → IsCovered (scope_of rendering momentary component drafts asked) d
  unfolding scope_of IsCovered Covers
  scope_of-IsCovered momentary component drafts none d same timed h =
      absurd (none-ne-some d.candidate.event_type same)
  scope_of-IsCovered momentary component drafts (some event_type) d same timed h =
      let scope : StatefulEventScope = record {
        event_type = event_type;
        observed_at = component.window.observed_at;
        active_deterministic_keys = active_keys rendering event_type drafts;
        same_timestamp_only = momentary;
      } in
      let typed : d.candidate.event_type ≡ event_type = ground arith in
      (scope, mem-cons_self, (sym typed, sym timed, Mem-active_keys event_type d drafts typed h))

  -- More scopes cover what some of them cover.
  IsCovered-left :
      (scopes more : List StatefulEventScope) (d : ObservedEventDraft)
      → IsCovered scopes d
      → IsCovered (scopes ++ more) d
  unfolding IsCovered
  IsCovered-left scopes more d (scope, member, covers) =
      (scope, mem-append_left more member, covers)

  IsCovered-right :
      (scopes more : List StatefulEventScope) (d : ObservedEventDraft)
      → IsCovered more d
      → IsCovered (scopes ++ more) d
  unfolding IsCovered
  IsCovered-right scopes more d (scope, member, covers) =
      (scope, mem-append_right scopes member, covers)

  scopes_of-IsCovered :
      (component : ObservedEvidenceComponent) (drafts : List ObservedEventDraft)
      (d : ObservedEventDraft)
      → Mem d drafts
      → d.candidate.occurred_at ≡ component.window.observed_at
      → Scoped component.kind d.candidate.event_type
      → IsCovered (scopes_of rendering component drafts) d
  unfolding scopes_of Scoped
  scopes_of-IsCovered component drafts d h timed scoped = elim scoped [
    | inl stateful ↦
        IsCovered-left _ _ d (scope_of-IsCovered false component drafts _ d stateful timed h)
    | inr momentary ↦
        IsCovered-right _ _ d (scope_of-IsCovered true component drafts _ d momentary timed h)
  ]

  event_draft_inv :
      (component : ObservedEvidenceComponent) (c : EventCandidate) (d : ObservedEventDraft)
      → event_draft rendering c component ≡ ok d
      → d.candidate ≡ c
  unfolding event_draft
  event_draft_inv component c d h = ground arith

  drafts_of-All :
      (P : EventCandidate → Type 0) (component : ObservedEvidenceComponent)
      (cs : List EventCandidate) (drafts : List ObservedEventDraft)
      → drafts_of rendering component cs ≡ ok drafts
      → All P cs
      → All (λ d. P d.candidate) drafts
  unfolding drafts_of
  drafts_of-All P component [] drafts h all =
      subst (All (λ d. P d.candidate)) (ok_unique (ok []) _ _ refl h) tt
  drafts_of-All P component (c ∷ cs) drafts h (here, later) =
      let (d, drafted, goes_on) = bind_inv (event_draft rendering c component) _ drafts h in
      let (others, drafted_too, together) =
        bind_inv (drafts_of rendering component cs) _ drafts goes_on in
      subst (All (λ x. P x.candidate)) (ok_unique (ok (d ∷ others)) _ _ refl together) (
        subst P (sym (event_draft_inv component c d drafted)) here,
        drafts_of-All P component cs others drafted_too later,
      )

  All-Mem :
      (P Q : ObservedEventDraft → Type 0) (xs : List ObservedEventDraft)
      → ((d : ObservedEventDraft) → Mem d xs → P d → Q d)
      → All P xs
      → All Q xs
  All-Mem P Q [] keep h = tt
  All-Mem P Q (x ∷ xs) keep (here, later) =
      (keep x mem-cons_self here, All-Mem P Q xs (λ d m. keep d (mem-cons_of_mem x m)) later)

  candidates_of_inv :
      (component : ObservedEvidenceComponent) (cs : List EventCandidate)
      → candidates_of rendering component ≡ ok cs
      → processor_evaluate rendering.numbers component.window ≡ ok cs
  unfolding candidates_of
  candidates_of_inv component cs h = ground arith

  -- what a candidate of the component needs for a scope
  Placed : ObservedEvidenceComponent → EventCandidate → Type 0
  Placed component c =
      (c.occurred_at ≡ component.window.observed_at) × Scoped component.kind c.event_type

  candidates_of-Placed :
      rendering.numbers.sum [] ≡ float_whole 0
      → (component : ObservedEvidenceComponent) (cs : List EventCandidate)
      → IsOfKind component.kind component.window
      → candidates_of rendering component ≡ ok cs
      → All (Placed component) cs
  unfolding Placed
  candidates_of-Placed empty_sum component cs k h =
      let platform = rendering.numbers in
      let w = component.window in
      let detected = evaluate-IsDetected platform w cs (candidates_of_inv component cs h) in
      All-map (IsDetected platform w) _ cs
        (λ c d. (
          IsDetected-timed platform w c d,
          IsTyped-Scoped platform empty_sum component.kind w c k
              (IsDetected-IsTyped platform w c d),
        ))
        detected

  evaluate_component-IsCovered :
      rendering.numbers.sum [] ≡ float_whole 0
      → (component : ObservedEvidenceComponent) (drafts : List ObservedEventDraft)
        (scopes : List StatefulEventScope)
      → IsOfKind component.kind component.window
      → evaluate_component rendering component ≡ ok (drafts, scopes)
      → All (IsCovered scopes) drafts
  unfolding evaluate_component Placed
  evaluate_component-IsCovered empty_sum component drafts scopes k h =
      let (cs, found, goes_on) = bind_inv (candidates_of rendering component) _ _ h in
      let (made, drafted, together) = bind_inv (drafts_of rendering component cs) _ _ goes_on in
      let same = ok_unique (ok (made, scopes_of rendering component made)) _ _ refl together in
      let placed =
        drafts_of-All (Placed component) component cs made drafted
          (candidates_of-Placed empty_sum component cs k found) in
      subst (λ r. All (IsCovered r.1) r.0) same
        (All-Mem _ _ made (λ d m at. scopes_of-IsCovered component made d m at.0 at.1) placed)

  evaluate_all-IsCovered :
      rendering.numbers.sum [] ≡ float_whole 0
      → (components : List ObservedEvidenceComponent) (drafts : List ObservedEventDraft)
        (scopes : List StatefulEventScope)
      → All (λ c. IsOfKind c.kind c.window) components
      → evaluate_all rendering components ≡ ok (drafts, scopes)
      → All (IsCovered scopes) drafts
  unfolding evaluate_all
  evaluate_all-IsCovered empty_sum [] drafts scopes k h =
      subst (λ r. All (IsCovered r.1) r.0) (ok_unique (ok ([], [])) _ _ refl h) tt
  evaluate_all-IsCovered empty_sum (c ∷ rest) drafts scopes (here, later) h =
      let ((ds, ss), first, goes_on) = bind_inv (evaluate_component rendering c) _ _ h in
      let ((more_ds, more_ss), others, together) =
        bind_inv (evaluate_all rendering rest) _ _ goes_on in
      let same = ok_unique (ok (ds ++ more_ds, ss ++ more_ss)) _ _ refl together in
      subst (λ r. All (IsCovered r.1) r.0) same
        (All-append _ ds more_ds
          (All-map _ _ ds (IsCovered-left ss more_ss)
            (evaluate_component-IsCovered empty_sum c ds ss here first))
          (All-map _ _ more_ds (IsCovered-right ss more_ss)
            (evaluate_all-IsCovered empty_sum rest more_ds more_ss later others)))

  -- Where nothing adds up to zero and the window of each component has the observations of its kind
  -- only, every draft of an evaluation is active in one of its scopes: some scope has the draft's
  -- event type and time, and the draft's key is among its active keys.
  pub evaluate-IsCovered :
      rendering.numbers.sum [] ≡ float_whole 0
      → (batch : ObservedEvidenceBatch) (evaluation : ObservedEventEvaluation)
      → All (λ c. IsOfKind c.kind c.window) batch.components
      → evaluate rendering batch ≡ ok evaluation
      → All (IsCovered evaluation.stateful_scopes) evaluation.drafts
  unfolding evaluate
  evaluate-IsCovered empty_sum batch evaluation k h =
      let ((drafts, scopes), found, together) =
        bind_inv (evaluate_all rendering batch.components) _ _ h in
      subst (λ e. All (IsCovered e.stateful_scopes) e.drafts) (ok_unique (ok _) _ _ refl together)
        (All-sorted (draft_before rendering) _ drafts
          (evaluate_all-IsCovered empty_sum batch.components drafts scopes k found))
