-- ===== src/Intelligence/Reuse.antt =====
-- `_promote` of app/collection/intelligence_analysis.py, called twice with one key.
use threatforge.Common.{
  ℕ, ◌+◌, String, ◌≡◌, refl, sym, ap, ◌∙◌, subst, Bool, true, false, not, ◌||◌, Option, none, some,
  List, ◌++◌, Result, ok, err, inl, inr, arith, any, find?, find?-update, update, order_by, length,
  length-append, length-update, find?-append, is_some-find?, any-update, any-order_by, is_some,
  eq_iff, ◌==◌, ==_iff, Bool-cases, Option-cases, if◌then◌else◌,
}
use threatforge.Models.{Time, Json, Event}
use threatforge.Intelligence.{
  AnalysisResult, FindingDetail, ExposureFinding, InvestigationCase, Board, Promoted, PromoteError,
  dedup_key, finding_key, is_severity, new_finding, seen_again, upsert_finding, open_case,
  case_or_new, find_case_for_exposure, is_case_of, case_id_of, case_number, noted_case, note_case,
  finding_detail, ids_of, link_context_events, promote, promote_to, promote_found, not_promoted,
}

abbrev FoundAfter :
    ℕ → String → Result PromoteError (ExposureFinding × Bool × List ExposureFinding) → Type 0
FoundAfter tenant key (err x) = Unit
FoundAfter tenant key (ok (f, created, findings)) = find? (finding_key tenant key) findings ≡ some f

same_id : (n : ℕ) → (n == n) ≡ true
same_id n = (==_iff n n).1 refl

upsert-Found :
    (now : Time) (new_id : ℕ) (key : String) (arrived : List ExposureFinding) (e : Event)
    (r : AnalysisResult) (findings : List ExposureFinding)
    → any (finding_key e.tenant_id key) arrived ≡ false
    → FoundAfter e.tenant_id key (upsert_finding now new_id key arrived e r findings)
unfolding upsert_finding new_finding find?
upsert-Found now new_id key arrived e r findings free =
    elim (Option-cases (find? (finding_key e.tenant_id key) findings)) [
      | inr (f, there) ↦
          rw (there, FoundAfter)
            (find?-append (finding_key e.tenant_id key) arrived
                (update (λ x. x.id == f.id) (seen_again now r) findings) free
              ∙ find?-update (finding_key e.tenant_id key) (λ x. x.id == f.id) (seen_again now r)
                  findings (λ y. refl) there
              ∙ ap (λ b. some (if b then seen_again now r f else f)) (same_id f.id))
      | inl absent ↦
          elim (Bool-cases (
            not (is_severity (new_finding now new_id key e r).severity)
            || any (finding_key e.tenant_id key) arrived)) [
              | inl refused ↦ rw (absent, FoundAfter) (rw (refused, FoundAfter) tt)
              | inr fine ↦
                  rw (absent, FoundAfter)
                    (rw (fine, FoundAfter)
                      (rw (same_id e.tenant_id) (rw ((eq_iff key key).1 refl) refl)))
            ]
    ]

-- The case of a finding is told by what no note on a case changes.
noted-is_case_of :
    (tenant f : ℕ) (r : AnalysisResult) (d : FindingDetail) (c : InvestigationCase)
    → is_case_of tenant f (noted_case r d c) ≡ is_case_of tenant f c
noted-is_case_of tenant f r d c = elim (Option-cases c.finding_snapshot) [
  | inl bare ↦ rw (bare) refl
  | inr (s, held) ↦ rw (held) refl
]

any-note_case :
    (tenant f : ℕ) (r : AnalysisResult) (d : FindingDetail) (o : Option InvestigationCase)
    (cases : List InvestigationCase)
    → any (is_case_of tenant f) (note_case r d o cases) ≡ any (is_case_of tenant f) cases
any-note_case tenant f r d none cases = refl
any-note_case tenant f r d (some c) cases =
    any-update (is_case_of tenant f) (λ x. x.id == c.id) (noted_case r d) cases
      (noted-is_case_of tenant f r d)

length-note_case :
    (r : AnalysisResult) (d : FindingDetail) (o : Option InvestigationCase)
    (cases : List InvestigationCase)
    → length (note_case r d o cases) ≡ length cases
length-note_case r d none cases = refl
length-note_case r d (some c) cases = length-update (λ x. x.id == c.id) (noted_case r d) cases

is_some-find_case :
    (tenant f : ℕ) (cases : List InvestigationCase)
    → is_some (find_case_for_exposure tenant f cases) ≡ any (is_case_of tenant f) cases
unfolding find_case_for_exposure
is_some-find_case tenant f cases =
    is_some-find? (is_case_of tenant f) (order_by case_id_of cases)
    ∙ any-order_by case_id_of (is_case_of tenant f) cases

-- After a promotion to a case there is one of the finding.
case-any :
    (new_id : ℕ) (e : Event) (r : AnalysisResult) (f : ExposureFinding)
    (cases : List InvestigationCase) (o : Option InvestigationCase)
    → is_some o ≡ any (is_case_of e.tenant_id f.id) cases
    → is_some (case_number (case_or_new new_id e r f cases o).0) ≡ true
    → any (is_case_of e.tenant_id f.id) (case_or_new new_id e r f cases o).2 ≡ true
unfolding any
case-any new_id e r f cases (some c) there = λ opened. sym there
case-any new_id e r f cases none absent = elim (Bool-cases r.create_case) [
  | inl wanted ↦ rw (wanted) (λ _. rw (same_id e.tenant_id) (rw (same_id f.id) refl))
  | inr unwanted ↦ rw (unwanted) (λ opened. absurd (ground (arith, opened)))
]

-- A case that is there is not opened again.
case_again :
    (new_id : ℕ) (e : Event) (r : AnalysisResult) (f : ExposureFinding)
    (cases : List InvestigationCase) (o : Option InvestigationCase)
    → is_some o ≡ true
    → ((case_or_new new_id e r f cases o).1 ≡ false)
      × ((case_or_new new_id e r f cases o).2 ≡ cases)
case_again new_id e r f cases (some c) there = (refl, refl)
case_again new_id e r f cases none there = absurd (ground (arith, there))

module _ (sha256 : String → String) (date_iso : Time → String) (repr : Json → String) where
  -- A promotion that returned has its finding under the key, and its case by the finding's id.
  Established : ℕ → String → Promoted × Board → Type 0
  Established tenant key (p, st) =
      (g : ExposureFinding) × (find? (finding_key tenant key) st.findings ≡ some g)
      × (p.finding_id ≡ some g.id)
      × (is_some p.case_id ≡ true → any (is_case_of tenant g.id) st.cases ≡ true)

  promote_to-Established :
      (new_case_id : ℕ) (e : Event) (r : AnalysisResult) (context : List Event) (st : Board)
      (key : String) (f : ExposureFinding) (created : Bool) (findings : List ExposureFinding)
      → find? (finding_key e.tenant_id key) findings ≡ some f
      → Established e.tenant_id key
          (promote_to sha256 date_iso repr new_case_id e r context st (f, created, findings))
  unfolding open_case Established
  promote_to-Established new_case_id e r context st key f created findings found =
      let detail = finding_detail e r (ids_of f.detail) none f.detail in
      let opened = open_case new_case_id e r f st.cases in
      let linked = link_context_events repr r f.id opened.0 context st.events in
      let detail' =
        finding_detail e r (detail.event_ids ++ linked.0) (case_number opened.0) (some detail) in
      let told : ExposureFinding → ExposureFinding = λ x. record x { detail = some detail' } in
      (
        told f,
        find?-update (finding_key e.tenant_id key) (λ x. x.id == f.id) told findings (λ y. refl)
              found
            ∙ ap (λ b. some (if b then told f else f)) (same_id f.id),
        refl,
        λ has_case.
            any-note_case e.tenant_id f.id r detail' opened.0 opened.2
            ∙ case-any new_case_id e r f st.cases (find_case_for_exposure e.tenant_id f.id st.cases)
                (is_some-find_case e.tenant_id f.id st.cases) has_case,
      )

  EstablishedAfter : ℕ → String → Result PromoteError (Promoted × Board) → Type 0
  EstablishedAfter tenant key (err x) = Unit
  EstablishedAfter tenant key (ok q) = Established tenant key q

  found-Established :
      (new_case_id : ℕ) (e : Event) (r : AnalysisResult) (context : List Event) (st : Board)
      (key : String) (found : Result PromoteError (ExposureFinding × Bool × List ExposureFinding))
      → FoundAfter e.tenant_id key found
      → EstablishedAfter e.tenant_id key
          (promote_found sha256 date_iso repr new_case_id e r context st found)
  unfolding EstablishedAfter
  found-Established new_case_id e r context st key (err x) h = tt
  found-Established new_case_id e r context st key (ok (f, created, findings)) h =
      promote_to-Established new_case_id e r context st key f created findings h

  -- The second promotion answers with the finding and the case of the first, and adds none.
  abbrev pub Reuses : Promoted → Board → ℕ → Promoted × Board → Type 0
  Reuses p st others (q, st') =
      (q.finding_id ≡ p.finding_id)
      × (q.finding_created ≡ false)
      × (length st'.findings ≡ others + length st.findings)
      × (is_some p.case_id ≡ true → (q.case_created ≡ false) × (length st'.cases ≡ length st.cases))

  again-Reuses :
      (new_case_id : ℕ) (e : Event) (r : AnalysisResult) (context : List Event) (p : Promoted)
      (st : Board) (f g : ExposureFinding) (others : ℕ) (findings : List ExposureFinding)
      → f.id ≡ g.id
      → p.finding_id ≡ some g.id
      → (is_some p.case_id ≡ true → any (is_case_of e.tenant_id g.id) st.cases ≡ true)
      → length findings ≡ others + length st.findings
      → Reuses p st others
          (promote_to sha256 date_iso repr new_case_id e r context st (f, false, findings))
  unfolding open_case
  again-Reuses new_case_id e r context p st f g others findings same found cased size =
      let detail = finding_detail e r (ids_of f.detail) none f.detail in
      let opened = open_case new_case_id e r f st.cases in
      let linked = link_context_events repr r f.id opened.0 context st.events in
      let detail' =
        finding_detail e r (detail.event_ids ++ linked.0) (case_number opened.0) (some detail) in
      let told : ExposureFinding → ExposureFinding = λ x. record x { detail = some detail' } in
      (
        ap some same ∙ sym found,
        refl,
        length-update (λ x. x.id == f.id) told findings ∙ size,
        λ has_case.
            let kept =
              case_again new_case_id e r f st.cases
                (find_case_for_exposure e.tenant_id f.id st.cases)
                (is_some-find_case e.tenant_id f.id st.cases
                  ∙ ap (λ n. any (is_case_of e.tenant_id n) st.cases) same
                  ∙ cased has_case) in
            (kept.0, length-note_case r detail' opened.0 opened.2 ∙ ap length kept.1),
      )

  promote_wanted :
      (now : Time) (new_id new_case_id : ℕ) (arrived : List ExposureFinding) (e : Event)
      (r : AnalysisResult) (context : List Event) (st : Board)
      → r.create_finding ≡ true
      → promote sha256 date_iso repr now new_id new_case_id arrived e r context st
        ≡ promote_found sha256 date_iso repr new_case_id e r context st
            (upsert_finding now new_id (dedup_key sha256 date_iso e r) arrived e r st.findings)
  unfolding promote
  promote_wanted now new_id new_case_id arrived e r context st wanted =
      ap
        (λ b.
          if not b
          then ok (not_promoted sha256 date_iso repr, st)
          else promote_found sha256 date_iso repr new_case_id e r context st
              (upsert_finding now new_id (dedup_key sha256 date_iso e r) arrived e r st.findings))
        wanted

  upsert_again :
      (now : Time) (new_id : ℕ) (key : String) (arrived : List ExposureFinding) (e : Event)
      (r : AnalysisResult) (findings : List ExposureFinding) (g : ExposureFinding)
      → find? (finding_key e.tenant_id key) findings ≡ some g
      → upsert_finding now new_id key arrived e r findings
        ≡ ok (
          seen_again now r g,
          false,
          arrived ++ update (λ x. x.id == g.id) (seen_again now r) findings,
        )
  unfolding upsert_finding
  upsert_again now new_id key arrived e r findings g there = rw (there, upsert_finding) refl

  -- Evidence that is promoted with the tenant and the key of an earlier promotion opens no
  -- second finding: it is answered with the finding that is there, and where the earlier
  -- promotion opened or found a case, no second case is opened, whatever else the classifier
  -- says of the second event and whatever others commit before its flush. This holds if no other
  -- transaction has committed a finding of that key before the flush of the first promotion.
  pub promote-Reuses :
      (now now' : Time) (new_id new_id' new_case_id new_case_id' : ℕ)
      (arrived arrived' : List ExposureFinding) (e e' : Event) (r r' : AnalysisResult)
      (context context' : List Event) (st st' : Board) (p : Promoted)
      → any (finding_key e.tenant_id (dedup_key sha256 date_iso e r)) arrived ≡ false
      → r.create_finding ≡ true
      → promote sha256 date_iso repr now new_id new_case_id arrived e r context st ≡ ok (p, st')
      → r'.create_finding ≡ true
      → e'.tenant_id ≡ e.tenant_id
      → dedup_key sha256 date_iso e' r' ≡ dedup_key sha256 date_iso e r
      → (q : Promoted × Board) × (promote sha256 date_iso repr now' new_id' new_case_id' arrived' e'
            r' context' st'
          ≡ ok q)
        × Reuses p st' (length arrived') q
  unfolding EstablishedAfter Established
  promote-Reuses now now' new_id new_id' new_case_id new_case_id' arrived arrived' e e' r r' context
        context' st st' p free wanted done wanted' tenant key =
      let k = dedup_key sha256 date_iso e r in
      let k' = dedup_key sha256 date_iso e' r' in
      let found = upsert_finding now new_id k arrived e r st.findings in
      let est : EstablishedAfter e.tenant_id k (ok (p, st')) =
        subst (EstablishedAfter e.tenant_id k)
          (sym (promote_wanted now new_id new_case_id arrived e r context st wanted) ∙ done)
          (found-Established new_case_id e r context st k found
            (upsert-Found now new_id k arrived e r st.findings free)) in
      let (g, there, is_g, cased) = est in
      let findings = arrived' ++ update (λ x. x.id == g.id) (seen_again now' r') st'.findings in
      (
        promote_to sha256 date_iso repr new_case_id' e' r' context' st'
            (seen_again now' r' g, false, findings),
        promote_wanted now' new_id' new_case_id' arrived' e' r' context' st' wanted'
            ∙ ap (promote_found sha256 date_iso repr new_case_id' e' r' context' st') (
                upsert_again now' new_id' k' arrived' e' r' st'.findings g (
                  ap (λ n. find? (finding_key n k') st'.findings) tenant
                  ∙ ap (λ x. find? (finding_key e.tenant_id x) st'.findings) key
                  ∙ there)),
        again-Reuses new_case_id' e' r' context' p st' (seen_again now' r' g) g (length arrived')
            findings refl is_g
            (λ has_case. ap (λ n. any (is_case_of n g.id) st'.cases) tenant ∙ cased has_case)
            (length-append arrived' (update (λ x. x.id == g.id) (seen_again now' r') st'.findings)
              ∙ ap (λ n. length arrived' + n)
                  (length-update (λ x. x.id == g.id) (seen_again now' r') st'.findings)),
      )
