-- ===== src/Intelligence/Kept.antt =====
-- What a promotion keeps of the table of findings.
use threatforge.Common.{
  ℕ, String, ◌≡◌, refl, sym, ap, ◌∙◌, subst, Bool, false, not, ◌||◌, none, some, List, [], ◌∷◌,
  ◌++◌, Result, ok, err, inl, inr, arith, any, find?, update, any-update, any-append, is_some-find?,
  ◌==◌, Bool-cases, Option-cases,
}
use threatforge.Models.{Time, Json, Event}
use threatforge.Intelligence.{
  AnalysisResult, ExposureFinding, Board, Promoted, PromoteError, dedup_key, finding_key,
  is_severity, new_finding, seen_again, upsert_finding, open_case, case_number, finding_detail,
  ids_of, link_context_events, promote, promote_found,
}

-- No finding of a tenant stands twice under one key: the constraint `uq_exposure_dedup`.
abbrev pub IsUnique : List ExposureFinding → Type 0
IsUnique [] = Unit
IsUnique (f ∷ rows) = (any (finding_key f.tenant_id f.dedup_key) rows ≡ false) × IsUnique rows

-- A change that keeps the tenant and the key.
abbrev KeepsKey : (ExposureFinding → ExposureFinding) → Type 0
KeepsKey g =
    (x : ExposureFinding) → ((g x).tenant_id ≡ x.tenant_id) × ((g x).dedup_key ≡ x.dedup_key)

keeps-finding_key :
    (g : ExposureFinding → ExposureFinding)
    → KeepsKey g
    → (tenant : ℕ) (key : String) (x : ExposureFinding)
    → finding_key tenant key (g x) ≡ finding_key tenant key x
keeps-finding_key g keeps tenant key x = ground (arith, (keeps x).0, (keeps x).1)

any_changed :
    (q : ExposureFinding → Bool) (g : ExposureFinding → ExposureFinding)
    → KeepsKey g
    → (tenant : ℕ) (key : String) (others rows : List ExposureFinding)
    → any (finding_key tenant key) (others ++ update q g rows)
      ≡ any (finding_key tenant key) (others ++ rows)
any_changed q g keeps tenant key others rows =
    any-append (finding_key tenant key) others (update q g rows)
    ∙ ap (λ b. any (finding_key tenant key) others || b)
        (any-update (finding_key tenant key) q g rows (keeps-finding_key g keeps tenant key))
    ∙ sym (any-append (finding_key tenant key) others rows)

update-IsUnique :
    (q : ExposureFinding → Bool) (g : ExposureFinding → ExposureFinding)
    → KeepsKey g
    → (rows : List ExposureFinding) → IsUnique rows
    → IsUnique (update q g rows)
unfolding update
update-IsUnique q g keeps [] h = tt
update-IsUnique q g keeps (x ∷ rows) h = elim (Bool-cases (q x)) [
  | inl hit ↦ rw (hit) (
    any-update (finding_key (g x).tenant_id (g x).dedup_key) q g rows
          (keeps-finding_key g keeps (g x).tenant_id (g x).dedup_key)
        ∙ ap (λ n. any (finding_key n (g x).dedup_key) rows) (keeps x).0
        ∙ ap (λ k. any (finding_key x.tenant_id k) rows) (keeps x).1
        ∙ h.0,
    update-IsUnique q g keeps rows h.1,
  )
  | inr miss ↦ rw (miss) (
    any-update (finding_key x.tenant_id x.dedup_key) q g rows
          (keeps-finding_key g keeps x.tenant_id x.dedup_key)
        ∙ h.0,
    update-IsUnique q g keeps rows h.1,
  )
]

append-IsUnique :
    (q : ExposureFinding → Bool) (g : ExposureFinding → ExposureFinding)
    → KeepsKey g
    → (others rows : List ExposureFinding) → IsUnique (others ++ rows)
    → IsUnique (others ++ update q g rows)
append-IsUnique q g keeps [] rows h = update-IsUnique q g keeps rows h
append-IsUnique q g keeps (x ∷ others) rows h = (
  any_changed q g keeps x.tenant_id x.dedup_key others rows ∙ h.0,
  append-IsUnique q g keeps others rows h.1,
)

abbrev UniqueAfter : Result PromoteError (ExposureFinding × Bool × List ExposureFinding) → Type 0
UniqueAfter (err x) = Unit
UniqueAfter (ok (f, created, rows)) = IsUnique rows

upsert-IsUnique :
    (now : Time) (new_id : ℕ) (key : String) (arrived : List ExposureFinding) (e : Event)
    (r : AnalysisResult) (rows : List ExposureFinding)
    → IsUnique (arrived ++ rows)
    → UniqueAfter (upsert_finding now new_id key arrived e r rows)
unfolding upsert_finding new_finding
upsert-IsUnique now new_id key arrived e r rows h =
    elim (Option-cases (find? (finding_key e.tenant_id key) rows)) [
      | inr (f, there) ↦
          rw (there, UniqueAfter)
            (append-IsUnique (λ x. x.id == f.id) (seen_again now r) (λ x. (refl, refl)) arrived rows
              h)
      | inl absent ↦
          elim (Bool-cases (
            not (is_severity (new_finding now new_id key e r).severity)
            || any (finding_key e.tenant_id key) arrived)) [
              | inl refused ↦ rw (absent, UniqueAfter) (rw (refused, UniqueAfter) tt)
              | inr fine ↦
                  rw (absent, UniqueAfter)
                    (rw (fine, UniqueAfter)
                      (
                        any-append (finding_key e.tenant_id key) arrived rows
                            ∙ ground (
                              arith,
                              fine,
                              absent,
                              is_some-find? (finding_key e.tenant_id key) rows,
                            ),
                        h,
                      ))
            ]
    ]

module _ (sha256 : String → String) (date_iso : Time → String) (repr : Json → String) where
  abbrev UniqueBoard : Result PromoteError (Promoted × Board) → Type 0
  UniqueBoard (err x) = Unit
  UniqueBoard (ok (p, st)) = IsUnique st.findings

  found-UniqueBoard :
      (new_case_id : ℕ) (e : Event) (r : AnalysisResult) (context : List Event) (st : Board)
      (found : Result PromoteError (ExposureFinding × Bool × List ExposureFinding))
      → UniqueAfter found
      → UniqueBoard (promote_found sha256 date_iso repr new_case_id e r context st found)
  found-UniqueBoard new_case_id e r context st (err x) h = tt
  found-UniqueBoard new_case_id e r context st (ok (f, created, rows)) h =
      let detail = finding_detail e r (ids_of f.detail) none f.detail in
      let opened = open_case new_case_id e r f st.cases in
      let linked = link_context_events repr r f.id opened.0 context st.events in
      let detail' =
        finding_detail e r (detail.event_ids ++ linked.0) (case_number opened.0) (some detail) in
      update-IsUnique (λ x. x.id == f.id) (λ x. record x { detail = some detail' })
        (λ x. (refl, refl)) rows h

  -- A promotion keeps the keys of the findings unique within a tenant, also where other transactions
  -- commit findings before its flush, if those and the ones before are unique.
  pub promote-IsUnique :
      (now : Time) (new_id new_case_id : ℕ) (arrived : List ExposureFinding) (e : Event)
      (r : AnalysisResult) (context : List Event) (st st' : Board) (p : Promoted)
      → IsUnique (arrived ++ st.findings)
      → IsUnique st.findings
      → promote sha256 date_iso repr now new_id new_case_id arrived e r context st ≡ ok (p, st')
      → IsUnique st'.findings
  unfolding promote
  promote-IsUnique now new_id new_case_id arrived e r context st st' p together before done =
      subst UniqueBoard done (elim (Bool-cases (not r.create_finding)) [
        | inl unwanted ↦ rw (unwanted, UniqueBoard) before
        | inr wanted ↦
            rw (wanted, UniqueBoard)
              (found-UniqueBoard new_case_id e r context st
                (upsert_finding now new_id (dedup_key sha256 date_iso e r) arrived e r st.findings)
                (upsert-IsUnique now new_id (dedup_key sha256 date_iso e r) arrived e r st.findings
                  together))
      ])
