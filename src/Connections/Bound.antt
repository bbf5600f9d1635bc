-- ===== src/Connections/Bound.antt =====
-- What binding a bot's identity to a connection does, case by case.
use threatforge.Common.{
  ℕ, String, ◌≡◌, ◌≢◌, ◌⊎◌, refl, sym, ap, ◌∙◌, Bool, true, false, not, ◌&&◌, Option, none, some,
  List, [], ◌∷◌, ok, err, inl, inr, arith, any, Among, update, ◌==◌, ==_iff, str_eq, eq_iff,
  opt_eq_self, opt_eq_sound, is_none, Bool-cases, if◌then◌else◌, subst,
}
use threatforge.Models.{Time, Json, Connection, ConnectionStatus, insert}
use threatforge.Connections.{
  service, provider_mismatch, identity_conflict, ProviderIdentity, get_connection, flush_connection,
  bind_bot_identity, bound, is_active_identity, same_identity,
}
use threatforge.Connections.Issued.{connection-id}

any-Among :
    (p : Connection → Bool) (rows : List Connection)
    → any p rows ≡ true
    → (x : Connection) × Among x rows × (p x ≡ true)
unfolding any
any-Among p [] h = absurd (ground arith)
any-Among p (x ∷ rows) h = elim (Bool-cases (p x)) [
  | inl hit ↦ (x, inl refl, hit)
  | inr miss ↦
      let (y, among, hit) = any-Among p rows (ground (arith, h, miss)) in (y, inr among, hit)
]

none-Among :
    (p : Connection → Bool) (x : Connection) (rows : List Connection)
    → any p rows ≡ false
    → Among x rows
    → p x ≡ false
unfolding any
none-Among p x [] h among = absurd among
none-Among p x (y ∷ rows) h (inl same) = ap p same ∙ ground (arith, h)
none-Among p x (y ∷ rows) h (inr among) = none-Among p x rows (ground (arith, h)) among

any_less :
    (p q : Connection → Bool) (rows : List Connection)
    → ((x : Connection) → p x ≡ false → q x ≡ false)
    → any p rows ≡ false
    → any q rows ≡ false
unfolding any
any_less p q [] fewer h = refl
any_less p q (x ∷ rows) fewer h = ground (arith, h, fewer x, any_less p q rows fewer)

-- Another connection, of whatever tenant, is live and active under the identity.
abbrev pub Taken : ProviderIdentity → ℕ → List Connection → Type 0
Taken identity id rows =
    (x : Connection) × Among x rows
    × (x.id ≢ id)
    × (x.provider ≡ identity.provider)
    × (x.provider_account_ref ≡ some identity.account_ref)
    × (x.enabled ≡ true)
    × (x.deleted_at ≡ none)

module _ (identity : ProviderIdentity) where
  abbrev clashes : ℕ → Connection → Bool
  clashes id x = is_active_identity identity.provider identity.account_ref x && not (x.id == id)

  none_set : (o : Option Time) → is_none o ≡ true → o ≡ none
  none_set none h = refl
  none_set (some t) h = absurd (ground arith)

  clash-Taken :
      (id : ℕ) (rows : List Connection) → any (clashes id) rows ≡ true → Taken identity id rows
  clash-Taken id rows h =
      let (x, among, hit) = any-Among (clashes id) rows h in
      (
        x,
        among,
        ground (arith, hit, ==_iff x.id id),
        ground (arith, hit, eq_iff x.provider identity.provider),
        opt_eq_sound x.provider_account_ref identity.account_ref (ground (arith, hit)),
        ground (arith, hit),
        none_set x.deleted_at (ground (arith, hit)),
      )

  Taken-clash :
      (id : ℕ) (rows : List Connection) → any (clashes id) rows ≡ false → Taken identity id rows → ⊥
  Taken-clash id rows h (x, among, other, provider, ref, on, live) = absurd (
      ground (
        arith,
        none-Among (clashes id) x rows h among,
        other,
        ==_iff x.id id,
        (eq_iff x.provider identity.provider).1 provider,
        opt_eq_self identity.account_ref,
        ref,
        on,
        live,
      ))

  bound_flushes :
      (now : Time) (c : Connection) (rows : List Connection)
      → identity.provider ≡ c.provider
      → any (clashes c.id) rows ≡ false
      → flush_connection (bound now identity true c) rows ≡ (
        ok (bound now identity true c),
        update (λ x. x.id == c.id) (λ _. bound now identity true c) rows,
      )
  unfolding flush_connection
  bound_flushes now c rows same free =
      let d = bound now identity true c in
      rw
        (any_less (clashes c.id) (λ x. not (x.id == d.id) && same_identity d x) rows
          (λ x apart. ground (arith, apart, same)) free)
        refl

-- To bind an identity that names its provider in normalised form to a connection of the tenant, and
-- activate it, ends in one of three ways. If the provider is not the connection's, the call raises
-- ProviderMismatch; if another connection of any tenant is live and active under the identity, it
-- raises IdentityConflict; in both cases no row changes. Otherwise it succeeds: the connection has
-- the account, is enabled and active, and no row of another id changes.
pub bind_decides :
    (clean : String → String) (now : Time) (tenant id : ℕ) (identity : ProviderIdentity)
    (rows : List Connection) (c : Connection)
    → get_connection tenant id rows ≡ some c
    → clean identity.provider ≡ identity.provider
    → let d = record c {
      provider_account_ref = some identity.account_ref;
      config_json =
          if str_eq identity.username ""
          then c.config_json
          else insert "bot_username" (Json.str identity.username) c.config_json;
      enabled = true;
      status = ConnectionStatus.active;
      updated_at = now;
    } in
      let answer = bind_bot_identity clean now tenant id identity true rows in
      ((identity.provider ≢ c.provider) × (answer ≡ (err (service provider_mismatch), rows)))
      ⊎ (((identity.provider ≡ c.provider)
            × Taken identity id rows
            × (answer ≡ (err (service identity_conflict), rows)))
          ⊎ ((identity.provider ≡ c.provider)
              × (¬ Taken identity id rows)
              × (answer ≡ (ok d, update (λ x. x.id == id) (λ _. d) rows))))
unfolding bind_bot_identity
bind_decides clean now tenant id identity rows c found normal =
    let at = connection-id tenant id rows c found in
    elim (Bool-cases (str_eq identity.provider c.provider)) [
      | inr foreign ↦ inl (
        ground (arith, foreign, eq_iff identity.provider c.provider),
        rw (found, normal) (rw (foreign) refl),
      )
      | inl own ↦
          let same = (eq_iff identity.provider c.provider).0 own in
          inr (elim (Bool-cases (any (clashes identity c.id) rows)) [
            | inl taken ↦ inl (
              same,
              subst (λ k. Taken identity k rows) at (clash-Taken identity c.id rows taken),
              rw (found, normal) (rw (own, taken) refl),
            )
            | inr free ↦ inr (
              same,
              λ taken.
                  Taken-clash identity c.id rows free
                    (subst (λ k. Taken identity k rows) (sym at) taken),
              rw (found, normal)
                  (rw (own, free)
                    (bound_flushes identity now c rows same free
                      ∙ ap
                          (λ k. (
                            ok (bound now identity true c),
                            update (λ x. x.id == k) (λ _. bound now identity true c) rows,
                          ))
                          at)),
            )
          ])
    ]
