-- ===== src/Invites/Single.antt =====
-- An invite is used once, by whoever holds its token, and within its time.
use threatforge.Common.{
  ℕ, ◌+◌, ◌*◌, ◌≤◌, String, ◌≡◌, refl, Bool, true, false, Option, some, List, [], ◌∷◌, ok, err,
  arith, inl, inr, ◌==◌, ==_iff, str_eq, eq_iff, find?, find?-update, update, count, text_length,
  Option-cases,
}
use threatforge.Models.{Time, seconds}
use threatforge.Invites.{
  InviteStatus, TenantInvite, User, Tables, already_used, valid, with_status, is_pending, stands,
  has_expired, is_strong, create_invite, resolve, validate_token, invited_user, activated, spent,
  accept,
}

module _ (sha256 : String → String) (digit : ℕ → Bool) (salted : String → String) (now : Time)
    (token password : String) (db : Tables) where
  -- A successful acceptance: the invite that was found, and the user.
  abbrev pub Accepted : User → Tables → Type 0
  Accepted u db' =
      (i : TenantInvite) × (v : User) × (resolve sha256 token db.invites ≡ some i)
      × (is_pending i ≡ true)
      × (has_expired now i ≡ false)
      × (is_strong digit password ≡ true)
      × (invited_user sha256 i db.users ≡ some v)
      × (u ≡ activated sha256 i (salted password) v)
      × (db'.invites ≡ update (λ x. x.id == i.id) (spent sha256 now v) db.invites)

  accept_ok :
      (u : User) (db' : Tables)
      → accept sha256 digit salted now token password db ≡ (ok u, db')
      → Accepted u db'
  unfolding accept
  accept_ok u db' h = elim (Option-cases (resolve sha256 token db.invites)) [
    | inl lost ↦ absurd (ground (arith, h, lost))
    | inr (i, found) ↦ elim (Option-cases (invited_user sha256 i db.users)) [
      | inl lost ↦ absurd (ground (arith, h, found, lost))
      | inr (v, who) ↦ (
        i,
        v,
        found,
        ground (arith, h, found, who),
        ground (arith, h, found, who),
        ground (arith, h, found, who),
        who,
        ground (arith, h, found, who),
        ground (arith, h, found, who),
      )
    ]
  ]

  -- An invite that has been accepted is not pending any more.
  spent_refused :
      (later : Time) (other : String) (i : TenantInvite) (v : User) (db' : Tables)
      → resolve sha256 token db.invites ≡ some i
      → db'.invites ≡ update (λ x. x.id == i.id) (spent sha256 now v) db.invites
      → accept sha256 digit salted later token other db' ≡ (err already_used, db')
  unfolding accept resolve
  spent_refused later other i v db' found after = rw (after) (
      rw
        (find?-update (λ x. str_eq x.token_hash (sha256 token)) (λ x. x.id == i.id)
          (spent sha256 now v) db.invites (λ y. refl) found)
        (ground (arith, ==_iff i.id i.id)))

-- An invite works once: whoever has accepted it, a second acceptance of its token is refused, at
-- any later time and with any password, and changes no table.
pub accept_single :
    (sha256 : String → String) (digit : ℕ → Bool) (salted : String → String) (now later : Time)
    (token password other : String) (db db' : Tables) (u : User)
    → accept sha256 digit salted now token password db ≡ (ok u, db')
    → accept sha256 digit salted later token other db' ≡ (err already_used, db')
accept_single sha256 digit salted now later token password other db db' u h =
    let (i, v, found, _, _, _, _, _, after) =
      accept_ok sha256 digit salted now token password db u db' h in
    spent_refused sha256 digit salted now token password db later other i v db' found after

-- Who accepts an invite becomes an active user of the invite's tenant with the invite's role, and
-- of no other: no operator, with a strong password and a new password version. The invite was
-- pending and in its time.
pub accept_bounded :
    (sha256 : String → String) (digit : ℕ → Bool) (salted : String → String) (now : Time)
    (token password : String) (db db' : Tables) (u : User)
    → accept sha256 digit salted now token password db ≡ (ok u, db')
    → (i : TenantInvite) × (v : User) × (resolve sha256 token db.invites ≡ some i)
      × (invited_user sha256 i db.users ≡ some v)
      × (is_pending i ≡ true)
      × (now ≤ i.expires_at)
      × (10 ≤ text_length password)
      × (text_length password ≤ 256)
      × (u.tenant_id ≡ some i.tenant_id)
      × (u.role ≡ i.role)
      × (u.is_operator ≡ false)
      × (u.is_active ≡ true)
      × (u.pwd_version ≡ v.pwd_version + 1)
unfolding is_strong
accept_bounded sha256 digit salted now token password db db' u h =
    let (i, v, found, open_i, early, strong, who, same, _) =
      accept_ok sha256 digit salted now token password db u db' h in
    (
      i,
      v,
      found,
      who,
      open_i,
      ground (arith, early),
      ground (arith, strong),
      ground (arith, strong),
      ground (arith, same),
      ground (arith, same),
      ground (arith, same),
      ground (arith, same),
      ground (arith, same),
    )

module _ (sha256 : String → String) (now : Time) (ttl_hours new_id : ℕ) (token : String)
    (tenant : ℕ) (email role : String) (user : Option ℕ) (invited_by : String)
    (invites : List TenantInvite) where
  none_stands :
      (rows : List TenantInvite)
      → count
          (stands tenant email)
          (update (stands tenant email) (with_status InviteStatus.revoked) rows)
        ≡ 0
  unfolding count update
  none_stands [] = refl
  none_stands (i ∷ rows) = ground (arith, none_stands rows)

  -- After an invite has been created it is the only pending one of its address to its tenant, and
  -- its token, until its time has passed, is valid for that address.
  pub create_stands :
      (tenant_name : ℕ → Option String) (later : Time)
      → later ≤ now + seconds (ttl_hours * 3600)
      → let (invite, rows) =
          create_invite sha256 now ttl_hours new_id token tenant email role user invited_by
            invites in
        (count (stands tenant email) rows ≡ 1)
        × (resolve sha256 token rows ≡ some invite)
        × (validate_token sha256 tenant_name later token rows
            ≡ (valid email (tenant_name tenant), rows))
  unfolding create_invite validate_token resolve count find?
  create_stands tenant_name later early = (
    ground (arith, none_stands invites, ==_iff tenant tenant, eq_iff email email),
    ground (arith, eq_iff (sha256 token) (sha256 token)),
    ground (arith, early, eq_iff (sha256 token) (sha256 token)),
  )
