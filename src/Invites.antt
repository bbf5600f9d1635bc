-- ===== src/Invites.antt =====
-- app/invites.py, with `TenantInvite` and `User` of app/models.py and the password policy of
-- app/security.py. The mail, the audit rows and the link are outside the tables.
pub mod Single
mod Tests
use threatforge.Common.{
  ℕ, ◌+◌, ◌*◌, String, Bool, true, false, not, ◌&&◌, ◌||◌, Option, none, some, List, [], ◌∷◌,
  Result, ok, err, ltb, leb, ◌==◌, str_eq, find?, update, text_length, if◌then◌else◌,
}
use Prim.Native.Char.{code}
use threatforge.Models.{Time, seconds}

pub data InviteStatus : Type 0 where
  pending accepted expired revoked : InviteStatus

pub record TenantInvite : Type 0 where
  pub id : ℕ
  pub tenant_id : ℕ
  pub user_id : Option ℕ
  pub email : String
  pub role : String
  pub token_hash : String
  pub status : InviteStatus
  pub expires_at : Time
  pub created_at : Time
  pub accepted_at : Option Time
  pub invited_by : Option String

pub record User : Type 0 where
  pub id : ℕ
  pub email : String
  pub hashed_password : String
  pub role : String
  pub is_operator : Bool
  pub operator_role : Option String
  pub tenant_id : Option ℕ
  pub is_active : Bool
  pub pwd_version : ℕ
  pub created_at : Time
  pub last_login_at : Option Time

pub record Tables : Type 0 where
  pub invites : List TenantInvite
  pub users : List User

-- What `validate_token` answers and the `ValueError` of `accept`, by what they say (`accept` does
-- not tell a revoked invite from a used one), and the `TypeError` of an addition to `None`.
pub data InviteError : Type 0 where
  invalid_invite already_used invite_revoked invite_expired weak_password none_plus_one :
      InviteError

pub data Validation : Type 0 where
  refused : InviteError → Validation
  valid : String → Option String → Validation

abbrev pub invite_id : TenantInvite → ℕ
invite_id i = i.id

abbrev pub user_id : User → ℕ
user_id u = u.id

-- `_expired`
abbrev pub has_expired : Time → TenantInvite → Bool
has_expired now i = ltb i.expires_at now

abbrev pub is_pending : TenantInvite → Bool
is_pending i = elim i.status [ pending ↦ true | _ ↦ false ]

-- A pending invite of this address to this tenant.
abbrev pub stands : ℕ → String → TenantInvite → Bool
stands tenant email i = (i.tenant_id == tenant) && (str_eq i.email email && is_pending i)

abbrev pub with_status : InviteStatus → TenantInvite → TenantInvite
with_status s i = record i { status = s }

-- A character of the text satisfies the condition.
unfoldable pub some_char : (ℕ → Bool) → String → Bool
some_char p String.[] = false
some_char p (String.◌∷◌ c s) = p (code c) || some_char p s

abbrev pub is_letter : ℕ → Bool
is_letter c = (leb 65 c && leb c 90) || (leb 97 c && leb c 122)

-- `check_password_strength` raises nothing; `digit` are the decimal digits.
unfoldable pub is_strong : (ℕ → Bool) → String → Bool
is_strong digit password =
    not (ltb (text_length password) 10)
    && (not (ltb 256 (text_length password))
        && (some_char is_letter password && some_char digit password))

module _ (sha256 : String → String) where
  -- `create_invite` for a token that was drawn; the earlier invites of the address are revoked.
  unfoldable pub create_invite :
      Time
      → ℕ
      → ℕ
      → String
      → ℕ
      → String
      → String
      → Option ℕ
      → String
      → List TenantInvite
      → TenantInvite × List TenantInvite
  create_invite now ttl_hours new_id token tenant email role user invited_by invites =
      let invite : TenantInvite = record {
        id = new_id;
        tenant_id = tenant;
        user_id = user;
        email = email;
        role = role;
        token_hash = sha256 token;
        status = pending;
        expires_at = now + seconds (ttl_hours * 3600);
        created_at = now;
        accepted_at = none;
        invited_by = some invited_by;
      } in
      (invite, invite ∷ update (stands tenant email) (with_status revoked) invites)

  -- `_resolve`
  unfoldable pub resolve : String → List TenantInvite → Option TenantInvite
  resolve token invites = find? (λ i. str_eq i.token_hash (sha256 token)) invites

  abbrev pub expire : TenantInvite → List TenantInvite → List TenantInvite
  expire i rows = update (λ x. x.id == i.id) (with_status expired) rows

  -- `tenant_name` is the name of the row that `db.get(Tenant, id)` finds.
  abbrev pub validated :
      (ℕ → Option String)
      → Time
      → List TenantInvite
      → Option TenantInvite
      → Validation × List TenantInvite
  validated tenant_name now rows none = (refused invalid_invite, rows)
  validated tenant_name now rows (some i) = elim i.status [
    | accepted ↦ (refused already_used, rows)
    | revoked ↦ (refused invite_revoked, rows)
    | expired ↦ (refused invite_expired, rows)
    | pending ↦
        if has_expired now i
        then (refused invite_expired, expire i rows)
        else (valid i.email (tenant_name i.tenant_id), rows)
  ]

  unfoldable pub validate_token :
      (ℕ → Option String) → Time → String → List TenantInvite → Validation × List TenantInvite
  validate_token tenant_name now token rows = validated tenant_name now rows (resolve token rows)

  -- `db.get(User, invite.user_id) if invite.user_id else None`
  abbrev linked : Option ℕ → List User → Option User
  linked none users = none
  linked (some id) users = if id == 0 then none else find? (λ u. u.id == id) users

  abbrev or_by_email : String → List User → Option User → Option User
  or_by_email email users (some u) = some u
  or_by_email email users none = find? (λ u. str_eq u.email email) users

  -- The user that the invite activates.
  unfoldable pub invited_user : TenantInvite → List User → Option User
  invited_user i users = or_by_email i.email users (linked i.user_id users)

  abbrev pub activated : TenantInvite → String → User → User
  activated i hashed u = record u {
    hashed_password = hashed;
    role = i.role;
    tenant_id = some i.tenant_id;
    is_operator = false;
    is_active = true;
    pwd_version = u.pwd_version + 1;
  }

  abbrev pub spent : Time → User → TenantInvite → TenantInvite
  spent now u i = record i { status = accepted; accepted_at = some now; user_id = some u.id }

  module _ (digit : ℕ → Bool) (salted : String → String) where
    -- A new `User` has no `pwd_version` before it is flushed, so `user.pwd_version += 1` raises.
    abbrev pub accept_for :
        Time → String → TenantInvite → Tables → Option User → Result InviteError User × Tables
    accept_for now password i db none =
        (err (if is_strong digit password then none_plus_one else weak_password), db)
    accept_for now password i db (some u) =
        if is_strong digit password
        then (
          ok (activated i (salted password) u),
          record {
            invites = update (λ x. x.id == i.id) (spent now u) db.invites;
            users = update (λ x. x.id == u.id) (activated i (salted password)) db.users;
          },
        )
        else (err weak_password, db)

    abbrev pub accept_found :
        Time → String → Tables → Option TenantInvite → Result InviteError User × Tables
    accept_found now password db none = (err invalid_invite, db)
    accept_found now password db (some i) =
        if not (is_pending i)
        then (err already_used, db)
        else if has_expired now i
        then (err invite_expired, record db { invites = expire i db.invites })
        else accept_for now password i db (invited_user i db.users)

    unfoldable pub accept : Time → String → String → Tables → Result InviteError User × Tables
    accept now token password db = accept_found now password db (resolve token db.invites)
