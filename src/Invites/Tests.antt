-- ===== src/Invites/Tests.antt =====
-- The theorems on invites at concrete tables.
use threatforge.Common.{
  ℕ, String, ◌≡◌, refl, Bool, false, none, some, [], ◌∷◌, Option, ok, err, leb, ◌&&◌, find?, update,
}
use threatforge.Invites.{
  InviteStatus, TenantInvite, User, Tables, already_used, is_strong, some_char, resolve,
  invited_user, activated, spent, accept,
}
use threatforge.Invites.Single.{accept_single}

-- A text stands for its own hash.
abbrev same : String → String
same t = t

abbrev digit : ℕ → Bool
digit c = leb 48 c && leb c 57

abbrev ana : User
ana = record {
  id = 3;
  email = "ana@x.org";
  hashed_password = "";
  role = "viewer";
  is_operator = false;
  operator_role = none;
  tenant_id = none;
  is_active = false;
  pwd_version = 1;
  created_at = 5;
  last_login_at = none;
}

abbrev invite : TenantInvite
invite = record {
  id = 1;
  tenant_id = 7;
  user_id = some 3;
  email = "ana@x.org";
  role = "analyst";
  token_hash = "tok";
  status = InviteStatus.pending;
  expires_at = 900;
  created_at = 10;
  accepted_at = none;
  invited_by = some "root";
}

abbrev db : Tables
db = record { invites = invite ∷ []; users = ana ∷ [] }

abbrev after : Tables
after = record {
  invites = spent same 100 ana invite ∷ [];
  users = activated same invite "abcdefghi1" ana ∷ [];
}

accept_run :
    accept same digit same 100 "tok" "abcdefghi1" db
    ≡ (ok (activated same invite "abcdefghi1" ana), after)
unfolding accept resolve invited_user is_strong some_char find? update
accept_run = refl

accept_single_example : accept same digit same 200 "tok" "other" after ≡ (err already_used, after)
accept_single_example =
    accept_single same digit same 100 200 "tok" "abcdefghi1" "other" db after
      (activated same invite "abcdefghi1" ana) accept_run

abbrev name_of : ℕ → Option String
name_of id = some "Acme"
