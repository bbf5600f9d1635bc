-- ===== src/Connections/Tests.antt =====
-- The theorems on connections at concrete tables.
use threatforge.Common.{
  String, ◌≡◌, ◌≢◌, ◌⊎◌, refl, true, false, none, some, List, [], ◌∷◌, ok, err, find?, any, update,
  All, IsKeyed, ◌==◌, ◌&&◌,
}
use threatforge.Models.{Json, Dict, Connection, ConnectionStatus}
use threatforge.Models.Samples.{sample_connection, sample_source}
use threatforge.Models.{TestRequest}
use threatforge.Verify.{nonce_hash, parse_verify_nonce, is_token, is_word}
use threatforge.Verify.Nonce.{AllTokens, ends_word, verify_message}
use threatforge.Ingest.{find_matching_test_request}
use threatforge.Connections.{get_source}
use threatforge.Connections.Create.{TestRequestIssued, request_source_test}
use threatforge.Connections.Issued.{request_matched}
use threatforge.Common.{arith}
use threatforge.Outbox.{not_found}
use threatforge.Ingest.{Db, resolve_active_pair, not_allowed}
use threatforge.Connections.{
  service, ProviderIdentity, connection_id, get_connection, bind_bot_identity, revoke_connection,
  soft_delete_connection, set_connection_enabled, set_connection_health, service, identity_conflict,
  provider_mismatch,
}
use threatforge.Connections.Bound.{Taken, bind_decides}
use threatforge.Connections.Closed.{strangers_not_found, revoke_closes}
use threatforge.Connections.Telemetry.{writes}

-- Tenant 5 has a connection whose identity is not bound yet.
abbrev unbound : Connection
unbound = record sample_connection {
  id = 8;
  tenant_id = 5;
  enabled = false;
  provider_account_ref = none;
}

abbrev rows : List Connection
rows = sample_connection ∷ unbound ∷ []

-- The bot of tenant 1.
abbrev bot : ProviderIdentity
bot = record { provider = "telegram"; account_ref = "bot:1"; username = "bot" }

abbrev same : String → String
same t = t

taken_run : bind_bot_identity same 700 5 8 bot true rows ≡ (err (service identity_conflict), rows)
unfolding bind_bot_identity get_connection find? any
taken_run = refl

rows-IsKeyed : IsKeyed connection_id rows
unfolding find?
rows-IsKeyed = (refl, (refl, tt))

abbrev own_bot : ProviderIdentity
own_bot = record { provider = "telegram"; account_ref = "bot:9"; username = "" }

unbound_found : get_connection 5 8 rows ≡ some unbound
unfolding get_connection find?
unbound_found = refl

abbrev bound_row : Connection
bound_row = record unbound {
  provider_account_ref = some "bot:9";
  enabled = true;
  status = ConnectionStatus.active;
  updated_at = 700;
}

bind_decides_example :
    ((own_bot.provider ≢ unbound.provider)
      × (bind_bot_identity same 700 5 8 own_bot true rows
          ≡ (err (service provider_mismatch), rows)))
    ⊎ (((own_bot.provider ≡ unbound.provider)
          × Taken own_bot 8 rows
          × (bind_bot_identity same 700 5 8 own_bot true rows
              ≡ (err (service identity_conflict), rows)))
        ⊎ ((own_bot.provider ≡ unbound.provider)
            × (¬ Taken own_bot 8 rows)
            × (bind_bot_identity same 700 5 8 own_bot true rows
                ≡ (ok bound_row, update (λ x. x.id == 8) (λ _. bound_row) rows))))
bind_decides_example = bind_decides same 700 5 8 own_bot rows unbound unbound_found refl

abbrev report : Dict Json
report = ("state", Json.str "healthy") ∷ ("last_event_at", Json.null) ∷ []

foreign : find? (λ (c : Connection). (c.id == 2) && (c.tenant_id == 5)) rows ≡ none
unfolding find?
foreign = refl

strangers_not_found_example :
    (bind_bot_identity same 700 5 2 bot true rows ≡ (err (service not_found), rows))
    × (revoke_connection 700 5 2 none rows ≡ (err (service not_found), rows))
    × (soft_delete_connection 700 5 2 none rows ≡ (err (service not_found), rows))
    × (set_connection_enabled 700 5 2 true rows ≡ (err (service not_found), rows))
    × (set_connection_health 700 5 2 report rows ≡ (err (service not_found), rows))
strangers_not_found_example = strangers_not_found same 700 5 2 bot true none report rows foreign

own : get_connection 1 2 rows ≡ some sample_connection
unfolding get_connection find?
own = refl

abbrev closed : Connection
closed = record sample_connection {
  enabled = false;
  status = ConnectionStatus.revoked;
  revoked_at = some 700;
  revoked_by = none;
  updated_at = 700;
}

abbrev gone : Connection
gone = record closed { deleted_at = some 700; deleted_by = none }

abbrev own_db : Db
own_db = record { connections = rows; events = []; requests = [] }

revoke_closes_example :
    (revoke_connection 700 1 2 none rows ≡ (ok closed, update (λ x. x.id == 2) (λ _. closed) rows))
    × (soft_delete_connection 700 1 2 none rows
        ≡ (ok gone, update (λ x. x.id == 2) (λ _. gone) rows))
    × (resolve_active_pair
          (record own_db { connections = update (λ x. x.id == 2) (λ _. closed) rows })
          sample_source
        ≡ err not_allowed)
    × (resolve_active_pair
          (record own_db { connections = update (λ x. x.id == 2) (λ _. gone) rows })
          sample_source
        ≡ err not_allowed)
revoke_closes_example =
    revoke_closes 700 1 2 none own_db sample_connection sample_source rows-IsKeyed own refl refl

silent : All (λ e. writes "last_event_at" e ≡ false) report
unfolding any
silent = (refl, (refl, tt))

abbrev config : Dict Json
config = []

-- A handshake for the source of tenant 1, and the request that is stored.
abbrev issued : TestRequestIssued
issued = record { request_id = 40; nonce = "abc_1234"; expires_at = 1800000100 }

opened_run :
    (request_source_test same 100 40 "abc_1234" 1 2 (some 4) 30 none rows (sample_source ∷ []) []).0
    ≡ ok issued
unfolding request_source_test get_connection get_source find? any nonce_hash
opened_run = refl

abbrev stored : List TestRequest
unfolding request_source_test
stored =
    (request_source_test same 100 40 "abc_1234" 1 2 (some 4) 30 none rows (sample_source ∷ []) []).1

opened :
    request_source_test same 100 40 "abc_1234" 1 2 (some 4) 30 none rows (sample_source ∷ []) []
    ≡ (ok issued, stored)
unfolding request_source_test get_connection get_source find? any nonce_hash
opened = refl

token : AllTokens "abc_1234"
unfolding is_token
token = (refl, (refl, (refl, (refl, (refl, (refl, (refl, (refl, tt))))))))

word : ends_word (λ _. false) false "abc_1234" ≡ true
unfolding is_word
word = refl

request_matched_example :
    (told : String) × (r : TestRequest) × (parse_verify_nonce
        (λ _. false)
        (some (verify_message "abc_1234"))
      ≡ some told)
    × (find_matching_test_request 500 1 2 (some 4) (nonce_hash same told) stored ≡ (some r, stored))
    × (r.id ≡ 40)
    × (r.nonce_hash ≡ nonce_hash same "abc_1234")
request_matched_example =
    request_matched same (λ _. false) 100 500 40 "abc_1234" 1 2 (some 4) 30 none rows
      (sample_source ∷ []) [] stored issued token (omega arith) (omega arith) word opened
      (omega arith)
