-- ===== src/Ingest/Custody.antt =====
-- What a rejected update leaves in the tables.
use threatforge.Common.{ℕ, String, ◌≡◌, refl, true, none, some, err, find?}
use threatforge.Models.{Time, Json, Dict, Connection, Source}
use threatforge.Verify.{parse_verify_nonce}
use threatforge.Ingest.{
  Db, Weather, Runtime, Provider, ProviderError, unexpected, provider_raised, find_existing,
  ingest_update, ingest_normal, normalize_valid, validated, extract_cursor, extract_text,
  external_hash, owns, is_live,
}
use threatforge.Ingest.Atomic.{resolve_live}

module _ (run : Runtime) (provider : Provider) (now : Time) (new_id : ℕ) (w : Weather) (s : Source)
    (raw : Dict Json) (db : Db) (c : Connection) (error : ProviderError)
    (found : find? (owns s) db.connections ≡ some c) (live : is_live c s ≡ true)
    (fresh : find_existing s (external_hash run provider (extract_cursor run.repr raw)) db.events
      ≡ none)
    (message : parse_verify_nonce run.wide (extract_text raw) ≡ none)
    (refused : validated provider raw ≡ err error) where
  to_error :
      ingest_update run provider now new_id w s raw db
      ≡ normalize_valid run provider now new_id w s c
          (extract_cursor run.repr raw)
          db.requests
          db
          (err error)
  unfolding ingest_update ingest_normal
  to_error =
      rw (resolve_live run provider now new_id w s raw db c found live)
        (rw (fresh) (rw (message) (rw (refused) refl)))

-- Another exception of the provider passes through to the caller, and changes no table: the update
-- is delivered again.
pub exception_passes :
    (run : Runtime) (provider : Provider) (now : Time) (new_id : ℕ) (w : Weather) (s : Source)
    (raw : Dict Json) (db : Db) (c : Connection) (name : String)
    → find? (owns s) db.connections ≡ some c
    → is_live c s ≡ true
    → find_existing s (external_hash run provider (extract_cursor run.repr raw)) db.events ≡ none
    → parse_verify_nonce run.wide (extract_text raw) ≡ none
    → validated provider raw ≡ err (unexpected name)
    → ingest_update run provider now new_id w s raw db ≡ (err (provider_raised name), db)
exception_passes run provider now new_id w s raw db c name found live fresh message refused =
    to_error run provider now new_id w s raw db c (unexpected name) found live fresh message refused
