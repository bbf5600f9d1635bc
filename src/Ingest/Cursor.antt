-- ===== src/Ingest/Cursor.antt =====
-- The cursor of the connection after an ingestion.
use threatforge.Common.{
  ℕ, String, ◌≡◌, ◌≢◌, refl, sym, ap, ◌∙◌, subst, true, some, Result, ok, err, arith, find?,
  find?-update, update, ◌==◌, ==_iff,
}
use threatforge.Models.{Time, Json, Dict, Connection, Source}
use threatforge.Ingest.{
  IngestError, IngestResult, Outcome, normalized, control, rejected, deduplicated, Db, Weather,
  Runtime, Provider, ingest_update, owns, is_live, extract_cursor, advance_cursor,
}
use threatforge.Ingest.Effect.{Effect, EffectOf}
use threatforge.Ingest.Atomic.{ingest_atomic}

-- The connection of the source, with the cursor `v`.
abbrev pub Follows : Source → String → Db → Type 0
Follows s v db = (c : Connection) × (find? (owns s) db.connections ≡ some c) × (c.cursor ≡ some v)

module _ (now : Time) (new_id : ℕ) (w : Weather) (s : Source) (c : Connection) (v : String)
    (db : Db) (found : find? (owns s) db.connections ≡ some c) where
  owns-advance : (x : Connection) → owns s (advance_cursor now (some v) x) ≡ owns s x
  owns-advance x = refl

  moved-Follows :
      (db' : Db)
      → db'.connections ≡ update (λ x. x.id == c.id) (advance_cursor now (some v)) db.connections
      → Follows s v db'
  moved-Follows db' moved = (
    advance_cursor now (some v) c,
    ap (find? (owns s)) moved
        ∙ find?-update (owns s) (λ x. x.id == c.id) (advance_cursor now (some v)) db.connections
            {x = c} owns-advance found
        ∙ ground (arith, ==_iff c.id c.id),
    refl,
  )

  EffectOf-Follows :
      (db' : Db) (res : IngestResult) (o : Outcome)
      → o ≢ deduplicated
      → EffectOf now new_id w s c (some v) db db' res o
      → Follows s v db'
  EffectOf-Follows db' res deduplicated new h = absurd (new refl)
  EffectOf-Follows db' res normalized new (_, _, _, _, _, _, _, moved, _) = moved-Follows db' moved
  EffectOf-Follows db' res control new (_, _, _, _, _, _, _, moved, _) = moved-Follows db' moved
  EffectOf-Follows db' res rejected new (_, _, _, _, _, _, _, moved, _) = moved-Follows db' moved

  Effect-Follows :
      (r : Result IngestError IngestResult × Db) (res : IngestResult)
      → Effect now new_id w s c (some v) db r
      → r.0 ≡ ok res
      → res.outcome ≢ deduplicated
      → Follows s v r.1
  Effect-Follows (err e, db') res h is_ok new = absurd (ground arith)
  Effect-Follows (ok first, db') res h is_ok new =
      EffectOf-Follows db' first first.outcome
        (λ repeated.
          let same : first.outcome ≡ res.outcome = ground (arith, is_ok) in
          new (sym same ∙ repeated))
        h

-- After an update with an id has been ingested through a live connection as normalized, control or
-- rejected, the connection of the source has that id as its cursor.
pub cursor_follows :
    (run : Runtime) (provider : Provider) (now : Time) (new_id : ℕ) (w : Weather) (s : Source)
    (raw : Dict Json) (db : Db) (c : Connection) (v : String) (res : IngestResult)
    → find? (owns s) db.connections ≡ some c
    → is_live c s ≡ true
    → extract_cursor run.repr raw ≡ some v
    → (ingest_update run provider now new_id w s raw db).0 ≡ ok res
    → res.outcome ≢ deduplicated
    → (d : Connection) × (find?
          (owns s)
          (ingest_update run provider now new_id w s raw db).1.connections
        ≡ some d)
      × (d.cursor ≡ some v)
cursor_follows run provider now new_id w s raw db c v res found live id is_ok new =
    Effect-Follows now new_id w s c v db found (ingest_update run provider now new_id w s raw db)
      res
      (subst (λ o. Effect now new_id w s c o db (ingest_update run provider now new_id w s raw db))
        id (ingest_atomic run provider now new_id w s raw db c found live))
      is_ok new
