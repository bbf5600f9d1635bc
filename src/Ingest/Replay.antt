-- ===== src/Ingest/Replay.antt =====
-- An update that is delivered twice.
use threatforge.Common.{
  ℕ, String, ◌≡◌, refl, ◌∙◌, true, false, Option, none, some, List, [], ◌∷◌, ◌++◌, ok, inl, inr,
  arith, ◌==◌, ==_iff, str_eq, eq_iff, find?, update, is_some, Option-cases, if◌then◌else◌,
}
use threatforge.Models.{Time, Json, Dict, Event, Connection, Source}
use threatforge.Verify.{parse_verify_nonce}
use threatforge.Ingest.{
  normalized, Db, Weather, Runtime, Provider, NormalizedUpdate, violates, find_existing,
  ingest_update, ingest_normal, store_normalized, normalized_event, validated, same_update,
  extract_cursor, extract_text, external_hash, owns, is_live, advance_cursor, commit_event, done,
  seen_before, envelope_of,
}
use threatforge.Ingest.Effect.{normalized_kept, normalized_twice}
use threatforge.Ingest.Atomic.{resolve_live}

-- Moving the cursor leaves the connection the source's, and live.
advance-is_live :
    (now : Time) (cursor : Option String) (c : Connection) (s : Source)
    → is_live (advance_cursor now cursor c) s ≡ is_live c s
unfolding is_live
advance-is_live now none c s = refl
advance-is_live now (some v) c s = refl

owns-advance :
    (now : Time) (cursor : Option String) (s : Source) (rows : List Connection) (c : Connection)
    → find? (owns s) rows ≡ some c
    → find? (owns s) (update (λ x. x.id == c.id) (advance_cursor now cursor) rows)
      ≡ some (advance_cursor now cursor c)
unfolding find? update
owns-advance now cursor s [] c h = absurd (ground arith)
owns-advance now none s (x ∷ rows) c h = ground (arith, owns-advance now none s rows c)
owns-advance now (some v) s (x ∷ rows) c h = ground (arith, owns-advance now (some v) s rows c)

-- A row of the source with this hash is found, whatever stands before it.
find_existing-among :
    (s : Source) (hash : String) (e : Event) (others rows : List Event)
    → str_eq hash "" ≡ false
    → same_update s.tenant_id s.id hash e ≡ true
    → is_some (find_existing s hash (others ++ (e ∷ rows))) ≡ true
unfolding find_existing find?
find_existing-among s hash e [] rows real same = ground (arith, real, same)
find_existing-among s hash e (x ∷ others) rows real same =
    ground (arith, real, find_existing-among s hash e others rows real same)

is_some-some : (o : Option Event) → is_some o ≡ true → (e : Event) × (o ≡ some e)
is_some-some none h = absurd (ground arith)
is_some-some (some e) h = (e, refl)

module _ (run : Runtime) (provider : Provider) (s : Source) (raw : Dict Json)
    (nu : NormalizedUpdate) where
  abbrev cursor_of : Option String
  cursor_of = extract_cursor run.repr raw

  -- The hash that the event of the update carries.
  abbrev pub update_hash : String
  update_hash =
      if str_eq nu.external_id ""
      then external_hash run provider cursor_of
      else run.sha256 nu.external_id

  abbrev pub event_of : Time → ℕ → Event
  event_of now new_id = normalized_event run now new_id s update_hash nu

  module _ (message : parse_verify_nonce run.wide (extract_text raw) ≡ none)
      (valid : validated provider raw ≡ ok nu) where
    module _ (now : Time) (new_id : ℕ) (w : Weather) (db : Db) (c : Connection)
        (found : find? (owns s) db.connections ≡ some c) (live : is_live c s ≡ true) where
      to_store :
          find_existing s (external_hash run provider cursor_of) db.events ≡ none
          → ingest_update run provider now new_id w s raw db
            ≡ store_normalized now w s c cursor_of
                (envelope_of run s nu)
                (event_of now new_id)
                db.requests
                db
      unfolding ingest_update ingest_normal
      to_store fresh =
          rw (resolve_live run provider now new_id w s raw db c found live)
            (rw (fresh) (rw (message) (rw (valid) refl)))

      to_seen :
          (e : Event)
          → find_existing s (external_hash run provider cursor_of) db.events ≡ some e
          → ingest_update run provider now new_id w s raw db ≡ (ok (seen_before c e), db)
      unfolding ingest_update
      to_seen e there =
          rw (resolve_live run provider now new_id w s raw db c found live) (rw (there) refl)

    module _ (now : Time) (new_id : ℕ) (w : Weather) (db : Db) (c : Connection)
        (found : find? (owns s) db.connections ≡ some c) (live : is_live c s ≡ true)
        (up : w.broken ≡ false) (others rows : List Event) (e : Event)
        (stands : w.arrived ++ db.events ≡ others ++ (e ∷ rows))
        (real : str_eq update_hash "" ≡ false)
        (same : same_update s.tenant_id s.id update_hash e ≡ true) where
      stored_before : (f : Event) × (find_existing s update_hash (w.arrived ++ db.events) ≡ some f)
      stored_before =
          is_some-some (find_existing s update_hash (w.arrived ++ db.events))
            (rw (stands) (find_existing-among s update_hash e others rows real same))

      refused_twice : violates s (event_of now new_id) (w.arrived ++ db.events) ≡ true
      unfolding violates normalized_event
      refused_twice = rw (stored_before.1) refl

      -- The event of the update stands in the table when the transaction flushes.
      again :
          (f : Event) × ((ingest_update run provider now new_id w s raw db).0
            ≡ ok (seen_before c f))
          × ((ingest_update run provider now new_id w s raw db).1.connections ≡ db.connections)
          × ((ingest_update run provider now new_id w s raw db).1.requests ≡ db.requests)
      unfolding normalized_event
      again =
          elim (Option-cases (find_existing s (external_hash run provider cursor_of) db.events)) [
            | inr (f, there) ↦
                rw (to_seen now new_id w db c found live f there) (f, refl, refl, refl)
            | inl fresh ↦ rw (to_store now new_id w db c found live fresh) (
                rw
                  (normalized_twice now new_id w s c cursor_of db (envelope_of run s nu)
                    (event_of now new_id) db.requests up refused_twice)
                  (rw (stored_before.1) (stored_before.0, refl, refl, refl)))
          ]

-- An update that is no control message, which the provider accepts and which carries an id, is
-- stored the first time, if the table has no event for it and the database holds. Delivered again,
-- at any later time and whatever others commit meanwhile, it is answered as a duplicate: no
-- connection and no test request changes, and the result keeps the cursor of the first time.
pub replay_deduplicated :
    (run : Runtime) (provider : Provider) (s : Source) (raw : Dict Json) (nu : NormalizedUpdate)
    (now later : Time) (id1 id2 : ℕ) (w1 w2 : Weather) (db : Db) (c : Connection)
    → parse_verify_nonce run.wide (extract_text raw) ≡ none
    → validated provider raw ≡ ok nu
    → str_eq (update_hash run provider s raw nu) "" ≡ false
    → find? (owns s) db.connections ≡ some c
    → is_live c s ≡ true
    → find_existing s (external_hash run provider (extract_cursor run.repr raw)) db.events ≡ none
    → violates s (event_of run provider s raw nu now id1) (w1.arrived ++ db.events) ≡ false
    → w1.broken ≡ false
    → w2.broken ≡ false
    → let first = ingest_update run provider now id1 w1 s raw db in
      let second = ingest_update run provider later id2 w2 s raw first.1 in
      let moved = advance_cursor now (extract_cursor run.repr raw) c in
      (first.0
        ≡ ok (
            done normalized
              (event_of run provider s raw nu now id1)
              now
              (extract_cursor run.repr raw)
              c
              (some (envelope_of run s nu))))
      × (f : Event) × (second.0 ≡ ok (seen_before moved f))
      × (second.1.connections ≡ first.1.connections)
      × (second.1.requests ≡ first.1.requests)
unfolding commit_event normalized_event
replay_deduplicated run provider s raw nu now later id1 id2 w1 w2 db c message valid real found live
      fresh free up1 up2 =
    let cursor = extract_cursor run.repr raw in
    let ev = event_of run provider s raw nu now id1 in
    let stored = commit_event now w1 c cursor ev db.requests db in
    rw (to_store run provider s raw nu message valid now id1 w1 db c found live fresh) (
      rw (normalized_kept now id1 w1 s c cursor db (envelope_of run s nu) ev db.requests up1 free) (
        let (f, answer, kept, requests) =
          again run provider s raw nu message valid later id2 w2 stored
            (advance_cursor now cursor c) (owns-advance now cursor s db.connections c found)
            (advance-is_live now cursor c s ∙ live) up2 w2.arrived (w1.arrived ++ db.events) ev refl
            real
            (ground (
              arith,
              ==_iff s.tenant_id s.tenant_id,
              ==_iff s.id s.id,
              eq_iff (update_hash run provider s raw nu) (update_hash run provider s raw nu),
            )) in
        (refl, f, answer, kept, requests)))
