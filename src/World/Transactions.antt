-- ===== src/World/Transactions.antt =====
-- `SessionLocal()` and its transactions. A session works on a copy of what is committed; `flush`
-- checks the schema's uniqueness, `commit` publishes the copy, and closing drops it.
use mikrotik.Prelude.{if◌then◌else◌}
use mikrotik.Models.{Db, constraints_hold}
use mikrotik.World.Errors.{Result, ok, err, integrity}
use mikrotik.World.Actions.{World, App}

abbrev pub refresh : World → World
refresh s = record s { session = s.db }

-- `db.rollback()`
unfoldable pub rollback : App (Unit {0})
rollback s = (ok tt, refresh s)

-- `db.flush()`
unfoldable pub flush : App (Unit {0})
flush s = (if constraints_hold s.session then ok tt else err integrity, s)

abbrev publish : Result (Unit {0}) × World → Result (Unit {0}) × World
publish (ok u, s) = (ok u, record s { db = s.session })
publish (err e, s) = (err e, s)

-- `db.commit()`
unfoldable pub commit : App (Unit {0})
unfolding flush
commit s = publish (flush s)

abbrev closed : {A : Type 0} → Result A × World → Result A × World
closed (r, s) = (r, refresh s)

-- `db = SessionLocal(); try: m; finally: db.close()`
unfoldable pub with_session : {A : Type 0} → App A → App A
with_session m s = closed (m (refresh s))

-- a change of the working copy
unfoldable pub write : (Db → Db) → App (Unit {0})
write f s = (ok tt, record s { session = f s.session })
