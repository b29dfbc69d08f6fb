-- ===== src/Request/Versions.antt =====
-- The version check of `WriteState`, `internal/state/runner_requests.go`: what a write that succeeds
-- leaves, and that of two writes from one version the second fails.
use qiniu_ci_runner.Prelude.{
  String, true, false, List, none, some, ◌≡◌, refl, subst, ◌≢◌, arith, eq_iff, str_eq,
  if◌then◌else◌, update_where, find, count, In, is_empty, conflict,
}
use qiniu_ci_runner.Prelude.Table.{
  find-update, count-update_zero, count-some, find-update_other, find-keyed,
}
use qiniu_ci_runner.Request.Types.{Time, RunnerState}
use qiniu_ci_runner.Request.Record.{RunnerRequestRecord}
use qiniu_ci_runner.Request.Convert.{sanitize_id}
use qiniu_ci_runner.Request.Store.{Db, has_id}
use qiniu_ci_runner.Request.Writing.{
  write_state, at_version, set_columns, apply_state_timestamps, version-timestamps,
}
use qiniu_ci_runner.Request.Keys.{IsKeyed, same_id, same_id-swap, same_id_self, keeps_id}

-- The state as it is written: its id in the stored form, and its times set.
abbrev pub stamped : Time → RunnerState → RunnerState
stamped now st = apply_state_timestamps (record st { id = sanitize_id st.id; updated_at = now }) now

abbrev written_rows : Db → Time → RunnerState → List RunnerRequestRecord
written_rows db now st =
    update_where (at_version (sanitize_id st.id) st.version) (set_columns (stamped now st)) db.rows

write-some :
    (db : Db) (now : Time) (st : RunnerState)
    → (write_state db now st).1 ≡ none
    → (db.available ≡ true)
      × (is_empty (sanitize_id st.id) ≡ false)
      × (count (at_version (sanitize_id st.id) st.version) db.rows ≢ 0)
      × ((write_state db now st).0 ≡ record db { rows = written_rows db now st })
unfolding write_state
write-some db now st h = ground arith

write-refused :
    (db : Db) (now : Time) (st : RunnerState)
    → db.available ≡ true
    → is_empty (sanitize_id st.id) ≡ false
    → count (at_version (sanitize_id st.id) st.version) db.rows ≡ 0
    → write_state db now st ≡ (db, some conflict)
unfolding write_state
write-refused db now st a b c = ground arith

-- No row is left at the version that a write replaced.
written_rows-none :
    (db : Db) (now : Time) (st : RunnerState)
    → count (at_version (sanitize_id st.id) st.version) (written_rows db now st) ≡ 0
unfolding set_columns
written_rows-none db now st =
    count-update_zero (at_version (sanitize_id st.id) st.version) (set_columns (stamped now st))
      (λ a _.
        ground
          (arith, version-timestamps (record st { id = sanitize_id st.id; updated_at = now }) now))
      db.rows

-- Of two writes of one request from one version, in this order, the second fails with a conflict and
-- changes nothing, whatever states they write.
pub write-conflict :
    (db : Db) (now later : Time) (st other : RunnerState)
    → (write_state db now st).1 ≡ none
    → sanitize_id other.id ≡ sanitize_id st.id
    → other.version ≡ st.version
    → write_state (write_state db now st).0 later other ≡ ((write_state db now st).0, some conflict)
write-conflict db now later st other h same v =
    let (open_, named, _, made) = write-some db now st h in
    rw made (
      write-refused (record db { rows = written_rows db now st }) later other open_ (rw same named)
        (rw (same, v) (written_rows-none db now st)))

written_rows-found :
    (db : Db) (now : Time) (st : RunnerState) (old : RunnerRequestRecord)
    → IsKeyed db.rows
    → In old db.rows
    → at_version (sanitize_id st.id) st.version old ≡ true
    → old.id ≡ sanitize_id st.id
    → find (has_id (sanitize_id st.id)) (written_rows db now st)
      ≡ some (set_columns (stamped now st) old)
unfolding set_columns
written_rows-found db now st old k m at same =
    let p = at_version (sanitize_id st.id) st.version in
    let f = set_columns (stamped now st) in
    subst (λ s. find (has_id s) (written_rows db now st) ≡ some (f old)) same
      (subst (λ b. find (has_id old.id) (written_rows db now st) ≡ some (if b then f old else old))
        at
        (find-update same_id p f (keeps_id f (λ r. refl)) same_id-swap same_id_self old db.rows
          k.ids m))

written_rows-other :
    (db : Db) (now : Time) (st : RunnerState) (id : String)
    → str_eq (sanitize_id st.id) id ≡ false
    → find (has_id id) (written_rows db now st) ≡ find (has_id id) db.rows
unfolding set_columns
written_rows-other db now st id ne =
    find-update_other (has_id id) (at_version (sanitize_id st.id) st.version)
      (set_columns (stamped now st))
      (λ a h.
        let same : a.id ≡ sanitize_id st.id =
          (eq_iff a.id (sanitize_id st.id)).0 (ground (arith, h)) in
        (rw same ne, rw same ne))
      db.rows

-- If no two rows share a key and a write succeeds, then the row of the id was at the state's version,
-- the id now finds that row with the columns of the state, and every other id finds what it found.
pub write-effect :
    (db : Db) (now : Time) (st : RunnerState)
    → IsKeyed db.rows
    → (write_state db now st).1 ≡ none
    → (old : RunnerRequestRecord) × (find (has_id (sanitize_id st.id)) db.rows ≡ some old)
      × (old.version ≡ st.version)
      × (find (has_id (sanitize_id st.id)) (write_state db now st).0.rows
          ≡ some (set_columns (stamped now st) old))
      × ((id : String)
          → str_eq (sanitize_id st.id) id ≡ false
          → find (has_id id) (write_state db now st).0.rows ≡ find (has_id id) db.rows)
write-effect db now st k h =
    let (_, _, some_row, made) = write-some db now st h in
    let matches = at_version (sanitize_id st.id) st.version in
    let (old, m, at) = count-some matches db.rows some_row in
    let same : old.id ≡ sanitize_id st.id =
      (eq_iff old.id (sanitize_id st.id)).0 (ground (arith, at)) in
    (
      old,
      subst (λ s. find (has_id s) db.rows ≡ some old) same
          (find-keyed same_id same_id-swap same_id_self old db.rows k.ids m),
      ground (arith, at),
      rw made (written_rows-found db now st old k m at same),
      λ id ne. rw made (written_rows-other db now st id ne),
    )
