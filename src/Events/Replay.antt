-- ===== src/Events/Replay.antt =====
-- Any number of calls of `AppendStagedLog`, one after another, and what `ReadLog` then reads.
use qiniu_ci_runner.Prelude.{
  ℕ, String, Bool, true, false, ◌&&◌, List, [], ◌∷◌, ◌++◌, ◌≡◌, ◌≢◌, refl, sym, ap, subst, ◌∙◌, inl,
  inr, Result, ok, err, Error, not_exist, if◌then◌else◌, str_eq, All, All-append, select,
  select-append, Bool-cases, Result-cases,
}
use qiniu_ci_runner.Request.Types.{Time}
use qiniu_ci_runner.Request.Convert.{sanitize_id}
use qiniu_ci_runner.Events.Log.{
  Bytes, RunnerEventRecord, Events, event_row, insert_event, log_event_type, append_staged_log,
  of_log, messages, last_bytes, read_log,
}
use qiniu_ci_runner.Events.Contents.{
  IsNumbered, append-nil, append_assoc, appended, append-cases, append-IsNumbered, messages-append,
  contents, joined, read_joined,
}

pub record Append : Type 0 where
  pub id : String
  pub name : String
  pub stage : String
  pub bytes : Bytes
  pub now : Time

abbrev append_one : Events → Append → Events
append_one db c = append_staged_log db c.id c.name c.stage c.bytes c.now

unfoldable pub append_all : Events → List Append → Events
append_all db [] = db
append_all db (c ∷ calls) = append_all (append_one db c) calls

-- The reference: the bytes of the calls for one log, by the request's id and the log's type.
abbrev pub goes_to : String → String → String → String → Bool
goes_to id t given name = elim (log_event_type name) [
  | err e ↦ false
  | ok u ↦ str_eq (sanitize_id given) (sanitize_id id) && str_eq u t
]

abbrev pub written : String → String → List Append → Bytes
written id t [] = []
written id t (c ∷ calls) =
    let rest = written id t calls in if goes_to id t c.id c.name then c.bytes ++ rest else rest

-- No event of the log is empty.
abbrev pub IsFilled : String → String → Events → Type 0
IsFilled id t db = All (λ (e : RunnerEventRecord). e.message ≢ []) (select (of_log id t) db.rows)

-- A log with no bytes is a log that does not exist.
abbrev pub held : ℕ → Bytes → Result Bytes
held max [] = err not_exist
held max (b ∷ bytes) = ok (last_bytes max (b ∷ bytes))

held_some :
    (max : ℕ) (xs ys : Bytes) → xs ≢ [] → held max (xs ++ ys) ≡ ok (last_bytes max (xs ++ ys))
held_some max [] ys h = absurd (h refl)
held_some max (x ∷ xs) ys h = refl

joined-held :
    (max : ℕ) (es : List RunnerEventRecord)
    → All (λ (e : RunnerEventRecord). e.message ≢ []) es
    → joined max es ≡ held max (messages es)
joined-held max [] h = refl
joined-held max (e ∷ es) h = sym (held_some max e.message (messages es) h.0)

append_one-available :
    (db : Events) (c : Append) → db.available ≡ true → (append_one db c).available ≡ true
append_one-available db c h = elim (append-cases db c.id c.name c.stage c.bytes c.now) [
  | inl e ↦ ap (λ (d : Events). d.available) e ∙ h
  | inr (t, _, e) ↦ ap (λ (d : Events). d.available) e ∙ h
]

-- A name that no log has leaves the table as it was.
refused :
    (db : Events) (given name stage : String) (e : Error) (bytes : Bytes) (now : Time)
    → log_event_type name ≡ err e
    → append_staged_log db given name stage bytes now ≡ db
unfolding append_staged_log
refused db given name stage e [] now h = refl
refused db given name stage e (b ∷ bytes) now h = elim (Bool-cases db.available) [
  | inl t ↦ simp (t, h)
  | inr f ↦ simp (f)
]

module _ (id t : String) where
  -- What one call adds to the events of the log: an event with its bytes, or nothing.
  abbrev Adds : Events → Events → Bool → Bytes → List RunnerEventRecord → Type 0
  Adds db db' goes bytes es =
      (select (of_log id t) db'.rows ≡ select (of_log id t) db.rows ++ es)
      × (messages es ≡ (if goes then bytes else []))
      × All (λ (e : RunnerEventRecord). e.message ≢ []) es

  nil_rows : (xs : List RunnerEventRecord) → xs ≡ xs ++ []
  nil_rows [] = refl
  nil_rows (x ∷ xs) = ap (λ ys. x ∷ ys) (nil_rows xs)

  no_bytes : (goes : Bool) → ◌≡◌ {A = Bytes} [] (if goes then [] else [])
  no_bytes true = refl
  no_bytes false = refl

  cons_not_empty : (b : ℕ) (bytes : Bytes) → (b ∷ bytes) ≢ []
  cons_not_empty b bytes h = cc

  insert-Adds :
      (db : Events) (given u stage : String) (b : ℕ) (bytes : Bytes) (now : Time)
      → (es : List RunnerEventRecord) × Adds db
          (insert_event (event_row db given u stage (b ∷ bytes) now) db)
          (str_eq (sanitize_id given) (sanitize_id id) && str_eq u t)
          (b ∷ bytes)
          es
  insert-Adds db given u stage b bytes now =
      let row = event_row db given u stage (b ∷ bytes) now in
      let own = str_eq (sanitize_id given) (sanitize_id id) && str_eq u t in
      let all = select-append (of_log id t) db.rows (row ∷ []) in
      elim (Bool-cases own) [
        | inl yes_own ↦ (
          row ∷ [],
          (
            rw (all, yes_own) refl,
            rw yes_own (append-nil (b ∷ bytes)),
            (cons_not_empty b bytes, tt),
          ),
        )
        | inr f ↦ ([], (rw (all, f) refl, rw f refl, tt))
      ]

  append-Adds :
      (db : Events) (given name stage : String) (bytes : Bytes) (now : Time)
      → db.available ≡ true
      → (es : List RunnerEventRecord) × Adds db
          (append_staged_log db given name stage bytes now)
          (goes_to id t given name)
          bytes
          es
  unfolding append_staged_log
  append-Adds db given name stage [] now open_ =
      ([], (nil_rows (select (of_log id t) db.rows), no_bytes (goes_to id t given name), tt))
  append-Adds db given name stage (b ∷ bytes) now open_ =
      let rows = λ (d : Events). select (of_log id t) d.rows in
      let counted = λ (goes : Bool). if goes then b ∷ bytes else [] in
      elim (Result-cases (log_event_type name)) [
        | inl (e, h) ↦
            let same = refused db given name stage e (b ∷ bytes) now h in
            let none_goes : goes_to id t given name ≡ false = rw (h, goes_to) refl in
            (
              [],
              (
                ap rows same ∙ nil_rows (select (of_log id t) db.rows),
                ap counted (sym none_goes),
                tt,
              ),
            )
        | inr (u, h) ↦
            let same = appended db given name stage u b bytes now open_ h in
            let goes : goes_to id t given name
                ≡ (str_eq (sanitize_id given) (sanitize_id id) && str_eq u t) =
              rw (h, goes_to) refl in
            let (es, (added, said, filled)) = insert-Adds db given u stage b bytes now in
            (es, (ap rows same ∙ added, said ∙ ap counted (sym goes), filled))
      ]

  -- What the log holds after one call.
  append_one-contents :
      (db : Events) (c : Append)
      → db.available ≡ true
      → contents (append_one db c) id t
        ≡ contents db id t ++ (if goes_to id t c.id c.name then c.bytes else [])
  append_one-contents db c open_ =
      let (es, (added, said, _)) = append-Adds db c.id c.name c.stage c.bytes c.now open_ in
      ap messages added
      ∙ messages-append (select (of_log id t) db.rows) es
      ∙ ap (λ bs. contents db id t ++ bs) said

  append_one-IsFilled :
      (db : Events) (c : Append)
      → db.available ≡ true
      → IsFilled id t db
      → IsFilled id t (append_one db c)
  append_one-IsFilled db c open_ f =
      let (es, (added, _, filled)) = append-Adds db c.id c.name c.stage c.bytes c.now open_ in
      subst (All (λ (e : RunnerEventRecord). e.message ≢ [])) (sym added) (
        All-append (λ (e : RunnerEventRecord). e.message ≢ []) (select (of_log id t) db.rows) es f
          filled)

  joins :
      (goes : Bool) (before bytes rest : Bytes)
      → (before ++ (if goes then bytes else [])) ++ rest
        ≡ before ++ (if goes then bytes ++ rest else rest)
  joins true before bytes rest = append_assoc before bytes rest
  joins false before bytes rest = ap (λ bs. bs ++ rest) (append-nil before)

-- If the events are numbered upwards, the table opens, the log's name is accepted and no event of the
-- log is empty, then after any calls that append to any logs, a read of the log, bounded or not, gives
-- the bytes that the log had followed by those of the calls for that log, in the order of the calls,
-- and fails if there are none.
pub read-append_all :
    (db : Events) (calls : List Append) (id name t : String) (max : ℕ)
    → IsNumbered db
    → IsFilled id t db
    → db.available ≡ true
    → log_event_type name ≡ ok t
    → read_log (append_all db calls) id name max ≡ held max (contents db id t ++ written id t calls)
unfolding append_all
read-append_all db [] id name t max k f open_ named =
    read_joined db id name t max k open_ named
    ∙ joined-held max (select (of_log id t) db.rows) f
    ∙ ap (held max) (sym (append-nil (contents db id t)))
read-append_all db (c ∷ calls) id name t max k f open_ named =
    read-append_all (append_one db c) calls id name t max
      (append-IsNumbered db c.id c.name c.stage c.bytes c.now k)
      (append_one-IsFilled id t db c open_ f) (append_one-available db c open_) named
    ∙ ap (λ bs. held max (bs ++ written id t calls)) (append_one-contents id t db c open_)
    ∙ ap (held max)
        (joins id t (goes_to id t c.id c.name) (contents db id t) c.bytes (written id t calls))
