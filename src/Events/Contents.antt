-- ===== src/Events/Contents.antt =====
-- A log reads as what was appended to it, in order.
use qiniu_ci_runner.Prelude.{
  ℕ, zero, suc, ◌+◌, ◌-◌, min, ◌<◌, ◌≤◌, String, Bool, true, false, List, [], ◌∷◌, ◌++◌, ◌≡◌, ◌≢◌,
  refl, sym, ap, subst, ◌∙◌, inl, inr, arith, Result, ok, err, not_exist, if◌then◌else◌,
  str_eq_complete, ltb, All, All-append, All-select, select-append, ◌⊎◌, Result-cases, select,
  length, Bool-cases,
}
use qiniu_ci_runner.Prelude.Sort.{IsSorted, sort-sorted}
use qiniu_ci_runner.Request.Convert.{sanitize_id}
use qiniu_ci_runner.Events.Log.{
  event_row, insert_event, Bytes, RunnerEventRecord, Events, log_event_type, append_staged_log,
  of_log, oldest, messages, drop_bytes, last_bytes, read_log,
}

-- The events are in the order of their numbers, all below the next number.
abbrev IsBelow : ℕ → RunnerEventRecord → Type 0
IsBelow n e = e.id < n

pub record IsNumbered (db : Events) : Type 0 where
  pub ordered : IsSorted oldest db.rows
  pub below : All (IsBelow db.next_id) db.rows

pub append-nil : (xs : Bytes) → xs ++ [] ≡ xs
append-nil [] = refl
append-nil (x ∷ xs) = ap (λ ys. x ∷ ys) (append-nil xs)

pub append_assoc : (xs ys zs : Bytes) → (xs ++ ys) ++ zs ≡ xs ++ (ys ++ zs)
append_assoc [] ys zs = refl
append_assoc (x ∷ xs) ys zs = ap (λ r. x ∷ r) (append_assoc xs ys zs)

pub messages-append :
    (xs ys : List RunnerEventRecord) → messages (xs ++ ys) ≡ messages xs ++ messages ys
messages-append [] ys = refl
messages-append (x ∷ xs) ys =
    ap (λ r. x.message ++ r) (messages-append xs ys)
    ∙ sym (append_assoc x.message (messages xs) (messages ys))

select-IsSorted :
    (p : RunnerEventRecord → Bool) (xs : List RunnerEventRecord)
    → IsSorted oldest xs
    → IsSorted oldest (select p xs)
select-IsSorted p [] h = tt
select-IsSorted p (x ∷ xs) h =
    elim (p x) as (λ b. IsSorted oldest (if b then x ∷ select p xs else select p xs)) [
      | true ↦ (All-select (λ y. oldest y x ≡ false) p xs h.0, select-IsSorted p xs h.1)
      | false ↦ select-IsSorted p xs h.1
    ]

last-IsSorted :
    (xs : List RunnerEventRecord) (e : RunnerEventRecord)
    → IsSorted oldest xs
    → All (IsBelow e.id) xs
    → IsSorted oldest (xs ++ e ∷ [])
last-IsSorted [] e h b = (tt, tt)
last-IsSorted (x ∷ xs) e h b = (
  All-append (λ y. oldest y x ≡ false) xs (e ∷ []) h.0 (ground (arith, b.0), tt),
  last-IsSorted xs e h.1 b.1,
)

weaken : (n : ℕ) (xs : List RunnerEventRecord) → All (IsBelow n) xs → All (IsBelow (n + 1)) xs
weaken n [] h = tt
weaken n (x ∷ xs) h = (omega (arith, h.0), weaken n xs h.1)

pub append-cases :
    (db : Events) (id name stage : String) (bytes : Bytes) (now : ℕ)
    → (append_staged_log db id name stage bytes now ≡ db)
      ⊎ ((t : String) × (log_event_type name ≡ ok t)
          × (append_staged_log db id name stage bytes now
              ≡ insert_event (event_row db id t stage bytes now) db))
unfolding append_staged_log
append-cases db id name stage [] now = inl refl
append-cases db id name stage (b ∷ bytes) now = elim (Bool-cases db.available) [
  | inr f ↦ inl (simp f)
  | inl open_ ↦ elim (Result-cases (log_event_type name)) [
    | inl (e, h) ↦ inl (simp (open_, h))
    | inr (t, h) ↦ inr (t, h, simp (open_, h))
  ]
]

insert-IsNumbered :
    (db : Events) (e : RunnerEventRecord)
    → e.id ≡ db.next_id
    → IsNumbered db
    → IsNumbered (insert_event e db)
insert-IsNumbered db e q k = record {
  ordered =
      last-IsSorted db.rows e k.ordered (subst (λ n. All (IsBelow n) db.rows) (sym q) k.below);
  below =
      All-append (IsBelow (db.next_id + 1)) db.rows (e ∷ []) (weaken db.next_id db.rows k.below)
        (omega (arith, q), tt);
}

-- Events that are numbered upwards, below the next number, stay so when a log is appended to.
pub append-IsNumbered :
    (db : Events) (id name stage : String) (bytes : Bytes) (now : ℕ)
    → IsNumbered db
    → IsNumbered (append_staged_log db id name stage bytes now)
append-IsNumbered db id name stage bytes now k = elim (append-cases db id name stage bytes now) [
  | inl e ↦ subst IsNumbered (sym e) k
  | inr (t, _, e) ↦
      subst IsNumbered (sym e) (insert-IsNumbered db (event_row db id t stage bytes now) refl k)
]

-- The messages of a log, in the order of the table.
abbrev pub contents : Events → String → String → Bytes
contents db id event_type = messages (select (of_log id event_type) db.rows)

-- What `ReadLog` makes of the events that it found.
abbrev pub joined : ℕ → List RunnerEventRecord → Result Bytes
joined max [] = err not_exist
joined max (e ∷ es) = ok (last_bytes max (messages (e ∷ es)))

joined_all :
    (max : ℕ) (es : List RunnerEventRecord)
    → es ≢ []
    → joined max es ≡ ok (last_bytes max (messages es))
joined_all max [] h = absurd (h refl)
joined_all max (e ∷ es) h = refl

joined_elim :
    (max : ℕ) (es : List RunnerEventRecord)
    → (elim es [ [] ↦ err not_exist | e ∷ rest ↦ ok (last_bytes max (messages (e ∷ rest))) ])
      ≡ joined max es
joined_elim max [] = refl
joined_elim max (e ∷ es) = refl

pub read_joined :
    (db : Events) (id name t : String) (max : ℕ)
    → IsNumbered db
    → db.available ≡ true
    → log_event_type name ≡ ok t
    → read_log db id name max ≡ joined max (select (of_log id t) db.rows)
unfolding read_log
read_joined db id name t max k open_ named =
    let same =
      sort-sorted oldest (select (of_log id t) db.rows)
        (select-IsSorted (of_log id t) db.rows k.ordered) in
    rw (open_, named, same) (joined_elim max (select (of_log id t) db.rows))

pub appended :
    (db : Events) (id name stage t : String) (b : ℕ) (bytes : Bytes) (now : ℕ)
    → db.available ≡ true
    → log_event_type name ≡ ok t
    → append_staged_log db id name stage (b ∷ bytes) now
      ≡ insert_event (event_row db id t stage (b ∷ bytes) now) db
unfolding append_staged_log
appended db id name stage t b bytes now open_ named = simp (open_, named)

end_not_empty : (es : List RunnerEventRecord) (e : RunnerEventRecord) → (es ++ e ∷ []) ≢ []
end_not_empty [] e h = cc
end_not_empty (x ∷ es) e h = cc

last_all : (bytes : Bytes) → last_bytes 0 bytes ≡ bytes
unfolding last_bytes
last_all bytes = refl

-- If the events are numbered upwards and the table opens, then what is appended to a log by a name that
-- it accepts is read at the end of all that the log had.
pub read-append :
    (db : Events) (id name stage t : String) (b : ℕ) (bytes : Bytes) (now : ℕ)
    → IsNumbered db
    → db.available ≡ true
    → log_event_type name ≡ ok t
    → read_log (append_staged_log db id name stage (b ∷ bytes) now) id name 0
      ≡ ok (contents db id t ++ b ∷ bytes)
read-append db id name stage t b bytes now k open_ named =
    let row = event_row db id t stage (b ∷ bytes) now in
    let own : of_log id t row ≡ true =
      ground
        (arith, str_eq_complete (sanitize_id id) (sanitize_id id) refl, str_eq_complete t t refl) in
    let found : select (of_log id t) (db.rows ++ row ∷ [])
        ≡ select (of_log id t) db.rows ++ row ∷ [] =
      rw (select-append (of_log id t) db.rows (row ∷ []), own) refl in
    let read =
      read_joined (insert_event row db) id name t 0 (insert-IsNumbered db row refl k) open_ named in
    rw (appended db id name stage t b bytes now open_ named) (
      read
      ∙ ap (joined 0) found
      ∙ joined_all 0 _ (end_not_empty (select (of_log id t) db.rows) row)
      ∙ ap ok (
          last_all _
          ∙ messages-append (select (of_log id t) db.rows) (row ∷ [])
          ∙ ap (λ r. contents db id t ++ r) (append-nil (b ∷ bytes))))

drop-suffix :
    (n : ℕ) (bytes : Bytes)
    → n ≤ length bytes
    → (before : Bytes) × (before ++ drop_bytes n bytes ≡ bytes)
      × (length (drop_bytes n bytes) + n ≡ length bytes)
drop-suffix zero bytes h = ([], refl, omega arith)
drop-suffix (suc n) [] h = absurd (omega (arith, h))
drop-suffix (suc n) (b ∷ bytes) h =
    let (before, e, l) = drop-suffix n bytes (omega (arith, h)) in
    (b ∷ before, ap (λ r. b ∷ r) e, omega (arith, l))

-- If the events are numbered upwards, the table opens, the log's name is accepted and the log has an
-- event, then a bounded read gives an end of all that the log has: all of it when it fits the bound,
-- and exactly as many bytes as the bound otherwise.
pub read-suffix :
    (db : Events) (id name t : String) (max : ℕ)
    → IsNumbered db
    → db.available ≡ true
    → log_event_type name ≡ ok t
    → select (of_log id t) db.rows ≢ []
    → 0 < max
    → (before : Bytes) × (tail : Bytes) × (read_log db id name max ≡ ok tail)
      × (before ++ tail ≡ contents db id t)
      × (length tail ≡ min max (length (contents db id t)))
unfolding last_bytes
read-suffix db id name t max k open_ named some_event positive =
    let read =
      read_joined db id name t max k open_ named
      ∙ joined_all max (select (of_log id t) db.rows) some_event in
    let whole = contents db id t in
    elim (Bool-cases (ltb max (length whole))) [
      | inl t1 ↦
          let (before, e, l) = drop-suffix (length whole - max) whole (omega arith) in
          (
            before,
            drop_bytes (length whole - max) whole,
            ground (arith, read, t1, positive),
            e,
            ground (arith, l, t1),
          )
      | inr f ↦ ([], whole, ground (arith, read, f), refl, ground (arith, f))
    ]
