-- ===== src/Request/Pages.antt =====
-- The pages of `ListStatesCursor`: the rows that they have, and their order.
use qiniu_ci_runner.Prelude.{
  ◌<◌, String, Bool, true, false, List, [], ◌∷◌, Option, none, some, ◌≡◌, ◌⊎◌, str_eq, All,
}
use qiniu_ci_runner.Prelude.Table
use qiniu_ci_runner.Request.Record.{RunnerRequestRecord}
use qiniu_ci_runner.Request.Listing.{RunnerRequestCursor}
use qiniu_ci_runner.Request.Paging.{cursor_of}

-- The reference: a row comes behind a place in the list if it was queued earlier, or at the same time
-- with a later id.
abbrev pub IsBehind : (String → String → Bool) → RunnerRequestCursor → RunnerRequestRecord → Type 0
IsBehind by_id c r =
    (r.queued_at < c.queued_at) ⊎ ((r.queued_at ≡ c.queued_at) × (by_id c.id r.id ≡ true))

abbrev pub Follows :
    (String → String → Bool) → Option RunnerRequestCursor → RunnerRequestRecord → Type 0
Follows by_id none r = Unit {0}
Follows by_id (some c) r = IsBehind by_id c r

-- Each row comes behind all the rows before it, so that none comes twice.
abbrev pub IsFalling : (String → String → Bool) → List RunnerRequestRecord → Type 0
IsFalling by_id [] = Unit {0}
IsFalling by_id (x ∷ xs) = All (IsBehind by_id (cursor_of x)) xs × IsFalling by_id xs

id_of : RunnerRequestRecord → String
id_of r = r.id

abbrev Other : RunnerRequestRecord → RunnerRequestRecord → Type 0
Other x y = str_eq y.id x.id ≡ false
