-- ===== src/Scheduling/Recurrence.antt =====
-- The recurrence sweep (`src/modules/scheduling/recurrence.ts`).
use lfontes_nanoclaw.Prelude.{
  ◌===◌, ===_refl, Option-cases, is_some, or_else, length, any, All, All-imp, All-and,
  length-append, In-All, any-In, select, update, delete, All-delete, delete_fails, select-append,
  any-append, any-update, length-update, ℕ, ◌+◌, ◌*◌, String, ◌≡◌, refl, ap, ◌∙◌, inl, inr, true,
  false, ◌||◌, Option, none, some, List, [], ◌∷◌, ◌++◌, arith,
}
use mathlib.Core.List.{append-nil}
use lfontes_nanoclaw.SessionDb.{pending, MessageIn, InDb, datetime, next_even_seq}
use lfontes_nanoclaw.SessionDb.Rows.{has_id, add_row_lem}
use lfontes_nanoclaw.Scheduling.{
  is_recurring_done, get_completed_recurring, insert_recurrence, clear_recurrence, Cron, recur,
  recur_all, handle_recurrence,
}

-- The row that `insertRecurrence` adds.
abbrev pub clone : InDb → ℕ → MessageIn → String → Option ℕ → MessageIn
clone db now msg new_id next_run = record {
  id = new_id;
  seq = next_even_seq db;
  kind = msg.kind;
  timestamp = datetime now * 1000;
  status = pending;
  process_after = next_run;
  recurrence = msg.recurrence;
  series_id = msg.series_id;
  tries = 0;
  trigger = true;
  platform_id = msg.platform_id;
  channel_type = msg.channel_type;
  thread_id = msg.thread_id;
  content = msg.content;
  source_session_id = none;
  on_wake = false;
}

select_clear :
    (id : String) (rows : List MessageIn)
    → select is_recurring_done
        (update (λ m. m.id === id) (λ m. record m { recurrence = none }) rows)
      ≡ delete (λ m. m.id === id) (select is_recurring_done rows)
unfolding select update delete
select_clear id [] = refl
select_clear id (m ∷ rows) = ground (arith, select_clear id rows)

-- The rounds of the loop in which the cron expression parses and the new id is free.
abbrev pub CanClone : Cron → InDb → MessageIn → Type 0
CanClone cron db m =
    (is_some (cron.next (or_else m.recurrence "")) ≡ true) × (has_id db (cron.new_id m) ≡ false)

recur_lem :
    (cron : Cron) (now : ℕ) (db : InDb) (m : MessageIn)
    → CanClone cron db m
    → recur cron now db m
      ≡ clear_recurrence
          (record db {
            messages_in =
                db.messages_in
                ++ clone db now m (cron.new_id m) (cron.next (or_else m.recurrence "")) ∷ [];
          })
          m.id
unfolding recur insert_recurrence
recur_lem cron now db m (parses, free) = elim (Option-cases (cron.next (or_else m.recurrence ""))) [
  | inl e ↦ ground arith
  | inr (t, e) ↦ rw (e, recur, add_row_lem db (clone db now m (cron.new_id m) (some t)) refl, free)
]

-- One round takes the row, and what shares its id, off the list of completed recurring rows.
recur-done :
    (cron : Cron) (now : ℕ) (db : InDb) (m : MessageIn)
    → CanClone cron db m
    → get_completed_recurring (recur cron now db m)
      ≡ delete (λ x. x.id === m.id) (get_completed_recurring db)
unfolding get_completed_recurring clear_recurrence select
recur-done cron now db m c = rw (recur_lem cron now db m c) (
    select_clear m.id _
    ∙ ap (delete (λ x. x.id === m.id))
        (select-append is_recurring_done db.messages_in _ ∙ append-nil _))

recur-has_id :
    (cron : Cron) (now : ℕ) (db : InDb) (m : MessageIn) (id : String)
    → CanClone cron db m
    → has_id (recur cron now db m) id ≡ (has_id db id || (cron.new_id m === id || false))
unfolding clear_recurrence
recur-has_id cron now db m id c = rw (recur_lem cron now db m c) (
    any-update (λ x. x.id === id) _ _ _ (λ x. refl)
    ∙ any-append (λ x. x.id === id) db.messages_in _)

recur-length :
    (cron : Cron) (now : ℕ) (db : InDb) (m : MessageIn)
    → CanClone cron db m
    → length (recur cron now db m).messages_in ≡ length db.messages_in + 1
unfolding clear_recurrence
recur-length cron now db m c =
    rw (recur_lem cron now db m c) (length-update _ _ _ ∙ length-append db.messages_in _)

-- Every round of the loop can clone: the expressions parse, and the new ids are free and differ.
abbrev pub CanCloneAll : Cron → InDb → List MessageIn → Type 0
CanCloneAll cron db [] = Unit
CanCloneAll cron db (m ∷ ms) =
    CanClone cron db m
    × All (λ x. (cron.new_id m === cron.new_id x) ≡ false) ms
    × CanCloneAll cron db ms

recur-CanCloneAll :
    (cron : Cron) (now : ℕ) (db : InDb) (m : MessageIn) (ms : List MessageIn)
    → CanClone cron db m
    → All (λ x. (cron.new_id m === cron.new_id x) ≡ false) ms
    → CanCloneAll cron db ms
    → CanCloneAll cron (recur cron now db m) ms
recur-CanCloneAll cron now db m [] c d k = tt
recur-CanCloneAll cron now db m (x ∷ ms) c d k = (
  (k.0.0, rw (recur-has_id cron now db m (cron.new_id x) c, k.0.1, d.0)),
  k.1,
  recur-CanCloneAll cron now db m ms c d.1 k.2,
)

delete_each : List MessageIn → List MessageIn → List MessageIn
delete_each [] xs = xs
delete_each (m ∷ ms) xs = delete_each ms (delete (λ x. x.id === m.id) xs)

delete_each-nil :
    (ms xs : List MessageIn)
    → All (λ x. any (λ m. x.id === m.id) ms ≡ true) xs
    → delete_each ms xs ≡ []
unfolding delete_each
delete_each-nil [] [] h = refl
delete_each-nil [] (x ∷ xs) h = cc (h.0)
delete_each-nil (m ∷ ms) xs h = delete_each-nil ms (delete (λ x. x.id === m.id) xs) (
    All-imp _ _ _ (λ x k. ground arith)
      (All-and _ _ _ (All-delete _ (λ x. x.id === m.id) xs h)
        (delete_fails (λ x. x.id === m.id) xs)))

recur_all-done :
    (cron : Cron) (now : ℕ) (ms : List MessageIn) (db : InDb)
    → CanCloneAll cron db ms
    → get_completed_recurring (recur_all cron now ms db)
      ≡ delete_each ms (get_completed_recurring db)
unfolding recur_all delete_each
recur_all-done cron now [] db c = refl
recur_all-done cron now (m ∷ ms) db c =
    recur_all-done cron now ms (recur cron now db m)
      (recur-CanCloneAll cron now db m ms c.0 c.1 c.2)
    ∙ ap (delete_each ms) (recur-done cron now db m c.0)

recur_all-length :
    (cron : Cron) (now : ℕ) (ms : List MessageIn) (db : InDb)
    → CanCloneAll cron db ms
    → length (recur_all cron now ms db).messages_in ≡ length db.messages_in + length ms
unfolding recur_all
recur_all-length cron now [] db c = omega arith
recur_all-length cron now (m ∷ ms) db c = omega (
  arith,
  recur_all-length cron now ms (recur cron now db m)
      (recur-CanCloneAll cron now db m ms c.0 c.1 c.2),
  recur-length cron now db m c.0,
)

listed-any : (xs : List MessageIn) → All (λ x. any (λ m. x.id === m.id) xs ≡ true) xs
listed-any xs = In-All _ xs (λ a m. any-In (λ y. a.id === y.id) xs a m (===_refl a.id))

-- If every expression parses and the new ids are free and differ, the sweep adds one row for each
-- completed recurring one and leaves none of those behind, so that a second sweep changes nothing.
pub handle_recurrence_drains :
    (cron : Cron) (now later : ℕ) (db : InDb)
    → CanCloneAll cron db (get_completed_recurring db)
    → let swept = handle_recurrence cron now db in
      (length swept.messages_in ≡ length db.messages_in + length (get_completed_recurring db))
      × (get_completed_recurring swept ≡ [])
      × (handle_recurrence cron later swept ≡ swept)
unfolding handle_recurrence
handle_recurrence_drains cron now later db c =
    let drained =
      recur_all-done cron now (get_completed_recurring db) db c
      ∙ delete_each-nil (get_completed_recurring db) (get_completed_recurring db)
          (listed-any (get_completed_recurring db)) in
    (
      recur_all-length cron now (get_completed_recurring db) db c,
      drained,
      (unfold recur_all in rw drained),
    )
