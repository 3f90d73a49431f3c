-- ===== src/PollLoop/Kept.antt =====
-- Nothing that happens while a query is open takes back a completed acknowledgement
-- (`processQuery` of `container/agent-runner/src/poll-loop.ts`).
use lfontes_nanoclaw.Prelude.{
  ◌==◌, ◌===◌, if◌then◌else◌, Bool-cases, Option-cases, length, select, some_injective, ℕ, String,
  ◌≡◌, refl, sym, ap, ◌∙◌, inl, inr, Bool, true, false, ◌||◌, not, Option, none, some, List, [],
  ◌∷◌, arith,
}
use lfontes_nanoclaw.Text.{Text}
use lfontes_nanoclaw.SessionDb.{MessageIn, InDb, MessageOut, OutDb}
use lfontes_nanoclaw.Container.MessagesIn.{get_pending_messages, mark_processing, mark_completed}
use lfontes_nanoclaw.Container.MessagesOut.{
  with_seq, WriteMessageOut, write_message_out, add_out_row,
}
use lfontes_nanoclaw.PollLoop.{
  init, result, error, progress, activity, Happening, event, follow_up, PushEnd, pushes, query_over,
  format_throws, push_throws, mark_throws, FollowUpEnd, script_throws, scripts_run, failed_poll,
  Segment, scratch, block, LoopEnv, RoutingContext, apply_pre_task_scripts, ids_of, includes_id,
  is_system,
}
use lfontes_nanoclaw.PollLoop.Answer.{
  WrittenOut, write_out, message_for, send_to_destination, Dispatch, dispatch_segment,
  dispatch_segments, dispatch_result_text,
}
use lfontes_nanoclaw.PollLoop.Query.{
  Query, with_outbound, nudge_if, answer_text, push_kept, take_follow_ups, poll_follow_ups,
  count_error, take_event, after_dispatch, take_happening, run, is_corruption_error,
}
use lfontes_nanoclaw.PollLoop.Acks.{
  is_done, is_done-mark_completed, is_done-mark_processing, is_done-acks, is_done-is_acked,
  get_pending_messages-unacked, ids_of-select,
}

some_row : (b : Bool) (x y : OutDb) → (if b then none else some x) ≡ some y → x ≡ y
some_row true x y h = ground arith
some_row false x y h = some_injective x y h

acks-add_out_row :
    (db db' : OutDb) (row : MessageOut)
    → add_out_row db row ≡ some db'
    → db'.processing_ack ≡ db.processing_ack
unfolding add_out_row
acks-add_out_row db db' row e = sym (ap (λ (d : OutDb). d.processing_ack) (some_row _ _ db' e))

written_row :
    (o : Option OutDb) (db : OutDb) (seq : ℕ)
    → ((d : OutDb) → o ≡ some d → d.processing_ack ≡ db.processing_ack)
    → (elim (with_seq seq o) as (λ _. WrittenOut) [
      | none ↦ record { outbound = db; threw = true }
      | some x ↦ record { outbound = x.1; threw = false }
    ]).outbound.processing_ack
      ≡ db.processing_ack
written_row none db seq h = refl
written_row (some d) db seq h = h d refl

pub acks-write_out :
    (inbound : InDb) (db : OutDb) (now : ℕ) (message : WriteMessageOut)
    → (write_out inbound db now message).outbound.processing_ack ≡ db.processing_ack
unfolding write_out write_message_out
acks-write_out inbound db now message =
    written_row (add_out_row db _) db _ (λ d e. acks-add_out_row db d _ e)

module _ (env : LoopEnv) (inbound : InDb) (now : ℕ) (routing : RoutingContext) where
  acks-dispatch_segment :
      (d : Dispatch) (s : Segment)
      → (dispatch_segment env inbound now routing d s).written.outbound.processing_ack
        ≡ d.written.outbound.processing_ack
  unfolding dispatch_segment send_to_destination
  acks-dispatch_segment d (scratch s) = refl
  acks-dispatch_segment d (block name body) = elim (Option-cases (env.find_by_name name)) [
    | inl n ↦ rw (dispatch_segment, n) refl
    | inr (dest, s) ↦
        rw (dispatch_segment, s)
          (acks-write_out inbound d.written.outbound now
            (message_for env inbound d.written.outbound dest body routing))
  ]

  acks-dispatch_segments :
      (segments : List Segment) (d : Dispatch)
      → (dispatch_segments env inbound now routing segments d).written.outbound.processing_ack
        ≡ d.written.outbound.processing_ack
  unfolding dispatch_segments
  acks-dispatch_segments [] d = refl
  acks-dispatch_segments (s ∷ segments) d =
      let d' = dispatch_segment env inbound now routing d s in
      let h = acks-dispatch_segment d s in
      elim (Bool-cases d'.written.threw) [
        | inl t ↦ rw (dispatch_segments, t) h
        | inr t ↦ rw (dispatch_segments, t) (acks-dispatch_segments segments d' ∙ h)
      ]

  acks-dispatch_result_text :
      (db : OutDb) (text : String)
      → (dispatch_result_text env inbound db now text routing).0.outbound.processing_ack
        ≡ db.processing_ack
  unfolding dispatch_result_text
  acks-dispatch_result_text db text = acks-dispatch_segments (env.segments text) _

-- The query has a completed acknowledgement of the message.
abbrev pub IsKept : String → Query → Type 0
IsKept id q = is_done q.runner.outbound id ≡ true

completed_too :
    (db : OutDb) (now : ℕ) (ids : List String) (id : String)
    → is_done db id ≡ true
    → is_done (mark_completed db now ids) id ≡ true
completed_too db now ids id h = is_done-mark_completed db now ids id ∙ ground arith

module _ (env : LoopEnv) (id : String) where
  IsKept-if : (b : Bool) (x y : Query) → IsKept id x → IsKept id y → IsKept id (if b then x else y)
  IsKept-if true x y h k = h
  IsKept-if false x y h k = k

  count_error-IsKept : (q : Query) (msg : Text) → IsKept id q → IsKept id (count_error q msg)
  unfolding count_error
  count_error-IsKept q msg k = IsKept-if (is_corruption_error msg) _ _ k k

  push_kept-IsKept :
      (q : Query) (now : ℕ) (keep : List MessageIn) (end : PushEnd)
      → IsKept id q
      → IsKept id (push_kept env q now keep end)
  unfolding push_kept
  push_kept-IsKept q now keep pushes k = completed_too q.runner.outbound now (ids_of keep) id k
  push_kept-IsKept q now keep query_over k = k
  push_kept-IsKept q now keep (format_throws msg) k = count_error-IsKept q msg k
  push_kept-IsKept q now keep (push_throws msg) k = count_error-IsKept _ msg k
  push_kept-IsKept q now keep (mark_throws msg) k = count_error-IsKept _ msg k

  take_follow_ups-IsKept :
      (q : Query) (now : ℕ) (messages : List MessageIn) (end : FollowUpEnd)
      → IsKept id q
      → includes_id (ids_of messages) id ≡ false
      → IsKept id (take_follow_ups env q now messages end)
  unfolding take_follow_ups
  take_follow_ups-IsKept q now messages (script_throws msg) k n =
      count_error-IsKept _ msg
        (is_done-mark_processing q.runner.outbound now (ids_of messages) id n ∙ k)
  take_follow_ups-IsKept q now messages (scripts_run end) k n =
      let claimed = mark_processing q.runner.outbound now (ids_of messages) in
      let pre_task = apply_pre_task_scripts env messages in
      let done =
        completed_too claimed now pre_task.skipped id
          (is_done-mark_processing q.runner.outbound now (ids_of messages) id n ∙ k) in
      IsKept-if (length pre_task.keep == 0) _ _ done (push_kept-IsKept _ now pre_task.keep end done)

  poll_follow_ups-IsKept :
      (q : Query) (now : ℕ) (inbound : InDb) (end : FollowUpEnd)
      → IsKept id q
      → IsKept id (poll_follow_ups env q now inbound end)
  unfolding poll_follow_ups
  poll_follow_ups-IsKept q now inbound end k =
      let pending = get_pending_messages inbound q.runner.outbound env.max_messages false now in
      let messages = select (λ m. not (is_system m)) pending in
      IsKept-if _ _ _ k (
        IsKept-if (length messages == 0) _ _ k (
          take_follow_ups-IsKept q now messages end k (
            ids_of-select (λ m. not (is_system m)) pending id
              (get_pending_messages-unacked inbound q.runner.outbound env.max_messages false now id
                (is_done-is_acked q.runner.outbound id k)))))

  nudge_if-IsKept : (q : Query) (b : Bool) → IsKept id q → IsKept id (nudge_if env q b)
  nudge_if-IsKept q false k = k
  nudge_if-IsKept q true k = IsKept-if q.unwrapped_nudged _ _ k k

  after_dispatch-IsKept :
      (q : Query) (w : WrittenOut) (b : Bool)
      → is_done w.outbound id ≡ true
      → IsKept id (after_dispatch env q (w, b))
  after_dispatch-IsKept q w b k =
      IsKept-if w.threw _ _ k (nudge_if-IsKept (with_outbound q w.outbound) b k)

  answer_text-IsKept :
      (routing : RoutingContext) (q : Query) (now : ℕ) (inbound : InDb) (text : Option String)
      → IsKept id q
      → IsKept id (answer_text env routing q now inbound text)
  answer_text-IsKept routing q now inbound none k = k
  answer_text-IsKept routing q now inbound (some text) k =
      let w = dispatch_result_text env inbound q.runner.outbound now text routing in
      IsKept-if (text === "") _ _ k (
        after_dispatch-IsKept q w.0 w.1 (
          is_done-acks w.0.outbound q.runner.outbound id
            (acks-dispatch_result_text env inbound now routing q.runner.outbound text)
          ∙ k))

  take_happening-IsKept :
      (routing : RoutingContext) (batch : List String) (q : Query) (h : Happening)
      → IsKept id q
      → IsKept id (take_happening env routing batch q h)
  unfolding take_happening take_event
  take_happening-IsKept routing batch q (event now inbound (init c)) k = k
  take_happening-IsKept routing batch q (event now inbound (result text)) k =
      answer_text-IsKept routing (with_outbound q (mark_completed q.runner.outbound now batch)) now
        inbound text (completed_too q.runner.outbound now batch id k)
  take_happening-IsKept routing batch q (event now inbound error) k = k
  take_happening-IsKept routing batch q (event now inbound progress) k = k
  take_happening-IsKept routing batch q (event now inbound activity) k = k
  take_happening-IsKept routing batch q (follow_up now inbound end) k =
      IsKept-if (q.ended_for_command || q.exiting) _ _ k
        (poll_follow_ups-IsKept q now inbound end k)
  take_happening-IsKept routing batch q (failed_poll msg) k =
      IsKept-if (q.ended_for_command || q.exiting) _ _ k (count_error-IsKept q msg k)

  -- A completed acknowledgement stays completed, whatever happens while a query is open.
  pub run-IsKept :
      (routing : RoutingContext) (batch : List String) (happenings : List Happening) (q : Query)
      → IsKept id q
      → IsKept id (run env routing batch happenings q)
  unfolding run
  run-IsKept routing batch [] q k = k
  run-IsKept routing batch (h ∷ happenings) q k =
      let k' = take_happening-IsKept routing batch q h k in
      IsKept-if (take_happening env routing batch q h).threw _ _ k'
        (run-IsKept routing batch happenings _ k')
