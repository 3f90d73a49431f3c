-- ===== src/PollLoop/Completed.antt =====
-- A round of the loop completes every message that it has claimed
-- (`runPollLoop` of `container/agent-runner/src/poll-loop.ts`).
use lfontes_nanoclaw.Prelude.{
  ◌===◌, if◌then◌else◌, Bool-cases, Option-cases, opt_eq, true≢false, ℕ, String, ◌≡◌, refl, sym,
  ◌∙◌, inl, inr, Bool, true, false, ◌||◌, Option, none, some, List, [], ◌∷◌, arith,
}
use lfontes_nanoclaw.Text.{Text}
use lfontes_nanoclaw.SessionDb.{MessageIn, InDb, Ack}
use lfontes_nanoclaw.PollLoop.{Stream, LoopEnv, RoutingContext, includes_id, is_clear}
use lfontes_nanoclaw.PollLoop.Query.{Query, open_query, process_query}
use lfontes_nanoclaw.PollLoop.Round.{
  Loop, tell, notice, forget, clear_sessions, adopt, is_stale, recover, failure_of, settle, finish,
  publish, exits, ask_agent,
}
use lfontes_nanoclaw.PollLoop.Acks.{is_done, is_done-mark_completed, is_done-acks}
use lfontes_nanoclaw.PollLoop.Kept.{acks-write_out, run-IsKept}

abbrev pub acks : Loop → List Ack
acks l = l.runner.outbound.processing_ack

module _ (env : LoopEnv) (inbound : InDb) (now : ℕ) (routing : RoutingContext) where
  acks-tell : (l : Loop) (content : String) → acks (tell env inbound now routing l content) ≡ acks l
  unfolding tell
  acks-tell l content =
      acks-write_out inbound l.runner.outbound now (notice env l.runner.outbound routing content)

  acks-if :
      (b : Bool) (x y l : Loop)
      → acks x ≡ acks l
      → acks y ≡ acks l
      → acks (if b then x else y) ≡ acks l
  acks-if true x y l h k = h
  acks-if false x y l h k = k

  pub acks-clear_sessions :
      (messages : List MessageIn) (l : Loop)
      → acks (clear_sessions env inbound now routing messages l) ≡ acks l
  unfolding clear_sessions
  acks-clear_sessions [] l = refl
  acks-clear_sessions (m ∷ messages) l =
      let l' : Loop =
        if is_clear env m
        then tell env inbound now routing (forget env l) (env.text_json "Session cleared.")
        else l in
      let h : acks l' ≡ acks l =
        acks-if (is_clear env m) _ l l (acks-tell (forget env l) (env.text_json "Session cleared."))
          refl in
      acks-if l'.died l' _ l h (acks-clear_sessions messages l' ∙ h)

  acks-adopt : (l : Loop) (c : Option String) → acks (adopt env l c) ≡ acks l
  acks-adopt l none = refl
  acks-adopt l (some c) = acks-if (c === "" || opt_eq l.continuation (some c)) l _ l refl refl

  acks-recover : (l : Loop) (e : Text) → acks (recover env inbound now routing l e) ≡ acks l
  unfolding recover
  acks-recover l e =
      acks-tell (if is_stale env l.continuation e then forget env l else l) (env.error_json e)
      ∙ acks-if (is_stale env l.continuation e) (forget env l) l l refl refl

  acks-settle :
      (stream : Stream) (q : Query) (l : Loop)
      → acks (settle env inbound now routing stream q l) ≡ q.runner.outbound.processing_ack
  unfolding settle
  acks-settle stream q l = elim (Option-cases (failure_of q stream)) [
    | inl n ↦ rw (settle, n) (acks-adopt (record l { runner = q.runner }) q.continuation)
    | inr (e, s) ↦ rw (settle, s) (acks-recover (record l { runner = q.runner }) e)
  ]

done-finish :
    (l : Loop) (now : ℕ) (processing : List String) (id : String)
    → (is_done l.runner.outbound id || includes_id processing id) ≡ true
    → (finish l now processing).died ≡ false
    → is_done (finish l now processing).runner.outbound id ≡ true
unfolding finish
done-finish l now processing id h alive = elim (Bool-cases l.died) [
  | inl d ↦ absurd (true≢false (sym (rw (finish, d) refl) ∙ alive))
  | inr d ↦
      rw (finish, d) (is_done-mark_completed l.runner.outbound now processing id ∙ ground arith)
]

or_intro : (a b c : Bool) → (a ≡ true → c ≡ true) → (a || b) ≡ true → (c || b) ≡ true
or_intro true b c f h = rw (f refl) refl
or_intro false true c f h = ground arith
or_intro false false c f h = ground arith

module _ (env : LoopEnv) (inbound : InDb) (now : ℕ) (id : String) where
  pub done-ask_agent :
      (routing : RoutingContext) (processing : List String) (keep : List MessageIn) (l : Loop)
      → (is_done l.runner.outbound id || includes_id processing id) ≡ true
      → (ask_agent env inbound now routing processing keep l).died ≡ false
      → is_done (ask_agent env inbound now routing processing keep l).runner.outbound id ≡ true
  unfolding ask_agent process_query
  done-ask_agent routing processing keep l h alive =
      let stream = env.query keep l.continuation in
      let start = publish l routing.in_reply_to in
      let q = process_query env routing processing stream.happenings start.runner in
      let after = settle env inbound now routing stream q start in
      elim (Bool-cases (exits q stream)) [
        | inl x ↦ absurd (true≢false (sym (rw (ask_agent, x) refl) ∙ alive))
        | inr x ↦
            rw (ask_agent, x)
              (done-finish after now processing id
                (or_intro (is_done l.runner.outbound id) (includes_id processing id)
                  (is_done after.runner.outbound id)
                  (λ d.
                    is_done-acks after.runner.outbound q.runner.outbound id
                      (acks-settle env inbound now routing stream q start)
                    ∙ run-IsKept env id routing processing stream.happenings
                        (open_query start.runner) d)
                  h)
                (sym (rw (ask_agent, x) refl) ∙ alive))
      ]
