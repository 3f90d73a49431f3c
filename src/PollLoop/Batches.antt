-- ===== src/PollLoop/Batches.antt =====
-- The batches of the loop: every id of a batch is a command, skipped, or asked about, and all of them are
-- completed (`runPollLoop` of `container/agent-runner/src/poll-loop.ts`).
use lfontes_nanoclaw.Prelude.{
  ◌==◌, ◌===◌, if◌then◌else◌, ===_iff, ===_refl, Bool-cases, length, select, ℕ, String, ◌≡◌, refl,
  ap, ◌∙◌, inl, inr, Bool, true, false, ◌&&◌, ◌||◌, not, Option, none, some, List, [], ◌∷◌, arith,
}
use lfontes_nanoclaw.SessionDb.{MessageIn, InDb}
use lfontes_nanoclaw.PollLoop.{
  LoopEnv, RoutingContext, apply_script, apply_pre_task_scripts, TaskScriptOutcome, ids_of,
  includes_id, is_clear, kept, skip,
}
use lfontes_nanoclaw.PollLoop.Round.{
  Loop, command_ids, normal_messages, ids_without, complete, handle_normal,
}
use lfontes_nanoclaw.PollLoop.Acks.{is_done, is_done-mark_completed}
use lfontes_nanoclaw.PollLoop.Completed.{done-ask_agent}

-- A message is a command or not.
ids_of-partition :
    (env : LoopEnv) (messages : List MessageIn) (id : String)
    → includes_id (ids_of messages) id ≡ (
        includes_id (command_ids env messages) id
        || includes_id (ids_of (normal_messages env messages)) id)
unfolding select
ids_of-partition env [] id = refl
ids_of-partition env (m ∷ messages) id = elim (Bool-cases (is_clear env m)) [
  | inl c ↦ rw (c, ids_of-partition env messages id) (ground arith)
  | inr c ↦ rw (c, ids_of-partition env messages id) (ground arith)
]

-- The ids that an outcome has, kept or skipped.
abbrev has_id : TaskScriptOutcome → String → Bool
has_id out id = includes_id out.skipped id || includes_id (ids_of out.keep) id

has_id-kept :
    (m : MessageIn) (out : TaskScriptOutcome) (id : String)
    → has_id (kept m out) id ≡ (m.id === id || has_id out id)
has_id-kept m out id = ground arith

has_id-skip :
    (m : MessageIn) (out : TaskScriptOutcome) (id : String)
    → has_id (skip m out) id ≡ (m.id === id || has_id out id)
has_id-skip m out id = ground arith

has_id-if :
    (b : Bool) (x y : TaskScriptOutcome) (id : String) (r : Bool)
    → has_id x id ≡ r
    → has_id y id ≡ r
    → has_id (if b then x else y) id ≡ r
has_id-if true x y id r h k = h
has_id-if false x y id r h k = k

has_id-result :
    (m : MessageIn) (out : TaskScriptOutcome) (id : String) (o : Option (Bool × String))
    → has_id
        (elim o as (λ _. TaskScriptOutcome) [
          | none ↦ skip m out
          | some (wake, content) ↦
              if wake then kept (record m { content = content }) out else skip m out
        ])
        id
      ≡ (m.id === id || has_id out id)
has_id-result m out id none = has_id-skip m out id
has_id-result m out id (some (true, content)) = has_id-kept m out id
has_id-result m out id (some (false, content)) = has_id-skip m out id

has_id-script :
    (env : LoopEnv) (m : MessageIn) (out : TaskScriptOutcome) (id : String) (o : Option String)
    → has_id
        (elim o as (λ _. TaskScriptOutcome) [
          | none ↦ kept m out
          | some script ↦ if script === "" then kept m out else elim (env.script_result m) [
            | none ↦ skip m out
            | some (wake, content) ↦
                if wake then kept (record m { content = content }) out else skip m out
          ]
        ])
        id
      ≡ (m.id === id || has_id out id)
has_id-script env m out id none = has_id-kept m out id
has_id-script env m out id (some script) =
    has_id-if (script === "") (kept m out) _ id _ (has_id-kept m out id)
      (has_id-result m out id (env.script_result m))

-- A script keeps or skips its message.
has_id-apply_script :
    (env : LoopEnv) (m : MessageIn) (out : TaskScriptOutcome) (id : String)
    → has_id (apply_script env m out) id ≡ (m.id === id || has_id out id)
unfolding apply_script
has_id-apply_script env m out id =
    has_id-if (m.kind === "task") _ (kept m out) id _
      (has_id-script env m out id (env.script_of m.content)) (has_id-kept m out id)

has_id-apply_pre_task_scripts :
    (env : LoopEnv) (messages : List MessageIn) (id : String)
    → has_id (apply_pre_task_scripts env messages) id ≡ includes_id (ids_of messages) id
unfolding apply_pre_task_scripts
has_id-apply_pre_task_scripts env [] id = refl
has_id-apply_pre_task_scripts env (m ∷ messages) id =
    has_id-apply_script env m (apply_pre_task_scripts env messages) id
    ∙ ap (λ b. m.id === id || b) (has_id-apply_pre_task_scripts env messages id)

includes-if :
    (b : Bool) (i id : String) (ids : List String)
    → includes_id (if b then i ∷ ids else ids) id ≡ ((b && i === id) || includes_id ids id)
includes-if true i id ids = refl
includes-if false i id ids = refl

includes-ids_without :
    (commands skipped ids : List String) (id : String)
    → includes_id (ids_without commands skipped ids) id
      ≡ (includes_id ids id && not (includes_id commands id) && not (includes_id skipped id))
unfolding select
includes-ids_without commands skipped [] id = refl
includes-ids_without commands skipped (i ∷ ids) id =
    includes-if (not (includes_id commands i) && not (includes_id skipped i)) i id
      (ids_without commands skipped ids)
    ∙ elim (Bool-cases (i === id)) [
      | inl e ↦
          rw ((===_iff i id).0 e, ===_refl id, includes-ids_without commands skipped ids id)
            (ground arith)
      | inr e ↦ rw (e, includes-ids_without commands skipped ids id) (ground arith)
    ]

-- If the process goes on, the message is completed.
abbrev pub Completes : String → Loop → Type 0
Completes id l = l.died ≡ false → is_done l.runner.outbound id ≡ true

pub Completes-if :
    (id : String) (b : Bool) (x y : Loop)
    → (b ≡ true → Completes id x)
    → (b ≡ false → Completes id y)
    → Completes id (if b then x else y)
Completes-if id true x y h k = h refl
Completes-if id false x y h k = k refl

no_ids :
    (messages : List MessageIn) (id : String)
    → (length messages == 0) ≡ true
    → includes_id (ids_of messages) id ≡ false
no_ids [] id h = refl
no_ids (m ∷ messages) id h = ground arith

module _ (env : LoopEnv) (inbound : InDb) (now : ℕ) (id : String) where
  pub done-complete :
      (l : Loop) (ids : List String)
      → is_done (complete l now ids).runner.outbound id
        ≡ (includes_id ids id || is_done l.runner.outbound id)
  done-complete l ids = is_done-mark_completed l.runner.outbound now ids id

  pub done-handle_normal :
      (routing : RoutingContext) (messages : List MessageIn) (l : Loop)
      → (includes_id (command_ids env messages) id ≡ true → is_done l.runner.outbound id ≡ true)
      → includes_id (ids_of messages) id ≡ true
      → Completes id (handle_normal env inbound now routing messages l)
  unfolding handle_normal
  done-handle_normal routing messages l commands h =
      let normal = normal_messages env messages in
      let pre_task = apply_pre_task_scripts env normal in
      let skipped = complete l now pre_task.skipped in
      let processing = ids_without (command_ids env messages) pre_task.skipped (ids_of messages) in
      let parts = ids_of-partition env messages id in
      let scripts = has_id-apply_pre_task_scripts env normal id in
      Completes-if id (length normal == 0) _ _
        (λ n alive.
          done-complete l (ids_without (command_ids env messages) [] (ids_of messages))
          ∙ rw (includes-ids_without (command_ids env messages) [] (ids_of messages) id)
              (ground (arith, commands)))
        (λ n.
          Completes-if id (length pre_task.keep == 0) _ _
            (λ k alive.
              done-complete l pre_task.skipped
              ∙ ground (arith, commands, parts, scripts, no_ids pre_task.keep id k))
            (λ k. done-ask_agent env inbound now id routing processing pre_task.keep skipped (
              rw
                (
                  done-complete l pre_task.skipped,
                  includes-ids_without (command_ids env messages) pre_task.skipped (ids_of messages)
                      id,
                )
                (ground (arith, commands)))))
