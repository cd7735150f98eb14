-- ===== src/ActionServer/Orderly.antt =====
-- The handlers of src/ActionServer_FJT.c keep the server in one of its phases.
use motoros.Prelude.{
  ℕ, ◌+◌, ◌≡◌, ◌≢◌, refl, sym, Bool, true, false, not, ◌&&◌, Option, none, some, List, ◌⊎◌, inl,
  inr, arith, Bool-cases, if◌then◌else◌,
}
use mathlib.Core.Path.{subst}
use motoros.MotoPlus.{GroupMove}
use motoros.Data.{CtrlGroup}
use motoros.Platform.{Platform, World, State, Environment}
use motoros.Controller.{is_any_fault_active, is_in_motion, truthy}
use motoros.Motion.Stop.{has_data_to_process}
use motoros.ActionServer.{Goal, GoalState, Server, Response}
use motoros.ActionServer.Judged.{goal_complete, finish}
use motoros.ActionServer.Handlers.{
  Client, goal_received, goal_cancel, check_progress, feedback_of_active, process_feedback,
  update_progress_tracker, process_result, send_pending, settle_goal, Refusal, track, measured,
  after_sending, without_text,
}
use motoros.ActionServer.Protocol.{
  Phase, idle, running, judged, refused, waiting, InPhase, Session, is_sent, results_sent, Step,
  receive, cancels_active, cancels_refused, feeds_back, tracks, sends, Reachable, begins, then_step,
  IsOrderly,
}

module _ (p : Platform) (client : Client (World p)) (env : Environment p) where
  settled :
      (g : Goal) (o : Option Refusal) (w : World p) (v : Server)
      → InPhase idle v
      → (InPhase (running g) (settle_goal p client g o w v))
        ⊎ (InPhase (refused g) (settle_goal p client g o w v))
  settled g none w v h = inl (refl, h.1, h.2)
  settled g (some r) w v h = inr (h.0, refl, refl)

  receive-IsOrderly :
      (x : Session) (g : Goal) (s : State p)
      → InPhase idle x.server
      → x.received ≡ x.answered
      → IsOrderly p client env (record x {
        server = (goal_received p client env g (x.server, s)).0;
        received = x.received + 1;
      })
  unfolding goal_received
  receive-IsOrderly x g s h e = elim (settled g _ _ x.server h) [
    | inl run ↦ record { phase = running g; in_phase = run; counted = omega arith }
    | inr back ↦ record { phase = refused g; in_phase = back; counted = omega arith }
  ]

  -- A phase in which as many results are awaited
  abbrev Stays : Phase → Server → Type 0
  Stays ph v = (ph' : Phase) × InPhase ph' v × (waiting ph' ≡ waiting ph)

  finish-Stays :
      (r : Response) (ph : Phase) (v : Server)
      → InPhase ph v
      → (v.active ≢ none) ⊎ (v.rejected ≢ none)
      → Stays ph (finish p.fpu client.default_tolerance client.codes r v)
  finish-Stays r idle v h (inl some_active) = absurd (some_active h.0)
  finish-Stays r idle v h (inr some_rejected) = absurd (some_rejected h.1)
  finish-Stays r (running g) v h w = (judged g, (h.0, h.1, refl, refl), refl)
  finish-Stays r (judged g) v h w = (judged g, (h.0, h.1, refl, refl), refl)
  finish-Stays r (refused g) v h w = (refused g, (h.0, h.1, refl), refl)

  cancel-Stays :
      (ph : Phase) (v : Server) (s : State p)
      → InPhase ph v
      → (v.active ≢ none) ⊎ (v.rejected ≢ none)
      → Stays ph (goal_cancel p client env (v, s)).0
  unfolding goal_cancel goal_complete
  cancel-Stays ph v s h w = finish-Stays _ ph v h w

  progress-Stays :
      (g : Goal) (v : Server) (s : State p)
      → InPhase (running g) v
      → Stays (running g) (check_progress p client env (v, s)).0
  unfolding check_progress goal_complete
  progress-Stays g v s h =
      let pending : (v.active ≢ none) ⊎ (v.rejected ≢ none) = inl (λ e. cc) in
      elim (Bool-cases (is_any_fault_active s.ctl)) [
        | inl fault ↦ rw fault (finish-Stays _ (running g) v h pending)
        | inr fine ↦
            elim (Bool-cases (
              not (has_data_to_process s.ctl.groups)
              && not (truthy (is_in_motion p s.ctl s.world)))) [
                | inl ended ↦ rw (fine, ended) (finish-Stays _ (running g) v h pending)
                | inr moving ↦ rw (fine, moving) (running g, h, refl)
              ]
      ]

  abbrev told : Goal → Server → State p → Server × State p
  told g v s =
      let f = measured p client s.world v.feedback in
      check_progress p client env
        (record v { feedback = f }, record s { world = client.publish_feedback s.world g f })

  feedback_of-Stays :
      (o : Option Goal) (ph : Phase) (v : Server) (s : State p)
      → v.active ≡ o
      → InPhase ph v
      → Stays ph (feedback_of_active p client env o (v, s)).0
  unfolding feedback_of_active
  feedback_of-Stays none ph v s e h = (ph, h, refl)
  feedback_of-Stays (some g) idle v s e h = absurd (cc (h.0, e))
  feedback_of-Stays (some g) (refused g') v s e h = absurd (cc (h.0, e))
  feedback_of-Stays (some g) (judged g') v s e h =
      subst (λ (b : Bool). Stays (judged g') (if b then (v, s) else told g v s).0) (sym h.2)
        (judged g', h, refl)
  feedback_of-Stays (some g) (running g') v s e h =
      subst (λ (b : Bool). Stays (running g') (if b then (v, s) else told g v s).0) (sym h.2)
        (progress-Stays g' _ _ h)

  feedback-Stays :
      (ph : Phase) (v : Server) (s : State p)
      → InPhase ph v
      → Stays ph (process_feedback p client env (v, s)).0
  unfolding process_feedback
  feedback-Stays ph v s h = feedback_of-Stays v.active ph v s refl h

  track-InPhase :
      (o : Option Goal) (gs : List CtrlGroup) (ms : List GroupMove) (ph : Phase) (v : Server)
      → InPhase ph v
      → InPhase ph (track p client o gs ms v)
  track-InPhase none gs ms ph v h = h
  track-InPhase (some g) gs ms idle v h = h
  track-InPhase (some g) gs ms (running g') v h = h
  track-InPhase (some g) gs ms (judged g') v h = h
  track-InPhase (some g) gs ms (refused g') v h = h

  tracked_lem :
      (gs : List CtrlGroup) (ms : List GroupMove) (ph : Phase) (v : Server)
      → InPhase ph v
      → InPhase ph (update_progress_tracker p client gs ms v)
  unfolding update_progress_tracker
  tracked_lem gs ms ph v h = track-InPhase v.active gs ms ph v h

  -- What is sent ends the wait for one result.
  abbrev Answers : Phase → ℕ → Server → Type 0
  Answers ph n v = (ph' : Phase) × InPhase ph' v × (waiting ph ≡ n + waiting ph')

  judged-Answers :
      (send : Bool × World p) (g : Goal) (v : Server) (s : State p)
      → InPhase (judged g) v
      → Answers
          (judged g)
          (if send.0 then 1 else 0)
          (after_sending p client send
            (record v {
              active = none;
              message_ready = false;
              response = without_text p client v.response;
            })
            v
            s).0
  judged-Answers (true, w) g v s h = (idle, (refl, h.1, refl), refl)
  judged-Answers (false, w) g v s h = (judged g, h, refl)

  refused-Answers :
      (send : Bool × World p) (g : Goal) (v : Server) (s : State p)
      → InPhase (refused g) v
      → Answers
          (refused g)
          (if send.0 then 1 else 0)
          (after_sending p client send
            (record v {
              rejected = none;
              message_ready = false;
              response = without_text p client v.response;
            })
            v
            s).0
  refused-Answers (true, w) g v s h = (idle, (h.0, refl, refl), refl)
  refused-Answers (false, w) g v s h = (refused g, h, refl)

  sent-Answers :
      (a r : Option Goal) (ph : Phase) (v : Server) (s : State p)
      → v.active ≡ a
      → v.rejected ≡ r
      → v.message_ready ≡ true
      → InPhase ph v
      → Answers ph
          (if is_sent p client env a r v s.world then 1 else 0)
          (send_pending p client a r v s).0
  sent-Answers (some g) r idle v s ea er m h = absurd (cc (h.0, ea))
  sent-Answers (some g) r (running g') v s ea er m h = absurd (cc (h.2, m))
  sent-Answers (some g) r (judged g') v s ea er m h =
      judged-Answers (client.send_result s.world g v.goal_state v.response) g' v s h
  sent-Answers (some g) r (refused g') v s ea er m h = absurd (cc (h.0, ea))
  sent-Answers none (some g) idle v s ea er m h = absurd (cc (h.1, er))
  sent-Answers none (some g) (running g') v s ea er m h = absurd (cc (h.0, ea))
  sent-Answers none (some g) (judged g') v s ea er m h = absurd (cc (h.0, ea))
  sent-Answers none (some g) (refused g') v s ea er m h =
      refused-Answers (client.send_result s.world g GoalState.aborted v.response) g' v s h
  sent-Answers none none ph v s ea er m h = (ph, h, omega arith)

  result-Answers :
      (ph : Phase) (v : Server) (s : State p)
      → InPhase ph v
      → Answers ph (results_sent p client env v s) (process_result p client (v, s)).0
  unfolding process_result
  result-Answers ph v s h = elim (Bool-cases v.message_ready) [
    | inl ready ↦
        subst
          (λ (b : Bool).
            Answers ph
              (if b
                then (if is_sent p client env v.active v.rejected v s.world then 1 else 0)
                else 0)
              (if b then send_pending p client v.active v.rejected v s else (v, s)).0)
          (sym ready) (sent-Answers v.active v.rejected ph v s refl refl ready h)
    | inr not_ready ↦
        subst
          (λ (b : Bool).
            Answers ph
              (if b
                then (if is_sent p client env v.active v.rejected v s.world then 1 else 0)
                else 0)
              (if b then send_pending p client v.active v.rejected v s else (v, s)).0)
          (sym not_ready) (ph, h, omega arith)
  ]

  free_idle :
      (ph : Phase) (v : Server)
      → InPhase ph v
      → v.active ≡ none
      → v.rejected ≡ none
      → InPhase idle v × (waiting ph ≡ 0)
  free_idle idle v h ea er = (h, refl)
  free_idle (running g) v h ea er = absurd (cc (h.0, ea))
  free_idle (judged g) v h ea er = absurd (cc (h.0, ea))
  free_idle (refused g) v h ea er = absurd (cc (h.1, er))

  Step-IsOrderly :
      (x y : Session) → IsOrderly p client env x → Step p client env x y → IsOrderly p client env y
  Step-IsOrderly x y o (receive g s ea er) =
      let (h, w) = free_idle o.phase x.server o.in_phase ea er in
      receive-IsOrderly x g s h (omega (arith, o.counted, w))
  Step-IsOrderly x y o (cancels_active g s ea) =
      let (ph, h, w) = cancel-Stays o.phase x.server s o.in_phase (inl (λ e. cc)) in
      record { phase = ph; in_phase = h; counted = omega (arith, o.counted) }
  Step-IsOrderly x y o (cancels_refused g s er) =
      let (ph, h, w) = cancel-Stays o.phase x.server s o.in_phase (inr (λ e. cc)) in
      record { phase = ph; in_phase = h; counted = omega (arith, o.counted) }
  Step-IsOrderly x y o (feeds_back s) =
      let (ph, h, w) = feedback-Stays o.phase x.server s o.in_phase in
      record { phase = ph; in_phase = h; counted = omega (arith, o.counted) }
  Step-IsOrderly x y o (tracks gs ms) = record {
    phase = o.phase;
    in_phase = tracked_lem gs ms o.phase x.server o.in_phase;
    counted = o.counted;
  }
  Step-IsOrderly x y o (sends s) =
      let (ph, h, w) = result-Answers o.phase x.server s o.in_phase in
      record { phase = ph; in_phase = h; counted = omega (arith, o.counted) }

  -- Whatever the order of the calls: the server is idle with nothing pending, runs a goal, has judged
  -- the goal it ran, with a result whose status is the goal's state, or has refused a goal, with a
  -- result; and the goals that it was given are the results that were sent and the one that a phase
  -- other than idle waits for.
  pub Reachable-IsOrderly : (x : Session) → Reachable p client env x → IsOrderly p client env x
  Reachable-IsOrderly _ (begins v) = record {
    phase = idle;
    in_phase = (refl, refl, refl);
    counted = refl;
  }
  Reachable-IsOrderly _ (then_step w y r step) = Step-IsOrderly w y (Reachable-IsOrderly w r) step
