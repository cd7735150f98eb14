-- ===== src/ActionServer/Protocol.antt =====
-- The handlers of src/ActionServer_FJT.c as steps, in any order and with any state of the robot at
-- each step, and the phases that the server goes through. The executor hands it a goal only while
-- none is pending, since it is set up for a single goal handle, and cancels only a pending one.
use motoros.Prelude.{ℕ, ◌+◌, ◌≡◌, Bool, true, false, Option, none, some, List, if◌then◌else◌}
use motoros.MotoPlus.{GroupMove}
use motoros.Data.{CtrlGroup}
use motoros.Platform.{Platform, World, State, Environment}
use motoros.ActionServer.{Goal, GoalState, Server}
use motoros.ActionServer.Handlers.{
  Client, goal_received, goal_cancel, process_feedback, update_progress_tracker, process_result,
}

-- What a client of the action sees of the server.
pub data Phase : Type 0 where
  idle : Phase
  running judged refused : Goal → Phase

-- The number of goals that wait for their result
abbrev pub waiting : Phase → ℕ
waiting idle = 0
waiting _ = 1

abbrev pub InPhase : Phase → Server → Type 0
InPhase idle v = (v.active ≡ none) × (v.rejected ≡ none) × (v.message_ready ≡ false)
InPhase (running g) v = (v.active ≡ some g) × (v.rejected ≡ none) × (v.message_ready ≡ false)
InPhase (judged g) v =
    (v.active ≡ some g)
    × (v.rejected ≡ none)
    × (v.message_ready ≡ true)
    × (v.goal_state ≡ v.response.status)
InPhase (refused g) v = (v.active ≡ none) × (v.rejected ≡ some g) × (v.message_ready ≡ true)

-- The server with the number of goals that it was given and of results that it has sent.
pub record Session : Type 0 where
  pub server : Server
  pub received : ℕ
  pub answered : ℕ

-- The last lines of Ros_ActionServer_FJT_Initialize that set the state.
abbrev pub initialize : Server → Server
initialize v = record v { active = none; rejected = none; message_ready = false }

module _ (p : Platform) (client : Client (World p)) (env : Environment p) where
  -- Whether ProcessResult sends a result that arrives.
  abbrev pub is_sent : Option Goal → Option Goal → Server → World p → Bool
  is_sent (some g) r v w = (client.send_result w g v.goal_state v.response).0
  is_sent none (some g) v w = (client.send_result w g GoalState.aborted v.response).0
  is_sent none none v w = false

  abbrev pub results_sent : Server → State p → ℕ
  results_sent v s =
      if v.message_ready then (if is_sent v.active v.rejected v s.world then 1 else 0) else 0

  -- A session goes on by one call of a handler; `s` is the robot at that time.
  pub data Step (x : Session) : Session → Type 0 where
    receive :
        (g : Goal) (s : State p)
        → x.server.active ≡ none
        → x.server.rejected ≡ none
        → Step x (record x {
          server = (goal_received p client env g (x.server, s)).0;
          received = x.received + 1;
        })
    cancels_active :
        (g : Goal) (s : State p)
        → x.server.active ≡ some g
        → Step x (record x { server = (goal_cancel p client env (x.server, s)).0 })
    cancels_refused :
        (g : Goal) (s : State p)
        → x.server.rejected ≡ some g
        → Step x (record x { server = (goal_cancel p client env (x.server, s)).0 })
    feeds_back :
        (s : State p)
        → Step x (record x { server = (process_feedback p client env (x.server, s)).0 })
    tracks :
        (gs : List CtrlGroup) (ms : List GroupMove)
        → Step x (record x { server = update_progress_tracker p client gs ms x.server })
    sends :
        (s : State p)
        → Step x (record x {
          server = (process_result p client (x.server, s)).0;
          answered = x.answered + results_sent x.server s;
        })

  pub data Reachable : Session → Type 0 where
    begins : (v : Server) → Reachable (record { server = initialize v; received = 0; answered = 0 })
    then_step : (x y : Session) → Reachable x → Step x y → Reachable y

  pub record IsOrderly (x : Session) : Type 0 where
    pub phase : Phase
    pub in_phase : InPhase phase x.server
    pub counted : x.received ≡ x.answered + waiting phase
