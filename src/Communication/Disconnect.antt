-- ===== src/Communication/Disconnect.antt =====
-- What src/CommunicationExecutor.c leaves when the agent has gone.
use motoros.Prelude.{
  ℕ, zero, suc, ◌≤◌, ◌≡◌, refl, ap, ◌∙◌, Bool, true, false, ◌&&◌, Option, some, ◌⊎◌, inl, inr,
  Bool-cases, arith, if◌then◌else◌,
}
use motoros.Platform.{Platform, State, Environment}
use motoros.Controller.Cleared.{IsCleared}
use motoros.Motion.Stop.{stop_motion}
use motoros.Motion.Stopped.{stop_motion-IsCleared, waited}
use motoros.Communication.{moves, is_ros_controlling_motion, wait_still, agent_gone}

module _ (p : Platform) (env : Environment p) where
  -- The state after a number of sleeps of a second
  abbrev pub later : ℕ → State p → State p
  later zero s = s
  later (suc k) s = later k (env 1000 s)

  abbrev pub Still : State p → Option (State p) → Type 0
  Still s o = (k : ℕ) × (o ≡ some (later k s)) × (moves p (later k s) ≡ false)

  wait_still-Still :
      (k n : ℕ) (s : State p) → k ≤ n → moves p (later k s) ≡ false → Still s (wait_still p env n s)
  unfolding wait_still
  wait_still-Still zero zero s h still = rw still (0, refl, still)
  wait_still-Still zero (suc n) s h still = rw still (0, refl, still)
  wait_still-Still (suc k) zero s h still = absurd (omega arith)
  wait_still-Still (suc k) (suc n) s h still = elim (Bool-cases (moves p s)) [
    | inl on ↦
        let (j, e, rest) = wait_still-Still k n (env 1000 s) (omega arith) still in
        rw on (suc j, e, rest)
    | inr off ↦ rw off (0, refl, off)
  ]

  -- Nothing was to be done.
  abbrev pub WasStill : State p → State p → Type 0
  WasStill s q = (moves p s ≡ false) × (q ≡ s)

  -- The program was moving the robot and stopped it: every queue that could be locked is empty.
  abbrev pub WasStopped : State p → State p → Type 0
  WasStopped s q =
      (is_ros_controlling_motion p s ≡ true)
      × IsCleared p (waited p env s).1.world q.ctl.groups
      × (q.ctl.stop_motion ≡ false)

  -- Only time has passed, until the robot was still.
  abbrev pub WaitedFor : State p → State p → Type 0
  WaitedFor s q = (moves p q ≡ false) × (j : ℕ) × (q ≡ later j s)

  agent_gone-moving :
      (stop : Bool) (k n : ℕ) (s : State p)
      → k ≤ n
      → moves p (later k s) ≡ false
      → (q : State p) × ((if is_ros_controlling_motion p s && stop
            then some (stop_motion p env true s).1
            else wait_still p env n s)
          ≡ some q)
        × (((stop ≡ true) × WasStopped s q)
            ⊎ (((is_ros_controlling_motion p s && stop) ≡ false) × WaitedFor s q))
  agent_gone-moving stop k n s h still =
      let (j, e, rest) = wait_still-Still k n s h still in
      elim (Bool-cases (is_ros_controlling_motion p s)) [
        | inl ours ↦ elim (Bool-cases stop) [
          | inl on ↦
              let (cleared, lowered, _, _) = stop_motion-IsCleared p env true s in
              rw ours (rw on (_, refl, inl (refl, (refl, cleared, lowered))))
          | inr off ↦ rw ours (rw off (later j s, e, inr (refl, (rest, j, refl))))
        ]
        | inr theirs ↦ rw theirs (later j s, e, inr (refl, (rest, j, refl)))
      ]

  -- When the agent has gone, and the robot would be still after some seconds by itself, for which
  -- the wait has enough turns, the program ends in one of three states: the robot was still and
  -- nothing changes; or stopping is configured and the program was controlling motion, then motion
  -- was stopped, and every queue that could be locked is empty; or one of the two does not hold,
  -- and only time has passed, until the robot was still.
  pub agent_gone-cases :
      (stop : Bool) (k n : ℕ) (s : State p)
      → k ≤ n
      → moves p (later k s) ≡ false
      → (q : State p) × (agent_gone p env stop n s ≡ some q)
        × (WasStill s q
            ⊎ (((stop ≡ true) × WasStopped s q)
                ⊎ (((is_ros_controlling_motion p s && stop) ≡ false) × WaitedFor s q)))
  unfolding agent_gone
  agent_gone-cases stop k n s h still =
      let by : Bool → Option (State p) = λ b.
        if b
        then (if is_ros_controlling_motion p s && stop
            then some (stop_motion p env true s).1
            else wait_still p env n s)
        else some s in
      elim (Bool-cases (moves p s)) [
        | inl on ↦
            let (q, e, result) = agent_gone-moving stop k n s h still in
            (q, ap by on ∙ e, inr result)
        | inr off ↦ (s, ap by off, inl (off, refl))
      ]
