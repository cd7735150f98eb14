-- ===== src/Trajectory/Converted.antt =====
-- What a conversion that succeeds has checked and stored
-- (Ros_MotionControl_ConvertTrajectoryToJointMotionData of src/MotionControl.c).
use motoros.Prelude.{
  ℕ, ◌+◌, ◌≤◌, ◌<◌, ◌≡◌, ◌↔◌, ◌⊎◌, inl, inr, ◌∙◌, refl, pos, pos_part, ltb_ℤ, Bool, false, ◌&&◌,
  List, [], ◌∷◌, length, arith, get_or-set_self,
}
use motoros.Data.{JointMotionData}
use motoros.Fpu.{Fpu}
use motoros.Trajectory.{Point, init_ok, to_millis, is_moving, is_last, value_at, convert}

module _ (fpu : Fpu) (whole : Bool) (axis to_axis : ℕ) where
  -- The points from the `i`-th on are stored: each has the time of its message; only the first may
  -- have the time 0 or an earlier time than the point before; the values of the joint stand where
  -- they belong; and a whole trajectory ends at rest.
  abbrev pub IsConverted : ℕ → ℕ → List Point → List JointMotionData → Type 0
  IsConverted i prev [] ds = Unit
  IsConverted i prev (pt ∷ pts) [] = Unit
  IsConverted i prev (pt ∷ pts) (d ∷ ds) =
      (to_millis fpu pt.time_from_start ≡ pos d.time)
      × ((i ≡ 0) ⊎ (0 < d.time) × (prev ≤ d.time))
      × (value_at d.pos to_axis ≡ value_at pt.positions axis)
      × (value_at d.vel to_axis ≡ value_at pt.velocities axis)
      × ((whole && is_last pts ≡ false) ⊎ (is_moving fpu (value_at pt.velocities axis) ≡ false))
      × IsConverted (i + 1) d.time pts ds

  -- The points have room for the axis.
  abbrev pub HasAxis : List JointMotionData → Type 0
  HasAxis [] = Unit
  HasAxis (d ∷ ds) = (to_axis < length d.pos) × (to_axis < length d.vel) × HasAxis ds

  -- What the code accepts of the points that have a place in the array: no time is negative; but for
  -- the first point, it is positive and not before that of the point before, which it may equal; and
  -- a whole trajectory ends with a velocity that counts as zero.
  abbrev pub IsAccepted : ℕ → ℕ → List Point → List JointMotionData → Type 0
  IsAccepted i prev [] ds = Unit
  IsAccepted i prev (pt ∷ pts) [] = Unit
  IsAccepted i prev (pt ∷ pts) (d ∷ ds) =
      (to_millis fpu pt.time_from_start ≡ pos (pos_part (to_millis fpu pt.time_from_start)))
      × ((i ≡ 0)
          ⊎ ((0 < pos_part (to_millis fpu pt.time_from_start))
              × (prev ≤ pos_part (to_millis fpu pt.time_from_start))))
      × ((whole && is_last pts ≡ false) ⊎ (is_moving fpu (value_at pt.velocities axis) ≡ false))
      × IsAccepted (i + 1) (pos_part (to_millis fpu pt.time_from_start)) pts ds

  success-IsAccepted :
      (i prev : ℕ) (pts : List Point) (ds : List JointMotionData)
      → (convert fpu whole axis to_axis i prev pts ds).0 ≡ init_ok
      → IsAccepted i prev pts ds
  unfolding convert
  success-IsAccepted i prev [] ds e = tt
  success-IsAccepted i prev (pt ∷ pts) [] e = tt
  success-IsAccepted i prev (pt ∷ pts) (d ∷ ds) e =
      let time = pos_part (to_millis fpu pt.time_from_start) in
      ground (arith, success-IsAccepted (i + 1) time pts ds)

  -- One turn of the loop
  convert-turn :
      (i prev : ℕ) (pt : Point) (pts : List Point) (d : JointMotionData) (ds : List JointMotionData)
      (time : ℕ)
      → to_millis fpu pt.time_from_start ≡ pos time
      → (i ≡ 0) ⊎ ((0 < time) × (prev ≤ time))
      → (whole && is_last pts ≡ false) ⊎ (is_moving fpu (value_at pt.velocities axis) ≡ false)
      → (convert fpu whole axis to_axis i prev (pt ∷ pts) (d ∷ ds)).0
        ≡ (convert fpu whole axis to_axis (i + 1) time pts ds).0
  unfolding convert
  convert-turn i prev pt pts d ds time e (inl first) rests = rw (e, first) (ground (arith, rests))
  convert-turn i prev pt pts d ds time e (inr (later, after)) rests =
      rw e (ground (arith, later, after, rests))

  IsAccepted-success :
      (i prev : ℕ) (pts : List Point) (ds : List JointMotionData)
      → IsAccepted i prev pts ds
      → (convert fpu whole axis to_axis i prev pts ds).0 ≡ init_ok
  unfolding convert
  IsAccepted-success i prev [] ds h = refl
  IsAccepted-success i prev (pt ∷ pts) [] h = refl
  IsAccepted-success i prev (pt ∷ pts) (d ∷ ds) (e, order, rests, h) =
      let time = pos_part (to_millis fpu pt.time_from_start) in
      convert-turn i prev pt pts d ds time e order rests ∙ IsAccepted-success (i + 1) time pts ds h

  stored-IsConverted :
      (i prev : ℕ) (pts : List Point) (ds : List JointMotionData)
      → HasAxis ds
      → (convert fpu whole axis to_axis i prev pts ds).0 ≡ init_ok
      → IsConverted i prev pts (convert fpu whole axis to_axis i prev pts ds).1
  unfolding convert
  stored-IsConverted i prev [] ds room h = tt
  stored-IsConverted i prev (pt ∷ pts) [] room h = tt
  stored-IsConverted i prev (pt ∷ pts) (d ∷ ds) room h =
      let millis = to_millis fpu pt.time_from_start in
      let time = pos_part millis in
      let placed = get_or-set_self d.pos to_axis (value_at pt.positions axis) 0 room.0 in
      let turned = get_or-set_self d.vel to_axis (value_at pt.velocities axis) 0 room.1 in
      ground (arith, placed, turned, stored-IsConverted (i + 1) time pts ds room.2)

  -- If the points of the array have room for the axis, a conversion succeeds exactly if, of the points
  -- that have a place in the array, no time is negative, the time of each but the first is positive
  -- and not before that of the point before it, which it may equal, and a whole trajectory ends with
  -- a velocity that counts as zero; and it has then stored the time of every such point, and the
  -- position and the velocity of the joint.
  pub convert-IsConverted :
      (i prev : ℕ) (pts : List Point) (ds : List JointMotionData)
      → HasAxis ds
      → ((convert fpu whole axis to_axis i prev pts ds).0 ≡ init_ok) ↔ (
          IsAccepted i prev pts ds
          × IsConverted i prev pts (convert fpu whole axis to_axis i prev pts ds).1)
  convert-IsConverted i prev pts ds room = (
    λ e. (success-IsAccepted i prev pts ds e, stored-IsConverted i prev pts ds room e),
    λ e. IsAccepted-success i prev pts ds e.0,
  )

-- A point that is added to a point queue is converted alone, as if it were the first: every time that
-- is not negative is accepted, also one before that of the point before it.
convert_one :
    (fpu : Fpu) (axis to_axis prev : ℕ) (pt : Point) (d : JointMotionData)
    → ((convert fpu false axis to_axis 0 prev (pt ∷ []) (d ∷ [])).0 ≡ init_ok)
      ↔ (ltb_ℤ (to_millis fpu pt.time_from_start) (pos 0) ≡ false)
unfolding convert
convert_one fpu axis to_axis prev pt d = (ground arith, ground arith)
