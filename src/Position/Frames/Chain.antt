-- ===== src/Position/Frames/Chain.antt =====
-- What the transforms that src/PositionMonitor.c publishes are made of, and how far a track has moved
-- its robot.
use motoros.Prelude.{
  ℕ, zero, suc, ◌+◌, ◌≡◌, ◌≢◌, refl, ap, ◌∙◌, ℤ, pos, negsuc, Bool, true, false, not, ◌&&◌, Option,
  none, some, List, get_or, Bool-cases, inl, inr, if◌then◌else◌,
}
use motoros.Data.{
  Double, CtrlGroup, Coord, no_coord, MotionType, motion_x, motion_y, motion_z, motion_rx,
  motion_ry, motion_rz, other_motion, BaseAxisInfo,
}
use motoros.Fpu.{Fpu}
use motoros.CtrlGroup.{GroupIds, is_invalid_axis, at, to_ros_pos}
use motoros.Position.Frames.{
  Frames, Links, travel_by, travel_if, track_travel, on_track, world_to_base_of, base_to_tcp,
  tool0_to_tcp, with_base, calculate_transforms,
}

abbrev pub IsKnown : MotionType → Type 0
IsKnown t = t ≢ other_motion

-- Whether two motions are the same
abbrev pub is_along : MotionType → MotionType → Bool
is_along motion_x motion_x = true
is_along motion_y motion_y = true
is_along motion_z motion_z = true
is_along motion_rx motion_rx = true
is_along motion_ry motion_ry = true
is_along motion_rz motion_rz = true
is_along _ _ = false

-- Every configured axis of the track has a motion that is known.
abbrev pub AllKnown : CtrlGroup → BaseAxisInfo → Type 0
AllKnown track info =
    (i : ℕ) → is_invalid_axis track i ≡ false → IsKnown (get_or info.motion_type i other_motion)

module _ (fpu : Fpu) (track : CtrlGroup) (info : BaseAxisInfo) (d : List Double) where
  -- How far the axes from `i` on, `n` of them, move along `t`: as the last valid one says that moves
  -- along it, in the units of `scale`, or `x` if none does
  abbrev pub moved_along : MotionType → (Double → ℤ) → ℕ → ℕ → ℤ → ℤ
  moved_along t scale zero i x = x
  moved_along t scale (suc n) i x = moved_along t scale n (i + 1) (
      if not (is_invalid_axis track i) && is_along (get_or info.motion_type i other_motion) t
      then scale (at d i)
      else x)

  -- Micrometers, and ten thousandths of a degree
  abbrev pub micrometers : Double → ℤ
  micrometers x = fpu.to_int (fpu.mul x (fpu.of_int (pos 1000000)))

  abbrev pub ten_thousandths : Double → ℤ
  ten_thousandths x = fpu.to_int (fpu.mul (fpu.mul x fpu.degrees_per_rad) (fpu.of_int (pos 10000)))

  abbrev pub travel_from : ℕ → ℕ → Coord → Coord
  travel_from n i c = record {
    x = moved_along motion_x micrometers n i c.x;
    y = moved_along motion_y micrometers n i c.y;
    z = moved_along motion_z micrometers n i c.z;
    rx = moved_along motion_rx ten_thousandths n i c.rx;
    ry = moved_along motion_ry ten_thousandths n i c.ry;
    rz = moved_along motion_rz ten_thousandths n i c.rz;
  }

  travel_by-from :
      (t : MotionType) (x : Double) (c : Coord)
      → IsKnown t
      → travel_by fpu t x c
        ≡ some (record {
          x = (if is_along t motion_x then micrometers x else c.x);
          y = (if is_along t motion_y then micrometers x else c.y);
          z = (if is_along t motion_z then micrometers x else c.z);
          rx = (if is_along t motion_rx then ten_thousandths x else c.rx);
          ry = (if is_along t motion_ry then ten_thousandths x else c.ry);
          rz = (if is_along t motion_rz then ten_thousandths x else c.rz);
        })
  travel_by-from motion_x x c h = refl
  travel_by-from motion_y x c h = refl
  travel_by-from motion_z x c h = refl
  travel_by-from motion_rx x c h = refl
  travel_by-from motion_ry x c h = refl
  travel_by-from motion_rz x c h = refl
  travel_by-from other_motion x c h = absurd (h refl)

  travel_if-from :
      (i : ℕ) (c : Coord)
      → AllKnown track info
      → travel_if fpu
          (is_invalid_axis track i)
          (get_or info.motion_type i other_motion)
          (at d i)
          (some c)
        ≡ some (travel_from 1 i c)
  travel_if-from i c known = elim (Bool-cases (is_invalid_axis track i)) [
    | inl invalid ↦ rw invalid refl
    | inr valid ↦
        rw valid
          (travel_by-from (get_or info.motion_type i other_motion) (at d i) c (known i valid))
  ]

  track_travel-from :
      (n i : ℕ) (c : Coord)
      → AllKnown track info
      → track_travel fpu track info d n i (some c) ≡ some (travel_from n i c)
  unfolding track_travel
  track_travel-from zero i c known = refl
  track_travel-from (suc n) i c known =
      ap (track_travel fpu track info d n (i + 1)) (travel_if-from i c known)
      ∙ track_travel-from n (i + 1) (travel_from 1 i c) known

module _ (fpu : Fpu) (ids : GroupIds) (k : Frames) where
  -- The published base is the calibration, or the calibration, the travel of the track and the
  -- mounting offset one after the other.
  abbrev pub base_of : CtrlGroup → Option CtrlGroup → List ℤ → List Double → Coord
  base_of g none pulses old = g.calibration
  base_of g (some track) pulses old =
      let d = to_ros_pos fpu ids track pulses old in
      k.to_coord (
        k.mul_frame
          (k.mul_frame (k.to_frame g.calibration)
            (k.to_frame (travel_from fpu track g.base_track_info d 8 0 no_coord)))
          (k.to_frame g.base_track_info.offset))

  abbrev pub KnowsTrack : CtrlGroup → Option CtrlGroup → Type 0
  KnowsTrack g none = Unit
  KnowsTrack g (some track) = AllKnown track g.base_track_info

  world_to_base_of-base :
      (g : CtrlGroup) (track : Option CtrlGroup) (pulses : List ℤ) (old : List Double)
      → KnowsTrack g track
      → world_to_base_of fpu ids k g track pulses old ≡ some (base_of g track pulses old)
  unfolding world_to_base_of
  world_to_base_of-base g none pulses old known = refl
  world_to_base_of-base g (some track) pulses old known = ap (on_track fpu ids k g) (
      track_travel-from fpu track g.base_track_info (to_ros_pos fpu ids track pulses old) 8 0
        no_coord known)

  module _ (group_index : ℕ) (g : CtrlGroup) (track : Option CtrlGroup)
      (pulses track_pulses : List ℤ) (old : List Double) (known : KnowsTrack g track) where
    -- The flange has no offset from tool0; its x axis is the z axis of tool0, and its y axis points
    -- against the y axis of tool0.
    abbrev pub flange : k.Frame
    flange = k.make_frame (pos 0, pos 0, pos 0) (pos 0, pos 0, pos 1) (pos 0, negsuc 0, pos 0)

    pub calculate_transforms-travel :
        (l : Links) × (calculate_transforms fpu ids k group_index g track pulses track_pulses old
          ≡ some l)
        × (l.world_to_base ≡ base_of g track track_pulses old)
        × (l.base_to_flange
            ≡ k.to_coord (
                k.mul_frame
                  (k.mul_frame
                    (base_to_tcp fpu ids k group_index g pulses)
                    (k.inv_frame (tool0_to_tcp fpu ids k g)))
                  flange))
        × (l.flange_to_tool0 ≡ k.to_coord (k.inv_frame flange))
        × (l.flange_to_tcp
            ≡ k.to_coord (k.mul_frame (k.inv_frame flange) (tool0_to_tcp fpu ids k g)))
    unfolding calculate_transforms
    calculate_transforms-travel = (
      _,
      ap (with_base fpu ids k group_index g pulses)
          (world_to_base_of-base g track track_pulses old known),
      refl,
      refl,
      refl,
      refl,
    )

    pub calculate_transforms-some :
        (l : Links) × (calculate_transforms fpu ids k group_index g track pulses track_pulses old
          ≡ some l)
    calculate_transforms-some = let r = calculate_transforms-travel in (r.0, r.1)
