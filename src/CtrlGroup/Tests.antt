-- ===== src/CtrlGroup/Tests.antt =====
-- A robot of four axes, whose last axis is the sixth of the controller's order.
use motoros.Prelude.{◌≡◌, refl, ◌++◌, inr, [], ◌∷◌, List, replicate, arith}
use motoros.Data.{Double, CtrlGroup, axis_rotation, axis_invalid}
use motoros.CtrlGroup.{
  is_robot, sequential_to_moto, moto_to_sequential, no_doubles, at, next_valid, is_invalid_axis,
  few_to_moto,
}
use motoros.CtrlGroup.Order.{HasValid, moto_to_sequential-sequential_to_moto}
use motoros.Sample.Robot.{six_axes, sample_ids}

abbrev four_axes : CtrlGroup
four_axes = record six_axes {
  num_axes = 4;
  axis_type =
      replicate 3 axis_rotation
      ++ replicate 2 axis_invalid
      ++ axis_rotation ∷ replicate 2 axis_invalid;
}

abbrev point : List Double
point = 11 ∷ 12 ∷ 13 ∷ 14 ∷ 0 ∷ 0 ∷ 0 ∷ 0 ∷ []

last_is_sixth :
    sequential_to_moto sample_ids four_axes point ≡ 11 ∷ 12 ∷ 13 ∷ 0 ∷ 0 ∷ 14 ∷ 0 ∷ 0 ∷ []
unfolding sequential_to_moto is_robot few_to_moto next_valid is_invalid_axis
last_is_sixth = refl

four_axes-HasValid : HasValid four_axes 4 0
unfolding next_valid is_invalid_axis
four_axes-HasValid = (
  0,
  refl,
  omega arith,
  omega arith,
  (
    1,
    refl,
    omega arith,
    omega arith,
    (2, refl, omega arith, omega arith, (5, refl, omega arith, omega arith, tt)),
  ),
)

moto_to_sequential-sequential_to_moto_example :
    at
      (moto_to_sequential sample_ids four_axes
        (sequential_to_moto sample_ids four_axes point)
        no_doubles)
      3
    ≡ at point 3
unfolding is_robot
moto_to_sequential-sequential_to_moto_example =
    moto_to_sequential-sequential_to_moto sample_ids four_axes point no_doubles 3 refl (omega arith)
      (inr four_axes-HasValid) refl (omega arith)
