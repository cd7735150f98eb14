-- ===== src/ActionServer/Tolerance.antt =====
-- The tolerances of a goal and the order of its joints: Ros_ActionServer_FJT_Parse_GoalPosTolerances
-- and Ros_ActionServer_FJT_Reorder_TrajPt_To_Internal_Order of src/ActionServer_FJT.c. No pointer is
-- NULL here.
use motoros.Prelude.{
  ℕ, suc, ℤ, pos, negsuc, not, Option, none, some, List, [], ◌∷◌, length, ltb, ◌==◌, get_or, set,
  replicate, if◌then◌else◌,
}
use motoros.Data.{Double}
use motoros.Trajectory.Init.{strcmp_eq}

-- A name is the list of its characters.
abbrev pub Name : Type 0
Name = List ℕ

-- control_msgs/JointTolerance, as far as it is read
pub record JointTolerance : Type 0 where
  pub name : Name
  pub position : Double

-- The first index, from `i` on, at which a list has a name.
unfoldable pub index_of : Name → List Name → ℕ → Option ℕ
unfolding strcmp_eq
index_of n [] i = none
index_of n (m ∷ ms) i = let rest = index_of n ms (suc i) in if strcmp_eq m n then some i else rest

abbrev pub set_at : Option ℕ → Double → List Double → List Double
set_at none x xs = xs
set_at (some i) x xs = set xs i x

-- The loop over the tolerances; one with an unknown name is ignored.
unfoldable pub store_tolerances : List Name → List JointTolerance → List Double → List Double
unfolding index_of
store_tolerances names [] out = out
store_tolerances names (t ∷ ts) out =
    store_tolerances names ts (set_at (index_of t.name names 0) t.position out)

-- The STATUS and the array that was filled, whose length is `len`.
unfoldable pub parse_goal_pos_tolerances :
    Double → List JointTolerance → List Name → ℕ → ℤ × List Double
unfolding store_tolerances
parse_goal_pos_tolerances default [] names len = (pos 0, replicate len default)
parse_goal_pos_tolerances default (t ∷ ts) names len =
    if ltb len (length names)
    then (negsuc 1, replicate len default)
    else (pos 0, store_tolerances names (t ∷ ts) (replicate len default))

-- The loop over the joints of the point, from the joint `i` on.
unfoldable pub store_positions : List Name → List Double → List Name → ℕ → List Double → List Double
unfolding index_of
store_positions internal positions [] i out = out
store_positions internal positions (n ∷ ns) i out =
    store_positions internal positions ns (suc i)
      (set_at (index_of n internal 0) (get_or positions i 0) out)

-- The array comes cleared, with the length `len` checked against the positions.
unfoldable pub reorder_to_internal_order :
    List Double → List Name → List Name → ℕ → List Double → ℤ × List Double
unfolding store_positions
reorder_to_internal_order positions names internal len out =
    if not (length names == length internal)
    then (negsuc 1, out)
    else if not (length positions == length internal)
    then (negsuc 2, out)
    else if ltb len (length positions)
    then (negsuc 3, out)
    else (pos 0, store_positions internal positions names 0 out)
