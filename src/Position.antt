-- ===== src/Position.antt =====
-- What src/PositionMonitor.c publishes: the names of the joints in the messages.
pub mod Naming
pub mod Location
pub mod Copied
pub mod Gathered
pub mod Published
pub mod Frames
mod Tests
use motoros.Prelude.{
  ℕ, zero, suc, ◌+◌, ◌-◌, Bool, ◌&&◌, List, [], ◌∷◌, ◌++◌, ltb, ◌==◌, if◌then◌else◌,
}
use motoros.Data.{CtrlGroup}
use motoros.CtrlGroup.{GroupIds, is_robot}
use motoros.CtrlGroup.Names.{Name, configured}

-- The entry of joint_names, counted from those of the group, that names joint `joint` in a message: the
-- axis E of a robot of seven axes comes third.
unfoldable pub name_index : GroupIds → CtrlGroup → ℕ → ℕ
unfolding is_robot
name_index ids g joint =
    if (g.num_axes == 7) && is_robot ids g
    then (if ltb joint 2 then joint else if joint == 2 then joint + 4 else joint - 1)
    else joint

-- The names of `n` joints of group `group_index`, from `joint` on
unfoldable pub names_from : GroupIds → List Name → CtrlGroup → ℕ → ℕ → ℕ → List Name
unfolding name_index
names_from ids names g group_index zero joint = []
names_from ids names g group_index (suc n) joint =
    configured names group_index (name_index ids g joint)
    ∷ names_from ids names g group_index n (joint + 1)

-- The loop of Ros_PositionMonitor_Initialize_PerGroupJointStatePublisher
unfoldable pub group_joint_names : GroupIds → List Name → ℕ → CtrlGroup → List Name
unfolding names_from
group_joint_names ids names group_index g = names_from ids names g group_index g.num_axes 0

-- The loops of Ros_PositionMonitor_Initialize_GlobalJointStatePublisher, from group `group_index` on
unfoldable pub all_joint_names : GroupIds → List Name → ℕ → List CtrlGroup → List Name
unfolding group_joint_names
all_joint_names ids names group_index [] = []
all_joint_names ids names group_index (g ∷ gs) =
    group_joint_names ids names group_index g ++ all_joint_names ids names (group_index + 1) gs
