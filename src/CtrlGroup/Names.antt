-- ===== src/CtrlGroup/Names.antt =====
-- The names of the joints by axis: Ros_CtrlGroup_UpdateJointNamesInMotoOrder of src/CtrlGroup.c.
use motoros.Prelude.{
  ℕ, zero, suc, ◌+◌, ◌*◌, Bool, true, false, Option, none, some, List, [], ◌∷◌, get_or, set,
  replicate, if◌then◌else◌,
}
use motoros.Data.{CtrlGroup, grp_axes_num}
use motoros.CtrlGroup.{is_invalid_axis}

-- A name is the list of its characters.
abbrev pub Name : Type 0
Name = List ℕ

abbrev pub is_no_name : Name → Bool
is_no_name [] = true
is_no_name (c ∷ cs) = false

-- joint_names[(groupNo * MP_GRP_AXES_NUM) + i] of the settings
abbrev pub configured : List Name → ℕ → ℕ → Name
configured names group_no i = get_or names (group_no * grp_axes_num + i) []

abbrev pub unless : Bool → Option (List Name) → Option (List Name)
unless true rest = none
unless false rest = rest

-- The loop over the axes: `n` left, from `axis` on, where `config` counts the valid ones. `none` is the
-- assertion that fails for an empty name.
unfoldable pub fill_names : List Name → CtrlGroup → ℕ → ℕ → ℕ → List Name → Option (List Name)
unfolding is_invalid_axis
fill_names names g zero axis config out = some out
fill_names names g (suc n) axis config out =
    let name = configured names g.group_no config in
    let invalid = is_invalid_axis g axis in
    let skipped = fill_names names g n (axis + 1) config out in
    let stored = fill_names names g n (axis + 1) (config + 1) (set out axis name) in
    if invalid then skipped else unless (is_no_name name) stored

-- Ros_CtrlGroup_UpdateJointNamesInMotoOrder
unfoldable pub joint_names_in_moto_order : List Name → CtrlGroup → Option (List Name)
unfolding fill_names
joint_names_in_moto_order names g = fill_names names g grp_axes_num 0 0 (replicate grp_axes_num [])
