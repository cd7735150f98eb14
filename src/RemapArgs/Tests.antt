-- ===== src/RemapArgs/Tests.antt =====
-- One rule, and eight.
use motoros.Prelude.{ℕ, ◌+◌, ◌*◌, ◌≤◌, ◌≡◌, refl, pos, List, [], ◌∷◌, ◌++◌, length, replicate, ◌⊎◌}
use motoros.RemapArgs.{
  ros_args_flag, remap_flag, explicit_end, rule, add_rules, finish_argv, construct_faux_argv,
}
use motoros.RemapArgs.Written.{flagged, construct_faux_argv-cases}

one_rule :
    construct_faux_argv ((97 ∷ []) ∷ []) 16
    ≡ (pos 4, ros_args_flag ∷ remap_flag ∷ rule (97 ∷ []) ∷ explicit_end ∷ [])
unfolding construct_faux_argv add_rules finish_argv
one_rule = refl

abbrev eight_rules : List (List ℕ)
eight_rules = replicate 8 (97 ∷ [])

construct_faux_argv-cases_example :
    let r = construct_faux_argv eight_rules 16 in
    ((length eight_rules ≤ 7)
      × (r.1 ≡ ros_args_flag ∷ (flagged eight_rules ++ (explicit_end ∷ [])))
      × (r.0 ≡ pos (2 + 2 * length eight_rules))
      × (length r.1 ≤ 16))
    ⊎ ((8 ≤ length eight_rules) × (r.0 ≡ pos 18) × (length r.1 ≡ 18))
construct_faux_argv-cases_example = construct_faux_argv-cases eight_rules
