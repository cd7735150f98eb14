-- ===== src/RemapArgs.antt =====
-- The command line that is made up from the remap rules: Ros_ConstructFauxArgv of
-- src/FauxCommandLineArgs.c, and its call in src/CommunicationExecutor.c.
pub mod Written
mod Tests
use motoros.Prelude.{
  ℕ, zero, suc, ◌+◌, ◌-◌, ◌*◌, ◌%◌, ℤ, pos, negsuc, Bool, true, false, List, [], ◌∷◌, ◌++◌, length,
  ltb, leb, ◌==◌, if◌then◌else◌,
}

-- The constants of rcl enter as arguments; a rule is the list of its characters.
pub data Arg : Type 0 where
  ros_args_flag remap_flag explicit_end : Arg
  rule : List ℕ → Arg

-- MAX_REMAP_RULE_NUM, which is also the length of the array in Ros_Communication_Initialize
abbrev pub max_remap_rules : ℕ
max_remap_rules = 16

abbrev pub max_argvs : ℕ
max_argvs = max_remap_rules * 2 + 2

-- What has been written to the array, in order, whether or not it has the room; `failed` is the
-- early return of -1.
pub record Args : Type 0 where
  pub written : List Arg
  pub failed : Bool

-- The loop over the rules, after `n` of them.
unfoldable pub add_rules : ℕ → List (List ℕ) → ℕ → List Arg → Args
add_rules len [] n out = record { written = out; failed = false }
add_rules len (r ∷ rs) n out =
    let more = out ++ (remap_flag ∷ rule r ∷ []) in
    let rest = add_rules len rs (suc n) more in
    if ltb (length out) len
    then (if leb max_argvs (length more)
        then record { written = more; failed = true }
        else if leb max_remap_rules (suc n)
        then record { written = more; failed = true }
        else rest)
    else record { written = out; failed = false }

-- What stands behind the loop: the result, and what was written.
unfoldable pub finish_argv : ℕ → Args → ℤ × List Arg
finish_argv len a =
    let count = length a.written in
    let done = a.written ++ (explicit_end ∷ []) in
    if a.failed
    then (negsuc 0, a.written)
    else if count == len
    then (negsuc 0, a.written)
    else if ((count - 1) % 2) == 0
    then (pos (count + 1), done)
    else (negsuc 0, a.written)

-- For the rules that `rcutils_split` gives
unfoldable pub construct_faux_argv : List (List ℕ) → ℕ → ℤ × List Arg
unfolding add_rules finish_argv
construct_faux_argv rules len =
    if ltb len 2
    then (negsuc 0, [])
    else finish_argv len (add_rules len rules 0 (ros_args_flag ∷ []))
