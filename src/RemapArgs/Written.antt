-- ===== src/RemapArgs/Written.antt =====
-- What Ros_ConstructFauxArgv (src/FauxCommandLineArgs.c) writes into the array of 16 entries that
-- Ros_Communication_Initialize (src/CommunicationExecutor.c) gives it.
use motoros.Prelude.{
  ℕ, suc, ◌+◌, ◌*◌, ◌≤◌, ◌≡◌, refl, sym, ap, ◌∙◌, ℤ, pos, false, List, [], ◌∷◌, ◌++◌, length,
  length-append, arith, ltb, leb, ◌⊎◌, inl, inr, Bool-cases,
}
use mathlib.Core.List.{append_assoc, append-nil}
use motoros.RemapArgs.{
  Arg, ros_args_flag, remap_flag, explicit_end, rule, Args, add_rules, finish_argv,
  construct_faux_argv,
}

-- A flag before every rule
abbrev pub flagged : List (List ℕ) → List Arg
flagged [] = []
flagged (r ∷ rs) = remap_flag ∷ rule r ∷ flagged rs

length-two : (out : List Arg) (a b : Arg) → length (out ++ (a ∷ b ∷ [])) ≡ length out + 2
length-two out a b = length-append out (a ∷ b ∷ [])

-- While the array has room for all rules
add_rules-all :
    (rs : List (List ℕ)) (n : ℕ) (out : List Arg)
    → length out ≡ 1 + 2 * n
    → n + length rs ≤ 7
    → add_rules 16 rs n out ≡ record { written = out ++ flagged rs; failed = false }
unfolding add_rules
add_rules-all [] n out e h =
    ap (λ (l : List Arg). record { written = l; failed = false }) (sym (append-nil out))
add_rules-all (r ∷ rs) n out e h =
    let more = out ++ (remap_flag ∷ rule r ∷ []) in
    let two = length-two out remap_flag (rule r) in
    let rest = add_rules-all rs (suc n) more (omega (arith, two)) (omega arith) in
    ground (arith, two, rest, append_assoc out (remap_flag ∷ rule r ∷ []) (flagged rs))

-- With more rules the loop stops with 17 entries.
add_rules-over :
    (rs : List (List ℕ)) (n : ℕ) (out : List Arg)
    → length out ≡ 1 + 2 * n
    → n ≤ 8
    → 8 ≤ n + length rs
    → (length (add_rules 16 rs n out).written ≡ 17) × ((add_rules 16 rs n out).failed ≡ false)
unfolding add_rules
add_rules-over [] n out e lo h = (omega arith, refl)
add_rules-over (r ∷ rs) n out e lo h =
    let more = out ++ (remap_flag ∷ rule r ∷ []) in
    let two = length-two out remap_flag (rule r) in
    elim (Bool-cases (ltb (length out) 16)) [
      | inl room ↦
          let rest =
            add_rules-over rs (suc n) more (omega (arith, two)) (ground arith) (omega arith) in
          ground (arith, two, rest)
      | inr full ↦ rw full (ground arith, refl)
    ]

length-flagged : (rs : List (List ℕ)) → length (flagged rs) ≡ 2 * length rs
length-flagged [] = refl
length-flagged (r ∷ rs) = omega (arith, length-flagged rs)

finish_argv-odd :
    (k : ℕ) (a : Args)
    → a.failed ≡ false
    → length a.written ≡ 1 + 2 * k
    → finish_argv 16 a ≡ (pos (2 + 2 * k), a.written ++ (explicit_end ∷ []))
unfolding finish_argv
finish_argv-odd k a f e = ground arith

fits_in :
    (rules : List (List ℕ)) {out : List Arg}
    → length rules ≤ 7
    → out ≡ ros_args_flag ∷ (flagged rules ++ (explicit_end ∷ []))
    → length out ≤ 16
fits_in rules h e = omega (
  arith,
  ap (λ (l : List Arg). length l) e,
  length-append (flagged rules) (explicit_end ∷ []),
  length-flagged rules,
)

-- Up to seven rules become the flag for the arguments of ROS, a flag before each rule and the end
-- mark, and all entries that are counted are in the array. With eight or more, 18 entries are written
-- into the array of 16, and counted.
pub construct_faux_argv-cases :
    (rules : List (List ℕ))
    → let r = construct_faux_argv rules 16 in
      ((length rules ≤ 7)
        × (r.1 ≡ ros_args_flag ∷ (flagged rules ++ (explicit_end ∷ [])))
        × (r.0 ≡ pos (2 + 2 * length rules))
        × (length r.1 ≤ 16))
      ⊎ ((8 ≤ length rules) × (r.0 ≡ pos 18) × (length r.1 ≡ 18))
unfolding construct_faux_argv
construct_faux_argv-cases rules = elim (Bool-cases (leb (length rules) 7)) [
  | inl few ↦
      let all = add_rules-all rules 0 (ros_args_flag ∷ []) (omega arith) (ground arith) in
      let odd =
        finish_argv-odd (length rules)
          (record { written = ros_args_flag ∷ flagged rules; failed = false }) refl
          (omega (arith, length-flagged rules)) in
      let e = ap (finish_argv 16) all ∙ odd in
      inl (
        ground arith,
        ap (λ (r : ℤ × List Arg). r.1) e,
        ap (λ (r : ℤ × List Arg). r.0) e,
        fits_in rules (ground arith) (ap (λ (r : ℤ × List Arg). r.1) e),
      )
  | inr many ↦
      let (long, going) =
        add_rules-over rules 0 (ros_args_flag ∷ []) (omega arith) (omega arith) (ground arith) in
      let e = finish_argv-odd 8 (add_rules 16 rules 0 (ros_args_flag ∷ [])) going long in
      inr (
        ground arith,
        ap (λ (r : ℤ × List Arg). r.0) e,
        ap (λ (r : ℤ × List Arg). length r.1) e
            ∙ length-append (add_rules 16 rules 0 (ros_args_flag ∷ [])).written (explicit_end ∷ [])
            ∙ ap (λ (n : ℕ). n + 1) long,
      )
]
