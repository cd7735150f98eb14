-- ===== src/Calibration/Flags.antt =====
-- The flags of a line of RBCALIB.DAT, of which the first that is 1 counts
-- (src/Ros_mpGetRobotCalibrationData.c).
use motoros.Prelude.{
  ℕ, zero, suc, ◌+◌, ◌<◌, ◌≡◌, ◌≢◌, refl, ap, ◌∙◌, pos, false, eqb_ℤ, some, List, [], ◌∷◌, get_or,
  arith,
}
use motoros.Inform.Header.{atoi}
use motoros.Calibration.{first_flag}

-- The flag `x` is the first that is 1.
abbrev pub IsFirst : List (List ℕ) → ℕ → Type 0
IsFirst [] x = ⊥
IsFirst (f ∷ fs) zero = atoi f ≡ pos 1
IsFirst (f ∷ fs) (suc x) = (atoi f ≢ pos 1) × IsFirst fs x

other_flag : (f : List ℕ) → atoi f ≢ pos 1 → eqb_ℤ (atoi f) (pos 1) ≡ false
other_flag f h = ground (arith, h)

pub first_flag-IsFirst :
    (parts fs : List (List ℕ)) (n i x : ℕ)
    → ((k : ℕ) → get_or parts (i + k) [] ≡ get_or fs k [])
    → IsFirst fs x
    → x < n
    → first_flag parts n i ≡ some (i + x)
unfolding first_flag
first_flag-IsFirst parts fs zero i x same h l = absurd (omega (arith, l))
first_flag-IsFirst parts [] (suc n) i x same h l = absurd h
first_flag-IsFirst parts (f ∷ fs) (suc n) i zero same h l =
    let here : get_or parts i [] ≡ f = ap (λ (k : ℕ). get_or parts k []) (omega arith) ∙ same 0 in
    let at : i + 0 ≡ i = omega arith in rw (here, h, at) refl
first_flag-IsFirst parts (f ∷ fs) (suc n) i (suc x) same (other, h) l =
    let here : get_or parts i [] ≡ f = ap (λ (k : ℕ). get_or parts k []) (omega arith) ∙ same 0 in
    let later =
      first_flag-IsFirst parts fs n (i + 1) x
        (λ k. ap (λ (j : ℕ). get_or parts j []) (omega arith) ∙ same (suc k)) h
        (omega (arith, l)) in
    let at : (i + 1) + x ≡ i + suc x = omega arith in
    rw (here, other_flag f other) (later ∙ ap some at)
