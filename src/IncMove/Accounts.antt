-- ===== src/IncMove/Accounts.antt =====
-- The book-keeping of the pulses of a group from cycle to cycle (src/MotionControl.c, the FSU speed
-- limit of Ros_MotionControl_IncMoveLoopStart).
use motoros.Prelude.{
  ℕ, suc, ◌≡◌, ◌⊎◌, refl, ap, ◌∙◌, ℤ, pos, ◌+ℤ◌, int_laws, eq_of_parts, zero-+ℤ, not, ◌||◌, Bool,
  true, false, List, [], ◌∷◌, map, length, arith, Bool-cases, inl, inr,
}
use motoros.Queue.{add_pulses}
use motoros.IncMove.{
  Axis, is_zero, left_over, record_speed, record_speeds, account, account_all, is_missing_pulse,
  has_unprocessed, use_up_speed, some_speed_remains, transfer_speed, limit, keep_speed, limit_group,
}

-- The commanded position of an axis, and the pulses it has still to process.
abbrev pub balance : Axis → ℤ
balance a = a.to_process +ℤ a.prev_pos

account-balance :
    (x inc : ℤ) (b : Bool) (a : Axis)
    → balance (account x (record_speed b inc a)) ≡ balance a +ℤ inc
unfolding account left_over record_speed
account-balance x inc true a = omega int_laws
account-balance x inc false a = omega int_laws

counted-balance :
    (b : Bool) (pulses position : List ℤ) (axes : List Axis)
    → length pulses ≡ length axes
    → length position ≡ length axes
    → map balance (account_all position (record_speeds b pulses axes))
      ≡ add_pulses (map balance axes) pulses
unfolding account_all record_speeds add_pulses
counted-balance b [] [] [] h k = refl
counted-balance b (x ∷ xs) (y ∷ ys) (a ∷ axes) h k =
    rw (account-balance y x b a, counted-balance b xs ys axes (omega arith) (omega arith)) refl
counted-balance b [] ys (a ∷ axes) h k = absurd (omega arith)
counted-balance b (x ∷ xs) ys [] h k = absurd (omega arith)
counted-balance b xs [] (a ∷ axes) h k = absurd (omega arith)
counted-balance b xs (y ∷ ys) [] h k = absurd (omega arith)

map-balance :
    (f : Axis → Axis) (axes : List Axis)
    → ((a : Axis) → balance (f a) ≡ balance a)
    → map balance (map f axes) ≡ map balance axes
map-balance f [] h = refl
map-balance f (a ∷ axes) h = rw (h a, map-balance f axes h) refl

limit-balance : (a : Axis) → balance (limit a) ≡ balance a
unfolding limit
limit-balance a = ground arith

limited-balance :
    (b : Bool) (pulses position : List ℤ) (axes : List Axis)
    → map balance (limit_group b pulses position axes).axes
      ≡ map balance (account_all position (record_speeds b pulses axes))
unfolding limit_group
limited-balance b pulses position axes =
    let started = record_speeds b pulses axes in
    let counted = account_all position started in
    let used = map use_up_speed counted in
    let kept = map-balance use_up_speed counted (unfold use_up_speed in λ a. refl) in
    elim (Bool-cases (is_missing_pulse position started)) [
      | inr whole ↦ rw whole (map-balance keep_speed counted (unfold keep_speed in λ a. refl))
      | inl missing ↦ elim (Bool-cases (some_speed_remains used)) [
        | inl slow ↦ rw (missing, slow) (map-balance limit used limit-balance ∙ kept)
        | inr free ↦
            rw (missing, free)
              (map-balance limit (map transfer_speed used) limit-balance
                ∙ map-balance transfer_speed used (unfold transfer_speed in λ a. refl)
                ∙ kept)
      ]
    ]

length-map : (f : Axis → Axis) (axes : List Axis) → length (map f axes) ≡ length axes
length-map f [] = refl
length-map f (a ∷ axes) = ap suc (length-map f axes)

length-account_all :
    (b : Bool) (pulses position : List ℤ) (axes : List Axis)
    → length (account_all position (record_speeds b pulses axes)) ≡ length axes
unfolding account_all record_speeds
length-account_all b [] [] axes = refl
length-account_all b (x ∷ xs) [] [] = refl
length-account_all b (x ∷ xs) [] (a ∷ axes) = ap suc (length-account_all b xs [] axes)
length-account_all b [] (y ∷ ys) [] = refl
length-account_all b [] (y ∷ ys) (a ∷ axes) = ap suc (length-account_all b [] ys axes)
length-account_all b (x ∷ xs) (y ∷ ys) [] = refl
length-account_all b (x ∷ xs) (y ∷ ys) (a ∷ axes) = ap suc (length-account_all b xs ys axes)

-- One cycle of a group: whether its pulses were read from the queue, the pulses of moveData, and the
-- position that the controller then reports.
pub record CycleInput : Type 0 where
  pub queue_read : Bool
  pub pulses : List ℤ
  pub position : List ℤ

abbrev pub after : CycleInput → List Axis → List Axis
after c axes = (limit_group c.queue_read c.pulses c.position axes).axes

abbrev pub run : List CycleInput → List Axis → List Axis
run [] axes = axes
run (c ∷ cs) axes = run cs (after c axes)

pub length-after : (c : CycleInput) (axes : List Axis) → length (after c axes) ≡ length axes
unfolding limit_group
length-after c axes =
    let started = record_speeds c.queue_read c.pulses axes in
    let counted = account_all c.position started in
    let used = map use_up_speed counted in
    ground (
      arith,
      length-account_all c.queue_read c.pulses c.position axes,
      length-map keep_speed counted,
      length-map use_up_speed counted,
      length-map transfer_speed used,
      length-map limit used,
      length-map limit (map transfer_speed used),
    )

-- Every cycle has a pulse and a position for `n` axes.
abbrev pub HasWidth : ℕ → List CycleInput → Type 0
HasWidth n [] = Unit
HasWidth n (c ∷ cs) = (length c.pulses ≡ n) × (length c.position ≡ n) × HasWidth n cs

abbrev pub add_all : List CycleInput → List ℤ → List ℤ
add_all [] zs = zs
add_all (c ∷ cs) zs = add_all cs (add_pulses zs c.pulses)

pub after-balance :
    (c : CycleInput) (axes : List Axis)
    → length c.pulses ≡ length axes
    → length c.position ≡ length axes
    → map balance (after c axes) ≡ add_pulses (map balance axes) c.pulses
after-balance c axes h k =
    limited-balance c.queue_read c.pulses c.position axes
    ∙ counted-balance c.queue_read c.pulses c.position axes h k

-- Over any number of cycles, whatever the controller processed of what was sent to it: the position
-- that it reported last and the pulses that an axis has still to process add up to those of the
-- beginning and all the pulses that were read for it.
pub run-balance :
    (cs : List CycleInput) (axes : List Axis)
    → HasWidth (length axes) cs
    → map balance (run cs axes) ≡ add_all cs (map balance axes)
run-balance [] axes h = refl
run-balance (c ∷ cs) axes h =
    run-balance cs (after c axes) (rw (length-after c axes) h.2)
    ∙ ap (add_all cs) (after-balance c axes h.0 h.1)

unprocessed_speed :
    (axes : List Axis)
    → (some_speed_remains (map use_up_speed axes) ≡ false) ⊎ (has_unprocessed axes ≡ true)
unfolding some_speed_remains use_up_speed has_unprocessed
unprocessed_speed [] = inl refl
unprocessed_speed (a ∷ axes) = ground (arith, unprocessed_speed axes)

-- A group that will not read its queue in the next cycle has pulses left, so that the next cycle
-- takes place even if the queues are empty.
limit_group-skip :
    (b : Bool) (pulses position : List ℤ) (axes : List Axis)
    → let r = limit_group b pulses position axes in
      (r.skip_reading ≡ false) ⊎ (r.unprocessed ≡ true)
unfolding limit_group
limit_group-skip b pulses position axes =
    ground (arith, unprocessed_speed (account_all position (record_speeds b pulses axes)))

abbrev pub sent_of : Axis → ℤ
sent_of a = a.sent

abbrev pub left_of : Axis → ℤ
left_of a = a.to_process

none_missing : (z : ℤ) (b : Bool) → not (is_zero z) || b ≡ false → (z ≡ pos 0) × (b ≡ false)
none_missing z b h = ground (arith, eq_of_parts z (pos 0))

on_track :
    (b : Bool) (pulses position : List ℤ) (axes : List Axis)
    → length pulses ≡ length axes
    → length position ≡ length axes
    → is_missing_pulse position axes ≡ false
    → let started = record_speeds b pulses axes in
      let kept = map keep_speed (account_all position started) in
      (is_missing_pulse position started ≡ false)
      × (map sent_of kept ≡ pulses)
      × (map left_of kept ≡ pulses)
unfolding is_missing_pulse record_speeds record_speed account_all account keep_speed left_over
on_track b [] [] [] h k m = (refl, refl, refl)
on_track true (x ∷ xs) (y ∷ ys) (a ∷ axes) h k m =
    let found = none_missing (left_over y a) (is_missing_pulse ys axes) m in
    let rest = on_track true xs ys axes (omega arith) (omega arith) found.1 in
    rw (found.0, zero-+ℤ x, rest.0, rest.1, rest.2) (refl, refl, refl)
on_track false (x ∷ xs) (y ∷ ys) (a ∷ axes) h k m =
    let found = none_missing (left_over y a) (is_missing_pulse ys axes) m in
    let rest = on_track false xs ys axes (omega arith) (omega arith) found.1 in
    rw (found.0, zero-+ℤ x, rest.0, rest.1, rest.2) (refl, refl, refl)
on_track b [] ys (a ∷ axes) h k m = absurd (omega arith)
on_track b (x ∷ xs) ys [] h k m = absurd (omega arith)
on_track b xs [] (a ∷ axes) h k m = absurd (omega arith)
on_track b xs (y ∷ ys) [] h k m = absurd (omega arith)

-- If the controller has processed all that was left, a cycle reads the queue again next time, sends
-- exactly the pulses that were read, and has exactly these left.
pub limit_group-on_track :
    (b : Bool) (pulses position : List ℤ) (axes : List Axis)
    → length pulses ≡ length axes
    → length position ≡ length axes
    → is_missing_pulse position axes ≡ false
    → let r = limit_group b pulses position axes in
      (r.skip_reading ≡ false) × (map sent_of r.axes ≡ pulses) × (map left_of r.axes ≡ pulses)
unfolding limit_group
limit_group-on_track b pulses position axes h k m =
    let kept = on_track b pulses position axes h k m in rw kept.0 (refl, kept.1, kept.2)
