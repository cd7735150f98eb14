-- ===== src/Queue/Pulses.antt =====
-- No pulse is lost or made between the task that fills a queue and the task that empties it
-- (Ros_MotionControl_AddPulseIncPointToQ and Ros_MotionControl_IncMoveLoopStart of
-- src/MotionControl.c).
use motoros.Prelude.{
  ℕ, zero, suc, ◌<◌, ◌≡◌, refl, ap, sym, ◌∙◌, ℤ, pos, ◌+ℤ◌, int_laws, +ℤ_assoc, +ℤ-zero, zero-+ℤ,
  List, [], ◌∷◌, ◌++◌, length, get_or, replicate, arith, Bool-cases, inl, inr,
}
use motoros.Data.{IncrementalData, IncrementalQ, q_size, grp_axes_num}
use motoros.MotoPlus.{GroupMove}
use motoros.Queue.{add_pulses, same_period, other_format, enqueue, take_increment}
use motoros.Queue.Contents.{contents, IsRing, contents-enqueue}
use motoros.Queue.Increment.{merge, cycle, take_increment-cycle}

-- the pulses of one axis
pub pulses : ℕ → List IncrementalData → ℤ
pulses axis [] = pos 0
pulses axis (d ∷ ds) = get_or d.inc axis (pos 0) +ℤ pulses axis ds

pub moved : ℕ → List GroupMove → ℤ
moved axis [] = pos 0
moved axis (g ∷ gs) = get_or g.pos axis (pos 0) +ℤ moved axis gs

-- Every entry has a pulse for every axis.
abbrev pub AllAxes : List IncrementalData → Type 0
AllAxes [] = Unit
AllAxes (d ∷ ds) = (length d.inc ≡ grp_axes_num) × AllAxes ds

pub get_or-add_pulses :
    (xs ys : List ℤ) (axis : ℕ)
    → length xs ≡ length ys
    → get_or (add_pulses xs ys) axis (pos 0) ≡ get_or xs axis (pos 0) +ℤ get_or ys axis (pos 0)
unfolding add_pulses
get_or-add_pulses [] [] axis h = omega int_laws
get_or-add_pulses [] (y ∷ ys) axis h = absurd (omega arith)
get_or-add_pulses (x ∷ xs) [] axis h = absurd (omega arith)
get_or-add_pulses (x ∷ xs) (y ∷ ys) zero h = refl
get_or-add_pulses (x ∷ xs) (y ∷ ys) (suc axis) h = get_or-add_pulses xs ys axis (omega arith)

pub length-add_pulses : (xs ys : List ℤ) → length (add_pulses xs ys) ≡ length xs
unfolding add_pulses
length-add_pulses [] ys = refl
length-add_pulses (x ∷ xs) [] = refl
length-add_pulses (x ∷ xs) (y ∷ ys) = ap suc (length-add_pulses xs ys)

pulses-append :
    (axis : ℕ) (xs ys : List IncrementalData)
    → pulses axis (xs ++ ys) ≡ pulses axis xs +ℤ pulses axis ys
unfolding pulses
pulses-append axis [] ys = omega int_laws
pulses-append axis (x ∷ xs) ys =
    let p = get_or x.inc axis (pos 0) in
    ap (λ t. p +ℤ t) (pulses-append axis xs ys) ∙ sym (+ℤ_assoc p (pulses axis xs) (pulses axis ys))

AllAxes-append : (xs ys : List IncrementalData) → AllAxes xs → AllAxes ys → AllAxes (xs ++ ys)
AllAxes-append [] ys h k = k
AllAxes-append (x ∷ xs) ys h k = (h.0, AllAxes-append xs ys h.1 k)

pulses-merge :
    (axis period q_time t : ℕ) (g : GroupMove) (ds : List IncrementalData)
    → length g.pos ≡ 8
    → AllAxes ds
    → let c = merge period q_time g t ds in
      AllAxes c.rest
      × (get_or g.pos axis (pos 0) +ℤ pulses axis ds
          ≡ get_or c.move.pos axis (pos 0) +ℤ pulses axis c.rest)
unfolding merge pulses
pulses-merge axis period q_time t g [] h k = (tt, refl)
pulses-merge axis period q_time t g (d ∷ ds) h k = elim (Bool-cases (same_period period q_time d)) [
  | inr late ↦ rw late (k, refl)
  | inl same ↦ elim (Bool-cases (other_format g d)) [
    | inl other ↦ rw (same, other) (k, refl)
    | inr like ↦
        rw (same, like)
          (let g' : GroupMove = record g { pos = add_pulses g.pos d.inc } in
            let ih =
              pulses-merge axis period q_time d.time g' ds (length-add_pulses g.pos d.inc ∙ h)
                k.1 in
            let p = get_or g.pos axis (pos 0) in
            (
              ih.0,
              sym (+ℤ_assoc p (get_or d.inc axis (pos 0)) (pulses axis ds))
                  ∙ ap (λ x. x +ℤ pulses axis ds)
                      (sym (get_or-add_pulses g.pos d.inc axis (h ∙ sym k.0)))
                  ∙ ih.1,
            ))
  ]
]

pub get_or-zeros : (n axis : ℕ) → get_or (replicate n (pos 0)) axis (pos 0) ≡ pos 0
get_or-zeros zero axis = refl
get_or-zeros (suc n) zero = refl
get_or-zeros (suc n) (suc axis) = get_or-zeros n axis

pub pulses-cycle :
    (axis dtype period q_time : ℕ) (ds : List IncrementalData)
    → AllAxes ds
    → let c = cycle dtype period q_time ds in
      AllAxes c.rest × (pulses axis ds ≡ get_or c.move.pos axis (pos 0) +ℤ pulses axis c.rest)
unfolding cycle pulses
pulses-cycle axis dtype period q_time [] k = (tt, rw (get_or-zeros 8 axis) (omega int_laws))
pulses-cycle axis dtype period q_time (d ∷ ds) k =
    pulses-merge axis period q_time d.time
      (record { tool = d.tool; frame = d.frame; user = d.user; pos = d.inc }) ds k.0 k.1

moved-append :
    (axis : ℕ) (gs : List GroupMove) (g : GroupMove)
    → moved axis (gs ++ g ∷ []) ≡ moved axis gs +ℤ get_or g.pos axis (pos 0)
unfolding moved
moved-append axis [] g = omega int_laws
moved-append axis (x ∷ gs) g =
    let p = get_or x.pos axis (pos 0) in
    ap (λ t. p +ℤ t) (moved-append axis gs g)
    ∙ sym (+ℤ_assoc p (moved axis gs) (get_or g.pos axis (pos 0)))

pulses-snoc :
    (axis : ℕ) (ds : List IncrementalData) (d : IncrementalData)
    → pulses axis (ds ++ d ∷ []) ≡ pulses axis ds +ℤ get_or d.inc axis (pos 0)
pulses-snoc axis ds d =
    pulses-append axis ds (d ∷ [])
    ∙ ap (λ t. pulses axis ds +ℤ t) (unfold pulses in +ℤ-zero (get_or d.inc axis (pos 0)))

-- A queue with the time to which it has been read, between the two tasks that share it. A history
-- keeps what the first task put in and what the second moved, oldest first.
pub record Shared : Type 0 where
  pub queue : IncrementalQ
  pub q_time : ℕ

module _ (dtype period : ℕ) where
  pub data History (s : Shared) : List IncrementalData → List GroupMove → Shared → Type 0 where
    start : History s [] [] s
    add :
        {ds : List IncrementalData} {gs : List GroupMove} {t : Shared} (d : IncrementalData)
        → History s ds gs t
        → t.queue.cnt < q_size
        → length d.inc ≡ grp_axes_num
        → History s (ds ++ d ∷ []) gs (record t { queue = enqueue d t.queue })
    take :
        {ds : List IncrementalData} {gs : List GroupMove} {t : Shared}
        → History s ds gs t
        → History s ds (gs ++ (take_increment dtype period t.q_time t.queue).move ∷ []) (record {
          queue = (take_increment dtype period t.q_time t.queue).queue;
          q_time = (take_increment dtype period t.q_time t.queue).q_time;
        })

  -- Whatever the order in which entries are put in and cycles are taken, the pulses that the ring
  -- held and those that were put in are those that were moved and those that the ring still holds,
  -- axis by axis, and the ring stays well formed.
  pub History-pulses :
      (axis : ℕ) {s t : Shared} {ds : List IncrementalData} {gs : List GroupMove}
      → IsRing s.queue
      → AllAxes (contents s.queue)
      → History s ds gs t
      → IsRing t.queue
        × AllAxes (contents t.queue)
        × (pulses axis (contents s.queue) +ℤ pulses axis ds
            ≡ moved axis gs +ℤ pulses axis (contents t.queue))
  History-pulses axis {s} r a start = (r, a, unfold pulses moved in +ℤ-zero C ∙ sym (zero-+ℤ C))
    where
      C : ℤ
      C = pulses axis (contents s.queue)
  History-pulses axis {s} r a (add {ds} {gs} {t} d h room w) =
      let ih = History-pulses axis r a h in
      let put = contents-enqueue t.queue d ih.0 room in
      let x = get_or d.inc axis (pos 0) in
      (
        put.0,
        rw put.1 (AllAxes-append (contents t.queue) (d ∷ []) ih.1 (w, tt)),
        rw (put.1, pulses-snoc axis ds d, pulses-snoc axis (contents t.queue) d)
            (sym (+ℤ_assoc (pulses axis (contents s.queue)) (pulses axis ds) x)
              ∙ ap (λ y. y +ℤ x) ih.2
              ∙ +ℤ_assoc (moved axis gs) (pulses axis (contents t.queue)) x),
      )
  History-pulses axis {s} r a (take {ds} {gs} {t} h) =
      let ih = History-pulses axis r a h in
      let q = take_increment dtype period t.q_time t.queue in
      let taken = take_increment-cycle dtype period t.q_time t.queue ih.0 in
      let kept = pulses-cycle axis dtype period t.q_time (contents t.queue) ih.1 in
      let rest : contents q.queue ≡ (cycle dtype period t.q_time (contents t.queue)).rest =
        ap (λ c. c.rest) taken.2 in
      let move : q.move ≡ (cycle dtype period t.q_time (contents t.queue)).move =
        ap (λ c. c.move) taken.2 in
      (
        taken.0,
        rw rest kept.0,
        rw (moved-append axis gs q.move, rest, move)
            (ih.2 ∙ ap (λ y. moved axis gs +ℤ y) kept.1 ∙ sym (+ℤ_assoc (moved axis gs) _ _)),
      )
