-- ===== src/Sample.antt =====
-- A small controller that the tests and examples of the other modules run on: signals are a memory
-- of numbers, a queue lock is free unless it is listed as held, and commands succeed.
pub mod Robot
use motoros.Prelude.{
  ℕ, ◌≡◌, refl, ap, ℤ, pos, Bool, false, not, List, [], ◌∷◌, map, arith, ◌==◌, if◌then◌else◌,
}
use motoros.MotoPlus.{MotoPlus, KeepsOutputs, IsAway, HasDistinctAddresses}

pub record SampleWorld : Type 0 where
  pub memory : ℕ → ℕ
  pub job : List ℕ
  pub lock_held : ℕ → Bool
  pub position : ℕ → List ℤ

abbrev pub update {ℓ} : {A : Type ℓ} → (ℕ → A) → ℕ → A → ℕ → A
update f a v b = if a == b then v else f b

abbrev pub write_all : (ℕ → ℕ) → List (ℕ × ℕ) → ℕ → ℕ
write_all f [] = f
write_all f (c ∷ cs) = update (write_all f cs) c.0 c.1

abbrev pub sample : MotoPlus
sample = record {
  World = SampleWorld;
  read_io = λ w addresses buffer. (pos 0, map w.memory addresses);
  write_io = λ w cells. (pos 0, record w { memory = write_all w.memory cells });
  get_cur_job = λ w. w.job;
  max_job_name_len = 32;
  get_alarm_code = λ w. (pos 0, record { alarm_num = 0; alarm_nos = []; error_no = 0 });
  sem_take = λ w g. not (w.lock_held g);
  get_pulse_pos = λ w g. (pos 0, w.position g);
  get_fb_pulse_pos = λ w g. (pos 0, w.position g);
  get_torques = λ w. (pos 0, []);
  get_encoder_temp = λ w g. (pos 0, []);
  hold = λ w on. w;
  start_job = λ w name. ((pos 0, pos 0), record w { job = name });
  set_cycle_auto = λ w. ((pos 0, pos 0), record w { memory = update w.memory 50052 1 });
  set_servo_power = λ w on. ((pos 0, pos 0), record w { memory = update w.memory 50073 on });
  inc_move = λ w moves. (pos 0, w);
  cancel_error = λ w. (pos 0, record w { memory = update w.memory 50014 0 });
  reset_alarm = λ w. (pos 0, record w { memory = update w.memory 50010 0 });
  set_alarm = λ w code subcode. w;
}

abbrev pub quiet_world : SampleWorld
quiet_world = record { memory = λ a. 0; job = []; lock_held = λ g. false; position = λ g. [] }

map-update_away :
    (f : ℕ → ℕ) (a v : ℕ) (cs : List (ℕ × ℕ))
    → IsAway a cs
    → map (update f a v) (map (λ c. c.0) cs) ≡ map f (map (λ c. c.0) cs)
map-update_away f a v [] h = refl
map-update_away f a v (c ∷ cs) h = ground (arith, map-update_away f a v cs h.1)

map-write_all :
    (f : ℕ → ℕ) (cs : List (ℕ × ℕ))
    → HasDistinctAddresses cs
    → map (write_all f cs) (map (λ c. c.0) cs) ≡ map (λ c. c.1) cs
map-write_all f [] h = refl
map-write_all f (c ∷ cs) h =
    ground (arith, map-update_away (write_all f cs) c.0 c.1 cs h.0, map-write_all f cs h.1)

pub sample-KeepsOutputs : KeepsOutputs sample
sample-KeepsOutputs = record {
  read_written = λ w cells buffer d h. ap (λ vs. (pos 0, vs)) (map-write_all w.memory cells d);
}
