-- ===== src/Config/Valid.antt =====
-- Ros_ConfigFile_ValidateNonCriticalSettings of src/ConfigFile.c leaves settings that can be used.
use motoros.Prelude.{
  ℕ, ◌≡◌, refl, ap, ◌∙◌, ℤ, pos, Bool, true, false, Option, some, List, [], ◌∷◌, ◌++◌, Bool-cases,
  inl, inr, if◌then◌else◌,
}
use motoros.MotoPlus.{Model}
use motoros.Config.{
  Settings, LanPort, lan_disabled, lan_auto, user_lan1, user_lan2, Network, Nic, Validated,
  is_between, is_auto, is_lan_port, lan_ports, period_or, port_found, port_to_watch, detect_port,
  judge_port, check_monitor, check_periods, with_alarms, host_on_network_interface, is_on_network,
  is_auto, validate_non_critical_settings,
}

abbrev HasPeriods : Settings → Type 0
HasPeriods s =
    (is_between 1 100 s.executor_sleep_period ≡ true)
    × (is_between 1 100 s.action_feedback_publisher_period ≡ true)
    × (is_between 1 100 s.controller_status_monitor_period ≡ true)

-- The periods are from 1 to 100, and a port that is monitored is one of the controller's.
abbrev pub IsValid : Model → Settings → Type 0
IsValid m s =
    HasPeriods s × (s.userlan_monitor_enabled ≡ true → is_lan_port m s.userlan_monitor_port ≡ true)

period_or-between :
    (d : ℕ) (z : ℤ) → is_between 1 100 (pos d) ≡ true → is_between 1 100 (period_or d z) ≡ true
period_or-between d z h = elim (Bool-cases (is_between 1 100 z)) [
  | inl good ↦ rw good good
  | inr bad ↦ rw bad h
]

check_periods-HasPeriods : (s : Settings) → HasPeriods (check_periods s).settings
check_periods-HasPeriods s = (
  period_or-between 10 s.executor_sleep_period refl,
  period_or-between 20 s.action_feedback_publisher_period refl,
  period_or-between 10 s.controller_status_monitor_period refl,
)

port_found-some :
    (p later : LanPort) (b : Bool) → (q : LanPort) × (port_found p (some later) (some b) ≡ some q)
port_found-some p later true = (p, refl)
port_found-some p later false = (later, refl)

-- Every interface answers.
abbrev pub Answers : Network → Type 0
Answers net = (p : LanPort) → (nic : Nic) × (net.nic_data p ≡ some nic)

host_on_network_interface-some :
    (net : Network) (host : List ℕ) (p : LanPort)
    → Answers net
    → (b : Bool) × (host_on_network_interface net host p ≡ some b)
unfolding host_on_network_interface
host_on_network_interface-some net host p answers =
    let (nic, e) = answers p in (_, ap (is_on_network (net.inet_addr host)) e)

detect_port-some :
    (net : Network) (host : List ℕ) (ps : List LanPort)
    → Answers net
    → (q : LanPort) × (detect_port net host ps ≡ some q)
unfolding detect_port
detect_port-some net host [] answers = (lan_auto, refl)
detect_port-some net host (p ∷ ps) answers =
    let (later, ih) = detect_port-some net host ps answers in
    let (b, asked) = host_on_network_interface-some net host p answers in
    let (q, found) = port_found-some p later b in
    (
      q,
      ap (λ (o : Option LanPort). port_found p o (host_on_network_interface net host p)) ih
          ∙ ap (port_found p (some later)) asked
          ∙ found,
    )

abbrev Judged : Model → Option Validated → Type 0
Judged m o = (v : Validated) × (o ≡ some v) × IsValid m v.settings

judge_port-Judged :
    (m : Model) (s : Settings) (q : LanPort) → HasPeriods s → Judged m (judge_port m s (some q))
judge_port-Judged m s q periods = elim (Bool-cases (is_auto q)) [
  | inl auto ↦ rw auto (_, refl, (periods, λ on. absurd (cc on)))
  | inr known ↦ rw known (elim (Bool-cases (is_lan_port m q)) [
    | inl good ↦ rw good (_, refl, (periods, λ on. good))
    | inr bad ↦ rw bad (_, refl, (periods, λ on. absurd (cc on)))
  ])
]

port_to_watch-some :
    (net : Network) (m : Model) (s : Settings)
    → Answers net
    → (q : LanPort) × (port_to_watch net m s ≡ some q)
port_to_watch-some net m s answers = elim (Bool-cases (is_auto s.userlan_monitor_port)) [
  | inl auto ↦ rw auto (detect_port-some net s.agent_ip_address (lan_ports m) answers)
  | inr known ↦ rw known (s.userlan_monitor_port, refl)
]

abbrev unchanged : Settings → Validated
unchanged s = record { settings = s; alarms = [] }

monitor_if :
    (net : Network) (m : Model) (s : Settings) {b : Bool}
    → s.userlan_monitor_enabled ≡ b
    → check_monitor net m s
      ≡ (if b then judge_port m s (port_to_watch net m s) else some (unchanged s))
monitor_if net m s e =
    ap (λ (b : Bool). if b then judge_port m s (port_to_watch net m s) else some (unchanged s)) e

check_monitor-Judged :
    (net : Network) (m : Model) (s : Settings)
    → Answers net
    → HasPeriods s
    → Judged m (check_monitor net m s)
check_monitor-Judged net m s answers periods = elim (Bool-cases s.userlan_monitor_enabled) [
  | inl on ↦
      let (q, e) = port_to_watch-some net m s answers in
      let (v, judged, good) = judge_port-Judged m s q periods in
      (v, monitor_if net m s on ∙ ap (judge_port m s) e ∙ judged, good)
  | inr off ↦ (unchanged s, monitor_if net m s off, (periods, λ on. absurd (cc (off, on))))
]

is_lan_port-is_auto : (m : Model) (q : LanPort) → is_lan_port m q ≡ true → is_auto q ≡ false
is_lan_port-is_auto m lan_auto h = absurd (cc h)
is_lan_port-is_auto m lan_disabled h = refl
is_lan_port-is_auto m user_lan1 h = refl
is_lan_port-is_auto m user_lan2 h = refl

check_periods-unchanged : (s : Settings) → HasPeriods s → check_periods s ≡ unchanged s
check_periods-unchanged s h = rw h.0 (rw h.1 (rw h.2 refl))

check_monitor-unchanged :
    (net : Network) (m : Model) (s : Settings)
    → IsValid m s
    → check_monitor net m s ≡ some (unchanged s)
check_monitor-unchanged net m s h = elim (Bool-cases s.userlan_monitor_enabled) [
  | inl on ↦
      let good = h.1 on in
      let known = is_lan_port-is_auto m s.userlan_monitor_port good in
      rw on (rw known (rw known (rw good refl)))
  | inr off ↦ rw off refl
]

validate-unchanged :
    (net : Network) (m : Model) (s : Settings)
    → IsValid m s
    → validate_non_critical_settings net m s ≡ some (unchanged s)
unfolding validate_non_critical_settings
validate-unchanged net m s h =
    ap (λ (v : Validated). with_alarms v.alarms (check_monitor net m v.settings))
      (check_periods-unchanged s h.0)
    ∙ ap (with_alarms []) (check_monitor-unchanged net m s h)

-- If every interface of the network answers, the validation of the other settings comes to its end,
-- whatever they are; then the periods are from 1 to 100 ms and a port that is monitored is one that
-- the controller has, and to validate these settings again changes nothing and raises no alarm.
pub validate_non_critical_settings-IsValid :
    (net : Network) (m : Model) (s : Settings)
    → Answers net
    → (v : Validated) × (validate_non_critical_settings net m s ≡ some v)
      × IsValid m v.settings
      × (validate_non_critical_settings net m v.settings
          ≡ some (record { settings = v.settings; alarms = [] }))
unfolding validate_non_critical_settings
validate_non_critical_settings-IsValid net m s answers =
    let p = check_periods s in
    let (v, e, good) = check_monitor-Judged net m p.settings answers (check_periods-HasPeriods s) in
    (
      record v { alarms = p.alarms ++ v.alarms },
      ap (with_alarms p.alarms) e,
      good,
      validate-unchanged net m v.settings good,
    )
