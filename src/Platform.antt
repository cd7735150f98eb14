-- ===== src/Platform.antt =====
-- All that the program uses and does not implement, and the state that its tasks work on.
use motoros.Prelude.{ℕ, ℤ}
use motoros.MotoPlus.{MotoPlus}
use motoros.Data.{Controller}
use motoros.Fpu.{Fpu}
use motoros.CtrlGroup.{GroupIds}

-- The constants are those of the M+ headers.
pub record Platform : Type 1 where
  pub api : MotoPlus
  pub fpu : Fpu
  pub ids : GroupIds
  -- MP_INC_PULSE_DTYPE
  pub pulse_dtype : ℕ
  -- E_EXRCS_CTRL_GRP, E_EXRCS_IMOV_UNREADY, E_EXRCS_PFL_FUNC_BUSY, E_EXRCS_UNDER_ENERGY_SAVING
  pub e_ctrl_grp : ℤ
  pub e_imov_unready : ℤ
  pub e_pfl_func_busy : ℤ
  pub e_under_energy_saving : ℤ
  -- MAX_ALARM_COUNT
  pub max_alarm_count : ℕ

abbrev pub World : Platform → Type 0
World p = p.api.World

pub record State (p : Platform) : Type 0 where
  pub ctl : Controller
  pub world : World p

-- What the other tasks, the job and the robot do while a task sleeps for so many milliseconds.
abbrev pub Environment : Platform → Type 0
Environment p = ℕ → State p → State p
