-- ===== src/Inform.antt =====
-- The INFORM job that the robot waits in: src/InformCheckerAndGenerator.c, with the reading and
-- writing of lines of src/FileUtilityFunctions.c. Characters are numbers; a file has no NUL.
pub mod Header
pub mod Job
pub mod Read
pub mod Listed
pub mod Ends
mod Tests
use Prim.Native.Char.{code}
use Prim.Native.String.{String}
use motoros.Prelude.{
  ℕ, zero, suc, ◌+◌, ◌-◌, Bool, true, false, ◌&&◌, Option, none, some, List, [], ◌∷◌, ◌++◌, length,
  ◌==◌, if◌then◌else◌,
}
use motoros.MotoPlus.{Model, dx100, fs100, dx200, yrc1000, yrc1000u}

abbrev pub codes : String → List ℕ
codes String.[] = []
codes (String.◌∷◌ c s) = code c ∷ codes s

abbrev pub Line : Type 0
Line = List ℕ

-- MAX_JOB_LINE_LENGTH
abbrev pub max_job_line_length : ℕ
max_job_line_length = 512

-- "\r\n"
abbrev pub eol : List ℕ
eol = 13 ∷ 10 ∷ []

abbrev pub put_before : ℕ → Option (Line × List ℕ) → Option (Line × List ℕ)
put_before c none = none
put_before c (some (l, rest)) = some (c ∷ l, rest)

-- The first end of a line among the next `n` characters: what stands before it, and behind it.
unfoldable pub find_eol : ℕ → List ℕ → Option (Line × List ℕ)
find_eol zero cs = none
find_eol (suc n) [] = none
find_eol (suc n) (c ∷ []) = none
find_eol (suc zero) (c ∷ d ∷ cs) = none
find_eol (suc (suc n)) (c ∷ d ∷ cs) =
    let rest = put_before c (find_eol (suc n) (d ∷ cs)) in
    if (c == 13) && (d == 10) then some ([], cs) else rest

-- The buffer as it was read, if no line ends in it; then the next read begins behind the buffer.
unfoldable pub split_at : ℕ → List ℕ → Line × List ℕ
split_at zero cs = ([], cs)
split_at (suc n) [] = ([], [])
split_at (suc n) (c ∷ cs) = (c ∷ (split_at n cs).0, (split_at n cs).1)

abbrev pub found_or : Line × List ℕ → Option (Line × List ℕ) → Line × List ℕ
found_or buffer none = buffer
found_or buffer (some r) = r

-- FileUtilityFunctions_ReadLine, with a buffer of `size` characters, on the characters that are left:
-- false at the end of the file, or the line and what is left.
abbrev pub read_buffer : ℕ → List ℕ → Option (Line × List ℕ)
read_buffer size [] = none
read_buffer size (c ∷ cs) = some (found_or (split_at size (c ∷ cs)) (find_eol size (c ∷ cs)))

unfoldable pub read_line : List ℕ → Option (Line × List ℕ)
unfolding find_eol split_at
read_line file = read_buffer max_job_line_length file

-- FileUtilityFunctions_WriteLine, of a line that fits the buffer
unfoldable pub write_lines : List Line → List ℕ
write_lines [] = []
write_lines (l ∷ ls) = l ++ (eol ++ write_lines ls)

-- The TIMER instruction has two or three digits; the program is not built for the DX100.
abbrev pub timer_line : Model → Line
timer_line dx100 = codes "TIMER T=0.05"
timer_line dx200 = codes "TIMER T=0.05"
timer_line yrc1000 = codes "TIMER T=0.05"
timer_line fs100 = codes "TIMER T=0.050"
timer_line yrc1000u = codes "TIMER T=0.050"

-- rosInitJobLines behind its first line
unfoldable pub instructions : Model → List Line
instructions m =
    codes "DOUT OT#(890) OFF"
    ∷ codes "DOUT OT#(889) OFF"
    ∷ timer_line m
    ∷ codes "DOUT OT#(889) ON"
    ∷ codes "WAIT OT#(890)=ON"
    ∷ codes "DOUT OT#(890) OFF"
    ∷ codes "DOUT OT#(889) OFF"
    ∷ codes "END"
    ∷ []

abbrev pub nop : Line
nop = codes "NOP"

-- rosInitJobLines
unfoldable pub ros_init_job_lines : Model → List Line
unfolding instructions
ros_init_job_lines m = nop ∷ instructions m
