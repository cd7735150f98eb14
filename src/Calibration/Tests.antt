-- ===== src/Calibration/Tests.antt =====
-- A file with one record: the second robot is calibrated to the first.
use motoros.Prelude.{
  ℕ, ◌+◌, ◌≡◌, refl, Bool, true, ◌&&◌, not, Option, none, some, List, [], ◌∷◌, ◌==◌, leb, length,
  suc, arith, if◌then◌else◌,
}
use motoros.Data.{Double, no_coord}
use motoros.Inform.{Line, codes}
use motoros.Inform.Header.{atoi, digits, contains, starts_with}
use motoros.Inform.Read.{IsPlain}
use motoros.Startup.Initialize.{CalibData}
use motoros.Calibration.{no_files, read_records}
use motoros.Calibration.Lines.{
  IsShort, Entry, IsEntry, file_text, put_entries, read_records-put_entries,
}
use motoros.Calibration.Ends.{Ends, read_records-Ends}
use motoros.Sample.Robot.{whole_fpu}

abbrev add_to_first : ℕ → List (List ℕ) → List (List ℕ)
add_to_first c [] = (c ∷ []) ∷ []
add_to_first c (w ∷ ws) = (c ∷ w) ∷ ws

-- The parts between the delimiters `d`
abbrev parts_of : ℕ → List ℕ → List (List ℕ)
parts_of d [] = []
parts_of d (c ∷ cs) = let rest = parts_of d cs in if c == d then [] ∷ rest else add_to_first c rest

abbrev split : ℕ → List ℕ → Option (List (List ℕ))
split d cs = some (parts_of d cs)

-- The digits of a number
abbrev whole_number : List ℕ → Double
whole_number cs = digits 0 cs

abbrev is_plain : List ℕ → Bool
is_plain [] = true
is_plain (c ∷ cs) = not (c == 13) && is_plain cs

is_plain-IsPlain : (cs : List ℕ) → is_plain cs ≡ true → IsPlain cs
is_plain-IsPlain [] h = tt
is_plain-IsPlain (c ∷ cs) h = (ground arith, is_plain-IsPlain cs (ground arith))

short : (l : Line) → is_plain l ≡ true → leb (length l + 2) 256 ≡ true → IsShort l
short l plain fits = (is_plain-IsPlain l plain, ground arith)

abbrev entry : Entry
entry = record {
  head = codes "//RBCALIB 2";
  tool = codes "//MTOOL 0";
  mgroup = codes "//MGROUP 1,0";
  behind_mgroup =
      codes "//MPULSE"
      ∷ codes "//MRBC1"
      ∷ codes "//MRBC2"
      ∷ codes "//MRBC3"
      ∷ codes "//STOOL 0"
      ∷ [];
  sgroup = codes "//SGROUP 0,1";
  behind_sgroup = codes "//SPULSE" ∷ codes "//SSTC1" ∷ codes "//SSTC2" ∷ codes "//SSTC3" ∷ [];
  srang = codes "//SRANG 1,2,3,4,5,6";
  words = codes "//RBCALIB" ∷ codes "2" ∷ [];
  master_flags = codes "1" ∷ codes "0" ∷ [];
  slave_flags = codes "0" ∷ codes "1" ∷ [];
  master = 0;
  slave = 1;
  x = codes "1";
  y = codes "2";
  z = codes "3";
  rx = codes "4";
  ry = codes "5";
  rz = codes "6";
  more = [];
}

entry-IsEntry : IsEntry whole_fpu split whole_number entry
unfolding contains starts_with atoi digits
entry-IsEntry = record {
  short_head = short entry.head refl refl;
  short_tool = short entry.tool refl refl;
  short_mgroup = short entry.mgroup refl refl;
  short_behind_mgroup = (
    short (codes "//MPULSE") refl refl,
    (
      short (codes "//MRBC1") refl refl,
      (
        short (codes "//MRBC2") refl refl,
        (short (codes "//MRBC3") refl refl, (short (codes "//STOOL 0") refl refl, tt)),
      ),
    ),
  );
  five = refl;
  short_sgroup = short entry.sgroup refl refl;
  short_behind_sgroup = (
    short (codes "//SPULSE") refl refl,
    (
      short (codes "//SSTC1") refl refl,
      (short (codes "//SSTC2") refl refl, (short (codes "//SSTC3") refl refl, tt)),
    ),
  );
  four = refl;
  short_srang = short entry.srang refl refl;
  begins = refl;
  split_head = refl;
  split_mgroup = refl;
  split_sgroup = refl;
  split_srang = refl;
  marks_master = (refl, omega arith);
  marks_slave = ((λ e. absurd (cc e), refl), omega arith);
}

abbrev raw : CalibData
raw = record { master = 9; slave = 9; place = no_coord }

read_records-put_entries_example :
    read_records whole_fpu split whole_number 2 raw (file_text (entry ∷ [])) no_files
    ≡ some (put_entries whole_fpu split whole_number (entry ∷ []) no_files, none)
read_records-put_entries_example =
    read_records-put_entries whole_fpu split whole_number raw (entry ∷ []) no_files
      (entry-IsEntry, tt)

read_records-Ends_example : Ends (
    read_records whole_fpu split whole_number
      (suc (length (file_text (entry ∷ []))))
      raw
      (file_text (entry ∷ []))
      no_files)
read_records-Ends_example =
    read_records-Ends whole_fpu split whole_number (suc (length (file_text (entry ∷ [])))) raw
      (file_text (entry ∷ [])) no_files (omega arith)
