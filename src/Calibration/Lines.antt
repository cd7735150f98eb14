-- ===== src/Calibration/Lines.antt =====
-- What the reading of RBCALIB.DAT of src/Ros_mpGetRobotCalibrationData.c gives for a file of records, and
-- that it ends.
use motoros.Prelude.{
  ℕ, zero, suc, ◌+◌, ◌≤◌, ◌<◌, ◌≡◌, refl, ap, ◌∙◌, ℤ, pos, ◌-ℤ◌, true, Option, none, some, List, [],
  ◌∷◌, ◌++◌, get_or, length, arith,
}
use motoros.Data.{Double}
use motoros.Fpu.{Fpu}
use motoros.Inform.{Line, codes}
use motoros.Inform.Header.{atoi, contains}
use motoros.Inform.Read.{IsPlain, read_buffer-append}
use motoros.Calibration.Flags.{IsFirst, first_flag-IsFirst}
use motoros.Startup.Initialize.{CalibData}
use motoros.Calibration.{
  Files, put_file, line_or_empty, next_line, skip_lines, first_flag, or_old, Turn, goes_on,
  comma_parts, take_place, take_slave, take_master, take_number, read_srang, read_sgroup,
  read_mgroup, read_record, after_record, read_turn, read_records,
}

-- A line that fits the buffer together with its end
abbrev pub IsShort : Line → Type 0
IsShort l = IsPlain l × (length l + 2 ≤ 256)

abbrev pub AllShort : List Line → Type 0
AllShort [] = Unit
AllShort (l ∷ ls) = IsShort l × AllShort ls

-- The lines, each with its end, and what stands behind them
abbrev pub text : List Line → List ℕ → List ℕ
text [] rest = rest
text (l ∷ ls) rest = l ++ (13 ∷ 10 ∷ text ls rest)

next_line-text :
    (l : Line) (rest : List ℕ) → IsShort l → next_line (l ++ (13 ∷ 10 ∷ rest)) ≡ (l, rest)
next_line-text l rest h = ap line_or_empty (read_buffer-append 256 l rest h.0 h.1)

skip_lines-text :
    (ls : List Line) (rest : List ℕ) (n : ℕ)
    → AllShort ls
    → length ls ≡ n
    → skip_lines n (text ls rest) ≡ rest
unfolding skip_lines
skip_lines-text [] rest zero h e = refl
skip_lines-text [] rest (suc n) h e = absurd (omega (arith, e))
skip_lines-text (l ∷ ls) rest zero h e = absurd (omega (arith, e))
skip_lines-text (l ∷ ls) rest (suc n) h e =
    ap (λ (r : Line × List ℕ). skip_lines n r.1) (next_line-text l (text ls rest) h.0)
    ∙ skip_lines-text ls rest n h.1 (omega (arith, e))

-- A record of the file: the lines that are used, with those that are not used between them, the words
-- and flags into which they are split, the groups that are the master and the slave, and the six
-- parts of the last line, with what may follow them
pub record Entry : Type 0 where
  pub head : Line
  pub tool : Line
  pub mgroup : Line
  pub behind_mgroup : List Line
  pub sgroup : Line
  pub behind_sgroup : List Line
  pub srang : Line
  pub words : List (List ℕ)
  pub master_flags : List (List ℕ)
  pub slave_flags : List (List ℕ)
  pub master : ℕ
  pub slave : ℕ
  pub x : List ℕ
  pub y : List ℕ
  pub z : List ℕ
  pub rx : List ℕ
  pub ry : List ℕ
  pub rz : List ℕ
  pub more : List (List ℕ)

abbrev pub entry_text : Entry → List ℕ → List ℕ
entry_text e rest = text (e.tool ∷ []) (
    text (e.mgroup ∷ []) (
      text e.behind_mgroup
        (text (e.sgroup ∷ []) (text e.behind_sgroup (text (e.srang ∷ []) rest)))))

-- A file of such records
abbrev pub file_text : List Entry → List ℕ
file_text [] = []
file_text (e ∷ es) = e.head ++ (13 ∷ 10 ∷ entry_text e (file_text es))

module _ (fpu : Fpu) (split : ℕ → List ℕ → Option (List (List ℕ))) (strtod : List ℕ → Double) where
  pub record IsEntry (e : Entry) : Type 0 where
    pub short_head : IsShort e.head
    pub short_tool : IsShort e.tool
    pub short_mgroup : IsShort e.mgroup
    pub short_behind_mgroup : AllShort e.behind_mgroup
    pub five : length e.behind_mgroup ≡ 5
    pub short_sgroup : IsShort e.sgroup
    pub short_behind_sgroup : AllShort e.behind_sgroup
    pub four : length e.behind_sgroup ≡ 4
    pub short_srang : IsShort e.srang
    pub begins : contains (codes "//RBCALIB") e.head ≡ true
    pub split_head : split 32 e.head ≡ some e.words
    pub split_mgroup : comma_parts fpu split strtod e.mgroup ≡ some e.master_flags
    pub split_sgroup : comma_parts fpu split strtod e.sgroup ≡ some e.slave_flags
    pub split_srang :
        comma_parts fpu split strtod e.srang ≡ some (e.x ∷ e.y ∷ e.z ∷ e.rx ∷ e.ry ∷ e.rz ∷ e.more)
    pub marks_master : IsFirst e.master_flags e.master × (e.master < 32)
    pub marks_slave : IsFirst e.slave_flags e.slave × (e.slave < 32)

  abbrev pub AllEntries : List Entry → Type 0
  AllEntries [] = Unit
  AllEntries (e ∷ es) = IsEntry e × AllEntries es

  -- A number of the file as an integer, in thousandths or ten thousandths
  abbrev pub in_units : ℕ → List ℕ → ℤ
  in_units unit part = fpu.to_int (fpu.mul (strtod part) (fpu.of_int (pos unit)))

  -- The data that a record gives
  abbrev pub entry_data : Entry → CalibData
  entry_data e = record {
    master = e.master;
    slave = e.slave;
    place = record {
      x = in_units 1000 e.x;
      y = in_units 1000 e.y;
      z = in_units 1000 e.z;
      rx = in_units 10000 e.rx;
      ry = in_units 10000 e.ry;
      rz = in_units 10000 e.rz;
    };
  }

  abbrev pub put_entries : List Entry → Files → Files
  put_entries [] files = files
  put_entries (e ∷ es) files =
      put_entries es (put_file (atoi (get_or e.words 1 []) -ℤ pos 1) (entry_data e) files)

  module _ (raw : CalibData) (files : Files) (e : Entry) (rest : List ℕ) (h : IsEntry e) where
    abbrev index_of : ℤ
    index_of = atoi (get_or e.words 1 []) -ℤ pos 1

    first_of :
        (flags : List (List ℕ)) (x : ℕ)
        → IsFirst flags x × (x < 32)
        → first_flag flags 32 0 ≡ some x
    first_of flags x (first, small) =
        first_flag-IsFirst flags flags 32 0 x (λ k. ap (λ (j : ℕ). get_or flags j []) (omega arith))
          first small
        ∙ ap some (omega arith)

    master_lem : first_flag e.master_flags 32 0 ≡ some e.master
    master_lem = first_of e.master_flags e.master h.marks_master

    slave_lem : first_flag e.slave_flags 32 0 ≡ some e.slave
    slave_lem = first_of e.slave_flags e.slave h.marks_slave

    read_srang-text :
        (d : CalibData)
        → read_srang fpu split strtod files index_of d (next_line (text (e.srang ∷ []) rest))
          ≡ goes_on (put_file index_of (record d { place = (entry_data e).place }) files) rest
    read_srang-text d =
        ap (read_srang fpu split strtod files index_of d)
          (next_line-text e.srang rest h.short_srang)
        ∙ ap (take_place fpu split strtod files index_of d rest) h.split_srang

    read_sgroup-text :
        (d : CalibData) {r : Turn}
        → read_srang fpu split strtod files index_of
            (record d { slave = e.slave })
            (next_line (text (e.srang ∷ []) rest))
          ≡ r
        → read_sgroup fpu split strtod files index_of d
            (next_line (text (e.sgroup ∷ []) (text e.behind_sgroup (text (e.srang ∷ []) rest))))
          ≡ r
    read_sgroup-text d next =
        let last = text (e.srang ∷ []) rest in
        ap (read_sgroup fpu split strtod files index_of d)
          (next_line-text e.sgroup (text e.behind_sgroup last) h.short_sgroup)
        ∙ ap (take_slave fpu split strtod files index_of d (text e.behind_sgroup last))
            h.split_sgroup
        ∙ ap
            (λ (o : Option ℕ).
              read_srang fpu split strtod files index_of (record d { slave = or_old o d.slave })
                (next_line (skip_lines 4 (text e.behind_sgroup last))))
            slave_lem
        ∙ ap
            (λ (left : List ℕ).
              read_srang fpu split strtod files index_of (record d { slave = e.slave })
                (next_line left))
            (skip_lines-text e.behind_sgroup last 4 h.short_behind_sgroup h.four)
        ∙ next

    read_mgroup-text :
        {r : Turn}
        → read_sgroup fpu split strtod files index_of
            (record raw { master = e.master })
            (next_line (text (e.sgroup ∷ []) (text e.behind_sgroup (text (e.srang ∷ []) rest))))
          ≡ r
        → read_mgroup fpu split strtod files index_of raw (
            next_line (
              text (e.mgroup ∷ []) (
                text e.behind_mgroup
                  (text (e.sgroup ∷ []) (text e.behind_sgroup (text (e.srang ∷ []) rest))))))
          ≡ r
    read_mgroup-text next =
        let last = text (e.sgroup ∷ []) (text e.behind_sgroup (text (e.srang ∷ []) rest)) in
        ap (read_mgroup fpu split strtod files index_of raw)
          (next_line-text e.mgroup (text e.behind_mgroup last) h.short_mgroup)
        ∙ ap (take_master fpu split strtod files index_of raw (text e.behind_mgroup last))
            h.split_mgroup
        ∙ ap
            (λ (o : Option ℕ).
              read_sgroup fpu split strtod files index_of
                (record raw { master = or_old o raw.master })
                (next_line (skip_lines 5 (text e.behind_mgroup last))))
            master_lem
        ∙ ap
            (λ (left : List ℕ).
              read_sgroup fpu split strtod files index_of (record raw { master = e.master })
                (next_line left))
            (skip_lines-text e.behind_mgroup last 5 h.short_behind_mgroup h.five)
        ∙ next

    read_record-text :
        read_record fpu split strtod raw files (e.head, entry_text e rest)
        ≡ goes_on (put_file index_of (entry_data e) files) rest
    unfolding read_record
    read_record-text =
        let last = text (e.mgroup ∷ []) (
          text e.behind_mgroup
            (text (e.sgroup ∷ []) (text e.behind_sgroup (text (e.srang ∷ []) rest)))) in
        ap (take_number fpu split strtod raw files (entry_text e rest)) h.split_head
        ∙ ap (λ (left : List ℕ). read_mgroup fpu split strtod files index_of raw (next_line left))
            (skip_lines-text (e.tool ∷ []) last 1 (h.short_tool, tt) refl)
        ∙ read_mgroup-text (read_sgroup-text _ (read_srang-text _))

  -- A file of records whose fourteen lines fit the buffer and can be split, each with a flag of a
  -- master and of a slave that is 1, among the first 32, and with six coordinates, is read with one
  -- turn for each record and one more, without an alarm: each record sets the file that it numbers
  -- to the group of its first master flag that is 1, the group of its first slave flag that is 1, and
  -- its coordinates, the first three in thousandths and the others in ten thousandths; a later
  -- record of the same number wins.
  pub read_records-put_entries :
      (raw : CalibData) (es : List Entry) (files : Files)
      → AllEntries es
      → read_records fpu split strtod (suc (length es)) raw (file_text es) files
        ≡ some (put_entries es files, none)
  unfolding read_records
  read_records-put_entries raw [] files h = refl
  read_records-put_entries raw (e ∷ es) files (h, hs) =
      let rest = file_text es in
      let later = read_records fpu split strtod (suc (length es)) raw in
      ap (read_turn fpu split strtod later raw files)
        (read_buffer-append 256 e.head (entry_text e rest) h.short_head.0 h.short_head.1)
      ∙ rw h.begins (
          ap (after_record fpu split strtod later) (read_record-text raw files e rest h)
          ∙ read_records-put_entries raw es _ hs)
