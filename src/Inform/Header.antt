-- ===== src/Inform/Header.antt =====
-- The header of the job: Ros_InformChecker_CheckHeaderForGroupCombinations and the group lines of
-- Ros_InformChecker_CreateJob, in src/InformCheckerAndGenerator.c.
use motoros.Prelude.{
  ℕ, zero, suc, ◌+◌, ◌-◌, ◌*◌, ◌/◌, ◌%◌, ℤ, pos, negsuc, ◌+ℤ◌, ◌-ℤ◌, Bool, true, false, ◌&&◌, ◌||◌,
  Option, none, some, List, [], ◌∷◌, ◌++◌, ltb, leb, ◌==◌, eqb_ℤ, set, get_or, replicate,
  if◌then◌else◌,
}
use motoros.Data.{CtrlGroup}
use motoros.CtrlGroup.{GroupIds, is_robot}
use motoros.Controller.{strncmp_eq}
use motoros.Inform.{Line, codes, nop, max_job_line_length, read_line}

unfoldable pub starts_with : List ℕ → List ℕ → Bool
starts_with [] cs = true
starts_with (p ∷ ps) [] = false
starts_with (p ∷ ps) (c ∷ cs) = (p == c) && starts_with ps cs

-- `strstr(cs, ps)` found something
unfoldable pub contains : List ℕ → List ℕ → Bool
unfolding starts_with
contains ps [] = starts_with ps []
contains ps (c ∷ cs) = starts_with ps (c ∷ cs) || contains ps cs

abbrev is_digit : ℕ → Bool
is_digit c = leb 48 c && leb c 57

-- The digits from the front, behind the number `n`
unfoldable pub digits : ℕ → List ℕ → ℕ
digits n [] = n
digits n (c ∷ cs) = let rest = digits (10 * n + (c - 48)) cs in if is_digit c then rest else n

abbrev is_space : ℕ → Bool
is_space c = (c == 32) || (leb 9 c && leb c 13)

-- `atoi`, of a number that an int can hold
unfoldable pub atoi : List ℕ → ℤ
unfolding digits
atoi [] = pos 0
atoi (c ∷ cs) =
    let rest = atoi cs in
    if is_space c
    then rest
    else if c == 45
    then pos 0 -ℤ pos (digits 0 cs)
    else if c == 43
    then pos (digits 0 cs)
    else pos (digits 0 (c ∷ cs))

unfoldable pub drop_chars : ℕ → List ℕ → List ℕ
drop_chars zero cs = cs
drop_chars (suc n) [] = []
drop_chars (suc n) (c ∷ cs) = drop_chars n cs

-- Four combinations of three groups each, row by row; -1 is no group. A write behind the table is
-- not followed.
abbrev pub no_combinations : List ℤ
no_combinations = replicate 12 (negsuc 0)

abbrev pub put_group : ℤ → ℤ → List ℤ → List ℤ
put_group (pos i) group table = set table i group
put_group (negsuc i) group table = table

-- rcutils_split: none is a result that is not OK.
module _ (ids : GroupIds) (split : ℕ → List ℕ → Option (List (List ℕ))) where
  abbrev tag_offset : List ℕ → ℤ
  tag_offset tag =
      if contains (codes "RB") tag
      then pos 0
      else if contains (codes "BS") tag
      then pos ids.b1_gid
      else if contains (codes "ST") tag
      then pos ids.s1_gid
      else pos 0

  -- The loop over the tags, for the combination whose row begins at `row`; `j` counts them.
  unfoldable pub put_tags : ℤ → ℕ → List (List ℕ) → List ℤ → List ℤ
  unfolding contains atoi drop_chars
  put_tags row j [] table = table
  put_tags row j (tag ∷ tags) table =
      put_tags row (suc j) tags
        (put_group (row +ℤ pos j) ((atoi (drop_chars 2 tag) -ℤ pos 1) +ℤ tag_offset tag) table)

  abbrev three_times : ℤ → ℤ
  three_times z = z +ℤ (z +ℤ z)

  abbrev pub put_group_tags : ℤ → Option (List (List ℕ)) → List ℤ → Option (List ℤ)
  put_group_tags index none table = none
  put_group_tags index (some tags) table = some (put_tags (three_times index) 0 tags table)

  abbrev pub put_group_words : Option (List (List ℕ)) → List ℤ → Option (List ℤ)
  put_group_words none table = none
  put_group_words (some parts) table =
      put_group_tags (atoi (drop_chars 8 (get_or parts 0 [])) -ℤ pos 1)
        (split 44 (get_or parts 1 [])) table

  -- A line with a label of a group: none if one of its splits fails. The array of the parts is NULL
  -- behind its end in the source; a missing part is empty here.
  unfoldable pub put_group_line : Line → List ℤ → Option (List ℤ)
  unfolding put_tags
  put_group_line l table = put_group_words (split 32 l) table

  -- A split that fails leaves the loop, with the table as it is.
  abbrev pub after_group :
      (List ℤ → List ℕ → Option (List ℤ × List ℕ))
      → List ℤ
      → List ℕ
      → Option (List ℤ)
      → Option (List ℤ × List ℕ)
  after_group later table rest none = some (table, rest)
  after_group later table rest (some t) = later t rest

  -- The body of the loop over the lines, with the rest of the loop
  unfoldable pub header_line :
      (List ℤ → List ℕ → Option (List ℤ × List ℕ))
      → List ℤ
      → Option (Line × List ℕ)
      → Option (List ℤ × List ℕ)
  unfolding put_group_line
  header_line later table none = some (table, [])
  header_line later table (some (l, rest)) =
      if strncmp_eq max_job_line_length l nop
      then some (table, rest)
      else if contains (codes "///GROUP") l
      then after_group later table rest (put_group_line l table)
      else later table rest

  -- The loop over the lines: the table, and what is left behind NOP. `none` is a want of fuel.
  unfoldable pub read_header : ℕ → List ℤ → List ℕ → Option (List ℤ × List ℕ)
  unfolding header_line
  read_header zero table file = none
  read_header (suc n) table file = header_line (read_header n) table (read_line file)

unfoldable pub is_listed : ℕ → List ℤ → Bool
is_listed g [] = false
is_listed g (x ∷ xs) = eqb_ℤ x (pos g) || is_listed g xs

-- The loop over the groups of the controller
unfoldable pub all_listed : List CtrlGroup → List ℤ → Bool
unfolding is_listed
all_listed [] table = true
all_listed (g ∷ gs) table = is_listed g.group_id table && all_listed gs table

-- `%d` of a number; `n` bounds the digits.
unfoldable pub decimal : ℕ → ℕ → List ℕ
decimal zero x = []
decimal (suc n) x =
    let front = decimal n (x / 10) in
    if ltb x 10 then (48 + x) ∷ [] else front ++ ((48 + x % 10) ∷ [])

abbrev pub number : ℕ → List ℕ
number x = decimal 10 x

module _ (ids : GroupIds) where
  abbrev base_tag : Option ℕ → List ℕ
  base_tag none = []
  base_tag (some b) = codes ",BS" ++ number (b - ids.b1_gid + 1)

  -- The group lines of a new job; `k` is the number of the next combination.
  unfoldable pub group_lines : ℕ → List CtrlGroup → List Line
  unfolding decimal is_robot
  group_lines k [] = []
  group_lines k (g ∷ gs) =
      if is_robot ids g
      then (codes "///GROUP"
          ++ (number k
              ++ (codes " RB"
                  ++ (number (g.group_id - ids.r1_gid + 1) ++ base_tag g.base_track_group_id))))
        ∷ group_lines (k + 1) gs
      else if leb ids.s1_gid g.group_id
      then (codes "///GROUP" ++ (number k ++ (codes " ST" ++ number (g.group_id - ids.s1_gid + 1))))
        ∷ group_lines (k + 1) gs
      else group_lines k gs
