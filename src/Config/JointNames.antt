-- ===== src/Config/JointNames.antt =====
-- Where the names of the joints in the configuration file go: Ros_ConfigFile_CheckYamlEvent of
-- src/ConfigFile.c.
use motoros.Prelude.{
  ℕ, ◌+◌, ◌-◌, ◌*◌, ◌≤◌, ◌≡◌, refl, ap, ◌∙◌, ℤ, pos, ◌+ℤ◌, ◌-ℤ◌, Option, none, some, List, [], ◌∷◌,
  length, get_or, get_elem?, arith,
}
use motoros.MotoPlus.{Model}
use motoros.Controller.{strncmp_eq}
use motoros.Inform.{codes}
use motoros.Config.{Settings, ConfigAlarm}
use motoros.Config.NameTable.{AllNamed, AllGroups, put_names, put_groups, put_groups-at}
use motoros.Config.Items.{value_joint_name_array}
use motoros.Config.Yaml.{
  Parser, YamlEvent, scalar, sequence_start, sequence_end, write_name, set_value, check_yaml_event,
  check_yaml_events,
}

-- The events of a list of names, and of a list of such lists
abbrev pub name_events : List (List ℕ) → List YamlEvent → List YamlEvent
name_events [] rest = sequence_end ∷ rest
name_events (n ∷ ns) rest = scalar n ∷ name_events ns rest

abbrev pub group_events : List (List (List ℕ)) → List YamlEvent → List YamlEvent
group_events [] rest = sequence_end ∷ rest
group_events (g ∷ gs) rest = sequence_start ∷ name_events g (group_events gs rest)

-- The state inside the list of the joint names
abbrev reading : Settings → List ConfigAlarm → List (List ℕ) → ℤ → ℕ → ℕ → Option Parser
reading s al js depth named next = some (record {
  settings = record s { joint_names = js };
  active_item = some value_joint_name_array;
  nested_list_counter = depth;
  named = named;
  next_joint = next;
  alarms = al;
})

module _ (m : Model) (s : Settings) (al : List ConfigAlarm) where
  reading-same :
      (js : List (List ℕ)) (depth : ℤ) {n n' x x' : ℕ} (rest : List YamlEvent)
      → n ≡ n'
      → x ≡ x'
      → check_yaml_events m (reading s al js depth n x) rest
        ≡ check_yaml_events m (reading s al js depth n' x') rest
  reading-same js depth {n} {n'} {x} {x'} rest e f =
      ap (λ (k : ℕ). check_yaml_events m (reading s al js depth k x) rest) e
      ∙ ap (λ (k : ℕ). check_yaml_events m (reading s al js depth n' k) rest) f

  -- A list of names is written, and the next entry is eight behind the first one.
  check_yaml_events-names :
      (ns js : List (List ℕ)) (named next : ℕ) (rest : List YamlEvent)
      → AllNamed ns
      → check_yaml_events m (reading s al js (pos 2) named next) (name_events ns rest)
        ≡ check_yaml_events m
            (reading s al
              (put_names next ns js)
              (pos 1)
              (named + length ns)
              (((next + length ns) + 8) - (named + length ns)))
            rest
  unfolding check_yaml_events check_yaml_event set_value ◌-ℤ◌
  check_yaml_events-names [] js named next rest all =
      reading-same js (pos 1) rest (omega arith) (omega arith)
  check_yaml_events-names ([] ∷ ns) js named next rest all = absurd (all.0 refl)
  check_yaml_events-names ((c ∷ cs) ∷ ns) js named next rest all =
      check_yaml_events-names ns (write_name next (c ∷ cs) js) (named + 1) (next + 1) rest all.2
      ∙ reading-same (put_names (next + 1) ns (write_name next (c ∷ cs) js)) (pos 1) rest
          (omega arith) (omega arith)

  check_yaml_events-groups :
      (gs : List (List (List ℕ))) (js : List (List ℕ)) (named next : ℕ) (rest : List YamlEvent)
      → AllGroups gs
      → (named' : ℕ) × (next' : ℕ) × (check_yaml_events m
            (reading s al js (pos 1) named next)
            (group_events gs rest)
          ≡ check_yaml_events m
              (some (record {
                settings = record s { joint_names = put_groups next gs js };
                active_item = none;
                nested_list_counter = pos 0;
                named = named';
                next_joint = next';
                alarms = al;
              }))
              rest)
  unfolding check_yaml_events check_yaml_event ◌+ℤ◌ ◌-ℤ◌
  check_yaml_events-groups [] js named next rest all = (_, _, refl)
  check_yaml_events-groups (g ∷ gs) js named next rest all =
      let (n, x, ih) =
        check_yaml_events-groups gs (put_names next g js) (length g) (next + 8) rest all.2 in
      (
        n,
        x,
        check_yaml_events-names g js 0 next (group_events gs rest) all.0
            ∙ reading-same (put_names next g js) (pos 1) (group_events gs rest) (omega arith)
                (omega arith)
            ∙ ih,
      )

-- The events of the key and the lists of the names
abbrev pub joint_events : List (List (List ℕ)) → List YamlEvent
joint_events gs = scalar (codes "joint_names") ∷ sequence_start ∷ group_events gs []

-- No item is active, and no list has been read.
abbrev pub idle : Settings → List ConfigAlarm → Parser
idle s alarms = record {
  settings = s;
  active_item = none;
  nested_list_counter = pos 0;
  named = 0;
  next_joint = 0;
  alarms = alarms;
}

abbrev pub InPlace : List (List (List ℕ)) → List (List ℕ) → Type 0
InPlace groups js =
    (g i : ℕ) (names : List (List ℕ)) (name : List ℕ)
    → get_elem? groups g ≡ some names
    → get_elem? names i ≡ some name
    → get_or js (8 * g + i) [] ≡ name

-- From a handler in which no item is active and no list has been read, and with room in joint_names
-- for eight names of each group: the events of the key joint_names and a list of groups of at most
-- eight names, each of one to 31 characters, are taken without the use of a NULL pointer, leave no
-- item active, and the name i of group g then stands in the entry 8 * g + i of joint_names.
pub check_yaml_events-joint_names :
    (m : Model) (s : Settings) (alarms : List ConfigAlarm) (groups : List (List (List ℕ)))
    → 8 * length groups ≤ length s.joint_names
    → AllGroups groups
    → (q : Parser) × (check_yaml_events m (some (idle s alarms)) (joint_events groups) ≡ some q)
      × (q.active_item ≡ none)
      × InPlace groups q.settings.joint_names
unfolding check_yaml_events check_yaml_event strncmp_eq ◌+ℤ◌
check_yaml_events-joint_names m s alarms groups room all =
    let js = s.joint_names in
    let (n, x, e) = check_yaml_events-groups m s alarms groups js 0 0 [] all in
    (
      _,
      e,
      refl,
      λ g i names name at here.
          ap (λ (j : ℕ). get_or (put_groups 0 groups js) j []) (omega arith)
          ∙ put_groups-at 0 groups js g i all (omega (arith, room)) at here,
    )
