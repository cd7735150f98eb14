-- ===== src/Config/Loaded.antt =====
-- The copy of the configuration is complete, and the wait for the file ends: src/ConfigFile.c.
use motoros.Prelude.{
  ℕ, zero, suc, ◌+◌, ◌≤◌, ◌≡◌, refl, sym, ap, ◌∙◌, Bool, true, false, none, some, List, [], ◌∷◌,
  ◌++◌, length, arith, replicate,
}
use motoros.MotoPlus.{Model}
use motoros.Inform.{split_at}
use motoros.Config.Yaml.{Parser, YamlEvent, check_yaml_events}
use motoros.Config.Load.{
  FileAlarm, Drives, then_copy, copy_chunks, check_usb_for_new_config_file, Try, alarm_once,
  with_file_alarms, parse_file,
}

split_at-append : (n : ℕ) (cs : List ℕ) → (split_at n cs).0 ++ (split_at n cs).1 ≡ cs
unfolding split_at
split_at-append zero cs = refl
split_at-append (suc n) [] = refl
split_at-append (suc n) (c ∷ cs) = ap (λ (xs : List ℕ). c ∷ xs) (split_at-append n cs)

split_at-le : (n : ℕ) (cs : List ℕ) → length (split_at n cs).1 ≤ length cs
unfolding split_at
split_at-le zero cs = omega arith
split_at-le (suc n) [] = omega arith
split_at-le (suc n) (c ∷ cs) = omega (arith, split_at-le n cs)

split_at-shorter : (n c : ℕ) (cs : List ℕ) → length (split_at (suc n) (c ∷ cs)).1 ≤ length cs
unfolding split_at
split_at-shorter n c cs = split_at-le n cs

append_assoc : (xs ys zs : List ℕ) → (xs ++ ys) ++ zs ≡ xs ++ (ys ++ zs)
append_assoc [] ys zs = refl
append_assoc (x ∷ xs) ys zs = ap (λ (l : List ℕ). x ∷ l) (append_assoc xs ys zs)

append_nil : (xs : List ℕ) → xs ++ [] ≡ xs
append_nil [] = refl
append_nil (x ∷ xs) = ap (λ (l : List ℕ). x ∷ l) (append_nil xs)

-- Every write takes the whole chunk.
abbrev pub TakesAll : (ℕ → List ℕ → Bool × List ℕ) → Type 0
TakesAll write = (i : ℕ) (chunk : List ℕ) → write i chunk ≡ (true, chunk)

module _ (write : ℕ → List ℕ → Bool × List ℕ) where
  copy_chunks-whole :
      (n i : ℕ) (cs out : List ℕ)
      → TakesAll write
      → length cs ≤ n
      → copy_chunks write n i cs out ≡ some (out ++ cs, [])
  unfolding copy_chunks
  copy_chunks-whole n i [] out w h = ap (λ (l : List ℕ). some (l, [])) (sym (append_nil out))
  copy_chunks-whole zero i (c ∷ cs) out w h = absurd (omega arith)
  copy_chunks-whole (suc n) i (c ∷ cs) out w h =
      let r = split_at 1024 (c ∷ cs) in
      ap (then_copy (copy_chunks write n (i + 1) r.1) out) (w i r.0)
      ∙ copy_chunks-whole n (i + 1) r.1 (out ++ r.0) w
          (omega (arith, split_at-shorter 1023 c cs, h))
      ∙ ap (λ (l : List ℕ). some (l, []))
          (append_assoc out r.0 r.1 ∙ ap (λ (l : List ℕ). out ++ l) (split_at-append 1024 (c ∷ cs)))

  -- If the new file can be created and every write takes its whole chunk, the copy from USB ends,
  -- with as many turns as the file has characters: SRAM then holds the file, and the one on USB is
  -- marked as processed.
  pub check_usb_for_new_config_file-copied :
      (n : ℕ) (d : Drives) (file : List ℕ)
      → TakesAll write
      → d.usb ≡ some file
      → length file ≤ n
      → check_usb_for_new_config_file write true n d
        ≡ some (record { usb = none; processed = some file; sram = some file }, [])
  unfolding check_usb_for_new_config_file
  check_usb_for_new_config_file-copied n d file w e h =
      rw (e, copy_chunks-whole n 0 file [] w h) refl

-- The alarm for so many tries that failed
abbrev pub one_alarm : Bool → ℕ → List FileAlarm
one_alarm first zero = []
one_alarm first (suc n) = alarm_once first

once_more : (first : Bool) (n : ℕ) → alarm_once first ++ one_alarm false n ≡ alarm_once first
once_more true zero = refl
once_more true (suc n) = refl
once_more false zero = refl
once_more false (suc n) = refl

parse_file-waits :
    (m : Model) (p : Parser) (first : Bool) (n : ℕ) (events : List YamlEvent) (later : List Try)
    → parse_file m p first (replicate n none ++ (some events ∷ later))
      ≡ some (check_yaml_events m (some p) events, one_alarm first n)
unfolding parse_file
parse_file-waits m p first zero events later = refl
parse_file-waits m p first (suc n) events later =
    ap (with_file_alarms (alarm_once first)) (parse_file-waits m p false n events later)
    ∙ ap (λ (alarms : List FileAlarm). some (check_yaml_events m (some p) events, alarms))
        (once_more first n)
