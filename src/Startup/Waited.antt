-- ===== src/Startup/Waited.antt =====
-- The ticks between two turns of the loop of src/main.c.
use motoros.Prelude.{ℕ, ◌+◌, ◌-◌, ◌%◌, ◌^◌, ◌<◌, ◌≡◌, arith}
use motoros.Startup.Cycle.{tick_difference}

-- The ticks from one count to the other, both of 32 bits
abbrev ticks_between : ℕ → ℕ → ℕ
ticks_between before now = (now + 2 ^ 32 - before) % 2 ^ 32

tick_difference-ticks_between :
    (before now : ℕ)
    → before < 2 ^ 32
    → now < 2 ^ 32
    → (before < now → tick_difference before now ≡ ticks_between before now)
      × (now < before → tick_difference before now + 1 ≡ ticks_between before now)
unfolding tick_difference
tick_difference-ticks_between before now b n = (λ l. ground arith, λ l. ground arith)
