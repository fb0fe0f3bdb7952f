-- ===== src/Sched/Spawn/Stack.antt =====
-- The initial user stack of `sched_create_process`: the name of the program, 16 random bytes, and
-- the words of `argc`, `argv`, `envp` and the auxiliary vector.
use utms.Base.{ℕ, ◌+◌, ◌-◌, ◌*◌, ◌/◌, ◌%◌, ◌≤◌, ◌<◌, ◌≡◌, arith, List, [], ◌∷◌}

abbrev pub user_stack_top : ℕ
user_stack_top = 0x4000000000

-- Where the name goes; `n` is its length, less the NUL.
abbrev pub name_ptr : ℕ → ℕ
name_ptr n = user_stack_top - (n + 1)

abbrev pub random_ptr : ℕ → ℕ
random_ptr n = name_ptr n - 16

unfoldable pub initial_rsp : ℕ → ℕ
initial_rsp n = (random_ptr n - 96) / 16 * 16

-- The words written from `rsp` on, as offsets and values.
unfoldable pub stack_words : ℕ → ℕ → List (ℕ × ℕ)
stack_words n entry =
    (0, 1)
    ∷ (8, name_ptr n)
    ∷ (16, 0)
    ∷ (24, 0)
    ∷ (32, 6)
    ∷ (40, 4096)
    ∷ (48, 25)
    ∷ (56, random_ptr n)
    ∷ (64, 9)
    ∷ (72, entry)
    ∷ (80, 0)
    ∷ (88, 0)
    ∷ []

-- For a name of fewer than 200,000 bytes the stack pointer is aligned to 16 bytes; the twelve words
-- lie below the random bytes, these below the name, and all of it in the 64 pages mapped for the
-- stack.
pub initial_rsp_layout :
    (n : ℕ)
    → n < 200000
    → (initial_rsp n % 16 ≡ 0)
      × (initial_rsp n + 96 ≤ random_ptr n)
      × (random_ptr n + 16 ≡ name_ptr n)
      × (name_ptr n + n < user_stack_top)
      × (user_stack_top - 64 * 4096 ≤ initial_rsp n)
unfolding initial_rsp
initial_rsp_layout n h = omega arith
