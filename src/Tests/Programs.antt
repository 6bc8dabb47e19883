-- ===== src/Tests/Programs.antt =====
-- Short passwords, and a round of init.
use klyx.Prelude.{ℕ, ◌≡◌, List, [], ◌∷◌, some, refl, arith}
use klyx.Prelude.{◌≢◌, update}
use klyx.Machine.Outcome.{returned}
use klyx.Sched.Task.{Kernel, no_task, fresh_task}
use klyx.Tests.World.{print_mark, no_env, world, table, call, symbols}
use klyx.Programs.Init.{respawn_all}
use klyx.Programs.Respawn.{Refilled, respawn_all-Refilled}
use klyx.Prelude.{Bool, true, ◌↔◌}
use klyx.Programs.Enc.{enc}
use klyx.Programs.Password.{enc-decides}
use klyx.Programs.Crypt.{crypt}
use klyx.Programs.Cipher.{crypt-length}

abbrev password : List ℕ
password = b'p' ∷ b'w' ∷ []

abbrev mistyped : List ℕ
mistyped = b'p' ∷ b's' ∷ []

enc-decides_example :
    (b : Bool) × (enc (b'K' ∷ b'L' ∷ b'Y' ∷ b'X' ∷ []) password mistyped (λ _. 0) ≡ some b)
    × ((b ≡ true) ↔ (password ≡ mistyped))
enc-decides_example =
    enc-decides (b'K' ∷ b'L' ∷ b'Y' ∷ b'X' ∷ []) password mistyped (λ _. 0)
      (
        omega arith,
        omega arith,
        (omega arith, omega arith, (omega arith, omega arith, (omega arith, omega arith, tt))),
      )
      (omega arith, omega arith, (omega arith, omega arith, tt))
      (omega arith, omega arith, (omega arith, omega arith, tt)) (omega arith) (omega arith)
      (omega arith) (omega arith) (omega arith)

crypt-length_example :
    crypt (some (b'a' ∷ b'b' ∷ [])) (some (b'p' ∷ b'w' ∷ []))
    ≡ crypt (some (b'x' ∷ b'y' ∷ [])) (some (b'p' ∷ b'w' ∷ []))
crypt-length_example =
    crypt-length (b'a' ∷ b'b' ∷ []) (b'x' ∷ b'y' ∷ []) (b'p' ∷ b'w' ∷ [])
      (omega arith, omega arith, (omega arith, omega arith, tt))
      (omega arith, omega arith, (omega arith, omega arith, tt))
      (omega arith, omega arith, (omega arith, omega arith, tt)) refl

-- The first shell has ended; of the others, slot 3 is empty too.
abbrev ended : Kernel
ended = record (world 0) { tasks = update table 1 no_task }

respawn_all-Refilled_example :
    (k' : Kernel) × (respawn_all print_mark no_env (call 0 0 0) symbols ended ≡ returned k')
    × Refilled 1 0x15100 0 ended k'
    × Refilled 3 0x15100 2 ended k'
    × Refilled 4 0x15300 3 ended k'
    × ((j : ℕ) → j ≢ 1 → j ≢ 3 → j ≢ 4 → k'.tasks j ≡ ended.tasks j)
unfolding fresh_task
respawn_all-Refilled_example =
    respawn_all-Refilled print_mark no_env (call 0 0 0) symbols ended refl refl
