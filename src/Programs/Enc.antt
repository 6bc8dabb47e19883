-- ===== src/Programs/Enc.antt =====
-- The command `enc` of the shell in kernel/test.c: a password is read, then "the same password", and the
-- two are compared by way of `crypt`. `saver` is the text of include/pass_saver.inc, which is data; `encp`
-- is the static array, with what an earlier run left in it.
use klyx.Prelude.{ℕ, Bool, List, Option, none, some, get_or, update}
use klyx.Prelude.Int.{is_zero}
use klyx.Machine.Memory.{Memory, strcpy, strcmp, strlen}
use klyx.Traps.Debug.{string_at}
use klyx.Programs.Crypt.{crypt}

abbrev pub encp_cap : ℕ
encp_cap = 8192

-- `strcpy(encp, cr); encp[strlen(buf)] = 0;`
abbrev pub first_copy : (cr password : List ℕ) → Memory → Memory
first_copy cr password encp = update (strcpy encp 0 cr) (strlen password) 0

-- `!strcmp(buf, encp)`, with the line that was read in `buf`.
abbrev pub is_same : List ℕ → Memory → Bool
is_same line encp = is_zero (strcmp (λ i. get_or line i 0) 0 (string_at encp_cap encp 0))

-- The second half, with `encp` behind the first one.
unfoldable pub enc_again : (again : List ℕ) → Memory → Option Bool
enc_again again encp = elim (crypt (some again) (some (string_at encp_cap encp 0))) [
  | none ↦ none
  | some cr ↦ some (is_same again (strcpy encp 0 cr))
]

-- Whether the passwords are the same, or `none` if a `goto cend` comes first; `crypt` gives a null pointer
-- for an empty line, as the tests before it do.
unfoldable pub enc : (saver password again : List ℕ) → Memory → Option Bool
enc saver password again encp = elim (crypt (some saver) (some password)) [
  | none ↦ none
  | some cr ↦ enc_again again (first_copy cr password encp)
]
