-- ===== src/Sched/Signal.antt =====
-- include/klyx/signal.h, the signal classes of include/klyx/sched.h, the table `sigtype` of
-- kernel/sched.c and the `switch` of `__flush_signals`.
use klyx.Prelude.{
  ℕ, ◌%◌, ◌^◌, List, [], ◌∷◌, map, bit_or, Option, none, some, String, ◌==◌, if◌then◌else◌,
}

-- The signal numbers.
abbrev pub signope : ℕ
signope = 0

abbrev pub sigabrt : ℕ
sigabrt = 1

abbrev pub sigalrm : ℕ
sigalrm = 2

abbrev pub sigbus : ℕ
sigbus = 3

abbrev pub sigchld : ℕ
sigchld = 4

abbrev pub sigcont : ℕ
sigcont = 5

abbrev pub sigfpe : ℕ
sigfpe = 6

abbrev pub sighup : ℕ
sighup = 7

abbrev pub sigill : ℕ
sigill = 8

abbrev pub sigint : ℕ
sigint = 9

abbrev pub sigkill : ℕ
sigkill = 10

abbrev pub sigpipe : ℕ
sigpipe = 11

abbrev pub sigquit : ℕ
sigquit = 12

abbrev pub sigsegv : ℕ
sigsegv = 13

abbrev pub sigstop : ℕ
sigstop = 14

abbrev pub sigterm : ℕ
sigterm = 15

abbrev pub sigtstp : ℕ
sigtstp = 16

abbrev pub sigttin : ℕ
sigttin = 17

abbrev pub sigttou : ℕ
sigttou = 18

abbrev pub sigusr1 : ℕ
sigusr1 = 19

abbrev pub sigusr2 : ℕ
sigusr2 = 20

abbrev pub sigpoll : ℕ
sigpoll = 21

abbrev pub sigprof : ℕ
sigprof = 22

abbrev pub sigsys : ℕ
sigsys = 23

abbrev pub sigtrap : ℕ
sigtrap = 24

abbrev pub sigurg : ℕ
sigurg = 25

abbrev pub sigvtalrm : ℕ
sigvtalrm = 26

abbrev pub sigxcpu : ℕ
sigxcpu = 27

abbrev pub sigxfsz : ℕ
sigxfsz = 28

abbrev pub sig_count : ℕ
sig_count = 29

-- The classes, octal in the source.
abbrev pub sig_t : ℕ
sig_t = 0o1

abbrev pub sig_a : ℕ
sig_a = 0o2

abbrev pub sig_i : ℕ
sig_i = 0o4

abbrev pub sig_s : ℕ
sig_s = 0o10

abbrev pub sig_c : ℕ
sig_c = 0o20

abbrev pub sig_mh : ℕ
sig_mh = 0o40

abbrev pub sig_ma : ℕ
sig_ma = 0o100

abbrev pub sig_md : ℕ
sig_md = 0o200

abbrev pub sig_mi : ℕ
sig_mi = 0o400

-- The initialiser of `sigtype`, before its values are cut to `uint8_t`.
abbrev sigtype_values : List ℕ
sigtype_values =
    (bit_or sig_a sig_ma)
    ∷ (bit_or sig_t sig_mi)
    ∷ (bit_or sig_a sig_mh)
    ∷ sig_i
    ∷ (bit_or sig_c sig_ma)
    ∷ (bit_or sig_a sig_mh)
    ∷ (bit_or sig_t sig_mi)
    ∷ (bit_or sig_a sig_mh)
    ∷ (bit_or sig_t sig_ma)
    ∷ (bit_or sig_t sig_ma)
    ∷ (bit_or sig_t sig_mi)
    ∷ (bit_or sig_a sig_ma)
    ∷ (bit_or sig_a sig_mh)
    ∷ (bit_or sig_s sig_ma)
    ∷ (bit_or sig_t sig_ma)
    ∷ (bit_or sig_s sig_ma)
    ∷ (bit_or sig_s sig_mi)
    ∷ (bit_or sig_s sig_mi)
    ∷ (bit_or sig_t sig_md)
    ∷ (bit_or sig_t sig_md)
    ∷ (bit_or sig_t sig_mi)
    ∷ (bit_or sig_t sig_mi)
    ∷ (bit_or sig_a sig_mi)
    ∷ (bit_or sig_a sig_mi)
    ∷ (bit_or sig_i sig_md)
    ∷ (bit_or sig_t sig_ma)
    ∷ (bit_or sig_a sig_mh)
    ∷ (bit_or sig_a sig_mi)
    ∷ []

-- `sigtype`, without the zeros that fill it up to `sig_count`.
unfoldable pub sigtype : List ℕ
sigtype = map (λ v. v % 2 ^ 8) sigtype_values

-- Where the `switch` of `__flush_signals` jumps to.
pub data Action : Type 0 where
  die go_on stop skip : Action

-- The message and the label of each `case`. A number without a case falls through to `sig_end`.
unfoldable pub signal_case : ℕ → Option String × Action
signal_case sig =
    if sig == sigabrt
    then (some "TODO: SIGABRT\n", die)
    else if sig == sigalrm
    then (some "TODO: SIGALRM\n", die)
    else if sig == sigbus
    then (some "TODO: SIGBUS\n", die)
    else if sig == sigchld
    then (some "TODO: SIGCHLD\n", die)
    else if sig == sigcont
    then (none, go_on)
    else if sig == sigfpe
    then (some "Floating point exception(Process finished)\n", die)
    else if sig == sighup
    then (some "TODO: SIGHUP\n", die)
    else if sig == sigill
    then (some "Illegal instruction(Process finished)\n", die)
    else if sig == sigint
    then (some "TODO: SIGINT\n", die)
    else if sig == sigkill
    then (none, die)
    else if sig == sigpipe
    then (some "TODO: SIGPIPE\n", die)
    else if sig == sigquit
    then (some "TODO: SIGQUIT\n", die)
    else if sig == sigsegv
    then (some "Segmentation fault(Process finished)\n", die)
    else if sig == sigstop
    then (none, stop)
    else if sig == sigterm
    then (some "TODO: SIGTERM\n", die)
    else if sig == sigtstp
    then (some "TODO: SIGTSTP\n", die)
    else if sig == sigttin
    then (some "TODO: SIGTTIN\n", die)
    else if sig == sigttou
    then (some "TODO: SIGTTOU\n", die)
    else if sig == sigusr1
    then (some "TODO: SIGUSR1\n", die)
    else if sig == sigusr2
    then (some "TODO: SIGUSR2\n", die)
    else if sig == sigpoll
    then (some "TODO: SIGPOLL\n", die)
    else if sig == sigprof
    then (some "TODO: SIGPROF\n", die)
    else if sig == sigsys
    then (some "Invalid syscall(Process finished)\n", die)
    else if sig == sigtrap
    then (some "TODO: SIGTRAP\n", die)
    else if sig == sigurg
    then (some "TODO: SIGURG\n", die)
    else if sig == sigvtalrm
    then (some "TODO: SIGVTALRM\n", die)
    else if sig == sigxcpu
    then (some "TODO: SIGXCPU\n", die)
    else if sig == sigxfsz
    then (some "TODO: SIGXFSZ\n", die)
    else (none, skip)
