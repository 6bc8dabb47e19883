-- ===== src/Console/Keys.antt =====
-- The key codes of include/klyx/tty.h and the two scan code tables of kernel/console.c.
use klyx.Prelude.{ℕ, List, [], ◌∷◌}
use klyx.Prelude.Int.{ℤ, pos, negsuc}

-- `tty_char` values below zero stand for keys without a character.
abbrev pub eof : ℤ
eof = negsuc 0

abbrev pub f1 : ℤ
f1 = negsuc 11

abbrev pub f2 : ℤ
f2 = negsuc 12

abbrev pub f3 : ℤ
f3 = negsuc 13

abbrev pub f4 : ℤ
f4 = negsuc 14

abbrev pub f5 : ℤ
f5 = negsuc 15

abbrev pub f6 : ℤ
f6 = negsuc 16

abbrev pub f7 : ℤ
f7 = negsuc 17

abbrev pub f8 : ℤ
f8 = negsuc 18

abbrev pub f9 : ℤ
f9 = negsuc 19

abbrev pub f10 : ℤ
f10 = negsuc 20

abbrev pub np_7 : ℤ
np_7 = negsuc 23

abbrev pub np_8 : ℤ
np_8 = negsuc 24

abbrev pub np_9 : ℤ
np_9 = negsuc 25

abbrev pub np_4 : ℤ
np_4 = negsuc 26

abbrev pub np_5 : ℤ
np_5 = negsuc 27

abbrev pub np_6 : ℤ
np_6 = negsuc 28

abbrev pub np_1 : ℤ
np_1 = negsuc 29

abbrev pub np_2 : ℤ
np_2 = negsuc 30

abbrev pub np_3 : ℤ
np_3 = negsuc 31

abbrev pub np_0 : ℤ
np_0 = negsuc 32

-- The characters of the keys, by scan code. An entry that the initialiser leaves out is 0.
unfoldable pub scan_code_table_default : List ℕ
scan_code_table_default =
    0 ∷ 27 ∷ 49 ∷ 50 ∷ 51 ∷ 52 ∷ 53 ∷ 54 ∷ 55 ∷ 56 ∷ 57 ∷ 48 ∷ 45 ∷ 61 ∷ 8 ∷ 9 ∷ 113 ∷ 119 ∷ 101
    ∷ 114 ∷ 116 ∷ 121 ∷ 117 ∷ 105 ∷ 111 ∷ 112 ∷ 91 ∷ 93 ∷ 10 ∷ 0 ∷ 97 ∷ 115 ∷ 100 ∷ 102 ∷ 103 ∷ 104
    ∷ 106 ∷ 107 ∷ 108 ∷ 59 ∷ 39 ∷ 96 ∷ 0 ∷ 92 ∷ 122 ∷ 120 ∷ 99 ∷ 118 ∷ 98 ∷ 110 ∷ 109 ∷ 44 ∷ 46 ∷ 47
    ∷ 0 ∷ 42 ∷ 0 ∷ 32 ∷ 0 ∷ 0 ∷ 0 ∷ 0 ∷ 0 ∷ 0 ∷ 0 ∷ 0 ∷ 0 ∷ 0 ∷ 0 ∷ 0 ∷ 0 ∷ 55 ∷ 56 ∷ 57 ∷ 52 ∷ 53
    ∷ 54 ∷ 49 ∷ 50 ∷ 51 ∷ 48 ∷ 32 ∷ 46 ∷ 0 ∷ 0 ∷ 0 ∷ 0 ∷ 0 ∷ 0 ∷ 0 ∷ 0 ∷ 0 ∷ 0 ∷ 0 ∷ 0 ∷ 0 ∷ 0 ∷ 0
    ∷ 0 ∷ 0 ∷ 0 ∷ 0 ∷ 0 ∷ 0 ∷ 0 ∷ 0 ∷ 0 ∷ 0 ∷ 0 ∷ 0 ∷ 0 ∷ 0 ∷ 0 ∷ 0 ∷ 0 ∷ 0 ∷ 0 ∷ 0 ∷ 0 ∷ 0 ∷ 0 ∷ 0
    ∷ 0 ∷ 0 ∷ 0 ∷ 0 ∷ 0 ∷ 0 ∷ []

-- The special keys, by scan code; 0 for all others.
unfoldable pub scan_code_table_special : List ℤ
scan_code_table_special =
    pos 0
    ∷ eof
    ∷ pos 0
    ∷ pos 0
    ∷ pos 0
    ∷ pos 0
    ∷ pos 0
    ∷ pos 0
    ∷ pos 0
    ∷ pos 0
    ∷ pos 0
    ∷ pos 0
    ∷ pos 0
    ∷ pos 0
    ∷ pos 0
    ∷ pos 0
    ∷ pos 0
    ∷ pos 0
    ∷ pos 0
    ∷ pos 0
    ∷ pos 0
    ∷ pos 0
    ∷ pos 0
    ∷ pos 0
    ∷ pos 0
    ∷ pos 0
    ∷ pos 0
    ∷ pos 0
    ∷ pos 0
    ∷ pos 0
    ∷ pos 0
    ∷ pos 0
    ∷ pos 0
    ∷ pos 0
    ∷ pos 0
    ∷ pos 0
    ∷ pos 0
    ∷ pos 0
    ∷ pos 0
    ∷ pos 0
    ∷ pos 0
    ∷ pos 0
    ∷ pos 0
    ∷ pos 0
    ∷ pos 0
    ∷ pos 0
    ∷ pos 0
    ∷ pos 0
    ∷ pos 0
    ∷ pos 0
    ∷ pos 0
    ∷ pos 0
    ∷ pos 0
    ∷ pos 0
    ∷ pos 0
    ∷ pos 0
    ∷ pos 0
    ∷ pos 0
    ∷ pos 0
    ∷ f1
    ∷ f2
    ∷ f3
    ∷ f4
    ∷ f5
    ∷ f6
    ∷ f7
    ∷ f8
    ∷ f9
    ∷ f10
    ∷ pos 0
    ∷ pos 0
    ∷ np_7
    ∷ np_8
    ∷ np_9
    ∷ pos 0
    ∷ np_4
    ∷ np_5
    ∷ np_6
    ∷ pos 0
    ∷ np_1
    ∷ np_2
    ∷ np_3
    ∷ np_0
    ∷ pos 0
    ∷ pos 0
    ∷ pos 0
    ∷ pos 0
    ∷ pos 0
    ∷ pos 0
    ∷ pos 0
    ∷ pos 0
    ∷ pos 0
    ∷ pos 0
    ∷ pos 0
    ∷ pos 0
    ∷ pos 0
    ∷ pos 0
    ∷ pos 0
    ∷ pos 0
    ∷ pos 0
    ∷ pos 0
    ∷ pos 0
    ∷ pos 0
    ∷ pos 0
    ∷ pos 0
    ∷ pos 0
    ∷ pos 0
    ∷ pos 0
    ∷ pos 0
    ∷ pos 0
    ∷ pos 0
    ∷ pos 0
    ∷ pos 0
    ∷ pos 0
    ∷ pos 0
    ∷ pos 0
    ∷ pos 0
    ∷ pos 0
    ∷ pos 0
    ∷ pos 0
    ∷ pos 0
    ∷ pos 0
    ∷ pos 0
    ∷ pos 0
    ∷ pos 0
    ∷ pos 0
    ∷ pos 0
    ∷ pos 0
    ∷ []
