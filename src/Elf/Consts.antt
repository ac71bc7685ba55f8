-- ===== src/Elf/Consts.antt =====
-- casestudy/sbpf/src/elf_parser/consts.rs: the constants that the parser uses.
use aeneas2isabelle.Prelude.{ℕ, List, ◌∷◌, []}

abbrev pub elfmag : List ℕ
elfmag = 0x7f ∷ 0x45 ∷ 0x4c ∷ 0x46 ∷ []

abbrev pub elfclass64 : ℕ
elfclass64 = 2

abbrev pub elfdata2lsb : ℕ
elfdata2lsb = 1

abbrev pub ev_current : ℕ
ev_current = 1

abbrev pub pt_load : ℕ
pt_load = 1

abbrev pub pt_dynamic : ℕ
pt_dynamic = 2

abbrev pub sht_null : ℕ
sht_null = 0

abbrev pub sht_symtab : ℕ
sht_symtab = 2

abbrev pub sht_strtab : ℕ
sht_strtab = 3

abbrev pub sht_dynamic : ℕ
sht_dynamic = 6

abbrev pub sht_nobits : ℕ
sht_nobits = 8

abbrev pub sht_dynsym : ℕ
sht_dynsym = 11

abbrev pub shf_write : ℕ
shf_write = 0x1

abbrev pub shf_alloc : ℕ
shf_alloc = 0x2

abbrev pub shn_undef : ℕ
shn_undef = 0

abbrev pub dt_null : ℕ
dt_null = 0

abbrev pub dt_symtab : ℕ
dt_symtab = 6

abbrev pub dt_rel : ℕ
dt_rel = 17

abbrev pub dt_relsz : ℕ
dt_relsz = 18

abbrev pub dt_relent : ℕ
dt_relent = 19

abbrev pub dt_num : ℕ
dt_num = 35

abbrev pub stt_func : ℕ
stt_func = 2
