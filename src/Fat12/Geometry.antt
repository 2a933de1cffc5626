-- ===== src/Fat12/Geometry.antt =====
-- The constants at the head of scripts/create-legacy-fat12.py and scripts/verify-legacy-bios.py.
use zig_os.Base.{ℕ, ◌+◌, ◌-◌, ◌*◌, ◌/◌}

abbrev pub bps : ℕ
bps = 512

abbrev pub total : ℕ
total = 2880

abbrev pub spc : ℕ
spc = 1

abbrev pub reserved : ℕ
reserved = 1

abbrev pub fats : ℕ
fats = 2

abbrev pub root_entries : ℕ
root_entries = 224

abbrev pub spf : ℕ
spf = 9

abbrev pub root_sectors : ℕ
root_sectors = (root_entries * 32 + bps - 1) / bps

abbrev pub fat_start : ℕ
fat_start = 1

abbrev pub root_start : ℕ
root_start = 19

abbrev pub data_start : ℕ
data_start = 33
