-- ===== src/Mms/Server/Permissions.antt =====
-- crates/iec61850-mms/src/server.rs, `Permissions`: a set of permissions as the bits of a `u16`.
use iec_61850_studio.Base.{ℕ, bit_and, bit_or, Bool, ◌==◌}

abbrev pub Permissions : Type 0
Permissions = ℕ

abbrev pub data_read : Permissions
data_read = 1

abbrev pub data_write : Permissions
data_write = 2

abbrev pub control : Permissions
control = 4

abbrev pub reporting : Permissions
reporting = 8

abbrev pub dataset_define : Permissions
dataset_define = 16

abbrev pub config : Permissions
config = 32

abbrev pub setting : Permissions
setting = 64

abbrev pub file_read : Permissions
file_read = 128

abbrev pub file_write : Permissions
file_write = 256

-- `contains`: all the permissions of `other`
abbrev pub contains : Permissions → Permissions → Bool
contains p other = bit_and p other == other

-- `BitOr`
infixl 6 ◌∪◌
abbrev pub ◌∪◌ : Permissions → Permissions → Permissions
p ∪ q = bit_or p q
