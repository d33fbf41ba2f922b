-- ===== src/Mac/Wire/RegistrationStatus.antt =====
-- `tinymac_registration_status_t` of lib/tinymac.h: the values that the code uses.
use tinyhan.Base.{ℕ}

abbrev pub success : ℕ
success = 0

abbrev pub network_full : ℕ
network_full = 2

abbrev pub address_invalid : ℕ
address_invalid = 5
