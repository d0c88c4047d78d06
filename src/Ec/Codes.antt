-- ===== src/Ec/Codes.antt =====
-- codes.py: the constants of the protocol that the model uses.
use emule_indexer.Common.{ℕ}

abbrev pub ec_flag_base : ℕ
ec_flag_base = 0x20

abbrev pub ec_flag_zlib : ℕ
ec_flag_zlib = 0x01

abbrev pub ec_tagtype_custom : ℕ
ec_tagtype_custom = 0x01

abbrev pub ec_tagtype_uint8 : ℕ
ec_tagtype_uint8 = 0x02

abbrev pub ec_tagtype_uint16 : ℕ
ec_tagtype_uint16 = 0x03

abbrev pub ec_tagtype_uint32 : ℕ
ec_tagtype_uint32 = 0x04

abbrev pub ec_tagtype_uint64 : ℕ
ec_tagtype_uint64 = 0x05

abbrev pub ec_tagtype_string : ℕ
ec_tagtype_string = 0x06

abbrev pub ec_tagtype_ipv4 : ℕ
ec_tagtype_ipv4 = 0x08

abbrev pub ec_tagtype_hash16 : ℕ
ec_tagtype_hash16 = 0x09
