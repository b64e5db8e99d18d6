-- ===== src/Rpc/Data.antt =====
-- net/rpc/rpc_data.hpp with the flags of net/tcp/abstract_data.hpp.
use tirpc.Prelude.{Bool, false, [], ℤ, pos, negsuc, Bytes}

pub record TinyPbStruct : Type 0 where
  pub pk_len : ℤ
  pub msg_req_len : ℤ
  pub msg_seq : Bytes
  pub service_name_len : ℤ
  pub service_full_name : Bytes
  pub err_code : ℤ
  pub err_info_len : ℤ
  pub err_info : Bytes
  pub pb_data : Bytes
  pub check_num : ℤ
  pub decode_succ : Bool
  pub encode_succ : Bool

-- The default member initialisers.
abbrev pub blank : TinyPbStruct
blank = record {
  pk_len = pos 0;
  msg_req_len = pos 0;
  msg_seq = [];
  service_name_len = pos 0;
  service_full_name = [];
  err_code = pos 0;
  err_info_len = pos 0;
  err_info = [];
  pb_data = [];
  check_num = negsuc 0;
  decode_succ = false;
  encode_succ = false;
}
