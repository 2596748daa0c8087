-- ===== src/Protocol.antt =====
-- The numbers of include/ndnmps/common.hpp that signer and initiator exchange.
use ndn_multi_party_signatur.Prelude.{ℕ, Bool, ◌==◌, Text, codes}

-- ReplyCode, and its numbers
pub data ReplyCode : Type 0 where
  processing ok_code bad_request unauthorized not_found : ReplyCode
  failed_dependency internal_error unavailable : ReplyCode

abbrev pub code_number : ReplyCode → ℕ
code_number processing = 102
code_number ok_code = 200
code_number bad_request = 400
code_number unauthorized = 401
code_number not_found = 404
code_number failed_dependency = 424
code_number internal_error = 500
code_number unavailable = 503

abbrev pub is_processing : ReplyCode → Bool
is_processing c = code_number c == 102

abbrev pub is_ok : ReplyCode → Bool
is_ok c = code_number c == 200

-- std::to_string(static_cast<int>(code))
abbrev pub code_text : ReplyCode → Text
code_text processing = codes "102"
code_text ok_code = codes "200"
code_text bad_request = codes "400"
code_text unauthorized = codes "401"
code_text not_found = codes "404"
code_text failed_dependency = codes "424"
code_text internal_error = codes "500"
code_text unavailable = codes "503"

-- tlv: EcdhPub, Salt, Status, ParameterDataName, ResultAfter, ResultName, BLSSigValue
abbrev pub ecdh_pub_type : ℕ
ecdh_pub_type = 145

abbrev pub salt_type : ℕ
salt_type = 149

abbrev pub status_type : ℕ
status_type = 203

abbrev pub parameter_data_name_type : ℕ
parameter_data_name_type = 205

abbrev pub result_after_type : ℕ
result_after_type = 209

abbrev pub result_name_type : ℕ
result_name_type = 211

abbrev pub bls_sig_value_type : ℕ
bls_sig_value_type = 213
