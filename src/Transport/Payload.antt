-- ===== src/Transport/Payload.antt =====
-- `struct transport_data_spec` and `replicate_payload` of src/tcpkali_transport.c. The bytes of the
-- buffer in front of `total_size` are `contents`, and `total_size` is their number. `ceil` of the
-- quotient of two doubles is floating point, and so a parameter: `ceil_quotient target size`.
pub mod Laws
use tcpkali.Base.{
  ℕ, zero, suc, ◌+◌, ◌-◌, ◌*◌, ◌%◌, ◌^◌, Bool, true, false, Bytes, [], ◌++◌, Option, none, some,
  length, drop, leb, ◌==◌, if◌then◌else◌,
}

pub record DataSpec : Type 0 where
  pub contents : Bytes
  pub ws_hdr_size : ℕ
  pub once_size : ℕ
  pub allocated_size : ℕ
  pub single_message_size : ℕ
  pub marker_token_ptr : Option ℕ
  pub ptr_shared : Bool
  pub is_replicated : Bool

abbrev pub total_size : DataSpec → ℕ
total_size d = length d.contents

-- `n` copies.
abbrev pub times : ℕ → Bytes → Bytes
times zero s = []
times (suc n) s = s ++ times n s

abbrev pub with_contents : DataSpec → Bytes → ℕ → DataSpec
with_contents d s allocated = record {
  contents = s;
  ws_hdr_size = d.ws_hdr_size;
  once_size = d.once_size;
  allocated_size = allocated;
  single_message_size = d.single_message_size;
  marker_token_ptr = d.marker_token_ptr;
  ptr_shared = d.ptr_shared;
  is_replicated = true;
}

abbrev pub grown : DataSpec → Bytes → ℕ → DataSpec
grown d payload n =
    with_contents d (d.contents ++ times (n - 1) payload)
      ((d.once_size + (n * length payload) % 2 ^ 64 + 1) % 2 ^ 64)

-- The assertions, then the replication.
abbrev pub asserted : Bool → Option ℕ → DataSpec → Option DataSpec
asserted false none d = some d
asserted replicated marker d = none

unfoldable pub replicate_payload : (ℕ → ℕ → ℕ) → DataSpec → ℕ → Option DataSpec
replicate_payload ceil_quotient d target_size =
    let payload = drop d.once_size d.contents in
    asserted d.is_replicated d.marker_token_ptr (
      if length payload == 0
      then with_contents d d.contents d.allocated_size
      else if leb target_size (length payload)
      then with_contents d d.contents d.allocated_size
      else grown d payload (ceil_quotient target_size (length payload)))
