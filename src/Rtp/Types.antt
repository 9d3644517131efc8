-- ===== src/Rtp/Types.antt =====
-- nxnet/rtp/rtp_types.h and the error codes of nxnet/rtp/rtp_error.h. A byte string is a list of
-- numbers, each below 256 where it matters (`IsByte`).
use libnx.Common.{ℕ, ◌<◌, Bool, true, false, List, Option, All}

pub data RtpErrc : Type 0 where
  success packet_too_short invalid_version invalid_header invalid_payload : RtpErrc
  bind_failed receive_failed socket_closed not_started : RtpErrc
  fragmentation_error sequence_gap invalid_rtcp unknown_error : RtpErrc

-- `nx::expected<A>`: a value or an error code.
pub data Expected {ℓ} (A : Type ℓ) : Type ℓ where
  ok : A → Expected A
  unexpected : RtpErrc → Expected A

infixl 5 ◌>>=◌ ◌>>◌
abbrev pub ◌>>=◌ {ℓ κ} : {A : Type ℓ} {B : Type κ} → Expected A → (A → Expected B) → Expected B
ok a >>= f = f a
unexpected e >>= f = unexpected e

abbrev pub ◌>>◌ {ℓ} : {B : Type ℓ} → Expected (Unit {0}) → Expected B → Expected B
m >> k = m >>= λ _. k

-- `if (!test) return std::unexpected(code);`
abbrev pub ensure : Bool → RtpErrc → Expected (Unit {0})
ensure true e = ok tt
ensure false e = unexpected e

abbrev pub map_ok {ℓ κ} : {A : Type ℓ} {B : Type κ} → (A → B) → Expected A → Expected B
map_ok f (ok a) = ok (f a)
map_ok f (unexpected e) = unexpected e

abbrev pub Bytes : Type 0
Bytes = List ℕ

abbrev pub IsByte : ℕ → Type 0
IsByte b = b < 256

abbrev pub IsBytes : Bytes → Type 0
IsBytes bs = All IsByte bs

abbrev pub one_byte_extension_profile : ℕ
one_byte_extension_profile = 0xbede

-- The element's field `data` is called `value` here.
pub record RtpHeaderExtElement : Type 0 where
  pub id : ℕ
  pub value : Bytes

pub record RtpExtension : Type 0 where
  pub profile : ℕ
  pub content : Bytes

pub record RtpHeader : Type 0 where
  pub version : ℕ
  pub padding : Bool
  pub extension : Bool
  pub csrc_count : ℕ
  pub marker : Bool
  pub payload_type : ℕ
  pub sequence_number : ℕ
  pub timestamp : ℕ
  pub ssrc : ℕ
  pub csrc_list : List ℕ
  pub ext_header : Option RtpExtension

pub record RtpHeaderView : Type 0 where
  pub version : ℕ
  pub padding : Bool
  pub extension : Bool
  pub marker : Bool
  pub payload_type : ℕ
  pub sequence_number : ℕ
  pub timestamp : ℕ
  pub ssrc : ℕ

-- `jitter_ms`, a double that no code under src/ writes, is left out.
pub record RtpStatistics : Type 0 where
  pub packets_received : ℕ
  pub packets_lost : ℕ
  pub packets_out_of_order : ℕ
  pub bytes_received : ℕ
