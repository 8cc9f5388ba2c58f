-- ===== src/Message.antt =====
-- lib/mp1/multicast/message.go and decoder.go: the messages of the three layers, their constructors,
-- and how they are encoded. The identifiers of package uuid and the sums of crypto/sha1 are arguments.
use cs425_mps.Base.{ℕ, ◌+◌, ◌/◌, ◌%◌, ◌-◌, Option, [], ◌∷◌, ◌++◌, ltb, if◌then◌else◌}
use cs425_mps.Base.Text.{Str}
use cs425_mps.Base.Result.{Error, Result, ok, ◌>>=◌}
use cs425_mps.Codec.{Codec, Bytes}

pub record BMsg : Type 0 where
  pub src_id : Str
  pub path : Str
  pub body : Bytes

pub record RMsg : Type 0 where
  pub id : Str
  pub path : Str
  pub body : Bytes

pub record ToAskProposalSeqMsg : Type 0 where
  pub src_id : Str
  pub msg_id : Str
  pub body : Bytes

pub record ToReplyProposalSeqMsg : Type 0 where
  pub process_id : Str
  pub msg_id : Str
  pub proposal_seq : ℕ

pub record ToAnnounceAgreementSeqMsg : Type 0 where
  pub process_id : Str
  pub agreement_seq : ℕ
  pub msg_id : Str

pub record ToMsg : Type 0 where
  pub path : Str
  pub body : Bytes

-- `hex.EncodeToString`
unfoldable pub hex_digit : ℕ → ℕ
hex_digit d = if ltb d 10 then b'0' + d else b'a' + (d - 10)

unfoldable pub hex_encode : Bytes → Str
unfolding hex_digit
hex_encode [] = []
hex_encode (b ∷ bytes) = hex_digit (b / 16) ∷ hex_digit (b % 16) ∷ hex_encode bytes

-- `sum` is the checksum of crypto/sha1.
unfoldable pub sha1 : (Bytes → Bytes) → Bytes → Str
unfolding hex_encode
sha1 sum text = hex_encode (sum text)

unfoldable pub new_b_msg : {V : Type 0} → Codec V → Str → Str → V → Result BMsg
new_b_msg c src_id path v = do
  bytes ← c.marshal v
  ok (record { src_id = src_id; path = path; body = bytes })

unfoldable pub encode_b_msg : Codec BMsg → BMsg → Result Bytes
encode_b_msg c m = do bytes ← c.marshal m; ok bytes

unfoldable pub decode_b_msg : Codec BMsg → Bytes → BMsg × Option Error
decode_b_msg c bytes = c.unmarshal bytes

-- `uuid` is the new identifier.
unfoldable pub new_r_msg : {V : Type 0} → Codec V → (Bytes → Bytes) → Str → Str → V → Result RMsg
new_r_msg c sum uuid path v = do
  bytes ← c.marshal v
  ok (record { id = uuid ++ (b'-' ∷ sha1 sum bytes); path = path; body = bytes })

unfoldable pub encode_r_msg : Codec RMsg → RMsg → Result Bytes
encode_r_msg c m = do bytes ← c.marshal m; ok bytes

unfoldable pub decode_r_msg : Codec RMsg → Bytes → RMsg × Option Error
decode_r_msg c bytes = c.unmarshal bytes

unfoldable pub new_to_ask_proposal_seq_msg :
    (Bytes → Bytes) → Str → Str → Bytes → ToAskProposalSeqMsg
new_to_ask_proposal_seq_msg sum uuid src_id body = record {
  src_id = src_id;
  msg_id = uuid ++ sha1 sum body;
  body = body;
}

unfoldable pub encode_ask : Codec ToAskProposalSeqMsg → ToAskProposalSeqMsg → Result Bytes
encode_ask c m = do bytes ← c.marshal m; ok bytes

unfoldable pub decode_ask : Codec ToAskProposalSeqMsg → Bytes → ToAskProposalSeqMsg × Option Error
decode_ask c bytes = c.unmarshal bytes

unfoldable pub new_to_reply_proposal_seq_msg : Str → Str → ℕ → ToReplyProposalSeqMsg
new_to_reply_proposal_seq_msg process_id msg_id proposal_seq_num = record {
  process_id = process_id;
  msg_id = msg_id;
  proposal_seq = proposal_seq_num;
}

unfoldable pub encode_reply : Codec ToReplyProposalSeqMsg → ToReplyProposalSeqMsg → Result Bytes
encode_reply c m = do bytes ← c.marshal m; ok bytes

unfoldable pub decode_reply :
    Codec ToReplyProposalSeqMsg → Bytes → ToReplyProposalSeqMsg × Option Error
decode_reply c bytes = c.unmarshal bytes

unfoldable pub new_to_announce_agreement_seq_msg : Str → ℕ → Str → ToAnnounceAgreementSeqMsg
new_to_announce_agreement_seq_msg process_id agreement_seq msg_id = record {
  process_id = process_id;
  agreement_seq = agreement_seq;
  msg_id = msg_id;
}

unfoldable pub encode_announce :
    Codec ToAnnounceAgreementSeqMsg → ToAnnounceAgreementSeqMsg → Result Bytes
encode_announce c m = do bytes ← c.marshal m; ok bytes

unfoldable pub decode_announce :
    Codec ToAnnounceAgreementSeqMsg → Bytes → ToAnnounceAgreementSeqMsg × Option Error
decode_announce c bytes = c.unmarshal bytes

unfoldable pub new_to_msg : {V : Type 0} → Codec V → Str → V → Result ToMsg
new_to_msg c path v = do bytes ← c.marshal v; ok (record { path = path; body = bytes })

unfoldable pub encode_to_msg : Codec ToMsg → ToMsg → Result Bytes
encode_to_msg c m = do bytes ← c.marshal m; ok bytes

unfoldable pub decode_to_msg : Codec ToMsg → Bytes → ToMsg × Option Error
decode_to_msg c bytes = c.unmarshal bytes

-- decoder.go: the decoders of the two lower layers.
unfoldable pub b_msg_decoder : Codec BMsg → Bytes → BMsg × Option Error
b_msg_decoder c bytes = decode_b_msg c bytes

unfoldable pub r_msg_decoder : Codec RMsg → Bytes → RMsg × Option Error
r_msg_decoder c bytes = decode_r_msg c bytes
