-- ===== src/Storage/Examples.antt =====
-- The codec on one message with a header.
use qwer_q.Common.{◌≡◌, refl, arith, [], ◌∷◌, length}
use qwer_q.Common.Strings.{bytes}
use qwer_q.Common.Dict.{lookup}
use qwer_q.Common.Int.{pos, negsuc}
use qwer_q.Types.{Message}
use qwer_q.Storage.Codec.{ok, decode_message, encode_message, encoded_message_size_v2}
use qwer_q.Storage.Codec.RoundTrip.{
  IsStorable, decode_message-encode_message, length-encode_message,
}

abbrev stored : Message
stored = record {
  id = bytes "01";
  queue = bytes "jobs";
  payload = bytes "work";
  headers = (bytes "k", bytes "v") ∷ [];
  attempt = 2;
  published_at = pos 1700000000000000000;
  visible_at = negsuc 6;
  ordering_key = bytes "o";
  sequence = 9;
}

abbrev base : Message
base = record stored { payload = []; headers = []; attempt = 0; ordering_key = []; sequence = 0 }

stored-IsStorable : IsStorable stored
unfolding lookup
stored-IsStorable = record {
  payload_size = omega arith;
  header_count = omega arith;
  header_sizes = (omega arith, omega arith, tt);
  header_keys = (refl, tt);
  attempt_range = omega arith;
  published_range = omega arith;
  visible_range = omega arith;
  key_size = omega arith;
  sequence_range = omega arith;
}

decode_message-encode_message_example :
    decode_message (λ s m. ok m) (encode_message stored) base ≡ ok stored
decode_message-encode_message_example =
    decode_message-encode_message (λ s m. ok m) stored base stored-IsStorable

length-encode_message_example : length (encode_message stored) ≡ encoded_message_size_v2 stored
length-encode_message_example = length-encode_message stored
