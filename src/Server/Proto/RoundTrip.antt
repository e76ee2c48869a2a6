-- ===== src/Server/Proto/RoundTrip.antt =====
-- A message keeps its content on its way through the conversions of the gRPC interface.
use pelican_q.Base.{ℕ, ◌≡◌, ◌<◌, refl, arith, none, [], ◌%◌}
use pelican_q.Message.{Message}
use pelican_q.Server.{Formats}
use pelican_q.Server.Proto.{
  core_message_to_proto, id_or, proto_message_to_core, consumed_message, ClientMessage,
  client_to_proto, consumed_to_delivery,
}

module _ ⦃f : Formats⦄ where
  open f use {uuid_text, parse_uuid, parse-uuid_text}

  -- A message of the engine whose priority is a u8 is read back from its form on the wire as it was,
  -- whatever UUID is at hand for a message without an id.
  pub proto_message_to_core-core_message_to_proto :
      (m : Message) (new_v4 : ℕ)
      → m.priority < 256
      → proto_message_to_core new_v4 (core_message_to_proto m) ≡ m
  unfolding proto_message_to_core core_message_to_proto id_or
  proto_message_to_core-core_message_to_proto m new_v4 h =
      let low : m.priority % 256 ≡ m.priority = omega arith in
      rw (parse-uuid_text m.id) (rw low refl)

  -- The message that a Rust client sends, whose priority is a u8, comes out of the engine for a
  -- client as it went in, with the UUID that the server gave it. Its time is 0 and it has no attempts,
  -- since the client sends these.
  pub consumed_to_delivery-client_to_proto :
      (m : ClientMessage) (new_v4 tag : ℕ)
      → m.priority < 256
      → parse_uuid [] ≡ none
      → consumed_to_delivery
          (consumed_message (tag, proto_message_to_core new_v4 (client_to_proto m)))
        ≡ record {
          delivery_tag = tag;
          message = m;
          id = uuid_text new_v4;
          timestamp = 0;
          delivery_attempts = 0;
        }
  unfolding consumed_to_delivery consumed_message proto_message_to_core client_to_proto
      core_message_to_proto
  consumed_to_delivery-client_to_proto m new_v4 tag h unset =
      let low : m.priority % 256 ≡ m.priority = omega arith in rw unset (rw low (rw low refl))
