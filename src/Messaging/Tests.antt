-- ===== src/Messaging/Tests.antt =====
-- A provider that recovers, and the theorem about retries at it.
use real_estate_webapp.Prelude.{true, if◌then◌else◌, ltb, [], codes}
use real_estate_webapp.Messaging.{
  OutboundTemplateMessage, OutboundMessageProvider, OutboundConfig, sent, outbound_send_error, send,
}
use real_estate_webapp.Messaging.Retries.{Settles, send-Settles}

abbrev config : OutboundConfig
config = record { max_attempts = 3; retry_base_ms = 400 }

abbrev recovering : OutboundMessageProvider
recovering = record {
  name = "cloud-api";
  can_deliver = true;
  send = λ n message.
      if ltb n 2 then outbound_send_error "timeout" true else sent "wamid.1" "cloud-api";
}

abbrev message : OutboundTemplateMessage
message = record {
  to_phone_e164 = codes "+919876543210";
  template = "enquiry_received";
  variables = [];
  language_code = "en";
}

send-Settles_example : Settles config recovering message 1 3 (send config recovering message).0
send-Settles_example = send-Settles config recovering message
