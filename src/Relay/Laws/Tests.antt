-- ===== src/Relay/Laws/Tests.antt =====
-- The connection to the relay on concrete inputs.
use hwfa.Common.{true, ◌==◌, if◌then◌else◌, arith, Option, none, some, [], ◌∷◌, ◌≡◌, refl, String}
use hwfa.Models.{whisper, Envelope, Receipt, RelayMessage, deliver, receipt}
use hwfa.Relay
use hwfa.Relay.{
  RelayConnection, constructed, written, shut, delivered, opened, resolved, rejected, thrown,
  connected, closed_by_user, read_sent, text_came, socket_open, socket_failed, run, step, connect,
  on_open, on_text, close, on_error,
}
use hwfa.Client.{init}
use hwfa.Client.Messages.{on_message}
use hwfa.Common.Digits.{to_text}
use hwfa.Relay.Laws.Receipts.{IsConfirmed, hears_all, run-IsConfirmed, on_message-refines}

abbrev letter : Envelope
letter = record {
  id = "e1";
  submission = record {
    recipient_id = "al";
    recipient_device = 1;
    sender_id = "bob";
    sender_device = 7;
    type = whisper;
    ciphertext = "x";
    timestamp = 5;
  };
}

-- Only the text "letter" parses.
abbrev parse : String → Option RelayMessage
parse text = if text == "letter" then some (deliver letter) else none

abbrev fresh : RelayConnection
fresh = record {
  relay_url = "wss://relay";
  token = "t";
  device_id = 3;
  handlers = record { on_ack = true; on_status = true; on_open = true; on_close = true };
  can_listen = true;
  ws = none;
  next_socket = 0;
  pending = [];
}

abbrev live : RelayConnection
live = record fresh { ws = some 0; next_socket = 1 }

-- It opens, takes a letter and a text that does not parse, and is closed; a second letter is handed
-- on but not confirmed, and a late error settles nothing.
closed_test :
    (run
      (λ s. s)
      parse
      fresh
      (connected
        ∷ socket_open 0
        ∷ text_came "letter"
        ∷ text_came "?"
        ∷ closed_by_user
        ∷ text_came "letter"
        ∷ socket_failed 0
        ∷ [])).0
    ≡ constructed 0 "wss://relay?token=t&deviceId=3"
      ∷ opened
      ∷ resolved 0
      ∷ delivered letter
      ∷ written 0 (receipt "e1" Receipt.delivered "bob" 7)
      ∷ thrown
      ∷ shut 0
      ∷ delivered letter
      ∷ thrown
      ∷ []
unfolding run step connect to_text on_open on_text close on_error
closed_test = refl

run-IsConfirmed_example :
    IsConfirmed
      (run (λ s. s) parse live (text_came "letter" ∷ read_sent "e1" "bob" 7 ∷ connected ∷ [])).0
run-IsConfirmed_example =
    run-IsConfirmed (λ s. s) parse live
      (text_came "letter" ∷ read_sent "e1" "bob" 7 ∷ connected ∷ [])
      ((λ p. ground (arith, p)), ((λ p. ground (arith, p)), ((λ p. ground (arith, p)), tt)))
      (λ p. ground (arith, p))

on_message-refines_example :
    on_message init 0 (deliver letter)
    ≡ hears_all init (delivered letter ∷ written 0 (receipt "e1" Receipt.delivered "bob" 7) ∷ [])
unfolding Relay.on_message
on_message-refines_example = on_message-refines init 0 live (deliver letter) refl refl refl
