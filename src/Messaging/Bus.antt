-- ===== src/Messaging/Bus.antt =====
-- server/chess_server/src/Messaging/MessageBus.cpp: two queues, oldest message first. The exception
-- of an empty queue is `none`.
use ctd_tamar.Common.{ℕ, Bool, not, Option, none, some, List, [], ◌∷◌, ◌++◌, is_empty_list, length}
use ctd_tamar.Messaging.Snapshot.{Message}

pub record MessageBus : Type 0 where
  pub client_to_engine : List Message
  pub engine_to_client : List Message

abbrev pub new : MessageBus
new = record { client_to_engine = []; engine_to_client = [] }

abbrev pub send_to_engine : Message → MessageBus → MessageBus
send_to_engine m b = record b { client_to_engine = b.client_to_engine ++ m ∷ [] }

abbrev pub has_message_for_engine : MessageBus → Bool
has_message_for_engine b = not (is_empty_list b.client_to_engine)

abbrev pub receive_from_engine_queue : List Message → MessageBus → Option (Message × MessageBus)
receive_from_engine_queue [] b = none
receive_from_engine_queue (m ∷ ms) b = some (m, record b { client_to_engine = ms })

abbrev pub receive_for_engine : MessageBus → Option (Message × MessageBus)
receive_for_engine b = receive_from_engine_queue b.client_to_engine b

abbrev pub send_to_client : Message → MessageBus → MessageBus
send_to_client m b = record b { engine_to_client = b.engine_to_client ++ m ∷ [] }

abbrev pub has_message_for_client : MessageBus → Bool
has_message_for_client b = not (is_empty_list b.engine_to_client)

abbrev pub receive_from_client_queue : List Message → MessageBus → Option (Message × MessageBus)
receive_from_client_queue [] b = none
receive_from_client_queue (m ∷ ms) b = some (m, record b { engine_to_client = ms })

abbrev pub receive_for_client : MessageBus → Option (Message × MessageBus)
receive_for_client b = receive_from_client_queue b.engine_to_client b

abbrev pub pending_engine_messages : MessageBus → ℕ
pending_engine_messages b = length b.client_to_engine

abbrev pub pending_client_messages : MessageBus → ℕ
pending_client_messages b = length b.engine_to_client

abbrev pub clear : MessageBus → MessageBus
clear b = record { client_to_engine = []; engine_to_client = [] }
