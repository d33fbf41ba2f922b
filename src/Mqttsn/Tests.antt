-- ===== src/Mqttsn/Tests.antt =====
-- A client of lib/mqttsn-client.c with two topics, on which the theorems are run.
use tinyhan.Base.{◌≡◌, refl, true, false, some, List, [], ◌∷◌, arith}
use tinyhan.Base.Int.{pos}
use tinyhan.Mqttsn.Types.{State, Topic, Client, sent}
use tinyhan.Mqttsn.Client.{c_connect, c_publish, mqttsn_subscribe, mqttsn_subscribe}
use tinyhan.Mqttsn.Handler.{c_handler}
use tinyhan.Mqttsn.Connects.{accept_all, IsDone, accept_connack, accept_all-c_connect}
use tinyhan.Mqttsn.Publish.{
  publish_frame, c_handler-c_publish, log-mqttsn_subscribe, subscribe_frame,
}

abbrev two_topics : List Topic
two_topics =
    record { topic = 0x61 ∷ (0x62 ∷ []); flags = 0 }
    ∷ (record { topic = 0x63 ∷ []; flags = 0x81 } ∷ [])

-- A disconnected client.
abbrev fresh : Client
fresh = record {
  state = State.disconnected;
  count = 0;
  message = λ i. 0;
  overrun = false;
  n_retries = 0;
  t_retry = 0;
  next_ping = 0;
  next_id = 0;
  topics = two_topics;
  topic_ids = λ i. 0;
  is_registered = false;
  client_id = 0x78 ∷ [];
  cb_publish = false;
  cb_puback = true;
  log = [];
}

-- The client while it waits for an answer, with two retries left.
abbrev waiting : Client
waiting = record fresh { state = State.connecting; message = λ i. 2; n_retries = 2; t_retry = 105 }

accept_all-c_connect_example :
    IsDone
      (λ j. 100)
      2
      (accept_all
        (c_handler (c_connect fresh 100) 102 (some accept_connack))
        (λ j. 100)
        0
        (103 ∷ (107 ∷ [])))
accept_all-c_connect_example =
    accept_all-c_connect fresh (λ j. 100) 100 102 (103 ∷ (107 ∷ [])) refl refl refl
      (omega arith, (omega arith, tt)) (omega arith) refl (λ j. omega arith)
      (omega arith, (omega arith, (omega arith, tt)))

c_handler-c_publish_example :
    (c_publish (record fresh { state = State.connected }) 50 0 (pos 1) (7 ∷ [])).0.log
    ≡ sent (publish_frame (record fresh { state = State.connected }) 0 1 (7 ∷ [])) ∷ []
c_handler-c_publish_example =
    (c_handler-c_publish (record fresh { state = State.connected }) 50 0 1 (7 ∷ []) 52 0 0 9 0 refl
      (omega arith) (omega arith) (omega arith) (omega arith)).1

log-mqttsn_subscribe_example :
    (mqttsn_subscribe fresh 100 1 (0x63 ∷ []) 1).log
    ≡ sent (subscribe_frame fresh 1 (0x63 ∷ []) 1) ∷ []
log-mqttsn_subscribe_example = (log-mqttsn_subscribe fresh 100 1 (0x63 ∷ []) 1 (omega arith)).0
