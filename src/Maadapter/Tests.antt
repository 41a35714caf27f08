-- ===== src/Maadapter/Tests.antt =====
-- Witnesses of the theorems about internal/maadapter, and runs of its functions.
use ma_dlna.Base.{
  ℕ, ◌+◌, ◌≡◌, refl, Bool, true, false, List, [], ◌∷◌, ◌++◌, length, ◌≤◌, none, some, arith, ◌||◌,
  eqb, text_discrete, Bool-cases,
}
use ma_dlna.Base.Int.{pos}
use ma_dlna.Base.Go.{trim_space, starts_with}
use ma_dlna.Maadapter.Status.{MaMediaItem, contains_text, current_uris_from_media_item}
use ma_dlna.Maadapter.Status.Uris.{url_is, web_id_is, current_uris-contains}
use ma_dlna.Maadapter.Frame.{
  max_web_socket_payload_bytes, Frame, ok, read_server_frame, client_frame,
}
use ma_dlna.Maadapter.Frame.RoundTrip.{client_frame-read_server_frame}
use ma_dlna.Maadapter.Message.{Net, Conn, read_ws_text}
use ma_dlna.Maadapter.Message.Loop.{Delivered, read_ws_text-Delivered}
use ma_dlna.Maadapter.Message.Fragments.{Frames, Works, fragments, pongs, pings}
use ma_dlna.Maadapter.Message.Fragments.Assembly.{read_ws_text-fragments}
use ma_dlna.Maadapter.Reply.{Envelope, Json, Adapter, format_id, next_id}
use ma_dlna.Maadapter.Call.{Dial, Clock}
use ma_dlna.Maadapter.Call.Settled.{Settled}

abbrev four : List ℕ
four = 17 ∷ 34 ∷ 51 ∷ 68 ∷ []

abbrev hello : List ℕ
hello = 72 ∷ 101 ∷ 108 ∷ 108 ∷ 111 ∷ []

client_frame-read_server_frame_example :
    read_server_frame (client_frame four 1 hello ++ 9 ∷ [])
    ≡ ok (record { fin = true; opcode = 1; payload = hello }, 9 ∷ [])
client_frame-read_server_frame_example =
    client_frame-read_server_frame four hello (9 ∷ []) 1 refl (omega arith) (omega arith)

abbrev net : Net
net = record { random = λ i. some four; accepts = λ s b. true; sets_deadline = λ s. true }

net-Works : Works net (λ i. four)
net-Works = record { draws = λ i. refl; writes = λ s b. refl }

abbrev frame : Bool → ℕ → List ℕ → Frame
frame fin opcode payload = record { fin = fin; opcode = opcode; payload = payload }

-- A pong, the text "Hi" that goes on, a ping, the last fragment "!", and a byte that follows.
abbrev delivered : List ℕ
delivered = 138 ∷ 0 ∷ 1 ∷ 2 ∷ 72 ∷ 105 ∷ 137 ∷ 1 ∷ 7 ∷ 128 ∷ 1 ∷ 33 ∷ 9 ∷ []

abbrev conn : Conn
conn = record { incoming = delivered; sent = []; draws = 0 }

abbrev pong_frame : Frame
pong_frame = frame true 10 []

abbrev first_frame : Frame
first_frame = frame false 1 (72 ∷ 105 ∷ [])

abbrev ping_frame : Frame
ping_frame = frame true 9 (7 ∷ [])

abbrev last_frame : Frame
last_frame = frame true 0 (33 ∷ [])

delivered_frames :
    Frames delivered (pong_frame ∷ first_frame ∷ ping_frame ∷ last_frame ∷ []) (9 ∷ [])
unfolding read_server_frame
delivered_frames = (_, refl, (_, refl, (_, refl, (_, refl, refl))))

within_limit :
    length first_frame.payload + length (fragments (ping_frame ∷ [])) + length last_frame.payload
    ≤ max_web_socket_payload_bytes
unfolding fragments
within_limit = omega arith

read_ws_text-fragments_example :
    read_ws_text net conn
    ≡ some (
        ok (
          72 ∷ 105 ∷ [] ++ (fragments (ping_frame ∷ []) ++ 33 ∷ []),
          record {
            incoming = 9 ∷ [];
            sent = [] ++ pongs (λ i. four) 0 (pong_frame ∷ ping_frame ∷ []);
            draws = 0 + pings (pong_frame ∷ ping_frame ∷ []);
          },
        ))
read_ws_text-fragments_example =
    read_ws_text-fragments net (λ i. four) net-Works conn (pong_frame ∷ []) (ping_frame ∷ [])
      first_frame last_frame (9 ∷ []) (omega arith) refl refl
      (omega arith, (λ z. absurd (omega arith)), tt) refl refl within_limit delivered_frames

read_ws_text-Delivered_example : Delivered delivered (read_ws_text net conn)
read_ws_text-Delivered_example = read_ws_text-Delivered net conn

-- A reply with the first id, in one text frame.
abbrev reply_conn : Conn
reply_conn = record { incoming = 129 ∷ 1 ∷ 33 ∷ []; sent = []; draws = 0 }

abbrev envelope : Envelope
envelope = record {
  message_id = "ma-dlna-1";
  result = "5";
  error = "";
  error_code = "null";
  details = "";
  event = "";
}

abbrev json : Json ℕ
json = record {
  marshal = λ msg_id command args. some hello;
  unmarshal = λ msg. some envelope;
  error_code_string = λ raw. raw;
  decode = λ raw. some 5;
}

abbrev auth_json : Json Bool
auth_json = record {
  marshal = λ msg_id command args. some hello;
  unmarshal = λ msg. some envelope;
  error_code_string = λ raw. raw;
  decode = λ raw. some true;
}

abbrev dial : Dial
dial = record {
  address = none;
  dial = λ u. none;
  websocket_key = none;
  request = λ u key. [];
  read_response = λ bytes. none;
  accept_key = λ key. key;
  token = "";
}

abbrev clock : Clock
clock = record { to_connect = pos 15; to_auth = pos 14; to_send = pos 13 }

abbrev adapter : Adapter
adapter = record { conn = some reply_conn; msg_id = 0 }

first_id : format_id (next_id 0) ≡ "ma-dlna-1"
unfolding format_id next_id
first_id = refl

abbrev item : MaMediaItem
item = record {
  item_id = "a b";
  uri = " http://h/x ";
  provider_mappings = record { item_id = "http://h/y"; url = "" } ∷ [];
}

current_uris-contains_example : contains_text "http://h/y" (current_uris_from_media_item item) ≡ (
    url_is "http://h/y" item.provider_mappings
    || web_id_is "http://h/y" item.provider_mappings
    || eqb (trim_space item.uri) "http://h/y"
    || eqb (trim_space item.item_id) "http://h/y")
unfolding text_discrete Bool-cases
current_uris-contains_example = current_uris-contains "http://h/y" refl item

item_uris : current_uris_from_media_item item ≡ "http://h/y" ∷ "http://h/x" ∷ "a b" ∷ []
unfolding current_uris_from_media_item starts_with text_discrete Bool-cases
item_uris = refl
