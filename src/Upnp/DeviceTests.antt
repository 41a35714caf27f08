-- ===== src/Upnp/DeviceTests.antt =====
-- Witnesses of the theorems about events, callbacks, escapes and the volume, and runs of their functions.
use ma_dlna.Base.{
  ◌≡◌, ◌≢◌, refl, true, false, List, [], ◌∷◌, some, String, All, text_discrete, Bool-cases,
  ne_of_differ,
}
use ma_dlna.Base.Int.{pos}
use ma_dlna.Config.Security.{
  v4, is_loopback, is_link_local_unicast, is_link_local_multicast, is_multicast, is_unspecified,
}
use ma_dlna.Session.Metadata.{split}
use ma_dlna.Upnp.Events.{no_events, add, response, notify, take_next, send_it, removal, Step}
use ma_dlna.Upnp.Events
use ma_dlna.Upnp.Events.Order.Runs.{IsOrdered, run-IsOrdered}
use ma_dlna.Upnp.Events.Serve.{Resolver, extract_callback_urls, validate_callback}
use ma_dlna.Upnp.Events.Serve.Pinned.{IsOwn, validate_callback-All}
use ma_dlna.Upnp.Xml.{escape_xml, unescape_xml}
use ma_dlna.Upnp.Xml.RoundTrip.{unescape_xml-escape_xml}
use ma_dlna.Upnp.Rendering.{new_rendering, Command, volume_command, mute_command}
use ma_dlna.Upnp.Rendering
use ma_dlna.Upnp.Rendering.Agrees.{Agrees, run-Agrees}

-- A subscription, an event before the worker runs, and two deliveries.
abbrev schedule : List Step
schedule =
    add "uuid:1" "<http://10.0.0.5/e>" "10.0.0.5" "AVTransport" "first" (pos 0)
    ∷ notify "AVTransport" "second" (pos 1)
    ∷ take_next 0
    ∷ response 0
    ∷ send_it 0
    ∷ take_next 0
    ∷ send_it 0
    ∷ removal "uuid:1"
    ∷ []

run-IsOrdered_example : IsOrdered ((Events.run schedule no_events).subscriber_at 0)
run-IsOrdered_example = run-IsOrdered schedule 0

abbrev here : Resolver
here = record {
  parse = λ s.
      some (record { scheme = "http"; host = "h"; path = "/e"; raw_query = ""; fragment = "" });
  resolve = λ u. some (v4 167772165 ∷ []);
  ip_text = λ ip. "10.0.0.5";
}

abbrev header : String
header = "<http://10.0.0.5/e>"

header_pin : validate_callback here false header "10.0.0.5" ≡ some "10.0.0.5"
unfolding validate_callback text_discrete Bool-cases split is_loopback is_link_local_unicast
    is_link_local_multicast is_multicast is_unspecified
header_pin = refl

validate_callback-All_example :
    (◌≡◌ {A = String} "10.0.0.5" "10.0.0.5")
    × (extract_callback_urls header ≢ [])
    × All (IsOwn here false "10.0.0.5") (extract_callback_urls header)
validate_callback-All_example =
    validate_callback-All here false "10.0.0.5" header "10.0.0.5" (ne_of_differ "10.0.0.5" "" refl)
      header_pin

unescape_xml-escape_xml_example : unescape_xml (escape_xml "<a b=\"&lt;\">") ≡ "<a b=\"&lt;\">"
unescape_xml-escape_xml_example = unescape_xml-escape_xml "<a b=\"&lt;\">"

escaped_once : escape_xml "<a b=\"&lt;\">" ≡ "&lt;a b=&quot;&amp;lt;&quot;&gt;"
unfolding escape_xml
escaped_once = refl

-- A mute, a volume of 20 that fails, one of 200, and the end of a mute.
abbrev commands : List Command
commands =
    mute_command true true
    ∷ volume_command false (some (pos 20))
    ∷ volume_command true (some (pos 200))
    ∷ mute_command true false
    ∷ []

run-Agrees_example : Agrees (Rendering.run commands new_rendering)
run-Agrees_example = run-Agrees commands

commands_volume : (Rendering.run commands new_rendering).volume ≡ 100
unfolding Rendering.run
commands_volume = refl
