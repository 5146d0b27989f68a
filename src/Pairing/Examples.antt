-- ===== src/Pairing/Examples.antt =====
-- A visit to the page, and the theorems at it.
use remote_agent.Common.{
  texts_differ, ◌≡◌, refl, true, false, none, some, or_else, [], ◌==◌, string_eq, if◌then◌else◌,
}
use remote_agent.Connection.{truthy}
use remote_agent.Pairing.{Address, Store}
use remote_agent.Pairing.Arrival.{
  arrived, target-build_href, parse_pair_text-build_href, Arrives, connect-Arrives,
}
use remote_agent.Pairing.Links.{PairFields, pair_params, build_href, parse_pair_text}
use remote_agent.Pairing.Page.{Page, connect, go, typed_relay}
use remote_agent.Pairing.Relays.{normalize_client_relay}
use remote_agent.Pairing.Sample.{browser, browser_params, sample_runs}
use remote_agent.Pairing.Target.{target, own_ws}

abbrev here : Address
here = record {
  is_https = true;
  host = "h";
  origin = "https://h";
  pathname = "/";
  search = "";
  hash = "";
}

abbrev fields : PairFields
fields = record { relay = some "wss://r/ws"; device = "d"; token = "t" }

abbrev empty : Store
empty = record { relays = none; last_relay = none; conns = none }

target-build_href_example :
    target browser false (arrived browser here fields)
    ≡ some (record {
      url = or_else (truthy fields.relay) (own_ws (arrived browser here fields));
      hello = record { device_id = "d"; token = some "t" };
      mode = "relay";
    })
target-build_href_example =
    target-build_href browser browser_params false here fields (texts_differ "d" "" refl)

link_read :
    browser.parse_url (browser.trim (build_href browser here fields))
    ≡ some (arrived browser here fields)
unfolding sample_runs build_href pair_params arrived
link_read = refl

parse_pair_text-build_href_example :
    parse_pair_text browser
      (record here { origin = "https://elsewhere" })
      (build_href browser here fields)
    ≡ some (record {
      relay =
          if here.origin == "https://elsewhere"
          then none
          else some (own_ws (arrived browser here fields));
      device = "d";
      token = "t";
    })
parse_pair_text-build_href_example =
    parse_pair_text-build_href browser browser_params (record here { origin = "https://elsewhere" })
      here fields (texts_differ "d" "" refl) (texts_differ "t" "" refl) link_read

abbrev filled : Page
filled = record {
  paste = "";
  relay = "r";
  token = "t";
  device = some "d";
  error = none;
  recents = [];
  relays = [];
  selected_relay = "";
  adding_relay = true;
  switching_relay = false;
}

goes :
    (connect browser here (filled, empty)).2
    ≡ some
        (build_href browser here (record { relay = some "wss://r/ws"; device = "d"; token = "t" }))
unfolding connect go typed_relay normalize_client_relay sample_runs
goes = refl

connect-Arrives_example :
    Arrives browser false here filled
      (connect browser here (filled, empty)).1
      (build_href browser here (record { relay = some "wss://r/ws"; device = "d"; token = "t" }))
connect-Arrives_example = connect-Arrives browser browser_params false here filled empty _ goes
