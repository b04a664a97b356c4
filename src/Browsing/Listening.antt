-- ===== src/Browsing/Listening.antt =====
-- `listenForServers` of BroadcastBrowsingProvider.java.
use my_stest.Base.{◌-◌, ℤ, Text, List, [], ◌∷◌, ◌++◌, length, take}
use my_stest.Browsing.Packets.{zeros}
use my_stest.Browsing.Responses.{servers, negative_response, extract_servers}
use my_stest.Browsing.Services.{Services, add_service_data}

-- A datagram: the text of the sender's address, and what was sent.
pub record Datagram : Type 0 where
  pub address : Text
  pub payload : Text

-- The array of 1024 bytes that a datagram is received into.
abbrev pub received : Text → Text
received payload = take 1024 payload ++ zeros (1024 - length payload)

unfoldable pub add_names : Text → List Text → Services → Services
unfolding add_service_data
add_names address [] found = found
add_names address (name ∷ names) found =
    add_names address names (add_service_data address name found)

-- The services after the loop has received these datagrams, in this order, before a receive timed
-- out. A BrowsingException ends the loop.
unfoldable pub listen_for_servers : ℤ → List Datagram → Services → Services
unfolding add_names extract_servers
listen_for_servers trans_id [] found = found
listen_for_servers trans_id (packet ∷ packets) found =
    elim (extract_servers (received packet.payload) trans_id) [
      | servers names ↦ listen_for_servers trans_id packets (add_names packet.address names found)
      | negative_response ↦ found
    ]
